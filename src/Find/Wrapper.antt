-- ===== src/Find/Wrapper.antt =====
-- The search of src/c/find.c inside a window that wraps the editor's windows.
use aviutl_psdtoolkit.Base.{
  ℕ, Bool, true, false, ◌&&◌, none, Option, ◌==◌, if◌then◌else◌, same_text, Chars, codes, M, ◌≡◌,
  refl, ap, Ovstr,
}
use aviutl_psdtoolkit.Find.Search.{
  window, Windows, no_windows, next_window,
  find_extended_filter_class_from_single_window_wrapper_child,
  find_extended_filter_class_from_single_window_wrapper, find_extended_filter_window, find_in,
  or_else, find_exedit_multi_line_text,
}

both_none :
    {A : Type 0} (b : Bool) (x y : Option A) → x ≡ none → y ≡ none → (if b then x else y) ≡ none
both_none true x y e f = e
both_none false x y e f = f

child_none : (ws : Windows) → find_extended_filter_class_from_single_window_wrapper_child ws ≡ none
unfolding find_extended_filter_class_from_single_window_wrapper_child
child_none no_windows = refl
child_none (next_window (window hwnd pid style class visible children) rest) =
    both_none (same_text class (codes "ExtendedFilterClass") && visible) _ _ (child_none children)
      (child_none rest)

wrapper_none :
    (me : ℕ) (ws : Windows) → find_extended_filter_class_from_single_window_wrapper me ws ≡ none
unfolding find_extended_filter_class_from_single_window_wrapper
wrapper_none me no_windows = refl
wrapper_none me (next_window (window hwnd pid style class visible children) rest) =
    both_none (same_text class (codes "AVIUTLSINGLEWINDOW") && pid == me && visible) _ _
      (child_none children) (wrapper_none me rest)

-- For every desktop, find_exedit_multi_line_text does what it would do if it looked only for the
-- first visible top-level window of the editor's class in the plug-in's process: the search inside
-- a wrapping window never finds one, whatever windows there are.
pub find_exedit_multi_line_text-top_level :
    {W : Type 0} (lib : Ovstr W) (get_window_text : ℕ → M W Chars) (me : ℕ) (desktop : Windows)
    (included_text : Chars)
    → find_exedit_multi_line_text lib get_window_text me desktop included_text
      ≡ find_in lib get_window_text included_text (find_extended_filter_window me desktop)
unfolding find_exedit_multi_line_text or_else
find_exedit_multi_line_text-top_level lib get_window_text me desktop included_text =
    ap
      (λ w.
        find_in lib get_window_text included_text
          (or_else lib get_window_text w (find_extended_filter_window me desktop)))
      (wrapper_none me desktop)
