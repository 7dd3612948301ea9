-- ===== src/Find/Search.antt =====
-- The windows that src/c/find.c looks through, and `find_exedit_multi_line_text`.
use aviutl_psdtoolkit.Base.{
  ℕ, ◌%◌, ◌/◌, Bool, ◌&&◌, Option, none, some, ◌==◌, if◌then◌else◌, same_text, Chars, codes, M,
  ◌>>=◌, pure, raise, not_found, Ovstr,
}

-- The windows of the desktop, in the order in which FindWindowEx gives them.
mutual
  pub data Window : Type 0 where
    window : (hwnd pid style : ℕ) (class : Chars) (visible : Bool) (children : Windows) → Window

  pub data Windows : Type 0 where
    no_windows : Windows
    next_window : Window → Windows → Windows

-- A visible child of the class is looked through in turn.
unfoldable pub find_extended_filter_class_from_single_window_wrapper_child : Windows → Option Window
find_extended_filter_class_from_single_window_wrapper_child no_windows = none
find_extended_filter_class_from_single_window_wrapper_child
      (next_window (window hwnd pid style class visible children) rest) =
    let deeper = find_extended_filter_class_from_single_window_wrapper_child children in
    let later = find_extended_filter_class_from_single_window_wrapper_child rest in
    if same_text class (codes "ExtendedFilterClass") && visible then deeper else later

-- `me` is the process of the plug-in.
unfoldable pub find_extended_filter_class_from_single_window_wrapper : ℕ → Windows → Option Window
find_extended_filter_class_from_single_window_wrapper me no_windows = none
find_extended_filter_class_from_single_window_wrapper me
      (next_window (window hwnd pid style class visible children) rest) =
    let later = find_extended_filter_class_from_single_window_wrapper me rest in
    let inside = find_extended_filter_class_from_single_window_wrapper_child children in
    if same_text class (codes "AVIUTLSINGLEWINDOW") && pid == me && visible then inside else later

unfoldable pub find_extended_filter_window : ℕ → Windows → Option Window
find_extended_filter_window me no_windows = none
find_extended_filter_window me (next_window (window hwnd pid style class visible children) rest) =
    let later = find_extended_filter_window me rest in
    if same_text class (codes "ExtendedFilterClass") && pid == me && visible
    then some (window hwnd pid style class visible children)
    else later

-- The styles ES_MULTILINE, bit 2, and ES_WANTRETURN, bit 12.
unfoldable pub is_multi_line : ℕ → Bool
is_multi_line style = ((style / 4) % 2 == 1) && ((style / 4096) % 2 == 1)

module _ {W : Type 0} (lib : Ovstr W) (get_window_text : ℕ → M W Chars) where
  unfoldable pub found_or : {A : Type 0} → Option ℕ → M W A → M W A → M W A
  found_or none here later = later
  found_or (some pos) here later = here

  -- The loop over the controls of the window `wnd`.
  unfoldable pub find_edit : Chars → ℕ → Windows → M W (ℕ × ℕ)
  find_edit included_text wnd no_windows = raise not_found
  find_edit included_text wnd (next_window (window hwnd pid style class visible children) rest) =
      let later = find_edit included_text wnd rest in
      if same_text class (codes "Edit") && visible && is_multi_line style
      then (get_window_text hwnd >>= λ tmp.
          lib.sstr tmp included_text >>= λ pos. found_or pos (pure (wnd, hwnd)) later)
      else later

  unfoldable pub find_in : Chars → Option Window → M W (ℕ × ℕ)
  find_in included_text none = raise not_found
  find_in included_text (some (window hwnd pid style class visible children)) =
      find_edit included_text hwnd children

  unfoldable pub or_else : Option Window → Option Window → Option Window
  or_else none later = later
  or_else (some w) later = some w

  -- The text to include is not null, nor are the pointers to the results.
  unfoldable pub find_exedit_multi_line_text : ℕ → Windows → Chars → M W (ℕ × ℕ)
  find_exedit_multi_line_text me desktop included_text = find_in included_text (
      or_else (find_extended_filter_class_from_single_window_wrapper me desktop)
        (find_extended_filter_window me desktop))
