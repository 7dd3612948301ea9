-- ===== src/Find/Tests.antt =====
-- A desktop for the search of src/c/find.c.
use aviutl_psdtoolkit.Base.{
  Meets, NoError, pure-Meets, ◌⊎◌, arith, true, same_text, not_found, err, ok, codes, pure, ◌>>=◌,
  ◌≡◌, refl,
}
use aviutl_psdtoolkit.Plain.{plain, plain-laws, is_prefix, search_from}
use aviutl_psdtoolkit.Find.Search.{
  Window, window, Windows, no_windows, next_window, find_exedit_multi_line_text, find_in, find_edit,
  found_or, or_else, is_multi_line, find_extended_filter_window,
  find_extended_filter_class_from_single_window_wrapper,
  find_extended_filter_class_from_single_window_wrapper_child,
}
use aviutl_psdtoolkit.Find.Located.{Absent, Located, find_exedit_multi_line_text-Located}

abbrev edit_window : Window
edit_window = window 3 9 0x1004 (codes "Edit") true no_windows

abbrev dialog : Window
dialog = window 2 9 0 (codes "ExtendedFilterClass") true (next_window edit_window no_windows)

-- The dialog of the editor is a window of its own.
abbrev top_level : Windows
top_level = next_window dialog no_windows

-- The dialog is inside the window of the wrapper.
abbrev wrapped : Windows
wrapped = next_window (window 1 9 0 (codes "AVIUTLSINGLEWINDOW") true top_level) no_windows

run_top_level :
    (find_exedit_multi_line_text plain
      (λ h. pure (codes "ptkf=\"a\""))
      9
      top_level
      (codes "ptkf=\"")
      tt).0
    ≡ ok (2, 3)
unfolding find_exedit_multi_line_text find_in find_edit found_or or_else is_multi_line
    find_extended_filter_window find_extended_filter_class_from_single_window_wrapper
    find_extended_filter_class_from_single_window_wrapper_child same_text ◌>>=◌ is_prefix
    search_from
run_top_level = refl

run_wrapped :
    (find_exedit_multi_line_text plain
      (λ h. pure (codes "ptkf=\"a\""))
      9
      wrapped
      (codes "ptkf=\"")
      tt).0
    ≡ err not_found
unfolding find_exedit_multi_line_text find_in find_edit found_or or_else is_multi_line
    find_extended_filter_window find_extended_filter_class_from_single_window_wrapper
    find_extended_filter_class_from_single_window_wrapper_child same_text ◌>>=◌
run_wrapped = refl

-- The dialog of another process comes first.
abbrev after_another : Windows
after_another =
    next_window
      (window 7 8 0 (codes "ExtendedFilterClass") true (next_window edit_window no_windows))
      top_level

find_exedit_multi_line_text-Located_example :
    Meets
      (λ e.
        ((e ≡ not_found) × Absent (λ h. codes "ptkf=\"a\"") (codes "ptkf=\"") 9 after_another)
        ⊎ NoError e)
      (Located (λ h. codes "ptkf=\"a\"") (codes "ptkf=\"") 9 after_another)
      (find_exedit_multi_line_text plain
        (λ h. pure (codes "ptkf=\"a\""))
        9
        after_another
        (codes "ptkf=\""))
find_exedit_multi_line_text-Located_example =
    find_exedit_multi_line_text-Located plain plain-laws (λ h. pure (codes "ptkf=\"a\""))
      (λ h. codes "ptkf=\"a\"") (λ h. pure-Meets _ refl) (λ h. omega arith) (codes "ptkf=\"")
      (omega arith) 9 after_another
