-- ===== src/Find/Dialog.antt =====
-- `find_dialog` and `find_exedit_multi_parameter_dialog` of src/c/find.c.
use aviutl_psdtoolkit.Base.{
  ℕ, ◌+◌, ◌-◌, Bool, not, ◌&&◌, ◌||◌, List, [], ◌∷◌, ◌++◌, Option, none, some, ltb, ◌==◌,
  if◌then◌else◌, same_text, length, codes, ℤ, pos, negsuc, ◌+ℤ◌, ◌-ℤ◌, ltℤ, half, M, ◌>>=◌, ◌>>◌,
  pure, raise, not_found, overrun, Ovstr,
}
use aviutl_psdtoolkit.Find.Search.{Window, window, Windows, no_windows, next_window}

-- `RECT` and `POINT`
pub record Rect : Type 0 where
  pub left : ℤ
  pub top : ℤ
  pub right : ℤ
  pub bottom : ℤ

pub record Point : Type 0 where
  pub x : ℤ
  pub y : ℤ

pub record Control : Type 0 where
  pub label : ℕ
  pub edit : ℕ
  pub edit_rect : Rect

pub record MultiParameterDialog : Type 0 where
  pub dialog : ℕ
  pub labels : List ℕ
  pub edits : List ℕ

-- What Windows answers about the windows; `none` where the call fails. The coordinates are far from
-- the bounds of a LONG. `screen_to_client` moves a point.
pub record Layout : Type 0 where
  pub get_dlg_ctrl_id : ℕ → ℕ
  pub get_dlg_item : (dialog ctrl_id : ℕ) → Option ℕ
  pub is_window_visible : ℕ → Bool
  pub get_window_rect : ℕ → Option Rect
  pub get_client_rect : ℕ → Option Rect
  pub screen_to_client : ℕ → Point → Option Point

unfoldable pub control_compare : Control → Control → ℤ
control_compare aa bb =
    if ltℤ aa.edit_rect.top bb.edit_rect.top
    then negsuc 0
    else if ltℤ bb.edit_rect.top aa.edit_rect.top
    then pos 1
    else pos 0

-- The tests of `find_dialog` on a top-level window; `me` is the process of the plug-in.
unfoldable pub is_dialog : ℕ → Window → Bool
is_dialog me (window hwnd pid style class visible children) =
    same_text class (codes "#32770") && pid == me && visible

unfoldable pub moved : Point → Rect → Rect
moved pt r = record {
  left = r.left +ℤ pt.x;
  top = r.top +ℤ pt.y;
  right = r.right +ℤ pt.x;
  bottom = r.bottom +ℤ pt.y;
}

-- The edit control is behind the label, on its height, and begins inside the window.
unfoldable pub fits_beside : (wnd label edit : Rect) → Bool
fits_beside wnd label edit =
    let y = half (edit.top +ℤ edit.bottom) in
    not (
      ltℤ y label.top
      || ltℤ label.bottom y
      || ltℤ edit.left label.right
      || ltℤ (wnd.right -ℤ wnd.left) edit.left)

unfoldable pub is_label_id : ℕ → Bool
is_label_id ctrl_id = not (ltb ctrl_id 131 || ltb 170 ctrl_id)

module _ (screen : Layout) where
  unfoldable pub placed :
      Rect → Point → (label edit : ℕ) → Option Rect → Option Rect → Option Control
  placed wnd pt label edit none e = none
  placed wnd pt label edit (some l) none = none
  placed wnd pt label edit (some l) (some e) =
      if fits_beside wnd (moved pt l) (moved pt e)
      then some (record { label = label; edit = edit; edit_rect = moved pt e })
      else none

  unfoldable pub with_edit : Rect → Point → ℕ → Option ℕ → Option Control
  with_edit wnd pt label none = none
  with_edit wnd pt label (some edit) =
      if screen.is_window_visible edit
      then placed wnd pt label edit (screen.get_window_rect label) (screen.get_window_rect edit)
      else none

  -- The body of the inner loop: the control to be added, or none where it goes on.
  unfoldable pub control_of : ℕ → Rect → Point → (label : ℕ) → (visible : Bool) → Option Control
  control_of h wnd pt label visible =
      let ctrl_id = screen.get_dlg_ctrl_id label in
      if is_label_id ctrl_id && visible
      then with_edit wnd pt label (screen.get_dlg_item h (ctrl_id - 131 + 171))
      else none

  module _ {W : Type 0} (lib : Ovstr W) where
    unfoldable pub push : List Control → Option Control → M W (List Control)
    push controls none = pure controls
    push controls (some c) = do lib.apush; pure (controls ++ c ∷ [])

    -- The inner loop, over the children of `h` of the class of labels.
    unfoldable pub collect : ℕ → Rect → Point → Windows → List Control → M W (List Control)
    collect h wnd pt no_windows controls = pure controls
    collect h wnd pt (next_window (window label pid style class visible children) rest) controls =
        (push controls
          (if same_text class (codes "Static") then control_of h wnd pt label visible else none))
        >>= collect h wnd pt rest

    -- The body of the outer loop on a dialog, with what the loop does when it goes on from a point.
    -- The point is where the last conversion left it.
    unfoldable pub scan_dialog :
        Window
        → (Point → M W (ℕ × List Control))
        → Point
        → Rect
        → Option Point
        → M W (ℕ × List Control)
    scan_dialog w later pt wnd none = later pt
    scan_dialog (window h pid style class visible children) later pt wnd (some pt') =
        collect h wnd pt' children [] >>= λ controls.
        if length controls == 0 then later pt' else pure (h, controls)

    unfoldable pub enter_dialog :
        Window → (Point → M W (ℕ × List Control)) → Point → Option Rect → M W (ℕ × List Control)
    enter_dialog w later pt none = later pt
    enter_dialog (window h pid style class visible children) later pt (some wnd) =
        scan_dialog (window h pid style class visible children) later pt wnd
          (screen.screen_to_client h pt)

    -- The outer loop, over the top-level windows.
    unfoldable pub search_dialogs : ℕ → Windows → Point → M W (ℕ × List Control)
    search_dialogs me no_windows pt = raise not_found
    search_dialogs me (next_window (window h pid style class visible children) rest) pt =
        let later = search_dialogs me rest in
        if is_dialog me (window h pid style class visible children)
        then enter_dialog (window h pid style class visible children) later pt
            (screen.get_client_rect h)
        else later pt

    -- The last loop: the arrays of the result have 40 elements each.
    unfoldable pub store : List Control → MultiParameterDialog → M W MultiParameterDialog
    store [] dlg = pure dlg
    store (c ∷ cs) dlg =
        if ltb (length dlg.labels) 40
        then store cs
            (record dlg { labels = dlg.labels ++ c.label ∷ []; edits = dlg.edits ++ c.edit ∷ [] })
        else raise overrun

    -- `qsort` is the C library's. `dlg` is not null.
    unfoldable pub find_exedit_multi_parameter_dialog :
        ((Control → Control → ℤ) → List Control → List Control)
        → ℕ
        → Windows
        → M W MultiParameterDialog
    find_exedit_multi_parameter_dialog qsort me desktop = do
      found ← search_dialogs me desktop (record { x = pos 0; y = pos 0 })
      store (qsort control_compare found.1) (record { dialog = found.0; labels = []; edits = [] })
