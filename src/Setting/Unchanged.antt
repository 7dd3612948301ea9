-- ===== src/Setting/Unchanged.antt =====
-- The dialog of src/c/setting.c when the user only confirms it.
use aviutl_psdtoolkit.Base.{
  ℕ, zero, suc, ◌+◌, ◌*◌, ◌%◌, ◌^◌, ◌-◌, ◌<◌, Bool, true, ltb, ◌==◌, if◌then◌else◌, some, Chars, ok,
  ◌≡◌, refl, ap, ◌∙◌,
}
use aviutl_psdtoolkit.Setting.Props.{SettingDialog}
use aviutl_psdtoolkit.Setting.Dialog.{
  Controls, set_check, set_int, int_of, text_int, get_int, add_numbers, init_checks, init_lipsync,
  init_mpslider, init_subtitle, init_fire, init_dialog, read_dialog,
}

-- What the controls show, by their ids.
pub record Shown : Type 0 where
  pub buttons : ℕ → Bool
  pub texts : ℕ → Chars
  pub items : ℕ → ℕ
  pub selections : ℕ → ℕ

-- `f` with another value at `i`.
abbrev pub replaced : {A : Type 0} → ℕ → A → (ℕ → A) → ℕ → A
replaced i a f j = if j == i then a else f j

-- An index behind the items selects none.
abbrev pub selectable : ℕ → ℕ → ℕ
selectable index n = if ltb index n then index else 2 ^ 32 - 1

pub record ControlLaws {W : Type 0} (ui : Controls W) (view : W → Shown) : Type 0 where
  pub set_button_lem :
      (id : ℕ) (b : Bool) (w : W)
      → view (ui.set_button id b w) ≡ record (view w) { buttons = replaced id b (view w).buttons }
  pub get_button_lem : (id : ℕ) (w : W) → ui.get_button id w ≡ (view w).buttons id
  pub set_control_text_lem :
      (id : ℕ) (s : Chars) (w : W)
      → view (ui.set_control_text id s w) ≡ record (view w) { texts = replaced id s (view w).texts }
  pub get_control_text_lem :
      (id : ℕ) (w : W) → (ui.get_control_text id w).0 ≡ ok ((view w).texts id)
  pub get_control_text_keeps : (id : ℕ) (w : W) → view (ui.get_control_text id w).1 ≡ view w
  pub add_string_lem :
      (id : ℕ) (s : Chars) (w : W)
      → view (ui.add_string id s w)
        ≡ record (view w) { items = replaced id ((view w).items id + 1) (view w).items }
  pub widen_lem : (id : ℕ) (w : W) → view (ui.widen id w) ≡ view w
  pub set_selection_lem :
      (id index : ℕ) (w : W)
      → view (ui.set_selection id index w) ≡ record (view w) {
        selections = replaced id (selectable index ((view w).items id)) (view w).selections;
      }
  pub get_selection_lem : (id : ℕ) (w : W) → ui.get_selection id w ≡ (view w).selections id
  pub set_title_lem : (w : W) → view (ui.set_title w) ≡ view w
  pub format_lem :
      (n : ℕ) → n < 2 ^ 32 → (v : ℕ) × (ui.satoi (ui.format n) ≡ some v) × (v % 2 ^ 32 ≡ n)

-- Numbers of 32 bits, and items that the lists have.
pub record Fits (sd : SettingDialog) : Type 0 where
  pub lipsync_group_id_fits : sd.lipsync_group_id < 2 ^ 32
  pub lipsync_offset_fits : sd.lipsync_offset < 2 ^ 32
  pub mpslider_number_fits : ltb sd.mpslider_number 10 ≡ true
  pub mpslider_group_id_fits : sd.mpslider_group_id < 2 ^ 32
  pub mpslider_margin_left_fits : sd.mpslider_margin_left < 2 ^ 32
  pub mpslider_margin_right_fits : sd.mpslider_margin_right < 2 ^ 32
  pub subtitle_encoding_fits : ltb sd.subtitle_encoding 2 ≡ true
  pub subtitle_group_id_fits : sd.subtitle_group_id < 2 ^ 32
  pub subtitle_margin_left_fits : sd.subtitle_margin_left < 2 ^ 32
  pub subtitle_margin_right_fits : sd.subtitle_margin_right < 2 ^ 32

module _ {W : Type 0} (ui : Controls W) (view : W → Shown) (laws : ControlLaws ui view) where
  abbrev with_button : ℕ → Bool → Shown → Shown
  with_button id b s = record s { buttons = replaced id b s.buttons }

  abbrev with_text : ℕ → ℕ → Shown → Shown
  with_text id n s = record s { texts = replaced id (ui.format n) s.texts }

  abbrev with_item : ℕ → Shown → Shown
  with_item id s = record s { items = replaced id (s.items id + 1) s.items }

  abbrev with_selection : ℕ → ℕ → Shown → Shown
  with_selection id index s = record s {
    selections = replaced id (selectable index (s.items id)) s.selections;
  }

  button_view :
      (id : ℕ) (b : Bool) {w : W} {s : Shown}
      → view w ≡ s
      → view (set_check ui id b w) ≡ with_button id b s
  unfolding set_check
  button_view id b {w} e = laws.set_button_lem id b w ∙ ap (with_button id b) e

  text_view :
      (id n : ℕ) {w : W} {s : Shown} → view w ≡ s → view (set_int ui id n w) ≡ with_text id n s
  unfolding set_int
  text_view id n {w} e = laws.set_control_text_lem id (ui.format n) w ∙ ap (with_text id n) e

  item_view :
      (id : ℕ) (t : Chars) {w : W} {s : Shown}
      → view w ≡ s
      → view (ui.add_string id t w) ≡ with_item id s
  item_view id t {w} e = laws.add_string_lem id t w ∙ ap (with_item id) e

  -- The list of `id` widened, and an item selected.
  selection_view :
      (id index : ℕ) {w : W} {s : Shown}
      → view w ≡ s
      → view (ui.set_selection id index (ui.widen id w)) ≡ with_selection id index s
  selection_view id index {w} e =
      laws.set_selection_lem id index (ui.widen id w)
      ∙ ap (with_selection id index) (laws.widen_lem id w ∙ e)

  abbrev with_items : ℕ → Shown → Shown
  with_items zero s = s
  with_items (suc k) s = with_items k (with_item 2000 s)

  numbers_view :
      (i k : ℕ) {w : W} {s : Shown} → view w ≡ s → view (add_numbers ui i k w) ≡ with_items k s
  unfolding add_numbers
  numbers_view i zero e = e
  numbers_view i (suc k) e = numbers_view (i + 1) k (item_view 2000 (ui.format (i * 4)) e)

  abbrev shown_checks : SettingDialog → Shown → Shown
  shown_checks sd s = with_button 103 sd.merge_preps (
      with_button 102 sd.generate_subtitle
        (with_button 101 sd.generate_mpslider (with_button 100 sd.generate_lipsync s)))

  abbrev shown_lipsync : SettingDialog → Shown → Shown
  shown_lipsync sd s = with_text 1001 sd.lipsync_offset (with_text 1000 sd.lipsync_group_id s)

  abbrev shown_mpslider : SettingDialog → Shown → Shown
  shown_mpslider sd s = with_text 2003 sd.mpslider_margin_right (
      with_text 2002 sd.mpslider_margin_left (
        with_text 2001 sd.mpslider_group_id
          (with_selection 2000 sd.mpslider_number (with_items 10 s))))

  abbrev shown_subtitle : SettingDialog → Shown → Shown
  shown_subtitle sd s = with_text 3003 sd.subtitle_margin_right (
      with_text 3002 sd.subtitle_margin_left (
        with_text 3001 sd.subtitle_group_id
          (with_selection 3000 sd.subtitle_encoding (with_item 3000 (with_item 3000 s)))))

  abbrev shown_fire : SettingDialog → Shown → Shown
  shown_fire sd s =
      with_button 106 sd.fire_exo (with_button 105 sd.fire_wavtxt (with_button 104 sd.fire_shift s))

  -- What the dialog shows when it opens.
  abbrev shown : SettingDialog → Shown → Shown
  shown sd s =
      shown_fire sd (shown_subtitle sd (shown_mpslider sd (shown_lipsync sd (shown_checks sd s))))

  init_dialog-shown : (sd : SettingDialog) (w : W) → view (init_dialog ui sd w) ≡ shown sd (view w)
  unfolding init_dialog init_checks init_lipsync init_mpslider init_subtitle init_fire
  init_dialog-shown sd w = button_view 106 _ (
      button_view 105 _ (
        button_view 104 _ (
          text_view 3003 _ (
            text_view 3002 _ (
              text_view 3001 _ (
                selection_view 3000 _ (
                  item_view 3000 _ (
                    item_view 3000 _ (
                      text_view 2003 _ (
                        text_view 2002 _ (
                          text_view 2001 _ (
                            selection_view 2000 _ (
                              numbers_view 1 10 (
                                text_view 1001 _ (
                                  text_view 1000 _ (
                                    button_view 103 _ (
                                      button_view 102 _ (
                                        button_view 101 _ (
                                          button_view 100 _
                                            (laws.set_title_lem w))))))))))))))))))))

  int_of-format : (n def : ℕ) → n < 2 ^ 32 → int_of ui (ui.satoi (ui.format n)) def ≡ n
  unfolding int_of
  int_of-format n def lt = let (v, e, f) = laws.format_lem n lt in ap (λ o. int_of ui o def) e ∙ f

  get_int-text :
      (id def n : ℕ) {w : W}
      → (view w).texts id ≡ ui.format n
      → n < 2 ^ 32
      → (get_int ui id def w).0 ≡ n
  unfolding get_int text_int
  get_int-text id def n {w} e lt =
      ap (λ r. text_int ui r def) (laws.get_control_text_lem id w ∙ ap ok e)
      ∙ int_of-format n def lt

  get_int-view : (id def : ℕ) (w : W) → view (get_int ui id def w).1 ≡ view w
  unfolding get_int
  get_int-view id def w = laws.get_control_text_keeps id w

  selectable-below : (index n : ℕ) → ltb index n ≡ true → selectable index n ≡ index
  selectable-below index n e = ap (λ b. if b then index else 2 ^ 32 - 1) e

  checked_is : (id : ℕ) {w : W} {s : Shown} → view w ≡ s → ui.get_button id w ≡ s.buttons id
  checked_is id {w} e = laws.get_button_lem id w ∙ ap (λ v. v.buttons id) e

  text_is :
      (id def n : ℕ) {w : W} {s : Shown}
      → view w ≡ s
      → s.texts id ≡ ui.format n
      → n < 2 ^ 32
      → (get_int ui id def w).0 ≡ n
  text_is id def n e f lt = get_int-text id def n (ap (λ v. v.texts id) e ∙ f) lt

  selected_is :
      (id index n : ℕ) {w : W} {s : Shown}
      → view w ≡ s
      → s.selections id ≡ selectable index n
      → ltb index n ≡ true
      → ui.get_selection id w ≡ index
  selected_is id index n {w} e f lt =
      laws.get_selection_lem id w ∙ ap (λ v. v.selections id) e ∙ f ∙ selectable-below index n lt

  -- A reading on the way changes nothing that is shown.
  next_view : (id def : ℕ) {w : W} {s : Shown} → view w ≡ s → view (get_int ui id def w).1 ≡ s
  next_view id def {w} e = get_int-view id def w ∙ e

  read_dialog-shown :
      (sd : SettingDialog) (s : Shown) (w : W)
      → Fits sd
      → s.items 2000 ≡ 0
      → s.items 3000 ≡ 0
      → view w ≡ shown sd s
      → (read_dialog ui w).0 ≡ sd
  unfolding read_dialog
  read_dialog-shown sd s w fits a b e i =
      let e1 = next_view 1000 1 e in
      let e2 = next_view 1001 0 e1 in
      let e3 = next_view 2001 1 e2 in
      let e4 = next_view 2002 0 e3 in
      let e5 = next_view 2003 0 e4 in
      let e6 = next_view 3001 1 e5 in
      let e7 = next_view 3002 0 e6 in
      let e8 = next_view 3003 0 e7 in
      record {
        generate_lipsync = checked_is 100 e i;
        generate_mpslider = checked_is 101 e i;
        generate_subtitle = checked_is 102 e i;
        merge_preps = checked_is 103 e i;
        lipsync_group_id = text_is 1000 1 sd.lipsync_group_id e refl fits.lipsync_group_id_fits i;
        lipsync_offset = text_is 1001 0 sd.lipsync_offset e1 refl fits.lipsync_offset_fits i;
        mpslider_number =
            selected_is 2000 sd.mpslider_number 10 e2
              (ap (λ n. selectable sd.mpslider_number (n + 1 + 1 + 1 + 1 + 1 + 1 + 1 + 1 + 1 + 1))
                a)
              fits.mpslider_number_fits i;
        mpslider_group_id =
            text_is 2001 1 sd.mpslider_group_id e2 refl fits.mpslider_group_id_fits i;
        mpslider_margin_left =
            text_is 2002 0 sd.mpslider_margin_left e3 refl fits.mpslider_margin_left_fits i;
        mpslider_margin_right =
            text_is 2003 0 sd.mpslider_margin_right e4 refl fits.mpslider_margin_right_fits i;
        subtitle_encoding =
            selected_is 3000 sd.subtitle_encoding 2 e5
              (ap (λ n. selectable sd.subtitle_encoding (n + 1 + 1)) b) fits.subtitle_encoding_fits
              i;
        subtitle_group_id =
            text_is 3001 1 sd.subtitle_group_id e5 refl fits.subtitle_group_id_fits i;
        subtitle_margin_left =
            text_is 3002 0 sd.subtitle_margin_left e6 refl fits.subtitle_margin_left_fits i;
        subtitle_margin_right =
            text_is 3003 0 sd.subtitle_margin_right e7 refl fits.subtitle_margin_right_fits i;
        fire_shift = checked_is 104 e8 i;
        fire_wavtxt = checked_is 105 e8 i;
        fire_exo = checked_is 106 e8 i;
      }

  -- With the documented effect of the controls, the text of each read without an error, and a
  -- conversion that reads a written number of 32 bits back: for settings with such numbers, a
  -- slider's item below 10 and an encoding below 2, and lists that are still empty, what IDOK
  -- reads from a dialog that was just filled is the same settings.
  pub read_dialog-init_dialog :
      (sd : SettingDialog) (w : W)
      → Fits sd
      → (view w).items 2000 ≡ 0
      → (view w).items 3000 ≡ 0
      → (read_dialog ui (init_dialog ui sd w)).0 ≡ sd
  read_dialog-init_dialog sd w fits a b =
      read_dialog-shown sd (view w) (init_dialog ui sd w) fits a b (init_dialog-shown sd w)
