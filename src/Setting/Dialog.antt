-- ===== src/Setting/Dialog.antt =====
-- The dialog of src/c/setting.c, and `show_setting`.
use aviutl_psdtoolkit.Base.{
  ℕ, zero, suc, ◌+◌, ◌*◌, ◌%◌, ◌^◌, Bool, Option, none, some, Chars, codes, M, Result, ok, err,
}
use aviutl_psdtoolkit.Setting.Props.{SettingDialog}

-- The controls of the dialog by their ids. `get_selection` gives 2 ^ 32 - 1 if no item is selected.
-- `satoi` gives the 64 bits of the number, if the text is one.
pub record Controls (W : Type 0) : Type 0 where
  pub set_button : (id : ℕ) → Bool → W → W
  pub get_button : (id : ℕ) → W → Bool
  pub set_control_text : (id : ℕ) → Chars → W → W
  pub get_control_text : (id : ℕ) → M W Chars
  pub add_string : (id : ℕ) → Chars → W → W
  pub widen : (id : ℕ) → W → W
  pub set_selection : (id index : ℕ) → W → W
  pub get_selection : (id : ℕ) → W → ℕ
  pub set_title : W → W
  pub format : ℕ → Chars
  pub satoi : Chars → Option ℕ

module _ {W : Type 0} (ui : Controls W) where
  unfoldable pub set_check : ℕ → Bool → W → W
  set_check control_id checked w = ui.set_button control_id checked w

  unfoldable pub set_int : ℕ → ℕ → W → W
  set_int control_id value w = ui.set_control_text control_id (ui.format value) w

  -- A number of 64 bits is cut to an `int`.
  unfoldable pub int_of : Option ℕ → ℕ → ℕ
  int_of none def = def
  int_of (some v) def = v % 2 ^ 32

  unfoldable pub text_int : Result Chars → ℕ → ℕ
  text_int (ok ws) def = int_of (ui.satoi ws) def
  text_int (err e) def = def

  unfoldable pub get_int : ℕ → ℕ → W → ℕ × W
  get_int control_id def w = let (r, w') = ui.get_control_text control_id w in (text_int r def, w')

  -- The items 4, 8, ... of the slider's list, from number `i` on.
  unfoldable pub add_numbers : (i rounds : ℕ) → W → W
  add_numbers i zero w = w
  add_numbers i (suc k) w = add_numbers (i + 1) k (ui.add_string 2000 (ui.format (i * 4)) w)

  unfoldable pub init_checks : SettingDialog → W → W
  init_checks sd w = set_check 103 sd.merge_preps (
      set_check 102 sd.generate_subtitle
        (set_check 101 sd.generate_mpslider (set_check 100 sd.generate_lipsync w)))

  unfoldable pub init_lipsync : SettingDialog → W → W
  init_lipsync sd w = set_int 1001 sd.lipsync_offset (set_int 1000 sd.lipsync_group_id w)

  unfoldable pub init_mpslider : SettingDialog → W → W
  init_mpslider sd w = set_int 2003 sd.mpslider_margin_right (
      set_int 2002 sd.mpslider_margin_left (
        set_int 2001 sd.mpslider_group_id
          (ui.set_selection 2000 sd.mpslider_number (ui.widen 2000 (add_numbers 1 10 w)))))

  unfoldable pub init_subtitle : SettingDialog → W → W
  init_subtitle sd w = set_int 3003 sd.subtitle_margin_right (
      set_int 3002 sd.subtitle_margin_left (
        set_int 3001 sd.subtitle_group_id (
          ui.set_selection 3000 sd.subtitle_encoding (
            ui.widen 3000
              (ui.add_string 3000 (codes "UTF-8") (ui.add_string 3000 (codes "Shift_JIS") w))))))

  unfoldable pub init_fire : SettingDialog → W → W
  init_fire sd w =
      set_check 106 sd.fire_exo (set_check 105 sd.fire_wavtxt (set_check 104 sd.fire_shift w))

  -- WM_INITDIALOG.
  unfoldable pub init_dialog : SettingDialog → W → W
  init_dialog sd w =
      init_fire sd
        (init_subtitle sd (init_mpslider sd (init_lipsync sd (init_checks sd (ui.set_title w)))))

  -- IDOK, in the order of the assignments. Reading a text may change the world, as memory is asked for.
  unfoldable pub read_dialog : W → SettingDialog × W
  read_dialog w =
      let (lipsync_group_id, w1) = get_int 1000 1 w in
      let (lipsync_offset, w2) = get_int 1001 0 w1 in
      let (mpslider_group_id, w3) = get_int 2001 1 w2 in
      let (mpslider_margin_left, w4) = get_int 2002 0 w3 in
      let (mpslider_margin_right, w5) = get_int 2003 0 w4 in
      let (subtitle_group_id, w6) = get_int 3001 1 w5 in
      let (subtitle_margin_left, w7) = get_int 3002 0 w6 in
      let (subtitle_margin_right, w8) = get_int 3003 0 w7 in
      (
        record {
          generate_lipsync = ui.get_button 100 w;
          generate_mpslider = ui.get_button 101 w;
          generate_subtitle = ui.get_button 102 w;
          merge_preps = ui.get_button 103 w;
          lipsync_group_id = lipsync_group_id;
          lipsync_offset = lipsync_offset;
          mpslider_number = ui.get_selection 2000 w2;
          mpslider_group_id = mpslider_group_id;
          mpslider_margin_left = mpslider_margin_left;
          mpslider_margin_right = mpslider_margin_right;
          subtitle_encoding = ui.get_selection 3000 w5;
          subtitle_group_id = subtitle_group_id;
          subtitle_margin_left = subtitle_margin_left;
          subtitle_margin_right = subtitle_margin_right;
          fire_shift = ui.get_button 104 w8;
          fire_wavtxt = ui.get_button 105 w8;
          fire_exo = ui.get_button 106 w8;
        },
        w8,
      )
