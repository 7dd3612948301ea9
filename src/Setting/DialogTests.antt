-- ===== src/Setting/DialogTests.antt =====
-- A dialog of src/c/setting.c, filled and read back.
use aviutl_psdtoolkit.Base.{
  ℕ, ◌+◌, ◌-◌, ◌^◌, ok, some, [], ◌∷◌, Chars, ◌≡◌, refl, Option, none, arith, false,
}
use aviutl_psdtoolkit.Setting.Tests.{settings}
use aviutl_psdtoolkit.Setting.Dialog.{Controls, init_dialog, read_dialog}
use aviutl_psdtoolkit.Setting.Unchanged.{
  Shown, replaced, selectable, ControlLaws, Fits, read_dialog-init_dialog,
}

-- A number is written as one character.
unfoldable pub first_char : Chars → Option ℕ
first_char [] = none
first_char (c ∷ s) = some c

abbrev controls : Controls Shown
controls = record {
  set_button = λ id b w. record w { buttons = replaced id b w.buttons };
  get_button = λ id w. w.buttons id;
  set_control_text = λ id s w. record w { texts = replaced id s w.texts };
  get_control_text = λ id w. (ok (w.texts id), w);
  add_string = λ id s w. record w { items = replaced id (w.items id + 1) w.items };
  widen = λ id w. w;
  set_selection = λ id index w. record w {
    selections = replaced id (selectable index (w.items id)) w.selections;
  };
  get_selection = λ id w. w.selections id;
  set_title = λ w. w;
  format = λ n. n ∷ [];
  satoi = first_char;
}

abbrev own_view : Shown → Shown
own_view w = w

controls-laws : ControlLaws controls own_view
unfolding first_char
controls-laws = record {
  set_button_lem = λ id b w. refl;
  get_button_lem = λ id w. refl;
  set_control_text_lem = λ id s w. refl;
  get_control_text_lem = λ id w. refl;
  get_control_text_keeps = λ id w. refl;
  add_string_lem = λ id s w. refl;
  widen_lem = λ id w. refl;
  set_selection_lem = λ id index w. refl;
  get_selection_lem = λ id w. refl;
  set_title_lem = λ w. refl;
  format_lem = λ n lt. (n, refl, omega (arith, lt));
}

abbrev empty_dialog : Shown
empty_dialog = record {
  buttons = λ id. false;
  texts = λ id. [];
  items = λ id. 0;
  selections = λ id. 2 ^ 32 - 1;
}

settings-Fits : Fits settings
settings-Fits = record {
  lipsync_group_id_fits = omega arith;
  lipsync_offset_fits = omega arith;
  mpslider_number_fits = refl;
  mpslider_group_id_fits = omega arith;
  mpslider_margin_left_fits = omega arith;
  mpslider_margin_right_fits = omega arith;
  subtitle_encoding_fits = refl;
  subtitle_group_id_fits = omega arith;
  subtitle_margin_left_fits = omega arith;
  subtitle_margin_right_fits = omega arith;
}

read_dialog-init_dialog_example :
    (read_dialog controls (init_dialog controls settings empty_dialog)).0 ≡ settings
read_dialog-init_dialog_example =
    read_dialog-init_dialog controls own_view controls-laws settings empty_dialog settings-Fits refl
      refl
