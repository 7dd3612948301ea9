-- ===== src/Setting/Tests.antt =====
-- A file of settings of src/c/setting.c, written and read.
use aviutl_psdtoolkit.Base.{
  ℕ, ◌+◌, ◌-◌, [], ◌∷◌, some, true, false, Chars, pure, Meets, NoError, ◌≡◌, arith,
}
use aviutl_psdtoolkit.Plain.{plain, plain-laws}
use aviutl_psdtoolkit.Setting.Props.{SettingDialog, Files, props_text, read_props}
use aviutl_psdtoolkit.Setting.Script.{Fields, run_script}
use aviutl_psdtoolkit.Setting.Written.{NumberLaws}
use aviutl_psdtoolkit.Setting.Kept.{IsSetting, kept, read_props-props_text}

-- A number is written as one character, a digit where it is below 10.
abbrev files : Files (Unit {0})
files = record {
  create_file = λ path. pure 1;
  write_file = λ file t. pure tt;
  close_handle = λ file w. w;
  delete_file = λ path w. w;
  format = λ n. (n + 48) ∷ [];
}

abbrev pub settings : SettingDialog
settings = record {
  generate_lipsync = true;
  generate_mpslider = true;
  generate_subtitle = false;
  merge_preps = false;
  lipsync_group_id = 1;
  lipsync_offset = 0;
  mpslider_number = 3;
  mpslider_group_id = 1;
  mpslider_margin_left = 4;
  mpslider_margin_right = 0;
  subtitle_encoding = 1;
  subtitle_group_id = 1;
  subtitle_margin_left = 0;
  subtitle_margin_right = 0;
  fire_shift = true;
  fire_wavtxt = false;
  fire_exo = false;
}

settings-IsSetting : IsSetting settings
settings-IsSetting = record {
  number = omega arith;
  encoding = omega arith;
  lipsync_group_id_fits = omega arith;
  lipsync_offset_fits = omega arith;
  mpslider_group_id_fits = omega arith;
  mpslider_margin_left_fits = omega arith;
  mpslider_margin_right_fits = omega arith;
  subtitle_group_id_fits = omega arith;
  subtitle_margin_left_fits = omega arith;
  subtitle_margin_right_fits = omega arith;
}

-- The number that `format` has written.
abbrev numeral : Chars → ℕ
numeral [] = 0
numeral (c ∷ s) = c - 48

numeral-NumberLaws : NumberLaws files.format numeral
numeral-NumberLaws = record { bare = λ n. (omega arith, tt); back = λ n lt. omega arith }

read_props-props_text_example :
    Meets NoError
      (λ t.
        (fields : Fields) × (run_script numeral t ≡ some fields)
        × (read_props fields (λ s. 0) ≡ kept settings))
      (props_text plain files settings)
read_props-props_text_example =
    read_props-props_text plain files plain-laws numeral numeral-NumberLaws (λ s. 0) settings
      settings-IsSetting
