-- ===== src/Setting/Kept.antt =====
-- The settings that src/c/setting.c reads from the file that it has written.
use aviutl_psdtoolkit.Base.{
  ℕ, ◌+◌, ◌-◌, ◌%◌, ◌^◌, ◌≤◌, ◌<◌, Bool, true, false, not, none, some, ◌==◌, ==_iff, Bool-cases,
  inl, inr, if◌then◌else◌, same_text, All, Chars, codes, Error, Meets, weaken-Meets, Ovstr,
  OvstrLaws, ◌≡◌, refl, sym, ap, ◌∙◌, arith,
}
use aviutl_psdtoolkit.Setting.Script.{Fields, run_script}
use aviutl_psdtoolkit.Setting.Props.{
  SettingDialog, int, word, props, positive, read_int, read_int_prop, encoding_of, read_props,
  Files, props_text,
}
use aviutl_psdtoolkit.Setting.Written.{
  assigned, NumberLaws, Writable, run_script-file_text, props_text-Meets,
}

-- What is read back.
abbrev pub kept : SettingDialog → SettingDialog
kept sd = record sd { mpslider_number = if sd.generate_mpslider then sd.mpslider_number else 1 }

-- A setting that the dialog can give: the combo boxes have an item, and the numbers are 32 bits.
pub record IsSetting (sd : SettingDialog) : Type 0 where
  pub number : sd.mpslider_number < 2 ^ 31 - 1
  pub encoding : sd.subtitle_encoding ≤ 1
  pub lipsync_group_id_fits : sd.lipsync_group_id < 2 ^ 32
  pub lipsync_offset_fits : sd.lipsync_offset < 2 ^ 32
  pub mpslider_group_id_fits : sd.mpslider_group_id < 2 ^ 32
  pub mpslider_margin_left_fits : sd.mpslider_margin_left < 2 ^ 32
  pub mpslider_margin_right_fits : sd.mpslider_margin_right < 2 ^ 32
  pub subtitle_group_id_fits : sd.subtitle_group_id < 2 ^ 32
  pub subtitle_margin_left_fits : sd.subtitle_margin_left < 2 ^ 32
  pub subtitle_margin_right_fits : sd.subtitle_margin_right < 2 ^ 32

props-Writable : (sd : SettingDialog) → IsSetting sd → All Writable (props sd)
props-Writable sd s = (
  (omega arith, omega arith),
  (
    (omega arith, s.lipsync_group_id_fits),
    (
      (omega arith, s.lipsync_offset_fits),
      (
        (omega arith, omega arith),
        (
          (omega arith, s.mpslider_group_id_fits),
          (
            (omega arith, s.mpslider_margin_left_fits),
            (
              (omega arith, s.mpslider_margin_right_fits),
              (
                (omega arith, omega arith),
                (
                  (omega arith, omega arith),
                  (
                    (omega arith, s.subtitle_group_id_fits),
                    (
                      (omega arith, s.subtitle_margin_left_fits),
                      (
                        (omega arith, s.subtitle_margin_right_fits),
                        (
                          (omega arith, omega arith),
                          (
                            (omega arith, omega arith),
                            ((omega arith, omega arith), ((omega arith, omega arith), tt)),
                          ),
                        ),
                      ),
                    ),
                  ),
                ),
              ),
            ),
          ),
        ),
      ),
    ),
  ),
)

-- A number that is written unless it is the default.
int_back :
    (tointeger : Chars → ℕ) (n def : ℕ)
    → read_int tointeger (if not (n == def) then some (int n) else none) def ≡ n
unfolding read_int
int_back tointeger n def = elim (Bool-cases (n == def)) [
  | inl b ↦ rw (b) (sym ((==_iff n def).0 b))
  | inr b ↦ rw (b) refl
]

-- A flag that is written as 1.
flag_back :
    (tointeger : Chars → ℕ) (b : Bool)
    → (read_int tointeger (if b then some (int 1) else none) 0 == 1) ≡ b
unfolding read_int
flag_back tointeger true = refl
flag_back tointeger false = refl

slider_back :
    (tointeger : Chars → ℕ) (b : Bool) (n : ℕ)
    → n < 2 ^ 31 - 1
    → positive (read_int tointeger (if b then some (int ((n + 1) % 2 ^ 32)) else none) 0) ≡ b
unfolding read_int positive
slider_back tointeger true n lt =
    let fits : (n + 1) % 4294967296 ≡ n + 1 = omega (arith, lt) in rw (fits) (ground (arith, lt))
slider_back tointeger false n lt = refl

subtitle_back :
    (tointeger : Chars → ℕ) (b : Bool)
    → not (read_int tointeger (if b then some (int 2) else none) 0 == 0) ≡ b
unfolding read_int
subtitle_back tointeger true = refl
subtitle_back tointeger false = refl

number_back :
    (tointeger : Chars → ℕ) (b : Bool) (n : ℕ)
    → n < 2 ^ 31 - 1
    → (read_int tointeger (if b then some (int ((n + 1) % 2 ^ 32)) else none) 2 + (2 ^ 32 - 1))
        % 2 ^ 32
      ≡ (if b then n else 1)
unfolding read_int
number_back tointeger true n lt = omega (arith, lt)
number_back tointeger false n lt = refl

encoding_back :
    (n : ℕ) → n ≤ 1 → encoding_of (if not (n == 0) then some (word (codes "utf8")) else none) ≡ n
unfolding encoding_of same_text
encoding_back n le = elim (Bool-cases (n == 0)) [
  | inl b ↦ rw (b) (sym ((==_iff n 0).0 b))
  | inr b ↦ rw (b) (ground (arith, le))
]

shift_back :
    (tointeger : Chars → ℕ) (b : Bool)
    → (read_int tointeger (if not b then some (int (2 ^ 32 - 1)) else none) 0 == 0) ≡ b
unfolding read_int
shift_back tointeger true = refl
shift_back tointeger false = refl

module _ (sd : SettingDialog) (tointeger : Chars → ℕ) where
  read_props-assigned :
      IsSetting sd → read_props (assigned (λ name. none) (props sd)) tointeger ≡ kept sd
  unfolding read_props assigned same_text read_int_prop
  read_props-assigned s i = record {
    generate_lipsync = flag_back tointeger sd.generate_lipsync i;
    generate_mpslider = slider_back tointeger sd.generate_mpslider sd.mpslider_number s.number i;
    generate_subtitle = subtitle_back tointeger sd.generate_subtitle i;
    merge_preps = flag_back tointeger sd.merge_preps i;
    lipsync_group_id = int_back tointeger sd.lipsync_group_id 1 i;
    lipsync_offset = int_back tointeger sd.lipsync_offset 0 i;
    mpslider_number = number_back tointeger sd.generate_mpslider sd.mpslider_number s.number i;
    mpslider_group_id = int_back tointeger sd.mpslider_group_id 1 i;
    mpslider_margin_left = int_back tointeger sd.mpslider_margin_left 0 i;
    mpslider_margin_right = int_back tointeger sd.mpslider_margin_right 0 i;
    subtitle_encoding = encoding_back sd.subtitle_encoding s.encoding i;
    subtitle_group_id = int_back tointeger sd.subtitle_group_id 1 i;
    subtitle_margin_left = int_back tointeger sd.subtitle_margin_left 0 i;
    subtitle_margin_right = int_back tointeger sd.subtitle_margin_right 0 i;
    fire_shift = shift_back tointeger sd.fire_shift i;
    fire_wavtxt = flag_back tointeger sd.fire_wavtxt i;
    fire_exo = flag_back tointeger sd.fire_exo i;
  }

module _ {W : Type 0} {E : Error → Type 0} (lib : Ovstr W) (files : Files W)
    (laws : OvstrLaws lib E) (numeral : Chars → ℕ) (numbers : NumberLaws files.format numeral) where
  -- For settings in which the item chosen for the slider is a number below 2^31 - 1, the encoding
  -- is 0 or 1 and the other numbers are below 2^32, and a conversion whose texts have no blank, no
  -- quote and no end of a line and are read back as the same 32 bits: the text that is written
  -- loads as a script of Lua, a table with assignments of numbers and quoted texts to its fields,
  -- and read_props on the fields that the script gives has the same settings, but for the slider's
  -- item, which is 1 when no slider is to be made; or writing it ends in an error of the string
  -- library.
  pub read_props-props_text :
      (tointeger : Chars → ℕ) (sd : SettingDialog)
      → IsSetting sd
      → Meets E
          (λ t.
            (fields : Fields) × (run_script numeral t ≡ some fields)
            × (read_props fields tointeger ≡ kept sd))
          (props_text lib files sd)
  read_props-props_text tointeger sd s =
      let h = props-Writable sd s in
      weaken-Meets (props_text-Meets lib files numeral numbers laws sd h) λ t ht. (
        assigned (λ name. none) (props sd),
        ap (run_script numeral) ht ∙ run_script-file_text lib files numeral numbers (props sd) h,
        read_props-assigned sd tointeger s,
      )
