-- ===== src/Setting/Props.antt =====
-- `read_props` and `write_props` of src/c/setting.c.
use aviutl_psdtoolkit.Base.{
  ℕ, ◌+◌, ◌-◌, ◌%◌, ◌^◌, Bool, not, ◌&&◌, List, [], ◌∷◌, ◌++◌, Option, none, some, ltb, ◌==◌,
  if◌then◌else◌, same_text, Chars, codes, M, ◌>>=◌, pure, finally, ok, err, Ovstr,
}

-- `struct setting_dialog`. A number stands for the 32 bits of an `int`.
pub record SettingDialog : Type 0 where
  pub generate_lipsync : Bool
  pub generate_mpslider : Bool
  pub generate_subtitle : Bool
  pub merge_preps : Bool
  pub lipsync_group_id : ℕ
  pub lipsync_offset : ℕ
  pub mpslider_number : ℕ
  pub mpslider_group_id : ℕ
  pub mpslider_margin_left : ℕ
  pub mpslider_margin_right : ℕ
  pub subtitle_encoding : ℕ
  pub subtitle_group_id : ℕ
  pub subtitle_margin_left : ℕ
  pub subtitle_margin_right : ℕ
  pub fire_shift : Bool
  pub fire_wavtxt : Bool
  pub fire_exo : Bool

-- A field of the table in Lua that is not nil.
pub data Value : Type 0 where
  int : ℕ → Value
  word : Chars → Value

-- `> 0` on an `int`.
unfoldable pub positive : ℕ → Bool
positive n = not (n == 0) && ltb n (2 ^ 31)

-- `tointeger` is `lua_tointeger` on a text.
unfoldable pub read_int : (Chars → ℕ) → Option Value → ℕ → ℕ
read_int tointeger none def = def
read_int tointeger (some (int n)) def = n
read_int tointeger (some (word s)) def = tointeger s

unfoldable pub encoding_of : Option Value → ℕ
encoding_of none = 0
encoding_of (some (int n)) = 0
encoding_of (some (word s)) = if same_text s (codes "utf8") then 1 else 0

-- `field` are the fields of the table.
module _ (field : Chars → Option Value) (tointeger : Chars → ℕ) where
  unfoldable pub read_int_prop : Chars → ℕ → ℕ
  read_int_prop prop_name def = read_int tointeger (field prop_name) def

  unfoldable pub read_props : SettingDialog
  read_props = record {
    generate_lipsync = read_int_prop (codes "wav_lipsync") 0 == 1;
    generate_mpslider = positive (read_int_prop (codes "wav_mpslider") 0);
    generate_subtitle = not (read_int_prop (codes "wav_subtitle") 0 == 0);
    merge_preps = read_int_prop (codes "wav_mergedprep") 0 == 1;
    lipsync_group_id = read_int_prop (codes "wav_lipsync_group") 1;
    lipsync_offset = read_int_prop (codes "wav_lipsync_offset") 0;
    mpslider_number = (read_int_prop (codes "wav_mpslider") 2 + (2 ^ 32 - 1)) % 2 ^ 32;
    mpslider_group_id = read_int_prop (codes "wav_mpslider_group") 1;
    mpslider_margin_left = read_int_prop (codes "wav_mpslider_margin_left") 0;
    mpslider_margin_right = read_int_prop (codes "wav_mpslider_margin_right") 0;
    subtitle_encoding = encoding_of (field (codes "wav_subtitle_encoding"));
    subtitle_group_id = read_int_prop (codes "wav_subtitle_group") 1;
    subtitle_margin_left = read_int_prop (codes "wav_subtitle_margin_left") 0;
    subtitle_margin_right = read_int_prop (codes "wav_subtitle_margin_right") 0;
    fire_shift = read_int_prop (codes "wav_firemode") 0 == 0;
    fire_wavtxt = read_int_prop (codes "wav_firemode_wavtxt") 0 == 1;
    fire_exo = read_int_prop (codes "wav_firemode_exo") 0 == 1;
  }

-- A line of the file, which is written if there is a need.
pub record Prop : Type 0 where
  pub name : Chars
  pub value : Value
  pub need_write : Bool

abbrev pub int_prop : Chars → ℕ → Bool → Prop
int_prop name n need_write = record { name = name; value = int n; need_write = need_write }

-- The lines in the order in which they are written.
abbrev pub props : SettingDialog → List Prop
props sd =
    int_prop (codes "wav_lipsync") 1 sd.generate_lipsync
    ∷ int_prop (codes "wav_lipsync_group") sd.lipsync_group_id (not (sd.lipsync_group_id == 1))
    ∷ int_prop (codes "wav_lipsync_offset") sd.lipsync_offset (not (sd.lipsync_offset == 0))
    ∷ int_prop (codes "wav_mpslider") ((sd.mpslider_number + 1) % 2 ^ 32) sd.generate_mpslider
    ∷ int_prop (codes "wav_mpslider_group") sd.mpslider_group_id (not (sd.mpslider_group_id == 1))
    ∷ int_prop (codes "wav_mpslider_margin_left") sd.mpslider_margin_left
        (not (sd.mpslider_margin_left == 0))
    ∷ int_prop (codes "wav_mpslider_margin_right") sd.mpslider_margin_right
        (not (sd.mpslider_margin_right == 0))
    ∷ int_prop (codes "wav_subtitle") 2 sd.generate_subtitle
    ∷ record {
      name = codes "wav_subtitle_encoding";
      value = word (codes "utf8");
      need_write = not (sd.subtitle_encoding == 0);
    }
    ∷ int_prop (codes "wav_subtitle_group") sd.subtitle_group_id (not (sd.subtitle_group_id == 1))
    ∷ int_prop (codes "wav_subtitle_margin_left") sd.subtitle_margin_left
        (not (sd.subtitle_margin_left == 0))
    ∷ int_prop (codes "wav_subtitle_margin_right") sd.subtitle_margin_right
        (not (sd.subtitle_margin_right == 0))
    ∷ int_prop (codes "wav_mergedprep") 1 sd.merge_preps
    ∷ int_prop (codes "wav_firemode") (2 ^ 32 - 1) (not sd.fire_shift)
    ∷ int_prop (codes "wav_firemode_wavtxt") 1 sd.fire_wavtxt
    ∷ int_prop (codes "wav_firemode_exo") 1 sd.fire_exo
    ∷ []

-- The files of Windows. `format` is the conversion `%d` of `wsprintfA`.
pub record Files (W : Type 0) : Type 0 where
  pub create_file : Chars → M W ℕ
  pub write_file : ℕ → Chars → M W (Unit {0})
  pub close_handle : ℕ → W → W
  pub delete_file : Chars → W → W
  pub format : ℕ → Chars

module _ {W : Type 0} (lib : Ovstr W) (files : Files W) where
  unfoldable pub value_text : Value → Chars
  value_text (int n) = files.format n
  value_text (word s) = codes "\"" ++ (s ++ codes "\"")

  unfoldable pub line : Prop → Chars
  line p = codes "P." ++ (p.name ++ (codes " = " ++ (value_text p.value ++ codes "\r\n")))

  unfoldable pub write_prop : Chars → Prop → M W Chars
  write_prop text p = if p.need_write then lib.scatm text (line p ∷ []) else pure text

  unfoldable pub write_lines : Chars → List Prop → M W Chars
  write_lines text [] = pure text
  write_lines text (p ∷ ps) = write_prop text p >>= λ text. write_lines text ps

  -- The file's text.
  unfoldable pub props_text : SettingDialog → M W Chars
  props_text sd = do
    text ← lib.scpy (codes "local P = {}\r\n")
    text ← write_lines text (props sd)
    lib.scatm text (codes "return P\r\n" ∷ [])

  unfoldable pub write_props : Chars → SettingDialog → M W (Unit {0})
  write_props path sd =
      finally
        (do
          text ← props_text sd
          file ← files.create_file path
          finally (files.write_file file text) (λ r w. (r, files.close_handle file w)))
        λ r w. elim r [ ok a ↦ (ok a, w) | err e ↦ (err e, files.delete_file path w) ]
