-- ===== src/Luafuncs/Tests.antt =====
-- Runs of the functions of src/c/luafuncs.c, and the theorem at a concrete input.
use aviutl_psdtoolkit.Base.{
  ℕ, true, [], ◌∷◌, codes, pure, raise, not_found, ok, Meets, pure-Meets, NoError, ◌>>=◌, ◌≡◌, refl,
  arith, abort,
}
use aviutl_psdtoolkit.Plain.{plain}
use aviutl_psdtoolkit.Luafuncs.Functions.{
  table, string, Parts, luafn_getlayernames, luafn_getwavlabpath, wav_path, wav_and_lab,
  with_extension, file_or_nil,
}
use aviutl_psdtoolkit.Luafuncs.Names.{joined, luafn_getlayernames-joined}

abbrev parts : Parts (Unit {0}) ℕ
parts = record {
  ipc_add_file = λ path tag. pure tt;
  ipc_draw = λ id path p width height. pure tt;
  ipc_get_layer_names = λ id path. pure (joined (codes "face") (codes "hat" ∷ []));
  ipc_set_properties = λ id path options. raise abort;
  cache_get = λ key. raise not_found;
  cache_put = λ key value value_len. pure tt;
  speak_get_level = λ path pos low_cut high_cut. pure 0;
  from_mbcs = λ s. pure s;
  to_mbcs = λ s. pure s;
  to_utf8 = λ s. pure s;
  file_exists = λ s. pure true;
  extract_file_name = λ s. pure 0;
  extract_file_extension = λ s. pure 1;
  mem = λ n. pure 1;
  mem_free = λ p w. w;
  memcpy = λ dest src length w. w;
}

run_getwavlabpath :
    (luafn_getwavlabpath plain parts [] (codes "a.txt") tt).0
    ≡ ok (string (codes "a.wav") ∷ string (codes "a.lab") ∷ [])
unfolding luafn_getwavlabpath wav_path wav_and_lab with_extension file_or_nil ◌>>=◌
run_getwavlabpath = refl

luafn_getlayernames-joined_example :
    Meets NoError
      (λ r. r ≡ (table (codes "face" ∷ codes "hat" ∷ []) ∷ []))
      (luafn_getlayernames plain parts 1 (codes "a.psd"))
luafn_getlayernames-joined_example =
    luafn_getlayernames-joined plain parts 1 (codes "a.psd") (codes "face") (codes "hat" ∷ [])
      (λ s. pure-Meets s tt) (λ s. pure-Meets s tt) (λ i s. pure-Meets _ refl) (omega arith)
      (omega arith)
