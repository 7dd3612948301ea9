-- ===== src/Ptklayer/Export.antt =====
-- The script and the CSV table that src/c/ptklayer.c writes for a group.
use aviutl_psdtoolkit.Base.{
  ℕ, List, [], ◌∷◌, Option, none, some, get_elem?, length, Chars, codes, M, ◌>>=◌, pure, raise,
  overrun, Ovstr,
}
use aviutl_psdtoolkit.Luastr.Encode.{luastr_encode}
use aviutl_psdtoolkit.Ptklayer.Types.{Item, Ptklayer, wcschr}
use aviutl_psdtoolkit.Ptklayer.Names.{
  ptklayer_get_readable_item_name, ptklayer_get_readable_group_name,
}
use aviutl_psdtoolkit.Ptklayer.Siblings.{enumerate_siblings}

-- `pi->ptr + i`, which must lie in the array.
unfoldable pub element : {W : Type 0} → Option Item → M W Item
element none = raise overrun
element (some item) = pure item

module _ {W : Type 0} (lib : Ovstr W) where
  -- `encode_csv`, with the test for a comma as its first argument.
  unfoldable pub encode_if : Option ℕ → Chars → M W Chars
  encode_if none ws = pure ws
  encode_if (some _) ws = do
    ws ← lib.sreplace_all ws (codes "\"") (codes "\"\"")
    tmp ← lib.scpym (codes "\"" ∷ ws ∷ codes "\"" ∷ [])
    lib.scpy tmp

  unfoldable pub encode_csv : Chars → M W Chars
  encode_csv ws = encode_if (wcschr ws b',') ws

  -- The loop of `build_siblings_csv`.
  unfoldable pub csv_rows : Ptklayer → List ℕ → Chars → M W Chars
  csv_rows pi [] tmp = pure tmp
  csv_rows pi (i ∷ is) tmp = do
    name ← ptklayer_get_readable_item_name lib (some pi) i (some none)
    name ← encode_csv name
    tmp ← lib.scatm tmp (name ∷ [])
    item ← element (get_elem? pi.items i)
    value ← lib.scpy item.value
    value ← encode_csv value
    tmp ← lib.scatm tmp (codes "," ∷ value ∷ codes "\r\n" ∷ [])
    csv_rows pi is tmp

  unfoldable pub build_siblings_csv : Ptklayer → ℕ → M W Chars
  build_siblings_csv pi idx = do
    is ← enumerate_siblings lib pi idx
    tmp ← csv_rows pi is []
    lib.scpy tmp

  -- The loop of `build_siblings_script`.
  unfoldable pub script_values : Ptklayer → List ℕ → Chars → M W Chars
  script_values pi [] tmp = pure tmp
  script_values pi (i ∷ is) tmp = do
    item ← element (get_elem? pi.items i)
    value ← luastr_encode lib (some (some item.value)) (some none)
    tmp ← lib.scatm tmp (codes "  " ∷ value ∷ codes ",\r\n" ∷ [])
    script_values pi is tmp

  -- `ov_utoa` is the numeric library's.
  unfoldable pub build_siblings_script : (ℕ → Chars) → Ptklayer → ℕ → M W Chars
  build_siblings_script ov_utoa pi idx = do
    is ← enumerate_siblings lib pi idx
    group ← ptklayer_get_readable_group_name lib (some pi) idx (some none)
    group ← lib.sreplace_all group (codes ",") (codes "_")
    tmp ← lib.scpym (
        codes "--track0:"
        ∷ group
        ∷ codes ",0,"
        ∷ ov_utoa (length is)
        ∷ codes ",0,1\r\n"
        ∷ codes "local values= {\r\n"
        ∷ [])
    tmp ← script_values pi is tmp
    tmp ← lib.scatm tmp (codes "}\r\n" ∷ codes "PSD:addstate(values, obj.track0)\r\n" ∷ [])
    lib.scpy tmp
