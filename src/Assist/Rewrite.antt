-- ===== src/Assist/Rewrite.antt =====
-- `wndproc_receive_update_editing_image_state` of src/c/assist.c: the text of the PSD file object
-- is rewritten for the image that the renderer has open.
use aviutl_psdtoolkit.Base.{
  ℕ, ◌+◌, ◌-◌, [], ◌∷◌, ◌++◌, none, some, take, drop, Chars, codes, M, ◌>>=◌, pure, map_error,
  Error, ptk, not_found, Ovstr,
}
use aviutl_psdtoolkit.Luastr.Encode.{luastr_encode}
use aviutl_psdtoolkit.Luastr.Decode.{luastr_decode}
use aviutl_psdtoolkit.Luastr.Find.{luastr_find_assign}

-- A search that ends in `err_not_found` is reported as `e`.
unfoldable pub missing_as : Error → Error → Error
missing_as e not_found = e
missing_as e other = other

module _ {W : Type 0} (lib : Ovstr W) where
  unfoldable pub find_variable : Chars → Chars → M W (ℕ × ℕ)
  find_variable text name = map_error (missing_as (ptk 110)) (luastr_find_assign lib text name)

  -- The text with the `len` characters at `pos` replaced by `name=` and the literal of `value`.
  unfoldable pub put_variable : Chars → Chars → Chars → ℕ × ℕ → M W Chars
  put_variable text name value place = do
    tmp ← luastr_encode lib (some (some value)) (some none)
    tmp2 ← lib.sncpy text place.0
    tmp2 ← lib.scatm tmp2 ((name ++ codes "=") ∷ tmp ∷ drop (place.0 + place.1) text ∷ [])
    lib.scpy tmp2

  -- The value that `ptkf` has, read from the part of the text that the search found.
  unfoldable pub old_path : Chars → ℕ × ℕ → M W Chars
  old_path text place =
      luastr_decode lib (some (some (take (place.1 - 5) (drop (place.0 + 5) text)))) (some none)

  -- The new text, and the path of the file that the object had.
  unfoldable pub rewrite_text : Chars → Chars → Chars → M W (Chars × Chars)
  rewrite_text text file_path state = do
    place ← find_variable text (codes "ptkf")
    old_file_path ← old_path text place
    text ← put_variable text (codes "ptkf") file_path place
    place ← find_variable text (codes "ptkl")
    text ← put_variable text (codes "ptkl") state place
    pure (text, old_file_path)
