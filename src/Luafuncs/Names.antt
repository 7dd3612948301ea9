-- ===== src/Luafuncs/Names.antt =====
-- The layer names that `luafn_getlayernames` of src/c/luafuncs.c gives to Lua.
use aviutl_psdtoolkit.Base.{
  false, ◌%◌, ◌^◌, ℕ, ◌==◌, List, [], ◌∷◌, ◌++◌, append-nil, append_assoc, All, Chars, Meets, Error,
  >>=-Meets, pure-Meets, Ovstr, ◌≡◌, ◌≢◌, refl, sym, ap, ◌∙◌, arith,
}
use aviutl_psdtoolkit.Luafuncs.Functions.{
  table, Parts, layer_names_loop, mbcs_to_utf8, luafn_getlayernames,
}

-- The names with a line feed between each two.
abbrev pub joined : Chars → List Chars → Chars
joined name [] = name
joined name (next ∷ names) = name ++ (b'\n' ∷ joined next names)

-- A name has no NUL and no line feed.
abbrev pub IsName : Chars → Type 0
IsName = All (λ c. (c ≢ 0) × (c ≢ b'\n'))

name_read :
    (acc name s : Chars)
    → IsName name
    → layer_names_loop acc (name ++ s) ≡ layer_names_loop (acc ++ name) s
unfolding layer_names_loop
name_read acc [] s h = rw (append-nil acc) refl
name_read acc (c ∷ name) s h =
    let no_nul : (c == 0) ≡ false = ground (arith, h.0.0) in
    let no_end : (c == b'\n') ≡ false = ground (arith, h.0.1) in
    rw (no_nul, no_end)
      (name_read (acc ++ (c ∷ [])) name s h.1
        ∙ ap (λ a. layer_names_loop a s) (append_assoc acc (c ∷ []) name))

layer_names_loop-joined :
    (name : Chars) (names : List Chars)
    → IsName name
    → All IsName names
    → layer_names_loop [] (joined name names) ≡ name ∷ names
unfolding layer_names_loop
layer_names_loop-joined name [] h k =
    ap (layer_names_loop []) (sym (append-nil name)) ∙ name_read [] name [] h
layer_names_loop-joined name (next ∷ names) h k =
    name_read [] name (b'\n' ∷ joined next names) h
    ∙ ap (λ l. name ∷ l) (layer_names_loop-joined next names k.0 k.1)

module _ {W F : Type 0} {E : Error → Type 0} (lib : Ovstr W) (parts : Parts W F) where
  -- When the renderer answers with names joined by line feeds, none of them with a NUL or a line
  -- feed in it, luafn_getlayernames gives Lua the table of exactly these names in their order, or
  -- ends in an error of the conversions or of the renderer.
  pub luafn_getlayernames-joined :
      (id : ℕ) (path : Chars) (name : Chars) (names : List Chars)
      → ((s : Chars) → Meets E (λ _. Unit {0}) (parts.from_mbcs s))
      → ((s : Chars) → Meets E (λ _. Unit {0}) (parts.to_utf8 s))
      → ((i : ℕ) (s : Chars) → Meets E (λ r. r ≡ joined name names) (parts.ipc_get_layer_names i s))
      → IsName name
      → All IsName names
      → Meets E (λ r. r ≡ (table (name ∷ names) ∷ [])) (luafn_getlayernames lib parts id path)
  unfolding luafn_getlayernames mbcs_to_utf8
  luafn_getlayernames-joined id path name names from to layers h k =
      >>=-Meets (>>=-Meets (from path) λ tmp _. to tmp) λ path_utf8 _.
        >>=-Meets (layers (id % 2 ^ 32) path_utf8) λ r hr.
          pure-Meets _ (rw (hr) (ap (λ l. table l ∷ []) (layer_names_loop-joined name names h k)))
