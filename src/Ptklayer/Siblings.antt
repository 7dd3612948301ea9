-- ===== src/Ptklayer/Siblings.antt =====
-- `enumerate_siblings` of src/c/ptklayer.c.
use aviutl_psdtoolkit.Base.{
  ℕ, ◌+◌, Bool, true, false, not, ◌&&◌, List, [], ◌∷◌, ◌++◌, Option, none, some, ltb, ◌==◌,
  if◌then◌else◌, get_elem?, Chars, M, ◌>>=◌, Ovstr, pure, raise, invalid_argument,
}
use aviutl_psdtoolkit.Ptklayer.Types.{Item, Ptklayer, is_faview, wcsncmp_eq}
use aviutl_psdtoolkit.Ptklayer.Names.{extract_layer_name}

-- The two `continue`s of the loop: another depth, or another parent.
unfoldable pub is_sibling : Chars → Chars → Bool
is_sibling name other =
    let pos = extract_layer_name name in
    let pos2 = extract_layer_name other in
    if not (pos == pos2)
    then false
    else if ltb 0 pos && not (wcsncmp_eq other name pos)
    then false
    else true

module _ {W : Type 0} (lib : Ovstr W) where
  -- The loop over a slider's items, from index `i` on, with the array so far.
  unfoldable pub push_all : ℕ → List Item → List ℕ → M W (List ℕ)
  push_all i [] a = pure a
  push_all i (item ∷ items) a = lib.apush >>= λ _. push_all (i + 1) items (a ++ i ∷ [])

  -- The loop over a layer's items.
  unfoldable pub push_siblings : Chars → ℕ → List Item → List ℕ → M W (List ℕ)
  push_siblings name i [] a = pure a
  push_siblings name i (item ∷ items) a =
      let skip = push_siblings name (i + 1) items a in
      let push = lib.apush >>= λ _. push_siblings name (i + 1) items (a ++ i ∷ []) in
      if is_sibling name item.name then push else skip

  unfoldable pub enumerate_of : Ptklayer → Option Item → M W (List ℕ)
  enumerate_of pi none = raise invalid_argument
  enumerate_of pi (some item) =
      if is_faview pi then push_all 0 pi.items [] else push_siblings item.name 0 pi.items []

  unfoldable pub enumerate_siblings : Ptklayer → ℕ → M W (List ℕ)
  enumerate_siblings pi idx = enumerate_of pi (get_elem? pi.items idx)
