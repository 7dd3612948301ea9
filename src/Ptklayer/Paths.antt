-- ===== src/Ptklayer/Paths.antt =====
-- The groups in which the paths of src/c/ptklayer.c lie.
use aviutl_psdtoolkit.Base.{
  ℕ, ◌+◌, [], ◌∷◌, ◌++◌, inl, inr, ◌==◌, Bool-cases, ==_iff, ==_ne, length, take, take-append, All,
  subst, Chars, HasNoNul, append_assoc, ◌≡◌, ◌⊎◌, ◌↔◌, ◌≢◌, refl, sym, ap, ◌∙◌, arith,
}
use aviutl_psdtoolkit.Ptklayer.Names.{extract_layer_name}
use aviutl_psdtoolkit.Ptklayer.Readable.{Avoids, extract_layer_name-last, extract_layer_name-top}

-- What the code compares.
abbrev pub parent_path : Chars → Chars
parent_path name = take (extract_layer_name name) name

-- A path that ends with a slash, or the top.
abbrev pub IsGroup : Chars → Type 0
IsGroup parent = (parent ≡ []) ⊎ ((above : Chars) × (parent ≡ above ++ (b'/' ∷ [])))

-- The path is the parent's, with its final slash, and a name without slash.
abbrev pub IsChild : Chars → Chars → Type 0
IsChild parent path =
    IsGroup parent × ((name : Chars) × (path ≡ parent ++ name) × All (λ c. c ≢ b'/') name)

-- Both lie in the same group.
abbrev pub Siblings : Chars → Chars → Type 0
Siblings path other = (parent : Chars) × IsChild parent path × IsChild parent other

nonul_Avoids : (s : Chars) → HasNoNul s → All (λ c. c ≢ b'/') s → Avoids b'/' s
nonul_Avoids [] h k = tt
nonul_Avoids (c ∷ s) h k = ((h.0, k.0), nonul_Avoids s h.1 k.1)

HasNoNul-parts : (s t : Chars) → HasNoNul (s ++ t) → HasNoNul s × HasNoNul t
HasNoNul-parts [] t h = (tt, h)
HasNoNul-parts (c ∷ s) t h = let (k, l) = HasNoNul-parts s t h.1 in ((h.0, k), l)

length_slash : (s : Chars) → length (s ++ (b'/' ∷ [])) ≡ length s + 1
length_slash [] = refl
length_slash (c ∷ s) = let e = length_slash s in omega (arith, e)

child_at :
    (parent name : Chars)
    → IsGroup parent
    → HasNoNul (parent ++ name)
    → All (λ c. c ≢ b'/') name
    → extract_layer_name (parent ++ name) ≡ length parent
child_at parent name (inl e) h k =
    rw e (extract_layer_name-top name (nonul_Avoids name (HasNoNul-parts parent name h).1 k))
child_at parent name (inr (above, e)) h k =
    let (p, q) = HasNoNul-parts parent name h in
    let clean : HasNoNul above = (HasNoNul-parts above (b'/' ∷ []) (rw (← e) p)).0 in
    rw (e, append_assoc above (b'/' ∷ []) name, length_slash above)
      (extract_layer_name-last above name clean (nonul_Avoids name q k))

-- A path has no other parent than the one that the code cuts off.
IsChild-parent_path :
    (parent path : Chars) → HasNoNul path → IsChild parent path → parent_path path ≡ parent
IsChild-parent_path parent path h (g, (name, e, k)) =
    rw (e, child_at parent name g (rw (← e) h) k) (take-append parent name)

-- A path with one character more in front.
IsChild-cons :
    (c : ℕ) (parent path : Chars)
    → (c ≡ b'/') ⊎ (parent ≢ [])
    → IsChild parent path
    → IsChild (c ∷ parent) (c ∷ path)
IsChild-cons c parent path (inl s) (inl e, (name, f, k)) =
    (inr ([], rw (e, s) refl), (name, ap (λ t. c ∷ t) f, k))
IsChild-cons c parent path (inr s) (inl e, (name, f, k)) = absurd (s e)
IsChild-cons c parent path s (inr (above, e), (name, f, k)) =
    (inr (c ∷ above, ap (λ t. c ∷ t) e), (name, ap (λ t. c ∷ t) f, k))

longer_parent :
    (c : ℕ) (path parent : Chars)
    → IsChild parent path
    → (longer : Chars) × IsChild longer (c ∷ path)
longer_parent c path (d ∷ parent) h =
    (c ∷ d ∷ parent, IsChild-cons c (d ∷ parent) path (inr (λ e. cc)) h)
longer_parent c path [] (g, (name, e, k)) = elim (Bool-cases (c == b'/')) [
  | inl s ↦ (c ∷ [], IsChild-cons c [] path (inl ((==_iff c b'/').0 s)) (g, (name, e, k)))
  | inr s ↦ ([], (inl refl, (c ∷ name, ap (λ t. c ∷ t) e, (==_ne c b'/' s, k))))
]

-- Every path has a parent.
some_parent : (path : Chars) → (parent : Chars) × IsChild parent path
some_parent [] = ([], (inl refl, ([], refl, tt)))
some_parent (c ∷ path) = let (parent, h) = some_parent path in longer_parent c path parent h

pub parent_path-Siblings :
    (path other : Chars)
    → HasNoNul path
    → HasNoNul other
    → (parent_path other ≡ parent_path path) ↔ Siblings path other
parent_path-Siblings path other h k =
    let (p, c) = some_parent path in
    let (q, d) = some_parent other in
    (
      λ e.
          let same : q ≡ p =
            sym (IsChild-parent_path q other k d) ∙ e ∙ IsChild-parent_path p path h c in
          (p, c, subst (λ r. IsChild r other) same d),
      λ (r, a, b). IsChild-parent_path r other k b ∙ sym (IsChild-parent_path r path h a),
    )
