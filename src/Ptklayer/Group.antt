-- ===== src/Ptklayer/Group.antt =====
-- What `enumerate_siblings` of src/c/ptklayer.c collects.
use aviutl_psdtoolkit.Base.{
  ℕ, zero, suc, ◌+◌, ◌≤◌, ◌<◌, Bool, true, false, not, ◌&&◌, List, [], ◌∷◌, ◌++◌, none, some, inl,
  inr, ltb, ◌==◌, if◌then◌else◌, Bool-cases, true-ne-false, ==_iff, ==_ne, length, take, get_elem?,
  Chars, HasNoNul, append_assoc, append-nil, Error, Meets, pure-Meets, >>=-Meets, weaken-Meets,
  Ovstr, OvstrLaws, ◌≡◌, ◌⊎◌, ◌↔◌, refl, sym, ap, ◌∙◌, arith,
}
use aviutl_psdtoolkit.Ptklayer.Types.{Item, Ptklayer, is_faview, later, wcsrchr, wcsncmp_eq}
use aviutl_psdtoolkit.Ptklayer.Names.{extract_layer_name}
use aviutl_psdtoolkit.Ptklayer.Paths.{parent_path, Siblings, parent_path-Siblings}
use aviutl_psdtoolkit.Ptklayer.Siblings.{
  is_sibling, push_all, push_siblings, enumerate_siblings, enumerate_of,
}

wcsrchr-lt : (s : Chars) (ch i : ℕ) → wcsrchr s ch ≡ some i → i < length s
unfolding wcsrchr
wcsrchr-lt [] ch i h = cc
wcsrchr-lt (c ∷ cs) ch i h =
    elim (wcsrchr cs ch)
        as (λ o.
          ((j : ℕ) → o ≡ some j → j < length cs)
          → (if c == 0 then none else later o (c == ch)) ≡ some i
          → i < suc (length cs)) [
            | none ↦ λ k e. unfold later in ground arith
            | some j ↦ λ k e. unfold later in ground (arith, k j refl)
          ]
      (λ j e. wcsrchr-lt cs ch j e) h

extract-le : (s : Chars) → extract_layer_name s ≤ length s
unfolding extract_layer_name
extract-le s =
    elim (wcsrchr s b'/')
        as (λ o.
          ((i : ℕ) → o ≡ some i → i < length s) → elim o [ none ↦ 0 | some i ↦ i + 1 ] ≤ length s) [
            | none ↦ λ k. omega arith
            | some i ↦ λ k. omega (arith, k i refl)
          ]
      (λ i e. wcsrchr-lt s b'/' i e)

wcsncmp_eq-take :
    (a b : Chars) (n : ℕ)
    → HasNoNul a
    → HasNoNul b
    → n ≤ length a
    → n ≤ length b
    → (wcsncmp_eq a b n ≡ true) ↔ (take n a ≡ take n b)
unfolding wcsncmp_eq
wcsncmp_eq-take a b zero h k p q = (λ _. refl, λ _. refl)
wcsncmp_eq-take [] b (suc n) h k p q = absurd (omega arith)
wcsncmp_eq-take (c ∷ a) [] (suc n) h k p q = absurd (omega arith)
wcsncmp_eq-take (c ∷ a) (d ∷ b) (suc n) h k p q = ground (arith, wcsncmp_eq-take a b n h.1 k.1)

length-take_le : (n : ℕ) (s : Chars) → n ≤ length s → length (take n s) ≡ n
length-take_le zero s h = refl
length-take_le (suc n) [] h = absurd (omega arith)
length-take_le (suc n) (c ∷ s) h = ap suc (length-take_le n s (omega arith))

same_depth :
    (name other : Chars)
    → parent_path other ≡ parent_path name
    → extract_layer_name name ≡ extract_layer_name other
same_depth name other e =
    sym (length-take_le _ name (extract-le name))
    ∙ ap length (sym e)
    ∙ length-take_le _ other (extract-le other)

wcsncmp_eq-zero : (a b : Chars) (n : ℕ) → n ≡ 0 → wcsncmp_eq a b n ≡ true
wcsncmp_eq-zero a b n e = rw e (unfold wcsncmp_eq in refl)

both_tests :
    {P : Type 0} (n : ℕ) (w : Bool)
    → (w ≡ true) ↔ P
    → (n ≡ 0 → w ≡ true)
    → ((if ltb 0 n && not w then false else true) ≡ true) ↔ P
both_tests n true h k = (λ _. h.0 refl, λ _. ground arith)
both_tests n false h k = (λ e. h.0 (ground arith), λ q. absurd (true-ne-false (sym (h.1 q))))

-- The two tests of the loop pass just if the parents' paths agree.
is_sibling_iff :
    (name other : Chars)
    → HasNoNul name
    → HasNoNul other
    → (is_sibling name other ≡ true) ↔ (parent_path other ≡ parent_path name)
unfolding is_sibling
is_sibling_iff name other h k =
    elim (Bool-cases (extract_layer_name name == extract_layer_name other)) [
      | inr differ ↦ rw differ (λ e. cc, λ e. absurd (==_ne _ _ differ (same_depth name other e)))
      | inl same ↦
          let e = (==_iff _ _).0 same in
          let both =
            wcsncmp_eq-take other name (extract_layer_name name) k h (rw e (extract-le other))
              (extract-le name) in
          rw (same, ← e)
            (both_tests (extract_layer_name name) _ both (wcsncmp_eq-zero other name _))
    ]

abbrev pub In : ℕ → List ℕ → Type 0
In j [] = ⊥
In j (k ∷ ks) = (j ≡ k) ⊎ In j ks

-- The indices `i + j` of the items that stand at `j` and satisfy `p`.
unfoldable pub picked : (Item → Bool) → ℕ → List Item → List ℕ
picked p i [] = []
picked p i (item ∷ items) = let rest = picked p (i + 1) items in if p item then i ∷ rest else rest

abbrev PickedAt : (Item → Bool) → ℕ → List Item → ℕ → Type 0
PickedAt p i items k =
    (j : ℕ) × (item : Item) × (k ≡ i + j) × (get_elem? items j ≡ some item) × (p item ≡ true)

PickedAt-later :
    (p : Item → Bool) (i k : ℕ) (x : Item) (items : List Item)
    → PickedAt p (i + 1) items k
    → PickedAt p i (x ∷ items) k
PickedAt-later p i k x items (j, item, e, g, t) = (suc j, item, omega arith, g, t)

PickedAt-split :
    (p : Item → Bool) (i k : ℕ) (x : Item) (items : List Item)
    → PickedAt p i (x ∷ items) k
    → ((k ≡ i) × (p x ≡ true)) ⊎ PickedAt p (i + 1) items k
PickedAt-split p i k x items (zero, item, e, g, t) = inl (omega arith, cc)
PickedAt-split p i k x items (suc j, item, e, g, t) = inr (j, item, omega arith, g, t)

In-picked :
    (p : Item → Bool) (i k : ℕ) (items : List Item) → In k (picked p i items) ↔ PickedAt p i items k
unfolding picked
In-picked p i k [] = (absurd, λ q. cc (q.3))
In-picked p i k (x ∷ items) = elim (Bool-cases (p x)) [
  | inl hit ↦ rw hit (
    elim [
      | inl e ↦ (zero, x, omega arith, refl, hit)
      | inr m ↦ PickedAt-later p i k x items ((In-picked p (i + 1) k items).0 m)
    ],
    λ q. elim (PickedAt-split p i k x items q) [
      | inl h ↦ inl h.0
      | inr m ↦ inr ((In-picked p (i + 1) k items).1 m)
    ],
  )
  | inr miss ↦ rw miss (
    (λ m. PickedAt-later p i k x items ((In-picked p (i + 1) k items).0 m)),
    λ q. elim (PickedAt-split p i k x items q) [
      | inl h ↦ absurd (true-ne-false (sym h.1 ∙ miss))
      | inr m ↦ (In-picked p (i + 1) k items).1 m
    ],
  )
]

-- Each index is greater than the one before it.
abbrev pub Ascending : ℕ → List ℕ → Type 0
Ascending lo [] = Unit
Ascending lo (k ∷ ks) = (lo ≤ k) × Ascending (k + 1) ks

Ascending-le : (lo hi : ℕ) (ks : List ℕ) → lo ≤ hi → Ascending hi ks → Ascending lo ks
Ascending-le lo hi [] h a = tt
Ascending-le lo hi (k ∷ ks) h a = (omega (arith, a.0), a.1)

picked-Ascending : (p : Item → Bool) (i : ℕ) (items : List Item) → Ascending i (picked p i items)
unfolding picked
picked-Ascending p i [] = tt
picked-Ascending p i (x ∷ items) = elim (Bool-cases (p x)) [
  | inl hit ↦ rw hit (omega arith, picked-Ascending p (i + 1) items)
  | inr miss ↦ rw miss (Ascending-le i (i + 1) _ (omega arith) (picked-Ascending p (i + 1) items))
]

Siblings-In :
    (items : List Item) (name : Chars)
    → HasNoNul name
    → ((j : ℕ) (other : Item) → get_elem? items j ≡ some other → HasNoNul other.name)
    → (j : ℕ)
    → In j (picked (λ x. is_sibling name x.name) 0 items)
      ↔ ((other : Item) × (get_elem? items j ≡ some other) × Siblings name other.name)
Siblings-In items name h clean j = (
  λ m.
      let (k, other, e, g, t) = (In-picked _ 0 j items).0 m in
      let same : j ≡ k = omega arith in
      let clean' = clean k other g in
      (
        other,
        rw same g,
        (parent_path-Siblings name other.name h clean').0
            ((is_sibling_iff name other.name h clean').0 t),
      ),
  λ (other, g, t).
      let clean' = clean j other g in
      (In-picked _ 0 j items).1 (
        j,
        other,
        omega arith,
        g,
        (is_sibling_iff name other.name h clean').1
            ((parent_path-Siblings name other.name h clean').1 t),
      ),
)

all_In :
    (items : List Item) (j : ℕ)
    → In j (picked (λ _. true) 0 items) ↔ ((other : Item) × (get_elem? items j ≡ some other))
all_In items j = (
  λ m.
      let (k, other, e, g, t) = (In-picked _ 0 j items).0 m in
      let same : j ≡ k = omega arith in (other, rw same g),
  λ (other, g). (In-picked _ 0 j items).1 (j, other, omega arith, g, refl),
)

module _ {W : Type 0} {E : Error → Type 0} (lib : Ovstr W) (laws : OvstrLaws lib E) where
  pub push_all-Meets :
      (i : ℕ) (items : List Item) (a : List ℕ)
      → Meets E (λ r. r ≡ a ++ picked (λ _. true) i items) (push_all lib i items a)
  unfolding push_all picked
  push_all-Meets i [] a = pure-Meets a (sym (append-nil a))
  push_all-Meets i (x ∷ items) a =
      >>=-Meets laws.apush_lem
        λ _ _. rw (← append_assoc a (i ∷ []) _) (push_all-Meets (i + 1) items (a ++ (i ∷ [])))

  push_siblings-Meets :
      (name : Chars) (i : ℕ) (items : List Item) (a : List ℕ)
      → Meets E
          (λ r. r ≡ a ++ picked (λ x. is_sibling name x.name) i items)
          (push_siblings lib name i items a)
  unfolding push_siblings picked
  push_siblings-Meets name i [] a = pure-Meets a (sym (append-nil a))
  push_siblings-Meets name i (x ∷ items) a = elim (Bool-cases (is_sibling name x.name)) [
    | inl hit ↦ rw hit (
        >>=-Meets laws.apush_lem λ _ _.
          rw (← append_assoc a (i ∷ []) _) (push_siblings-Meets name (i + 1) items (a ++ (i ∷ []))))
    | inr miss ↦ rw miss (push_siblings-Meets name (i + 1) items a)
  ]

  -- For a list of layers, none of whose names has a NUL, and an index in range, enumerate_siblings
  -- gives ascending indices, which are exactly those of the items in the same group: the names are
  -- one path, which is empty or ends with a slash, followed by a name without slash each. Or it
  -- ends in an error of the string library.
  pub enumerate_siblings-layer :
      (pi : Ptklayer) (idx : ℕ) (item : Item)
      → pi.slider_name ≡ none
      → get_elem? pi.items idx ≡ some item
      → ((j : ℕ) (other : Item) → get_elem? pi.items j ≡ some other → HasNoNul other.name)
      → Meets E
          (λ r.
            Ascending 0 r
            × ((j : ℕ)
                → In j r ↔ (
                    (other : Item) × (get_elem? pi.items j ≡ some other)
                    × Siblings item.name other.name)))
          (enumerate_siblings lib pi idx)
  unfolding enumerate_siblings enumerate_of is_faview
  enumerate_siblings-layer pi idx item plain at clean =
      rw (at, enumerate_of)
        (rw (plain, is_faview)
          (weaken-Meets (push_siblings-Meets item.name 0 pi.items []) λ r e. rw e (
            picked-Ascending _ 0 pi.items,
            λ j. Siblings-In pi.items item.name (clean idx item at) clean j,
          )))

  -- For a slider and an index in range, enumerate_siblings gives ascending indices, which are
  -- exactly those of all items, or an error of the string library.
  pub enumerate_siblings-slider :
      (pi : Ptklayer) (idx : ℕ) (item : Item) (slider : Chars)
      → pi.slider_name ≡ some slider
      → get_elem? pi.items idx ≡ some item
      → Meets E
          (λ r.
            Ascending 0 r
            × ((j : ℕ) → In j r ↔ ((other : Item) × (get_elem? pi.items j ≡ some other))))
          (enumerate_siblings lib pi idx)
  unfolding enumerate_siblings enumerate_of is_faview
  enumerate_siblings-slider pi idx item slider named at =
      rw (at, enumerate_of)
        (rw (named, is_faview)
          (weaken-Meets (push_all-Meets 0 pi.items [])
            λ r e. rw e (picked-Ascending _ 0 pi.items, all_In pi.items)))
