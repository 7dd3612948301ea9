-- ===== src/Speak/Seen.antt =====
-- What the loop of `open` in src/c/speak.c knows of the slots that it has seen.
use aviutl_psdtoolkit.Base.{
  same_text, ℕ, suc, ◌<◌, true, false, List, Option, none, some, get_elem?, Bool-cases, ==_iff,
  ==_ne, ◌⊎◌, ◌==◌, subst, inl, inr, Chars, ◌≡◌, refl, sym, arith,
}
use aviutl_psdtoolkit.Speak.Types.{Time, Item}
use aviutl_psdtoolkit.Speak.Slots.{later_than, first_unused, older}

module _ (items : List Item) (path : Chars) where
  -- The slot has the item, and the item a file, or none.
  abbrev pub At : ℕ → Item → Type 0
  At i item = get_elem? items i ≡ some item

  pub record Used (i : ℕ) (item : Item) : Type 0 where
    pub at : At i item
    pub file : (x : ℕ) × (item.h ≡ some x)

  abbrev pub Unused : ℕ → Type 0
  Unused i = (item : Item) × At i item × (item.h ≡ none)

  -- No file among the first `n` slots was used before `o` was.
  abbrev pub Oldest : ℕ → Item → Type 0
  Oldest n o =
      (i : ℕ) (item : Item) → i < n → Used i item → later_than o.used_at item.used_at ≡ false

  abbrev pub OtherPath : ℕ → Type 0
  OtherPath n =
      (i : ℕ) (item : Item)
      → i < n
      → Used i item
      → (s : Chars) → item.filepath ≡ some s
      → same_text s path ≡ false

  -- What the loop knows of the first `n` slots.
  pub record Seen (n : ℕ) (unused : Option ℕ) (oldest : Option (ℕ × Item)) : Type 0 where
    pub free : (j : ℕ) → unused ≡ some j → Unused j
    pub full :
        unused ≡ none → (i : ℕ) → i < n → (item : Item) → At i item → (x : ℕ) × (item.h ≡ some x)
    pub old : (j : ℕ) (o : Item) → oldest ≡ some (j, o) → Used j o × Oldest n o
    pub empty : oldest ≡ none → (i : ℕ) (item : Item) → i < n → Used i item → ⊥
    pub others : OtherPath n

  pub nothing-Seen : Seen 0 none none
  nothing-Seen = record {
    free = λ j e. cc;
    full = λ e i lt. absurd (omega arith);
    old = λ j o e. cc;
    empty = λ e i item lt. absurd (omega arith);
    others = λ i item lt. absurd (omega arith);
  }

  below_suc : (P : ℕ → Type 0) (n i : ℕ) → i < suc n → ((i < n) → P i) → P n → P i
  below_suc P n i lt before here = elim (Bool-cases (i == n)) [
    | inl e ↦ subst P (sym ((==_iff i n).0 e)) here
    | inr e ↦ before (let ne = ==_ne i n e in omega arith)
  ]

  first_unused-some :
      (u : Option ℕ) (n j : ℕ) → first_unused u n ≡ some j → (u ≡ some j) ⊎ ((u ≡ none) × (j ≡ n))
  unfolding first_unused
  first_unused-some none n j e = inr (refl, cc)
  first_unused-some (some i) n j e = inl e

  first_unused-none : (u : Option ℕ) (n : ℕ) → first_unused u n ≡ none → ⊥
  unfolding first_unused
  first_unused-none none n e = cc
  first_unused-none (some i) n e = cc

  clash : (n : ℕ) (item v : Item) → At n item → item.h ≡ none → Used n v → ⊥
  clash n item v at is_none used = let at' = used.at in let some' = used.file.1 in cc

  pub skip_unused :
      (n : ℕ) (u : Option ℕ) (o : Option (ℕ × Item)) (item : Item)
      → At n item
      → item.h ≡ none
      → Seen n u o
      → Seen (suc n) (first_unused u n) o
  skip_unused n u o item at is_none s = record {
    free = λ j e. elim (first_unused-some u n j e) [
      | inl e ↦ s.free j e
      | inr (_, e) ↦ subst Unused (sym e) (item, at, is_none)
    ];
    full = λ e. absurd (first_unused-none u n e);
    old = λ j it e. (
      (s.old j it e).0,
      λ i v lt.
          below_suc (λ i. Used i v → later_than it.used_at v.used_at ≡ false) n i lt
            (λ lt. (s.old j it e).1 i v lt) (λ used. absurd (clash n item v at is_none used)),
    );
    empty = λ e i v lt.
        below_suc (λ i. Used i v → ⊥) n i lt (λ lt. s.empty e i v lt) (clash n item v at is_none);
    others = λ i v lt.
        below_suc (λ i. Used i v → (t : Chars) → v.filepath ≡ some t → same_text t path ≡ false) n i
          lt (λ lt. s.others i v lt) (λ used. absurd (clash n item v at is_none used));
  }

  -- One item is not older than itself, nor than one that it replaces.
  later_than_refl : (a : Time) → later_than a a ≡ false
  unfolding later_than
  later_than_refl a = ground arith

  later_than_trans :
      (a b c : Time) → later_than b a ≡ true → later_than b c ≡ false → later_than a c ≡ false
  unfolding later_than
  later_than_trans a b c h k = ground arith

  -- The new item takes the place of what is not older, or the old one stays.
  Replaced : Option (ℕ × Item) → Item → Type 0
  Replaced o item = (k : ℕ) (v : Item) → o ≡ some (k, v) → later_than v.used_at item.used_at ≡ true

  older_cases :
      (o : Option (ℕ × Item)) (n : ℕ) (item : Item)
      → ((older o n item ≡ some (n, item)) × Replaced o item)
        ⊎ ((j : ℕ) × (it : Item) × (o ≡ some (j, it))
            × (older o n item ≡ some (j, it))
            × (later_than it.used_at item.used_at ≡ false))
  unfolding older Replaced
  older_cases none n item = inl (refl, λ k v e. cc)
  older_cases (some (j, o)) n item = elim (Bool-cases (later_than o.used_at item.used_at)) [
    | inl l ↦ inl (rw (l) refl, λ k v e. let same : o ≡ v = cc in rw (← same) l)
    | inr l ↦ inr (j, o, refl, rw (l) refl, l)
  ]

  older-none : (o : Option (ℕ × Item)) (n : ℕ) (item : Item) → older o n item ≡ none → ⊥
  older-none o n item e = elim (older_cases o n item) [
    | inl (k, _) ↦ cc
    | inr (j, it, _, k, _) ↦ cc
  ]

  same_item : (n : ℕ) (item v : Item) → At n item → Used n v → item ≡ v
  same_item n item v at used = let at' = used.at in cc

  Oldest-suc :
      (n : ℕ) (o item : Item)
      → At n item
      → later_than o.used_at item.used_at ≡ false
      → Oldest n o
      → Oldest (suc n) o
  Oldest-suc n o item at l s i v lt =
      below_suc (λ i. Used i v → later_than o.used_at v.used_at ≡ false) n i lt (λ lt. s i v lt)
        (λ k. rw (← same_item n item v at k) l)

  Replaced-Oldest :
      (n : ℕ) (u : Option ℕ) (o : Option (ℕ × Item)) (item : Item)
      → Seen n u o
      → Replaced o item
      → Oldest n item
  unfolding Replaced
  Replaced-Oldest n u none item s r i v lt k = absurd (s.empty refl i v lt k)
  Replaced-Oldest n u (some (j, o)) item s r i v lt k =
      later_than_trans item.used_at o.used_at v.used_at (r j o refl) ((s.old j o refl).1 i v lt k)

  older-Oldest :
      (n : ℕ) (u : Option ℕ) (o : Option (ℕ × Item)) (item : Item)
      → Used n item
      → Seen n u o
      → (j : ℕ) (it : Item) → older o n item ≡ some (j, it)
      → Used j it × Oldest (suc n) it
  older-Oldest n u o item used s j it e = elim (older_cases o n item) [
    | inl (k, r) ↦
        let ej : n ≡ j = cc in
        let ei : item ≡ it = cc in
        rw (← ej, ← ei)
          (
            used,
            Oldest-suc n item item used.at (later_than_refl item.used_at)
                (Replaced-Oldest n u o item s r),
          )
    | inr (k, v, eo, kept, l) ↦
        let ej : k ≡ j = cc in
        let ei : v ≡ it = cc in
        let was = s.old k v eo in rw (← ej, ← ei) (was.0, Oldest-suc n v item used.at l was.1)
  ]

  pub skip_other :
      (n : ℕ) (u : Option ℕ) (o : Option (ℕ × Item)) (item : Item) (t : Chars)
      → Used n item
      → item.filepath ≡ some t
      → same_text t path ≡ false
      → Seen n u o
      → Seen (suc n) u (older o n item)
  skip_other n u o item t used named other s = record {
    free = s.free;
    full = λ e i lt v at.
        below_suc (λ i. At i v → (x : ℕ) × (v.h ≡ some x)) n i lt (λ lt. s.full e i lt v)
          (λ at. let at' = used.at in let same : item ≡ v = cc in rw (← same) used.file) at;
    old = older-Oldest n u o item used s;
    empty = λ e. absurd (older-none o n item e);
    others = λ i v lt.
        below_suc (λ i. Used i v → (t : Chars) → v.filepath ≡ some t → same_text t path ≡ false) n i
          lt (λ lt. s.others i v lt)
          (λ k t' named'.
            let same = same_item n item v used.at k in let text : t ≡ t' = cc in rw (← text) other);
  }
