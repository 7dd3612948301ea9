-- ===== src/Speak/Scan.antt =====
-- What the loop of `open` in src/c/speak.c finds in the table.
use aviutl_psdtoolkit.Base.{
  same_text, ltb, ◌-◌, ℕ, suc, ◌+◌, ◌<◌, true, false, List, [], ◌∷◌, Option, none, some, get_elem?,
  Option-cases, Bool-cases, inl, inr, Chars, ◌≡◌, refl, sym, ap, ◌∙◌, arith,
}
use aviutl_psdtoolkit.Speak.Types.{Item}
use aviutl_psdtoolkit.Speak.Slots.{
  later_than, Scan, found, absent, fault, first_unused, older, index_of, scan,
}
use aviutl_psdtoolkit.Speak.Seen.{Used, Unused, At, Seen, nothing-Seen, skip_unused, skip_other}

module _ (items : List Item) (path : Chars) where
  -- A slot whose file has the path.
  abbrev pub Found : ℕ → Type 0
  Found i =
      (item : Item) × (s : Chars) × Used items path i item
      × (item.filepath ≡ some s)
      × (same_text s path ≡ true)

  -- No slot's file has the path.
  abbrev pub NotFound : Type 0
  NotFound =
      (i : ℕ) (item : Item)
      → Used items path i item
      → (s : Chars) → item.filepath ≡ some s
      → same_text s path ≡ false

  -- What is true of the table when the loop ends.
  abbrev pub Reports : Scan → Type 0
  Reports (found i) = Found i
  Reports (absent unused oldest) =
      ((j : ℕ) → unused ≡ some j → Unused items path j)
      × (unused ≡ none → (i : ℕ) (item : Item) → At items path i item → (x : ℕ) × (item.h ≡ some x))
      × ((j : ℕ)
          → oldest ≡ some j
          → (o : Item) × Used items path j o
            × ((i : ℕ) (item : Item)
                → Used items path i item
                → later_than o.used_at item.used_at ≡ false))
      × (oldest ≡ none → (i : ℕ) (item : Item) → ¬ Used items path i item)
      × NotFound
  Reports fault = (i : ℕ) × (item : Item) × Used items path i item × (item.filepath ≡ none)

  index_of-some :
      (o : Option (ℕ × Item)) (j : ℕ) → index_of o ≡ some j → (it : Item) × (o ≡ some (j, it))
  unfolding index_of
  index_of-some none j e = cc
  index_of-some (some (k, it)) j e = (it, let same : k ≡ j = cc in rw (same) refl)

  index_of-none : (o : Option (ℕ × Item)) → index_of o ≡ none → o ≡ none
  unfolding index_of
  index_of-none none e = refl
  index_of-none (some (k, it)) e = cc

  -- At the end of the list every slot has been seen.
  Seen-all :
      (n : ℕ) (u : Option ℕ) (o : Option (ℕ × Item))
      → ((i : ℕ) (item : Item) → At items path i item → i < n)
      → Seen items path n u o
      → Reports (absent u (index_of o))
  Seen-all n u o below s = (
    s.free,
    λ e i item at. s.full e i (below i item at) item at,
    λ j e.
        let (it, k) = index_of-some o j e in
        (it, (s.old j it k).0, λ i item used. (s.old j it k).1 i item (below i item used.at) used),
    λ e i item used. s.empty (index_of-none o e) i item (below i item used.at) used,
    λ i item used. s.others i item (below i item used.at) used,
  )

  nothing_beyond :
      (n : ℕ)
      → ((k : ℕ) → none ≡ get_elem? items (n + k))
      → (i : ℕ) (item : Item) → At items path i item
      → i < n
  nothing_beyond n same i item at = elim (Bool-cases (ltb i n)) [
    | inl l ↦ ground arith
    | inr l ↦
        let split : n + (i - n) ≡ i = ground arith in
        let here : none ≡ get_elem? items i = same (i - n) ∙ ap (get_elem? items) split in absurd cc
  ]

  scan-Reports_from :
      (rest : List Item) (n : ℕ) (u : Option ℕ) (o : Option (ℕ × Item))
      → ((k : ℕ) → get_elem? rest k ≡ get_elem? items (n + k))
      → Seen items path n u o
      → Reports (scan path n rest u o)
  unfolding scan
  scan-Reports_from [] n u o same s = Seen-all n u o (nothing_beyond n same) s
  scan-Reports_from (item ∷ rest) n u o same s =
      let at : At items path n item =
        let zero_right : n + 0 ≡ n = omega arith in
        sym (ap (get_elem? items) zero_right) ∙ sym (same 0) in
      let next : (k : ℕ) → get_elem? rest k ≡ get_elem? items (suc n + k) = λ k.
        let shift : n + suc k ≡ suc n + k = omega arith in
        same (suc k) ∙ ap (get_elem? items) shift in
      elim (Option-cases item.h) [
        | inl e ↦ rw (e) (
            scan-Reports_from rest (suc n) (first_unused u n) o next
              (skip_unused items path n u o item at e s))
        | inr (x, e) ↦
            let used : Used items path n item = record { at = at; file = (x, e) } in
            elim (Option-cases item.filepath) [
              | inl f ↦ rw (e, f) (n, item, used, f)
              | inr (t, f) ↦ elim (Bool-cases (same_text t path)) [
                | inl b ↦ rw (e, f, b) (item, t, used, f, b)
                | inr b ↦
                    rw (e, f, b)
                      (scan-Reports_from rest (suc n) u (older o n item) next
                        (skip_other items path n u o item t used f b s))
              ]
            ]
      ]

pub scan-Reports :
    (path : Chars) (items : List Item) → Reports items path (scan path 0 items none none)
scan-Reports path items =
    scan-Reports_from items path items 0 none none
      (λ k. let left : 0 + k ≡ k = omega arith in sym (ap (get_elem? items) left))
      (nothing-Seen items path)
