-- ===== src/Speak/Handles.antt =====
-- The files that src/c/speak.c has open are those of its table.
use aviutl_psdtoolkit.Base.{
  ℕ, zero, suc, ◌+◌, ◌-◌, List, [], ◌∷◌, Option, none, some, get_elem?, set, own, Option-cases, inl,
  inr, Chars, M, or_raise, Error, fail, Result, ok, err, Ovstr, Ends, From, >>=-From, ◌≡◌, refl, ap,
  ◌∙◌, arith,
}
use aviutl_psdtoolkit.Speak.Types.{Item, Table, Audio, outside}
use aviutl_psdtoolkit.Speak.Slots.{
  close_handle, close_at, close, make_room, assign_at, assign, now, fill, cleared,
}

-- How often a handle stands in the table.
abbrev pub total : List Item → ℕ → ℕ
total [] h = 0
total (item ∷ items) h = own item.h h + total items h

-- The documented effect of the calls on the open files.
pub record AudioLaws {W : Type 0} (lib : Ovstr W) (audio : Audio W) (opened : W → ℕ → ℕ)
    : Type 0 where
  pub open_file_lem :
      (path : Chars) (freq ch : ℕ) (w : W)
      → Ends
          (λ x w'. (h : ℕ) → opened w' h ≡ opened w h + own (some x) h)
          (λ e w'. (h : ℕ) → opened w' h ≡ opened w h)
          (audio.open_file path freq ch w)
  pub close_file_lem :
      (x : ℕ) (w : W) (h : ℕ) → opened (audio.close_file x w) h ≡ opened w h - own (some x) h
  pub read_file_lem :
      (x : Option ℕ) (offset length : ℕ) (w : W) (h : ℕ)
      → opened (audio.read_file x offset length w).1 h ≡ opened w h
  pub timespec_get_lem : (w : W) (h : ℕ) → opened (audio.timespec_get w).1 h ≡ opened w h
  pub scpy_lem : (s : Chars) (w : W) (h : ℕ) → opened (lib.scpy s w).1 h ≡ opened w h

pub total-set :
    (items : List Item) (i : ℕ) (item v : Item) (h : ℕ)
    → get_elem? items i ≡ some item
    → total (set items i v) h + own item.h h ≡ total items h + own v.h h
total-set [] i item v h e = cc
total-set (x ∷ items) zero item v h e =
    let same : x ≡ item = cc in omega (arith, ap (λ (it : Item). own it.h h) same)
total-set (x ∷ items) (suc i) item v h e = omega (arith, total-set items i item v h e)

get_elem?-set_self :
    (items : List Item) (i : ℕ) (item v : Item)
    → get_elem? items i ≡ some item
    → get_elem? (set items i v) i ≡ some v
get_elem?-set_self [] i item v e = cc
get_elem?-set_self (x ∷ items) zero item v e = refl
get_elem?-set_self (x ∷ items) (suc i) item v e = get_elem?-set_self items i item v e

module _ {W : Type 0} (lib : Ovstr W) (audio : Audio W) (opened : W → ℕ → ℕ)
    (laws : AudioLaws lib audio opened) where
  -- Beyond `base`, the open files are those of the table.
  abbrev pub Tracked : (ℕ → ℕ) → Table W → Type 0
  Tracked base t = (h : ℕ) → opened t.world h ≡ base h + total t.items h

  -- A slot without a file.
  abbrev pub Free : ℕ → Table W → Type 0
  Free i t = (item : Item) → get_elem? t.items i ≡ some item → item.h ≡ none

  pub close_handle-own :
      (o : Option ℕ) (w : W) (h : ℕ) → opened (close_handle lib audio o w) h ≡ opened w h - own o h
  unfolding close_handle
  close_handle-own none w h = omega arith
  close_handle-own (some x) w h = laws.close_file_lem x w h

  pub close-Tracked :
      (base : ℕ → ℕ) (i : ℕ) (t : Table W) → Tracked base t → Tracked base (close lib audio i t)
  unfolding close close_at
  close-Tracked base i t k h = elim (Option-cases (get_elem? t.items i)) [
    | inl e ↦ rw (e, close_at) (k h)
    | inr (item, e) ↦
        rw (e, close_at)
          (omega (
            arith,
            close_handle-own item.h t.world h,
            total-set t.items i item (record item { h = none; filepath = cleared item.filepath }) h
                e,
            k h,
          ))
  ]

  close-Free : (i : ℕ) (t : Table W) → Free i (close lib audio i t)
  unfolding close close_at
  close-Free i t v = elim (Option-cases (get_elem? t.items i)) [
    | inl e ↦ rw (e, close_at) λ (k : get_elem? t.items i ≡ some v). cc
    | inr (item, e) ↦
        rw (e, close_at)
          λ k.
            let same =
              get_elem?-set_self t.items i item
                (record item { h = none; filepath = cleared item.filepath }) e in
            cc
  ]

  outside_Ends :
      {A : Type 0} (Q : A → Table W → Type 0) (R : Error → Table W → Type 0) (t : Table W)
      (r : Result A × W)
      → Ends (λ a w. Q a (record t { world = w })) (λ e w. R e (record t { world = w })) r
      → Ends Q R (r.0, record t { world = r.1 })
  outside_Ends Q R t (ok a, w) k = k
  outside_Ends Q R t (err e, w) k = k

  -- A call outside of the table, by its documented effect.
  pub outside_From :
      {A : Type 0} {Q : A → Table W → Type 0} {R : Error → Table W → Type 0} (m : M W A)
      (t : Table W)
      → Ends (λ a w. Q a (record t { world = w })) (λ e w. R e (record t { world = w })) (m t.world)
      → From t Q R (outside m)
  unfolding outside
  outside_From {Q} {R} m t k = record { ends = outside_Ends Q R t (m t.world) k }

  -- A call that opens and closes nothing.
  abbrev pub Same : W → W → Type 0
  Same w w' = (h : ℕ) → opened w' h ≡ opened w h

  pub quiet_Ends :
      {A : Type 0} {Q : A → W → Type 0} {R : Error → W → Type 0} (w : W) (r : Result A × W)
      → ((a : A) (w' : W) → Same w w' → Q a w')
      → ((e : Error) (w' : W) → Same w w' → R e w')
      → Same w r.1
      → Ends Q R r
  quiet_Ends w (ok a, w') q e s = q a w' s
  quiet_Ends w (err x, w') q e s = e x w' s

  -- A clock that fails is an error.
  pub or_raise_From :
      {A : Type 0} (P : Table W → Type 0) {R : Error → Table W → Type 0} (o : Option A) (e : Error)
      (t : Table W)
      → P t
      → R e t
      → From t (λ _. P) R (or_raise o e)
  or_raise_From P none e t p r = record { ends = r }
  or_raise_From P (some a) e t p r = record { ends = p }

  module _ (base : ℕ → ℕ) where
    -- A slot is chosen, and has no file.
    Chosen : ℕ → Table W → Type 0
    Chosen i t = Tracked base t × Free i t

    Lost : Error → Table W → Type 0
    Lost e t = Tracked base t

    make_room-Chosen :
        (unused oldest : Option ℕ) (t : Table W)
        → ((j : ℕ) → unused ≡ some j → Free j t)
        → Tracked base t
        → From t Chosen Lost (make_room lib audio unused oldest)
    unfolding make_room Chosen Lost
    make_room-Chosen (some i) oldest t f k = record { ends = (k, f i refl) }
    make_room-Chosen none none t f k = record { ends = k }
    make_room-Chosen none (some i) t f k = record {
      ends = (close-Tracked base i t k, close-Free i t);
    }

    assign-Chosen :
        (i : ℕ) (f : Item → Item) (t : Table W)
        → ((item : Item) → (f item).h ≡ item.h)
        → Chosen i t
        → From t (λ _ t'. Chosen i t') Lost (assign lib audio i f)
    unfolding assign assign_at Chosen Lost
    assign-Chosen i f t same (k, free) = record {
      ends = elim (Option-cases (get_elem? t.items i)) [
        | inl e ↦ rw (e, assign_at) k
        | inr (item, e) ↦
            rw (e, assign_at)
              (
                λ h. omega (
                  arith,
                  total-set t.items i item (f item) h e,
                  k h,
                  ap (λ o. own o h) (same item),
                ),
                λ v found.
                    let now = get_elem?-set_self t.items i item (f item) e in
                    let was = free item e in let kept = same item in cc,
              )
      ];
    }

    now-Chosen :
        (P : Table W → Type 0) (t : Table W)
        → ((w : W) → ((h : ℕ) → opened w h ≡ opened t.world h) → P (record t { world = w }))
        → P t
        → From t (λ _. P) Lost (now lib audio)
    unfolding now
    now-Chosen P t k p = record {
      ends = k (audio.timespec_get t.world).1 (laws.timespec_get_lem t.world);
    }

    -- One more open file, which is not in the table yet.
    abbrev pub extra : ℕ → ℕ → ℕ
    extra x h = base h + own (some x) h

    assign_handle_lem :
        (i x : ℕ) (t : Table W)
        → Tracked (extra x) t
        → Free i t
        → From t
            (λ _. Tracked base)
            (λ _. Tracked (extra x))
            (assign lib audio i (λ item. record item { h = some x }))
    unfolding assign assign_at
    assign_handle_lem i x t k free = record {
      ends = elim (Option-cases (get_elem? t.items i)) [
        | inl e ↦ rw (e, assign_at) k
        | inr (item, e) ↦
            rw (e, assign_at)
              (λ h. omega (
                arith,
                total-set t.items i item (record item { h = some x }) h e,
                k h,
                ap (λ o. own o h) (free item e),
              ))
      ];
    }

  pub fill-Tracked :
      (base : ℕ → ℕ) (x : ℕ) (unused oldest : Option ℕ) (path : Chars) (t : Table W)
      → ((j : ℕ) → unused ≡ some j → Free j t)
      → Tracked (extra base x) t
      → From t
          (λ _. Tracked base)
          (λ _. Tracked (extra base x))
          (fill lib audio unused oldest path x)
  unfolding fill Chosen Lost
  fill-Tracked base x unused oldest path t free k =
      let b = extra base x in
      >>=-From (make_room-Chosen b unused oldest t free k) λ i t1 c.
        >>=-From
          (outside_From (lib.scpy path) t1 (
            quiet_Ends t1.world (lib.scpy path t1.world) (λ _ w s. (λ h. s h ∙ c.0 h, c.1))
              (λ _ w s h. s h ∙ c.0 h) (laws.scpy_lem path t1.world)))
          λ copy t2 c2.
            >>=-From
              (assign-Chosen b i (λ item. record item { filepath = some copy }) t2 (λ item. refl)
                c2)
              λ _ t3 c3.
                >>=-From (now-Chosen b (Chosen b i) t3 (λ w s. (λ h. s h ∙ c3.0 h, c3.1)) c3)
                  λ time t4 c4.
                    >>=-From (or_raise_From (Chosen b i) time fail t4 c4 c4.0) λ time t5 c5.
                      >>=-From
                        (assign-Chosen b i (λ item. record item { used_at = time }) t5
                          (λ item. refl) c5)
                        λ _ t6 c6. assign_handle_lem base i x t6 c6.0 c6.1
