-- ===== src/Speak/Closing.antt =====
-- The thread of src/c/speak.c and `speak_exit`: the files that they close.
use aviutl_psdtoolkit.Base.{
  ℕ, zero, suc, ◌+◌, ◌-◌, All, subst, length-append, List, [], ◌∷◌, ◌++◌, map, length, Option, none,
  some, get_elem?, set, if◌then◌else◌, Option-cases, Bool-cases, inl, inr, Ovstr, ◌≡◌, refl, sym,
  ap, ◌∙◌, append_assoc, arith,
}
use aviutl_psdtoolkit.Speak.Types.{Time, Item, Table, Audio}
use aviutl_psdtoolkit.Speak.Slots.{cleared, close, close_at, close_handle}
use aviutl_psdtoolkit.Speak.Thread.{
  expired, Wait, success, timedout, error, close_expired, sweep, gc_rounds, close_items, speak_exit,
}
use aviutl_psdtoolkit.Speak.Handles.{
  AudioLaws, Tracked, total, Same, close-Tracked, close_handle-own,
}

-- What a round of the thread makes of an item.
unfoldable pub swept : Time → Item → Item
swept t item = elim item.h [
  | none ↦ item
  | some _ ↦
      if expired t item then record item { h = none; filepath = cleared item.filepath } else item
]

swept-closed : (t : Time) (item : Item) → item.h ≡ none → swept t item ≡ item
unfolding swept
swept-closed t item n =
    ap
      (λ (o : Option ℕ). elim o [
        | none ↦ item
        | some _ ↦
            if expired t item
            then record item { h = none; filepath = cleared item.filepath }
            else item
      ])
      n

swept-open :
    (t : Time) (item : Item) (x : ℕ)
    → item.h ≡ some x
    → swept t item ≡ (
        if expired t item then record item { h = none; filepath = cleared item.filepath } else item)
unfolding swept
swept-open t item x n =
    ap
      (λ (o : Option ℕ). elim o [
        | none ↦ item
        | some _ ↦
            if expired t item
            then record item { h = none; filepath = cleared item.filepath }
            else item
      ])
      n

set-append :
    (pre : List Item) (item v : Item) (rest : List Item)
    → set (pre ++ (item ∷ rest)) (length pre) v ≡ (pre ++ (v ∷ [])) ++ rest
set-append [] item v rest = refl
set-append (x ∷ pre) item v rest = rw (set-append pre item v rest)

get_elem?-append :
    (pre : List Item) (item : Item) (rest : List Item)
    → get_elem? (pre ++ (item ∷ rest)) (length pre) ≡ some item
get_elem?-append [] item rest = refl
get_elem?-append (x ∷ pre) item rest = get_elem?-append pre item rest

module _ {W : Type 0} (lib : Ovstr W) (audio : Audio W) where
  close_expired-closed :
      (t : Time) (i : ℕ) (item : Item) (s : Table W)
      → item.h ≡ none
      → close_expired lib audio t i (some item) s ≡ s
  unfolding close_expired
  close_expired-closed t i item s n =
      ap
        (λ (o : Option ℕ). elim o [
          | none ↦ s
          | some _ ↦ if expired t item then close lib audio i s else s
        ])
        n

  close_expired-open :
      (t : Time) (i : ℕ) (item : Item) (s : Table W) (x : ℕ)
      → item.h ≡ some x
      → close_expired lib audio t i (some item) s
        ≡ (if expired t item then close lib audio i s else s)
  unfolding close_expired
  close_expired-open t i item s x n =
      ap
        (λ (o : Option ℕ). elim o [
          | none ↦ s
          | some _ ↦ if expired t item then close lib audio i s else s
        ])
        n

  close_items_lem :
      (i : ℕ) (item : Item) (s : Table W)
      → get_elem? s.items i ≡ some item
      → (close lib audio i s).items
        ≡ set s.items i (record item { h = none; filepath = cleared item.filepath })
  unfolding close close_at
  close_items_lem i item s e = ap (λ o. (close_at lib audio o i s).items) e

  close_expired_items :
      (t : Time) (pre : List Item) (item : Item) (rest : List Item) (s : Table W)
      → s.items ≡ pre ++ (item ∷ rest)
      → (close_expired lib audio t (length pre) (get_elem? s.items (length pre)) s).items
        ≡ (pre ++ (swept t item ∷ [])) ++ rest
  close_expired_items t pre item rest s e =
      let here : get_elem? s.items (length pre) ≡ some item =
        ap (λ l. get_elem? l (length pre)) e ∙ get_elem?-append pre item rest in
      let start = ap (λ o. (close_expired lib audio t (length pre) o s).items) here in
      let shape : (v : Item)
          → swept t item ≡ v
          → (pre ++ (v ∷ [])) ++ rest ≡ (pre ++ (swept t item ∷ [])) ++ rest =
        λ v k. ap (λ v. (pre ++ (v ∷ [])) ++ rest) (sym k) in
      let same = e ∙ sym (append_assoc pre (item ∷ []) rest) in
      elim (Option-cases item.h) [
        | inl n ↦
            start
            ∙ ap (λ (s : Table W). s.items) (close_expired-closed t (length pre) item s n)
            ∙ same
            ∙ shape item (swept-closed t item n)
        | inr (x, n) ↦ elim (Bool-cases (expired t item)) [
          | inl b ↦
              let v : Item = record item { h = none; filepath = cleared item.filepath } in
              start
              ∙ ap (λ (s : Table W). s.items)
                  (close_expired-open t (length pre) item s x n
                    ∙ ap (λ b. if b then close lib audio (length pre) s else s) b)
              ∙ close_items_lem (length pre) item s here
              ∙ ap (λ l. set l (length pre) v) e
              ∙ set-append pre item v rest
              ∙ shape v (swept-open t item x n ∙ ap (λ b. if b then v else item) b)
          | inr b ↦
              start
              ∙ ap (λ (s : Table W). s.items)
                  (close_expired-open t (length pre) item s x n
                    ∙ ap (λ b. if b then close lib audio (length pre) s else s) b)
              ∙ same
              ∙ shape item (
                  swept-open t item x n
                  ∙ ap
                      (λ b.
                        if b
                        then record item { h = none; filepath = cleared item.filepath }
                        else item)
                      b)
        ]
      ]

  sweep_from :
      (t : Time) (n : ℕ) (pre rest : List Item) (s : Table W)
      → s.items ≡ pre ++ rest
      → length rest ≡ n
      → (sweep lib audio t n (length pre) s).items ≡ pre ++ map (swept t) rest
  unfolding sweep
  sweep_from t zero pre [] s e le = e
  sweep_from t zero pre (x ∷ rest) s e le = absurd (omega arith)
  sweep_from t (suc n) pre [] s e le = absurd (omega arith)
  sweep_from t (suc n) pre (item ∷ rest) s e le =
      let here = swept t item ∷ [] in
      let s1 = close_expired lib audio t (length pre) (get_elem? s.items (length pre)) s in
      let one : length (pre ++ here) ≡ suc (length pre) = omega (arith, length-append pre here) in
      ap (λ i. (sweep lib audio t n i s1).items) (sym one)
      ∙ sweep_from t n (pre ++ here) rest s1 (close_expired_items t pre item rest s e) (omega arith)
      ∙ append_assoc pre here (map (swept t) rest)

  -- For a table of eight slots, the thread's loop over them leaves exactly the slots that closing
  -- each item in use that was last used two seconds before or earlier, on its own, gives.
  pub sweep-map :
      (t : Time) (s : Table W)
      → length s.items ≡ 8
      → (sweep lib audio t 8 0 s).items ≡ map (swept t) s.items
  sweep-map t s size = sweep_from t 8 [] s.items s refl size

  module _ (opened : W → ℕ → ℕ) (laws : AudioLaws lib audio opened) (base : ℕ → ℕ) where
    abbrev Kept : Table W → Type 0
    Kept = Tracked lib audio opened laws base

    close_expired-Kept :
        (t : Time) (i : ℕ) (s : Table W)
        → Kept s
        → Kept (close_expired lib audio t i (get_elem? s.items i) s)
    unfolding close_expired
    close_expired-Kept t i s k = elim (Option-cases (get_elem? s.items i)) [
      | inl e ↦ subst (λ o. Kept (close_expired lib audio t i o s)) (sym e) k
      | inr (item, e) ↦
          subst (λ o. Kept (close_expired lib audio t i o s)) (sym e)
            (elim (Option-cases item.h) [
              | inl n ↦ subst Kept (sym (close_expired-closed t i item s n)) k
              | inr (x, n) ↦
                  subst Kept (sym (close_expired-open t i item s x n))
                    (elim (Bool-cases (expired t item)) [
                      | inl b ↦ rw (b) (close-Tracked lib audio opened laws base i s k)
                      | inr b ↦ rw (b) k
                    ])
            ])
    ]

    sweep-Kept : (t : Time) (n i : ℕ) (s : Table W) → Kept s → Kept (sweep lib audio t n i s)
    unfolding sweep
    sweep-Kept t zero i s k = k
    sweep-Kept t (suc n) i s k =
        sweep-Kept t n (suc i) (close_expired lib audio t i (get_elem? s.items i) s)
          (close_expired-Kept t i s k)

    -- With the documented effect of the audio library on the open files (a file opened is open
    -- once more, a file closed once less, and nothing else changes them): through any sequence of
    -- the thread's waits, with other calls in between that keep the files open beyond a base
    -- exactly those of the table, they are so when the thread ends.
    gc_rounds-Tracked :
        (rounds : List (Wait × (Table W → Table W))) (lock unlock : W → W)
        → All (λ round. (s : Table W) → Kept s → Kept (round.1 s)) rounds
        → ((w : W) → Same lib audio opened laws w (lock w))
        → ((w : W) → Same lib audio opened laws w (unlock w))
        → (t : Time) (s : Table W) → Tracked lib audio opened laws base s
        → Tracked lib audio opened laws base (gc_rounds lib audio rounds lock unlock t s).1
    unfolding gc_rounds
    gc_rounds-Tracked [] lock unlock others sl su t s k = k
    gc_rounds-Tracked ((success, f) ∷ rest) lock unlock others sl su t s k = others.0 s k
    gc_rounds-Tracked ((error, f) ∷ rest) lock unlock others sl su t s k = others.0 s k
    gc_rounds-Tracked ((timedout, f) ∷ rest) lock unlock others sl su t s k =
        let t' : Time = record t { sec = t.sec + 1 } in
        let s1 = f s in
        let s2 = sweep lib audio t' 8 0 (record s1 { world = lock s1.world }) in
        let k2 : Kept s2 =
          sweep-Kept t' 8 0 (record s1 { world = lock s1.world })
            (λ h. sl s1.world h ∙ others.0 s k h) in
        gc_rounds-Tracked rest lock unlock others.1 sl su t' (record s2 { world = unlock s2.world })
          (λ h. su s2.world h ∙ k2 h)

    close_items-total :
        (items : List Item) (w : W) (h : ℕ)
        → opened (close_items lib audio items w) h ≡ opened w h - total items h
    unfolding close_items
    close_items-total [] w h = omega arith
    close_items-total (item ∷ items) w h = omega (
      arith,
      close_items-total items (close_handle lib audio item.h w) h,
      close_handle-own lib audio opened laws item.h w h,
    )

    -- With the documented effect of the audio library on the open files (a file opened is open
    -- once more, a file closed once less, and nothing else changes them): if the files open beyond
    -- a base are exactly those of the table, and stopping the thread and taking the lock open and
    -- close none, then after speak_exit exactly the base is open.
    pub speak_exit-closes :
        (stop lock : W → W) (t : Table W)
        → ((w : W) → Same lib audio opened laws w (lock (stop w)))
        → Tracked lib audio opened laws base t
        → (h : ℕ) → opened (speak_exit lib audio stop lock (some t) t.world) h ≡ base h
    unfolding speak_exit
    speak_exit-closes stop lock t same k h =
        omega (arith, close_items-total t.items (lock (stop t.world)) h, same t.world h, k h)
