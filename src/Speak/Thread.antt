-- ===== src/Speak/Thread.antt =====
-- The thread of src/c/speak.c that closes files, `speak_init` and `speak_exit`.
use aviutl_psdtoolkit.Base.{
  ℕ, zero, suc, ◌+◌, Bool, ◌&&◌, ◌||◌, List, [], ◌∷◌, Option, none, some, leb, ◌==◌, if◌then◌else◌,
  get_elem?, M, ◌>>◌, pure, raise, finally, fail, unexpected, invalid_argument, ok, err, Ovstr,
}
use aviutl_psdtoolkit.Speak.Types.{Time, Item, empty_item, Table, Audio}
use aviutl_psdtoolkit.Speak.Slots.{close, close_handle}

-- An item that was last used two seconds before `t` or earlier.
unfoldable pub expired : Time → Item → Bool
expired t item =
    leb (item.used_at.sec + 2) t.sec
    || (t.sec == item.used_at.sec + 2 && leb item.used_at.nsec t.nsec)

-- What `cndvar_timedwait_while` returns.
pub data Wait : Type 0 where
  success timedout error : Wait

module _ {W : Type 0} (lib : Ovstr W) (audio : Audio W) where
  unfoldable pub close_expired : Time → ℕ → Option Item → Table W → Table W
  close_expired t i none s = s
  close_expired t i (some item) s = elim item.h [
    | none ↦ s
    | some _ ↦ if expired t item then close lib audio i s else s
  ]

  -- The loop over the items, with `n` of them left.
  unfoldable pub sweep : Time → ℕ → ℕ → Table W → Table W
  sweep t zero i s = s
  sweep t (suc n) i s = sweep t n (suc i) (close_expired t i (get_elem? s.items i) s)

  -- The rounds of `gc`: the waits' results, with the other threads' work during each wait. The
  -- thread's result is none while it runs.
  unfoldable pub gc_rounds :
      List (Wait × (Table W → Table W)) → (W → W) → (W → W) → Time → Table W → Option ℕ × Table W
  gc_rounds [] lock unlock t s = (none, s)
  gc_rounds ((success, others) ∷ rest) lock unlock t s = (some 0, others s)
  gc_rounds ((error, others) ∷ rest) lock unlock t s = (some 1, others s)
  gc_rounds ((timedout, others) ∷ rest) lock unlock t s =
      let t' = record t { sec = t.sec + 1 } in
      let s1 = others s in
      let s2 = sweep t' 8 0 (record s1 { world = lock s1.world }) in
      gc_rounds rest lock unlock t' (record s2 { world = unlock s2.world })

  -- The loop of `speak_exit`, which leaves the memory of the items free.
  unfoldable pub close_items : List Item → W → W
  close_items [] w = w
  close_items (item ∷ items) w = close_items items (close_handle lib audio item.h w)

  -- `stop` is the signal to the thread and the wait for its end.
  unfoldable pub speak_exit : (W → W) → (W → W) → Option (Table W) → W → W
  speak_exit stop lock none w = w
  speak_exit stop lock (some t) w = close_items t.items (lock (stop w))

-- `speak_init`: the table is made of empty items. `mem` is the allocator, with the number of
-- elements. Without its thread the new structure is taken down as by `speak_exit`. The last arguments
-- are the callbacks' structure, which holds the three functions, and a pointer to the destination.
abbrev pub no_items : List Item
no_items =
    empty_item ∷ empty_item ∷ empty_item ∷ empty_item ∷ empty_item ∷ empty_item ∷ empty_item
    ∷ empty_item ∷ []

unfoldable pub speak_init :
    {W : Type 0}
    → (ℕ → M W (Unit {0}))
    → M W (Unit {0})
    → (W → W)
    → Option (Audio W)
    → Option (Option (Table W))
    → M W (List Item)
speak_init mem thrd_create take_down none dest = raise invalid_argument
speak_init mem thrd_create take_down (some cb) none = raise invalid_argument
speak_init mem thrd_create take_down (some cb) (some (some t)) = raise unexpected
speak_init mem thrd_create take_down (some cb) (some none) = do
  mem 640
  mem 13
  mem 2400
  mem 1
  finally thrd_create λ r w. elim r [ ok _ ↦ (ok tt, w) | err e ↦ (err fail, take_down w) ]
  pure no_items
