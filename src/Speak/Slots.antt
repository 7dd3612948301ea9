-- ===== src/Speak/Slots.antt =====
-- `close` and `open` of src/c/speak.c: the table of open files.
use aviutl_psdtoolkit.Base.{
  same_text, ℕ, suc, Bool, true, false, ◌&&◌, ◌||◌, List, [], ◌∷◌, Option, none, some, ltb, ◌==◌,
  if◌then◌else◌, get_elem?, set, Chars, M, ◌>>=◌, ◌>>◌, pure, raise, or_raise, finally, fail,
  invalid_argument, overrun, Result, ok, err, Wstr, Ovstr,
}
use aviutl_psdtoolkit.Speak.Types.{Time, Item, Table, Audio, outside}

-- `a` is later than `b`.
unfoldable pub later_than : Time → Time → Bool
later_than a b = ltb b.sec a.sec || (a.sec == b.sec && ltb b.nsec a.nsec)

-- What the loop over the items ends with. The sentinel `n` is none; a null path is a fault.
pub data Scan : Type 0 where
  found : ℕ → Scan
  absent : (unused oldest : Option ℕ) → Scan
  fault : Scan

unfoldable pub first_unused : Option ℕ → ℕ → Option ℕ
first_unused none i = some i
first_unused (some j) i = some j

-- The oldest item so far, with its index.
unfoldable pub older : Option (ℕ × Item) → ℕ → Item → Option (ℕ × Item)
older none i item = some (i, item)
older (some (j, o)) i item =
    if later_than o.used_at item.used_at then some (i, item) else some (j, o)

unfoldable pub index_of : Option (ℕ × Item) → Option ℕ
index_of none = none
index_of (some (j, o)) = some j

-- The loop, from index `i` on.
unfoldable pub scan : Chars → ℕ → List Item → Option ℕ → Option (ℕ × Item) → Scan
scan path i [] unused oldest = absent unused (index_of oldest)
scan path i (item ∷ items) unused oldest = elim item.h [
  | none ↦ scan path (suc i) items (first_unused unused i) oldest
  | some _ ↦ elim item.filepath [
    | none ↦ fault
    | some other ↦ elim (same_text other path) [
      | true ↦ found i
      | false ↦ scan path (suc i) items unused (older oldest i item)
    ]
  ]
]

-- `filepath.ptr[0] = L'\0'`, if there is one.
unfoldable pub cleared : Wstr → Wstr
cleared none = none
cleared (some s) = some []

module _ {W : Type 0} (lib : Ovstr W) (audio : Audio W) where
  unfoldable pub close_handle : Option ℕ → W → W
  close_handle none w = w
  close_handle (some h) w = audio.close_file h w

  unfoldable pub close_at : Option Item → ℕ → Table W → Table W
  close_at none idx t = t
  close_at (some item) idx t = record {
    items = set t.items idx (record item { h = none; filepath = cleared item.filepath });
    world = close_handle item.h t.world;
  }

  -- `close`: an index out of range is ignored.
  unfoldable pub close : ℕ → Table W → Table W
  close idx t = close_at (get_elem? t.items idx) idx t

  -- The slot for a new file: an unused one, or the oldest, closed.
  unfoldable pub make_room : Option ℕ → Option ℕ → M (Table W) ℕ
  make_room (some i) oldest t = (ok i, t)
  make_room none none t = (err overrun, t)
  make_room none (some i) t = (ok i, close i t)

  -- An assignment to a field of `spk->items[i]`.
  unfoldable pub assign_at : ℕ → (Item → Item) → Option Item → M (Table W) (Unit {0})
  assign_at i f none t = (err overrun, t)
  assign_at i f (some item) t = (ok tt, record t { items = set t.items i (f item) })

  unfoldable pub assign : ℕ → (Item → Item) → M (Table W) (Unit {0})
  assign i f t = assign_at i f (get_elem? t.items i) t

  unfoldable pub now : M (Table W) (Option Time)
  now t = let (r, w) = audio.timespec_get t.world in (ok r, record t { world = w })

  -- What is done after the file is open, up to `item->h = h`.
  unfoldable pub fill : Option ℕ → Option ℕ → Chars → ℕ → M (Table W) (Unit {0})
  fill unused oldest path h = do
    i ← make_room unused oldest
    copy ← outside (lib.scpy path)
    assign i (λ item. record item { filepath = some copy })
    time ← now
    time ← or_raise time fail
    assign i (λ item. record item { used_at = time })
    assign i (λ item. record item { h = some h })

  -- At the label `cleanup` a handle that is not in the table yet is closed.
  unfoldable pub keep_or_close : ℕ → Result (Unit {0}) → Table W → Result (Unit {0}) × Table W
  keep_or_close h (ok _) t = (ok tt, t)
  keep_or_close h (err e) t = (err e, record t { world = audio.close_file h t.world })

  unfoldable pub open_new : Option ℕ → Option ℕ → Chars → M (Table W) (Unit {0})
  open_new unused oldest path = do
    h ← outside (audio.open_file path 24000 1)
    finally (fill unused oldest path h) (keep_or_close h)

  unfoldable pub open_scanned : Scan → Chars → ℕ → M (Table W) ℕ
  open_scanned (found i) path idx = pure i
  open_scanned (absent unused oldest) path idx = open_new unused oldest path >>= λ _. pure idx
  open_scanned fault path idx = raise overrun

  -- `open`. The result is `*idx`, which was `idx` before; the pointers to it and to the
  -- `struct speak` are never null.
  unfoldable pub open_path : Wstr → ℕ → M (Table W) ℕ
  open_path none idx t = (err invalid_argument, t)
  open_path (some path) idx t = open_scanned (scan path 0 t.items none none) path idx t
