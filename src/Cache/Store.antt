-- ===== src/Cache/Store.antt =====
-- src/c/cache.c: images by key, in a hash map of ovbase, and the thread that drops old ones.
use aviutl_psdtoolkit.Base.{
  ℕ, ◌+◌, Bool, ◌||◌, ◌&&◌, List, [], ◌∷◌, Option, none, some, leb, ◌==◌, if◌then◌else◌, length,
  Chars, M, ◌>>=◌, ◌>>◌, raise, finally, Error, fail, invalid_argument, null_pointer, not_found,
  Result, ok, err,
}

-- `struct timespec`
pub record Moment : Type 0 where
  pub sec : ℕ
  pub nsec : ℕ

-- `struct cache_item`, the key's bytes with it. A pointer is the number of its memory.
pub record CacheItem : Type 0 where
  pub key : Chars
  pub key_ptr : ℕ
  pub value : ℕ
  pub value_len : ℕ
  pub used_at : ℕ

-- The hash map, the allocator, the clock and the lock of ovbase, with the global `g_cache` in `W`.
-- `visited` are the items that `hmscan` comes to. `timespec_get` fills the memory it is given.
pub record Memory (W : Type 0) : Type 0 where
  pub hmset : CacheItem → M W (Option CacheItem)
  pub hmget : Chars → M W (Option CacheItem)
  pub hmdelete : Chars → M W (Option CacheItem)
  pub hmfree : W → W
  pub visited : W → List CacheItem
  pub mem : ℕ → M W ℕ
  pub mem_free : ℕ → W → W
  pub timespec_get : ℕ → W → W
  pub moment : W → ℕ → Moment
  pub lock : W → W
  pub unlock : W → W
  pub ereport : Error → W → W

-- What `cndvar_timedwait_while` returns.
pub data Waited : Type 0 where
  success timedout error : Waited

-- An item that was last used a minute before `t` or earlier.
unfoldable pub outdated : Moment → Moment → Bool
outdated t used_at =
    leb (used_at.sec + 60) t.sec || (t.sec == used_at.sec + 60 && leb used_at.nsec t.nsec)

module _ {W : Type 0} (mm : Memory W) where
  -- The three pieces of memory of an item that has been taken out, if there was one.
  unfoldable pub free_item : Option CacheItem → W → W
  free_item none w = w
  free_item (some item) w =
      mm.mem_free item.used_at (mm.mem_free item.value (mm.mem_free item.key_ptr w))

  unfoldable pub deleted : Result (Option CacheItem) × W → W
  deleted (ok item, w) = free_item item w
  deleted (err e, w) = mm.ereport e w

  unfoldable pub gc_scan : Moment → CacheItem → W → W
  gc_scan t ci w = if outdated t (mm.moment w ci.used_at) then deleted (mm.hmdelete ci.key w) else w

  unfoldable pub scan_from : Moment → List CacheItem → W → W
  scan_from t [] w = w
  scan_from t (ci ∷ items) w = scan_from t items (gc_scan t ci w)

  -- The rounds of `gc`: the waits' results, with the other threads' work during each wait. The
  -- thread's result is none while it runs.
  unfoldable pub cache_gc : List (Waited × (W → W)) → Moment → W → Option ℕ × W
  cache_gc [] t w = (none, w)
  cache_gc ((success, others) ∷ rest) t w = (some 0, others w)
  cache_gc ((error, others) ∷ rest) t w = (some 1, others w)
  cache_gc ((timedout, others) ∷ rest) t w =
      let t' = record t { sec = t.sec + 30 } in
      let w1 = mm.lock (others w) in cache_gc rest t' (mm.unlock (scan_from t' (mm.visited w1) w1))

  -- `cache_init`, with the calls that make the hash map and the thread.
  unfoldable pub cache_init : M W (Unit {0}) → M W (Unit {0}) → M W (Unit {0})
  cache_init hmnew thrd_create =
      finally
        (hmnew >>= λ _.
          finally thrd_create λ r w. elim r [ ok a ↦ (ok a, w) | err e ↦ (err fail, w) ])
        λ r w. elim r [ ok a ↦ (ok a, w) | err e ↦ (err e, mm.hmfree w) ]

  unfoldable pub free_all : List CacheItem → W → W
  free_all [] w = w
  free_all (ci ∷ items) w = free_all items (free_item (some ci) w)

  -- `cache_exit`. `stop` is the signal to the thread and the wait for its end.
  unfoldable pub cache_exit : (W → W) → W → W
  cache_exit stop w = let w1 = mm.lock (stop w) in mm.hmfree (free_all (mm.visited w1) w1)

  -- The cleanup of `cache_put`: the item's key and time are the map's after a success, which may
  -- have given an older item back.
  unfoldable pub put_cleanup :
      (key_ptr used_at : ℕ) → Result (Option CacheItem) → W → Result (Unit {0}) × W
  put_cleanup key_ptr used_at (ok old_item) w = (ok tt, free_item old_item (mm.unlock w))
  put_cleanup key_ptr used_at (err e) w =
      (err e, mm.mem_free used_at (mm.mem_free key_ptr (mm.unlock w)))

  unfoldable pub free_key : ℕ → Result ℕ → W → Result ℕ × W
  free_key key_ptr (ok used_at) w = (ok used_at, w)
  free_key key_ptr (err e) w = (err e, mm.mem_free key_ptr w)

  unfoldable pub touch : ℕ → M W (Unit {0})
  touch used_at w = (ok tt, mm.timespec_get used_at w)

  unfoldable pub locked : M W (Unit {0})
  locked w = (ok tt, mm.lock w)

  -- The two results of the insertion meet at the label `cleanup`, each with its own unlock.
  unfoldable pub put_item : CacheItem → W → Result (Unit {0}) × W
  put_item ci w = let (r, w1) = mm.hmset ci (mm.lock w) in put_cleanup ci.key_ptr ci.used_at r w1

  unfoldable pub cache_put : Option Chars → Option ℕ → (value_len : ℕ) → M W (Unit {0})
  cache_put none value value_len = raise invalid_argument
  cache_put (some key) none value_len = raise invalid_argument
  cache_put (some key) (some value) value_len = do
    key_ptr ← mm.mem (length key)
    used_at ← finally (mm.mem 1) (free_key key_ptr)
    touch used_at
    put_item (record {
      key = key;
      key_ptr = key_ptr;
      value = value;
      value_len = value_len;
      used_at = used_at;
    })

  unfoldable pub use_item : Option CacheItem → M W (ℕ × ℕ)
  use_item none w = (err not_found, w)
  use_item (some ci) w = (ok (ci.value, ci.value_len), mm.timespec_get ci.used_at w)

  unfoldable pub cache_get : Option Chars → Bool → M W (ℕ × ℕ)
  cache_get none there = raise invalid_argument
  cache_get (some key) there =
      if there
      then (locked >>= λ _. finally (mm.hmget key >>= use_item) (λ r w. (r, mm.unlock w)))
      else raise null_pointer
