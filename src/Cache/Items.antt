-- ===== src/Cache/Items.antt =====
-- The memory that `cache_put` of src/c/cache.c hands over, and what `cache_get` gives back.
use aviutl_psdtoolkit.Base.{
  pair_eq, ℕ, ◌+◌, ◌-◌, true, List, [], ◌∷◌, Option, none, some, own, length, Chars, ◌>>=◌, finally,
  Error, Result, ok, err, Ends, >>=-From, map_Ends, ◌⊎◌, inl, inr, ◌≡◌, refl, ap, ◌∙◌, arith,
}
use aviutl_psdtoolkit.Cache.Store.{
  CacheItem, Memory, free_item, put_cleanup, free_key, touch, locked, put_item, cache_put, use_item,
  cache_get,
}

-- The sum of a number of each item, and of the number of an item that may be missing.
abbrev pub sum : (CacheItem → ℕ) → List CacheItem → ℕ
sum m [] = 0
sum m (ci ∷ items) = m ci + sum m items

abbrev pub of_item : (CacheItem → ℕ) → Option CacheItem → ℕ
of_item m none = 0
of_item m (some ci) = m ci

-- How often a piece of memory is one of the item's three.
abbrev pub owns : ℕ → CacheItem → ℕ
owns q ci = own (some ci.key_ptr) q + own (some ci.value) q + own (some ci.used_at) q

module _ {W : Type 0} (mm : Memory W) (E : Error → Type 0) (items : W → List CacheItem)
    (find : W → Chars → Option CacheItem) (allocated : W → ℕ → ℕ) where
  -- The items, what is found and the memory in use are as before.
  abbrev pub Same : W → W → Type 0
  Same w w' =
      (items w' ≡ items w)
      × ((k : Chars) → find w' k ≡ find w k)
      × ((q : ℕ) → allocated w' q ≡ allocated w q)

  -- The documented effect of the calls. An item that is set can be found, and takes the place of the
  -- one that is given back.
  pub record MemoryLaws : Type 0 where
    pub hmset_lem :
        (ci : CacheItem) (w : W)
        → Ends
            (λ old w'.
              ((m : CacheItem → ℕ) → sum m (items w') + of_item m old ≡ sum m (items w) + m ci)
              × (find w' ci.key ≡ some ci)
              × ((q : ℕ) → allocated w' q ≡ allocated w q))
            (λ e w'. E e × Same w w')
            (mm.hmset ci w)
    pub hmget_lem :
        (k : Chars) (w : W)
        → Ends (λ found w'. (found ≡ find w k) × Same w w') (λ e w'. E e × Same w w') (mm.hmget k w)
    pub mem_lem :
        (n : ℕ) (w : W)
        → Ends
            (λ p w'.
              (items w' ≡ items w)
              × ((k : Chars) → find w' k ≡ find w k)
              × ((q : ℕ) → allocated w' q ≡ allocated w q + own (some p) q))
            (λ e w'. E e × Same w w')
            (mm.mem n w)
    pub mem_free_lem :
        (p : ℕ) (w : W)
        → (items (mm.mem_free p w) ≡ items w)
          × ((k : Chars) → find (mm.mem_free p w) k ≡ find w k)
          × ((q : ℕ) → allocated (mm.mem_free p w) q ≡ allocated w q - own (some p) q)
    pub timespec_get_lem : (p : ℕ) (w : W) → Same w (mm.timespec_get p w)
    pub lock_lem : (w : W) → Same w (mm.lock w)
    pub unlock_lem : (w : W) → Same w (mm.unlock w)

  -- The memory in use beyond `base` is that of the items.
  abbrev pub Owned : (ℕ → ℕ) → W → Type 0
  Owned base w = (q : ℕ) → allocated w q ≡ base q + sum (owns q) (items w)

  module _ (laws : MemoryLaws) (base : ℕ → ℕ) where
    Same-Owned : (b : ℕ → ℕ) (w w' : W) → Same w w' → Owned b w → Owned b w'
    Same-Owned b w w' s o q = omega (arith, s.2 q, o q, ap (sum (owns q)) s.0)

    free_one :
        (p : ℕ) (b : ℕ → ℕ) (w : W)
        → Owned (λ q. b q + own (some p) q) w
        → Owned b (mm.mem_free p w)
    free_one p b w o q =
        let l = laws.mem_free_lem p w in omega (arith, l.2 q, o q, ap (sum (owns q)) l.0)

    free_item-Owned :
        (old : Option CacheItem) (b : ℕ → ℕ) (w : W)
        → ((q : ℕ) → allocated w q ≡ b q + sum (owns q) (items w) + of_item (owns q) old)
        → Owned b (free_item mm old w) × ((k : Chars) → find (free_item mm old w) k ≡ find w k)
    unfolding free_item
    free_item-Owned none b w o = (λ q. omega (arith, o q), λ k. refl)
    free_item-Owned (some ci) b w o =
        let l1 = laws.mem_free_lem ci.key_ptr w in
        let w1 = mm.mem_free ci.key_ptr w in
        let l2 = laws.mem_free_lem ci.value w1 in
        let w2 = mm.mem_free ci.value w1 in
        let l3 = laws.mem_free_lem ci.used_at w2 in
        (
          λ q. omega (arith, o q, l1.2 q, l2.2 q, l3.2 q, ap (sum (owns q)) (l3.0 ∙ l2.0 ∙ l1.0)),
          λ k. l3.1 k ∙ l2.1 k ∙ l1.1 k,
        )

    -- After `cache_put`: the item can be found, and its memory is the cache's.
    abbrev pub Stored : Chars → (value value_len : ℕ) → W → Type 0
    Stored key value value_len w =
        Owned base w
        × ((ci : CacheItem) × (find w key ≡ some ci)
            × (ci.value ≡ value)
            × (ci.value_len ≡ value_len))

    -- The caller still has its value.
    abbrev pub Refused : ℕ → Error → W → Type 0
    Refused value e w = E e × Owned (λ q. base q + own (some value) q) w

    after_set :
        (ci : CacheItem) (w : W) (r : Result (Option CacheItem) × W)
        → Ends
            (λ old w'.
              ((m : CacheItem → ℕ) → sum m (items w') + of_item m old ≡ sum m (items w) + m ci)
              × (find w' ci.key ≡ some ci)
              × ((q : ℕ) → allocated w' q ≡ allocated w q))
            (λ e w'. E e × Same w w')
            r
        → Owned (λ q. base q + owns q ci) w
        → Ends
            (λ _. Stored ci.key ci.value ci.value_len)
            (Refused ci.value)
            (put_cleanup mm ci.key_ptr ci.used_at r.0 r.1)
    unfolding put_cleanup
    after_set ci w (ok old, w1) h o =
        let u = laws.unlock_lem w1 in
        let freed =
          free_item-Owned old base (mm.unlock w1)
            (λ q. omega (arith, u.2 q, h.2 q, o q, h.0 (owns q), ap (sum (owns q)) u.0)) in
        (freed.0, (ci, freed.1 ci.key ∙ u.1 ci.key ∙ h.1, refl, refl))
    after_set ci w (err e, w1) h o =
        let u = laws.unlock_lem w1 in
        let kept = Same-Owned _ w1 (mm.unlock w1) u (Same-Owned _ w w1 h.1 o) in
        (
          h.0,
          free_one ci.used_at (λ q. base q + own (some ci.value) q)
              (mm.mem_free ci.key_ptr (mm.unlock w1))
              (free_one ci.key_ptr (λ q. base q + own (some ci.value) q + own (some ci.used_at) q)
                (mm.unlock w1) (λ q. omega (arith, kept q))),
        )

    put_item-Stored :
        (ci : CacheItem) (w : W)
        → Owned (λ q. base q + owns q ci) w
        → Ends (λ _. Stored ci.key ci.value ci.value_len) (Refused ci.value) (put_item mm ci w)
    unfolding put_item
    put_item-Stored ci w o =
        after_set ci (mm.lock w) (mm.hmset ci (mm.lock w)) (laws.hmset_lem ci (mm.lock w))
          (Same-Owned _ w (mm.lock w) (laws.lock_lem w) o)

    after_mem :
        (key_ptr value : ℕ) (w : W) (r : Result ℕ × W)
        → Ends
            (λ p w'.
              (items w' ≡ items w)
              × ((k : Chars) → find w' k ≡ find w k)
              × ((q : ℕ) → allocated w' q ≡ allocated w q + own (some p) q))
            (λ e w'. E e × Same w w')
            r
        → Owned (λ q. base q + own (some value) q + own (some key_ptr) q) w
        → Ends
            (λ p. Owned (λ q. base q + own (some value) q + own (some key_ptr) q + own (some p) q))
            (Refused value)
            (free_key mm key_ptr r.0 r.1)
    unfolding free_key
    after_mem key_ptr value w (ok p, w1) h o = λ q. omega (arith, h.2 q, o q, ap (sum (owns q)) h.0)
    after_mem key_ptr value w (err e, w1) h o =
        (h.0, free_one key_ptr (λ q. base q + own (some value) q) w1 (Same-Owned _ w w1 h.1 o))

    -- With the documented effect of the hash map, the allocator, the clock and the lock: if the
    -- memory in use beyond a base is that of the cached items and the caller's value, then after a
    -- successful cache_put it is exactly that of the cached items (the old item of the key is
    -- freed, the value is the cache's), and the key finds the value and its length; after an error
    -- at any call the value is still the caller's and nothing else is left.
    pub cache_put-Stored :
        (key : Chars) (value value_len : ℕ) (w : W)
        → Owned (λ q. base q + own (some value) q) w
        → Ends
            (λ _. Stored key value value_len)
            (Refused value)
            (cache_put mm (some key) (some value) value_len w)
    unfolding cache_put finally touch
    cache_put-Stored key value value_len w o =
        (>>=-From {R = Refused value}
          {P = λ key_ptr. Owned (λ q. base q + own (some value) q + own (some key_ptr) q)}
          (record {
            ends =
                map_Ends (mm.mem (length key) w)
                  (λ p w1 h q. omega (arith, h.2 q, o q, ap (sum (owns q)) h.0))
                  (λ e w1 h. (h.0, Same-Owned _ w w1 h.1 o)) (laws.mem_lem (length key) w);
          })
          λ key_ptr w1 o1.
            >>=-From
              (record { ends = after_mem key_ptr value w1 (mm.mem 1 w1) (laws.mem_lem 1 w1) o1 })
              λ used_at w2 o2.
                >>=-From
                  {P = λ _. Owned (λ q.
                    base q + own (some value) q + own (some key_ptr) q + own (some used_at) q)}
                  (record {
                    ends =
                        Same-Owned _ w2 (mm.timespec_get used_at w2)
                          (laws.timespec_get_lem used_at w2) o2;
                  })
                  λ _ w3 o3. record {
                    ends =
                        put_item-Stored
                          (record {
                            key = key;
                            key_ptr = key_ptr;
                            value = value;
                            value_len = value_len;
                            used_at = used_at;
                          })
                          w3 (λ q. omega (arith, o3 q));
                  }).ends

    Same-Stored :
        (key : Chars) (value value_len : ℕ) (w w' : W)
        → Same w w'
        → Stored key value value_len w
        → Stored key value value_len w'
    Same-Stored key value value_len w w' s (o, found) =
        (Same-Owned base w w' s o, (found.0, s.1 key ∙ found.1, found.2, found.3))

    after_get :
        (key : Chars) (value value_len : ℕ) (w : W) (r : Result (Option CacheItem) × W)
        → Ends (λ found w'. (found ≡ find w key) × Same w w') (λ e w'. E e × Same w w') r
        → Stored key value value_len w
        → Ends
            (λ got w'. (got ≡ (value, value_len)) × Stored key value value_len w')
            (λ e w'. E e × Stored key value value_len w')
            (((λ (v : W). r) >>= use_item mm) r.1)
    unfolding ◌>>=◌ use_item
    after_get key value value_len w (ok none, w1) h (o, found) =
        let e = h.0 in let f = found.1 in absurd cc
    after_get key value value_len w (ok (some got), w1) h k =
        let f = k.1.1 in
        let e = h.0 in
        let same : got ≡ k.1.0 = cc in
        let v : got.value ≡ value = ap (λ (ci : CacheItem). ci.value) same ∙ k.1.2 in
        let l : got.value_len ≡ value_len = ap (λ (ci : CacheItem). ci.value_len) same ∙ k.1.3 in
        let kept = Same-Stored key value value_len w w1 h.1 k in
        (
          pair_eq v l,
          Same-Stored key value value_len w1 (mm.timespec_get got.used_at w1)
              (laws.timespec_get_lem got.used_at w1) kept,
        )
    after_get key value value_len w (err e, w1) h k =
        (h.0, Same-Stored key value value_len w w1 h.1 k)

    unlocked :
        (key : Chars) (value value_len : ℕ) (r : Result (ℕ × ℕ) × W)
        → Ends
            (λ got w'. (got ≡ (value, value_len)) × Stored key value value_len w')
            (λ e w'. E e × Stored key value value_len w')
            r
        → Ends
            (λ got w'. (got ≡ (value, value_len)) × Stored key value value_len w')
            (λ e w'. E e × Stored key value value_len w')
            (r.0, mm.unlock r.1)
    unlocked key value value_len (ok got, w) h =
        (h.0, Same-Stored key value value_len w (mm.unlock w) (laws.unlock_lem w) h.1)
    unlocked key value value_len (err e, w) h =
        (h.0, Same-Stored key value value_len w (mm.unlock w) (laws.unlock_lem w) h.1)

    -- x
    pub cache_get-Stored :
        (key : Chars) (value value_len : ℕ) (w : W)
        → Stored key value value_len w
        → Ends
            (λ got w'. (got ≡ (value, value_len)) × Stored key value value_len w')
            (λ e w'. E e × Stored key value value_len w')
            (cache_get mm (some key) true w)
    unfolding cache_get locked finally ◌>>=◌
    cache_get-Stored key value value_len w k =
        let w1 = mm.lock w in
        unlocked key value value_len ((mm.hmget key >>= use_item mm) w1) (
          after_get key value value_len w1 (mm.hmget key w1) (laws.hmget_lem key w1)
            (Same-Stored key value value_len w w1 (laws.lock_lem w) k))

    -- With the documented effect of the hash map, the allocator, the clock and the lock: from such
    -- a state, cache_put and then cache_get of the same key give the value and its length back, or
    -- end in an error of the hash map or the allocator, and so never in err_not_found unless one
    -- of these does; the memory stays accounted for.
    pub cache_get-cache_put :
        (key : Chars) (value value_len : ℕ) (w : W)
        → Owned (λ q. base q + own (some value) q) w
        → Ends
            (λ got w'. (got ≡ (value, value_len)) × Owned base w')
            (λ e w'. E e × (Owned base w' ⊎ Owned (λ q. base q + own (some value) q) w'))
            ((cache_put mm (some key) (some value) value_len >>= λ _. cache_get mm (some key) true)
              w)
    cache_get-cache_put key value value_len w o =
        (>>=-From {R = λ e w'. E e × (Owned base w' ⊎ Owned (λ q. base q + own (some value) q) w')}
          {P = λ _. Stored key value value_len}
          (record {
            ends =
                map_Ends (cache_put mm (some key) (some value) value_len w) (λ _ w1 h. h)
                  (λ e w1 h. (h.0, inr h.1)) (cache_put-Stored key value value_len w o);
          })
          λ _ w1 h. record {
            ends =
                map_Ends (cache_get mm (some key) true w1) (λ got w2 h. (h.0, h.1.0))
                  (λ e w2 h. (h.0, inl h.1.0)) (cache_get-Stored key value value_len w1 h);
          }).ends
