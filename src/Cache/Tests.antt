-- ===== src/Cache/Tests.antt =====
-- A hash map as a list, and the theorems on src/c/cache.c with it.
use aviutl_psdtoolkit.Base.{
  ℕ, suc, ◌+◌, ◌-◌, Bool, true, false, ◌&&◌, List, [], ◌∷◌, Option, none, some, own, ◌==◌, ==_refl,
  Bool-cases, inl, inr, ◌⊎◌, if◌then◌else◌, Chars, codes, ◌>>=◌, Ends, NoError, ok, ◌≡◌, refl,
  arith,
}
use aviutl_psdtoolkit.Cache.Store.{CacheItem, Memory, cache_put, cache_get}
use aviutl_psdtoolkit.Cache.Items.{
  sum, of_item, MemoryLaws, Owned, Stored, Refused, cache_put-Stored, cache_get-cache_put,
}

-- The map, how often each piece of memory is in use, and the next piece.
record Shelf : Type 0 where
  items : List CacheItem
  used : ℕ → ℕ
  next : ℕ

abbrev same_bytes : Chars → Chars → Bool
same_bytes [] [] = true
same_bytes [] (d ∷ b) = false
same_bytes (c ∷ a) [] = false
same_bytes (c ∷ a) (d ∷ b) = c == d && same_bytes a b

same_bytes_refl : (a : Chars) → same_bytes a a ≡ true
same_bytes_refl [] = refl
same_bytes_refl (c ∷ a) = rw (==_refl c, same_bytes_refl a) refl

abbrev find_key : Chars → List CacheItem → Option CacheItem
find_key k [] = none
find_key k (x ∷ items) = if same_bytes x.key k then some x else find_key k items

abbrev replaced : CacheItem → List CacheItem → Option CacheItem
replaced ci items = find_key ci.key items

abbrev put_key : CacheItem → List CacheItem → List CacheItem
put_key ci [] = ci ∷ []
put_key ci (x ∷ items) = if same_bytes x.key ci.key then ci ∷ items else x ∷ put_key ci items

put_key-sum :
    (m : CacheItem → ℕ) (ci : CacheItem) (items : List CacheItem)
    → sum m (put_key ci items) + of_item m (replaced ci items) ≡ sum m items + m ci
put_key-sum m ci [] = omega arith
put_key-sum m ci (x ∷ items) = elim (Bool-cases (same_bytes x.key ci.key)) [
  | inl e ↦ rw (e) (omega arith)
  | inr e ↦ rw (e) (omega (arith, put_key-sum m ci items))
]

find_key-put_key :
    (ci : CacheItem) (items : List CacheItem) → find_key ci.key (put_key ci items) ≡ some ci
find_key-put_key ci [] = rw (same_bytes_refl ci.key) refl
find_key-put_key ci (x ∷ items) = elim (Bool-cases (same_bytes x.key ci.key)) [
  | inl e ↦ rw (e, same_bytes_refl ci.key) refl
  | inr e ↦ rw (e, e) (find_key-put_key ci items)
]

abbrev shelf : Memory Shelf
shelf = record {
  hmset = λ ci w. (ok (replaced ci w.items), record w { items = put_key ci w.items });
  hmget = λ k w. (ok (find_key k w.items), w);
  hmdelete = λ k w. (ok none, w);
  hmfree = λ w. w;
  visited = λ w. w.items;
  mem = λ n w.
      (ok w.next, record w { used = λ q. w.used q + own (some w.next) q; next = suc w.next });
  mem_free = λ p w. record w { used = λ q. w.used q - own (some p) q };
  timespec_get = λ p w. w;
  moment = λ w p. record { sec = 0; nsec = 0 };
  lock = λ w. w;
  unlock = λ w. w;
  ereport = λ e w. w;
}

abbrev shelf_find : Shelf → Chars → Option CacheItem
shelf_find w k = find_key k w.items

shelf-MemoryLaws : MemoryLaws shelf NoError (λ w. w.items) shelf_find (λ w. w.used)
shelf-MemoryLaws = record {
  hmset_lem = λ ci w. (λ m. put_key-sum m ci w.items, find_key-put_key ci w.items, λ q. refl);
  hmget_lem = λ k w. (refl, (refl, λ k. refl, λ q. refl));
  mem_lem = λ n w. (refl, λ k. refl, λ q. refl);
  mem_free_lem = λ p w. (refl, λ k. refl, λ q. refl);
  timespec_get_lem = λ p w. (refl, λ k. refl, λ q. refl);
  lock_lem = λ w. (refl, λ k. refl, λ q. refl);
  unlock_lem = λ w. (refl, λ k. refl, λ q. refl);
}

-- One image is in the cache, in the memory 1, 2 and 3; the caller has 4.
abbrev one_image : Shelf
one_image = record {
  items = record { key = codes "a"; key_ptr = 1; value = 2; value_len = 16; used_at = 3 } ∷ [];
  used = λ q. own (some 1) q + own (some 2) q + own (some 3) q + own (some 4) q;
  next = 5;
}

one_image-Owned :
    Owned shelf NoError (λ w. w.items) shelf_find (λ w. w.used) (λ q. 0 + own (some 4) q) one_image
one_image-Owned q = omega arith

cache_put-Stored_example :
    Ends
      (λ _.
        Stored shelf NoError
          (λ w. w.items)
          shelf_find
          (λ w. w.used)
          shelf-MemoryLaws
          (λ q. 0)
          (codes "a")
          4
          8)
      (Refused shelf NoError (λ w. w.items) shelf_find (λ w. w.used) shelf-MemoryLaws (λ q. 0) 4)
      (cache_put shelf (some (codes "a")) (some 4) 8 one_image)
cache_put-Stored_example =
    cache_put-Stored shelf NoError (λ w. w.items) shelf_find (λ w. w.used) shelf-MemoryLaws (λ q. 0)
      (codes "a") 4 8 one_image one_image-Owned

cache_get-cache_put_example :
    Ends
      (λ got w'.
        (got ≡ (4, 8)) × Owned shelf NoError (λ w. w.items) shelf_find (λ w. w.used) (λ q. 0) w')
      (λ e w'.
        ⊥
        × (Owned shelf NoError (λ w. w.items) shelf_find (λ w. w.used) (λ q. 0) w'
            ⊎ Owned shelf NoError
                (λ w. w.items)
                shelf_find
                (λ w. w.used)
                (λ q. 0 + own (some 4) q)
                w'))
      ((cache_put shelf (some (codes "a")) (some 4) 8 >>= λ _.
          cache_get shelf (some (codes "a")) true)
        one_image)
cache_get-cache_put_example =
    cache_get-cache_put shelf NoError (λ w. w.items) shelf_find (λ w. w.used) shelf-MemoryLaws
      (λ q. 0) (codes "a") 4 8 one_image one_image-Owned
