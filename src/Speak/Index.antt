-- ===== src/Speak/Index.antt =====
-- The index that `open` of src/c/speak.c returns.
use aviutl_psdtoolkit.Base.{
  subst, ℕ, none, some, Result, ok, err, ◌>>=◌, Chars, Ovstr, ◌⊎◌, inl, inr, ◌≡◌,
}
use aviutl_psdtoolkit.Speak.Types.{Table, Audio}
use aviutl_psdtoolkit.Speak.Slots.{
  Scan, found, absent, fault, scan, open_new, open_scanned, open_path,
}
use aviutl_psdtoolkit.Speak.Scan.{Reports, Found, NotFound, scan-Reports}

module _ {W : Type 0} (lib : Ovstr W) (audio : Audio W) where
  kept_value :
      {A : Type 0} (idx i : ℕ) (r : Result A × Table W)
      → (((λ (v : Table W). r) >>= λ _ t. (ok idx, t)) r.1).0 ≡ ok i
      → i ≡ idx
  unfolding ◌>>=◌
  kept_value idx i (ok a, t) e = cc
  kept_value idx i (err x, t) e = cc

  open_scanned-index :
      (r : Scan) (path : Chars) (idx i : ℕ) (t : Table W)
      → Reports t.items path r
      → (open_scanned lib audio r path idx t).0 ≡ ok i
      → Found t.items path i ⊎ (NotFound t.items path × (i ≡ idx))
  unfolding open_scanned ◌>>=◌
  open_scanned-index (found j) path idx i t r e =
      let same : j ≡ i = cc in inl (subst (Found t.items path) same r)
  open_scanned-index (absent unused oldest) path idx i t r e =
      inr (r.4, kept_value idx i (open_new lib audio unused oldest path t) e)
  open_scanned-index fault path idx i t r e = absurd cc

  -- When open succeeds, the index is that of a slot in use whose path is the one asked for, or no
  -- slot in use had that path and the index is the one that the caller passed in, whichever slot
  -- the new file went to.
  pub open_path-index :
      (path : Chars) (idx i : ℕ) (t : Table W)
      → (open_path lib audio (some path) idx t).0 ≡ ok i
      → Found t.items path i ⊎ (NotFound t.items path × (i ≡ idx))
  unfolding open_path
  open_path-index path idx i t e =
      open_scanned-index (scan path 0 t.items none none) path idx i t (scan-Reports path t.items) e
