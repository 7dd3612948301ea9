-- ===== src/Ptklayer/Written.antt =====
-- What `write_to_file` of src/c/ptklayer.c leaves on the disk, and which handles it leaves open.
use aviutl_psdtoolkit.Base.{
  ℕ, ◌+◌, ◌-◌, true, false, [], ◌++◌, Option, none, some, ◌==◌, if◌then◌else◌, own, Chars, ◌>>=◌,
  pure, finally, Error, Result, ok, err, Ends, From, >>=-From, pure-From, map_Ends, ◌≡◌, ◌≢◌, refl,
  ap, ◌∙◌, subst, arith,
}
use aviutl_psdtoolkit.Ptklayer.Files.{Files, bom, cp_utf8, write_contents, closed, write_to_file}

-- The handles that are open, the contents of the files, and the file that a handle writes to.
pub record Disk : Type 0 where
  pub opened : ℕ → ℕ
  pub files : Chars → Chars
  pub target : ℕ → Chars

-- The file at `path` holds `s`, and `extra` is open beyond the handles of before.
pub record Changed (path s : Chars) (extra : Option ℕ) (d d' : Disk) : Type 0 where
  pub holds : d'.files path ≡ s
  pub others : (q : Chars) → q ≢ path → d'.files q ≡ d.files q
  pub handles : (x : ℕ) → d'.opened x ≡ d.opened x + own extra x

-- The documented effect of the calls. A write that fails may have written a part.
pub record DiskLaws {W : Type 0} (win : Files W) (view : W → Disk) (encoded : ℕ → Chars → Chars)
    : Type 0 where
  pub to_cp_lem :
      (cp : ℕ) (s : Chars) (w : W)
      → Ends
          (λ b w'. (b ≡ encoded cp s) × (view w' ≡ view w))
          (λ _ w'. view w' ≡ view w)
          (win.to_cp cp s w)
  pub create_file_lem :
      (path : Chars) (w : W)
      → Ends
          (λ h w'. Changed path [] (some h) (view w) (view w') × ((view w').target h ≡ path))
          (λ _ w'. view w' ≡ view w)
          (win.create_file path w)
  pub write_file_lem :
      (h : ℕ) (s : Chars) (w : W)
      → Ends
          (λ _ w'.
            Changed
              ((view w).target h)
              ((view w).files ((view w).target h) ++ s)
              none
              (view w)
              (view w')
            × ((view w').target h ≡ (view w).target h))
          (λ _ w'. (t : Chars) × Changed ((view w).target h) t none (view w) (view w'))
          (win.write_file h s w)
  pub close_handle_lem :
      (h : ℕ) (w : W)
      → view (win.close_handle h w)
        ≡ record (view w) { opened = λ x. (view w).opened x - own (some h) x }

-- What the code writes in front of a text.
abbrev pub mark : ℕ → Chars
mark cp = if cp == cp_utf8 then bom else []

added : (n a k : ℕ) {m r : ℕ} → m ≡ n + k → r ≡ m + a → a ≡ 0 → r ≡ n + k
added n a k e f g = omega (arith, e, f, g)

taken : (n k : ℕ) {m r : ℕ} → m ≡ n + k → r ≡ m - k → r ≡ n + 0
taken n k e f = omega (arith, e, f)

-- Changes of the same file follow each other.
Changed-then :
    (path s t : Chars) (extra : Option ℕ) {d d1 d2 : Disk}
    → Changed path s extra d d1
    → Changed path t none d1 d2
    → Changed path t extra d d2
Changed-then path s t extra {d} c e = record {
  holds = e.holds;
  others = λ q n. e.others q n ∙ c.others q n;
  handles = λ x. added (d.opened x) 0 (own extra x) (c.handles x) (e.handles x) refl;
}

module _ {W : Type 0} (win : Files W) (view : W → Disk) (encoded : ℕ → Chars → Chars)
    (laws : DiskLaws win view encoded) (path : Chars) (d : Disk) where
  -- The file is being written through `h`.
  abbrev Writing : ℕ → Chars → W → Type 0
  Writing h s w = Changed path s (some h) d (view w) × ((view w).target h ≡ path)

  abbrev Broken : ℕ → Error → W → Type 0
  Broken h e w = (t : Chars) × Changed path t (some h) d (view w)

  appended :
      (h : ℕ) (s t : Chars) (w w' : W)
      → Writing h s w
      → Changed
          ((view w).target h)
          ((view w).files ((view w).target h) ++ t)
          none
          (view w)
          (view w')
      → (view w').target h ≡ (view w).target h
      → Writing h (s ++ t) w'
  appended h s t w w' (c, at) e same =
      let e' = subst (λ q. Changed q ((view w).files q ++ t) none (view w) (view w')) at e in
      (
        subst (λ u. Changed path (u ++ t) (some h) d (view w')) c.holds
            (Changed-then path s _ (some h) c e'),
        same ∙ at,
      )

  spoilt :
      (h : ℕ) (s t : Chars) (w w' : W)
      → Writing h s w
      → Changed ((view w).target h) t none (view w) (view w')
      → Changed path t (some h) d (view w')
  spoilt h s t w w' (c, at) e =
      Changed-then path s t (some h) c (subst (λ q. Changed q t none (view w) (view w')) at e)

  write_file-From :
      (h : ℕ) (s t : Chars) (w : W)
      → Writing h s w
      → From w (λ _. Writing h (s ++ t)) (Broken h) (win.write_file h t)
  write_file-From h s t w k = record {
    ends =
        map_Ends {Q = λ _. Writing h (s ++ t)} {S = Broken h} (win.write_file h t w)
          (λ _ w' e. appended h s t w w' k e.0 e.1) (λ _ w' e. (e.0, spoilt h s e.0 w w' k e.1))
          (laws.write_file_lem h t w);
  }

  mark-From :
      (h cp : ℕ) (w : W)
      → Writing h [] w
      → From w
          (λ _. Writing h (mark cp))
          (Broken h)
          (if cp == cp_utf8 then win.write_file h bom else pure tt)
  mark-From h cp w k =
      elim (cp == cp_utf8)
        as (λ b.
          From w (λ _. Writing h (if b then bom else [])) (Broken h)
            (if b then win.write_file h bom else pure tt)) [
              | true ↦ write_file-From h [] bom w k
              | false ↦ pure-From _ k
            ]

  write_contents-From :
      (h cp : ℕ) (bytes : Chars) (w : W)
      → Writing h [] w
      → From w (λ _. Writing h (mark cp ++ bytes)) (Broken h) (write_contents win cp bytes h)
  unfolding write_contents
  write_contents-From h cp bytes w k =
      >>=-From (mark-From h cp w k) (λ _ w' k'. write_file-From h (mark cp) bytes w' k')

  -- No handle more is open, and the other files are as they were.
  abbrev Kept : W → Type 0
  Kept w =
      ((x : ℕ) → (view w).opened x ≡ d.opened x + 0)
      × ((q : Chars) → q ≢ path → (view w).files q ≡ d.files q)

  closing :
      (h : ℕ) (s : Chars) (w : W)
      → Changed path s (some h) d (view w)
      → Kept (win.close_handle h w) × ((view (win.close_handle h w)).files path ≡ s)
  closing h s w c =
      let e = laws.close_handle_lem h w in
      (
        (
          λ x. taken (d.opened x) (own (some h) x) (c.handles x) (ap (λ t. t.opened x) e),
          λ q n. ap (λ t. t.files q) e ∙ c.others q n,
        ),
        ap (λ t. t.files path) e ∙ c.holds,
      )

  closed_Ends :
      (h : ℕ) (s : Chars) (r : Result (Unit {0}) × W)
      → Ends (λ _. Writing h s) (Broken h) r
      → Ends (λ _ w. Kept w × ((view w).files path ≡ s)) (λ _. Kept) (closed win h r.0 r.1)
  unfolding closed
  closed_Ends h s (ok a, w) (c, at) = closing h s w c
  closed_Ends h s (err e, w) (t, c) = (closing h t w c).0

  kept : (w : W) → view w ≡ d → Kept w
  kept w e = (λ x. omega (arith, ap (λ t. t.opened x) e), λ q n. ap (λ t. t.files q) e)

  opened_From :
      (cp : ℕ) (bytes : Chars) (w : W)
      → view w ≡ d
      → From w
          (λ _ w'. Kept w' × ((view w').files path ≡ mark cp ++ bytes))
          (λ _. Kept)
          (win.create_file path >>= λ h. finally (write_contents win cp bytes h) (closed win h))
  unfolding finally
  opened_From cp bytes w e =
      >>=-From {R = λ _. Kept} {P = λ h. Writing h []}
        (record {
          ends =
              map_Ends {Q = λ h. Writing h []} {S = λ _. Kept} (win.create_file path w)
                (λ h w' k. (subst (λ t. Changed path [] (some h) t (view w')) e k.0, k.1))
                (λ _ w' k. kept w' (k ∙ e)) (laws.create_file_lem path w);
        })
        (λ h w' k. record {
          ends =
              closed_Ends h (mark cp ++ bytes) (write_contents win cp bytes h w')
                (write_contents-From h cp bytes w' k).ends;
        })

module _ {W : Type 0} (win : Files W) (view : W → Disk) (encoded : ℕ → Chars → Chars)
    (laws : DiskLaws win view encoded) where
  -- With the documented effect of the calls of Windows: after write_to_file no handle more and
  -- none fewer is open and every other file is as it was, on success and on every error. On
  -- success the file holds the encoded text, with the mark of UTF-8 in front of it exactly when
  -- the code page is UTF-8.
  pub write_to_file-Kept :
      (path content : Chars) (cp : ℕ) (w : W)
      → Ends
          (λ _ w'.
            Kept win view encoded laws path (view w) w'
            × ((view w').files path ≡ mark cp ++ encoded cp content))
          (λ _ w'. Kept win view encoded laws path (view w) w')
          (write_to_file win path content cp w)
  unfolding write_to_file
  write_to_file-Kept path content cp w =
      (>>=-From {R = λ _. Kept win view encoded laws path (view w)}
        {P = λ b w'. (b ≡ encoded cp content) × (view w' ≡ view w)}
        (record {
          ends =
              map_Ends {Q = λ b w'. (b ≡ encoded cp content) × (view w' ≡ view w)}
                {S = λ _. Kept win view encoded laws path (view w)} (win.to_cp cp content w)
                (λ b w' k. k) (λ _ w' k. kept win view encoded laws path (view w) w' k)
                (laws.to_cp_lem cp content w);
        })
        (λ b w' k.
          rw k.0
            (opened_From win view encoded laws path (view w) cp (encoded cp content) w' k.1))).ends
