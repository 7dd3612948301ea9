-- ===== src/Assist/Sound.antt =====
-- What the sound callbacks of src/c/assist.c promise src/c/speak.c.
use aviutl_psdtoolkit.Base.{
  ℕ, ◌+◌, ◌-◌, ◌%◌, ◌^◌, ◌≤◌, ◌<◌, Bool, true, false, Bool-cases, not, ◌||◌, ltb, leb, ◌==◌, ==_iff,
  if◌then◌else◌, List, [], ◌∷◌, Option, none, some, own, Chars, M, pure, Error, ok, err, Result,
  Ends, Ovstr, ◌≡◌, ◌⊎◌, inl, inr, refl, sym, ap, ◌∙◌, subst, arith,
}
use mathlib.Core.Option.{some-injective}
use aviutl_psdtoolkit.Speak.Handles.{AudioLaws}
use aviutl_psdtoolkit.Assist.Wav.{
  AudioInfo, WavItem, Wavs, AviFiles, block_at, freed, samples_of, opened_as, wav_opening, wav_open,
  fetch, read_block, read_at, wav_read, close_block, wav_close, wav_audio,
}

-- How many blocks have this address, and how many hold this file of AviUtl.
abbrev pub blocks_at : List (ℕ × WavItem) → ℕ → ℕ
blocks_at [] h = 0
blocks_at ((a, wi) ∷ blocks) h = own (some a) h + blocks_at blocks h

abbrev pub files_in : List (ℕ × WavItem) → ℕ → ℕ
files_in [] f = 0
files_in ((a, wi) ∷ blocks) f = own (some wi.afh) f + files_in blocks f

abbrev pub file_of : Option (ℕ × AudioInfo) → Option ℕ
file_of none = none
file_of (some p) = some p.0

-- The documented effect of the calls on the files that AviUtl has open.
pub record AviLaws {W : Type 0} (app : AviFiles W) (opened : W → ℕ → ℕ) : Type 0 where
  pub mem_lem : (w : W) (f : ℕ) → opened (app.mem w).1 f ≡ opened w f
  pub avi_file_open_lem :
      (s : Chars) (w : W)
      → (f : ℕ)
      → opened (app.avi_file_open s w).1 f ≡ opened w f + own (file_of (app.avi_file_open s w).0) f
  pub avi_file_set_audio_sample_rate_lem :
      (a r c : ℕ) (w : W) (f : ℕ)
      → opened (app.avi_file_set_audio_sample_rate a r c w).1 f ≡ opened w f
  pub avi_file_read_audio_sample_lem :
      (a s n : ℕ) (w : W) (f : ℕ) → opened (app.avi_file_read_audio_sample a s n w).1 f ≡ opened w f
  pub avi_file_close_lem :
      (a : ℕ) (w : W) (f : ℕ) → opened (app.avi_file_close a w) f ≡ opened w f - own (some a) f

leb-le : (a b : ℕ) → leb a b ≡ true → a ≤ b
leb-le a b e = ground arith

leb-lt : (a b : ℕ) → leb a b ≡ false → b < a
leb-lt a b e = ground arith

no_more : (n offset size : ℕ) → n + size < 2 ^ 32 → n ≤ (offset + size) % 2 ^ 32 → n - offset ≤ size
no_more n offset size below e = omega arith

no_wrap :
    (n offset size : ℕ)
    → n + size < 2 ^ 32
    → offset < n
    → (offset + size) % 2 ^ 32 < n
    → offset + size ≤ n
no_wrap n offset size below f e = omega arith

split_window :
    {W : Type 0} (app : AviFiles W) (wi : WavItem) (offset size real : ℕ)
    → real ≤ size
    → (leb wi.samples offset ≡ false → offset + real ≤ wi.samples)
    → ((if leb wi.samples offset
          then pure []
          else if ltb real 8
          then pure []
          else fetch app wi offset real)
        ≡ pure [])
      ⊎ ((n : ℕ) × (8 ≤ n)
          × (n ≤ size)
          × (offset + n ≤ wi.samples)
          × ((if leb wi.samples offset
                then pure []
                else if ltb real 8
                then pure []
                else fetch app wi offset real)
              ≡ fetch app wi offset n))
split_window app wi offset size real small inside = elim (Bool-cases (leb wi.samples offset)) [
  | inl e ↦ inl (rw e refl)
  | inr e ↦ elim (Bool-cases (ltb real 8)) [
    | inl f ↦ inl (rw (e, f) refl)
    | inr f ↦ inr (real, ground (arith, f), small, inside e, rw (e, f) refl)
  ]
]

-- If the length of the file and the size that is asked for add up to less than 2^32, wav_read on a
-- block either gives no samples without a call, or asks AviUtl for a window of at least 8 samples
-- that is no longer than what was asked for and lies inside the file.
pub read_block-bounds :
    {W : Type 0} (app : AviFiles W) (wi : WavItem) (offset size : ℕ)
    → wi.samples + size < 2 ^ 32
    → (read_block app wi offset size ≡ pure [])
      ⊎ ((n : ℕ) × (8 ≤ n)
          × (n ≤ size)
          × (offset + n ≤ wi.samples)
          × (read_block app wi offset size ≡ fetch app wi offset n))
unfolding read_block
read_block-bounds app wi offset size below =
    elim (Bool-cases (leb wi.samples ((offset + size) % 2 ^ 32))) [
      | inl e ↦ rw e (
          split_window app wi offset size (wi.samples - offset)
            (no_more wi.samples offset size below (leb-le _ _ e)) (λ f. ground (arith, f)))
      | inr e ↦ rw e (
          split_window app wi offset size size (omega arith)
            (λ f. no_wrap wi.samples offset size below (leb-lt _ _ f) (leb-lt _ _ e)))
    ]

none_less : (n k : ℕ) → n ≡ 0 → n ≡ n - k
none_less n k e = omega (arith, e)

block_at_here :
    (x a : ℕ) (wi : WavItem) (blocks : List (ℕ × WavItem))
    → (a == x) ≡ true
    → block_at x ((a, wi) ∷ blocks) ≡ some wi
unfolding block_at
block_at_here x a wi blocks t = rw t refl

block_at_there :
    (x a : ℕ) (wi : WavItem) (blocks : List (ℕ × WavItem))
    → (a == x) ≡ false
    → block_at x ((a, wi) ∷ blocks) ≡ block_at x blocks
unfolding block_at
block_at_there x a wi blocks t = rw t refl

block_at-at :
    (h : ℕ) (blocks : List (ℕ × WavItem)) → block_at h blocks ≡ none → blocks_at blocks h ≡ 0
unfolding block_at
block_at-at h [] e = refl
block_at-at h ((a, wi) ∷ blocks) e = elim (Bool-cases (a == h)) [
  | inl t ↦ absurd (ground (arith, e))
  | inr t ↦ rw t (omega (arith, block_at-at h blocks (sym (block_at_there h a wi blocks t) ∙ e)))
]

freed-blocks :
    (x : ℕ) (blocks : List (ℕ × WavItem)) (h : ℕ)
    → blocks_at (freed x blocks) h ≡ blocks_at blocks h - own (some x) h
unfolding freed
freed-blocks x [] h = ground arith
freed-blocks x ((a, wi) ∷ blocks) h = elim (Bool-cases (a == x)) [
  | inl t ↦ rw t (
      subst (λ y. blocks_at blocks h ≡ own (some a) h + blocks_at blocks h - own (some y) h)
        ((==_iff a x).0 t) (omega arith))
  | inr t ↦ rw t (ground (arith, freed-blocks x blocks h))
]

freed-files :
    (x : ℕ) (blocks : List (ℕ × WavItem)) (wi : WavItem) (f : ℕ)
    → block_at x blocks ≡ some wi
    → files_in (freed x blocks) f + own (some wi.afh) f ≡ files_in blocks f
unfolding freed block_at
freed-files x [] wi f e = cc
freed-files x ((a, w) ∷ blocks) wi f e = elim (Bool-cases (a == x)) [
  | inl t ↦
      let same : w ≡ wi = some-injective w wi (sym (block_at_here x a w blocks t) ∙ e) in
      rw t (
        subst
          (λ (u : WavItem).
            files_in blocks f + own (some u.afh) f ≡ own (some w.afh) f + files_in blocks f)
          same (omega arith))
  | inr t ↦
      rw t (omega (arith, freed-files x blocks wi f (sym (block_at_there x a w blocks t) ∙ e)))
]

module _ {W : Type 0} (app : AviFiles W) (P : Wavs W → Type 0)
    (fetch_keeps : (wi : WavItem) (offset size : ℕ) (t : Wavs W)
      → P t
      → P (fetch app wi offset size t).1) where
  if_keeps :
      (b : Bool) (x y : M (Wavs W) (List ℕ)) (t : Wavs W)
      → P (x t).1
      → P (y t).1
      → P ((if b then x else y) t).1
  if_keeps true x y t k l = k
  if_keeps false x y t k l = l

  read_at_keeps :
      (o : Option WavItem) (offset size : ℕ) (t : Wavs W) → P t → P (read_at app o offset size t).1
  unfolding read_at read_block
  read_at_keeps none offset size t k = k
  read_at_keeps (some wi) offset size t k =
      let real_samples =
        if leb wi.samples ((offset + size) % 2 ^ 32) then wi.samples - offset else size in
      if_keeps (leb wi.samples offset) (pure [])
        (if ltb real_samples 8 then pure [] else fetch app wi offset real_samples) t k
        (if_keeps (ltb real_samples 8) (pure []) (fetch app wi offset real_samples) t k
          (fetch_keeps wi offset real_samples t k))

  -- What a read leaves alone.
  wav_read_keeps :
      (h : Option ℕ) (offset size : ℕ) (t : Wavs W) → P t → P (wav_read app h offset size t).1
  unfolding wav_read
  wav_read_keeps none offset size t k = k
  wav_read_keeps (some h) offset size t k = read_at_keeps (block_at h t.blocks) offset size t k

module _ {W : Type 0} (app : AviFiles W) (opened : W → ℕ → ℕ) (laws : AviLaws app opened) where
  -- Beyond `base`, AviUtl has the files of the blocks open.
  abbrev pub Backed : (ℕ → ℕ) → Wavs W → Type 0
  Backed base t = (f : ℕ) → opened t.world f ≡ base f + files_in t.blocks f

  samples_of-opened :
      (afh freq ch : ℕ) (fi : AudioInfo) (w : W) (f : ℕ)
      → opened (samples_of app afh freq ch fi w).1 f ≡ opened w f
  unfolding samples_of
  samples_of-opened afh freq ch fi w f =
      elim (Bool-cases (not (fi.audio_rate == freq) || not (fi.audio_ch == ch))) [
        | inl e ↦ rw e (laws.avi_file_set_audio_sample_rate_lem afh freq ch w f)
        | inr e ↦ rw e refl
      ]

  module _ (base : ℕ → ℕ) where
    opened_as-Backed :
        (wi freq ch : ℕ) (o : Option (ℕ × AudioInfo)) (blocks : List (ℕ × WavItem)) (w : W)
        → ((f : ℕ) → opened w f ≡ base f + files_in blocks f + own (file_of o) f)
        → Backed base (opened_as app wi freq ch o blocks w).1
    unfolding opened_as
    opened_as-Backed wi freq ch none blocks w h f = omega (arith, h f)
    opened_as-Backed wi freq ch (some (afh, fi)) blocks w h f =
        omega (arith, h f, samples_of-opened afh freq ch fi w f)

    wav_opening-Backed :
        (path : Chars) (freq ch : ℕ) (blocks : List (ℕ × WavItem)) (r : Result ℕ × W)
        → ((f : ℕ) → opened r.1 f ≡ base f + files_in blocks f)
        → Backed base (wav_opening app path freq ch blocks r).1
    unfolding wav_opening
    wav_opening-Backed path freq ch blocks (err e, w) h = h
    wav_opening-Backed path freq ch blocks (ok wi, w) h =
        opened_as-Backed wi freq ch (app.avi_file_open path w).0 blocks (app.avi_file_open path w).1
          (λ f.
            laws.avi_file_open_lem path w f
            ∙ ap (λ n. n + own (file_of (app.avi_file_open path w).0) f) (h f))

    fetch-Backed :
        (wi : WavItem) (offset size : ℕ) (t : Wavs W)
        → Backed base t
        → Backed base (fetch app wi offset size t).1
    unfolding fetch
    fetch-Backed wi offset size t k f =
        laws.avi_file_read_audio_sample_lem wi.afh offset size t.world f ∙ k f

    close_block-Backed :
        (h : ℕ) (o : Option WavItem) (t : Wavs W)
        → block_at h t.blocks ≡ o
        → Backed base t
        → Backed base (close_block app h o t)
    unfolding close_block
    close_block-Backed h none t e k f = k f
    close_block-Backed h (some wi) t e k f =
        omega (arith, k f, laws.avi_file_close_lem wi.afh t.world f, freed-files h t.blocks wi f e)

  -- With the documented effect of AviUtl's calls on the files that it has open: if beyond a base
  -- these are exactly the files of the blocks, they are so after wav_open, wav_read and wav_close,
  -- on every outcome and for every argument.
  pub wav_audio-Backed :
      (base : ℕ → ℕ) (t : Wavs W)
      → Backed base t
      → ((path : Chars) (freq ch : ℕ) → Backed base (wav_open app path freq ch t).1)
        × ((h : Option ℕ) (offset size : ℕ) → Backed base (wav_read app h offset size t).1)
        × ((h : ℕ) → Backed base (wav_close app h t))
  unfolding wav_open wav_close
  wav_audio-Backed base t k = (
    λ path freq ch.
        wav_opening-Backed base path freq ch t.blocks (app.mem t.world)
          (λ f. laws.mem_lem t.world f ∙ k f),
    λ h offset size. wav_read_keeps app (Backed base) (fetch-Backed base) h offset size t k,
    λ h. close_block-Backed base h (block_at h t.blocks) t refl k,
  )

module _ {W : Type 0} (app : AviFiles W) (t : Wavs W) where
  abbrev More : ℕ → Wavs W → Type 0
  More x t' = (h : ℕ) → blocks_at t'.blocks h ≡ blocks_at t.blocks h + own (some x) h

  abbrev Same : Error → Wavs W → Type 0
  Same e t' = (h : ℕ) → blocks_at t'.blocks h ≡ blocks_at t.blocks h

  opened_as-More :
      (wi freq ch : ℕ) (o : Option (ℕ × AudioInfo)) (w : W)
      → Ends More Same (opened_as app wi freq ch o t.blocks w)
  unfolding opened_as
  opened_as-More wi freq ch none w = λ h. refl
  opened_as-More wi freq ch (some (afh, fi)) w = λ h. omega arith

  wav_opening-More :
      (path : Chars) (freq ch : ℕ) (r : Result ℕ × W)
      → Ends More Same (wav_opening app path freq ch t.blocks r)
  unfolding wav_opening
  wav_opening-More path freq ch (err e, w) = λ h. refl
  wav_opening-More path freq ch (ok wi, w) =
      opened_as-More wi freq ch (app.avi_file_open path w).0 (app.avi_file_open path w).1

  close_block-Fewer :
      (x : ℕ) (o : Option WavItem)
      → block_at x t.blocks ≡ o
      → (h : ℕ) → blocks_at (close_block app x o t).blocks h ≡ blocks_at t.blocks h - own (some x) h
  unfolding close_block
  close_block-Fewer x none e h = elim (Bool-cases (x == h)) [
    | inl s ↦
        subst (λ y. blocks_at t.blocks y ≡ blocks_at t.blocks y - own (some x) y) ((==_iff x h).0 s)
          (none_less _ _ (block_at-at x t.blocks e))
    | inr s ↦ rw s (omega arith)
  ]
  close_block-Fewer x (some wi) e h = freed-blocks x t.blocks h

module _ {W : Type 0} (app : AviFiles W) (lib : Ovstr (Wavs W)) where
  -- x
  pub wav_audio-AudioLaws :
      ((s : Chars) (t : Wavs W) → (lib.scpy s t).1.blocks ≡ t.blocks)
      → AudioLaws lib (wav_audio app) (λ t. blocks_at t.blocks)
  unfolding wav_open wav_close fetch
  wav_audio-AudioLaws scpy_lem = record {
    open_file_lem = λ path freq ch t. wav_opening-More app t path freq ch (app.mem t.world);
    close_file_lem = λ x t h. close_block-Fewer app t x (block_at x t.blocks) refl h;
    read_file_lem = λ x offset size t h.
        wav_read_keeps app (λ t'. blocks_at t'.blocks h ≡ blocks_at t.blocks h)
          (λ wi offset size t' k. k) x offset size t refl;
    timespec_get_lem = λ t h. refl;
    scpy_lem = λ s t h. ap (λ b. blocks_at b h) (scpy_lem s t);
  }
