-- ===== src/Assist/Wav.antt =====
-- `wav_open`, `wav_read` and `wav_close` of src/c/assist.c, the functions through which
-- src/c/speak.c reads sound files.
use aviutl_psdtoolkit.Base.{
  ℕ, ◌+◌, ◌-◌, ◌%◌, ◌^◌, not, ◌||◌, ltb, leb, ◌==◌, if◌then◌else◌, List, [], ◌∷◌, Option, none,
  some, Chars, M, pure, raise, overrun, fail, ok, err, Result,
}
use aviutl_psdtoolkit.Speak.Types.{Time, Audio}

-- `FILE_INFO`, as far as it is read.
pub record AudioInfo : Type 0 where
  pub audio_rate : ℕ
  pub audio_ch : ℕ
  pub audio_n : ℕ

pub record WavItem : Type 0 where
  pub afh : ℕ
  pub samples : ℕ

-- The blocks of `struct wav_item` by their addresses, and the world outside of them.
pub record Wavs (W : Type 0) : Type 0 where
  pub blocks : List (ℕ × WavItem)
  pub world : W

-- The allocator, and the calls of AviUtl on a sound file.
pub record AviFiles (W : Type 0) : Type 0 where
  pub mem : M W ℕ
  pub avi_file_open : Chars → W → Option (ℕ × AudioInfo) × W
  pub avi_file_set_audio_sample_rate : (afh rate ch : ℕ) → W → ℕ × W
  pub avi_file_read_audio_sample : (afh start length : ℕ) → W → List ℕ × W
  pub avi_file_close : ℕ → W → W
  pub timespec_get : W → Option Time × W

-- `h->...`, which must point to a block.
unfoldable pub block_at : ℕ → List (ℕ × WavItem) → Option WavItem
block_at h [] = none
block_at h ((a, wi) ∷ blocks) = let later = block_at h blocks in if a == h then some wi else later

-- `mem_free`
unfoldable pub freed : ℕ → List (ℕ × WavItem) → List (ℕ × WavItem)
freed h [] = []
freed h ((a, wi) ∷ blocks) =
    let later = freed h blocks in if a == h then blocks else (a, wi) ∷ later

module _ {W : Type 0} (app : AviFiles W) where
  -- The number of samples at the rate and with the channels that are asked for.
  unfoldable pub samples_of : (afh freq ch : ℕ) → AudioInfo → W → ℕ × W
  samples_of afh freq ch fi w =
      if not (fi.audio_rate == freq) || not (fi.audio_ch == ch)
      then app.avi_file_set_audio_sample_rate afh freq ch w
      else (fi.audio_n, w)

  -- What follows the opening: without a file the block is freed again.
  unfoldable pub opened_as :
      (wi freq ch : ℕ) → Option (ℕ × AudioInfo) → List (ℕ × WavItem) → W → Result ℕ × Wavs W
  opened_as wi freq ch none blocks w = (err fail, record { blocks = blocks; world = w })
  opened_as wi freq ch (some (afh, fi)) blocks w =
      let (n, w') = samples_of afh freq ch fi w in
      (ok wi, record { blocks = (wi, record { afh = afh; samples = n }) ∷ blocks; world = w' })

  unfoldable pub wav_opening :
      Chars → (freq ch : ℕ) → List (ℕ × WavItem) → Result ℕ × W → Result ℕ × Wavs W
  wav_opening filepath freq ch blocks (err e, w) = (err e, record { blocks = blocks; world = w })
  wav_opening filepath freq ch blocks (ok wi, w) =
      let (o, w') = app.avi_file_open filepath w in opened_as wi freq ch o blocks w'

  unfoldable pub wav_open : Chars → (freq ch : ℕ) → M (Wavs W) ℕ
  wav_open filepath freq ch t = wav_opening filepath freq ch t.blocks (app.mem t.world)

  unfoldable pub fetch : WavItem → (offset length : ℕ) → M (Wavs W) (List ℕ)
  fetch wi offset length t =
      let (s, w) = app.avi_file_read_audio_sample wi.afh offset length t.world in
      (ok s, record t { world = w })

  -- `offset + length` is a `size_t` of 32 bits.
  unfoldable pub read_block : WavItem → (offset length : ℕ) → M (Wavs W) (List ℕ)
  read_block wi offset length =
      let real_samples =
        if leb wi.samples ((offset + length) % 2 ^ 32) then wi.samples - offset else length in
      if leb wi.samples offset
      then pure []
      else if ltb real_samples 8
      then pure []
      else fetch wi offset real_samples

  unfoldable pub read_at : Option WavItem → (offset length : ℕ) → M (Wavs W) (List ℕ)
  read_at none offset length = raise overrun
  read_at (some wi) offset length = read_block wi offset length

  -- A null pointer points to no block.
  unfoldable pub wav_read : Option ℕ → (offset length : ℕ) → M (Wavs W) (List ℕ)
  wav_read none offset length t = raise overrun t
  wav_read (some h) offset length t = read_at (block_at h t.blocks) offset length t

  unfoldable pub close_block : ℕ → Option WavItem → Wavs W → Wavs W
  close_block h none t = t
  close_block h (some wi) t = record {
    blocks = freed h t.blocks;
    world = app.avi_file_close wi.afh t.world;
  }

  unfoldable pub wav_close : ℕ → Wavs W → Wavs W
  wav_close h t = close_block h (block_at h t.blocks) t

  -- `struct speak_callbacks` as `filter_init` fills it.
  abbrev pub wav_audio : Audio (Wavs W)
  wav_audio = record {
    open_file = wav_open;
    read_file = wav_read;
    close_file = wav_close;
    timespec_get = λ t. let (o, w) = app.timespec_get t.world in (o, record t { world = w });
  }
