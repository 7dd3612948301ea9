-- ===== src/Assist/SoundTests.antt =====
-- Sound files as counts of open files, for src/c/assist.c.
use aviutl_psdtoolkit.Base.{
  ℕ, ◌+◌, ◌-◌, ◌≤◌, [], ◌∷◌, none, some, own, Chars, pure, Option, ◌≡◌, ◌⊎◌, refl, arith,
}
use aviutl_psdtoolkit.Assist.Wav.{
  AudioInfo, WavItem, Wavs, AviFiles, fetch, read_block, wav_open, wav_read, wav_close,
}
use aviutl_psdtoolkit.Assist.Sound.{AviLaws, Backed, read_block-bounds, wav_audio-Backed}

abbrev voice : AudioInfo
voice = record { audio_rate = 24000; audio_ch = 1; audio_n = 1000 }

-- Each file is opened as number 5, and each block lies at 9.
abbrev one_voice : AviFiles (ℕ → ℕ)
one_voice = record {
  mem = pure 9;
  avi_file_open = λ s w. (some (5, voice), λ f. w f + own (some 5) f);
  avi_file_set_audio_sample_rate = λ a r c w. (500, w);
  avi_file_read_audio_sample = λ a s n w. (n ∷ [], w);
  avi_file_close = λ a w. λ f. w f - own (some a) f;
  timespec_get = λ w. (none, w);
}

one_voice-laws : AviLaws one_voice (λ w. w)
one_voice-laws = record {
  mem_lem = λ w f. refl;
  avi_file_open_lem = λ s w f. refl;
  avi_file_set_audio_sample_rate_lem = λ a r c w f. refl;
  avi_file_read_audio_sample_lem = λ a s n w f. refl;
  avi_file_close_lem = λ a w f. refl;
}

abbrev voice_item : WavItem
voice_item = record { afh = 5; samples = 1000 }

abbrev one_open : Wavs (ℕ → ℕ)
one_open = record { blocks = (9, voice_item) ∷ []; world = λ f. own (some 5) f }

one_open-Backed : Backed one_voice (λ w. w) one_voice-laws (λ f. 0) one_open
one_open-Backed f = omega arith

read_block-bounds_example :
    (read_block one_voice voice_item 900 256 ≡ pure [])
    ⊎ ((n : ℕ) × (8 ≤ n)
        × (n ≤ 256)
        × (900 + n ≤ 1000)
        × (read_block one_voice voice_item 900 256 ≡ fetch one_voice voice_item 900 n))
read_block-bounds_example = read_block-bounds one_voice voice_item 900 256 (omega arith)

wav_audio-Backed_example :
    ((path : Chars) (freq ch : ℕ)
      → Backed one_voice
          (λ w. w)
          one_voice-laws
          (λ f. 0)
          (wav_open one_voice path freq ch one_open).1)
    × ((h : Option ℕ) (offset size : ℕ)
        → Backed one_voice
            (λ w. w)
            one_voice-laws
            (λ f. 0)
            (wav_read one_voice h offset size one_open).1)
    × ((h : ℕ) → Backed one_voice (λ w. w) one_voice-laws (λ f. 0) (wav_close one_voice h one_open))
wav_audio-Backed_example =
    wav_audio-Backed one_voice (λ w. w) one_voice-laws (λ f. 0) one_open one_open-Backed
