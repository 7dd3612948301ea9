-- ===== src/Speak/Level.antt =====
-- `read` and `speak_get_level` of src/c/speak.c: the loudness in a band of frequencies.
use aviutl_psdtoolkit.Base.{
  ℕ, zero, suc, ◌+◌, ◌-◌, ◌*◌, Bool, List, [], ◌∷◌, ◌++◌, Option, none, some, ltb, if◌then◌else◌,
  length, get_elem?, get_or, M, ◌>>=◌, ◌>>◌, pure, raise, or_raise, finally, unexpected, overrun,
  Wstr, Ovstr,
}
use aviutl_psdtoolkit.Speak.Types.{Item, Table, Audio, outside}
use aviutl_psdtoolkit.Speak.Slots.{open_path, assign, now}

-- The floating-point numbers, and the transform of the package in src/c/3rd/fft.
pub record Floats (F : Type 0) : Type 0 where
  pub of_nat : ℕ → F
  pub add : F → F → F
  pub mul : F → F → F
  pub div : F → F → F
  pub sqrt : F → F
  pub lt : F → F → Bool
  pub trunc : F → ℕ
  pub of_sample : ℕ → F
  pub rdft : List F → List F

module _ {F : Type 0} (fl : Floats F) where
  -- The samples, windowed, and zeros behind them up to the transform's size.
  unfoldable pub windowed : List ℕ → List F → List F
  windowed [] window = []
  windowed (x ∷ xs) [] = []
  windowed (x ∷ xs) (w ∷ ws) = fl.mul (fl.of_sample x) w ∷ windowed xs ws

  unfoldable pub zeros : ℕ → List F
  zeros zero = []
  zeros (suc n) = fl.of_nat 0 ∷ zeros n

  -- The loop over the frequencies, with `n` of them left: the sum and the number of those in the
  -- band, which are none below `low_cut` and stop above `high_cut`.
  unfoldable pub band : ℕ → ℕ → List F → F → F → F × F → F × F
  band zero i buf low_cut high_cut acc = acc
  band (suc n) i buf low_cut high_cut acc =
      let hz = fl.mul (fl.of_nat i) (fl.of_nat 93) in
      let x = get_or buf (i * 2) (fl.of_nat 0) in
      let y = get_or buf (i * 2 + 1) (fl.of_nat 0) in
      let size = fl.sqrt (fl.add (fl.mul x x) (fl.mul y y)) in
      let skip = band n (suc i) buf low_cut high_cut acc in
      let count =
        band n (suc i) buf low_cut high_cut (fl.add acc.0 size, fl.add acc.1 (fl.of_nat 1)) in
      if fl.lt hz low_cut then skip else if fl.lt high_cut hz then acc else count

  unfoldable pub level_of : List F → List ℕ → F → F → F
  level_of window samples low_cut high_cut =
      let buf = fl.rdft (windowed samples window ++ zeros (256 - length samples)) in
      let sum = band 128 0 buf low_cut high_cut (fl.of_nat 0, fl.of_nat 0) in fl.div sum.0 sum.1

  module _ {W : Type 0} (lib : Ovstr W) (audio : Audio W) (window : List F) where
    unfoldable pub handle_of : Option Item → M (Table W) (Option ℕ)
    handle_of none = raise overrun
    handle_of (some item) = pure item.h

    unfoldable pub handle_at : ℕ → M (Table W) (Option ℕ)
    handle_at idx t = handle_of (get_elem? t.items idx) t

    -- `read`. The transform's buffer has room for 256 samples.
    unfoldable pub read_level : Wstr → F → F → F → M (Table W) F
    read_level filepath pos low_cut high_cut = do
      idx ← open_path lib audio filepath 0
      h ← handle_at idx
      samples ← outside (audio.read_file h (fl.trunc (fl.mul pos (fl.of_nat 24000))) 256)
      time ← now lib audio
      time ← or_raise time unexpected
      assign lib audio idx (λ item. record item { used_at = time })
      let level = level_of window samples low_cut high_cut
      if ltb 256 (length samples) then raise overrun else pure level

    -- `mtx_lock` and `mtx_unlock` of ovbase are the first two arguments.
    unfoldable pub speak_get_level : (W → W) → (W → W) → Wstr → F → F → F → M (Table W) F
    speak_get_level lock unlock filepath pos low_cut high_cut t =
        finally (read_level filepath pos low_cut high_cut)
          (λ r t'. (r, record t' { world = unlock t'.world })) (record t { world = lock t.world })
