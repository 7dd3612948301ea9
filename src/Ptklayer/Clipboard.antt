-- ===== src/Ptklayer/Clipboard.antt =====
-- `copy_to_clipboard` of src/c/ptklayer.c, and the clipboard and memory calls of Windows.
use aviutl_psdtoolkit.Base.{
  ℕ, ◌+◌, ◌*◌, ◌%◌, ◌^◌, Bool, true, false, [], ◌∷◌, ◌++◌, Option, none, some, ◌==◌, if◌then◌else◌,
  length, Chars, M, ◌>>=◌, ◌>>◌, raise, hr, Error, Result, ok, err, invalid_argument, Wstr,
}

-- A number is a handle, an address or a window. A call that fails gives the HRESULT of the last
-- error; `report` is `ereport`.
pub record Clipboard (W : Type 0) : Type 0 where
  pub open_clipboard : ℕ → M W (Unit {0})
  pub global_alloc : ℕ → M W ℕ
  pub global_lock : ℕ → M W ℕ
  pub write_memory : ℕ → Chars → W → W
  pub global_unlock : ℕ → M W (Unit {0})
  pub empty_clipboard : M W (Unit {0})
  pub set_clipboard_data : ℕ → M W (Unit {0})
  pub global_free : ℕ → M W (Unit {0})
  pub close_clipboard : M W (Unit {0})
  pub report : Error → W → W

-- The variables that the code at `cleanup` reads, and the world.
pub record Copying (W : Type 0) : Type 0 where
  pub clipboard_open : Bool
  pub h : Option ℕ
  pub p : Option ℕ
  pub world : W

-- A call that leaves the variables alone, and an assignment to one.
unfoldable pub called : {W A : Type 0} → M W A → M (Copying W) A
called m s = let (r, w) = m s.world in (r, record s { world = w })

abbrev pub assigned : {W : Type 0} → (Copying W → Copying W) → M (Copying W) (Unit {0})
assigned f s = (ok tt, f s)

-- The text of a `wstr`: a null pointer has the length 0.
abbrev pub chars_of : Wstr → Chars
chars_of none = []
chars_of (some s) = s

module _ {W : Type 0} (win : Clipboard W) where
  -- The error of a call whose result is only reported.
  unfoldable pub reported : Result (Unit {0}) × W → W
  reported (ok _, w) = w
  reported (err e, w) = win.report e w

  -- `GlobalUnlock` returns 0 with the last error `NO_ERROR` when the lock count reaches 0.
  unfoldable pub unlocked : Result (Unit {0}) × W → W
  unlocked (err (hr n), w) = if n == 0 then w else win.report (hr n) w
  unlocked (ok _, w) = w
  unlocked (err e, w) = win.report e w

  -- The code before `cleanup`. The size is a `size_t` of 32 bits.
  unfoldable pub copy_to : ℕ → Wstr → M (Copying W) (Unit {0})
  copy_to owner content = do
    called (win.open_clipboard owner)
    assigned (λ s. record s { clipboard_open = true })
    h ← called (win.global_alloc ((length (chars_of content) + 1) * 2 % 2 ^ 32))
    assigned (λ s. record s { h = some h })
    p ← called (win.global_lock h)
    assigned (λ s. record s { p = some p })
    assigned (λ s. record s { world = win.write_memory p (chars_of content ++ 0 ∷ []) s.world })
    assigned (λ s. record s { p = none; world = unlocked (win.global_unlock p s.world) })
    called win.empty_clipboard
    called (win.set_clipboard_data h)
    assigned (λ s. record s { h = none })

  unfoldable pub unlock_held : Option ℕ → W → W
  unlock_held none w = w
  unlock_held (some p) w = unlocked (win.global_unlock p w)

  unfoldable pub free_held : Option ℕ → W → W
  free_held none w = w
  free_held (some h) w = reported (win.global_free h w)

  unfoldable pub close_held : Bool → W → W
  close_held false w = w
  close_held true w = reported (win.close_clipboard w)

  unfoldable pub copy_cleanup : Copying W → W
  copy_cleanup s = close_held s.clipboard_open (free_held s.h (unlock_held s.p s.world))

  abbrev pub started : W → Copying W
  started w = record { clipboard_open = false; h = none; p = none; world = w }

  abbrev pub copy_outcome : Result (Unit {0}) × Copying W → Result (Unit {0}) × W
  copy_outcome (r, s) = (r, copy_cleanup s)

  -- A null window is 0, and `content` a pointer that may be null.
  unfoldable pub copy_to_clipboard : ℕ → Option Wstr → M W (Unit {0})
  copy_to_clipboard owner none w = raise invalid_argument w
  copy_to_clipboard owner (some content) w =
      if owner == 0
      then raise invalid_argument w
      else copy_outcome (copy_to owner content (started w))
