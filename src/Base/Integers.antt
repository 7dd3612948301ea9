-- ===== src/Base/Integers.antt =====
-- Integers over the native numbers, for the coordinates of windows.
use Prim.Native.Nat.{ℕ, zero, suc, ◌+◌, ◌-◌, ◌/◌}
use mathlib.Core.Path.{◌≡◌, refl}
use mathlib.Core.Bool.{Bool, true, false}
use native.Mathlib.Omega.{arith}
use aviutl_psdtoolkit.Base.Tests.{ltb, leb, if◌then◌else◌}

-- `negsuc n` is -(n + 1).
pub data ℤ : Type 0 where
  pos negsuc : ℕ → ℤ

-- `a - b`
abbrev pub difference : ℕ → ℕ → ℤ
difference a b = if leb b a then pos (a - b) else negsuc (b - a - 1)

infixl 40 ◌+ℤ◌ ◌-ℤ◌
abbrev pub ◌+ℤ◌ : ℤ → ℤ → ℤ
pos a +ℤ pos b = pos (a + b)
pos a +ℤ negsuc b = difference a (b + 1)
negsuc a +ℤ pos b = difference b (a + 1)
negsuc a +ℤ negsuc b = negsuc (a + b + 1)

abbrev pub opposite : ℤ → ℤ
opposite (pos zero) = pos 0
opposite (pos (suc n)) = negsuc n
opposite (negsuc n) = pos (n + 1)

abbrev pub ◌-ℤ◌ : ℤ → ℤ → ℤ
a -ℤ b = a +ℤ opposite b

abbrev pub ltℤ : ℤ → ℤ → Bool
ltℤ (pos a) (pos b) = ltb a b
ltℤ (pos a) (negsuc b) = false
ltℤ (negsuc a) (pos b) = true
ltℤ (negsuc a) (negsuc b) = ltb b a

-- `a / 2` in C, which rounds towards 0.
abbrev pub half : ℤ → ℤ
half (pos a) = pos (a / 2)
half (negsuc a) = opposite (pos ((a + 1) / 2))

pub ltℤ-asym : (a b : ℤ) → ltℤ a b ≡ true → ltℤ b a ≡ false
ltℤ-asym (pos a) (pos b) e = ground arith
ltℤ-asym (pos a) (negsuc b) e = absurd (cc)
ltℤ-asym (negsuc a) (pos b) e = refl
ltℤ-asym (negsuc a) (negsuc b) e = ground arith

-- What is not less is transitive.
pub ltℤ-trans : (a b c : ℤ) → ltℤ b a ≡ false → ltℤ c b ≡ false → ltℤ c a ≡ false
ltℤ-trans (pos a) (pos b) (pos c) e f = ground arith
ltℤ-trans (pos a) (pos b) (negsuc c) e f = absurd (cc)
ltℤ-trans (pos a) (negsuc b) c e f = absurd (cc)
ltℤ-trans (negsuc a) b (pos c) e f = refl
ltℤ-trans (negsuc a) (pos b) (negsuc c) e f = absurd (cc)
ltℤ-trans (negsuc a) (negsuc b) (negsuc c) e f = ground arith

-- Moving both changes no order.
pub ltℤ-shift : (a b c : ℤ) → ltℤ (a +ℤ c) (b +ℤ c) ≡ ltℤ a b
ltℤ-shift (pos a) (pos b) (pos c) = ground arith
ltℤ-shift (pos a) (pos b) (negsuc c) = ground arith
ltℤ-shift (pos a) (negsuc b) (pos c) = ground arith
ltℤ-shift (pos a) (negsuc b) (negsuc c) = ground arith
ltℤ-shift (negsuc a) (pos b) (pos c) = ground arith
ltℤ-shift (negsuc a) (pos b) (negsuc c) = ground arith
ltℤ-shift (negsuc a) (negsuc b) (pos c) = ground arith
ltℤ-shift (negsuc a) (negsuc b) (negsuc c) = ground arith
