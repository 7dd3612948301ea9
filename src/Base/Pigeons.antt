-- ===== src/Base/Pigeons.antt =====
-- A list without repetitions whose numbers are below a bound is no longer than the bound.
use Prim.Native.Nat.{ℕ, zero, suc, ◌≤◌, ◌<◌}
use mathlib.Core.Path.{◌≡◌, refl, ap, subst}
use mathlib.Core.Logic.{◌≢◌, inl, inr}
use mathlib.Core.List.{List, [], ◌∷◌}
use native.Mathlib.Omega.{arith}
use aviutl_psdtoolkit.Base.Tests.{◌==◌, if◌then◌else◌, Bool-cases, ==_iff, ==_ne}
use aviutl_psdtoolkit.Base.Lists.{length, All}

abbrev pub Distinct : List ℕ → Type 0
Distinct [] = Unit
Distinct (x ∷ xs) = All (λ y. y ≢ x) xs × Distinct xs

below_suc : {x n : ℕ} → x ≢ n → x < suc n → x < n
below_suc h k = ground arith

without : ℕ → List ℕ → List ℕ
without n [] = []
without n (x ∷ xs) = if x == n then without n xs else x ∷ without n xs

without-absent : (n : ℕ) (l : List ℕ) → All (λ y. y ≢ n) l → without n l ≡ l
unfolding without
without-absent n [] h = refl
without-absent n (x ∷ xs) (h, k) = elim (Bool-cases (x == n)) [
  | inl e ↦ absurd (h ((==_iff x n).0 e))
  | inr e ↦ rw e (ap (◌∷◌ x) (without-absent n xs k))
]

without-All : (P : ℕ → Type 0) (n : ℕ) (l : List ℕ) → All P l → All P (without n l)
unfolding without
without-All P n [] h = h
without-All P n (x ∷ xs) (h, k) = elim (Bool-cases (x == n)) [
  | inl e ↦ rw e (without-All P n xs k)
  | inr e ↦ rw e (h, without-All P n xs k)
]

without-Distinct : (n : ℕ) (l : List ℕ) → Distinct l → Distinct (without n l)
unfolding without
without-Distinct n [] h = h
without-Distinct n (x ∷ xs) (h, k) = elim (Bool-cases (x == n)) [
  | inl e ↦ rw e (without-Distinct n xs k)
  | inr e ↦ rw e (without-All (λ y. y ≢ x) n xs h, without-Distinct n xs k)
]

without-length : (n : ℕ) (l : List ℕ) → Distinct l → length l ≤ suc (length (without n l))
unfolding without
without-length n [] h = omega arith
without-length n (x ∷ xs) (h, k) = elim (Bool-cases (x == n)) [
  | inl e ↦
      let same = without-absent n xs (subst (λ m. All (λ y. y ≢ m) xs) ((==_iff x n).0 e) h) in
      rw e (rw same (omega arith))
  | inr e ↦ rw e (omega (arith, without-length n xs k))
]

without-below : (n : ℕ) (l : List ℕ) → All (λ x. x < suc n) l → All (λ x. x < n) (without n l)
unfolding without
without-below n [] h = h
without-below n (x ∷ xs) (h, k) = elim (Bool-cases (x == n)) [
  | inl e ↦ rw e (without-below n xs k)
  | inr e ↦ rw e (below_suc (==_ne x n e) h, without-below n xs k)
]

pub length-le-bound : (n : ℕ) (l : List ℕ) → Distinct l → All (λ x. x < n) l → length l ≤ n
length-le-bound zero [] h k = omega arith
length-le-bound zero (x ∷ xs) h (k, l) = absurd (omega arith)
length-le-bound (suc n) l h k = omega (
  arith,
  without-length n l h,
  length-le-bound n (without n l) (without-Distinct n l h) (without-below n l k),
)
