-- ===== src/Base/Tests.antt =====
-- Boolean tests on the native numbers, the conditional, and case lemmas.
use Prim.Native.Nat.{ℕ, zero, suc, ◌+◌, ◌≤◌, ◌<◌, compare, Ordering}
use mathlib.Core.Path.{◌≡◌, refl}
use mathlib.Core.Logic.{◌≢◌, ◌↔◌, ◌⊎◌, inl, inr}
use mathlib.Core.Bool.{Bool, true, false}
use mathlib.Core.Option.{Option, none, some}
use native.Mathlib.Omega.{arith}

abbrev pub ltb : ℕ → ℕ → Bool
ltb a b = elim (compare a b) [ Ordering.lt ↦ true | _ ↦ false ]

abbrev pub leb : ℕ → ℕ → Bool
leb a b = elim (compare a b) [ Ordering.gt ↦ false | _ ↦ true ]

infix 50 ◌==◌
abbrev pub ◌==◌ : ℕ → ℕ → Bool
a == b = elim (compare a b) [ Ordering.eq ↦ true | _ ↦ false ]

infix 1 if◌then◌else◌
abbrev pub if◌then◌else◌ {ℓ} : {A : Type ℓ} → Bool → A → A → A
if true then x else y = x
if false then x else y = y

pub ==_iff : (a b : ℕ) → ((a == b) ≡ true) ↔ (a ≡ b)
==_iff a b = ground arith

pub ==_ne : (a b : ℕ) → (a == b) ≡ false → a ≢ b
==_ne a b h = ground arith

pub ==_refl : (a : ℕ) → (a == a) ≡ true
==_refl a = ground arith

pub Bool-cases : (b : Bool) → (b ≡ true) ⊎ (b ≡ false)
Bool-cases true = inl refl
Bool-cases false = inr refl

pub Option-cases {ℓ} : {A : Type ℓ} (o : Option A) → (o ≡ none) ⊎ ((a : A) × (o ≡ some a))
Option-cases none = inl refl
Option-cases (some a) = inr (a, refl)

pub true-ne-false : true ≢ false
true-ne-false e = cc

-- Whether a test passes on each of `count` numbers from `first` on.
unfoldable pub passes : (test : ℕ → Bool) → ℕ → ℕ → Bool
passes test zero first = true
passes test (suc count) first =
    let later = passes test count (suc first) in if test first then later else false

pub passes-at :
    (test : ℕ → Bool) (count first n : ℕ)
    → first ≤ n
    → n < first + count
    → passes test count first ≡ true
    → test n ≡ true
unfolding passes
passes-at test zero first n le lt all_pass = absurd (omega arith)
passes-at test (suc count) first n le lt all_pass = elim (Bool-cases (first == n)) [
  | inl here ↦ rw (← (==_iff first n).0 here) (ground arith)
  | inr there ↦
      let ne = ==_ne first n there in
      passes-at test count (suc first) n (omega arith) (omega arith) (ground arith)
]

-- How often a handle is this one.
abbrev pub own : Option ℕ → ℕ → ℕ
own none h = 0
own (some x) h = if x == h then 1 else 0
