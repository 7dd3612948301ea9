-- ===== src/Base/Lists.antt =====
-- Lists measured and indexed by native numbers, and NUL-terminated text.
use Prim.Native.Nat.{ℕ, zero, suc, ◌+◌}
use Prim.Native.Char.{code}
use Prim.Native.String.{String}
use mathlib.Core.Path.{◌≡◌, refl}
use mathlib.Core.Logic.{◌≢◌}
use mathlib.Core.List.{List, [], ◌∷◌, ◌++◌}
use mathlib.Core.Bool.{Bool, true, false}
use mathlib.Core.Option.{Option, none, some}
use native.Mathlib.Omega.{arith}
use aviutl_psdtoolkit.Base.Tests.{◌==◌, if◌then◌else◌}

module _ {ℓ} {A : Type ℓ} where
  abbrev pub length : List A → ℕ
  length [] = 0
  length (x ∷ xs) = suc (length xs)

  abbrev pub get_elem? : List A → ℕ → Option A
  get_elem? [] i = none
  get_elem? (x ∷ xs) zero = some x
  get_elem? (x ∷ xs) (suc i) = get_elem? xs i

  abbrev pub take : ℕ → List A → List A
  take zero xs = []
  take (suc n) [] = []
  take (suc n) (x ∷ xs) = x ∷ take n xs

  abbrev pub drop : ℕ → List A → List A
  drop zero xs = xs
  drop (suc n) [] = []
  drop (suc n) (x ∷ xs) = drop n xs

  abbrev pub get_or : List A → ℕ → A → A
  get_or [] i d = d
  get_or (x ∷ xs) zero d = x
  get_or (x ∷ xs) (suc i) d = get_or xs i d

  -- A write out of bounds changes nothing.
  abbrev pub set : List A → ℕ → A → List A
  set [] i v = []
  set (x ∷ xs) zero v = v ∷ xs
  set (x ∷ xs) (suc i) v = x ∷ set xs i v

  pub length-append : (xs ys : List A) → length (xs ++ ys) ≡ length xs + length ys
  length-append [] ys = omega arith
  length-append (x ∷ xs) ys = omega (arith, length-append xs ys)

  pub take-append-drop : (n : ℕ) (xs : List A) → take n xs ++ drop n xs ≡ xs
  take-append-drop zero xs = refl
  take-append-drop (suc n) [] = refl
  take-append-drop (suc n) (x ∷ xs) = rw (take-append-drop n xs)

  pub take-append : (xs ys : List A) → take (length xs) (xs ++ ys) ≡ xs
  take-append [] ys = refl
  take-append (x ∷ xs) ys = rw (take-append xs ys)

  pub drop-append : (xs ys : List A) → drop (length xs) (xs ++ ys) ≡ ys
  drop-append [] ys = refl
  drop-append (x ∷ xs) ys = drop-append xs ys

  pub get_or-append :
      (xs : List A) (y : A) (ys : List A) (d : A) → get_or (xs ++ (y ∷ ys)) (length xs) d ≡ y
  get_or-append [] y ys d = refl
  get_or-append (x ∷ xs) y ys d = get_or-append xs y ys d

  abbrev pub All : (A → Type 0) → List A → Type 0
  All P [] = Unit
  All P (x ∷ xs) = P x × All P xs

  pub All-append : (P : A → Type 0) (a b : List A) → All P a → All P b → All P (a ++ b)
  All-append P [] b h k = k
  All-append P (x ∷ a) b (h, l) k = (h, All-append P a b l k)

-- UTF-16 code units, or the bytes of a UTF-8 text.
abbrev pub Chars : Type 0
Chars = List ℕ

-- The code points of a literal.
abbrev pub codes : String → Chars
codes String.[] = []
codes (String.◌∷◌ c s) = code c ∷ codes s

-- What a NUL-terminated reader sees of a memory area.
abbrev pub c_str : Chars → Chars
c_str [] = []
c_str (c ∷ cs) = if c == 0 then [] else c ∷ c_str cs

abbrev pub HasNoNul : Chars → Type 0
HasNoNul = All (λ c. c ≢ 0)

pub c_str-HasNoNul : (s : Chars) → HasNoNul s → c_str s ≡ s
c_str-HasNoNul [] h = refl
c_str-HasNoNul (c ∷ cs) h = ground (arith, c_str-HasNoNul cs h.1)

pub c_str-append-nul : (s t : Chars) → HasNoNul s → c_str (s ++ (0 ∷ t)) ≡ s
c_str-append-nul [] t h = refl
c_str-append-nul (c ∷ cs) t h = ground (arith, c_str-append-nul cs t h.1)

pub c_str-nul : (s : Chars) → c_str (s ++ (0 ∷ [])) ≡ c_str s
c_str-nul [] = refl
c_str-nul (c ∷ cs) = ground (arith, c_str-nul cs)

pub HasNoNul-append : (s t : Chars) → HasNoNul s → HasNoNul t → HasNoNul (s ++ t)
HasNoNul-append [] t h k = k
HasNoNul-append (c ∷ cs) t h k = (h.0, HasNoNul-append cs t h.1 k)

-- `strcmp(a, b) == 0`
unfoldable pub same_text : Chars → Chars → Bool
same_text [] [] = true
same_text [] (d ∷ b) = d == 0
same_text (c ∷ a) [] = c == 0
same_text (c ∷ a) (d ∷ b) =
    let rest = same_text a b in if c == d then (if c == 0 then true else rest) else false

pub pair_eq : {a b c d : ℕ} → a ≡ b → c ≡ d → ◌≡◌ {A = ℕ × ℕ} (a, c) (b, d)
pair_eq e f = cc
