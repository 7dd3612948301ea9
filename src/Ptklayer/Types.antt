-- ===== src/Ptklayer/Types.antt =====
-- `struct ptklayer` of src/c/ptklayer.h, the C library's searches in a wide string, and the
-- functions of ovbase's utilities that src/c/ptklayer.c calls.
use aviutl_psdtoolkit.Base.{
  ℕ, zero, suc, Bool, true, false, List, [], ◌∷◌, Option, none, some, ◌==◌, if◌then◌else◌, Chars, M,
  Wstr, Error, Meets, ◌≡◌,
}

pub record Item : Type 0 where
  pub name : Chars
  pub value : Chars

pub record Ptklayer : Type 0 where
  pub items : List Item
  pub slider_name : Wstr
  pub file_path : Wstr

abbrev pub empty_layer : Ptklayer
empty_layer = record { items = []; slider_name = none; file_path = none }

-- What is left of a layer.
unfoldable pub ptklayer_free : Ptklayer → Ptklayer
ptklayer_free pi = empty_layer

-- `is_faview`: a pointer that is not null, to a layer with a slider name.
unfoldable pub is_faview : Ptklayer → Bool
is_faview pi = elim pi.slider_name [ none ↦ false | some _ ↦ true ]

unfoldable pub later : Option ℕ → Bool → Option ℕ
later none true = some 0
later none false = none
later (some i) b = some (suc i)

-- `wcsrchr(s, ch)`: the index of the last `ch` before the first NUL.
unfoldable pub wcsrchr : Chars → ℕ → Option ℕ
unfolding later
wcsrchr [] ch = none
wcsrchr (c ∷ cs) ch = if c == 0 then none else later (wcsrchr cs ch) (c == ch)

unfoldable pub sooner : Bool → Option ℕ → Option ℕ
sooner true o = some 0
sooner false none = none
sooner false (some i) = some (suc i)

-- `wcschr(s, ch)`: the index of the first.
unfoldable pub wcschr : Chars → ℕ → Option ℕ
unfolding sooner
wcschr [] ch = none
wcschr (c ∷ cs) ch = if c == 0 then none else sooner (c == ch) (wcschr cs ch)

-- `wcsncmp(a, b, n) == 0`
unfoldable pub wcsncmp_eq : Chars → Chars → ℕ → Bool
wcsncmp_eq a b zero = true
wcsncmp_eq [] [] (suc n) = true
wcsncmp_eq [] (d ∷ b) (suc n) = d == 0
wcsncmp_eq (c ∷ a) [] (suc n) = c == 0
wcsncmp_eq (c ∷ a) (d ∷ b) (suc n) =
    let rest = wcsncmp_eq a b n in if c == d then (if c == 0 then true else rest) else false

-- The character set conversions.
pub record Convert (W : Type 0) : Type 0 where
  pub from_utf8 : Chars → M W Chars

-- A conversion that succeeds gives what `wide` says.
pub record ConvertLaws {W : Type 0} (conv : Convert W) (wide : Chars → Chars) (E : Error → Type 0)
    : Type 0 where
  pub from_utf8_lem : (s : Chars) → Meets E (λ d. d ≡ wide s) (conv.from_utf8 s)
