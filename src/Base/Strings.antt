-- ===== src/Base/Strings.antt =====
-- The string library that the plug-in is linked with (ovbase, a submodule), as an interface.
use Prim.Native.Nat.{ℕ, ◌+◌, ◌≤◌, ◌<◌}
use mathlib.Core.Path.{◌≡◌}
use mathlib.Core.List.{List, [], ◌∷◌, ◌++◌}
use mathlib.Core.Option.{Option, none, some}
use aviutl_psdtoolkit.Base.Lists.{Chars, HasNoNul, c_str, length, take, drop}
use aviutl_psdtoolkit.Base.Tests.{◌==◌, if◌then◌else◌}
use aviutl_psdtoolkit.Base.Effect.{Error, M, Meets}

-- `struct wstr` and `struct str`: a null pointer, or `len` characters with a NUL behind them.
abbrev pub Wstr : Type 0
Wstr = Option Chars

abbrev pub concat : List Chars → Chars
concat [] = []
concat (s ∷ ss) = c_str s ++ concat ss

-- A pointer argument of the C function is the memory that it points to, up to the last character
-- before the final NUL. What is returned is the new content of the destination. `apush` makes room
-- for one more element of a growing array.
pub record Ovstr (W : Type 0) : Type 0 where
  pub sgrow : ℕ → M W (Unit {0})
  pub apush : M W (Unit {0})
  pub scpy : Chars → M W Chars
  pub sncpy : Chars → ℕ → M W Chars
  pub scpym : List Chars → M W Chars
  pub scatm : Chars → List Chars → M W Chars
  pub sstr : Chars → Chars → M W (Option ℕ)
  pub sreplace_all : Chars → Chars → Chars → M W Chars

-- `t` stands in `s` at `p`.
abbrev pub OccursAt : Chars → Chars → ℕ → Type 0
OccursAt t s p = (p + length t ≤ length s) × (take (length t) (drop p s) ≡ t)

-- The position that a search reports is the first; none is reported only if there is none.
abbrev pub FirstAt : Chars → Chars → Option ℕ → Type 0
FirstAt t s none = (p : ℕ) → ¬ OccursAt t s p
FirstAt t s (some p) = OccursAt t s p × ((q : ℕ) → q < p → ¬ OccursAt t s q)

-- Every `c` replaced by `new`.
abbrev pub replace_char : ℕ → Chars → Chars → Chars
replace_char c new [] = []
replace_char c new (d ∷ s) = (if d == c then new else d ∷ []) ++ replace_char c new s

-- What the library documents, with `E` for the errors that its calls may end in.
pub record OvstrLaws {W : Type 0} (lib : Ovstr W) (E : Error → Type 0) : Type 0 where
  pub sgrow_lem : (n : ℕ) → Meets E (λ _. Unit {0}) (lib.sgrow n)
  pub apush_lem : Meets E (λ _. Unit {0}) lib.apush
  pub scpy_lem : (s : Chars) → Meets E (λ d. d ≡ c_str s) (lib.scpy s)
  pub sncpy_lem : (s : Chars) (n : ℕ) → Meets E (λ d. d ≡ take n s) (lib.sncpy s n)
  pub scpym_lem : (ss : List Chars) → Meets E (λ d. d ≡ concat ss) (lib.scpym ss)
  pub sstr_lem : (s t : Chars) → HasNoNul s → HasNoNul t → Meets E (FirstAt t s) (lib.sstr s t)
  pub scatm_lem : (s : Chars) (ss : List Chars) → Meets E (λ d. d ≡ s ++ concat ss) (lib.scatm s ss)
  pub sreplace_all_lem :
      (s : Chars) (c : ℕ) (new : Chars)
      → HasNoNul s
      → Meets E (λ d. d ≡ replace_char c new s) (lib.sreplace_all s (c ∷ []) new)
