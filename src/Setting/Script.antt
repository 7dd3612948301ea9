-- ===== src/Setting/Script.antt =====
-- What Lua makes of a file of settings as src/c/setting.c writes it: a table, assignments of numbers
-- and of texts to its fields, and the table as the result.
use aviutl_psdtoolkit.Base.{
  ℕ, ◌≤◌, false, List, [], ◌∷◌, ◌++◌, Option, none, some, ◌==◌, if◌then◌else◌, same_text, All,
  Chars, codes, ◌≢◌, ◌≡◌, refl, ap, arith,
}
use aviutl_psdtoolkit.Setting.Props.{Value, int, word}

abbrev longer : ℕ → List Chars → List Chars
longer c [] = (c ∷ []) ∷ []
longer c (l ∷ ls) = (c ∷ l) ∷ ls

-- A line ends with LF; a CR is blank.
abbrev pub lines_of : Chars → List Chars
lines_of [] = []
lines_of (c ∷ s) =
    let rest = lines_of s in if c == 10 then [] ∷ rest else if c == 13 then rest else longer c rest

-- What stands in front of the first `c`, and behind it.
abbrev pub before : ℕ → Chars → Chars
before c [] = []
before c (d ∷ s) = let rest = before c s in if d == c then [] else d ∷ rest

abbrev pub behind : ℕ → Chars → Chars
behind c [] = []
behind c (d ∷ s) = let rest = behind c s in if d == c then s else rest

-- What follows the text `t`.
abbrev pub following : Chars → Chars → Option Chars
following [] s = some s
following (c ∷ t) [] = none
following (c ∷ t) (d ∷ s) = let rest = following t s in if c == d then rest else none

-- A field of the table is a function of its name.
abbrev pub Fields : Type 0
Fields = Chars → Option Value

abbrev pub with_field : Chars → Value → Fields → Fields
with_field name v fields x = if same_text name x then some v else fields x

-- `numeral` reads a number of Lua as 32 bits.
module _ (numeral : Chars → ℕ) where
  -- A text in quotes, without escapes, or a number.
  abbrev pub value_of : Chars → Value
  value_of [] = int (numeral [])
  value_of (c ∷ s) = if c == b'"' then word (before b'"' s) else int (numeral (c ∷ s))

  abbrev named : Chars → Option Chars → Option (Chars × Value)
  named name none = none
  named name (some v) = some (name, value_of v)

  abbrev behind_dot : Option Chars → Option (Chars × Value)
  behind_dot none = none
  behind_dot (some s) = named (before b' ' s) (following (codes "= ") (behind b' ' s))

  -- `P.name = value`
  abbrev pub assignment : Chars → Option (Chars × Value)
  assignment line = behind_dot (following (codes "P.") line)

  -- The lines up to `return P`, on the fields so far; none if a line is not of these forms.
  abbrev pub execute : List Chars → Fields → Option Fields
  execute [] fields = none
  execute (line ∷ lines) fields =
      if same_text line (codes "return P") then some fields else elim (assignment line) [
        | none ↦ none
        | some (name, v) ↦ execute lines (with_field name v fields)
      ]

  abbrev pub run_lines : List Chars → Option Fields
  run_lines [] = none
  run_lines (line ∷ lines) =
      if same_text line (codes "local P = {}") then execute lines (λ name. none) else none

  -- The table that the file returns.
  abbrev pub run_script : Chars → Option Fields
  run_script text = run_lines (lines_of text)

-- No blank, no end of a line, no NUL and no quote.
abbrev pub IsBare : Chars → Type 0
IsBare = All (λ c. 35 ≤ c)

abbrev pub IsLine : Chars → Type 0
IsLine = All (λ c. (c ≢ 10) × (c ≢ 13))

pub IsBare-IsLine : (s : Chars) → IsBare s → IsLine s
IsBare-IsLine [] h = tt
IsBare-IsLine (c ∷ s) h = ((omega (arith, h.0), omega (arith, h.0)), IsBare-IsLine s h.1)

pub lines_of-line : (l s : Chars) → IsLine l → lines_of (l ++ (13 ∷ 10 ∷ s)) ≡ l ∷ lines_of s
lines_of-line [] s h = refl
lines_of-line (c ∷ l) s h = rw (lines_of-line l s h.1) (ground (arith, h.0))

pub before-bare : (c : ℕ) (s t : Chars) → All (λ d. d ≢ c) s → before c (s ++ (c ∷ t)) ≡ s
before-bare c [] t h = ground arith
before-bare c (d ∷ s) t h = rw (before-bare c s t h.1) (ground (arith, h.0))

pub behind-bare : (c : ℕ) (s t : Chars) → All (λ d. d ≢ c) s → behind c (s ++ (c ∷ t)) ≡ t
behind-bare c [] t h = ground arith
behind-bare c (d ∷ s) t h = rw (behind-bare c s t h.1) (ground (arith, h.0))

pub IsBare-without : (c : ℕ) (s : Chars) → c ≤ 34 → IsBare s → All (λ d. d ≢ c) s
IsBare-without c [] le h = tt
IsBare-without c (d ∷ s) le h = (omega (arith, h.0, le), IsBare-without c s le h.1)

module _ (numeral : Chars → ℕ) where
  pub value_of-bare : (s : Chars) → IsBare s → value_of numeral s ≡ int (numeral s)
  value_of-bare [] h = refl
  value_of-bare (c ∷ s) h = let e : (c == b'"') ≡ false = ground (arith, h.0) in rw e refl

  pub value_of-quoted :
      (s : Chars) → IsBare s → value_of numeral (codes "\"" ++ (s ++ codes "\"")) ≡ word s
  value_of-quoted s h = ap word (before-bare b'"' s [] (IsBare-without b'"' s (omega arith) h))

  pub assignment-line :
      (name value : Chars)
      → IsBare name
      → assignment numeral (codes "P." ++ (name ++ (codes " = " ++ value)))
        ≡ some (name, value_of numeral value)
  assignment-line name value h =
      let bare = IsBare-without b' ' name (omega arith) h in
      rw
        (
          before-bare b' ' name (codes "= " ++ value) bare,
          behind-bare b' ' name (codes "= " ++ value) bare,
        )
        refl
