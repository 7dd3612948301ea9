-- ===== src/Aviutl/Version.antt =====
-- `atou32` and the two checks of versions in src/c/aviutl.c.
use aviutl_psdtoolkit.Base.{
  ℕ, ◌+◌, ◌-◌, ◌*◌, ◌%◌, ◌^◌, ◌&&◌, ◌||◌, [], ◌∷◌, Option, none, some, ltb, leb, ◌==◌,
  if◌then◌else◌, length, drop, Chars, codes, M, pure, raise, ptk, overrun,
}

-- The loop of `atou32`: the number so far, and how many characters it has.
unfoldable pub atou32_loop : ℕ → ℕ → Chars → ℕ × ℕ
atou32_loop r i [] = (r, i)
atou32_loop r i (c ∷ s) =
    let rest = atou32_loop ((r * 10 + (c - b'0')) % 2 ^ 64) (i + 1) s in
    if c == 0 then (r, i) else if leb 10 i || (ltb c b'0' || ltb b'9' c) then (r, i) else rest

-- The number and its length. None stands for the return value 0.
unfoldable pub atou32 : Chars → Option (ℕ × ℕ)
atou32 s =
    let (r, i) = atou32_loop 0 0 s in if i == 0 || ltb 0xffffffff r then none else some (r, i)

-- What follows a prefix.
unfoldable pub after_prefix : Chars → Chars → Option Chars
after_prefix [] s = some s
after_prefix (t ∷ ts) [] = none
after_prefix (t ∷ ts) (c ∷ s) = let rest = after_prefix ts s in if t == c then rest else none

-- `strstr(s, token) + strlen(token)`
unfoldable pub behind_token : Chars → Chars → Option Chars
behind_token token [] = after_prefix token []
behind_token token (c ∷ s) =
    let later = behind_token token s in
    elim (after_prefix token (c ∷ s)) [
      | some rest ↦ some rest
      | none ↦ if c == 0 then none else later
    ]

abbrev pub version_token : Chars
version_token = codes " version "

module _ {W : Type 0} where
  abbrev unsupported : {A : Type 0} → M W A
  unsupported = raise (ptk 106)

  unfoldable pub check_minor : ℕ → Option (ℕ × ℕ) → M W (Unit {0})
  check_minor major none = unsupported
  check_minor major (some (minor, len)) =
      if major == 0 && ltb minor 92 then unsupported else pure tt

  -- The dot is skipped unseen. With no character there, the next one is beyond the end of the text.
  unfoldable pub check_major : Chars → Option (ℕ × ℕ) → M W (Unit {0})
  check_major verstr none = unsupported
  check_major verstr (some (major, len)) =
      if ltb len (length verstr)
      then check_minor major (atou32 (drop (len + 1) verstr))
      else raise overrun

  unfoldable pub check_version : Option Chars → M W (Unit {0})
  check_version none = unsupported
  check_version (some verstr) = check_major verstr (atou32 verstr)

  -- `verify_exedit_version`, on the filter's information.
  unfoldable pub verify_exedit_version : Chars → M W (Unit {0})
  verify_exedit_version information = check_version (behind_token version_token information)
