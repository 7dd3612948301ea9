-- ===== src/Aviutl/Decimal.antt =====
-- What `atou32` of src/c/aviutl.c reads, against decimal numbers of any size.
use aviutl_psdtoolkit.Base.{
  pair_eq, ℕ, zero, suc, ◌+◌, ◌-◌, ◌*◌, ◌%◌, ◌^◌, ◌≤◌, ◌<◌, Bool-cases, ◌⊎◌, inl, inr, Bool, true,
  false, ◌&&◌, ◌||◌, [], ◌∷◌, Option, none, some, ltb, leb, ◌==◌, if◌then◌else◌, length, take,
  Chars, ◌≡◌, refl, ap, ◌∙◌, arith,
}
use aviutl_psdtoolkit.Aviutl.Version.{atou32_loop, atou32}

-- The digits at the start of a text.
unfoldable pub leading_digits : Chars → Chars
leading_digits [] = []
leading_digits (c ∷ s) =
    let rest = leading_digits s in if leb b'0' c && leb c b'9' then c ∷ rest else []

-- The number that is written, with `n` in front of it.
unfoldable pub decimal : ℕ → Chars → ℕ
decimal n [] = n
decimal n (c ∷ s) = decimal (n * 10 + (c - b'0')) s

-- The reference for `atou32`: the first ten digits, if they are the digits of a 32-bit number.
unfoldable pub read_u32 : Chars → Option (ℕ × ℕ)
read_u32 s =
    let digits = take 10 (leading_digits s) in
    if length digits == 0 || leb (2 ^ 32) (decimal 0 digits)
    then none
    else some (decimal 0 digits, length digits)

-- The numbers of `i` digits are below this.
unfoldable limit : ℕ → ℕ
limit zero = 1
limit (suc i) = 10 * limit i

limit-suc : (i : ℕ) → limit (suc i) ≡ 10 * limit i
unfolding limit
limit-suc i = refl

limit-pos : (i : ℕ) → 1 ≤ limit i
unfolding limit
limit-pos zero = omega arith
limit-pos (suc i) = omega (arith, limit-pos i)

limit_mono : (k i : ℕ) → limit i ≤ limit (k + i)
unfolding limit
limit_mono zero i = let same : 0 + i ≡ i = omega arith in omega (arith, ap limit same)
limit_mono (suc k) i =
    let same : suc k + i ≡ suc (k + i) = omega arith in
    omega (arith, limit_mono k i, ap limit same, limit-pos (k + i))

abbrev is_decimal : ℕ → Bool
is_decimal c = leb b'0' c && leb c b'9'

-- The loop ends here.
loop_stops :
    (r i c : ℕ) (s : Chars)
    → (leb 10 i ≡ true) ⊎ (is_decimal c ≡ false)
    → atou32_loop r i (c ∷ s) ≡ (r, i)
unfolding atou32_loop
loop_stops r i c s (inl e) = ground arith
loop_stops r i c s (inr e) = ground arith

limit-ten : (i : ℕ) → i ≤ 10 → limit i ≤ 10000000000
unfolding limit
limit-ten i le =
    let same : (10 - i) + i ≡ 10 = omega arith in
    let top : limit 10 ≡ 10000000000 = refl in
    omega (arith, limit_mono (10 - i) i, ap limit same, top)

is_decimal_bounds : (c : ℕ) → is_decimal c ≡ true → (48 ≤ c) × (c ≤ 57)
is_decimal_bounds c e = (ground arith, ground arith)

loop_goes_on :
    (r i c : ℕ) (s : Chars)
    → i < 10
    → is_decimal c ≡ true
    → r < limit i
    → atou32_loop r i (c ∷ s) ≡ atou32_loop (r * 10 + (c - b'0')) (i + 1) s
unfolding atou32_loop
loop_goes_on r i c s lt e below =
    let bounds = is_decimal_bounds c e in
    let c0 : (c == 0) ≡ false = ground (arith, bounds.0) in
    let i0 : leb 10 i ≡ false = ground (arith, lt) in
    let low : ltb c 48 ≡ false = ground (arith, bounds.0) in
    let high : ltb 57 c ≡ false = ground (arith, bounds.1) in
    let fits : (r * 10 + (c - 48)) % 18446744073709551616 ≡ r * 10 + (c - 48) =
      omega (arith, limit-ten i (omega arith), below, bounds.1) in
    rw (c0, i0, low, high, fits) refl

-- The loop on `k` digits more.
loop_digits :
    (k r i : ℕ) (s : Chars)
    → k + i ≡ 10
    → r < limit i
    → atou32_loop r i s
      ≡ (decimal r (take k (leading_digits s)), i + length (take k (leading_digits s)))
unfolding atou32_loop leading_digits decimal
loop_digits zero r i [] e lt = pair_eq refl (omega arith)
loop_digits (suc k) r i [] e lt = pair_eq refl (omega arith)
loop_digits zero r i (c ∷ s) e lt =
    loop_stops r i c s (inl (ground arith)) ∙ pair_eq refl (omega arith)
loop_digits (suc k) r i (c ∷ s) e lt = elim (Bool-cases (is_decimal c)) [
  | inl d ↦
      let bounds = is_decimal_bounds c d in
      let below : r * 10 + (c - 48) < limit (i + 1) =
        let same : i + 1 ≡ suc i = omega arith in
        let next = limit-suc i in omega (arith, lt, ap limit same, next, bounds.1) in
      rw (d) (
        loop_goes_on r i c s (omega arith) d lt
        ∙ loop_digits k (r * 10 + (c - 48)) (i + 1) s (omega arith) below
        ∙ pair_eq refl (omega arith))
  | inr d ↦ rw (d) (loop_stops r i c s (inr d) ∙ pair_eq refl (omega arith))
]

checked : ℕ × ℕ → Option (ℕ × ℕ)
checked (r, i) = if i == 0 || ltb 0xffffffff r then none else some (r, i)

same_limit : (n : ℕ) → ltb 0xffffffff n ≡ leb (2 ^ 32) n
same_limit n = ground arith

-- For every text, atou32 gives the value of its leading digits, of the first ten when there are
-- more, and their number, if there is a digit and the value, as a number of any size, is below
-- 2^32; otherwise it gives 0. So its 64-bit sum never wraps around.
pub atou32-read_u32 : (s : Chars) → atou32 s ≡ read_u32 s
unfolding atou32 read_u32 checked
atou32-read_u32 s =
    let digits = take 10 (leading_digits s) in
    let count : 0 + length digits ≡ length digits = omega arith in
    ap checked (loop_digits 10 0 0 s refl (limit-pos 0) ∙ pair_eq refl count)
    ∙ ap (λ b. if length digits == 0 || b then none else some (decimal 0 digits, length digits))
        (same_limit (decimal 0 digits))
