-- ===== src/Ptklayer/Percent.antt =====
-- Percent encoding, and `percent_decode` of src/c/ptklayer.c.
use Prim.Native.Nat.{bit_or}
use aviutl_psdtoolkit.Base.{
  ℕ, suc, Bool, HasNoNul, passes, passes-at, ==_iff, true-ne-false, ◌+◌, ◌*◌, ◌/◌, ◌%◌, ◌<◌, true,
  false, not, ◌||◌, [], ◌∷◌, ◌++◌, inl, inr, ltb, ◌==◌, if◌then◌else◌, Bool-cases, length,
  append-nil, Chars, Error, Meets, pure-Meets, >>=-Meets, weaken-Meets, Ovstr, OvstrLaws, ◌≡◌, ◌≢◌,
  refl, sym, ap, ◌∙◌, arith,
}
use aviutl_psdtoolkit.Buffer.{
  Buffer, empty_buffer, Holds, Holds-le, put-Meets, put-then, grow-Meets,
}
use aviutl_psdtoolkit.Ptklayer.Names.{hex2int, percent_loop, percent_decode}

-- The text that the loop writes.
unfoldable pub percent_decoded : Chars → Chars
percent_decoded [] = []
percent_decoded (c ∷ []) = c ∷ []
percent_decoded (c ∷ h ∷ []) = c ∷ percent_decoded (h ∷ [])
percent_decoded (c ∷ h ∷ l ∷ rest) =
    let c1 = hex2int h in
    let c2 = hex2int l in
    let kept = c ∷ percent_decoded (h ∷ l ∷ rest) in
    let decoded = bit_or (c1 * 16) c2 ∷ percent_decoded rest in
    let skipped = percent_decoded rest in
    if not (c == b'%')
    then kept
    else if c1 == 255 || c2 == 255
    then kept
    else if ltb 0 (c1 + c2)
    then decoded
    else skipped

module _ {W : Type 0} {E : Error → Type 0} where
  percent_loop-Meets :
      (src s : Chars) (b : Buffer)
      → Holds s (suc (length src)) b
      → Meets {W = W} E (Holds (s ++ percent_decoded src) 1) (percent_loop src b)
  unfolding percent_loop percent_decoded
  percent_loop-Meets [] s b h = pure-Meets b (rw append-nil h)
  percent_loop-Meets (c ∷ []) s b h = put-Meets c 1 s b h
  percent_loop-Meets (c ∷ h ∷ []) s b k =
      put-then c 2 1 s (h ∷ []) b _ k (λ b1 h1. percent_loop-Meets (h ∷ []) (s ++ (c ∷ [])) b1 h1)
  percent_loop-Meets (c ∷ h ∷ l ∷ rest) s b k =
      let n = length rest in
      let kept =
        put-then c (suc (suc (suc n))) 1 s (percent_decoded (h ∷ l ∷ rest)) b
          (percent_loop (h ∷ l ∷ rest)) k
          (λ b1 h1. percent_loop-Meets (h ∷ l ∷ rest) (s ++ (c ∷ [])) b1 h1) in
      let less = λ (v : ℕ).
        put-then v (suc n) 1 s (percent_decoded rest) b (percent_loop rest)
          (Holds-le _ _ s b (omega arith) k)
          (λ b1 h1. percent_loop-Meets rest (s ++ (v ∷ [])) b1 h1) in
      elim (Bool-cases (c == b'%')) [
        | inr plain ↦ rw plain kept
        | inl percent ↦ rw percent (elim (Bool-cases (hex2int h == 255 || hex2int l == 255)) [
          | inl bad ↦ rw bad kept
          | inr good ↦ rw good (elim (Bool-cases (ltb 0 (hex2int h + hex2int l))) [
            | inl some_char ↦ rw some_char (less (bit_or (hex2int h * 16) (hex2int l)))
            | inr nul ↦ rw nul (percent_loop-Meets rest s b (Holds-le _ _ s b (omega arith) k))
          ])
        ])
      ]

  -- A decoded name fits in the buffer.
  pub percent_decode-Meets :
      (lib : Ovstr W) (laws : OvstrLaws lib E) (src : Chars)
      → Meets E (λ d. d ≡ percent_decoded src) (percent_decode lib src)
  unfolding percent_decode
  percent_decode-Meets lib laws src =
      >>=-Meets
        (grow-Meets lib laws (length src + 1) (suc (length src)) [] empty_buffer refl (omega arith))
        λ b h. >>=-Meets (percent_loop-Meets src [] b h) λ b1 h1.
          >>=-Meets (put-Meets 0 0 (percent_decoded src) b1 h1)
            λ _ _. pure-Meets b1.chars h1.chars_are

-- A digit of a hexadecimal number, in lower case.
unfoldable pub hex_digit : ℕ → ℕ
hex_digit d = if ltb d 10 then b'0' + d else 87 + d

-- The encoding: the characters that `esc` picks become a percent sign and two digits.
unfoldable pub percent_encoded : (ℕ → Bool) → Chars → Chars
percent_encoded esc [] = []
percent_encoded esc (c ∷ s) =
    (if esc c then b'%' ∷ hex_digit (c / 16) ∷ hex_digit (c % 16) ∷ [] else c ∷ [])
    ++ percent_encoded esc s

digits_return : passes (λ d. hex2int (hex_digit d) == d) 16 0 ≡ true
unfolding passes hex2int hex_digit
digits_return = refl

hex2int-hex_digit : (d : ℕ) → d < 16 → hex2int (hex_digit d) ≡ d
hex2int-hex_digit d h =
    (==_iff _ d).0 (passes-at _ 16 0 d (omega arith) (omega arith) digits_return)

bytes_return : passes (λ c. bit_or (c / 16 * 16) (c % 16) == c) 256 0 ≡ true
unfolding passes
bytes_return = refl

join_digits : (c : ℕ) → c < 256 → bit_or (c / 16 * 16) (c % 16) ≡ c
join_digits c h = (==_iff _ c).0 (passes-at _ 256 0 c (omega arith) (omega arith) bytes_return)

decoded_plain :
    (c : ℕ) (rest : Chars)
    → (c == b'%') ≡ false
    → percent_decoded (c ∷ rest) ≡ c ∷ percent_decoded rest
unfolding percent_decoded
decoded_plain c [] h = refl
decoded_plain c (d ∷ []) h = refl
decoded_plain c (d ∷ e ∷ rest) h = rw h

decoded_pair :
    (c : ℕ) (rest : Chars)
    → c < 256
    → c ≢ 0
    → percent_decoded (b'%' ∷ hex_digit (c / 16) ∷ hex_digit (c % 16) ∷ rest)
      ≡ c ∷ percent_decoded rest
unfolding percent_decoded
decoded_pair c rest h k =
    rw
      (
        hex2int-hex_digit (c / 16) (omega arith),
        hex2int-hex_digit (c % 16) (omega arith),
        join_digits c h,
      )
      (ground arith)

module _ (esc : ℕ → Bool) (percent : esc b'%' ≡ true)
    (small : (c : ℕ) → esc c ≡ true → c < 256) where
  not_percent : (c : ℕ) → esc c ≡ false → (c == b'%') ≡ false
  not_percent c h = elim (Bool-cases (c == b'%')) [
    | inr e ↦ e
    | inl e ↦ absurd (true-ne-false (sym percent ∙ ap esc (sym ((==_iff c b'%').0 e)) ∙ h))
  ]

  percent_decoded-encoded : (s : Chars) → HasNoNul s → percent_decoded (percent_encoded esc s) ≡ s
  unfolding percent_encoded
  percent_decoded-encoded [] h = unfold percent_decoded in refl
  percent_decoded-encoded (c ∷ s) h = elim (Bool-cases (esc c)) [
    | inl hit ↦
        rw hit (decoded_pair c _ (small c hit) h.0 ∙ ap (◌∷◌ c) (percent_decoded-encoded s h.1))
    | inr miss ↦
        rw miss
          (decoded_plain c _ (not_percent c miss) ∙ ap (◌∷◌ c) (percent_decoded-encoded s h.1))
  ]

  module _ {W : Type 0} {E : Error → Type 0} (lib : Ovstr W) (laws : OvstrLaws lib E) where
    -- For any set of characters below 256 that a renderer escapes, the percent sign among them:
    -- percent_decode of an encoded name without NUL gives the name back, or an error of the string
    -- library, and does not write outside its buffer.
    pub percent_decode-encoded :
        (s : Chars) → HasNoNul s → Meets E (λ d. d ≡ s) (percent_decode lib (percent_encoded esc s))
    percent_decode-encoded s h =
        weaken-Meets (percent_decode-Meets lib laws _) (λ d e. e ∙ percent_decoded-encoded s h)
