-- ===== src/Luastr/Bounds.antt =====
-- The texts with which the two loops of src/c/luastr.c fill their buffers.
use aviutl_psdtoolkit.Base.{
  ℕ, suc, ◌+◌, ◌≤◌, not, [], ◌∷◌, ◌++◌, Option, none, some, inl, inr, ◌==◌, if◌then◌else◌,
  Bool-cases, Option-cases, length, append-nil, append_assoc, Chars, Error, Meets, pure-Meets,
  >>=-Meets, Ovstr, OvstrLaws, arith,
}
use aviutl_psdtoolkit.Buffer.{Buffer, Holds, put-Meets, put-then, grow-Meets}
use aviutl_psdtoolkit.Luastr.Encode.{escape_of, encode_char, encode_loop}
use aviutl_psdtoolkit.Luastr.Decode.{unescape_of, decode_loop}

-- The characters that stand for one.
unfoldable pub escaped_char : Option ℕ → ℕ → Chars
escaped_char none c = c ∷ []
escaped_char (some e) c = 0x5c ∷ e ∷ []

unfoldable pub escaped : Chars → Chars
escaped [] = []
escaped (c ∷ cs) = escaped_char (escape_of c) c ++ escaped cs

abbrev pub quoted : Chars → Chars
quoted s = 0x22 ∷ (escaped s ++ (0x22 ∷ []))

-- What the loop of `luastr_decode` makes of the characters between the quotes and the last quote.
unfoldable pub unescaped : Chars → Chars
unescaped [] = []
unescaped (c ∷ []) = []
unescaped (c ∷ d ∷ rest) =
    let plain = c ∷ unescaped (d ∷ rest) in
    let kept = 0x5c ∷ unescaped (d ∷ rest) in
    let taken = λ (v : ℕ). v ∷ unescaped rest in
    if not (c == 0x5c) then plain else elim (unescape_of d) [ none ↦ kept | some v ↦ taken v ]

module _ {W : Type 0} {E : Error → Type 0} where
  module _ (lib : Ovstr W) (laws : OvstrLaws lib E) where
    pub encode_char-Meets :
        (o : Option ℕ) (c n : ℕ) (s : Chars) (b : Buffer)
        → Holds s (suc n) b
        → Meets E (Holds (s ++ escaped_char o c) n) (encode_char lib o c b)
    unfolding encode_char escaped_char
    encode_char-Meets none c n s b h = put-Meets c n s b h
    encode_char-Meets (some e) c n s b h =
        >>=-Meets
          (grow-Meets lib laws (b.cap + 1) (suc (suc n)) s b h.chars_are (ground (arith, h.room)))
          (λ b1 h1.
            >>=-Meets (put-Meets 0x5c (suc n) s b1 h1)
              (λ b2 h2. rw (← append_assoc s (0x5c ∷ []) (e ∷ [])) (put-Meets e n _ b2 h2)))

    pub encode_loop-Meets :
        (cs : Chars) (n : ℕ) (s : Chars) (b : Buffer)
        → Holds s (length cs + n) b
        → Meets E (Holds (s ++ escaped cs) n) (encode_loop lib cs b)
    unfolding encode_loop escaped
    encode_loop-Meets [] n s b h = pure-Meets b (rw append-nil (ground arith))
    encode_loop-Meets (c ∷ cs) n s b h =
        >>=-Meets (encode_char-Meets (escape_of c) c (length cs + n) s b (ground arith)) (λ b1 h1.
          rw (← append_assoc s (escaped_char (escape_of c) c) (escaped cs))
            (encode_loop-Meets cs n _ b1 h1))

  pub decode_loop-Meets :
      (cs : Chars) (n : ℕ) (s : Chars) (b : Buffer)
      → length cs ≤ suc n
      → Holds s (suc n) b
      → Meets {W = W} E (Holds (s ++ unescaped cs) 1) (decode_loop cs b)
  unfolding decode_loop unescaped
  decode_loop-Meets [] n s b k h = pure-Meets b (rw append-nil (ground arith))
  decode_loop-Meets (c ∷ []) n s b k h = pure-Meets b (rw append-nil (ground arith))
  decode_loop-Meets (c ∷ d ∷ rest) n s b k h =
      let h' : Holds s (suc (suc (length rest))) b = ground arith in
      let step = λ (v : ℕ).
        put-then v (suc (length rest)) 1 s (unescaped (d ∷ rest)) b (decode_loop (d ∷ rest)) h'
          (λ b1 h1.
            decode_loop-Meets (d ∷ rest) (length rest) (s ++ (v ∷ [])) b1 (omega arith) h1) in
      elim (Bool-cases (c == 0x5c)) [
        | inr plain ↦ rw plain (step c)
        | inl slash ↦ rw slash (elim (Option-cases (unescape_of d)) [
          | inl kept ↦ rw kept (step 0x5c)
          | inr (v, taken) ↦ rw taken (
              put-then v (suc (length rest)) 1 s (unescaped rest) b (decode_loop rest) h'
                (λ b1 h1. decode_loop-Meets rest (length rest) (s ++ (v ∷ [])) b1 (omega arith) h1))
        ])
      ]
