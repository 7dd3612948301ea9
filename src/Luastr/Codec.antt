-- ===== src/Luastr/Codec.antt =====
-- What `luastr_encode` and `luastr_decode` of src/c/luastr.c return, for every string library.
use aviutl_psdtoolkit.Base.{
  ℕ, suc, ◌+◌, false, not, [], ◌∷◌, ◌++◌, none, some, inl, inr, ◌==◌, Bool-cases, Option-cases,
  length, Chars, c_str, c_str-nul, c_str-HasNoNul, HasNoNul, HasNoNul-append, ◌>>=◌, Error, overrun,
  invalid_argument, certain-Meets, errors-Meets, ==_iff, ==_ne, unexpected, NoError, Only, Meets,
  pure-Meets, raise-Meets, if-Meets, weaken-Meets, >>=-Meets, Wstr, Ovstr, OvstrLaws, ◌≡◌, ◌≢◌, ◌⊎◌,
  refl, sym, ap, ◌∙◌, arith,
}
use aviutl_psdtoolkit.Buffer.{empty_buffer, put, grow}
use aviutl_psdtoolkit.Luastr.Encode.{escape_of, luastr_encode}
use aviutl_psdtoolkit.Buffer.{put-Meets, grow-Meets}
use aviutl_psdtoolkit.Luastr.Decode.{unescape_of, last_char, decode_loop, luastr_decode}
use aviutl_psdtoolkit.Luastr.Bounds.{
  escaped_char, escaped, quoted, unescaped, encode_loop-Meets, decode_loop-Meets,
}

last_char_next : (c d : ℕ) (ds : Chars) → last_char c (d ∷ ds) ≡ last_char d ds
unfolding last_char
last_char_next c d ds = refl

pub last_char-append : (c d : ℕ) (ds : Chars) → last_char c (ds ++ (d ∷ [])) ≡ d
unfolding last_char
last_char-append c d [] = refl
last_char-append c d (x ∷ ds) = last_char-append x d ds

module _ {W : Type 0} {E : Error → Type 0} (lib : Ovstr W) (laws : OvstrLaws lib E) where
  -- luastr_encode ends in no error that the string library does not end in, so it never writes
  -- outside its buffer, and a returned text is the quoted source up to its first NUL.
  pub luastr_encode-Meets :
      (src : Chars) (dest : Wstr)
      → Meets E (λ d. d ≡ c_str (quoted src)) (luastr_encode lib (some (some src)) (some dest))
  unfolding luastr_encode
  luastr_encode-Meets src dest =
      >>=-Meets
        (grow-Meets lib laws (length src + 3) (length src + 3) [] empty_buffer refl (omega arith))
        λ b h. >>=-Meets (put-Meets 0x22 (length src + 2) [] b (ground arith)) λ b1 h1.
          >>=-Meets (encode_loop-Meets lib laws src 2 (0x22 ∷ []) b1 h1) λ b2 h2.
            >>=-Meets (put-Meets 0x22 1 (0x22 ∷ escaped src) b2 h2) λ b3 h3.
              >>=-Meets (put-Meets 0 0 (quoted src) b3 h3)
                λ b4 h4. rw h4.chars_are (rw (← c_str-nul (quoted src)) (laws.scpy_lem _))

  -- A string of two characters or more that is quoted at both ends decodes, within the buffer, to
  -- the unescaped characters between, up to the first NUL.
  pub luastr_decode-Meets :
      (d : ℕ) (ds : Chars) (dest : Wstr)
      → last_char d ds ≡ 0x22
      → Meets E
          (λ r. r ≡ c_str (unescaped (d ∷ ds)))
          (luastr_decode lib (some (some (0x22 ∷ d ∷ ds))) (some dest))
  unfolding luastr_decode
  luastr_decode-Meets d ds dest q =
      if-Meets (not (last_char 0x22 (d ∷ ds) == 0x22))
        (λ e. absurd (ground (arith, last_char_next 0x22 d ds)))
        λ _.
          >>=-Meets (grow-Meets lib laws _ (suc (length ds)) [] empty_buffer refl (omega arith))
            λ b h. >>=-Meets (decode_loop-Meets (d ∷ ds) (length ds) [] b (omega arith) h) λ b1 h1.
              >>=-Meets (put-Meets 0 0 (unescaped (d ∷ ds)) b1 h1)
                λ b2 h2. rw h2.chars_are (rw (← c_str-nul (unescaped (d ∷ ds))) (laws.scpy_lem _))

-- The letter behind the backslash leads back to the character.
unescape_of-escape_of : (c e : ℕ) → escape_of c ≡ some e → unescape_of e ≡ some c
unfolding escape_of unescape_of
unescape_of-escape_of c e h = ground arith

escape_of-backslash : (c : ℕ) → escape_of c ≡ none → (c == 0x5c) ≡ false
unfolding escape_of
escape_of-backslash c h = ground arith

concat_cons : (t : Chars) (q : ℕ) → (d : ℕ) × (rest : Chars) × (t ++ (q ∷ []) ≡ d ∷ rest)
concat_cons [] q = (q, [], refl)
concat_cons (x ∷ t) q = (x, t ++ (q ∷ []), refl)

unescaped_plain :
    (c d : ℕ) (rest : Chars)
    → (c == 0x5c) ≡ false
    → unescaped (c ∷ d ∷ rest) ≡ c ∷ unescaped (d ∷ rest)
unfolding unescaped
unescaped_plain c d rest h = rw h

unescaped_escape :
    (c e : ℕ) (rest : Chars)
    → unescape_of e ≡ some c
    → unescaped (0x5c ∷ e ∷ rest) ≡ c ∷ unescaped rest
unfolding unescaped
unescaped_escape c e rest h = rw h

pub escaped_plain : (c : ℕ) (cs : Chars) → escape_of c ≡ none → escaped (c ∷ cs) ≡ c ∷ escaped cs
unfolding escaped escaped_char
escaped_plain c cs h = rw h

pub escaped_escape :
    (c e : ℕ) (cs : Chars) → escape_of c ≡ some e → escaped (c ∷ cs) ≡ 0x5c ∷ e ∷ escaped cs
unfolding escaped escaped_char
escaped_escape c e cs h = rw h

last_of_quoted : (d : ℕ) (rest t : Chars) → t ++ (0x22 ∷ []) ≡ d ∷ rest → last_char d rest ≡ 0x22
last_of_quoted d rest t e =
    sym (last_char_next 0x22 d rest) ∙ rw (← e) (last_char-append 0x22 0x22 t)

-- Unescaping what stands between the quotes of an encoded string gives the string back.
pub unescaped-escaped : (s : Chars) → unescaped (escaped s ++ (0x22 ∷ [])) ≡ s
unescaped-escaped [] = unfold unescaped escaped in refl
unescaped-escaped (c ∷ cs) = elim (Option-cases (escape_of c)) [
  | inl plain ↦
      let (d, rest, e) = concat_cons (escaped cs) 0x22 in
      rw (escaped_plain c cs plain, e, unescaped_plain c d rest (escape_of-backslash c plain), ← e)
        (ap (◌∷◌ c) (unescaped-escaped cs))
  | inr (e, some_e) ↦
      rw (escaped_escape c e cs some_e, unescaped_escape c e _ (unescape_of-escape_of c e some_e))
        (ap (◌∷◌ c) (unescaped-escaped cs))
]

escape_of-ne-nul : (c e : ℕ) → escape_of c ≡ some e → e ≢ 0
unfolding escape_of
escape_of-ne-nul c e h = ground arith

escaped-HasNoNul : (s : Chars) → HasNoNul s → HasNoNul (escaped s)
escaped-HasNoNul [] h = unfold escaped in tt
escaped-HasNoNul (c ∷ cs) h = elim (Option-cases (escape_of c)) [
  | inl plain ↦ rw (escaped_plain c cs plain) (h.0, escaped-HasNoNul cs h.1)
  | inr (e, some_e) ↦
      rw (escaped_escape c e cs some_e)
        (omega arith, (escape_of-ne-nul c e some_e, escaped-HasNoNul cs h.1))
]

pub quoted-HasNoNul : (s : Chars) → HasNoNul s → HasNoNul (quoted s)
quoted-HasNoNul s h =
    (omega arith, HasNoNul-append (escaped s) (0x22 ∷ []) (escaped-HasNoNul s h) (omega arith))

module _ {W : Type 0} {E : Error → Type 0} (lib : Ovstr W) (laws : OvstrLaws lib E) where
  pub luastr_decode-quoted :
      (src : Chars) (dest : Wstr)
      → HasNoNul src
      → Meets E (λ r. r ≡ src) (luastr_decode lib (some (some (quoted src))) (some dest))
  luastr_decode-quoted src dest h =
      let (d, rest, e) = concat_cons (escaped src) 0x22 in
      rw (e) (
        weaken-Meets
          (luastr_decode-Meets lib laws d rest dest (last_of_quoted d rest (escaped src) e))
          (λ r hr. hr ∙ rw (← e, unescaped-escaped src) (c_str-HasNoNul src h)))

  -- For a source with no NUL in it, encoding it and decoding the result gives the source back, and
  -- neither ends in an error that the string library does not end in (so neither writes outside
  -- its buffer).
  pub luastr_decode-encode :
      (src : Chars) (dest dest2 : Wstr)
      → HasNoNul src
      → Meets E
          (λ r. r ≡ src)
          (luastr_encode lib (some (some src)) (some dest) >>= λ q.
            luastr_decode lib (some (some q)) (some dest2))
  luastr_decode-encode src dest dest2 h = >>=-Meets (luastr_encode-Meets lib laws src dest) λ q hq.
      rw (hq, c_str-HasNoNul (quoted src) (quoted-HasNoNul src h))
        (luastr_decode-quoted src dest2 h)

-- When and how the decoder fails: an empty string is refused, a string not quoted at both ends is
-- `unexpected`, and a lone quote makes it write outside its empty buffer.
abbrev pub DecodeError : Chars → Error → Type 0
DecodeError [] e = e ≡ invalid_argument
DecodeError (c ∷ []) e = ((c ≡ 0x22) × (e ≡ overrun)) ⊎ ((c ≢ 0x22) × (e ≡ unexpected))
DecodeError (c ∷ d ∷ ds) e = ((c ≢ 0x22) ⊎ (last_char d ds ≢ 0x22)) × (e ≡ unexpected)

abbrev pub Decoded : Chars → Chars → Type 0
Decoded [] r = ⊥
Decoded (c ∷ []) r = ⊥
Decoded (c ∷ d ∷ ds) r = (c ≡ 0x22) × (last_char d ds ≡ 0x22) × (r ≡ c_str (unescaped (d ∷ ds)))

module _ {W : Type 0} (lib : Ovstr W) (laws : OvstrLaws lib NoError) where
  lone_quote :
      (dest : Wstr)
      → Meets (Only overrun) (λ _. ⊥) (luastr_decode lib (some (some (0x22 ∷ []))) (some dest))
  unfolding luastr_decode decode_loop put grow last_char
  lone_quote dest =
      >>=-Meets
        (>>=-Meets (certain-Meets (laws.sgrow_lem 0))
          λ _ _. pure-Meets {P = λ b. b ≡ empty_buffer} _ refl)
        λ b hb.
          >>=-Meets {P = λ b. b ≡ empty_buffer} (pure-Meets b hb)
            λ b2 hb2. rw hb2 (>>=-Meets {P = λ _. ⊥} (raise-Meets overrun refl) λ _ h. absurd h)

  ends_open :
      (d : ℕ) (ds : Chars) (dest : Wstr)
      → (last_char d ds == 0x22) ≡ false
      → Meets
          (DecodeError (0x22 ∷ d ∷ ds))
          (Decoded (0x22 ∷ d ∷ ds))
          (luastr_decode lib (some (some (0x22 ∷ d ∷ ds))) (some dest))
  unfolding luastr_decode
  ends_open d ds dest h =
      rw (last_char_next, h) (raise-Meets unexpected (inr (==_ne _ 0x22 h), refl))

  -- With a string library that never fails: decoding an empty source is refused as invalid, a
  -- source of two characters or more that is quoted at both ends decodes to its unescaped content
  -- up to the first NUL, a source not quoted at both ends is unexpected, and a lone quote writes
  -- outside the buffer.
  pub luastr_decode_outcome :
      (src : Chars) (dest : Wstr)
      → Meets (DecodeError src) (Decoded src) (luastr_decode lib (some (some src)) (some dest))
  luastr_decode_outcome [] dest = unfold luastr_decode in raise-Meets invalid_argument refl
  luastr_decode_outcome (c ∷ []) dest = elim (Bool-cases (c == 0x22)) [
    | inl quote ↦
        rw ((==_iff c 0x22).0 quote) (errors-Meets (λ e h. inl (refl, h)) (lone_quote dest))
    | inr other ↦
        unfold luastr_decode in rw other (raise-Meets unexpected (inr (==_ne c 0x22 other, refl)))
  ]
  luastr_decode_outcome (c ∷ d ∷ ds) dest = elim (Bool-cases (c == 0x22)) [
    | inr other ↦
        unfold luastr_decode in rw other (raise-Meets unexpected (inl (==_ne c 0x22 other), refl))
    | inl quote ↦ rw ((==_iff c 0x22).0 quote) (elim (Bool-cases (last_char d ds == 0x22)) [
      | inr unclosed ↦ ends_open d ds dest unclosed
      | inl closed ↦
          weaken-Meets
            (certain-Meets (luastr_decode-Meets lib laws d ds dest ((==_iff _ 0x22).0 closed)))
            λ r h. (refl, (==_iff _ 0x22).0 closed, h)
    ])
  ]
