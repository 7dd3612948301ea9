-- ===== src/Luastr/Assign.antt =====
-- What the two searches of src/c/luastr.c find in the text of an object.
use aviutl_psdtoolkit.Base.{
  ℕ, ◌+◌, true, false, not, ◌&&◌, [], ◌∷◌, ◌++◌, none, some, inl, inr, ◌==◌, Option-cases, length,
  Chars, All, ◌≡◌, ◌≢◌, refl, ap, ◌∙◌, arith,
}
use aviutl_psdtoolkit.Luastr.Encode.{escape_of}
use aviutl_psdtoolkit.Luastr.Decode.{last_char}
use aviutl_psdtoolkit.Luastr.Bounds.{escaped}
use aviutl_psdtoolkit.Luastr.Codec.{escaped_plain, escaped_escape}
use aviutl_psdtoolkit.Luastr.Find.{find_close}

find_close_step :
    (prev c : ℕ) (cs : Chars) (i : ℕ)
    → (c == 0x22 && not (prev == 0x5c)) ≡ false
    → find_close prev (c ∷ cs) i ≡ find_close c cs (i + 1)
unfolding find_close
find_close_step prev c cs i h = rw h

find_close_hit :
    (prev : ℕ) (cs : Chars) (i : ℕ)
    → (prev == 0x5c) ≡ false
    → find_close prev (0x22 ∷ cs) i ≡ some i
unfolding find_close
find_close_hit prev cs i h = rw h

plain_step : (prev c : ℕ) → escape_of c ≡ none → (c == 0x22 && not (prev == 0x5c)) ≡ false
unfolding escape_of
plain_step prev c h = ground arith

escaped_step :
    (prev : ℕ) → (prev == 0x5c) ≡ true → (c : ℕ) → (c == 0x22 && not (prev == 0x5c)) ≡ false
escaped_step prev h c = rw h (ground arith)

-- No quote in an encoded string ends the search: the loop goes on behind it.
find_close-escaped :
    (s rest : Chars) (prev i : ℕ)
    → find_close prev (escaped s ++ rest) i
      ≡ find_close (last_char prev (escaped s)) rest (i + length (escaped s))
unfolding last_char
find_close-escaped [] rest prev i = unfold escaped in ap (find_close prev rest) (omega arith)
find_close-escaped (c ∷ cs) rest prev i = elim (Option-cases (escape_of c)) [
  | inl plain ↦ rw (escaped_plain c cs plain) (
      find_close_step prev c _ i (plain_step prev c plain)
      ∙ find_close-escaped cs rest c (i + 1)
      ∙ ap (find_close _ rest) (omega arith))
  | inr (e, some_e) ↦ rw (escaped_escape c e cs some_e) (
      find_close_step prev 0x5c _ i (ground arith)
      ∙ find_close_step 0x5c e _ (i + 1) (escaped_step 0x5c refl e)
      ∙ find_close-escaped cs rest e (i + 1 + 1)
      ∙ ap (find_close _ rest) (omega arith))
]

escape_of-is_backslash : (c e : ℕ) → escape_of c ≡ some e → (e == 0x5c) ≡ (c == 0x5c)
unfolding escape_of
escape_of-is_backslash c e h = ground arith

-- An encoded string ends in a backslash just if the string does.
last_char-escaped :
    (s : Chars) (p q : ℕ)
    → (p == 0x5c) ≡ (q == 0x5c)
    → (last_char p (escaped s) == 0x5c) ≡ (last_char q s == 0x5c)
unfolding last_char
last_char-escaped [] p q h = unfold escaped in h
last_char-escaped (c ∷ cs) p q h = elim (Option-cases (escape_of c)) [
  | inl plain ↦ rw (escaped_plain c cs plain) (last_char-escaped cs c c refl)
  | inr (e, some_e) ↦
      rw (escaped_escape c e cs some_e)
        (last_char-escaped cs e c (escape_of-is_backslash c e some_e))
]

find_close-NoQuote :
    (rest : Chars) (prev i : ℕ) → All (λ c. c ≢ 0x22) rest → find_close prev rest i ≡ none
unfolding find_close
find_close-NoQuote [] prev i h = refl
find_close-NoQuote (c ∷ cs) prev i h = ground (arith, find_close-NoQuote cs c (i + 1) h.1)

-- The search from behind the opening quote ends at the closing quote of an encoded string that
-- does not end in a backslash.
pub find_close-quoted :
    (v rest : Chars) (i : ℕ)
    → last_char 0x22 v ≢ 0x5c
    → find_close 0x22 (escaped v ++ (0x22 ∷ rest)) i ≡ some (i + length (escaped v))
find_close-quoted v rest i h =
    find_close-escaped v (0x22 ∷ rest) 0x22 i
    ∙ find_close_hit _ rest _ (last_char-escaped v 0x22 0x22 refl ∙ ground (arith, h))

-- Behind a final backslash the closing quote is passed over.
pub find_close-backslash :
    (v rest : Chars) (i : ℕ)
    → last_char 0x22 v ≡ 0x5c
    → All (λ c. c ≢ 0x22) rest
    → find_close 0x22 (escaped v ++ (0x22 ∷ rest)) i ≡ none
find_close-backslash v rest i h k =
    find_close-escaped v (0x22 ∷ rest) 0x22 i
    ∙ find_close_step _ 0x22 rest _
        (escaped_step _ (last_char-escaped v 0x22 0x22 refl ∙ ground (arith, h)) 0x22)
    ∙ find_close-NoQuote rest 0x22 _ k
