-- ===== src/Luastr/Literal.antt =====
-- `luastr_find_assign` of src/c/luastr.c on a text in which a literal made by `luastr_encode` is
-- assigned.
use aviutl_psdtoolkit.Base.{
  ℕ, ◌+◌, ◌-◌, ◌<◌, [], ◌∷◌, ◌++◌, Option, none, some, inl, inr, length, length-append,
  append_assoc, take-append, drop-append, get_or, get_or-append, Chars, codes, All, HasNoNul,
  HasNoNul-append, c_str-HasNoNul, OccursAt, FirstAt, Error, not_found, Meets, pure-Meets,
  raise-Meets, errors-Meets, >>=-Meets, Ovstr, OvstrLaws, ◌≡◌, ◌≢◌, ◌⊎◌, refl, ap, arith,
}
use aviutl_psdtoolkit.Luastr.Decode.{last_char}
use aviutl_psdtoolkit.Luastr.Bounds.{escaped, quoted}
use aviutl_psdtoolkit.Luastr.Find.{find_close, close_at, close_result, luastr_find_assign}
use aviutl_psdtoolkit.Luastr.Assign.{find_close-quoted, find_close-backslash}

-- `pre`, then `name="`, then the rest of the literal of `v`, then `rest`.
abbrev pub assignment : Chars → Chars → Chars → Chars → Chars
assignment pre name v rest = (pre ++ (name ++ codes "=\"")) ++ (escaped v ++ (0x22 ∷ rest))

FirstAt-unique :
    (t s : Chars) (p : ℕ) (o : Option ℕ) → FirstAt t s (some p) → FirstAt t s o → o ≡ some p
FirstAt-unique t s p none h k = absurd (k p h.0)
FirstAt-unique t s p (some q) h k =
    ap some (eq_of_not_lt q p (λ lt. h.1 q lt k.0) (λ lt. k.1 p lt h.0))
  where
    eq_of_not_lt : (a b : ℕ) → ¬ (a < b) → ¬ (b < a) → a ≡ b
    eq_of_not_lt a b x y = omega arith

OccursAt-append : (pre t rest : Chars) → OccursAt t ((pre ++ t) ++ rest) (length pre)
OccursAt-append pre t rest = (
  omega (arith, length-append {0} (pre ++ t) rest, length-append {0} pre t),
  rw (append_assoc, drop-append, take-append),
)

before_close :
    (pre name t : Chars)
    → get_or ((pre ++ (name ++ codes "=\"")) ++ t) (length (pre ++ (name ++ codes "=\"")) - 1) 0
      ≡ 0x22
before_close pre name t =
    let x = pre ++ (name ++ codes "=") in
    let e : (pre ++ (name ++ codes "=\"")) ++ t ≡ x ++ (0x22 ∷ t) = simp append_assoc in
    let n : length (pre ++ (name ++ codes "=\"")) - 1 ≡ length x =
      simp (length-append) (omega arith) in
    rw (e, n) (get_or-append x 0x22 t 0)

module _ {W : Type 0} {E : Error → Type 0} (lib : Ovstr W) (laws : OvstrLaws lib E) where
  module _ (pre name v rest : Chars) (clean : HasNoNul (assignment pre name v rest))
      (clean_name : HasNoNul name)
      (first : (q : ℕ)
        → q < length pre
        → ¬ OccursAt (name ++ codes "=\"") (assignment pre name v rest) q) where
    search-Meets :
        {P : ℕ × ℕ → Type 0} {F : Error → Type 0}
        → ((e : Error) → E e → F e)
        → Meets {W = W} F P
            (close_at (assignment pre name v rest) (name ++ codes "=\"") (some (length pre)))
        → Meets F P (luastr_find_assign lib (assignment pre name v rest) name)
    unfolding luastr_find_assign
    search-Meets k h =
        >>=-Meets (errors-Meets k (laws.scpym_lem (name ∷ codes "=\"" ∷ []))) λ tmp ht.
          rw (ht, c_str-HasNoNul name clean_name)
            (>>=-Meets
              (errors-Meets k (
                laws.sstr_lem _ (name ++ codes "=\"") clean
                  (HasNoNul-append name (codes "=\"") clean_name (omega arith))))
              λ found hf.
                rw
                  (FirstAt-unique _ _ (length pre) found
                    (OccursAt-append pre (name ++ codes "=\"") _, first) hf)
                  h)

    close_at-assignment :
        close_at {W = W} (assignment pre name v rest) (name ++ codes "=\"") (some (length pre))
        ≡ close_result
            (length pre)
            (find_close 0x22 (escaped v ++ (0x22 ∷ rest)) (length (pre ++ (name ++ codes "=\""))))
    unfolding close_at
    close_at-assignment =
        rw (← length-append pre (name ++ codes "=\""), drop-append, before_close pre name _)

    -- In a text without NUL, if name=" first stands where a literal made from v begins, and v does
    -- not end in a backslash, luastr_find_assign returns that place and the length of the name,
    -- the equals sign and the whole literal, or an error of the string library.
    pub luastr_find_assign-quoted :
        last_char 0x22 v ≢ 0x5c
        → Meets E
            (λ r. r ≡ (length pre, length name + 1 + length (quoted v)))
            (luastr_find_assign lib (assignment pre name v rest) name)
    unfolding close_result
    luastr_find_assign-quoted h =
        search-Meets (λ e k. k)
          (rw (close_at-assignment, find_close-quoted v rest _ h)
            (pure-Meets _ (
              ap (λ n. (length pre, n))
                (omega (
                  arith,
                  length-append {0} pre (name ++ codes "=\""),
                  length-append {0} name (codes "=\""),
                  length-append {0} (escaped v) (0x22 ∷ []),
                )))))

    -- In the same text, if v ends in a backslash and no quote follows the literal,
    -- luastr_find_assign never returns a place: it ends in not_found or in an error of the string
    -- library.
    pub luastr_find_assign-backslash :
        last_char 0x22 v ≡ 0x5c
        → All (λ c. c ≢ 0x22) rest
        → Meets
            (λ e. E e ⊎ (e ≡ not_found))
            (λ _. ⊥)
            (luastr_find_assign lib (assignment pre name v rest) name)
    unfolding close_result
    luastr_find_assign-backslash h k =
        search-Meets (λ e a. inl a)
          (rw (close_at-assignment, find_close-backslash v rest _ h k)
            (raise-Meets not_found (inr refl)))
