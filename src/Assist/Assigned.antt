-- ===== src/Assist/Assigned.antt =====
-- What the rewriting in src/c/assist.c makes of a text with both assignments.
use aviutl_psdtoolkit.Base.{
  ℕ, ◌+◌, ◌-◌, ◌<◌, [], ◌∷◌, ◌++◌, none, some, append-nil, append_assoc, length, length-append,
  take, drop, take-append, drop-append, Chars, codes, concat, c_str, HasNoNul, c_str-HasNoNul,
  OccursAt, Error, not_found, ptk, fail, unexpected, invalid_argument, null_pointer, out_of_memory,
  not_sufficient_buffer, abort, overrun, hr, remote, errors-Meets, ◌⊎◌, inl, inr, Result, ok, err,
  Meets, Allowed, finally, map_error, pure-Meets, weaken-Meets, >>=-Meets, Ovstr, OvstrLaws, ◌≡◌,
  ◌≢◌, subst, refl, sym, ap, ◌∙◌, arith,
}
use aviutl_psdtoolkit.Luastr.Decode.{last_char, luastr_decode}
use aviutl_psdtoolkit.Luastr.Bounds.{quoted}
use aviutl_psdtoolkit.Luastr.Codec.{luastr_decode-quoted, luastr_encode-Meets}
use aviutl_psdtoolkit.Luastr.Find.{luastr_find_assign}
use aviutl_psdtoolkit.Luastr.Literal.{assignment, luastr_find_assign-quoted}
use aviutl_psdtoolkit.Assist.Rewrite.{
  missing_as, find_variable, put_variable, old_path, rewrite_text,
}

-- The text with the literal and what follows it written out.
assignment_split :
    (pre name v rest : Chars)
    → assignment pre name v rest ≡ pre ++ ((name ++ codes "=") ++ (quoted v ++ rest))
assignment_split pre name v rest = simp append_assoc

HasNoNul-parts : (s t : Chars) → HasNoNul (s ++ t) → HasNoNul s × HasNoNul t
HasNoNul-parts [] t h = (tt, h)
HasNoNul-parts (c ∷ s) t h = let (k, l) = HasNoNul-parts s t h.1 in ((h.0, k), l)

behind_assignment :
    (pre name v rest : Chars)
    → drop (length pre + (length name + 1 + length (quoted v))) (assignment pre name v rest) ≡ rest
behind_assignment pre name v rest =
    let front = pre ++ ((name ++ codes "=") ++ quoted v) in
    let whole : assignment pre name v rest ≡ front ++ rest = simp append_assoc in
    let size : length pre + (length name + 1 + length (quoted v)) ≡ length front = omega (
      arith,
      length-append {0} pre ((name ++ codes "=") ++ quoted v),
      length-append {0} (name ++ codes "=") (quoted v),
      length-append {0} name (codes "="),
    ) in
    ap (λ n. drop n (assignment pre name v rest)) size
    ∙ ap (drop (length front)) whole
    ∙ drop-append front rest

module _ {W : Type 0} {E : Error → Type 0} (lib : Ovstr W) (laws : OvstrLaws lib E) where
  joined :
      (pre name v value rest t2 tmp : Chars)
      → t2 ≡ pre
      → c_str tmp ≡ quoted value
      → HasNoNul (name ++ codes "=")
      → HasNoNul rest
      → t2
          ++ concat (
              (name ++ codes "=")
              ∷ tmp
              ∷ drop
                  (length pre + (length name + 1 + length (quoted v)))
                  (assignment pre name v rest)
              ∷ [])
        ≡ assignment pre name value rest
  joined pre name v value rest t2 tmp e q n r =
      rw
        (
          e,
          q,
          behind_assignment pre name v rest,
          c_str-HasNoNul (name ++ codes "=") n,
          c_str-HasNoNul rest r,
          append-nil rest,
        )
        (sym (assignment_split pre name value rest))

  put_variable-Meets :
      (pre name v value rest : Chars)
      → HasNoNul (assignment pre name value rest)
      → Meets E
          (λ t. t ≡ assignment pre name value rest)
          (put_variable lib
            (assignment pre name v rest)
            name
            value
            (length pre, length name + 1 + length (quoted v)))
  unfolding put_variable
  put_variable-Meets pre name v value rest clean =
      >>=-Meets (luastr_encode-Meets lib laws value none) λ tmp h1.
        >>=-Meets (laws.sncpy_lem (assignment pre name v rest) (length pre)) λ t2 h2.
          >>=-Meets (laws.scatm_lem t2 _) λ t3 h3. weaken-Meets (laws.scpy_lem t3) λ t4 h4.
            let split = assignment_split pre name value rest in
            let pieces =
              HasNoNul-parts pre ((name ++ codes "=") ++ (quoted value ++ rest))
                (subst HasNoNul split clean) in
            let behind = HasNoNul-parts (name ++ codes "=") (quoted value ++ rest) pieces.1 in
            let last = HasNoNul-parts (quoted value) rest behind.1 in
            let e2 : t2 ≡ pre =
              h2 ∙ ap (take (length pre)) (assignment_split pre name v rest) ∙ take-append pre _ in
            let clean_tmp : c_str tmp ≡ quoted value =
              ap c_str (h1 ∙ c_str-HasNoNul (quoted value) last.0)
              ∙ c_str-HasNoNul (quoted value) last.0 in
            h4
            ∙ ap c_str (h3 ∙ joined pre name v value rest t2 tmp e2 clean_tmp behind.0 last.1)
            ∙ c_str-HasNoNul _ clean

  -- A variable that is not found is an error of its own.
  abbrev pub Missing : Error → Type 0
  Missing e = E e ⊎ (e ≡ ptk 110)

  missing_as-Missing : (e : Error) → E e → Missing (missing_as (ptk 110) e)
  unfolding missing_as
  missing_as-Missing not_found h = inr refl
  missing_as-Missing fail h = inl h
  missing_as-Missing unexpected h = inl h
  missing_as-Missing invalid_argument h = inl h
  missing_as-Missing null_pointer h = inl h
  missing_as-Missing out_of_memory h = inl h
  missing_as-Missing not_sufficient_buffer h = inl h
  missing_as-Missing abort h = inl h
  missing_as-Missing overrun h = inl h
  missing_as-Missing (hr n) h = inl h
  missing_as-Missing (ptk n) h = inl h
  missing_as-Missing (remote s) h = inl h

  mapped :
      {A : Type 0} (P : A → Type 0) (r : Result A × W)
      → Allowed E P r.0
      → Allowed Missing P (map_error (missing_as (ptk 110)) (λ (w : W). r) r.1).0
  unfolding map_error finally
  mapped P (ok a, w) h = h
  mapped P (err e, w) h = missing_as-Missing e h

  find_variable-Meets :
      {P : ℕ × ℕ → Type 0} (text name : Chars)
      → Meets E P (luastr_find_assign lib text name)
      → Meets Missing P (find_variable lib text name)
  unfolding find_variable map_error finally
  find_variable-Meets {P} text name h = record {
    run = λ w. mapped P (luastr_find_assign lib text name w) (h.run w);
  }

  old_path-Meets :
      (pre v rest : Chars)
      → HasNoNul v
      → Meets E
          (λ r. r ≡ v)
          (old_path lib
            (assignment pre (codes "ptkf") v rest)
            (length pre, 4 + 1 + length (quoted v)))
  unfolding old_path
  old_path-Meets pre v rest clean =
      let front = pre ++ codes "ptkf=" in
      let whole : assignment pre (codes "ptkf") v rest ≡ front ++ (quoted v ++ rest) =
        simp append_assoc in
      let size : length pre + 5 ≡ length front =
        omega (arith, length-append {0} pre (codes "ptkf=")) in
      let count : 4 + 1 + length (quoted v) - 5 ≡ length (quoted v) = omega arith in
      let here : take (4 + 1 + length (quoted v) - 5)
            (drop (length pre + 5) (assignment pre (codes "ptkf") v rest))
          ≡ quoted v =
        ap (λ n. take n (drop (length pre + 5) (assignment pre (codes "ptkf") v rest))) count
        ∙ ap (λ n. take (length (quoted v)) (drop n (assignment pre (codes "ptkf") v rest))) size
        ∙ ap (λ s. take (length (quoted v)) (drop (length front) s)) whole
        ∙ ap (take (length (quoted v))) (drop-append front (quoted v ++ rest))
        ∙ take-append (quoted v) rest in
      subst (λ s. Meets E (λ r. r ≡ v) (luastr_decode lib (some (some s)) (some none))) (sym here)
        (luastr_decode-quoted lib laws v none clean)

  -- No `name="` stands before the end of `pre`.
  abbrev pub First : Chars → Chars → Chars → Type 0
  First pre name text = (q : ℕ) → q < length pre → ¬ OccursAt (name ++ codes "=\"") text q

  -- In a text without NUL in which ptkf=" first stands where the literal of the old path is
  -- assigned, and which, once that literal is the new path's, has ptkl=" first where the literal
  -- of an old state is assigned, neither old value ending in a backslash: the rewriting replaces
  -- exactly these two literals by those of the new path and the new state, keeps the rest of the
  -- text, and reads the old path back; or it ends in an error of the string library, or one for a
  -- missing variable.
  pub rewrite_text-assignments :
      (pre old file rest pre2 old_state state rest2 : Chars)
      → HasNoNul (assignment pre (codes "ptkf") old rest)
      → HasNoNul old
      → HasNoNul (assignment pre (codes "ptkf") file rest)
      → last_char 0x22 old ≢ 0x5c
      → last_char 0x22 old_state ≢ 0x5c
      → First pre (codes "ptkf") (assignment pre (codes "ptkf") old rest)
      → assignment pre (codes "ptkf") file rest ≡ assignment pre2 (codes "ptkl") old_state rest2
      → First pre2 (codes "ptkl") (assignment pre2 (codes "ptkl") old_state rest2)
      → HasNoNul (assignment pre2 (codes "ptkl") state rest2)
      → Meets Missing
          (λ r. r ≡ (assignment pre2 (codes "ptkl") state rest2, old))
          (rewrite_text lib (assignment pre (codes "ptkf") old rest) file state)
  unfolding rewrite_text
  rewrite_text-assignments pre old file rest pre2 old_state state rest2 c0 c_old c1 l0 l1 f0 same f1
        c2 =
      let name_clean : HasNoNul (codes "ptkf") = omega arith in
      let name2_clean : HasNoNul (codes "ptkl") = omega arith in
      >>=-Meets
        (find_variable-Meets _ (codes "ptkf")
          (luastr_find_assign-quoted lib laws pre (codes "ptkf") old rest c0 name_clean f0 l0))
        λ place hp. rw hp (
          >>=-Meets (errors-Meets (λ e k. inl k) (old_path-Meets pre old rest c_old)) λ o ho.
            >>=-Meets
              (errors-Meets (λ e k. inl k) (put_variable-Meets pre (codes "ptkf") old file rest c1))
              λ text ht.
                rw (ht, same)
                  (>>=-Meets
                    (find_variable-Meets _ (codes "ptkl") (
                      luastr_find_assign-quoted lib laws pre2 (codes "ptkl") old_state rest2
                        (subst HasNoNul same c1) name2_clean f1 l1))
                    λ place2 hp2. rw hp2 (
                      >>=-Meets
                        (errors-Meets (λ e k. inl k)
                          (put_variable-Meets pre2 (codes "ptkl") old_state state rest2 c2))
                        λ text2 ht2. pure-Meets _ (rw (ht2, ho) refl))))
