-- ===== src/Assist/Tests.antt =====
-- The rewriting of src/c/assist.c on a text with both assignments.
use aviutl_psdtoolkit.Base.{
  Bool, sym, ◌∙◌, ℕ, not, true, ◌==◌, ==_iff, passes, passes-at, [], take, drop, get_or, Chars,
  codes, Meets, ap, ◌≡◌, refl, arith,
}
use aviutl_psdtoolkit.Plain.{plain, plain-laws}
use aviutl_psdtoolkit.Luastr.Encode.{escape_of}
use aviutl_psdtoolkit.Luastr.Decode.{last_char}
use aviutl_psdtoolkit.Luastr.Bounds.{escaped, escaped_char}
use aviutl_psdtoolkit.Luastr.Literal.{assignment}
use aviutl_psdtoolkit.Assist.Rewrite.{rewrite_text}
use aviutl_psdtoolkit.Assist.Assigned.{Missing, First, rewrite_text-assignments}

abbrev before : Chars
before = codes "ptkf=\"b.psd\"\n"

abbrev rewritten : Chars
rewritten = assignment before (codes "ptkl") (codes "L.0") []

fourth_is_l : ℕ → Bool
fourth_is_l q = get_or (take 6 (drop q rewritten)) 3 0 == b'l'

-- The fourth character of `ptkl="` is at none of the places before.
none_before : passes (λ q. not (fourth_is_l q)) 13 0 ≡ true
unfolding passes fourth_is_l escaped escaped_char escape_of
none_before = refl

before-First : First plain plain-laws before (codes "ptkl") rewritten
unfolding fourth_is_l
before-First q lt k =
    let is_not : not (fourth_is_l q) ≡ true =
      passes-at (λ q. not (fourth_is_l q)) 13 0 q (omega arith) (omega arith) none_before in
    let is : fourth_is_l q ≡ true = (==_iff _ (b'l')).1 (ap (λ (l : Chars). get_or l 3 0) k.1) in
    let both : not true ≡ true = ap not (sym is) ∙ is_not in cc

rewrite_text-assignments_example :
    Meets
      (Missing plain plain-laws)
      (λ r. r ≡ (assignment before (codes "ptkl") (codes "L.1") [], codes "a.psd"))
      (rewrite_text plain
        (assignment [] (codes "ptkf") (codes "a.psd") (codes "\nptkl=\"L.0\""))
        (codes "b.psd")
        (codes "L.1"))
unfolding escaped escaped_char escape_of last_char
rewrite_text-assignments_example =
    rewrite_text-assignments plain plain-laws [] (codes "a.psd") (codes "b.psd")
      (codes "\nptkl=\"L.0\"") before (codes "L.0") (codes "L.1") [] (omega arith) (omega arith)
      (omega arith) (omega arith) (omega arith) (λ q lt. absurd (omega arith)) refl before-First
      (omega arith)
