-- ===== src/Luastr/Tests.antt =====
-- Runs of the functions of src/c/luastr.c, and the theorems at concrete inputs.
use aviutl_psdtoolkit.Base.{
  ℕ, zero, suc, ◌<◌, OccursAt, ◌+◌, [], some, length, Chars, codes, c_str, ◌>>=◌, ok, err, overrun,
  Meets, NoError, get_or, ap, ◌≡◌, refl, arith,
}
use aviutl_psdtoolkit.Plain.{plain, plain-laws}
use aviutl_psdtoolkit.Buffer.{put, grow}
use aviutl_psdtoolkit.Luastr.Encode.{escape_of, encode_char, encode_loop, luastr_encode}
use aviutl_psdtoolkit.Luastr.Decode.{unescape_of, last_char, decode_loop, luastr_decode}
use aviutl_psdtoolkit.Luastr.Bounds.{escaped, escaped_char, quoted}
use aviutl_psdtoolkit.Luastr.Codec.{
  luastr_encode-Meets, luastr_decode-encode, DecodeError, Decoded, luastr_decode_outcome,
}
use aviutl_psdtoolkit.Luastr.Find.{luastr_find_assign}
use aviutl_psdtoolkit.Luastr.Literal.{assignment, luastr_find_assign-quoted}

abbrev line : Chars
line = codes "a\"b\\\n"

run_encode :
    luastr_encode plain (some (some line)) (some (some [])) tt
    ≡ (ok (codes "\"a\\\"b\\\\\\n\""), tt)
unfolding luastr_encode encode_loop encode_char escape_of put grow ◌>>=◌
run_encode = refl

run_decode :
    luastr_decode plain (some (some (codes "\"a\\\"b\\\\\\n\""))) (some (some [])) tt
    ≡ (ok line, tt)
unfolding luastr_decode decode_loop last_char unescape_of put grow ◌>>=◌
run_decode = refl

run_lone : luastr_decode plain (some (some (codes "\""))) (some (some [])) tt ≡ (err overrun, tt)
unfolding luastr_decode decode_loop last_char unescape_of put grow ◌>>=◌
run_lone = refl

luastr_encode-Meets_example :
    Meets NoError
      (λ d. d ≡ c_str (quoted line))
      (luastr_encode plain (some (some line)) (some (some [])))
luastr_encode-Meets_example = luastr_encode-Meets plain plain-laws line (some [])

luastr_decode-encode_example :
    Meets NoError
      (λ r. r ≡ line)
      (luastr_encode plain (some (some line)) (some (some [])) >>= λ q.
        luastr_decode plain (some (some q)) (some (some [])))
luastr_decode-encode_example =
    luastr_decode-encode plain plain-laws line (some []) (some []) (omega arith)

luastr_decode_outcome_example :
    Meets
      (DecodeError (codes "\"\\n\""))
      (Decoded (codes "\"\\n\""))
      (luastr_decode plain (some (some (codes "\"\\n\""))) (some (some [])))
luastr_decode_outcome_example = luastr_decode_outcome plain plain-laws (codes "\"\\n\"") (some [])

first_place :
    (q : ℕ)
    → q < 1
    → ¬ OccursAt (codes "ptkf=\"") (assignment (codes ";") (codes "ptkf") (codes "v") (codes ";")) q
first_place zero lt k = absurd (omega (arith, ap (λ (l : Chars). get_or l 0 0) k.1))
first_place (suc q) lt k = absurd (omega arith)

luastr_find_assign-quoted_example :
    Meets NoError
      (λ r. r ≡ (1, 4 + 1 + length (quoted (codes "v"))))
      (luastr_find_assign plain
        (assignment (codes ";") (codes "ptkf") (codes "v") (codes ";"))
        (codes "ptkf"))
unfolding escaped escaped_char escape_of last_char
luastr_find_assign-quoted_example =
    luastr_find_assign-quoted plain plain-laws (codes ";") (codes "ptkf") (codes "v") (codes ";")
      (omega arith) (omega arith) first_place (omega arith)
