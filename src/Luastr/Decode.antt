-- ===== src/Luastr/Decode.antt =====
-- `luastr_decode` of src/c/luastr.c.
use aviutl_psdtoolkit.Base.{
  ℕ, ◌-◌, not, ◌||◌, [], ◌∷◌, Option, none, some, ◌==◌, if◌then◌else◌, length, Chars, M, ◌>>=◌,
  pure, raise, invalid_argument, null_pointer, unexpected, Wstr, Ovstr,
}
use aviutl_psdtoolkit.Buffer.{Buffer, empty_buffer, put, grow}

-- The `switch` of the loop: the character that a backslash and this letter stand for.
unfoldable pub unescape_of : ℕ → Option ℕ
unescape_of c =
    if c == b'a'
    then some 0x07
    else if c == b'b'
    then some 0x08
    else if c == b't'
    then some 0x09
    else if c == b'n'
    then some 0x0a
    else if c == b'v'
    then some 0x0b
    else if c == b'f'
    then some 0x0c
    else if c == b'r'
    then some 0x0d
    else if c == 0x22
    then some 0x22
    else if c == 0x27
    then some 0x27
    else if c == 0x5c
    then some 0x5c
    else none

-- `src->ptr[len]`, the last character of `c ∷ cs`.
unfoldable pub last_char : ℕ → Chars → ℕ
last_char c [] = c
last_char c (d ∷ ds) = last_char d ds

module _ {W : Type 0} where
  -- The loop over `i`, on the characters from `src->ptr[i]` to `src->ptr[len]`: it goes on while
  -- `i < len`, that is, while there are two.
  unfoldable pub decode_loop : Chars → Buffer → M W Buffer
  decode_loop [] b = pure b
  decode_loop (c ∷ []) b = pure b
  decode_loop (c ∷ d ∷ rest) b =
      let plain = put c b >>= λ b1. decode_loop (d ∷ rest) b1 in
      let kept = put 0x5c b >>= λ b1. decode_loop (d ∷ rest) b1 in
      let taken = λ (v : ℕ). put v b >>= λ b1. decode_loop rest b1 in
      if not (c == 0x5c) then plain else elim (unescape_of d) [ none ↦ kept | some v ↦ taken v ]

  module _ (lib : Ovstr W) where
    -- The arguments are as for `luastr_encode`. `src->len - 2 + 1` wraps, so at length 1 it is 0.
    unfoldable pub luastr_decode : Option Wstr → Option Wstr → M W Chars
    luastr_decode none dest = raise invalid_argument
    luastr_decode (some none) dest = raise invalid_argument
    luastr_decode (some (some [])) dest = raise invalid_argument
    luastr_decode (some (some (c ∷ cs))) none = raise null_pointer
    luastr_decode (some (some (c ∷ cs))) (some _) =
        if not (c == 0x22) || not (last_char c cs == 0x22) then raise unexpected else do
          b ← grow lib (length (c ∷ cs) - 1) empty_buffer
          b ← decode_loop cs b
          b ← put 0 b
          lib.scpy b.chars
