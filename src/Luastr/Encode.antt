-- ===== src/Luastr/Encode.antt =====
-- `luastr_encode` of src/c/luastr.c, with the buffer that it fills.
use aviutl_psdtoolkit.Base.{
  ℕ, ◌+◌, [], ◌∷◌, Option, none, some, ◌==◌, if◌then◌else◌, length, Chars, M, ◌>>=◌, pure, raise,
  invalid_argument, null_pointer, Wstr, Ovstr,
}
use aviutl_psdtoolkit.Buffer.{Buffer, empty_buffer, put, grow}

-- The `switch` of the loop: the letter behind the backslash, or `none` in the default case.
unfoldable pub escape_of : ℕ → Option ℕ
escape_of c =
    if c == 0x07
    then some b'a'
    else if c == 0x08
    then some b'b'
    else if c == 0x09
    then some b't'
    else if c == 0x0a
    then some b'n'
    else if c == 0x0b
    then some b'v'
    else if c == 0x0c
    then some b'f'
    else if c == 0x0d
    then some b'r'
    else if c == 0x22
    then some 0x22
    else if c == 0x27
    then some 0x27
    else if c == 0x5c
    then some 0x5c
    else none

module _ {W : Type 0} (lib : Ovstr W) where
  unfoldable pub encode_char : Option ℕ → ℕ → Buffer → M W Buffer
  encode_char none c b = put c b
  encode_char (some e) c b = do b1 ← grow lib (b.cap + 1) b; b2 ← put 0x5c b1; put e b2

  -- The loop over the characters of `src`.
  unfoldable pub encode_loop : Chars → Buffer → M W Buffer
  encode_loop [] b = pure b
  encode_loop (c ∷ cs) b = do b1 ← encode_char (escape_of c) c b; encode_loop cs b1

  -- The first argument is null, or a string whose pointer may be null; the second is the
  -- destination's pointer. The result is the new content of the destination.
  unfoldable pub luastr_encode : Option Wstr → Option Wstr → M W Chars
  luastr_encode none dest = raise invalid_argument
  luastr_encode (some none) dest = raise invalid_argument
  luastr_encode (some (some src)) none = raise null_pointer
  luastr_encode (some (some src)) (some _) = do
    b ← grow lib (length src + 3) empty_buffer
    b ← put 0x22 b
    b ← encode_loop src b
    b ← put 0x22 b
    b ← put 0 b
    lib.scpy b.chars
