-- ===== src/Luastr/Find.antt =====
-- `luastr_find_assign` and `luastr_find_assign_number` of src/c/luastr.c.
use aviutl_psdtoolkit.Base.{
  ℕ, ◌+◌, ◌-◌, Bool, not, ◌&&◌, ◌||◌, [], ◌∷◌, Option, none, some, ◌==◌, leb, if◌then◌else◌, length,
  get_or, drop, Chars, codes, M, ◌>>=◌, pure, raise, or_raise, fail, not_found, Ovstr,
}

-- The loop over `i`, on the character before `s->ptr[i]` and those from there on: the first
-- double quote with no backslash in front of it.
unfoldable pub find_close : ℕ → Chars → ℕ → Option ℕ
find_close prev [] i = none
find_close prev (c ∷ cs) i =
    let rest = find_close c cs (i + 1) in if c == 0x22 && not (prev == 0x5c) then some i else rest

abbrev pub is_blank : ℕ → Bool
is_blank c = c == 0x20 || c == 0x09 || c == 0x0d || c == 0x0a

abbrev pub is_digit : ℕ → Bool
is_digit c = leb b'0' c && leb c b'9'

-- How the loop of `luastr_find_assign_number` ends: at `parse`, with `err_fail`, or at the end of
-- the text.
pub data NumberScan : Type 0 where
  token : ℕ → ℕ → NumberScan
  bad missing : NumberScan

-- The three phases: before the equals sign, before the number, and inside the number, which began
-- at `token_pos`. The number ends at a blank.
unfoldable pub scan_digits : ℕ → Chars → ℕ → NumberScan
scan_digits token_pos [] i = missing
scan_digits token_pos (c ∷ cs) i =
    let rest = scan_digits token_pos cs (i + 1) in
    if is_digit c then rest else if is_blank c then token token_pos (i - token_pos) else bad

unfoldable pub scan_number : Chars → ℕ → NumberScan
scan_number [] i = missing
scan_number (c ∷ cs) i =
    let rest = scan_number cs (i + 1) in
    let digits = scan_digits i cs (i + 1) in
    if is_blank c then rest else if is_digit c || c == b'-' then digits else bad

unfoldable pub scan_equals : Chars → ℕ → NumberScan
scan_equals [] i = missing
scan_equals (c ∷ cs) i =
    let rest = scan_equals cs (i + 1) in
    let number = scan_number cs (i + 1) in
    if is_blank c then rest else if c == b'=' then number else bad

module _ {W : Type 0} where
  unfoldable pub close_result : ℕ → Option ℕ → M W (ℕ × ℕ)
  close_result start_pos none = raise not_found
  close_result start_pos (some j) = pure (start_pos, j + 1 - start_pos)

  -- From where `name="` was found to the closing quote.
  unfoldable pub close_at : Chars → Chars → Option ℕ → M W (ℕ × ℕ)
  close_at s tmp none = raise not_found
  close_at s tmp (some start_pos) =
      let i = start_pos + length tmp in
      close_result start_pos (find_close (get_or s (i - 1) 0) (drop i s) i)

module _ {W : Type 0} (lib : Ovstr W) where
  -- The position and the length of `name="..."` in `s`.
  unfoldable pub luastr_find_assign : Chars → Chars → M W (ℕ × ℕ)
  luastr_find_assign s name = do
    tmp ← lib.scpym (name ∷ codes "=\"" ∷ [])
    found ← lib.sstr s tmp
    close_at s tmp found

  -- `ov_atoi` with sign is the numeric library's.
  module _ {V : Type 0} (ov_atoi : Chars → Option V) where
    unfoldable pub parse_token : Chars → NumberScan → M W V
    parse_token s missing = raise not_found
    parse_token s bad = raise fail
    parse_token s (token token_pos token_len) =
        if token_len == 0
        then raise fail
        else do tmp ← lib.sncpy (drop token_pos s) token_len; or_raise (ov_atoi tmp) fail

    unfoldable pub number_at : Chars → Chars → Option ℕ → M W V
    number_at s name none = raise not_found
    number_at s name (some start_pos) =
        let i = start_pos + length name in parse_token s (scan_equals (drop i s) i)

    unfoldable pub luastr_find_assign_number : Chars → Chars → M W V
    luastr_find_assign_number s name = do found ← lib.sstr s name; number_at s name found
