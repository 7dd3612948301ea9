-- ===== src/Ptklayer/Parse.antt =====
-- `ptklayer_parse` of src/c/ptklayer.c.
use aviutl_psdtoolkit.Base.{
  ℕ, zero, suc, ◌+◌, List, [], ◌∷◌, ◌++◌, Option, none, some, length, drop, c_str, Chars, M, ◌>>=◌,
  ◌>>◌, Ovstr, pure, raise, overrun, invalid_argument, null_pointer, Wstr,
}
use aviutl_psdtoolkit.Ptklayer.Types.{Item, Ptklayer, Convert}

-- What stands behind the terminator of the string that begins here: `npos += n8.len + 1`.
unfoldable pub behind : Chars → Chars
behind s = drop (length (c_str s) + 1) s

module _ {W : Type 0} (lib : Ovstr W) (conv : Convert W) where
  -- The loop, on the bytes from `names_utf8->ptr + npos` and from `values_utf8->ptr + vpos`, with
  -- the items so far. The fuel bounds the rounds.
  unfoldable pub parse_loop : ℕ → Chars → Chars → List Item → M W (List Item)
  parse_loop fuel [] values items = pure items
  parse_loop fuel (c ∷ cs) [] items = pure items
  parse_loop zero (c ∷ cs) (d ∷ ds) items = raise overrun
  parse_loop (suc fuel) (c ∷ cs) (d ∷ ds) items = do
    n ← conv.from_utf8 (c_str (c ∷ cs))
    v ← conv.from_utf8 (c_str (d ∷ ds))
    lib.apush
    parse_loop fuel (behind (c ∷ cs)) (behind (d ∷ ds))
        (items ++ record { name = n; value = v } ∷ [])

  unfoldable pub parse_slider_name : Option Chars → Wstr → M W Wstr
  parse_slider_name none old = pure old
  parse_slider_name (some s) old = do n ← conv.from_utf8 s; pure (some n)

  -- The string arguments and the destination are pointers that may be null. After an error the
  -- destination has been freed. `file_path_utf8` is not tested, and no caller passes null.
  unfoldable pub ptklayer_parse :
      Option Chars → Option Chars → Option Chars → Chars → Option Ptklayer → M W Ptklayer
  ptklayer_parse none values slider path pi = raise invalid_argument
  ptklayer_parse (some names) none slider path pi = raise invalid_argument
  ptklayer_parse (some names) (some values) slider path none = raise null_pointer
  ptklayer_parse (some names) (some values) slider path (some pi) = do
    items ← parse_loop (length names) names values pi.items
    slider_name ← parse_slider_name slider pi.slider_name
    file_path ← conv.from_utf8 path
    pure (record { items = items; slider_name = slider_name; file_path = some file_path })
