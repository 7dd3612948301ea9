-- ===== src/Ptklayer/Names.antt =====
-- The names that src/c/ptklayer.c shows.
use Prim.Native.Nat.{bit_and, bit_or}
use aviutl_psdtoolkit.Base.{
  ℕ, ◌+◌, ◌-◌, ◌*◌, not, ◌&&◌, ◌||◌, [], ◌∷◌, Option, none, some, leb, ltb, ◌==◌, if◌then◌else◌,
  length, get_elem?, drop, Chars, M, ◌>>=◌, ◌>>◌, pure, raise, invalid_argument, null_pointer, Wstr,
  Ovstr,
}
use aviutl_psdtoolkit.Buffer.{Buffer, empty_buffer, put, grow}
use aviutl_psdtoolkit.Ptklayer.Types.{Item, Ptklayer, is_faview, wcsrchr}

unfoldable pub hex2int : ℕ → ℕ
hex2int c =
    if leb b'0' c && leb c b'9'
    then bit_and c 0xff - b'0'
    else if (leb b'A' c && leb c b'F') || (leb b'a' c && leb c b'f')
    then bit_and c 0x5f - b'A' + 10
    else 255

module _ {W : Type 0} where
  -- The loop of `percent_decode`, on the characters from `src->ptr[i]` on. With fewer than two
  -- behind it, a character is written whether or not it is a percent sign.
  unfoldable pub percent_loop : Chars → Buffer → M W Buffer
  percent_loop [] b = pure b
  percent_loop (c ∷ []) b = put c b
  percent_loop (c ∷ h ∷ []) b = put c b >>= λ b1. percent_loop (h ∷ []) b1
  percent_loop (c ∷ h ∷ l ∷ rest) b =
      let c1 = hex2int h in
      let c2 = hex2int l in
      let kept = put c b >>= λ b1. percent_loop (h ∷ l ∷ rest) b1 in
      let decoded = put (bit_or (c1 * 16) c2) b >>= λ b1. percent_loop rest b1 in
      let skipped = percent_loop rest b in
      if not (c == b'%')
      then kept
      else if c1 == 255 || c2 == 255
      then kept
      else if ltb 0 (c1 + c2)
      then decoded
      else skipped

-- `p ? p + 1 : name->ptr`
unfoldable pub behind_last : Option ℕ → Chars → Chars
behind_last none s = s
behind_last (some i) s = drop (i + 1) s

-- `extract_layer_name`: where the last part of a path begins.
unfoldable pub extract_layer_name : Chars → ℕ
extract_layer_name name = elim (wcsrchr name b'/') [ none ↦ 0 | some i ↦ i + 1 ]

module _ {W : Type 0} (lib : Ovstr W) where
  -- `dest->ptr[n] = 0` is a write too; `dest->len` is what came before it.
  unfoldable pub percent_decode : Chars → M W Chars
  percent_decode src = do
    b ← grow lib (length src + 1) empty_buffer
    b ← percent_loop src b
    put 0 b
    pure b.chars

  unfoldable pub layer_name_to_readable : Chars → M W Chars
  layer_name_to_readable name = do
    tmp ← lib.scpy (behind_last (wcsrchr name b'/') name)
    percent_decode tmp

  unfoldable pub slider_name_to_readable : Chars → M W Chars
  slider_name_to_readable name = lib.scpy (behind_last (wcsrchr name b'\\') name)

  unfoldable pub parent_layer_name_to_readable : Chars → M W Chars
  parent_layer_name_to_readable name = do
    let pos = extract_layer_name name
    tmp ← lib.sncpy name (if pos == 0 then length name else pos - 1)
    layer_name_to_readable tmp

  unfoldable pub item_name : Ptklayer → Item → M W Chars
  item_name pi item = if is_faview pi then lib.scpy item.name else layer_name_to_readable item.name

  unfoldable pub at_item : Option Item → Option Wstr → (Item → M W Chars) → M W Chars
  at_item none dest f = raise invalid_argument
  at_item (some item) none f = raise null_pointer
  at_item (some item) (some _) f = f item

  -- The guards shared by the calls on an item: a null layer, an index out of range, and a null
  -- destination.
  unfoldable pub with_item :
      Option Ptklayer → ℕ → Option Wstr → (Ptklayer → Item → M W Chars) → M W Chars
  with_item none idx dest f = raise invalid_argument
  with_item (some pi) idx dest f = at_item (get_elem? pi.items idx) dest (f pi)

  unfoldable pub ptklayer_get_readable_item_name : Option Ptklayer → ℕ → Option Wstr → M W Chars
  ptklayer_get_readable_item_name pi idx dest = with_item pi idx dest item_name

  unfoldable pub group_name : Ptklayer → Item → M W Chars
  group_name pi item = elim pi.slider_name [
    | some s ↦ slider_name_to_readable s
    | none ↦ parent_layer_name_to_readable item.name
  ]

  unfoldable pub ptklayer_get_readable_group_name : Option Ptklayer → ℕ → Option Wstr → M W Chars
  ptklayer_get_readable_group_name pi idx dest = with_item pi idx dest group_name
