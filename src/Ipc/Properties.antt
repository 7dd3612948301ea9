-- ===== src/Ipc/Properties.antt =====
-- The bytes of the property command of src/c/ipc.c, and a reader of them.
use aviutl_psdtoolkit.Base.{
  ℕ, zero, suc, ◌^◌, ◌≤◌, ◌<◌, [], ◌∷◌, ◌++◌, leb, true, ◌==◌, if◌then◌else◌, Option, none, some,
  length, length-append, take, drop, append_assoc, Chars, take-append, drop-append, ◌≡◌, refl, ap,
  ◌∙◌, arith,
}
use aviutl_psdtoolkit.Ipc.Wire.{u32, from_bytes}
use aviutl_psdtoolkit.Ipc.Commands.{PropertyOptions}
use aviutl_psdtoolkit.Ipc.Messages.{string, Fits, from_bytes-u32}

abbrev pub u32_property : ℕ → Option ℕ → Chars
u32_property propid none = []
u32_property propid (some v) = u32 propid ++ u32 v

abbrev pub string_property : ℕ → Option Chars → Chars
string_property propid none = []
string_property propid (some s) = u32 propid ++ string s

-- The bytes that are sent for the options.
abbrev pub properties : PropertyOptions → Chars
properties o =
    u32_property 5 o.tag
    ++ (string_property 1 o.layer_utf8
        ++ (u32_property 2 o.scale
            ++ (u32_property 3 o.offset_x ++ (u32_property 4 o.offset_y ++ u32 0))))

-- A reader that takes the properties in any order up to the end mark.
abbrev chain : {A B : Type 0} → Option A → (A → Option B) → Option B
chain none f = none
chain (some a) f = f a

abbrev take_u32 : Chars → Option (ℕ × Chars)
take_u32 (a ∷ b ∷ c ∷ d ∷ rest) = some (from_bytes (a ∷ b ∷ c ∷ d ∷ []), rest)
take_u32 _ = none

abbrev take_string : Chars → Option (Chars × Chars)
take_string s =
    chain (take_u32 s) λ (n, t). if leb n (length t) then some (take n t, drop n t) else none

abbrev take_property : ℕ → PropertyOptions → Chars → Option (PropertyOptions × Chars)
take_property propid o s =
    let value = take_u32 s in
    if propid == 1
    then chain (take_string s) (λ (v, t). some (record o { layer_utf8 = some v }, t))
    else if propid == 2
    then chain value (λ (v, t). some (record o { scale = some v }, t))
    else if propid == 3
    then chain value (λ (v, t). some (record o { offset_x = some v }, t))
    else if propid == 4
    then chain value (λ (v, t). some (record o { offset_y = some v }, t))
    else if propid == 5
    then chain value (λ (v, t). some (record o { tag = some v }, t))
    else none

unfoldable pub take_properties : ℕ → PropertyOptions → Chars → Option (PropertyOptions × Chars)
take_properties zero o s = none
take_properties (suc n) o s = chain (take_u32 s) λ (propid, t).
    if propid == 0
    then some (o, t)
    else chain (take_property propid o t) λ (o', t'). take_properties n o' t'

abbrev pub no_options : PropertyOptions
no_options = record {
  tag = none;
  layer_utf8 = none;
  scale = none;
  offset_x = none;
  offset_y = none;
}

-- At most five properties and the end mark are read.
abbrev pub read_properties : Chars → Option (PropertyOptions × Chars)
read_properties s = take_properties 6 no_options s

abbrev Small : Option ℕ → Type 0
Small none = Unit
Small (some n) = n < 2 ^ 32

abbrev SmallText : Option Chars → Type 0
SmallText none = Unit
SmallText (some s) = Fits s

abbrev pub AreSmall : PropertyOptions → Type 0
AreSmall o =
    Small o.tag × SmallText o.layer_utf8 × Small o.scale × Small o.offset_x × Small o.offset_y

-- Reading `s` with at least `n` rounds gives `r`.
abbrev Reads : ℕ → PropertyOptions → Chars → Option (PropertyOptions × Chars) → Type 0
Reads n o s r = (m : ℕ) → n ≤ m → take_properties m o s ≡ r

take_string-string : (s rest : Chars) → Fits s → take_string (string s ++ rest) ≡ some (s, rest)
take_string-string s rest h =
    let fits : leb (length s) (length (s ++ rest)) ≡ true =
      leb_of _ _ (omega (arith, length-append {0} s rest)) in
    rw (from_bytes-u32 (length s) (omega arith)) (rw (fits, take-append s rest, drop-append s rest))
  where
    leb_of : (a b : ℕ) → a ≤ b → leb a b ≡ true
    leb_of a b k = ground arith

read_end : (o : PropertyOptions) (rest : Chars) → Reads 1 o (u32 0 ++ rest) (some (o, rest))
unfolding take_properties
read_end o rest zero h = absurd (omega arith)
read_end o rest (suc m) h = refl

module _ (rest : Chars) (r : Option (PropertyOptions × Chars)) (n : ℕ) where
  read_tag :
      (o : PropertyOptions) (v : Option ℕ)
      → o.tag ≡ none
      → Small v
      → Reads n (record o { tag = v }) rest r
      → Reads (suc n) o (u32_property 5 v ++ rest) r
  unfolding take_properties
  read_tag o none e h k m le =
      rw (ap (λ (x : Option ℕ). record o { tag = x }) e) (k m (omega arith))
  read_tag o (some v) e h k zero le = absurd (omega arith)
  read_tag o (some v) e h k (suc m) le = rw (from_bytes-u32 v h) (k m (omega arith))

  read_layer :
      (o : PropertyOptions) (v : Option Chars)
      → o.layer_utf8 ≡ none
      → SmallText v
      → Reads n (record o { layer_utf8 = v }) rest r
      → Reads (suc n) o (string_property 1 v ++ rest) r
  unfolding take_properties
  read_layer o none e h k m le =
      rw (ap (λ (x : Option Chars). record o { layer_utf8 = x }) e) (k m (omega arith))
  read_layer o (some v) e h k zero le = absurd (omega arith)
  read_layer o (some v) e h k (suc m) le = rw (take_string-string v rest h) (k m (omega arith))

  read_scale :
      (o : PropertyOptions) (v : Option ℕ)
      → o.scale ≡ none
      → Small v
      → Reads n (record o { scale = v }) rest r
      → Reads (suc n) o (u32_property 2 v ++ rest) r
  unfolding take_properties
  read_scale o none e h k m le =
      rw (ap (λ (x : Option ℕ). record o { scale = x }) e) (k m (omega arith))
  read_scale o (some v) e h k zero le = absurd (omega arith)
  read_scale o (some v) e h k (suc m) le = rw (from_bytes-u32 v h) (k m (omega arith))

  read_offset_x :
      (o : PropertyOptions) (v : Option ℕ)
      → o.offset_x ≡ none
      → Small v
      → Reads n (record o { offset_x = v }) rest r
      → Reads (suc n) o (u32_property 3 v ++ rest) r
  unfolding take_properties
  read_offset_x o none e h k m le =
      rw (ap (λ (x : Option ℕ). record o { offset_x = x }) e) (k m (omega arith))
  read_offset_x o (some v) e h k zero le = absurd (omega arith)
  read_offset_x o (some v) e h k (suc m) le = rw (from_bytes-u32 v h) (k m (omega arith))

  read_offset_y :
      (o : PropertyOptions) (v : Option ℕ)
      → o.offset_y ≡ none
      → Small v
      → Reads n (record o { offset_y = v }) rest r
      → Reads (suc n) o (u32_property 4 v ++ rest) r
  unfolding take_properties
  read_offset_y o none e h k m le =
      rw (ap (λ (x : Option ℕ). record o { offset_y = x }) e) (k m (omega arith))
  read_offset_y o (some v) e h k zero le = absurd (omega arith)
  read_offset_y o (some v) e h k (suc m) le = rw (from_bytes-u32 v h) (k m (omega arith))

-- The properties with what stands behind them, as the reader comes to them.
abbrev in_front_of : PropertyOptions → Chars → Chars
in_front_of o rest =
    u32_property 5 o.tag
    ++ (string_property 1 o.layer_utf8
        ++ (u32_property 2 o.scale
            ++ (u32_property 3 o.offset_x ++ (u32_property 4 o.offset_y ++ (u32 0 ++ rest)))))

properties-append : (o : PropertyOptions) (rest : Chars) → properties o ++ rest ≡ in_front_of o rest
properties-append o rest =
    append_assoc (u32_property 5 o.tag) _ rest
    ∙ ap (◌++◌ (u32_property 5 o.tag)) (
        append_assoc (string_property 1 o.layer_utf8) _ rest
        ∙ ap (◌++◌ (string_property 1 o.layer_utf8)) (
            append_assoc (u32_property 2 o.scale) _ rest
            ∙ ap (◌++◌ (u32_property 2 o.scale)) (
                append_assoc (u32_property 3 o.offset_x) _ rest
                ∙ ap (◌++◌ (u32_property 3 o.offset_x))
                    (append_assoc (u32_property 4 o.offset_y) (u32 0) rest))))

pub read_properties-properties :
    (o : PropertyOptions) (rest : Chars)
    → AreSmall o
    → read_properties (properties o ++ rest) ≡ some (o, rest)
read_properties-properties o rest h =
    ap read_properties (properties-append o rest)
    ∙ read_tag _ _ 5 no_options o.tag refl h.0
        (read_layer _ _ 4 _ o.layer_utf8 refl h.1 (
          read_scale _ _ 3 _ o.scale refl h.2 (
            read_offset_x _ _ 2 _ o.offset_x refl h.3
              (read_offset_y _ _ 1 _ o.offset_y refl h.4 (read_end _ rest)))))
        6 (omega arith)
