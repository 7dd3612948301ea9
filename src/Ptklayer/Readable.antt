-- ===== src/Ptklayer/Readable.antt =====
-- The readable names of src/c/ptklayer.c: the decoded last part of a layer's path, and that of its
-- parent.
use aviutl_psdtoolkit.Base.{
  ℕ, suc, ◌+◌, ◌-◌, ◌/◌, ◌%◌, ◌<◌, Bool, true, false, [], ◌∷◌, ◌++◌, none, some, inl, inr, ◌==◌,
  if◌then◌else◌, Bool-cases, true-ne-false, length, take, take-append, drop, Chars, All, HasNoNul,
  HasNoNul-append, c_str-HasNoNul, Error, Meets, >>=-Meets, Ovstr, OvstrLaws, ◌≡◌, ◌≢◌, refl, sym,
  ap, ◌∙◌, arith,
}
use aviutl_psdtoolkit.Ptklayer.Types.{wcsrchr}
use aviutl_psdtoolkit.Ptklayer.Names.{
  behind_last, extract_layer_name, layer_name_to_readable, parent_layer_name_to_readable,
}
use aviutl_psdtoolkit.Ptklayer.Percent.{hex_digit, percent_encoded, percent_decode-encoded}

-- No NUL and no `ch`.
abbrev pub Avoids : ℕ → Chars → Type 0
Avoids ch = All (λ c. (c ≢ 0) × (c ≢ ch))

pub wcsrchr-Avoids : (s : Chars) (ch : ℕ) → Avoids ch s → wcsrchr s ch ≡ none
unfolding wcsrchr
wcsrchr-Avoids [] ch h = refl
wcsrchr-Avoids (c ∷ cs) ch h = ground (arith, wcsrchr-Avoids cs ch h.1)

pub wcsrchr-last :
    (p t : Chars) (ch : ℕ)
    → HasNoNul p
    → ch ≢ 0
    → Avoids ch t
    → wcsrchr (p ++ (ch ∷ t)) ch ≡ some (length p)
unfolding wcsrchr
wcsrchr-last [] t ch h k a = ground (arith, wcsrchr-Avoids t ch a)
wcsrchr-last (c ∷ p) t ch h k a = ground (arith, wcsrchr-last p t ch h.1 k a)

Avoids-append : (ch : ℕ) (s t : Chars) → Avoids ch s → Avoids ch t → Avoids ch (s ++ t)
Avoids-append ch [] t h k = k
Avoids-append ch (c ∷ s) t h k = (h.0, Avoids-append ch s t h.1 k)

pub Avoids-HasNoNul : (ch : ℕ) (s : Chars) → Avoids ch s → HasNoNul s
Avoids-HasNoNul ch [] h = tt
Avoids-HasNoNul ch (c ∷ s) h = (h.0.0, Avoids-HasNoNul ch s h.1)

digit-Avoids : (d : ℕ) → d < 16 → (hex_digit d ≢ 0) × (hex_digit d ≢ b'/')
unfolding hex_digit
digit-Avoids d h = ground arith

add_shift : (n : ℕ) → suc n + 1 ≡ suc (n + 1)
add_shift n = omega arith

drop_slash : (p t : Chars) → drop (length p + 1) (p ++ (b'/' ∷ t)) ≡ t
drop_slash [] t = refl
drop_slash (c ∷ p) t = rw (add_shift (length p)) (drop_slash p t)

parent_cut :
    (p t : Chars)
    → take
        (if length p + 1 == 0 then length (p ++ (b'/' ∷ t)) else length p + 1 - 1)
        (p ++ (b'/' ∷ t))
      ≡ p
parent_cut p t =
    let e : (length p + 1 == 0) ≡ false = ground arith in
    let n : length p + 1 - 1 ≡ length p = omega arith in rw (e, n, take-append)

pub extract_layer_name-last :
    (p t : Chars) → HasNoNul p → Avoids b'/' t → extract_layer_name (p ++ (b'/' ∷ t)) ≡ length p + 1
unfolding extract_layer_name
extract_layer_name-last p t h a = rw (wcsrchr-last p t b'/' h (omega arith) a, extract_layer_name)

pub extract_layer_name-top : (t : Chars) → Avoids b'/' t → extract_layer_name t ≡ 0
unfolding extract_layer_name
extract_layer_name-top t a = rw (wcsrchr-Avoids t b'/' a, extract_layer_name)

module _ (esc : ℕ → Bool) (percent : esc b'%' ≡ true) (slash : esc b'/' ≡ true)
    (small : (c : ℕ) → esc c ≡ true → c < 256) where
  plain-Avoids : (c : ℕ) → esc c ≡ false → c ≢ b'/'
  plain-Avoids c h e = true-ne-false (sym slash ∙ ap esc (sym e) ∙ h)

  pub percent_encoded-Avoids : (s : Chars) → HasNoNul s → Avoids b'/' (percent_encoded esc s)
  unfolding percent_encoded
  percent_encoded-Avoids [] h = tt
  percent_encoded-Avoids (c ∷ s) h = elim (Bool-cases (esc c)) [
    | inl hit ↦
        let lt = small c hit in
        rw hit (
          omega arith,
          (
            digit-Avoids (c / 16) (omega arith),
            (digit-Avoids (c % 16) (omega arith), percent_encoded-Avoids s h.1),
          ),
        )
    | inr miss ↦ rw miss ((h.0, plain-Avoids c miss), percent_encoded-Avoids s h.1)
  ]

  module _ {W : Type 0} {E : Error → Type 0} (lib : Ovstr W) (laws : OvstrLaws lib E) where
    top_level :
        (s : Chars)
        → HasNoNul s
        → Meets E (λ d. d ≡ s) (layer_name_to_readable lib (percent_encoded esc s))
    unfolding layer_name_to_readable behind_last
    top_level s h =
        let a = percent_encoded-Avoids s h in
        rw (wcsrchr-Avoids _ b'/' a) (
          >>=-Meets (laws.scpy_lem _) λ d e.
            rw (e, c_str-HasNoNul _ (Avoids-HasNoNul b'/' _ a))
              (percent_decode-encoded esc percent small lib laws s h))

    -- For any set of escaped characters below 256 with the percent sign and the slash among them:
    -- the readable name of a path without NUL, a slash and an encoded name is the name without its
    -- encoding, or an error of the string library.
    pub layer_name_to_readable-encoded :
        (parent s : Chars)
        → HasNoNul parent
        → HasNoNul s
        → Meets E
            (λ d. d ≡ s)
            (layer_name_to_readable lib (parent ++ (b'/' ∷ percent_encoded esc s)))
    unfolding layer_name_to_readable behind_last
    layer_name_to_readable-encoded parent s k h =
        let a = percent_encoded-Avoids s h in
        rw (wcsrchr-last parent _ b'/' k (omega arith) a, drop_slash parent (percent_encoded esc s))
          (>>=-Meets (laws.scpy_lem _) λ d e.
            rw (e, c_str-HasNoNul _ (Avoids-HasNoNul b'/' _ a))
              (percent_decode-encoded esc percent small lib laws s h))

    -- For any set of escaped characters below 256 with the percent sign and the slash among them:
    -- the readable name of the parent of a layer, whose path is a path without NUL, a slash, an
    -- encoded group name, a slash and a name without slash, is the group name without its
    -- encoding, or an error of the string library.
    pub parent_layer_name_to_readable-encoded :
        (above group name : Chars)
        → HasNoNul above
        → HasNoNul group
        → Avoids b'/' name
        → Meets E
            (λ d. d ≡ group)
            (parent_layer_name_to_readable lib
              ((above ++ (b'/' ∷ percent_encoded esc group)) ++ (b'/' ∷ name)))
    unfolding parent_layer_name_to_readable
    parent_layer_name_to_readable-encoded above group name k h a =
        let path = above ++ (b'/' ∷ percent_encoded esc group) in
        let clean : HasNoNul path =
          HasNoNul-append above _ k
            (omega arith, Avoids-HasNoNul b'/' _ (percent_encoded-Avoids group h)) in
        rw (extract_layer_name-last path name clean a) (
          >>=-Meets (laws.sncpy_lem _ _)
            λ tmp e. rw (e, parent_cut path name) (layer_name_to_readable-encoded above group k h))
