-- ===== src/Ptklayer/Csv.antt =====
-- A reader of the CSV fields that `encode_csv` of src/c/ptklayer.c writes.
use aviutl_psdtoolkit.Base.{
  ℕ, Bool, true, false, not, ◌||◌, [], ◌∷◌, ◌++◌, Option, none, some, inl, inr, ◌==◌, ==_iff,
  if◌then◌else◌, Bool-cases, Option-cases, Chars, codes, All, HasNoNul, HasNoNul-append,
  c_str-HasNoNul, replace_char, append_assoc, Error, Meets, pure-Meets, >>=-Meets, weaken-Meets,
  Ovstr, OvstrLaws, ◌⊎◌, ◌≡◌, ◌≢◌, refl, ap, ◌∙◌, arith,
}
use aviutl_psdtoolkit.Ptklayer.Types.{wcschr, sooner}
use aviutl_psdtoolkit.Ptklayer.Export.{encode_if, encode_csv}

-- A reader of one field: a field that begins with a quote goes to the next single quote, with each
-- pair of quotes for one; any other goes to the next comma or line break.
unfoldable pub ends_field : ℕ → Bool
ends_field c = c == b',' || c == b'\r' || c == b'\n'

abbrev pub in_field : ℕ → Chars × Chars → Chars × Chars
in_field c (s, rest) = (c ∷ s, rest)

unfoldable pub read_plain : Chars → Chars × Chars
read_plain [] = ([], [])
read_plain (c ∷ cs) =
    let more = in_field c (read_plain cs) in if ends_field c then ([], c ∷ cs) else more

unfoldable pub read_quoted : Chars → Chars × Chars
read_quoted [] = ([], [])
read_quoted (c ∷ []) = if c == b'"' then ([], []) else (c ∷ [], [])
read_quoted (c ∷ d ∷ cs) =
    let one = in_field c (read_quoted (d ∷ cs)) in
    let pair = in_field b'"' (read_quoted cs) in
    if not (c == b'"') then one else if d == b'"' then pair else ([], d ∷ cs)

unfoldable pub read_field : Chars → Chars × Chars
read_field [] = ([], [])
read_field (c ∷ cs) = if c == b'"' then read_quoted cs else read_plain (c ∷ cs)

-- What stands behind a field: nothing, or a comma or line break.
abbrev pub AtEnd : Chars → Type 0
AtEnd [] = Unit
AtEnd (c ∷ cs) = ends_field c ≡ true

read_char :
    (c d : ℕ) (cs : Chars)
    → (c == b'"') ≡ false
    → read_quoted (c ∷ d ∷ cs) ≡ in_field c (read_quoted (d ∷ cs))
unfolding read_quoted
read_char c d cs h = rw h

read_pair : (cs : Chars) → read_quoted (b'"' ∷ b'"' ∷ cs) ≡ in_field b'"' (read_quoted cs)
unfolding read_quoted
read_pair cs = refl

cons_behind : (s t : Chars) (q : ℕ) → (d : ℕ) × (rest : Chars) × (s ++ (q ∷ t) ≡ d ∷ rest)
cons_behind [] t q = (q, t, refl)
cons_behind (c ∷ s) t q = (c, s ++ (q ∷ t), refl)

read_quoted-replace :
    (s rest : Chars)
    → AtEnd rest
    → read_quoted (replace_char b'"' (codes "\"\"") s ++ (b'"' ∷ rest)) ≡ (s, rest)
read_quoted-replace [] [] h = unfold read_quoted in refl
read_quoted-replace [] (c ∷ rest) h = unfold read_quoted ends_field in ground arith
read_quoted-replace (c ∷ s) rest h = elim (Bool-cases (c == b'"')) [
  | inl quote ↦ rw quote (read_pair _ ∙ rw (read_quoted-replace s rest h, (==_iff c b'"').0 quote))
  | inr plain ↦
      let (d, t, e) = cons_behind (replace_char b'"' (codes "\"\"") s) rest b'"' in
      rw (plain, e) (read_char c d t plain ∙ rw (← e, read_quoted-replace s rest h))
]

read_plain-field :
    (s rest : Chars)
    → All (λ c. ends_field c ≡ false) s
    → AtEnd rest
    → read_plain (s ++ rest) ≡ (s, rest)
unfolding read_plain
read_plain-field [] [] h k = refl
read_plain-field [] (c ∷ rest) h k = rw k
read_plain-field (c ∷ s) rest h k = rw (h.0, read_plain-field s rest h.1 k)

wcschr-none : (s : Chars) (ch : ℕ) → HasNoNul s → wcschr s ch ≡ none → All (λ c. c ≢ ch) s
unfolding wcschr sooner
wcschr-none [] ch h e = tt
wcschr-none (c ∷ s) ch h e = ground (arith, wcschr-none s ch h.1)

-- The field that `encode_csv` makes.
unfoldable pub csv_field : Option ℕ → Chars → Chars
csv_field none s = s
csv_field (some _) s = b'"' ∷ (replace_char b'"' (codes "\"\"") s ++ (b'"' ∷ []))

replace-HasNoNul : (s : Chars) → HasNoNul s → HasNoNul (replace_char b'"' (codes "\"\"") s)
replace-HasNoNul [] h = tt
replace-HasNoNul (c ∷ s) h = elim (Bool-cases (c == b'"')) [
  | inl quote ↦ rw quote (omega arith, (omega arith, replace-HasNoNul s h.1))
  | inr plain ↦ rw plain (h.0, replace-HasNoNul s h.1)
]

-- Nothing in the text that a reader takes for the end of a field or for an opening quote.
abbrev pub Ordinary : Chars → Type 0
Ordinary = All (λ c. (ends_field c ≡ false) × (c ≢ b'"'))

Ordinary-ends : (s : Chars) → Ordinary s → All (λ c. ends_field c ≡ false) s
Ordinary-ends [] h = tt
Ordinary-ends (c ∷ s) h = (h.0.0, Ordinary-ends s h.1)

read-Ordinary : (s rest : Chars) → Ordinary s → AtEnd rest → read_field (s ++ rest) ≡ (s, rest)
unfolding read_field
read-Ordinary [] [] h k = refl
read-Ordinary [] (c ∷ rest) h k = unfold read_plain ends_field in ground arith
read-Ordinary (c ∷ s) rest h k =
    rw (not_eq c b'"' h.0.1) (read_plain-field (c ∷ s) rest (Ordinary-ends (c ∷ s) h) k)
  where
    not_eq : (a b : ℕ) → a ≢ b → (a == b) ≡ false
    not_eq a b x = ground arith

module _ {W : Type 0} {E : Error → Type 0} (lib : Ovstr W) (laws : OvstrLaws lib E) where
  quoted_field :
      (i : ℕ) (t : Chars)
      → HasNoNul t
      → Meets E (λ r. r ≡ csv_field (some i) t) (encode_if lib (some i) t)
  unfolding encode_if csv_field
  quoted_field i t k =
      let clean = replace-HasNoNul t k in
      >>=-Meets (laws.sreplace_all_lem t b'"' (codes "\"\"") k) λ ws e. rw e (
        >>=-Meets (laws.scpym_lem _) λ tmp f.
          rw (f, c_str-HasNoNul _ clean)
            (weaken-Meets (laws.scpy_lem _) λ r g.
              g
              ∙ ap (◌∷◌ b'"')
                  (c_str-HasNoNul _ (HasNoNul-append _ (b'"' ∷ []) clean (omega arith)))))

  pub encode_csv-Meets :
      (s : Chars) → HasNoNul s → Meets E (λ r. r ≡ csv_field (wcschr s b',') s) (encode_csv lib s)
  unfolding encode_csv
  encode_csv-Meets s h = elim (Option-cases (wcschr s b',')) [
    | inl e ↦ rw e (unfold encode_if csv_field in pure-Meets s refl)
    | inr (i, e) ↦ rw e (quoted_field i s h)
  ]

  -- For a text without NUL that has a comma, or else no quote and no line break, a reader of CSV
  -- fields takes the text back from what encode_csv makes, whatever stands behind it in the table,
  -- or the call ends in an error of the string library.
  pub encode_csv-read :
      (s rest : Chars)
      → HasNoNul s
      → (wcschr s b',' ≢ none) ⊎ Ordinary s
      → AtEnd rest
      → Meets E (λ r. read_field (r ++ rest) ≡ (s, rest)) (encode_csv lib s)
  encode_csv-read s rest h k a = weaken-Meets (encode_csv-Meets s h) λ r e.
      rw e (elim (Option-cases (wcschr s b',')) [
        | inl plain ↦ rw plain (elim k [
          | inl comma ↦ absurd (comma plain)
          | inr o ↦ unfold csv_field in read-Ordinary s rest o a
        ])
        | inr (i, comma) ↦
            rw comma (unfold csv_field read_field in rw append_assoc (read_quoted-replace s rest a))
      ])

  -- For a text without NUL and comma, with a line feed behind a first part that has no quote and
  -- no line break, the reader takes only that first part back from what encode_csv makes, or the
  -- call ends in an error of the string library.
  pub encode_csv-line_break :
      (c : ℕ) (s t rest : Chars)
      → HasNoNul ((c ∷ s) ++ (b'\n' ∷ t))
      → wcschr ((c ∷ s) ++ (b'\n' ∷ t)) b',' ≡ none
      → Ordinary (c ∷ s)
      → Meets E
          (λ r. read_field (r ++ rest) ≡ (c ∷ s, b'\n' ∷ (t ++ rest)))
          (encode_csv lib ((c ∷ s) ++ (b'\n' ∷ t)))
  encode_csv-line_break c s t rest h plain o = weaken-Meets (encode_csv-Meets _ h) λ r e.
      rw (e, plain)
        (unfold csv_field in
          rw append_assoc
            (read-Ordinary (c ∷ s) (b'\n' ∷ (t ++ rest)) o (unfold ends_field in refl)))
