-- ===== src/Ptklayer/Script.antt =====
-- The script that `build_siblings_script` of src/c/ptklayer.c writes for a slider.
use aviutl_psdtoolkit.Base.{
  ℕ, zero, suc, drop, ◌+◌, true, List, [], ◌∷◌, ◌++◌, Option, none, some, get_elem?, length,
  length-append, Chars, codes, c_str, c_str-HasNoNul, All, HasNoNul, HasNoNul-append, replace_char,
  concat, append_assoc, append-nil, ◌==◌, Bool-cases, inl, inr, Error, Meets, pure-Meets, >>=-Meets,
  weaken-Meets, Ovstr, OvstrLaws, ◌≡◌, refl, sym, ap, ◌∙◌, arith,
}
use aviutl_psdtoolkit.Luastr.Bounds.{quoted}
use aviutl_psdtoolkit.Luastr.Codec.{luastr_encode-Meets, quoted-HasNoNul}
use aviutl_psdtoolkit.Ptklayer.Types.{Item, Ptklayer, is_faview, wcsrchr}
use aviutl_psdtoolkit.Ptklayer.Names.{
  behind_last, slider_name_to_readable, group_name, at_item, with_item,
  ptklayer_get_readable_group_name,
}
use aviutl_psdtoolkit.Ptklayer.Siblings.{enumerate_of, enumerate_siblings}
use aviutl_psdtoolkit.Ptklayer.Group.{picked, push_all-Meets}
use aviutl_psdtoolkit.Ptklayer.Export.{element, script_values, build_siblings_script}

-- One line of the table for each item.
unfoldable pub value_lines : List Item → Chars
value_lines [] = []
value_lines (x ∷ xs) = codes "  " ++ (quoted x.value ++ (codes ",\r\n" ++ value_lines xs))

-- The whole script: the track bar, the table, and the call.
unfoldable pub script_text : (ℕ → Chars) → Chars → List Item → Chars
script_text ov_utoa group items =
    (codes "--track0:"
      ++ (group
          ++ (codes ",0," ++ (ov_utoa (length items) ++ codes ",0,1\r\nlocal values= {\r\n"))))
    ++ (value_lines items ++ codes "}\r\nPSD:addstate(values, obj.track0)\r\n")

abbrev pub Clean : List Item → Type 0
Clean = All (λ x. HasNoNul x.value)

get_elem?-middle :
    (pre : List Item) (x : Item) (xs : List Item)
    → get_elem? (pre ++ (x ∷ xs)) (length pre) ≡ some x
get_elem?-middle [] x xs = refl
get_elem?-middle (y ∷ pre) x xs = get_elem?-middle pre x xs

value_lines-HasNoNul : (xs : List Item) → Clean xs → HasNoNul (value_lines xs)
unfolding value_lines
value_lines-HasNoNul [] h = tt
value_lines-HasNoNul (x ∷ xs) h = (
  omega arith,
  (
    omega arith,
    HasNoNul-append (quoted x.value) _ (quoted-HasNoNul x.value h.0)
        (omega arith, (omega arith, (omega arith, value_lines-HasNoNul xs h.1))),
  ),
)

length-picked : (i : ℕ) (xs : List Item) → length (picked (λ _. true) i xs) ≡ length xs
unfolding picked
length-picked i [] = refl
length-picked i (x ∷ xs) = ap suc (length-picked (i + 1) xs)

drop-HasNoNul : (n : ℕ) (s : Chars) → HasNoNul s → HasNoNul (drop n s)
drop-HasNoNul zero s h = h
drop-HasNoNul (suc n) [] h = tt
drop-HasNoNul (suc n) (c ∷ s) h = drop-HasNoNul n s h.1

behind_last-HasNoNul : (o : Option ℕ) (s : Chars) → HasNoNul s → HasNoNul (behind_last o s)
unfolding behind_last
behind_last-HasNoNul none s h = h
behind_last-HasNoNul (some i) s h = drop-HasNoNul (i + 1) s h

underscores-HasNoNul : (s : Chars) → HasNoNul s → HasNoNul (replace_char b',' (codes "_") s)
underscores-HasNoNul [] h = tt
underscores-HasNoNul (c ∷ s) h = elim (Bool-cases (c == b',')) [
  | inl comma ↦ rw comma (omega arith, underscores-HasNoNul s h.1)
  | inr other ↦ rw other (h.0, underscores-HasNoNul s h.1)
]

header_text :
    (group digits : Chars)
    → HasNoNul group
    → HasNoNul digits
    → concat (
        codes "--track0:"
        ∷ group
        ∷ codes ",0,"
        ∷ digits
        ∷ codes ",0,1\r\n"
        ∷ codes "local values= {\r\n"
        ∷ [])
      ≡ codes "--track0:"
        ++ (group ++ (codes ",0," ++ (digits ++ codes ",0,1\r\nlocal values= {\r\n")))
header_text group digits h k = rw (c_str-HasNoNul group h, c_str-HasNoNul digits k)

script_text-HasNoNul :
    (ov_utoa : ℕ → Chars) (group : Chars) (items : List Item)
    → HasNoNul group
    → HasNoNul (ov_utoa (length items))
    → Clean items
    → HasNoNul (script_text ov_utoa group items)
unfolding script_text
script_text-HasNoNul ov_utoa group items h k c =
    HasNoNul-append
      (codes "--track0:"
        ++ (group
            ++ (codes ",0," ++ (ov_utoa (length items) ++ codes ",0,1\r\nlocal values= {\r\n"))))
      _
      (HasNoNul-append (codes "--track0:") _ (omega arith) (
        HasNoNul-append group _ h (
          HasNoNul-append (codes ",0,") _ (omega arith)
            (HasNoNul-append (ov_utoa (length items)) _ k (omega arith)))))
      (HasNoNul-append (value_lines items) _ (value_lines-HasNoNul items c) (omega arith))

-- What the calls have put together is the script.
written :
    (ov_utoa : ℕ → Chars) (group : Chars) (items : List Item) (n : ℕ)
    → n ≡ length items
    → HasNoNul group
    → ((m : ℕ) → HasNoNul (ov_utoa m))
    → Clean items
    → c_str (
        (concat (
            codes "--track0:"
            ∷ group
            ∷ codes ",0,"
            ∷ ov_utoa n
            ∷ codes ",0,1\r\n"
            ∷ codes "local values= {\r\n"
            ∷ [])
          ++ value_lines items)
        ++ concat (codes "}\r\n" ∷ codes "PSD:addstate(values, obj.track0)\r\n" ∷ []))
      ≡ script_text ov_utoa group items
unfolding script_text
written ov_utoa group items n e h digits c =
    let whole =
      c_str-HasNoNul _ (script_text-HasNoNul ov_utoa group items h (digits (length items)) c) in
    let end = codes "}\r\nPSD:addstate(values, obj.track0)\r\n" in
    let same =
      header_text group (ov_utoa n) h (digits n)
      ∙ ap
          (λ (m : ℕ).
            codes "--track0:"
            ++ (group ++ (codes ",0," ++ (ov_utoa m ++ codes ",0,1\r\nlocal values= {\r\n"))))
          e in
    ap (λ (t : Chars). c_str ((t ++ value_lines items) ++ end)) same
    ∙ ap c_str (
        append_assoc
          (codes "--track0:"
            ++ (group
                ++ (codes ",0,"
                    ++ (ov_utoa (length items) ++ codes ",0,1\r\nlocal values= {\r\n"))))
          (value_lines items) end)
    ∙ whole

picked_cons :
    (i : ℕ) (x : Item) (xs : List Item)
    → picked (λ _. true) i (x ∷ xs) ≡ i ∷ picked (λ _. true) (i + 1) xs
unfolding picked
picked_cons i x xs = refl

length-snoc : (pre : List Item) (x : Item) → length (pre ++ (x ∷ [])) ≡ length pre + 1
length-snoc pre x = omega (arith, length-append {0} pre (x ∷ []))

module _ {W : Type 0} {E : Error → Type 0} (lib : Ovstr W) (laws : OvstrLaws lib E) where
  element-Meets :
      (o : Option Item) (x : Item) → o ≡ some x → Meets {W = W} E (λ item. item ≡ x) (element o)
  unfolding element
  element-Meets none x h = cc
  element-Meets (some y) x h = pure-Meets y (cc)

  script_round :
      {Q : Chars → Type 0} (pi : Ptklayer) (i : ℕ) (is : List ℕ) (x : Item) (tmp : Chars)
      → get_elem? pi.items i ≡ some x
      → HasNoNul x.value
      → Meets E Q
          (script_values lib pi is (tmp ++ (codes "  " ++ (quoted x.value ++ codes ",\r\n"))))
      → Meets E Q (script_values lib pi (i ∷ is) tmp)
  unfolding script_values
  script_round pi i is x tmp at clean h =
      let unquote = c_str-HasNoNul _ (quoted-HasNoNul x.value clean) in
      >>=-Meets (element-Meets _ x at) λ item same. rw same (
        >>=-Meets (luastr_encode-Meets lib laws x.value none) λ value v.
          >>=-Meets (laws.scatm_lem tmp _) λ tmp2 t.
            let w : c_str value ≡ quoted x.value = ap c_str (v ∙ unquote) ∙ unquote in rw (t, w) h)

  script_values-Meets :
      (pi : Ptklayer) (pre suf : List Item) (tmp : Chars)
      → pi.items ≡ pre ++ suf
      → Clean suf
      → Meets E
          (λ r. r ≡ tmp ++ value_lines suf)
          (script_values lib pi (picked (λ _. true) (length pre) suf) tmp)
  script_values-Meets pi pre [] tmp e h =
      unfold script_values picked value_lines in pure-Meets tmp (sym (append-nil tmp))
  script_values-Meets pi pre (x ∷ xs) tmp e h = rw picked_cons (
      script_round pi (length pre) _ x tmp (rw e (get_elem?-middle pre x xs)) h.0 (
        rw (← length-snoc pre x) (
          weaken-Meets
            (script_values-Meets pi (pre ++ (x ∷ [])) xs _ (e ∙ sym (append_assoc pre (x ∷ []) xs))
              h.1)
            λ r q. q ∙ unfold value_lines in simp append_assoc)))

  enumerate-slider :
      (pi : Ptklayer) (idx : ℕ) (item : Item) (slider : Chars)
      → pi.slider_name ≡ some slider
      → get_elem? pi.items idx ≡ some item
      → Meets E (λ is. is ≡ picked (λ _. true) 0 pi.items) (enumerate_siblings lib pi idx)
  unfolding enumerate_siblings enumerate_of is_faview
  enumerate-slider pi idx item slider named at =
      rw (at, enumerate_of) (rw (named, is_faview) (push_all-Meets lib laws 0 pi.items []))

  group-slider :
      (pi : Ptklayer) (idx : ℕ) (item : Item) (slider : Chars)
      → pi.slider_name ≡ some slider
      → get_elem? pi.items idx ≡ some item
      → HasNoNul slider
      → Meets E
          (λ g. g ≡ behind_last (wcsrchr slider b'\\') slider)
          (ptklayer_get_readable_group_name lib (some pi) idx (some none))
  unfolding ptklayer_get_readable_group_name with_item at_item group_name slider_name_to_readable
  group-slider pi idx item slider named at clean =
      rw (at, at_item)
        (rw (named, group_name)
          (weaken-Meets (laws.scpy_lem _)
            λ g h. h ∙ c_str-HasNoNul _ (behind_last-HasNoNul (wcsrchr slider b'\\') slider clean)))

  -- For a slider with a name, item values and decimal numbers without NUL and an index in range,
  -- build_siblings_script gives the track bar line with the last part of the slider's name (each
  -- comma an underscore) and the number of items, the table of all values as Lua literals in
  -- order, and the final call, or an error of the string library.
  pub build_siblings_script-slider :
      (ov_utoa : ℕ → Chars) (pi : Ptklayer) (idx : ℕ) (item : Item) (slider : Chars)
      → pi.slider_name ≡ some slider
      → get_elem? pi.items idx ≡ some item
      → HasNoNul slider
      → Clean pi.items
      → ((n : ℕ) → HasNoNul (ov_utoa n))
      → Meets E
          (λ r.
            r
            ≡ script_text ov_utoa
                (replace_char b',' (codes "_") (behind_last (wcsrchr slider b'\\') slider))
                pi.items)
          (build_siblings_script lib ov_utoa pi idx)
  unfolding build_siblings_script
  build_siblings_script-slider ov_utoa pi idx item slider named at clean values digits =
      let g = behind_last (wcsrchr slider b'\\') slider in
      let group = replace_char b',' (codes "_") g in
      let g_clean = behind_last-HasNoNul (wcsrchr slider b'\\') slider clean in
      let group_clean = underscores-HasNoNul g g_clean in
      >>=-Meets (enumerate-slider pi idx item slider named at) λ is a.
        >>=-Meets (group-slider pi idx item slider named at clean) λ g1 b. rw b (
          >>=-Meets (laws.sreplace_all_lem g b',' (codes "_") g_clean) λ g2 c. rw c (
            >>=-Meets (laws.scpym_lem _) λ tmp d.
              rw (a, d)
                (>>=-Meets (script_values-Meets pi [] pi.items _ refl values) λ tmp2 e. rw e (
                  >>=-Meets (laws.scatm_lem _ _) λ tmp3 f. rw f (
                    weaken-Meets (laws.scpy_lem _) λ r h.
                      h
                      ∙ written ov_utoa group pi.items (length is)
                          (ap length a ∙ length-picked 0 pi.items) group_clean digits values)))))
