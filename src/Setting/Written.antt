-- ===== src/Setting/Written.antt =====
-- The file of settings that src/c/setting.c writes, and what Lua reads from it.
use aviutl_psdtoolkit.Base.{
  ℕ, ◌^◌, ◌<◌, Bool, true, false, List, [], ◌∷◌, ◌++◌, append-nil, append_assoc, Option, none, some,
  Bool-cases, inl, inr, if◌then◌else◌, same_text, All, All-append, HasNoNul, HasNoNul-append,
  c_str-HasNoNul, Chars, codes, Error, Meets, pure-Meets, if-Meets, weaken-Meets, >>=-Meets, Ovstr,
  OvstrLaws, ◌≢◌, ◌≡◌, refl, sym, ap, ◌∙◌, arith,
}
use aviutl_psdtoolkit.Setting.Script.{
  Fields, with_field, lines_of, execute, run_script, value_of, IsBare, IsLine, IsBare-IsLine,
  lines_of-line, value_of-bare, value_of-quoted, assignment-line,
}
use aviutl_psdtoolkit.Setting.Props.{
  SettingDialog, Value, int, word, Prop, props, Files, value_text, line, write_prop, write_lines,
  props_text,
}

-- The fields after the lines have run.
unfoldable pub assigned : Fields → List Prop → Fields
assigned fields [] = fields
assigned fields (p ∷ ps) =
    assigned
      (λ x.
        if same_text p.name x then (if p.need_write then some p.value else fields x) else fields x)
      ps

-- `numeral` reads what `%d` has written.
pub record NumberLaws (format : ℕ → Chars) (numeral : Chars → ℕ) : Type 0 where
  pub bare : (n : ℕ) → IsBare (format n)
  pub back : (n : ℕ) → n < 2 ^ 32 → numeral (format n) ≡ n

-- A value of 32 bits, or a text that needs no escapes.
abbrev pub Holds : Value → Type 0
Holds (int n) = n < 2 ^ 32
Holds (word s) = IsBare s

abbrev pub Writable : Prop → Type 0
Writable p = IsBare p.name × Holds p.value

IsBare-HasNoNul : (s : Chars) → IsBare s → HasNoNul s
IsBare-HasNoNul [] h = tt
IsBare-HasNoNul (c ∷ s) h = (omega (arith, h.0), IsBare-HasNoNul s h.1)

module _ {W : Type 0} (lib : Ovstr W) (files : Files W) where
  -- The file's text, written at once.
  abbrev pub lines : List Prop → Chars
  lines [] = []
  lines (p ∷ ps) = (if p.need_write then line lib files p else []) ++ lines ps

  abbrev pub file_text : List Prop → Chars
  file_text ps = codes "local P = {}\r\n" ++ (lines ps ++ codes "return P\r\n")

  -- A line without its end.
  abbrev statement : Prop → Chars
  statement p = codes "P." ++ (p.name ++ (codes " = " ++ value_text lib files p.value))

  line-statement : (p : Prop) (s : Chars) → line lib files p ++ s ≡ statement p ++ (13 ∷ 10 ∷ s)
  unfolding line
  line-statement p s =
      let v = value_text lib files p.value in
      ap (λ t. codes "P." ++ t)
        (append_assoc p.name (codes " = " ++ (v ++ codes "\r\n")) s
          ∙ ap (λ t. p.name ++ (codes " = " ++ t)) (append_assoc v (codes "\r\n") s)
          ∙ sym (ap (λ t. p.name ++ (codes " = " ++ t)) refl)
          ∙ sym (append_assoc p.name (codes " = " ++ v) (13 ∷ 10 ∷ s)))

  module _ (numeral : Chars → ℕ) (numbers : NumberLaws files.format numeral) where
    value_text-IsLine : (v : Value) → Holds v → IsLine (value_text lib files v)
    unfolding value_text
    value_text-IsLine (int n) h = IsBare-IsLine (files.format n) (numbers.bare n)
    value_text-IsLine (word s) h = (
      omega arith,
      All-append (λ c. (c ≢ 10) × (c ≢ 13)) s (codes "\"") (IsBare-IsLine s h) (omega arith),
    )

    statement-IsLine : (p : Prop) → Writable p → IsLine (statement p)
    statement-IsLine p (n, v) =
        All-append (λ c. (c ≢ 10) × (c ≢ 13)) (codes "P.") _ (omega arith)
          (All-append (λ c. (c ≢ 10) × (c ≢ 13)) p.name _ (IsBare-IsLine p.name n)
            (All-append (λ c. (c ≢ 10) × (c ≢ 13)) (codes " = ") _ (omega arith)
              (value_text-IsLine p.value v)))

    value_of-value_text : (v : Value) → Holds v → value_of numeral (value_text lib files v) ≡ v
    unfolding value_text
    value_of-value_text (int n) h =
        value_of-bare numeral (files.format n) (numbers.bare n) ∙ ap int (numbers.back n h)
    value_of-value_text (word s) h = value_of-quoted numeral s h

    value_text-HasNoNul : (v : Value) → Holds v → HasNoNul (value_text lib files v)
    unfolding value_text
    value_text-HasNoNul (int n) h = IsBare-HasNoNul (files.format n) (numbers.bare n)
    value_text-HasNoNul (word s) h =
        (omega arith, HasNoNul-append s (codes "\"") (IsBare-HasNoNul s h) (omega arith))

    line-HasNoNul : (p : Prop) → Writable p → HasNoNul (line lib files p)
    unfolding line
    line-HasNoNul p (n, v) = HasNoNul-append (codes "P.") _ (omega arith) (
        HasNoNul-append p.name _ (IsBare-HasNoNul p.name n) (
          HasNoNul-append (codes " = ") _ (omega arith) (
            HasNoNul-append (value_text lib files p.value) (codes "\r\n")
              (value_text-HasNoNul p.value v) (omega arith))))

    -- Lua executes a line.
    execute-line :
        (p : Prop) (s : Chars) (fields : Fields)
        → Writable p
        → execute numeral (lines_of (line lib files p ++ s)) fields
          ≡ execute numeral (lines_of s) (with_field p.name p.value fields)
    unfolding same_text
    execute-line p s fields h =
        ap (λ t. execute numeral (lines_of t) fields) (line-statement p s)
        ∙ ap (λ ls. execute numeral ls fields)
            (lines_of-line (statement p) s (statement-IsLine p h))
        ∙ ap
            (λ a. elim a as (λ _. Option Fields) [
              | none ↦ none
              | some (name, v) ↦ execute numeral (lines_of s) (with_field name v fields)
            ])
            (assignment-line numeral p.name (value_text lib files p.value) h.0
              ∙ ap (λ v. some (p.name, v)) (value_of-value_text p.value h.1))

    -- A line that is not needed leaves every field.
    unneeded : (b : Bool) (o : Option Value) → (if b then o else o) ≡ o
    unneeded true o = refl
    unneeded false o = refl

    -- Lua executes the lines one after the other.
    execute-lines :
        (ps : List Prop) (fields : Fields)
        → All Writable ps
        → execute numeral (lines_of (lines ps ++ codes "return P\r\n")) fields
          ≡ some (assigned fields ps)
    unfolding assigned same_text line
    execute-lines [] fields h = refl
    execute-lines (p ∷ ps) fields (h, k) = elim (Bool-cases p.need_write) [
      | inl e ↦ rw e (
          ap (λ t. execute numeral (lines_of t) fields)
            (append_assoc (line lib files p) (lines ps) (codes "return P\r\n"))
          ∙ execute-line p (lines ps ++ codes "return P\r\n") fields h
          ∙ execute-lines ps (with_field p.name p.value fields) k)
      | inr e ↦ rw e (
          execute-lines ps fields k
          ∙ ap (λ (f : Fields). some (assigned f ps))
              (λ i x. sym (unneeded (same_text p.name x) (fields x)) i))
    ]

    pub run_script-file_text :
        (ps : List Prop)
        → All Writable ps
        → run_script numeral (file_text ps) ≡ some (assigned (λ name. none) ps)
    unfolding same_text
    run_script-file_text ps h = execute-lines ps (λ name. none) h

    module _ {E : Error → Type 0} (laws : OvstrLaws lib E) where
      write_lines-Meets :
          (s : Chars) (ps : List Prop)
          → All Writable ps
          → Meets E (λ r. r ≡ s ++ lines ps) (write_lines lib files s ps)
      unfolding write_lines write_prop line
      write_lines-Meets s [] h = pure-Meets s (sym (append-nil s))
      write_lines-Meets s (p ∷ ps) h =
          >>=-Meets {P = λ r. r ≡ s ++ (if p.need_write then line lib files p else [])}
            (if-Meets p.need_write
              (λ e. rw (e) (
                weaken-Meets (laws.scatm_lem s (line lib files p ∷ [])) (λ r hr.
                  hr
                  ∙ ap (λ t. s ++ t)
                      (append-nil _ ∙ c_str-HasNoNul (line lib files p) (line-HasNoNul p h.0)))))
              (λ e. rw (e) (pure-Meets s (sym (append-nil s)))))
            λ r hr.
              weaken-Meets (write_lines-Meets r ps h.1)
                (λ r2 hr2. hr2 ∙ ap (λ a. a ++ lines ps) hr ∙ append_assoc s _ (lines ps))

      pub props_text-Meets :
          (sd : SettingDialog)
          → All Writable (props sd)
          → Meets E (λ t. t ≡ file_text (props sd)) (props_text lib files sd)
      unfolding props_text
      props_text-Meets sd h = >>=-Meets (laws.scpy_lem (codes "local P = {}\r\n")) λ a ha.
          >>=-Meets (write_lines-Meets a (props sd) h) λ b hb.
            weaken-Meets (laws.scatm_lem b (codes "return P\r\n" ∷ [])) λ r hr.
              rw (hr, hb, ha)
                (append_assoc (codes "local P = {}\r\n") (lines (props sd)) (codes "return P\r\n"))
