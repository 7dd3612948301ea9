-- ===== src/Find/Located.antt =====
-- The edit control that `find_exedit_multi_line_text` of src/c/find.c finds.
use aviutl_psdtoolkit.Base.{
  ℕ, ◌/◌, ◌%◌, Bool, true, false, ◌&&◌, Bool-cases, ==_iff, true-ne-false, List, [], ◌∷◌, ◌++◌,
  Option, none, some, ◌==◌, same_text, All, HasNoNul, Chars, codes, M, pure, not_found, Error,
  Meets, pure-Meets, raise-Meets, >>=-Meets, errors-Meets, weaken-Meets, Ovstr, OvstrLaws, OccursAt,
  FirstAt, ◌≡◌, ◌⊎◌, inl, inr, refl, sym, ap, ◌∙◌,
}
use aviutl_psdtoolkit.Find.Search.{
  Window, window, Windows, no_windows, next_window, is_multi_line, find_extended_filter_window,
  found_or, find_edit, find_in, find_exedit_multi_line_text,
}
use aviutl_psdtoolkit.Find.Wrapper.{find_exedit_multi_line_text-top_level}

abbrev pub to_list : Windows → List Window
to_list no_windows = []
to_list (next_window w rest) = w ∷ to_list rest

abbrev pub handle_of : Window → ℕ
handle_of (window hwnd pid style class visible children) = hwnd

abbrev pub children_of : Window → Windows
children_of (window hwnd pid style class visible children) = children

-- The first of the windows with the property, or that none has it.
abbrev pub First : (Window → Type 0) → Windows → Window → Type 0
First P ws w =
    (before after : List Window) × (to_list ws ≡ before ++ (w ∷ after))
    × All (λ v. ¬ P v) before
    × P w

abbrev pub NoneOf : (Window → Type 0) → Windows → Type 0
NoneOf P ws = All (λ v. ¬ P v) (to_list ws)

-- A visible window of the editor's class in the process `me`.
abbrev pub IsEditor : ℕ → Window → Type 0
IsEditor me (window hwnd pid style class visible children) =
    (same_text class (codes "ExtendedFilterClass") ≡ true) × (pid ≡ me) × (visible ≡ true)

-- A visible edit control with ES_MULTILINE and ES_WANTRETURN that shows the text.
abbrev pub IsTarget : (ℕ → Chars) → Chars → Window → Type 0
IsTarget text included (window hwnd pid style class visible children) =
    (same_text class (codes "Edit") ≡ true)
    × (visible ≡ true)
    × ((style / 4) % 2 ≡ 1)
    × ((style / 4096) % 2 ≡ 1)
    × ((p : ℕ) × OccursAt included (text hwnd) p)

-- No window of the editor, or none with the control in the first.
abbrev pub Absent : (ℕ → Chars) → Chars → ℕ → Windows → Type 0
Absent text included me desktop =
    NoneOf (IsEditor me) desktop
    ⊎ ((w : Window) × First (IsEditor me) desktop w
        × NoneOf (IsTarget text included) (children_of w))

abbrev pub Located : (ℕ → Chars) → Chars → ℕ → Windows → ℕ × ℕ → Type 0
Located text included me desktop r =
    (w c : Window) × First (IsEditor me) desktop w
    × First (IsTarget text included) (children_of w) c
    × (r ≡ (handle_of w, handle_of c))

First-here :
    (P : Window → Type 0) (w : Window) (rest : Windows) → P w → First P (next_window w rest) w
First-here P w rest h = ([], to_list rest, refl, tt, h)

First-later :
    (P : Window → Type 0) (v w : Window) (rest : Windows)
    → ¬ P v
    → First P rest w
    → First P (next_window v rest) w
First-later P v w rest n (before, after, e, k, h) =
    (v ∷ before, after, ap (λ l. v ∷ l) e, (n, k), h)

-- What the search for the editor's window answers.
abbrev Answers : ℕ → Windows → Option Window → Type 0
Answers me ws none = NoneOf (IsEditor me) ws
Answers me ws (some w) = First (IsEditor me) ws w

Answers-later :
    (me : ℕ) (v : Window) (rest : Windows) (o : Option Window)
    → ¬ IsEditor me v
    → Answers me rest o
    → Answers me (next_window v rest) o
Answers-later me v rest none n h = (n, h)
Answers-later me v rest (some w) n h = First-later (IsEditor me) v w rest n h

all_three : (a b c : Bool) → (a && b && c) ≡ true → (a ≡ true) × (b ≡ true) × (c ≡ true)
all_three true true true e = (refl, refl, refl)
all_three false b c e = absurd (cc)
all_three true false c e = absurd (cc)
all_three true true false e = absurd (cc)

three : (a b c : Bool) → a ≡ true → b ≡ true → c ≡ true → (a && b && c) ≡ true
three a b c e f g = rw (e, f, g) refl

find_extended_filter_window-Answers :
    (me : ℕ) (ws : Windows) → Answers me ws (find_extended_filter_window me ws)
unfolding find_extended_filter_window
find_extended_filter_window-Answers me no_windows = tt
find_extended_filter_window-Answers me
      (next_window (window hwnd pid style class visible children) rest) =
    elim (Bool-cases (same_text class (codes "ExtendedFilterClass") && pid == me && visible)) [
      | inl e ↦
          let (a, b, c) = all_three _ _ _ e in
          rw e (First-here (IsEditor me) _ rest (a, (==_iff pid me).0 b, c))
      | inr e ↦ rw e (
          Answers-later me (window hwnd pid style class visible children) rest
            (find_extended_filter_window me rest)
            (λ (a, b, c). true-ne-false (sym (three _ _ _ a ((==_iff pid me).1 b) c) ∙ e))
            (find_extended_filter_window-Answers me rest))
    ]

both_true : (a b : Bool) → (a && b) ≡ true → (a ≡ true) × (b ≡ true)
both_true true true e = (refl, refl)
both_true false b e = absurd (cc)
both_true true false e = absurd (cc)

multi_line_bits :
    (style : ℕ) → (is_multi_line style ≡ true) → ((style / 4) % 2 ≡ 1) × ((style / 4096) % 2 ≡ 1)
unfolding is_multi_line
multi_line_bits style e = let (a, b) = both_true _ _ e in ((==_iff _ _).0 a, (==_iff _ _).0 b)

multi_line_true :
    (style : ℕ) → (style / 4) % 2 ≡ 1 → (style / 4096) % 2 ≡ 1 → is_multi_line style ≡ true
unfolding is_multi_line
multi_line_true style a b = rw (a, b) refl

module _ {W : Type 0} {E : Error → Type 0} (lib : Ovstr W) (laws : OvstrLaws lib E)
    (get_window_text : ℕ → M W Chars) (text : ℕ → Chars)
    (get_window_text_lem : (h : ℕ) → Meets E (λ s. s ≡ text h) (get_window_text h))
    (clean : (h : ℕ) → HasNoNul (text h)) (included : Chars) (clean' : HasNoNul included) where
  abbrev Fails : Type 0 → Error → Type 0
  Fails missing e = ((e ≡ not_found) × missing) ⊎ E e

  abbrev FoundIn : ℕ → Windows → ℕ × ℕ → Type 0
  FoundIn wnd ws r = (c : Window) × First (IsTarget text included) ws c × (r ≡ (wnd, handle_of c))

  skipped-Meets :
      (wnd : ℕ) (v : Window) (rest : Windows) (m : M W (ℕ × ℕ))
      → ¬ IsTarget text included v
      → Meets (Fails (NoneOf (IsTarget text included) rest)) (FoundIn wnd rest) m
      → Meets
          (Fails (NoneOf (IsTarget text included) (next_window v rest)))
          (FoundIn wnd (next_window v rest))
          m
  skipped-Meets wnd v rest m n h =
      errors-Meets (λ e. elim [ inl (k, l) ↦ inl (k, (n, l)) | inr k ↦ inr k ])
        (weaken-Meets h (λ r (c, f, e). (c, First-later (IsTarget text included) v c rest n f, e)))

  -- The text of a control that passes the other tests decides.
  decided-Meets :
      (wnd hwnd pid style : ℕ) (class : Chars) (visible : Bool) (children rest : Windows)
      (later : M W (ℕ × ℕ)) (s : Chars) (pos : Option ℕ)
      → ((p : ℕ)
          → OccursAt included (text hwnd) p
          → IsTarget text included (window hwnd pid style class visible children))
      → s ≡ text hwnd
      → FirstAt included s pos
      → Meets (Fails (NoneOf (IsTarget text included) rest)) (FoundIn wnd rest) later
      → Meets
          (Fails (
            NoneOf
              (IsTarget text included)
              (next_window (window hwnd pid style class visible children) rest)))
          (FoundIn wnd (next_window (window hwnd pid style class visible children) rest))
          (found_or lib get_window_text pos (pure (wnd, hwnd)) later)
  unfolding found_or
  decided-Meets wnd hwnd pid style class visible children rest later s none t e at h =
      skipped-Meets wnd (window hwnd pid style class visible children) rest later
        (λ (a, b, m, r, (p, o)). at p (rw e o)) h
  decided-Meets wnd hwnd pid style class visible children rest later s (some p) t e at h =
      pure-Meets _ (
        window hwnd pid style class visible children,
        First-here (IsTarget text included) _ rest (t p (rw (← e) at.0)),
        refl,
      )

  find_edit-Meets :
      (wnd : ℕ) (ws : Windows)
      → Meets
          (Fails (NoneOf (IsTarget text included) ws))
          (FoundIn wnd ws)
          (find_edit lib get_window_text included wnd ws)
  unfolding find_edit
  find_edit-Meets wnd no_windows = raise-Meets not_found (inl (refl, tt))
  find_edit-Meets wnd (next_window (window hwnd pid style class visible children) rest) =
      let v = window hwnd pid style class visible children in
      let later = find_edit-Meets wnd rest in
      elim (Bool-cases (same_text class (codes "Edit") && visible && is_multi_line style)) [
        | inl e ↦
            let (a, b, c) = all_three _ _ _ e in
            let (m, r) = multi_line_bits style c in
            rw e (
              >>=-Meets (errors-Meets (λ e. inr) (get_window_text_lem hwnd)) λ tmp is_text.
                >>=-Meets
                  (errors-Meets (λ e. inr)
                    (laws.sstr_lem tmp included (rw is_text (clean hwnd)) clean'))
                  λ pos at.
                    decided-Meets wnd hwnd pid style class visible children rest _ tmp pos
                      (λ p o. (a, b, m, r, (p, o))) is_text at later)
        | inr e ↦ rw e (
            skipped-Meets wnd v rest _
              (λ (a, b, m, r, o).
                true-ne-false (sym (three _ _ _ a b (multi_line_true style m r)) ∙ e))
              later)
      ]

  find_in-Meets :
      (me : ℕ) (desktop : Windows) (o : Option Window)
      → Answers me desktop o
      → Meets
          (λ e. ((e ≡ not_found) × Absent text included me desktop) ⊎ E e)
          (Located text included me desktop)
          (find_in lib get_window_text included o)
  unfolding find_in
  find_in-Meets me desktop none h = raise-Meets not_found (inl (refl, inl h))
  find_in-Meets me desktop (some (window hwnd pid style class visible children)) h =
      let w = window hwnd pid style class visible children in
      errors-Meets (λ e. elim [ inl (k, l) ↦ inl (k, inr (w, h, l)) | inr k ↦ inr k ])
        (weaken-Meets (find_edit-Meets hwnd children) (λ r (c, f, e). (w, c, h, f, e)))

  -- If the windows' texts and the text to include have no NUL, and get_window_text and sstr end as
  -- documented or in errors of E: find_exedit_multi_line_text gives the first visible top-level
  -- window of the editor's class in the plug-in's process, and its first visible edit control with
  -- ES_MULTILINE and ES_WANTRETURN whose text has the text to include; or it ends in
  -- err_not_found, when there is no such window or no such control in the first, or in an error of
  -- E. No window inside another is ever taken for the editor's.
  pub find_exedit_multi_line_text-Located :
      (me : ℕ) (desktop : Windows)
      → Meets
          (λ e. ((e ≡ not_found) × Absent text included me desktop) ⊎ E e)
          (Located text included me desktop)
          (find_exedit_multi_line_text lib get_window_text me desktop included)
  find_exedit_multi_line_text-Located me desktop =
      rw (find_exedit_multi_line_text-top_level lib get_window_text me desktop included)
        (find_in-Meets me desktop _ (find_extended_filter_window-Answers me desktop))
