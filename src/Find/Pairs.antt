-- ===== src/Find/Pairs.antt =====
-- The pairs of controls that src/c/find.c looks for, and their order on the screen.
use aviutl_psdtoolkit.Base.{
  ℕ, suc, ◌+◌, ◌-◌, ◌≤◌, ◌<◌, Bool, true, false, ◌&&◌, Bool-cases, List, [], ◌∷◌, map, Option, none,
  some, if◌then◌else◌, All, Distinct, length-le-bound, same_text, length, Chars, codes, ltℤ,
  ltℤ-shift, ◌+ℤ◌, ==_iff, ◌≡◌, ◌⊎◌, inl, inr, refl, sym, ap, subst, ◌∙◌, arith,
}
use aviutl_psdtoolkit.Find.Search.{window, Windows, no_windows, next_window}
use aviutl_psdtoolkit.Find.Order.{Sorted, NotBelow}
use aviutl_psdtoolkit.Find.Dialog.{
  Rect, Point, Control, MultiParameterDialog, Layout, is_label_id, is_dialog, fits_beside, moved,
  placed, with_edit, control_of,
}

and_left : (a b : Bool) → (a && b) ≡ true → a ≡ true
and_left true b e = refl
and_left false b e = absurd (cc)

and_right : (a b : Bool) → (a && b) ≡ true → b ≡ true
and_right true b e = e
and_right false b e = absurd (cc)

length-map_edits : (cs : List Control) → length (map (λ c. c.edit) cs) ≡ length cs
length-map_edits [] = refl
length-map_edits (c ∷ cs) = ap suc (length-map_edits cs)

-- One of the windows is a visible dialog of the process `me`, with the handle `h`.
abbrev pub IsOwnDialog : ℕ → ℕ → Windows → Type 0
IsOwnDialog me h no_windows = ⊥
IsOwnDialog me h (next_window (window hwnd pid style class visible children) rest) =
    ((h ≡ hwnd) × (same_text class (codes "#32770") ≡ true) × (pid ≡ me) × (visible ≡ true))
    ⊎ IsOwnDialog me h rest

pub own_dialog :
    (me h pid style : ℕ) (class : Chars) (visible : Bool) (children : Windows)
    → is_dialog me (window h pid style class visible children) ≡ true
    → (h ≡ h) × (same_text class (codes "#32770") ≡ true) × (pid ≡ me) × (visible ≡ true)
unfolding is_dialog
own_dialog me h pid style class visible children e = (
  refl,
  and_left _ _ (and_left _ _ e),
  (==_iff pid me).0 (and_right _ _ (and_left _ _ e)),
  and_right _ _ e,
)

module _ (screen : Layout) where
  -- The labels of a dialog, by their number from 131 on.
  abbrev pub label_numbers : Windows → List ℕ
  label_numbers no_windows = []
  label_numbers (next_window (window label pid style class visible children) rest) =
      if same_text class (codes "Static") && is_label_id (screen.get_dlg_ctrl_id label)
      then (screen.get_dlg_ctrl_id label - 131) ∷ label_numbers rest
      else label_numbers rest

  -- No two labels of a dialog have the same id.
  abbrev pub DistinctLabels : Windows → Type 0
  DistinctLabels no_windows = Unit
  DistinctLabels (next_window (window h pid style class visible children) rest) =
      Distinct (label_numbers children) × DistinctLabels rest

  -- A label, and the visible edit control whose id is 40 higher.
  abbrev pub Pair : ℕ → ℕ → ℕ → Type 0
  Pair h label edit =
      (is_label_id (screen.get_dlg_ctrl_id label) ≡ true)
      × (screen.get_dlg_item h (screen.get_dlg_ctrl_id label + 40) ≡ some edit)
      × (screen.is_window_visible edit ≡ true)
      × ((r : Rect) × (screen.get_window_rect edit ≡ some r))

  -- The two arrays go together.
  abbrev pub Pairs : ℕ → List ℕ → List ℕ → Type 0
  Pairs h [] [] = Unit
  Pairs h (label ∷ labels) (edit ∷ edits) = Pair h label edit × Pairs h labels edits
  Pairs h _ _ = ⊥

  -- On the screen the window `a` does not begin below `b`.
  abbrev pub Above : ℕ → ℕ → Type 0
  Above a b =
      (ra rb : Rect)
      → screen.get_window_rect a ≡ some ra
      → screen.get_window_rect b ≡ some rb
      → ltℤ rb.top ra.top ≡ false

  -- A pair, with the place of the edit control on the screen moved by `pt`.
  abbrev pub Paired : Point → ℕ → Control → Type 0
  Paired pt h c =
      (is_label_id (screen.get_dlg_ctrl_id c.label) ≡ true)
      × (screen.get_dlg_item h (screen.get_dlg_ctrl_id c.label + 40) ≡ some c.edit)
      × (screen.is_window_visible c.edit ≡ true)
      × ((r : Rect) × (screen.get_window_rect c.edit ≡ some r) × (c.edit_rect ≡ moved pt r))

  abbrev pub PairedIf : Point → ℕ → Option Control → Type 0
  PairedIf pt h none = Unit
  PairedIf pt h (some c) = Paired pt h c

  Paired-Pairs :
      (pt : Point) (h : ℕ) (cs : List Control)
      → All (Paired pt h) cs
      → Pairs h (map (λ c. c.label) cs) (map (λ c. c.edit) cs)
  Paired-Pairs pt h [] k = tt
  Paired-Pairs pt h (c ∷ cs) ((i, e, v, (r, at, m)), l) =
      ((i, e, v, (r, at)), Paired-Pairs pt h cs l)

  NotBelow-Above :
      (pt : Point) (h : ℕ) (a b : Control)
      → Paired pt h a
      → Paired pt h b
      → NotBelow a b
      → Above a.edit b.edit
  unfolding moved
  NotBelow-Above pt h a b (i, e, v, (r, at, m)) (i', e', v', (r', at', m')) o ra rb fa fb =
      let same : r ≡ ra = cc in
      let same' : r' ≡ rb = cc in
      rw (← same, ← same')
        (sym (ltℤ-shift r'.top r.top pt.y)
          ∙ sym (ap (λ x. ltℤ x.top (r.top +ℤ pt.y)) m')
          ∙ sym (ap (λ x. ltℤ b.edit_rect.top x.top) m)
          ∙ o)

  Above-All :
      (pt : Point) (h : ℕ) (a : Control) (cs : List Control)
      → Paired pt h a
      → All (Paired pt h) cs
      → All (NotBelow a) cs
      → All (Above a.edit) (map (λ c. c.edit) cs)
  Above-All pt h a [] p ps o = tt
  Above-All pt h a (c ∷ cs) p (q, qs) (o, os) =
      (NotBelow-Above pt h a c p q o, Above-All pt h a cs p qs os)

  NotBelow-Sorted :
      (pt : Point) (h : ℕ) (cs : List Control)
      → All (Paired pt h) cs
      → Sorted NotBelow cs
      → Sorted Above (map (λ c. c.edit) cs)
  NotBelow-Sorted pt h [] ps o = tt
  NotBelow-Sorted pt h (c ∷ cs) (p, ps) (o, os) =
      (Above-All pt h c cs p ps o, NotBelow-Sorted pt h cs ps os)

  label_below : (n : ℕ) → is_label_id n ≡ true → (n - 131 < 40) × (n - 131 + 171 ≡ n + 40)
  unfolding is_label_id
  label_below n e = ground arith

  label_numbers-below : (ws : Windows) → All (λ n. n < 40) (label_numbers ws)
  label_numbers-below no_windows = tt
  label_numbers-below (next_window (window label pid style class visible children) rest) =
      elim (Bool-cases
        (same_text class (codes "Static") && is_label_id (screen.get_dlg_ctrl_id label))) [
          | inl e ↦ rw e ((label_below _ (and_right _ _ e)).0, label_numbers-below rest)
          | inr e ↦ rw e (label_numbers-below rest)
        ]

  pub label_numbers-length :
      (ws : Windows) → Distinct (label_numbers ws) → length (label_numbers ws) ≤ 40
  label_numbers-length ws d = length-le-bound 40 (label_numbers ws) d (label_numbers-below ws)

  module _ (h : ℕ) (wnd : Rect) (pt : Point) (label : ℕ) where
    placed-PairedIf :
        (edit : ℕ) (l e : Option Rect)
        → is_label_id (screen.get_dlg_ctrl_id label) ≡ true
        → screen.get_dlg_item h (screen.get_dlg_ctrl_id label + 40) ≡ some edit
        → screen.is_window_visible edit ≡ true
        → screen.get_window_rect edit ≡ e
        → PairedIf pt h (placed screen wnd pt label edit l e)
    unfolding placed
    placed-PairedIf edit none e i k v at = tt
    placed-PairedIf edit (some l) none i k v at = tt
    placed-PairedIf edit (some l) (some e) i k v at =
        elim (Bool-cases (fits_beside wnd (moved pt l) (moved pt e))) [
          | inl b ↦ rw b (i, k, v, (e, at, refl))
          | inr b ↦ rw b tt
        ]

    with_edit-PairedIf :
        (o : Option ℕ)
        → is_label_id (screen.get_dlg_ctrl_id label) ≡ true
        → screen.get_dlg_item h (screen.get_dlg_ctrl_id label - 131 + 171) ≡ o
        → PairedIf pt h (with_edit screen wnd pt label o)
    unfolding with_edit
    with_edit-PairedIf none i e = tt
    with_edit-PairedIf (some edit) i e = elim (Bool-cases (screen.is_window_visible edit)) [
      | inl v ↦ rw v (
          placed-PairedIf edit (screen.get_window_rect label) (screen.get_window_rect edit) i
            (subst (λ n. screen.get_dlg_item h n ≡ some edit) (label_below _ i).1 e) v refl)
      | inr v ↦ rw v tt
    ]

    pub control_of-PairedIf :
        (visible : Bool) → PairedIf pt h (control_of screen h wnd pt label visible)
    unfolding control_of
    control_of-PairedIf visible =
        elim (Bool-cases (is_label_id (screen.get_dlg_ctrl_id label) && visible)) [
          | inl e ↦ rw e (with_edit-PairedIf _ (and_left _ _ e) refl)
          | inr e ↦ rw e tt
        ]

    pub control_of_off :
        (visible : Bool)
        → is_label_id (screen.get_dlg_ctrl_id label) ≡ false
        → control_of screen h wnd pt label visible ≡ none
    unfolding control_of
    control_of_off visible e = rw e refl

  -- What a result shows.
  abbrev pub Shows : ℕ → Windows → MultiParameterDialog → Type 0
  Shows me desktop dlg =
      IsOwnDialog me dlg.dialog desktop
      × Pairs dlg.dialog dlg.labels dlg.edits
      × (0 < length dlg.edits)
      × (length dlg.edits ≤ 40)
      × Sorted Above dlg.edits

  pub stored-Shows :
      (me : ℕ) (desktop : Windows) (h : ℕ) (cs : List Control) (pt : Point)
      → IsOwnDialog me h desktop
      → All (Paired pt h) cs
      → 0 < length cs
      → length cs ≤ 40
      → Sorted NotBelow cs
      → Shows me desktop
          (record { dialog = h; labels = map (λ c. c.label) cs; edits = map (λ c. c.edit) cs })
  stored-Shows me desktop h cs pt own paired lo hi sorted = (
    own,
    Paired-Pairs pt h cs paired,
    omega (arith, lo, length-map_edits cs),
    omega (arith, hi, length-map_edits cs),
    NotBelow-Sorted pt h cs paired sorted,
  )
