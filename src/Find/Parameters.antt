-- ===== src/Find/Parameters.antt =====
-- What `find_exedit_multi_parameter_dialog` of src/c/find.c writes into its arrays.
use aviutl_psdtoolkit.Base.{
  All-append, ℕ, suc, ◌+◌, ◌≤◌, ◌<◌, Bool, Bool-cases, List, [], ◌∷◌, ◌++◌, map, Option, none, some,
  ltb, ◌==◌, All, Distinct, same_text, length, length-append, Chars, codes, append_assoc,
  append-nil, ℤ, pos, M, not_found, Error, Meets, pure-Meets, raise-Meets, >>=-Meets, if-Meets,
  errors-Meets, weaken-Meets, Ovstr, ◌≡◌, ◌⊎◌, inl, inr, refl, sym, subst, ◌∙◌, arith,
}
use aviutl_psdtoolkit.Find.Search.{window, Windows, no_windows, next_window}
use aviutl_psdtoolkit.Find.Order.{
  QsortLaws, control_compare-Comparison, Permᴰ-length, Permᴰ-All, InOrder-NotBelow,
}
use aviutl_psdtoolkit.Find.Dialog.{
  Rect, Point, Control, MultiParameterDialog, Layout, control_compare, is_label_id, is_dialog,
  control_of, push, collect, scan_dialog, enter_dialog, search_dialogs, store,
  find_exedit_multi_parameter_dialog,
}
use aviutl_psdtoolkit.Find.Pairs.{
  IsOwnDialog, own_dialog, label_numbers, DistinctLabels, Paired, PairedIf, Shows, stored-Shows,
  control_of-PairedIf, control_of_off, label_numbers-length,
}

shifted : (n k : ℕ) → suc n + k ≡ n + suc k
shifted n k = omega arith

module _ (screen : Layout) where
  module _ {W : Type 0} (lib : Ovstr W) (E : Error → Type 0)
      (apush_lem : Meets E (λ _. Unit {0}) lib.apush) where
    abbrev Collected : Point → ℕ → ℕ → List Control → Type 0
    Collected pt h n cs = All (Paired screen pt h) cs × (length cs ≤ n)

    push-Meets :
        (pt : Point) (h n : ℕ) (cs : List Control) (o : Option Control)
        → Collected pt h n cs
        → PairedIf screen pt h o
        → Meets E (Collected pt h (suc n)) (push screen lib cs o)
    unfolding push
    push-Meets pt h n cs none (k, l) p = pure-Meets _ (k, omega (arith, l))
    push-Meets pt h n cs (some c) (k, l) p = >>=-Meets apush_lem λ _ _. pure-Meets _ (
      All-append (Paired screen pt h) cs (c ∷ []) k (p, tt),
      omega (arith, l, length-append {0} cs (c ∷ [])),
    )

    collect-Meets :
        (h n : ℕ) (wnd : Rect) (pt : Point) (ws : Windows) (cs : List Control)
        → Collected pt h n cs
        → Meets E
            (Collected pt h (n + length (label_numbers screen ws)))
            (collect screen lib h wnd pt ws cs)
    unfolding collect push
    collect-Meets h n wnd pt no_windows cs (k, l) = pure-Meets _ (k, omega (arith, l))
    collect-Meets h n wnd pt (next_window (window label pid style class visible children) rest) cs
          c =
        elim (Bool-cases (same_text class (codes "Static"))) [
          | inl e ↦ elim (Bool-cases (is_label_id (screen.get_dlg_ctrl_id label))) [
            | inl i ↦
                rw (e, i)
                  (>>=-Meets
                    (push-Meets pt h n cs (control_of screen h wnd pt label visible) c
                      (control_of-PairedIf screen h wnd pt label visible))
                    (λ cs' c'.
                      subst (λ k. Meets E (Collected pt h k) (collect screen lib h wnd pt rest cs'))
                        (shifted n (length (label_numbers screen rest)))
                        (collect-Meets h (suc n) wnd pt rest cs' c')))
            | inr i ↦
                rw (e, i, control_of_off screen h wnd pt label visible i)
                  (>>=-Meets (pure-Meets cs c) (collect-Meets h n wnd pt rest))
          ]
          | inr e ↦ rw e (>>=-Meets (pure-Meets cs c) (collect-Meets h n wnd pt rest))
        ]

    -- At most 40 controls of one dialog, and at least one.
    abbrev Gathered : ℕ × List Control → Type 0
    Gathered (h, cs) =
        (pt : Point) × All (Paired screen pt h) cs × (length cs ≤ 40) × (0 < length cs)

    abbrev Found : ℕ → Windows → ℕ × List Control → Type 0
    Found me ws (h, cs) = IsOwnDialog me h ws × Gathered (h, cs)

    abbrev Missed : Error → Type 0
    Missed e = (e ≡ not_found) ⊎ E e

    module _ (me : ℕ) (ws : Windows) (later : Point → M W (ℕ × List Control))
        (later_lem : (pt : Point) → Meets Missed (Found me ws) (later pt)) where
      scan_dialog-Meets :
          (h pid style : ℕ) (class : Chars) (visible : Bool) (children : Windows) (pt : Point)
          (wnd : Rect) (o : Option Point)
          → Distinct (label_numbers screen children)
          → IsOwnDialog me h ws
          → Meets Missed
              (Found me ws)
              (scan_dialog screen lib (window h pid style class visible children) later pt wnd o)
      unfolding scan_dialog
      scan_dialog-Meets h pid style class visible children pt wnd none d own = later_lem pt
      scan_dialog-Meets h pid style class visible children pt wnd (some pt') d own =
          >>=-Meets
            (errors-Meets (λ e. inr) (collect-Meets h 0 wnd pt' children [] (tt, omega arith)))
            (λ cs c.
              if-Meets (length cs == 0) (λ _. later_lem pt')
                (λ e. pure-Meets _ (
                  own,
                  (
                    pt',
                    c.0,
                    omega (arith, c.1, label_numbers-length screen children d),
                    ground arith,
                  ),
                )))

      enter_dialog-Meets :
          (h pid style : ℕ) (class : Chars) (visible : Bool) (children : Windows) (pt : Point)
          (o : Option Rect)
          → Distinct (label_numbers screen children)
          → IsOwnDialog me h ws
          → Meets Missed
              (Found me ws)
              (enter_dialog screen lib (window h pid style class visible children) later pt o)
      unfolding enter_dialog
      enter_dialog-Meets h pid style class visible children pt none d own = later_lem pt
      enter_dialog-Meets h pid style class visible children pt (some wnd) d own =
          scan_dialog-Meets h pid style class visible children pt wnd (screen.screen_to_client h pt)
            d own

    search_dialogs-Meets :
        (me : ℕ) (ws : Windows) (pt : Point)
        → DistinctLabels screen ws
        → Meets Missed (Found me ws) (search_dialogs screen lib me ws pt)
    unfolding search_dialogs
    search_dialogs-Meets me no_windows pt d = raise-Meets not_found (inl refl)
    search_dialogs-Meets me (next_window (window h pid style class visible children) rest) pt
          (d, u) =
        let later = λ (pt : Point).
          weaken-Meets {Q = Found me (next_window (window h pid style class visible children) rest)}
            (search_dialogs-Meets me rest pt u) (λ r (own, g). (inr own, g)) in
        if-Meets (is_dialog me (window h pid style class visible children))
          (λ e.
            enter_dialog-Meets me (next_window (window h pid style class visible children) rest)
              (search_dialogs screen lib me rest) later h pid style class visible children pt
              (screen.get_client_rect h) d
              (inl (own_dialog me h pid style class visible children e)))
          (λ _. later pt)

    store-Meets :
        (cs : List Control) (dlg : MultiParameterDialog)
        → length dlg.labels + length cs ≤ 40
        → Meets {W = W} E
            (λ r. r ≡ record dlg {
              labels = dlg.labels ++ map (λ c. c.label) cs;
              edits = dlg.edits ++ map (λ c. c.edit) cs;
            })
            (store screen lib cs dlg)
    unfolding store
    store-Meets [] dlg h = pure-Meets dlg (λ i. record dlg {
      labels = (sym (append-nil dlg.labels)) i;
      edits = (sym (append-nil dlg.edits)) i;
    })
    store-Meets (c ∷ cs) dlg h =
        if-Meets (ltb (length dlg.labels) 40)
          (λ _.
            weaken-Meets
              (store-Meets cs
                (record dlg {
                  labels = dlg.labels ++ c.label ∷ [];
                  edits = dlg.edits ++ c.edit ∷ [];
                })
                (omega (arith, h, length-append {0} dlg.labels (c.label ∷ []))))
              (λ r e. e ∙ (λ i. record dlg {
                labels = (append_assoc dlg.labels (c.label ∷ []) (map (λ x. x.label) cs)) i;
                edits = (append_assoc dlg.edits (c.edit ∷ []) (map (λ x. x.edit) cs)) i;
              })))
          (λ e. absurd (ground arith))

    -- If apush ends only in errors of E, qsort sorts by a comparison that is a total preorder, and
    -- no two labels of a dialog have the same id: find_exedit_multi_parameter_dialog ends in
    -- err_not_found or an error of E, or gives a visible dialog of the plug-in's process with as
    -- many labels as edit controls, between 1 and 40, so that its writes stay in the arrays of 40.
    -- Each label has an id from 131 to 170 and goes with the visible edit control of the dialog
    -- whose id is 40 higher, and on the screen no edit control begins below a later one.
    pub find_exedit_multi_parameter_dialog-Shows :
        (qsort : (Control → Control → ℤ) → List Control → List Control)
        → QsortLaws qsort
        → (me : ℕ) (desktop : Windows) → DistinctLabels screen desktop
        → Meets
            (λ e. (e ≡ not_found) ⊎ E e)
            (Shows screen me desktop)
            (find_exedit_multi_parameter_dialog screen lib qsort me desktop)
    unfolding find_exedit_multi_parameter_dialog
    find_exedit_multi_parameter_dialog-Shows qsort laws me desktop d =
        >>=-Meets (search_dialogs-Meets me desktop (record { x = pos 0; y = pos 0 }) d)
          (λ (h, found) (own, (pt, paired, small, some_found)).
            let cs = qsort control_compare found in
            let p = laws.rearranges control_compare found control_compare-Comparison in
            let sorted = laws.sorts control_compare found control_compare-Comparison in
            weaken-Meets
              (errors-Meets (λ e. inr)
                (store-Meets cs (record { dialog = h; labels = []; edits = [] })
                  (omega (arith, Permᴰ-length p, small))))
              (λ dlg e. subst (Shows screen me desktop) (sym e) (
                stored-Shows screen me desktop h cs pt own (Permᴰ-All (Paired screen pt h) p paired)
                  (omega (arith, Permᴰ-length p, some_found)) (omega (arith, Permᴰ-length p, small))
                  (InOrder-NotBelow cs sorted))))
