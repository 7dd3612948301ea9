-- ===== src/Assist/Exported.antt =====
-- The menus of src/c/assist.c against what their entries do.
use aviutl_psdtoolkit.Base.{
  ℕ, ◌+◌, ◌-◌, ◌<◌, leb, ltb, List, [], ◌∷◌, ◌++◌, map, none, some, ◌==◌, if◌then◌else◌, true,
  false, length, length-append, get_or, get_or-append, get_elem?, All, All-append, append_assoc,
  concat, Chars, M, ◌>>=◌, Error, Ovstr, OvstrLaws, Meets, >>=-Meets, weaken-Meets, ◌≡◌, ◌⊎◌, inl,
  inr, refl, sym, ap, ◌∙◌, subst, arith,
}
use aviutl_psdtoolkit.Ptklayer.Types.{Ptklayer}
use aviutl_psdtoolkit.Ptklayer.Names.{
  ptklayer_get_readable_item_name, ptklayer_get_readable_group_name,
}
use aviutl_psdtoolkit.Ptklayer.Clipboard.{Clipboard}
use aviutl_psdtoolkit.Ptklayer.Files.{Files}
use aviutl_psdtoolkit.Ptklayer.Commands.{
  ptklayer_copy_to_clipboard_item, ptklayer_copy_to_clipboard_siblings,
  ptklayer_save_to_file_siblings,
}
use aviutl_psdtoolkit.Find.Dialog.{MultiParameterDialog}
use aviutl_psdtoolkit.Popupmenu.Show.{PopupMenuItem}
use aviutl_psdtoolkit.Assist.Export.{
  separating, entry, add_item, slider_menu, layer_menu, send_to, perform,
}
use aviutl_psdtoolkit.Assist.Menu.{
  Action, assign_caption, assigning, caption_of, first_items-Meets, front, last_items-Meets,
  layer_copy, layer_export, menu_ids, parting, slider_copy, slider_export, whole, whole_ids,
  copy_item, copy_group, export_group, assign_to,
}

module _ {W : Type 0} (lib : Ovstr W) (clip : Clipboard W) (files : Files W) (ov_utoa : ℕ → Chars)
    (pi : Ptklayer) (idx window ptk_window : ℕ) (mpd : MultiParameterDialog) where
  -- What the action does.
  pub act : Action → M W (Unit {0})
  act copy_item = ptklayer_copy_to_clipboard_item lib clip files ov_utoa (some pi) window idx
  act copy_group = ptklayer_copy_to_clipboard_siblings lib clip files ov_utoa (some pi) window idx
  act export_group = ptklayer_save_to_file_siblings lib clip files ov_utoa (some pi) ptk_window idx
  act (assign_to i) = send_to lib clip files ov_utoa pi idx (get_elem? mpd.edits i)

  -- A separator, or the caption of an action that is what happens when its id is selected.
  abbrev pub Faithful : (Action → Chars) → PopupMenuItem → Type 0
  Faithful cap pmi =
      (pmi ≡ separating)
      ⊎ ((a : Action) × (pmi ≡ entry (cap a) pmi.id)
          × (perform lib clip files ov_utoa pi idx window ptk_window mpd pmi.id ≡ act a))

  -- The ids of a menu, and what its entries do.
  abbrev pub Offered : (Action → Chars) → List PopupMenuItem → Type 0
  Offered cap pm = (map (λ p. p.id) pm ≡ menu_ids (length mpd.labels)) × All (Faithful cap) pm

  perform-assign :
      (i : ℕ)
      → i < length mpd.labels
      → perform lib clip files ov_utoa pi idx window ptk_window mpd (2000 + i) ≡ act (assign_to i)
  unfolding perform act
  perform-assign i below =
      let t0 : (2000 + i == 0) ≡ false = ground arith in
      let t1 : (2000 + i == 1000) ≡ false = ground arith in
      let t2 : (2000 + i == 1001) ≡ false = ground arith in
      let t3 : (2000 + i == 1002) ≡ false = ground arith in
      let t4 : leb 2000 (2000 + i) ≡ true = ground arith in
      let back : 2000 + i - 2000 ≡ i = omega arith in
      let t5 : ltb i (length mpd.labels) ≡ true = ground arith in
      rw (t0, t1, t2, t3, t4, back, t5) refl

  module _ (name copy export : Chars) (text_of : ℕ → Chars) where
    abbrev cap : Action → Chars
    cap = caption_of name copy export text_of mpd.labels

    assigning-Faithful :
        (before ls : List ℕ) (i : ℕ)
        → i ≡ length before
        → mpd.labels ≡ before ++ ls
        → All (Faithful cap) (assigning name text_of i ls)
    unfolding assigning
    assigning-Faithful before [] i e f = tt
    assigning-Faithful before (l ∷ ls) i e f = (
      inr (
        assign_to i,
        ap (λ t. entry (assign_caption name (text_of t)) (2000 + i))
            (sym (
              ap (λ u. get_or u i 0) f
              ∙ ap (λ k. get_or (before ++ (l ∷ ls)) k 0) e
              ∙ get_or-append before l ls 0)),
        perform-assign i
            (omega (arith, e, ap (λ u. length u) f, length-append {0} before (l ∷ ls))),
      ),
      assigning-Faithful (before ++ (l ∷ [])) ls (i + 1)
          (omega (arith, e, length-append {0} before (l ∷ [])))
          (f ∙ sym (append_assoc before (l ∷ []) ls)),
    )

    parting-Faithful : (labels : List ℕ) → All (Faithful cap) (parting labels)
    parting-Faithful labels =
        elim (length labels == 0) as (λ b. All (Faithful cap) (if b then [] else separating ∷ [])) [
          | true ↦ tt
          | false ↦ (inl refl, tt)
        ]

    whole-Faithful : All (Faithful cap) (whole name copy export text_of mpd.labels)
    unfolding perform act
    whole-Faithful = (
      inr (copy_item, refl, refl),
      (
        inl refl,
        All-append (Faithful cap) (assigning name text_of 0 mpd.labels) _
            (assigning-Faithful [] mpd.labels 0 refl refl)
            (All-append (Faithful cap) (parting mpd.labels) _ (parting-Faithful mpd.labels)
              (inr (copy_group, refl, refl), (inr (export_group, refl, refl), tt))),
      ),
    )

  module _ {E : Error → Type 0} (laws : OvstrLaws lib E) (get_window_text : ℕ → M W Chars)
      (text_of : ℕ → Chars)
      (text_lem : (h : ℕ) → Meets E (λ t. t ≡ text_of h) (get_window_text h)) where
    whole-Offered :
        (name copy export : Chars) (pm : List PopupMenuItem)
        → pm ≡ whole name copy export text_of mpd.labels
        → Offered (caption_of name copy export text_of mpd.labels) pm
    whole-Offered name copy export pm e =
        subst (Offered (caption_of name copy export text_of mpd.labels)) (sym e)
          (whole_ids name copy export text_of mpd.labels, whole-Faithful name copy export text_of)

    menu_of_names :
        (name : Chars) (copy export : List Chars) (q : List PopupMenuItem)
        → q ≡ front name text_of mpd.labels
        → Meets E (Offered (caption_of name (concat copy) (concat export) text_of mpd.labels)) (
            add_item lib get_window_text q 1001 copy >>= λ pm.
            add_item lib get_window_text pm 1002 export)
    menu_of_names name copy export q e =
        weaken-Meets
          (last_items-Meets lib laws get_window_text text_of text_lem name mpd.labels q copy export
            e)
          (λ pm f. whole-Offered name (concat copy) (concat export) pm f)

    -- If the string library, the windows' texts and the readable names end as documented or in
    -- errors of E, the menu that the code builds for a dialog of n parameters has the ids 1000, a
    -- separator, 2000 to 2000+n-1, a separator if n is not 0, 1001 and 1002; and for each entry
    -- that is no separator, what the switch does when its id is selected is the action that its
    -- caption names: copying the item, assigning it to the parameter with that label, copying the
    -- slider or exporting it.
    pub slider_menu-Offered :
        (name group : Chars)
        → Meets E (λ n. n ≡ name) (ptklayer_get_readable_item_name lib (some pi) idx (some none))
        → Meets E (λ n. n ≡ group) (ptklayer_get_readable_group_name lib (some pi) idx (some none))
        → Meets E
            (Offered (
              caption_of name
                (concat (slider_copy group))
                (concat (slider_export group))
                text_of
                mpd.labels))
            (slider_menu lib get_window_text pi idx mpd.labels)
    unfolding slider_menu
    slider_menu-Offered name group name_lem group_lem = >>=-Meets name_lem (λ n e.
        >>=-Meets (first_items-Meets lib laws get_window_text text_of text_lem n mpd.labels) (λ q f.
          >>=-Meets group_lem (λ g d.
            subst
              (λ (u : Chars × Chars).
                Meets E
                  (Offered (
                    caption_of u.0 (concat (slider_copy u.1)) (concat (slider_export u.1)) text_of
                      mpd.labels))
                  (add_item lib get_window_text q 1001 (slider_copy g) >>= λ pm.
                    add_item lib get_window_text pm 1002 (slider_export g)))
              (λ i. (e i, d i)) (menu_of_names n (slider_copy g) (slider_export g) q f))))

    -- If the string library, the windows' texts and the readable names end as documented or in
    -- errors of E, the menu that the code builds for a dialog of n parameters has the ids 1000, a
    -- separator, 2000 to 2000+n-1, a separator if n is not 0, 1001 and 1002; and for each entry
    -- that is no separator, what the switch does when its id is selected is the action that its
    -- caption names: copying the layer, assigning it to the parameter with that label, copying the
    -- layers of its group or exporting them.
    pub layer_menu-Offered :
        (name : Chars)
        → Meets E (λ n. n ≡ name) (ptklayer_get_readable_item_name lib (some pi) idx (some none))
        → Meets E
            (Offered (
              caption_of name
                (concat (layer_copy name))
                (concat (layer_export name))
                text_of
                mpd.labels))
            (layer_menu lib get_window_text pi idx mpd.labels)
    unfolding layer_menu
    layer_menu-Offered name name_lem = >>=-Meets name_lem (λ n e.
        >>=-Meets (first_items-Meets lib laws get_window_text text_of text_lem n mpd.labels) (λ q f.
          subst
            (λ u.
              Meets E
                (Offered (
                  caption_of u (concat (layer_copy u)) (concat (layer_export u)) text_of
                    mpd.labels))
                (add_item lib get_window_text q 1001 (layer_copy n) >>= λ pm.
                  add_item lib get_window_text pm 1002 (layer_export n)))
            e (menu_of_names n (layer_copy n) (layer_export n) q f)))
