-- ===== src/Assist/Menu.antt =====
-- The entries of the menus of src/c/assist.c, written out.
use aviutl_psdtoolkit.Base.{
  ℕ, zero, suc, ◌+◌, List, [], ◌∷◌, ◌++◌, map, ◌==◌, if◌then◌else◌, true, false, length, get_or,
  append_assoc, append-nil, concat, Chars, codes, M, ◌>>=◌, Error, Ovstr, OvstrLaws, Meets,
  pure-Meets, >>=-Meets, weaken-Meets, if-Meets, ◌≡◌, refl, sym, ap, ◌∙◌, subst,
}
use aviutl_psdtoolkit.Popupmenu.Show.{PopupMenuItem}
use aviutl_psdtoolkit.Assist.Export.{separating, entry, add, add_item, add_labels, first_items}

-- What an entry of the menu stands for; a parameter by its number in the dialog.
pub data Action : Type 0 where
  copy_item copy_group export_group : Action
  assign_to : ℕ → Action

-- The captions that begin with the name of the item, and those of the group.
abbrev pub copy_caption : Chars → Chars
copy_caption name = concat (codes "\"" ∷ name ∷ codes "\" をクリップボードにコピー" ∷ [])

abbrev pub assign_caption : Chars → Chars → Chars
assign_caption name label = concat (codes "\"" ∷ name ∷ codes "\" を「" ∷ label ∷ codes "」に割り当て" ∷ [])

abbrev pub slider_copy : Chars → List Chars
slider_copy group = codes "スライダー \"" ∷ group ∷ codes "\" 全体をクリップボードにコピー" ∷ []

abbrev pub slider_export : Chars → List Chars
slider_export group = codes "スライダー \"" ∷ group ∷ codes "\" 全体をファイルにエクスポート" ∷ []

abbrev pub layer_copy : Chars → List Chars
layer_copy name = codes "\"" ∷ name ∷ codes "\" と同じ階層のレイヤー全てをクリップボードにコピー" ∷ []

abbrev pub layer_export : Chars → List Chars
layer_export name = codes "\"" ∷ name ∷ codes "\" と同じ階層のレイヤー全てをファイルにエクスポート" ∷ []

-- The caption of each action, with those for the group, and the texts of the labels.
abbrev pub caption_of : Chars → (copy export : Chars) → (ℕ → Chars) → List ℕ → Action → Chars
caption_of name copy export text_of labels copy_item = copy_caption name
caption_of name copy export text_of labels copy_group = copy
caption_of name copy export text_of labels export_group = export
caption_of name copy export text_of labels (assign_to i) =
    assign_caption name (text_of (get_or labels i 0))

-- The ids of the menu for `n` parameters; 0 is a separator.
abbrev pub assign_ids : (n i : ℕ) → List ℕ
assign_ids zero i = []
assign_ids (suc n) i = (2000 + i) ∷ assign_ids n (i + 1)

abbrev pub menu_ids : ℕ → List ℕ
menu_ids n = 1000 ∷ 0 ∷ (assign_ids n 0 ++ ((if n == 0 then [] else 0 ∷ []) ++ (1001 ∷ 1002 ∷ [])))

-- The items that the loop over the labels adds.
unfoldable pub assigning : Chars → (ℕ → Chars) → ℕ → List ℕ → List PopupMenuItem
assigning name text_of i [] = []
assigning name text_of i (l ∷ ls) =
    entry (assign_caption name (text_of l)) (2000 + i) ∷ assigning name text_of (i + 1) ls

abbrev pub parting : List ℕ → List PopupMenuItem
parting labels = if length labels == 0 then [] else separating ∷ []

abbrev pub whole : Chars → (copy export : Chars) → (ℕ → Chars) → List ℕ → List PopupMenuItem
whole name copy export text_of labels =
    entry (copy_caption name) 1000
    ∷ separating
    ∷ (assigning name text_of 0 labels
        ++ (parting labels ++ (entry copy 1001 ∷ entry export 1002 ∷ [])))

abbrev pub opening : Chars → List PopupMenuItem → List PopupMenuItem
opening name l = entry (copy_caption name) 1000 ∷ separating ∷ l

abbrev pub front : Chars → (ℕ → Chars) → List ℕ → List PopupMenuItem
front name text_of labels = opening name (assigning name text_of 0 labels ++ parting labels)

assigning_ids :
    (name : Chars) (text_of : ℕ → Chars) (i : ℕ) (ls : List ℕ) (rest : List PopupMenuItem)
    → map (λ p. p.id) (assigning name text_of i ls ++ rest)
      ≡ assign_ids (length ls) i ++ map (λ p. p.id) rest
unfolding assigning
assigning_ids name text_of i [] rest = refl
assigning_ids name text_of i (l ∷ ls) rest =
    ap (◌∷◌ (2000 + i)) (assigning_ids name text_of (i + 1) ls rest)

pub whole_ids :
    (name copy export : Chars) (text_of : ℕ → Chars) (labels : List ℕ)
    → map (λ p. p.id) (whole name copy export text_of labels) ≡ menu_ids (length labels)
whole_ids name copy export text_of labels =
    ap (λ u. 1000 ∷ 0 ∷ u)
      (assigning_ids name text_of 0 labels _
        ∙ ap (λ u. assign_ids (length labels) 0 ++ u)
            (elim (length labels == 0)
              as (λ b.
                map (λ p. p.id)
                  ((if b then [] else separating ∷ [])
                    ++ (entry copy 1001 ∷ entry export 1002 ∷ []))
                ≡ (if b then [] else 0 ∷ []) ++ (1001 ∷ 1002 ∷ [])) [ true ↦ refl | false ↦ refl ]))

two_behind :
    (a b : List PopupMenuItem) (x y : PopupMenuItem)
    → ((a ++ b) ++ (x ∷ [])) ++ (y ∷ []) ≡ a ++ (b ++ (x ∷ y ∷ []))
two_behind a b x y = simp append_assoc

module _ {W : Type 0} {E : Error → Type 0} (lib : Ovstr W) (laws : OvstrLaws lib E)
    (get_window_text : ℕ → M W Chars) (text_of : ℕ → Chars)
    (text_lem : (h : ℕ) → Meets E (λ t. t ≡ text_of h) (get_window_text h)) where
  add-Meets :
      (pm : List PopupMenuItem) (i : PopupMenuItem)
      → Meets E (λ q. q ≡ pm ++ (i ∷ [])) (add lib get_window_text pm i)
  unfolding add
  add-Meets pm i = >>=-Meets laws.apush_lem (λ _ _. pure-Meets _ refl)

  add_item-Meets :
      (pm : List PopupMenuItem) (id : ℕ) (caption : List Chars)
      → Meets E
          (λ q. q ≡ pm ++ (entry (concat caption) id ∷ []))
          (add_item lib get_window_text pm id caption)
  unfolding add_item
  add_item-Meets pm id caption = >>=-Meets (laws.scpym_lem caption) (λ t e.
      subst
        (λ c. Meets E (λ q. q ≡ pm ++ (entry c id ∷ [])) (add lib get_window_text pm (entry t id)))
        e (add-Meets pm (entry t id)))

  add_labels-Meets :
      (name : Chars) (i : ℕ) (labels : List ℕ) (pm : List PopupMenuItem)
      → Meets E
          (λ q. q ≡ pm ++ assigning name text_of i labels)
          (add_labels lib get_window_text name i labels pm)
  unfolding add_labels assigning
  add_labels-Meets name i [] pm = pure-Meets pm (sym (append-nil pm))
  add_labels-Meets name i (l ∷ ls) pm = >>=-Meets (text_lem l) (λ t e.
      >>=-Meets (add_item-Meets pm (2000 + i) _) (λ q f.
        weaken-Meets (add_labels-Meets name (i + 1) ls q) (λ r g.
          g
          ∙ ap (λ u. u ++ assigning name text_of (i + 1) ls) f
          ∙ append_assoc pm (entry (assign_caption name t) (2000 + i) ∷ []) _
          ∙ ap
              (λ u.
                pm
                ++ (entry (assign_caption name u) (2000 + i) ∷ assigning name text_of (i + 1) ls))
              e)))

  pub first_items-Meets :
      (name : Chars) (labels : List ℕ)
      → Meets E (λ q. q ≡ front name text_of labels) (first_items lib get_window_text name labels)
  unfolding first_items
  first_items-Meets name labels = >>=-Meets (add_item-Meets [] 1000 _) (λ q1 e1.
      >>=-Meets (add-Meets q1 separating) (λ q2 e2.
        >>=-Meets (add_labels-Meets name 0 labels q2) (λ q3 e3.
          let e : q3
              ≡ entry (copy_caption name) 1000 ∷ separating ∷ assigning name text_of 0 labels =
            e3
            ∙ ap (λ u. u ++ assigning name text_of 0 labels)
                (e2 ∙ ap (λ u. u ++ (separating ∷ [])) e1) in
          if-Meets (length labels == 0)
            (λ t. pure-Meets q3 (
              e
              ∙ ap (opening name) (sym (append-nil (assigning name text_of 0 labels)))
              ∙ ap
                  (λ b.
                    opening name
                      (assigning name text_of 0 labels ++ (if b then [] else separating ∷ [])))
                  (sym t)))
            (λ t. weaken-Meets (add-Meets q3 separating) (λ r g.
              g
              ∙ ap (λ u. u ++ (separating ∷ [])) e
              ∙ ap
                  (λ b.
                    opening name
                      (assigning name text_of 0 labels ++ (if b then [] else separating ∷ [])))
                  (sym t))))))

  pub last_items-Meets :
      (name : Chars) (labels : List ℕ) (q : List PopupMenuItem) (copy export : List Chars)
      → q ≡ front name text_of labels
      → Meets E
          (λ r. r ≡ whole name (concat copy) (concat export) text_of labels)
          (add_item lib get_window_text q 1001 copy >>= λ pm.
            add_item lib get_window_text pm 1002 export)
  last_items-Meets name labels q copy export e = >>=-Meets (add_item-Meets q 1001 copy) (λ q1 e1.
      weaken-Meets (add_item-Meets q1 1002 export) (λ r f.
        f
        ∙ ap (λ u. u ++ (entry (concat export) 1002 ∷ []))
            (e1 ∙ ap (λ u. u ++ (entry (concat copy) 1001 ∷ [])) e)
        ∙ ap (opening name) (
            two_behind (assigning name text_of 0 labels) (parting labels) (entry (concat copy) 1001)
              (entry (concat export) 1002))))
