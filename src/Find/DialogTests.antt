-- ===== src/Find/DialogTests.antt =====
-- A dialog of parameters for the search of src/c/find.c.
use aviutl_psdtoolkit.Base.{
  ℕ, ◌+◌, true, Bool-cases, inl, inr, not_found, List, [], ◌∷◌, none, some, ◌==◌, if◌then◌else◌,
  All, codes, same_text, ℤ, pos, ltℤ, Meets, NoError, pure-Meets, ◌≡◌, ◌⊎◌, refl, arith,
}
use mathlib.Core.List.{Permᴰ}
use mathlib.Core.List.Permᴰ
use aviutl_psdtoolkit.Plain.{plain}
use aviutl_psdtoolkit.Find.Search.{window, Windows, no_windows, next_window}
use aviutl_psdtoolkit.Find.Dialog.{
  Rect, Control, Layout, is_label_id, find_exedit_multi_parameter_dialog,
}
use aviutl_psdtoolkit.Find.Order.{InOrder, Sorted, Comparison, QsortLaws, Permᴰ-All}
use aviutl_psdtoolkit.Find.Pairs.{DistinctLabels, Shows}
use aviutl_psdtoolkit.Find.Parameters.{find_exedit_multi_parameter_dialog-Shows}

-- Sorting by insertion.
insert_by : (Control → Control → ℤ) → Control → List Control → List Control
insert_by cmp x [] = x ∷ []
insert_by cmp x (y ∷ ys) =
    let later = insert_by cmp x ys in if ltℤ (pos 0) (cmp x y) then y ∷ later else x ∷ y ∷ ys

sort_by : (Control → Control → ℤ) → List Control → List Control
sort_by cmp [] = []
sort_by cmp (x ∷ xs) = insert_by cmp x (sort_by cmp xs)

insert_by-Permᴰ :
    (cmp : Control → Control → ℤ) (x : Control) (l : List Control)
    → Permᴰ (insert_by cmp x l) (x ∷ l)
unfolding insert_by
insert_by-Permᴰ cmp x [] = Permᴰ.refl (x ∷ [])
insert_by-Permᴰ cmp x (y ∷ ys) = elim (Bool-cases (ltℤ (pos 0) (cmp x y))) [
  | inl e ↦ rw e (Permᴰ.trans (Permᴰ.cons refl (insert_by-Permᴰ cmp x ys)) (Permᴰ.swap refl refl))
  | inr e ↦ rw e (Permᴰ.refl (x ∷ y ∷ ys))
]

sort_by-Permᴰ : (cmp : Control → Control → ℤ) (l : List Control) → Permᴰ (sort_by cmp l) l
unfolding sort_by
sort_by-Permᴰ cmp [] = Permᴰ.nil
sort_by-Permᴰ cmp (x ∷ xs) =
    Permᴰ.trans (insert_by-Permᴰ cmp x (sort_by cmp xs)) (Permᴰ.cons refl (sort_by-Permᴰ cmp xs))

module _ (cmp : Control → Control → ℤ) (laws : Comparison cmp) where
  below-All :
      (x y : Control) (l : List Control)
      → InOrder cmp x y
      → All (InOrder cmp y) l
      → All (InOrder cmp x) l
  below-All x y [] o h = tt
  below-All x y (z ∷ l) o (h, k) = (laws.transitive x y z o h, below-All x y l o k)

  insert_by-Sorted :
      (x : Control) (l : List Control)
      → Sorted (InOrder cmp) l
      → Sorted (InOrder cmp) (insert_by cmp x l)
  unfolding insert_by
  insert_by-Sorted x [] h = (tt, tt)
  insert_by-Sorted x (y ∷ ys) (h, k) = elim (Bool-cases (ltℤ (pos 0) (cmp x y))) [
    | inl e ↦ rw e (
      Permᴰ-All (InOrder cmp y) (insert_by-Permᴰ cmp x ys) (laws.total x y e, h),
      insert_by-Sorted x ys k,
    )
    | inr e ↦ rw e ((e, below-All x y ys e h), (h, k))
  ]

  sort_by-Sorted : (l : List Control) → Sorted (InOrder cmp) (sort_by cmp l)
  unfolding sort_by
  sort_by-Sorted [] = tt
  sort_by-Sorted (x ∷ xs) = insert_by-Sorted x (sort_by cmp xs) (sort_by-Sorted xs)

sort_by-laws : QsortLaws sort_by
sort_by-laws = record {
  rearranges = λ cmp l c. sort_by-Permᴰ cmp l;
  sorts = λ cmp l c. sort_by-Sorted cmp c l;
}

abbrev rect : ℕ → ℕ → Rect
rect x y = record { left = pos x; top = pos y; right = pos (x + 10); bottom = pos (y + 10) }

-- Label 2 with the edit control 12 stands below label 3 with 13.
abbrev screen : Layout
screen = record {
  get_dlg_ctrl_id = λ w. 129 + w;
  get_dlg_item = λ d i. if i == 171 then some 12 else if i == 172 then some 13 else none;
  is_window_visible = λ w. true;
  get_window_rect = λ w. some (
      if w == 2
      then rect 0 40
      else if w == 12
      then rect 20 40
      else if w == 3
      then rect 0 20
      else rect 20 20);
  get_client_rect =
      λ w. some (record { left = pos 0; top = pos 0; right = pos 100; bottom = pos 99 });
  screen_to_client = λ w p. some p;
}

abbrev label : ℕ → Windows → Windows
label n rest = next_window (window n 9 0 (codes "Static") true no_windows) rest

abbrev desktop : Windows
desktop = next_window (window 1 9 0 (codes "#32770") true (label 2 (label 3 no_windows))) no_windows

desktop-DistinctLabels : DistinctLabels screen desktop
unfolding same_text is_label_id
desktop-DistinctLabels = (((omega arith, tt), (tt, tt)), tt)

find_exedit_multi_parameter_dialog-Shows_example :
    Meets
      (λ e. (e ≡ not_found) ⊎ NoError e)
      (Shows screen 9 desktop)
      (find_exedit_multi_parameter_dialog screen plain sort_by 9 desktop)
find_exedit_multi_parameter_dialog-Shows_example =
    find_exedit_multi_parameter_dialog-Shows screen plain NoError (pure-Meets tt tt) sort_by
      sort_by-laws 9 desktop desktop-DistinctLabels
