-- ===== src/Find/Order.antt =====
-- The order in which `control_compare` of src/c/find.c has the controls sorted.
use aviutl_psdtoolkit.Base.{
  suc, true, false, Bool-cases, List, [], ◌∷◌, All, length, ℤ, pos, ltℤ, ltℤ-asym, ltℤ-trans, ◌≡◌,
  inl, inr, refl, sym, ap, subst, ◌∙◌,
}
use mathlib.Core.List.{Permᴰ}
use aviutl_psdtoolkit.Find.Dialog.{Control, control_compare}

-- `cmp` does not put `b` before `a`.
abbrev pub InOrder : (Control → Control → ℤ) → Control → Control → Type 0
InOrder cmp a b = ltℤ (pos 0) (cmp a b) ≡ false

-- Each element is in order with all behind it.
abbrev pub Sorted : {A : Type 0} → (A → A → Type 0) → List A → Type 0
Sorted R [] = Unit
Sorted R (x ∷ xs) = All (R x) xs × Sorted R xs

-- What the C standard asks of a comparison, and what it says of `qsort` then.
pub record Comparison (cmp : Control → Control → ℤ) : Type 0 where
  pub total : (a b : Control) → ltℤ (pos 0) (cmp a b) ≡ true → InOrder cmp b a
  pub transitive : (a b c : Control) → InOrder cmp a b → InOrder cmp b c → InOrder cmp a c

pub record QsortLaws (qsort : (Control → Control → ℤ) → List Control → List Control) : Type 0 where
  pub rearranges :
      (cmp : Control → Control → ℤ) (l : List Control) → Comparison cmp → Permᴰ (qsort cmp l) l
  pub sorts :
      (cmp : Control → Control → ℤ) (l : List Control)
      → Comparison cmp
      → Sorted (InOrder cmp) (qsort cmp l)

-- The edit control of `a` does not begin below that of `b`.
abbrev pub NotBelow : Control → Control → Type 0
NotBelow a b = ltℤ b.edit_rect.top a.edit_rect.top ≡ false

pub control_compare_lem :
    (a b : Control) → ltℤ (pos 0) (control_compare a b) ≡ ltℤ b.edit_rect.top a.edit_rect.top
unfolding control_compare
control_compare_lem a b = elim (Bool-cases (ltℤ a.edit_rect.top b.edit_rect.top)) [
  | inl e ↦ rw e (sym (ltℤ-asym a.edit_rect.top b.edit_rect.top e))
  | inr e ↦ elim (Bool-cases (ltℤ b.edit_rect.top a.edit_rect.top)) [
    | inl f ↦ rw (e, f) refl
    | inr f ↦ rw (e, f) refl
  ]
]

pub control_compare-Comparison : Comparison control_compare
control_compare-Comparison = record {
  total = λ a b e.
      control_compare_lem b a
      ∙ ltℤ-asym b.edit_rect.top a.edit_rect.top (sym (control_compare_lem a b) ∙ e);
  transitive = λ a b c e f.
      control_compare_lem a c
      ∙ ltℤ-trans a.edit_rect.top b.edit_rect.top c.edit_rect.top
          (sym (control_compare_lem a b) ∙ e) (sym (control_compare_lem b c) ∙ f);
}

pub Permᴰ-length : {a b : List Control} → Permᴰ a b → length a ≡ length b
Permᴰ-length Permᴰ.nil = refl
Permᴰ-length (Permᴰ.cons e p) = ap suc (Permᴰ-length p)
Permᴰ-length (Permᴰ.swap e f) = refl
Permᴰ-length (Permᴰ.trans p q) = Permᴰ-length p ∙ Permᴰ-length q

pub Permᴰ-All : (P : Control → Type 0) {a b : List Control} → Permᴰ a b → All P b → All P a
Permᴰ-All P Permᴰ.nil h = h
Permᴰ-All P (Permᴰ.cons e p) (h, k) = (subst P (sym e) h, Permᴰ-All P p k)
Permᴰ-All P (Permᴰ.swap e f) (h, (k, l)) = (subst P (sym e) k, (subst P (sym f) h, l))
Permᴰ-All P (Permᴰ.trans p q) h = Permᴰ-All P p (Permᴰ-All P q h)

map_All :
    (P Q : Control → Type 0) (l : List Control) → ((c : Control) → P c → Q c) → All P l → All Q l
map_All P Q [] f h = h
map_All P Q (x ∷ l) f (h, k) = (f x h, map_All P Q l f k)

pub InOrder-NotBelow : (l : List Control) → Sorted (InOrder control_compare) l → Sorted NotBelow l
InOrder-NotBelow [] h = h
InOrder-NotBelow (x ∷ l) (h, k) = (
  map_All (InOrder control_compare x) (NotBelow x) l (λ c o. sym (control_compare_lem x c) ∙ o) h,
  InOrder-NotBelow l k,
)
