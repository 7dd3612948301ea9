-- ===== src/Aviutl/Filters.antt =====
-- The filter that `find_exedit_filter` of src/c/aviutl.c finds.
use aviutl_psdtoolkit.Base.{
  ℕ, zero, suc, ◌+◌, ◌≤◌, ◌<◌, Bool-cases, inl, inr, ◌==◌, ==_iff, ==_ne, subst, none, some,
  Option-cases, ptk, Ovstr, Ends, Result, ok, err, ◌≡◌, refl, arith,
}
use aviutl_psdtoolkit.Aviutl.State.{Patched, Filter, Plugin, Exfunc, System}
use aviutl_psdtoolkit.Aviutl.Init.{recognise, find_filter}

module _ {W : Type 0} (lib : Ovstr W) (app : Exfunc W) (sys : System W) (t : Plugin W) where
  -- None of the filters from `i` on and before `j` is one of the three.
  abbrev pub NoneBetween : ℕ → ℕ → Type 0
  NoneBetween i j = (k : ℕ) → i ≤ k → k < j → recognise (app.get_filterp k t.world) ≡ none

  -- The first of those from `i` on and before `j` that is one of the three.
  abbrev pub FirstBetween : ℕ → ℕ → Filter × Patched → Type 0
  FirstBetween i j found =
      (k : ℕ) × (i ≤ k)
      × (k < j)
      × (recognise (app.get_filterp k t.world) ≡ some found)
      × NoneBetween i k

  one_more :
      (i j : ℕ)
      → recognise (app.get_filterp i t.world) ≡ none
      → NoneBetween (suc i) j
      → NoneBetween i j
  one_more i j e rest k le lt = elim (Bool-cases (i == k)) [
    | inl b ↦ subst (λ k. recognise (app.get_filterp k t.world) ≡ none) ((==_iff i k).0 b) e
    | inr b ↦ rest k (let ne = ==_ne i k b in omega arith) lt
  ]

  Outcome : ℕ → ℕ → Result (Filter × Patched) × Plugin W → Type 0
  Outcome i j r =
      Ends (λ found t'. (t' ≡ t) × FirstBetween i j found)
        (λ e t'. (t' ≡ t) × (e ≡ ptk 102) × NoneBetween i j) r

  later_Outcome :
      (i j : ℕ) (r : Result (Filter × Patched) × Plugin W)
      → recognise (app.get_filterp i t.world) ≡ none
      → Outcome (suc i) j r
      → Outcome i j r
  unfolding Outcome
  later_Outcome i j (ok found, t') e (same, (k, le, lt, here, before)) =
      (same, (k, omega arith, lt, here, one_more i k e before))
  later_Outcome i j (err x, t') e (same, is_102, rest) = (same, is_102, one_more i j e rest)

  find_filter-Outcome : (n i : ℕ) → Outcome i (i + n) (find_filter lib app sys n i t)
  unfolding find_filter Outcome
  find_filter-Outcome zero i = (refl, refl, λ k le lt. absurd (omega arith))
  find_filter-Outcome (suc n) i = elim (Option-cases (recognise (app.get_filterp i t.world))) [
    | inl e ↦
        let shift : suc i + n ≡ i + suc n = omega arith in
        rw (find_filter, e)
          (later_Outcome i (i + suc n) (find_filter lib app sys n (suc i) t) e (
            subst (λ j. Outcome (suc i) j (find_filter lib app sys n (suc i) t)) shift
              (find_filter-Outcome n (suc i))))
    | inr (found, e) ↦
        rw (find_filter, e)
          (refl, (i, omega arith, omega arith, e, λ k le lt. absurd (omega arith)))
  ]

  -- The search over n filters gives the first that is there, is no audio filter and has one of the
  -- three names, with the version that the name stands for; without one it ends in
  -- err_ptk_exedit_not_found. The globals and the world stay.
  pub find_filter-first :
      (n : ℕ)
      → Ends
          (λ found t'. (t' ≡ t) × FirstBetween 0 n found)
          (λ e t'. (t' ≡ t) × (e ≡ ptk 102) × NoneBetween 0 n)
          (find_filter lib app sys n 0 t)
  unfolding Outcome
  find_filter-first n =
      let same : 0 + n ≡ n = omega arith in
      subst (λ j. Outcome 0 j (find_filter lib app sys n 0 t)) same (find_filter-Outcome n 0)
