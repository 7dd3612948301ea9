-- ===== src/Plain.antt =====
-- A string library whose calls never fail, over any world: the interface can be met,
-- and the models run.
use aviutl_psdtoolkit.Base.{
  ℕ, zero, suc, ◌-◌, ◌<◌, [], ◌∷◌, ◌++◌, Option, none, some, Bool, true, false, ◌&&◌, ◌==◌,
  if◌then◌else◌, length, take, Chars, c_str, concat, OccursAt, FirstAt, replace_char, pure, NoError,
  pure-Meets, Ovstr, OvstrLaws, ◌≡◌, refl, inl, inr, Bool-cases, arith,
}

unfoldable pub is_prefix : Chars → Chars → Bool
is_prefix [] s = true
is_prefix (t ∷ ts) [] = false
is_prefix (t ∷ ts) (c ∷ s) = t == c && is_prefix ts s

next : Option ℕ → Option ℕ
next none = none
next (some p) = some (suc p)

unfoldable pub search_from : Chars → Chars → Option ℕ
unfolding next
search_from t [] = if is_prefix t [] then some 0 else none
search_from t (c ∷ s) = if is_prefix t (c ∷ s) then some 0 else next (search_from t s)

is_prefix-take : (t s : Chars) → is_prefix t s ≡ true → OccursAt t s 0
unfolding is_prefix
is_prefix-take [] s h = (omega arith, refl)
is_prefix-take (t ∷ ts) [] h = cc
is_prefix-take (t ∷ ts) (c ∷ s) h = ground (arith, is_prefix-take ts s)

not_prefix-take : (t s : Chars) → is_prefix t s ≡ false → ¬ OccursAt t s 0
unfolding is_prefix
not_prefix-take [] s h k = cc
not_prefix-take (t ∷ ts) [] h k = absurd (omega (arith, k.0))
not_prefix-take (t ∷ ts) (c ∷ s) h k = ground (arith, not_prefix-take ts s, k.1)

OccursAt-suc : (t s : Chars) (c p : ℕ) → OccursAt t (c ∷ s) (suc p) → OccursAt t s p
OccursAt-suc t s c p h = (omega (arith, h.0), h.1)

nowhere_in_nil : (t : Chars) → ¬ OccursAt t [] 0 → (p : ℕ) → ¬ OccursAt t [] p
nowhere_in_nil t h zero k = h k
nowhere_in_nil t h (suc p) k = absurd (omega (arith, k.0))

not_earlier :
    (t s : Chars) (c p : ℕ)
    → ¬ OccursAt t (c ∷ s) 0
    → ((q : ℕ) → q < p → ¬ OccursAt t s q)
    → (q : ℕ) → q < suc p
    → ¬ OccursAt t (c ∷ s) q
not_earlier t s c p h k zero lt o = h o
not_earlier t s c p h k (suc q) lt o = k q (omega arith) (OccursAt-suc t s c q o)

nowhere :
    (t s : Chars) (c : ℕ)
    → ¬ OccursAt t (c ∷ s) 0
    → ((q : ℕ) → ¬ OccursAt t s q)
    → (q : ℕ) → ¬ OccursAt t (c ∷ s) q
nowhere t s c h k zero o = h o
nowhere t s c h k (suc q) o = k q (OccursAt-suc t s c q o)

next-FirstAt :
    (t s : Chars) (c : ℕ) (o : Option ℕ)
    → ¬ OccursAt t (c ∷ s) 0
    → FirstAt t s o
    → FirstAt t (c ∷ s) (next o)
unfolding next
next-FirstAt t s c none h k = nowhere t s c h k
next-FirstAt t s c (some p) h k = ((omega (arith, k.0.0), k.0.1), not_earlier t s c p h k.1)

search_from-FirstAt : (s t : Chars) → FirstAt t s (search_from t s)
unfolding search_from
search_from-FirstAt [] t = elim (Bool-cases (is_prefix t [])) [
  | inl h ↦ rw h (is_prefix-take t [] h, λ q k. absurd (omega arith))
  | inr h ↦ rw h (nowhere_in_nil t (not_prefix-take t [] h))
]
search_from-FirstAt (c ∷ s) t = elim (Bool-cases (is_prefix t (c ∷ s))) [
  | inl h ↦ rw h (is_prefix-take t (c ∷ s) h, λ q k. absurd (omega arith))
  | inr h ↦ rw h (next-FirstAt t s c _ (not_prefix-take t (c ∷ s) h) (search_from-FirstAt s t))
]

unfoldable pub replace_from : Chars → Chars → ℕ → Chars → Chars
replace_from old new skip [] = []
replace_from old new (suc k) (c ∷ s) = replace_from old new k s
replace_from old new zero (c ∷ s) =
    let hit = new ++ replace_from old new (length old - 1) s in
    let miss = c ∷ replace_from old new zero s in if is_prefix old (c ∷ s) then hit else miss

replace_from-char : (c : ℕ) (new s : Chars) → replace_from (c ∷ []) new 0 s ≡ replace_char c new s
unfolding replace_from is_prefix
replace_from-char c new [] = refl
replace_from-char c new (d ∷ s) = ground (arith, replace_from-char c new s)

abbrev pub plain_on : {W : Type 0} → Ovstr W
plain_on = record {
  sgrow = λ n. pure tt;
  apush = pure tt;
  scpy = λ s. pure (c_str s);
  sncpy = λ s n. pure (take n s);
  scpym = λ ss. pure (concat ss);
  scatm = λ s ss. pure (s ++ concat ss);
  sstr = λ s t. pure (search_from t s);
  sreplace_all = λ s old new. pure (replace_from old new 0 s);
}

pub plain_on-laws : {W : Type 0} → OvstrLaws {W = W} plain_on NoError
plain_on-laws = record {
  sgrow_lem = λ n. pure-Meets tt tt;
  apush_lem = pure-Meets tt tt;
  scpy_lem = λ s. pure-Meets _ refl;
  sncpy_lem = λ s n. pure-Meets _ refl;
  scpym_lem = λ ss. pure-Meets _ refl;
  sstr_lem = λ s t _ _. pure-Meets _ (search_from-FirstAt s t);
  scatm_lem = λ s ss. pure-Meets _ refl;
  sreplace_all_lem = λ s c new _. pure-Meets _ (replace_from-char c new s);
}

-- A world with no state is enough to run the functions that call nothing else.
abbrev pub plain : Ovstr (Unit {0})
plain = plain_on

pub plain-laws : OvstrLaws plain NoError
plain-laws = plain_on-laws
