-- ===== src/Ptklayer/Items.antt =====
-- What `ptklayer_parse` of src/c/ptklayer.c makes of the lists that the renderer joins.
use mathlib.Core.Option
use aviutl_psdtoolkit.Base.{
  ℕ, zero, suc, ◌+◌, ◌≤◌, List, [], ◌∷◌, ◌++◌, Option, none, some, length, length-append, drop,
  Chars, HasNoNul, c_str, c_str-HasNoNul, c_str-append-nul, append_assoc, append-nil, Error, Meets,
  pure-Meets, >>=-Meets, Ovstr, OvstrLaws, ◌≡◌, ◌≢◌, refl, sym, ap, arith,
}
use aviutl_psdtoolkit.Ptklayer.Types.{Item, empty_layer, Convert, ConvertLaws}
use aviutl_psdtoolkit.Ptklayer.Parse.{behind, parse_loop, parse_slider_name, ptklayer_parse}

-- Strings joined by NULs, with none at the end.
abbrev pub join : List Chars → Chars
join [] = []
join (s ∷ []) = s
join (s ∷ t ∷ ts) = s ++ (0 ∷ join (t ∷ ts))

-- Each string is there and has no NUL in it.
abbrev pub AreNames : List Chars → Type 0
AreNames [] = Unit
AreNames (s ∷ ss) = (s ≢ []) × HasNoNul s × AreNames ss

-- The first names with the first values, as many as there are of both.
abbrev pub items_of : (Chars → Chars) → List Chars → List Chars → List Item
items_of wide [] vs = []
items_of wide (n ∷ ns) [] = []
items_of wide (n ∷ ns) (v ∷ vs) = record { name = wide n; value = wide v } ∷ items_of wide ns vs

c_str-join : (s : Chars) (ss : List Chars) → HasNoNul s → c_str (join (s ∷ ss)) ≡ s
c_str-join s [] h = c_str-HasNoNul s h
c_str-join s (t ∷ ts) h = c_str-append-nul s _ h

drop_all : (s : Chars) → drop (length s + 1) s ≡ []
drop_all [] = refl
drop_all (c ∷ s) = rw (suc_shift (length s)) (drop_all s)
  where
    suc_shift : (n : ℕ) → suc n + 1 ≡ suc (n + 1)
    suc_shift n = omega arith

drop_nul : (s t : Chars) → drop (length s + 1) (s ++ (0 ∷ t)) ≡ t
drop_nul [] t = refl
drop_nul (c ∷ s) t = rw (suc_shift (length s)) (drop_nul s t)
  where
    suc_shift : (n : ℕ) → suc n + 1 ≡ suc (n + 1)
    suc_shift n = omega arith

behind-join : (s : Chars) (ss : List Chars) → HasNoNul s → behind (join (s ∷ ss)) ≡ join ss
unfolding behind
behind-join s [] h = rw (c_str-HasNoNul s h) (drop_all s)
behind-join s (t ∷ ts) h = rw (c_str-append-nul s (join (t ∷ ts)) h) (drop_nul s _)

join_cons :
    (s : Chars) (ss : List Chars) → s ≢ [] → (c : ℕ) × (cs : Chars) × (join (s ∷ ss) ≡ c ∷ cs)
join_cons [] ss h = absurd (h refl)
join_cons (c ∷ s) [] h = (c, s, refl)
join_cons (c ∷ s) (t ∷ ts) h = (c, s ++ (0 ∷ join (t ∷ ts)), refl)

join-ne-nil : (s : Chars) (ss : List Chars) → s ≢ [] → join (s ∷ ss) ≢ []
join-ne-nil s ss h e = let (c, cs, f) = join_cons s ss h in cc

-- The loop's fuel, a byte a round, suffices.
length-join-le : (ns : List Chars) → AreNames ns → length ns ≤ length (join ns)
length-join-le [] h = omega arith
length-join-le ([] ∷ ns) h = absurd (h.0 refl)
length-join-le ((c ∷ s) ∷ []) h = omega arith
length-join-le ((c ∷ s) ∷ n ∷ ns) h =
    omega (arith, length-join-le (n ∷ ns) h.2, length-append {0} s (0 ∷ join (n ∷ ns)))

module _ {W : Type 0} {E : Error → Type 0} (lib : Ovstr W) (laws : OvstrLaws lib E)
    (conv : Convert W) (wide : Chars → Chars) (convs : ConvertLaws conv wide E) where
  -- One round, where both lists go on.
  parse_round :
      {Q : List Item → Type 0} (fuel : ℕ) (names values : Chars) (items : List Item)
      → names ≢ []
      → values ≢ []
      → Meets E Q (
          parse_loop lib conv fuel
            (behind names)
            (behind values)
            (items ++ (record { name = wide (c_str names); value = wide (c_str values) } ∷ [])))
      → Meets E Q (parse_loop lib conv (suc fuel) names values items)
  unfolding parse_loop
  parse_round fuel [] values items h k q = absurd (h refl)
  parse_round fuel (c ∷ cs) [] items h k q = absurd (k refl)
  parse_round fuel (c ∷ cs) (d ∷ ds) items h k q = >>=-Meets (convs.from_utf8_lem _) λ n hn.
      >>=-Meets (convs.from_utf8_lem _) λ v hv. >>=-Meets laws.apush_lem λ _ _. rw (hn, hv) q

  parse_loop-Meets :
      (fuel : ℕ) (ns vs : List Chars) (items : List Item)
      → AreNames ns
      → AreNames vs
      → length ns ≤ fuel
      → Meets E
          (λ r. r ≡ items ++ items_of wide ns vs)
          (parse_loop lib conv fuel (join ns) (join vs) items)
  parse_loop-Meets fuel [] vs items h k f =
      unfold parse_loop in pure-Meets items (sym (append-nil items))
  parse_loop-Meets fuel (n ∷ ns) [] items h k f =
      let (c, cs, e) = join_cons n ns h.0 in
      rw e (unfold parse_loop in pure-Meets items (sym (append-nil items)))
  parse_loop-Meets zero (n ∷ ns) (v ∷ vs) items h k f = absurd (omega arith)
  parse_loop-Meets (suc fuel) (n ∷ ns) (v ∷ vs) items h k f =
      parse_round fuel (join (n ∷ ns)) (join (v ∷ vs)) items (join-ne-nil n ns h.0)
        (join-ne-nil v vs k.0)
        (rw
          (
            c_str-join n ns h.1,
            c_str-join v vs k.1,
            behind-join n ns h.1,
            behind-join v vs k.1,
            ← append_assoc items (record { name = wide n; value = wide v } ∷ [])
                (items_of wide ns vs),
          )
          (parse_loop-Meets fuel ns vs _ h.2 k.2 (omega arith)))

  slider_name-Meets :
      (slider : Option Chars)
      → Meets E (λ r. r ≡ Option.map wide slider) (parse_slider_name lib conv slider none)
  unfolding parse_slider_name
  slider_name-Meets none = pure-Meets none refl
  slider_name-Meets (some s) = >>=-Meets (convs.from_utf8_lem s) λ n h. pure-Meets _ (ap some h)

  -- When the names and the values that the renderer joined with NULs are non-empty strings without
  -- NUL, ptklayer_parse on an empty layer never runs out of rounds and gives the first names with
  -- the first values in order (as many as there are of both), the slider name and the file path,
  -- all converted, or an error of the string library or the conversion.
  pub ptklayer_parse-join :
      (ns vs : List Chars) (slider : Option Chars) (path : Chars)
      → AreNames ns
      → AreNames vs
      → Meets E
          (λ r. r ≡ record {
            items = items_of wide ns vs;
            slider_name = Option.map wide slider;
            file_path = some (wide path);
          })
          (ptklayer_parse lib conv (some (join ns)) (some (join vs)) slider path (some empty_layer))
  unfolding ptklayer_parse
  ptklayer_parse-join ns vs slider path h k =
      >>=-Meets (parse_loop-Meets (length (join ns)) ns vs [] h k (length-join-le ns h)) λ items e.
        >>=-Meets (slider_name-Meets slider) λ sl f. >>=-Meets (convs.from_utf8_lem path) λ p g.
          pure-Meets _ (λ i. record { items = e i; slider_name = f i; file_path = some (g i) })
