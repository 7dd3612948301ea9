-- ===== src/Base/Outcome.antt =====
-- What a call ends in when it starts from one world.
use aviutl_psdtoolkit.Base.Effect.{Error, Result, ok, err, M, ◌>>=◌, pure, raise, finally}

-- The result and the world that it leaves: `Q` of a value, or `R` of an error.
abbrev pub Ends : {W A : Type 0} → (A → W → Type 0) → (Error → W → Type 0) → Result A × W → Type 0
Ends Q R (ok a, w) = Q a w
Ends Q R (err e, w) = R e w

pub record From {W A : Type 0} (w : W) (Q : A → W → Type 0) (R : Error → W → Type 0) (m : M W A)
    : Type 0 where
  pub ends : Ends Q R (m w)

weaken_Ends :
    {W A : Type 0} {P Q : A → W → Type 0} (R : Error → W → Type 0) (r : Result A × W)
    → Ends P R r
    → ((a : A) (w' : W) → P a w' → Q a w')
    → Ends Q R r
weaken_Ends R (ok a, w) h k = k a w h
weaken_Ends R (err e, w) h k = h

pub map_Ends :
    {W A : Type 0} {P Q : A → W → Type 0} {R S : Error → W → Type 0} (r : Result A × W)
    → ((a : A) (w : W) → P a w → Q a w)
    → ((e : Error) (w : W) → R e w → S e w)
    → Ends P R r
    → Ends Q S r
map_Ends (ok a, w) f g h = f a w h
map_Ends (err e, w) f g h = g e w h

module _ {W : Type 0} {R : Error → W → Type 0} where
  pub pure-From : {A : Type 0} {Q : A → W → Type 0} {w : W} (a : A) → Q a w → From w Q R (pure a)
  pure-From a h = record { ends = h }

  pub raise-From :
      {A : Type 0} {Q : A → W → Type 0} {w : W} (e : Error) → R e w → From {A = A} w Q R (raise e)
  raise-From e h = record { ends = h }

  then_Ends :
      {A B : Type 0} {P : A → W → Type 0} {Q : B → W → Type 0} (f : A → M W B) (r : Result A × W)
      → Ends P R r
      → ((a : A) (w' : W) → P a w' → From w' Q R (f a))
      → Ends Q R (((λ (v : W). r) >>= f) r.1)
  unfolding ◌>>=◌
  then_Ends f (ok a, w) h k = (k a w h).ends
  then_Ends f (err e, w) h k = h

  pub >>=-From :
      {A B : Type 0} {P : A → W → Type 0} {Q : B → W → Type 0} {w : W} {m : M W A} {f : A → M W B}
      → From w P R m
      → ((a : A) (w' : W) → P a w' → From w' Q R (f a))
      → From w Q R (m >>= f)
  unfolding ◌>>=◌
  >>=-From {w} {m} {f} h k = record { ends = then_Ends f (m w) h.ends k }

  pub weaken-From :
      {A : Type 0} {P Q : A → W → Type 0} {w : W} {m : M W A}
      → From w P R m
      → ((a : A) (w' : W) → P a w' → Q a w')
      → From w Q R m
  weaken-From {w} {m} h k = record { ends = weaken_Ends R (m w) h.ends k }

tidied_Ends :
    {W A : Type 0} {P : A → W → Type 0} {R : Error → W → Type 0} (Q : A → W → Type 0)
    (S : Error → W → Type 0) (g : W → W) (r : Result A × W)
    → ((a : A) (w : W) → P a w → Q a (g w))
    → ((e : Error) (w : W) → R e w → S e (g w))
    → Ends P R r
    → Ends Q S (r.0, g r.1)
tidied_Ends Q S g (ok a, w) f k h = f a w h
tidied_Ends Q S g (err e, w) f k h = k e w h

-- The rule for a cleanup that changes the world only.
pub finally-From :
    {W A : Type 0} {P Q : A → W → Type 0} {R S : Error → W → Type 0} {w : W} {m : M W A} (g : W → W)
    → From w P R m
    → ((a : A) (w' : W) → P a w' → Q a (g w'))
    → ((e : Error) (w' : W) → R e w' → S e (g w'))
    → From w Q S (finally m (λ r w. (r, g w)))
unfolding finally
finally-From {Q} {S} {w} {m} g h f k = record { ends = tidied_Ends Q S g (m w) f k h.ends }
