-- ===== src/Base/Effect.antt =====
-- Errors, and calls that read and change the world outside the plug-in and may fail.
use Prim.Native.Nat.{ℕ}
use mathlib.Core.Path.{◌≡◌, refl}
use mathlib.Core.Bool.{Bool, true, false}
use mathlib.Core.Option.{Option, none, some}
use aviutl_psdtoolkit.Base.Tests.{if◌then◌else◌}
use aviutl_psdtoolkit.Base.Lists.{Chars}

-- The error codes that the code raises or tests. `hr` is an HRESULT, `ptk` a code of the plug-in,
-- `remote` the text of a failure in the renderer process. `overrun` is no code of the program: it
-- stands for a memory access outside an array, where C leaves the behaviour undefined.
pub data Error : Type 0 where
  fail unexpected invalid_argument null_pointer out_of_memory : Error
  not_sufficient_buffer not_found abort overrun : Error
  hr ptk : ℕ → Error
  remote : Chars → Error

pub data Result (A : Type 0) : Type 0 where
  ok : A → Result A
  err : Error → Result A

abbrev pub M : Type 0 → Type 0 → Type 0
M W A = W → Result A × W

-- The later call starts in the world that the first one leaves.
infixl 5 ◌>>=◌ ◌>>◌
unfoldable pub ◌>>=◌ : {W A B : Type 0} → M W A → (A → M W B) → M W B
◌>>=◌ m f w = let (r, w') = m w in elim r [ ok a ↦ f a w' | err e ↦ (err e, w') ]

abbrev pub ◌>>◌ : {W A B : Type 0} → M W A → M W B → M W B
m >> k = m >>= λ _. k

abbrev pub pure : {W A : Type 0} → A → M W A
pure a w = (ok a, w)

abbrev pub raise : {W A : Type 0} → Error → M W A
raise e w = (err e, w)

abbrev pub or_raise : {W A : Type 0} → Option A → Error → M W A
or_raise none e = raise e
or_raise (some a) e = pure a

-- The code at a label `cleanup`, which runs after a success and after an error, in the world that
-- the body leaves.
unfoldable pub finally : {W A : Type 0} → M W A → (Result A → W → Result A × W) → M W A
finally m f w = let (r, w') = m w in f r w'

-- The code that reports another error in place of the one that a call ended in.
unfoldable pub map_error : {W A : Type 0} → (Error → Error) → M W A → M W A
map_error f m = finally m (λ r w. elim r [ ok a ↦ (ok a, w) | err e ↦ (err (f e), w) ])

-- A result is a value that `P` holds of, or an error that `E` allows.
abbrev pub Allowed : {A : Type 0} → (Error → Type 0) → (A → Type 0) → Result A → Type 0
Allowed E P (ok a) = P a
Allowed E P (err e) = E e

-- In every world the call ends in an allowed result. With `NoError` it always succeeds.
pub record Meets {W A : Type 0} (E : Error → Type 0) (P : A → Type 0) (m : M W A) : Type 0 where
  pub run : (w : W) → Allowed E P (m w).0

abbrev pub NoError : Error → Type 0
NoError e = ⊥

abbrev pub Only : Error → Error → Type 0
Only e e' = e' ≡ e

weaken_Allowed :
    {A : Type 0} (E : Error → Type 0) {P Q : A → Type 0} (r : Result A)
    → Allowed E P r
    → ((a : A) → P a → Q a)
    → Allowed E Q r
weaken_Allowed E (ok a) h k = k a h
weaken_Allowed E (err e) h k = h

errors_Allowed :
    {A : Type 0} (E F : Error → Type 0) (P : A → Type 0) (r : Result A)
    → ((e : Error) → F e → E e)
    → Allowed F P r
    → Allowed E P r
errors_Allowed E F P (ok a) k h = h
errors_Allowed E F P (err e) k h = k e h

module _ {W : Type 0} {E : Error → Type 0} where
  pub pure-Meets : {A : Type 0} {P : A → Type 0} (a : A) → P a → Meets {W = W} E P (pure a)
  pure-Meets a h = record { run = λ w. h }

  pub raise-Meets : {A : Type 0} {P : A → Type 0} (e : Error) → E e → Meets {W = W} E P (raise e)
  raise-Meets e h = record { run = λ w. h }

  then_Allowed :
      {A B : Type 0} {P : A → Type 0} {Q : B → Type 0} (f : A → M W B) (r : Result A × W)
      → Allowed E P r.0
      → ((a : A) → P a → Meets E Q (f a))
      → Allowed E Q (((λ (v : W). r) >>= f) r.1).0
  unfolding ◌>>=◌
  then_Allowed f (ok a, w) h k = (k a h).run w
  then_Allowed f (err e, w) h k = h

  -- The rule for a sequence of two calls.
  pub >>=-Meets :
      {A B : Type 0} {P : A → Type 0} {Q : B → Type 0} {m : M W A} {f : A → M W B}
      → Meets E P m
      → ((a : A) → P a → Meets E Q (f a))
      → Meets E Q (m >>= f)
  unfolding ◌>>=◌
  >>=-Meets {m} {f} h k = record { run = λ w. then_Allowed f (m w) (h.run w) k }

  pub weaken-Meets :
      {A : Type 0} {P Q : A → Type 0} {m : M W A}
      → Meets E P m
      → ((a : A) → P a → Q a)
      → Meets E Q m
  weaken-Meets {m} h k = record { run = λ w. weaken_Allowed E (m w).0 (h.run w) k }

  -- A call that cannot fail fails only with what is allowed.
  pub certain-Meets : {A : Type 0} {P : A → Type 0} {m : M W A} → Meets NoError P m → Meets E P m
  certain-Meets {P} {m} h = record {
    run = λ w. errors_Allowed E NoError P (m w).0 (λ e. absurd) (h.run w);
  }

  pub errors-Meets :
      {A : Type 0} {F : Error → Type 0} {P : A → Type 0} {m : M W A}
      → ((e : Error) → F e → E e)
      → Meets F P m
      → Meets E P m
  errors-Meets {F} {P} {m} k h = record { run = λ w. errors_Allowed E F P (m w).0 k (h.run w) }

  -- The rule for a branch.
  pub if-Meets :
      {A : Type 0} {P : A → Type 0} (b : Bool) {x y : M W A}
      → (b ≡ true → Meets E P x)
      → (b ≡ false → Meets E P y)
      → Meets E P (if b then x else y)
  if-Meets true h k = h refl
  if-Meets false h k = k refl
