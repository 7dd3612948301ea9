-- ===== src/Assist/Starting.antt =====
-- Calls at the start of the plug-in, in src/c/assist.c, that start and stop none of its parts.
use aviutl_psdtoolkit.Base.{
  ℕ, Option, none, some, Chars, M, Error, Result, ok, err, Ovstr, Ends, From, ◌≡◌, ◌∙◌,
}
use aviutl_psdtoolkit.Assist.Running.{
  Up, Still, PartLaws, >>=-Still, pure-Still, Running, Running-same,
}
use aviutl_psdtoolkit.Assist.Lifetime.{
  Globals, Parts, Report, beyond, build_error_message, boxed, error_message_box, own_directory,
}

module _ {W : Type 0} (lib : Ovstr W) (parts : Parts W) (view : W → Up)
    (laws : PartLaws lib parts view) (base : ℕ → ℕ) where
  build_error_message-Still :
      (e : Option Error) (s : Chars) → Still view (build_error_message lib parts e s)
  unfolding build_error_message
  build_error_message-Still none s = laws.scpy_lem s
  build_error_message-Still (some e) s =
      >>=-Still view (laws.error_to_string_lem e)
        (λ t. >>=-Still view (laws.scpym_lem _) (λ m. laws.scpy_lem m))

  boxed-view : (r : Result Chars × W) → view (boxed lib parts r) ≡ view r.1
  unfolding boxed
  boxed-view (ok s, w) = laws.message_box_lem s w
  boxed-view (err e, w) = laws.ereport_lem e w

  pub error_message_box-view :
      (s : Report) (w : W) → view (error_message_box lib parts s w) ≡ view w
  unfolding error_message_box
  error_message_box-view (e, s) w =
      boxed-view (build_error_message lib parts e s w) ∙ (build_error_message-Still e s).still w

  pub own_directory-Still : Still view (own_directory lib parts)
  unfolding own_directory
  own_directory-Still =
      >>=-Still view laws.get_module_file_name_lem
        (λ t. >>=-Still view (laws.extract_file_name_lem t) (λ p. pure-Still view _))

  -- A call beyond the globals that starts and stops nothing.
  pub beyond_Ends :
      {A : Type 0} {P : A → W → Type 0} {E : Error → W → Type 0} (Q : A → Globals W → Type 0)
      (R : Error → Globals W → Type 0) (g : Globals W) (r : Result A × W)
      → Ends P E r
      → ((a : A) (w : W) → P a w → Q a (record g { world = w }))
      → ((e : Error) (w : W) → E e w → R e (record g { world = w }))
      → Ends Q R (r.0, record g { world = r.1 })
  beyond_Ends Q R g (ok a, w) h k l = k a w h
  beyond_Ends Q R g (err e, w) h k l = l e w h

  at_end :
      {A : Type 0} (w0 : W) (r : Result A × W)
      → view r.1 ≡ view w0
      → Ends (λ _ w. view w ≡ view w0) (λ _ w. view w ≡ view w0) r
  at_end w0 (ok a, w) e = e
  at_end w0 (err a, w) e = e

  pub beyond-From :
      {A : Type 0} (n : ℕ) (m : M W A) (g : Globals W)
      → Still view m
      → Running view base n g
      → From g (λ _. Running view base n) (λ _. Running view base n) (beyond m)
  unfolding beyond
  beyond-From n m g s k = record {
    ends =
        beyond_Ends (λ _. Running view base n) (λ _. Running view base n) g (m g.world)
          (at_end g.world (m g.world) (s.still g.world)) (λ _ w e. Running-same view base n g w e k)
          (λ _ w e. Running-same view base n g w e k);
  }
