-- ===== src/Assist/Running.antt =====
-- Which parts of the plug-in of src/c/assist.c run, and what the other parts promise.
use aviutl_psdtoolkit.Base.{
  ℕ, ◌+◌, ◌-◌, Bool, true, false, ltb, List, Option, none, some, own, Chars, M, ◌>>=◌, pure, Error,
  Result, ok, err, Ovstr, Ends, ◌≡◌, refl, ap, ◌∙◌, arith,
}
use aviutl_psdtoolkit.Assist.Lifetime.{Globals, Parts, free_bridge}

-- The parts that run, and how often each library is loaded. lua51.dll, which `aviutl_init` loads,
-- belongs to its part and is not counted.
pub record Up : Type 0 where
  pub aviutl : Bool
  pub cache : Bool
  pub speak : Bool
  pub ipc : Bool
  pub libs : ℕ → ℕ

-- A call that starts and stops nothing.
pub record Still {W A : Type 0} (view : W → Up) (m : M W A) : Type 0 where
  pub still : (w : W) → view (m w).1 ≡ view w

-- What the other parts promise. The exits are specified only for what runs.
pub record PartLaws {W : Type 0} (lib : Ovstr W) (parts : Parts W) (view : W → Up) : Type 0 where
  pub is_amd64_lem : (w : W) → view (parts.is_amd64 w).1 ≡ view w
  pub aviutl_set_pointers_lem : (w : W) → view (parts.aviutl_set_pointers w) ≡ view w
  pub aviutl_init_lem :
      (w : W)
      → Ends
          (λ _ w'. view w' ≡ record (view w) { aviutl = true })
          (λ _ w'. view w' ≡ view w)
          (parts.aviutl_init w)
  pub aviutl_initalized_lem : (w : W) → parts.aviutl_initalized w ≡ (view w).aviutl
  pub aviutl_exit_lem :
      (w : W)
      → (view w).aviutl ≡ true
      → view (parts.aviutl_exit w).1 ≡ record (view w) { aviutl = false }
  pub aviutl_add_menu_item_lem :
      (s : Chars) (i k f : ℕ) → Still view (parts.aviutl_add_menu_item s i k f)
  pub cache_init_lem :
      (w : W)
      → Ends
          (λ _ w'. view w' ≡ record (view w) { cache = true })
          (λ _ w'. view w' ≡ view w)
          (parts.cache_init w)
  pub cache_exit_lem :
      (w : W)
      → (view w).cache ≡ true
      → view (parts.cache_exit w) ≡ record (view w) { cache = false }
  pub speak_init_lem :
      (w : W)
      → Ends
          (λ _ w'. view w' ≡ record (view w) { speak = true })
          (λ _ w'. view w' ≡ view w)
          (parts.speak_init w)
  pub speak_exit_lem :
      (w : W)
      → (view w).speak ≡ true
      → view (parts.speak_exit w) ≡ record (view w) { speak = false }
  pub ipc_init_lem :
      (s : Chars) (w : W)
      → Ends
          (λ _ w'. view w' ≡ record (view w) { ipc = true })
          (λ _ w'. view w' ≡ view w)
          (parts.ipc_init s w)
  pub ipc_exit_lem :
      (w : W) → (view w).ipc ≡ true → view (parts.ipc_exit w) ≡ record (view w) { ipc = false }
  pub get_module_file_name_lem : Still view parts.get_module_file_name
  pub extract_file_name_lem : (s : Chars) → Still view (parts.extract_file_name s)
  pub load_library_lem :
      (s : Chars) (w : W)
      → Ends
          (λ m w'. view w' ≡ record (view w) { libs = λ x. (view w).libs x + own (some m) x })
          (λ _ w'. view w' ≡ view w)
          (parts.load_library s w)
  pub get_proc_address_lem : (m : ℕ) → Still view (parts.get_proc_address m)
  pub call_init_lem : (fn : ℕ) (w : W) → view (parts.call_init fn w) ≡ view w
  pub free_library_lem :
      (m : ℕ) (w : W)
      → view (parts.free_library m w)
        ≡ record (view w) { libs = λ x. (view w).libs x - own (some m) x }
  pub error_to_string_lem : (e : Error) → Still view (parts.error_to_string e)
  pub message_box_lem : (s : Chars) (w : W) → view (parts.message_box s w) ≡ view w
  pub ereport_lem : (e : Error) (w : W) → view (parts.ereport e w) ≡ view w
  pub scpy_lem : (s : Chars) → Still view (lib.scpy s)
  pub scpym_lem : (ss : List Chars) → Still view (lib.scpym ss)
  pub scatm_lem : (s : Chars) (ss : List Chars) → Still view (lib.scatm s ss)

module _ {W : Type 0} (view : W → Up) where
  then_Still :
      {A B : Type 0} (f : A → M W B) (r : Result A × W)
      → ((a : A) → Still view (f a))
      → view (((λ (v : W). r) >>= f) r.1).1 ≡ view r.1
  unfolding ◌>>=◌
  then_Still f (ok a, w) k = (k a).still w
  then_Still f (err e, w) k = refl

  pub >>=-Still :
      {A B : Type 0} {m : M W A} {f : A → M W B}
      → Still view m
      → ((a : A) → Still view (f a))
      → Still view (m >>= f)
  unfolding ◌>>=◌
  >>=-Still {m} {f} h k = record { still = λ w. then_Still f (m w) k ∙ h.still w }

  pub pure-Still : {A : Type 0} (a : A) → Still view (pure a)
  pure-Still a = record { still = λ w. refl }

module _ {W : Type 0} (view : W → Up) (base : ℕ → ℕ) where
  -- The first `n` parts run, and the globals say so. The fifth is the library of the bridge.
  pub record Running (n : ℕ) (g : Globals W) : Type 0 where
    pub aviutl_is : (view g.world).aviutl ≡ ltb 0 n
    pub cache_is : (view g.world).cache ≡ ltb 1 n
    pub speak_is : (view g.world).speak ≡ ltb 2 n
    pub ipc_is : (view g.world).ipc ≡ ltb 3 n
    pub libs_are : (x : ℕ) → (view g.world).libs x ≡ base x + own g.bridge x
    pub g_speak_is : g.speak ≡ ltb 2 n
    pub g_ipc_is : g.ipc ≡ ltb 3 n
    pub bridge_is : ltb 4 n ≡ false → g.bridge ≡ none
    pub loaded_is : ltb 4 n ≡ true → (m : ℕ) × (g.bridge ≡ some m)

  pub Running-same :
      (n : ℕ) (g : Globals W) (w : W)
      → view w ≡ view g.world
      → Running n g
      → Running n (record g { world = w })
  Running-same n g w e k = record {
    aviutl_is = ap (λ v. v.aviutl) e ∙ k.aviutl_is;
    cache_is = ap (λ v. v.cache) e ∙ k.cache_is;
    speak_is = ap (λ v. v.speak) e ∙ k.speak_is;
    ipc_is = ap (λ v. v.ipc) e ∙ k.ipc_is;
    libs_are = λ x. ap (λ v. v.libs x) e ∙ k.libs_are x;
    g_speak_is = k.g_speak_is;
    g_ipc_is = k.g_ipc_is;
    bridge_is = k.bridge_is;
    loaded_is = k.loaded_is;
  }

  -- The parts that run, and what is loaded beyond `base`: the library of `g_bridge`, if any.
  pub record Kept (a c s i : Bool) (g : Globals W) : Type 0 where
    pub aviutl_is : (view g.world).aviutl ≡ a
    pub cache_is : (view g.world).cache ≡ c
    pub speak_is : (view g.world).speak ≡ s
    pub ipc_is : (view g.world).ipc ≡ i
    pub libs_are : (x : ℕ) → (view g.world).libs x ≡ base x + own g.bridge x
    pub g_speak_is : g.speak ≡ s
    pub g_ipc_is : g.ipc ≡ i

  pub Running-Kept :
      (n : ℕ) (g : Globals W) → Running n g → Kept (ltb 0 n) (ltb 1 n) (ltb 2 n) (ltb 3 n) g
  Running-Kept n g k = record {
    aviutl_is = k.aviutl_is;
    cache_is = k.cache_is;
    speak_is = k.speak_is;
    ipc_is = k.ipc_is;
    libs_are = k.libs_are;
    g_speak_is = k.g_speak_is;
    g_ipc_is = k.g_ipc_is;
  }

  pub Kept-Running :
      (n : ℕ) (g : Globals W)
      → ltb 4 n ≡ false
      → g.bridge ≡ none
      → Kept (ltb 0 n) (ltb 1 n) (ltb 2 n) (ltb 3 n) g
      → Running n g
  Kept-Running n g le b k = record {
    aviutl_is = k.aviutl_is;
    cache_is = k.cache_is;
    speak_is = k.speak_is;
    ipc_is = k.ipc_is;
    libs_are = k.libs_are;
    g_speak_is = k.g_speak_is;
    g_ipc_is = k.g_ipc_is;
    bridge_is = λ _. b;
    loaded_is = λ t. absurd (cc);
  }

  pub Kept_cast :
      {a c s i a' c' s' i' : Bool} (g : Globals W)
      → a ≡ a'
      → c ≡ c'
      → s ≡ s'
      → i ≡ i'
      → Kept a c s i g
      → Kept a' c' s' i' g
  Kept_cast g ea ec es ei k = record {
    aviutl_is = k.aviutl_is ∙ ea;
    cache_is = k.cache_is ∙ ec;
    speak_is = k.speak_is ∙ es;
    ipc_is = k.ipc_is ∙ ei;
    libs_are = k.libs_are;
    g_speak_is = k.g_speak_is ∙ es;
    g_ipc_is = k.g_ipc_is ∙ ei;
  }

  unloaded_libs : (n k : ℕ) {a b : ℕ} → a ≡ n + k → b ≡ a - k → b ≡ n + 0
  unloaded_libs n k e f = omega (arith, e, f)

module _ {W : Type 0} (lib : Ovstr W) (parts : Parts W) (view : W → Up)
    (laws : PartLaws lib parts view) (base : ℕ → ℕ) where
  -- The library of the bridge is given back.
  pub given_back-Kept :
      {a c s i : Bool} (g : Globals W) (o : Option ℕ)
      → g.bridge ≡ o
      → Kept view base a c s i g
      → Kept view base a c s i (free_bridge lib parts o g)
        × ((free_bridge lib parts o g).bridge ≡ none)
  unfolding free_bridge
  given_back-Kept g none e k = (k, e)
  given_back-Kept g (some m) e k =
      let f = laws.free_library_lem m g.world in
      (
        record {
          aviutl_is = ap (λ v. v.aviutl) f ∙ k.aviutl_is;
          cache_is = ap (λ v. v.cache) f ∙ k.cache_is;
          speak_is = ap (λ v. v.speak) f ∙ k.speak_is;
          ipc_is = ap (λ v. v.ipc) f ∙ k.ipc_is;
          libs_are = λ x.
              unloaded_libs view base (base x) (own (some m) x)
                (k.libs_are x ∙ ap (λ o. base x + own o x) e) (ap (λ v. v.libs x) f);
          g_speak_is = k.g_speak_is;
          g_ipc_is = k.g_ipc_is;
        },
        refl,
      )
