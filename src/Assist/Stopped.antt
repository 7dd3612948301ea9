-- ===== src/Assist/Stopped.antt =====
-- The parts that `filter_exit` of src/c/assist.c stops.
use aviutl_psdtoolkit.Base.{
  ℕ, ◌≤◌, Bool, true, false, leb, if◌then◌else◌, none, Result, ok, err, Ovstr, ◌≡◌, refl, sym, ap,
  ◌∙◌, subst, arith,
}
use aviutl_psdtoolkit.Assist.Running.{
  Up, PartLaws, Running, Kept, Running-Kept, Kept_cast, given_back-Kept,
}
use aviutl_psdtoolkit.Assist.Started.{filter_init-Stopped}
use aviutl_psdtoolkit.Assist.Lifetime.{
  Globals, Parts, bridge_dll_exit, filter_init, stop_ipc, stop_speak, ended, stop_aviutl,
  filter_exit,
}

module _ {W : Type 0} (lib : Ovstr W) (parts : Parts W) (view : W → Up)
    (laws : PartLaws lib parts view) (base : ℕ → ℕ) where
  cache_exit-Kept :
      {s i : Bool} (g : Globals W)
      → Kept view base true true s i g
      → Kept view base true false s i (record g { world = parts.cache_exit g.world })
  cache_exit-Kept g k =
      let e = laws.cache_exit_lem g.world k.cache_is in
      record {
        aviutl_is = ap (λ v. v.aviutl) e ∙ k.aviutl_is;
        cache_is = ap (λ v. v.cache) e;
        speak_is = ap (λ v. v.speak) e ∙ k.speak_is;
        ipc_is = ap (λ v. v.ipc) e ∙ k.ipc_is;
        libs_are = λ x. ap (λ v. v.libs x) e ∙ k.libs_are x;
        g_speak_is = k.g_speak_is;
        g_ipc_is = k.g_ipc_is;
      }

  stop_ipc-Kept :
      {a c s i : Bool} (g : Globals W)
      → Kept view base a c s i g
      → Kept view base a c s false (stop_ipc lib parts g)
  unfolding stop_ipc
  stop_ipc-Kept {a} {c} {s} {i = false} g k =
      subst
        (λ b.
          Kept view base a c s false
            (if b then record g { ipc = false; world = parts.ipc_exit g.world } else g))
        (sym k.g_ipc_is) k
  stop_ipc-Kept {a} {c} {s} {i = true} g k =
      let e = laws.ipc_exit_lem g.world k.ipc_is in
      subst
        (λ b.
          Kept view base a c s false
            (if b then record g { ipc = false; world = parts.ipc_exit g.world } else g))
        (sym k.g_ipc_is)
        (record {
          aviutl_is = ap (λ v. v.aviutl) e ∙ k.aviutl_is;
          cache_is = ap (λ v. v.cache) e ∙ k.cache_is;
          speak_is = ap (λ v. v.speak) e ∙ k.speak_is;
          ipc_is = ap (λ v. v.ipc) e;
          libs_are = λ x. ap (λ v. v.libs x) e ∙ k.libs_are x;
          g_speak_is = k.g_speak_is;
          g_ipc_is = refl;
        })

  stop_speak-Kept :
      {a c s i : Bool} (g : Globals W)
      → Kept view base a c s i g
      → Kept view base a c false i (stop_speak lib parts g)
  unfolding stop_speak
  stop_speak-Kept {a} {c} {s = false} {i} g k =
      subst
        (λ b.
          Kept view base a c false i
            (if b then record g { speak = false; world = parts.speak_exit g.world } else g))
        (sym k.g_speak_is) k
  stop_speak-Kept {a} {c} {s = true} {i} g k =
      let e = laws.speak_exit_lem g.world k.speak_is in
      subst
        (λ b.
          Kept view base a c false i
            (if b then record g { speak = false; world = parts.speak_exit g.world } else g))
        (sym k.g_speak_is)
        (record {
          aviutl_is = ap (λ v. v.aviutl) e ∙ k.aviutl_is;
          cache_is = ap (λ v. v.cache) e ∙ k.cache_is;
          speak_is = ap (λ v. v.speak) e;
          ipc_is = ap (λ v. v.ipc) e ∙ k.ipc_is;
          libs_are = λ x. ap (λ v. v.libs x) e ∙ k.libs_are x;
          g_speak_is = refl;
          g_ipc_is = k.g_ipc_is;
        })

  ended_view : (r : Result (Unit {0}) × W) → view (ended lib parts r) ≡ view r.1
  unfolding ended
  ended_view (ok a, w) = refl
  ended_view (err e, w) = laws.ereport_lem e w

  stop_aviutl-Running :
      (g : Globals W)
      → g.bridge ≡ none
      → Kept view base true false false false g
      → Running view base 0 (stop_aviutl lib parts g)
  unfolding stop_aviutl
  stop_aviutl-Running g b k =
      subst
        (λ t. Running view base 0 (record g {
          current_project_path = none;
          world = if t then ended lib parts (parts.aviutl_exit g.world) else g.world;
        }))
        (sym (laws.aviutl_initalized_lem g.world ∙ k.aviutl_is))
        (let e =
            ended_view (parts.aviutl_exit g.world) ∙ laws.aviutl_exit_lem g.world k.aviutl_is in
          record {
            aviutl_is = ap (λ v. v.aviutl) e;
            cache_is = ap (λ v. v.cache) e ∙ k.cache_is;
            speak_is = ap (λ v. v.speak) e ∙ k.speak_is;
            ipc_is = ap (λ v. v.ipc) e ∙ k.ipc_is;
            libs_are = λ x. ap (λ v. v.libs x) e ∙ k.libs_are x;
            g_speak_is = k.g_speak_is;
            g_ipc_is = k.g_ipc_is;
            bridge_is = λ _. b;
            loaded_is = λ t. absurd (cc);
          })

  -- The exit stops what runs, if at least the cache does.
  filter_exit-Running :
      (n : ℕ) (g : Globals W)
      → 2 ≤ n
      → Running view base n g
      → Running view base 0 (filter_exit lib parts g)
  unfolding filter_exit bridge_dll_exit
  filter_exit-Running n g le k =
      let k1 =
        Kept_cast view base g (ground (arith, le)) (ground (arith, le)) refl refl
          (Running-Kept view base n g k) in
      let k2 = stop_speak-Kept _ (stop_ipc-Kept _ (cache_exit-Kept g k1)) in
      let (k3, b) = given_back-Kept lib parts view laws base _ _ refl k2 in
      stop_aviutl-Running _ b k3

  -- If a part is started by a success of its init and by nothing else, and its exit stops it when
  -- it is called while it runs: from a plug-in of which nothing runs, filter_init ends with the
  -- first n of its five parts running (AviUtl's functions, the cache, the sound files, the
  -- renderer, the library of the bridge), the globals saying so and no library loaded beyond the
  -- bridge's; its result is true exactly if n is 5. If n is at least 2, filter_exit stops all of
  -- them and gives the library back.
  pub filter_init-Ended :
      (g : Globals W)
      → Running view base 0 g
      → let r = filter_init lib parts g in
        (n : ℕ) × (n ≤ 5)
        × (r.0 ≡ leb 5 n)
        × Running view base n r.1
        × (2 ≤ n → Running view base 0 (filter_exit lib parts r.1))
  filter_init-Ended g k =
      let (n, le, e, h) = filter_init-Stopped lib parts view laws base g k in
      (n, le, e, h, λ l. filter_exit-Running n _ l h)
