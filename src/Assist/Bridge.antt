-- ===== src/Assist/Bridge.antt =====
-- `bridge_dll_init` of src/c/assist.c, with the library that it loads.
use aviutl_psdtoolkit.Base.{
  ℕ, ◌+◌, true, ltb, [], ◌∷◌, some, own, codes, M, ◌>>=◌, Result, ok, err, finally, Ovstr, Ends,
  From, >>=-From, map_Ends, ◌≡◌, refl, ap, ◌∙◌, arith,
}
use aviutl_psdtoolkit.Assist.Running.{
  Up, PartLaws, Running, Running-same, Kept, Running-Kept, Kept-Running, Kept_cast, given_back-Kept,
}
use aviutl_psdtoolkit.Assist.Starting.{own_directory-Still, beyond-From}
use aviutl_psdtoolkit.Assist.Lifetime.{
  Globals, Parts, beyond, assign_global, own_directory, bridge_failed, loaded, load_bridge,
  bridge_dll_init,
}

module _ {W : Type 0} (lib : Ovstr W) (parts : Parts W) (view : W → Up)
    (laws : PartLaws lib parts view) (base : ℕ → ℕ) where
  loaded_Ends :
      (g : Globals W) (r : Result ℕ × W)
      → Running view base 4 g
      → Ends
          (λ m w'.
            view w' ≡ record (view g.world) { libs = λ x. (view g.world).libs x + own (some m) x })
          (λ _ w'. view w' ≡ view g.world)
          r
      → Ends
          (λ _. Running view base 5)
          (λ _. Kept view base true true true true)
          (loaded lib parts r.0 (record g { world = r.1 }))
  unfolding loaded
  loaded_Ends g (ok m, w) k e = record {
    aviutl_is = ap (λ v. v.aviutl) e ∙ k.aviutl_is;
    cache_is = ap (λ v. v.cache) e ∙ k.cache_is;
    speak_is = ap (λ v. v.speak) e ∙ k.speak_is;
    ipc_is = ap (λ v. v.ipc) e ∙ k.ipc_is;
    libs_are = λ x.
        ap (λ v. v.libs x) e
        ∙ ap (λ n. n + own (some m) x)
            (k.libs_are x ∙ ap (λ o. base x + own o x) (k.bridge_is refl) ∙ omega arith);
    g_speak_is = k.g_speak_is;
    g_ipc_is = k.g_ipc_is;
    bridge_is = λ t. absurd (cc);
    loaded_is = λ _. (m, refl);
  }
  loaded_Ends g (err a, w) k e =
      let k' = Running-same view base 4 g w e k in
      record {
        aviutl_is = k'.aviutl_is;
        cache_is = k'.cache_is;
        speak_is = k'.speak_is;
        ipc_is = k'.ipc_is;
        libs_are = λ x. k'.libs_are x ∙ ap (λ o. base x + own o x) (k.bridge_is refl);
        g_speak_is = k'.g_speak_is;
        g_ipc_is = k'.g_ipc_is;
      }

  -- An error on the way leaves four parts running, and what is loaded in `g_bridge`.
  loose_From :
      {A : Type 0} (n : ℕ) (m : M (Globals W) A) (g : Globals W)
      → ltb 3 n ≡ true
      → ltb 2 n ≡ true
      → ltb 1 n ≡ true
      → ltb 0 n ≡ true
      → From g (λ _. Running view base n) (λ _. Running view base n) m
      → From g (λ _. Running view base n) (λ _. Kept view base true true true true) m
  loose_From n m g a b c d f = record {
    ends =
        map_Ends {Q = λ _. Running view base n} {S = λ _. Kept view base true true true true} (m g)
          (λ _ g' k. k) (λ _ g' k. Kept_cast view base g' d c b a (Running-Kept view base n g' k))
          f.ends;
  }

  bridge_body-From :
      (g : Globals W)
      → Running view base 4 g
      → From g
          (λ _. Running view base 5)
          (λ _. Kept view base true true true true)
          (do
            dir ← beyond (own_directory lib parts)
            tmp ← beyond (lib.scatm dir (codes "script\\PSDToolKit\\PSDToolKitBridge.dll" ∷ []))
            m ← load_bridge lib parts tmp
            fn ← beyond (parts.get_proc_address m)
            assign_global (λ g. record g { world = parts.call_init fn g.world }))
  unfolding load_bridge assign_global
  bridge_body-From g k =
      >>=-From
        (loose_From 4 _ g refl refl refl refl (
          (beyond-From lib parts view laws base) 4 (own_directory lib parts) g
            (own_directory-Still lib parts view laws base) k))
        (λ dir g1 k1.
          >>=-From
            (loose_From 4 _ g1 refl refl refl refl (
              (beyond-From lib parts view laws base) 4 (lib.scatm dir _) g1 (laws.scatm_lem dir _)
                k1))
            (λ tmp g2 k2.
              >>=-From {P = λ _. Running view base 5}
                (record {
                  ends =
                      loaded_Ends g2 (parts.load_library tmp g2.world) k2
                        (laws.load_library_lem tmp g2.world);
                })
                (λ m g3 k3.
                  >>=-From
                    (loose_From 5 _ g3 refl refl refl refl (
                      (beyond-From lib parts view laws base) 5 (parts.get_proc_address m) g3
                        (laws.get_proc_address_lem m) k3))
                    (λ fn g4 k4. record {
                      ends = Running-same view base 5 g4 _ (laws.call_init_lem fn g4.world) k4;
                    }))))

  bridge_failed_Ends :
      (r : Result (Unit {0}) × Globals W)
      → Ends (λ _. Running view base 5) (λ _. Kept view base true true true true) r
      → Ends (λ _. Running view base 5) (λ _. Running view base 4) (bridge_failed lib parts r.0 r.1)
  unfolding bridge_failed
  bridge_failed_Ends (ok a, g) k = k
  bridge_failed_Ends (err e, g) k =
      let (h, b) = given_back-Kept lib parts view laws base g g.bridge refl k in
      Kept-Running view base 4 _ refl b h

  pub bridge-Running :
      (g : Globals W)
      → Running view base 4 g
      → From g (λ _. Running view base 5) (λ _. Running view base 4) (bridge_dll_init lib parts)
  unfolding bridge_dll_init finally
  bridge-Running g k = record { ends = bridge_failed_Ends _ (bridge_body-From g k).ends }
