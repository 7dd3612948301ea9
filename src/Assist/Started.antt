-- ===== src/Assist/Started.antt =====
-- The parts that `filter_init` of src/c/assist.c starts.
use aviutl_psdtoolkit.Base.{
  ℕ, ◌+◌, ◌≤◌, Bool, true, false, leb, if◌then◌else◌, Chars, codes, Error, fail, Result, ok, err,
  Ovstr, Ends, From, >>=-From, ◌≡◌, refl, ap, ◌∙◌, arith,
}
use aviutl_psdtoolkit.Assist.Running.{Up, PartLaws, Running, Running-same}
use aviutl_psdtoolkit.Assist.Starting.{
  error_message_box-view, own_directory-Still, beyond_Ends, beyond-From,
}
use aviutl_psdtoolkit.Assist.Bridge.{bridge-Running}
use aviutl_psdtoolkit.Assist.Lifetime.{
  Globals, Parts, Report, beyond, assign_global, error_message_box, own_directory, setup_ipc,
  start_speak, or_box, menu_item, menu_items, init_parts, filter_init, aviutl_message,
  bridge_message, plain_message, explained,
}

module _ {W : Type 0} (lib : Ovstr W) (parts : Parts W) (view : W → Up)
    (laws : PartLaws lib parts view) (base : ℕ → ℕ) where
  -- `filter_init` has stopped after some parts, and is true only with all five.
  abbrev pub Stopped : Bool × Globals W → Type 0
  Stopped r = (n : ℕ) × (n ≤ 5) × (r.0 ≡ leb 5 n) × Running view base n r.1

  or_box-Stopped :
      (n : ℕ) (msg : Error → Report) (next : Globals W → Bool × Globals W)
      (r : Result (Unit {0}) × Globals W)
      → n ≤ 4
      → Ends (λ _. Running view base (n + 1)) (λ _. Running view base n) r
      → ((g : Globals W) → Running view base (n + 1) g → Stopped (next g))
      → Stopped (or_box lib parts msg r next)
  unfolding or_box
  or_box-Stopped n msg next (ok a, g) le h k = k g h
  or_box-Stopped n msg next (err e, g) le h k = (
    n,
    omega (arith, le),
    ground (arith, le),
    Running-same view base n g _ ((error_message_box-view lib parts view laws base) (msg e) g.world)
        h,
  )

  aviutl-Running :
      (g : Globals W)
      → Running view base 0 g
      → Ends (λ _. Running view base 1) (λ _. Running view base 0) (beyond parts.aviutl_init g)
  unfolding beyond
  aviutl-Running g k =
      (beyond_Ends lib parts view laws base) (λ _. Running view base 1) (λ _. Running view base 0) g
        (parts.aviutl_init g.world) (laws.aviutl_init_lem g.world)
        (λ _ w e. record {
          aviutl_is = ap (λ v. v.aviutl) e;
          cache_is = ap (λ v. v.cache) e ∙ k.cache_is;
          speak_is = ap (λ v. v.speak) e ∙ k.speak_is;
          ipc_is = ap (λ v. v.ipc) e ∙ k.ipc_is;
          libs_are = λ x. ap (λ v. v.libs x) e ∙ k.libs_are x;
          g_speak_is = k.g_speak_is;
          g_ipc_is = k.g_ipc_is;
          bridge_is = λ _. k.bridge_is refl;
          loaded_is = λ t. absurd (cc);
        })
        (λ _ w e. Running-same view base 0 g w e k)

  cache-Running :
      (g : Globals W)
      → Running view base 1 g
      → Ends (λ _. Running view base 2) (λ _. Running view base 1) (beyond parts.cache_init g)
  unfolding beyond
  cache-Running g k =
      (beyond_Ends lib parts view laws base) (λ _. Running view base 2) (λ _. Running view base 1) g
        (parts.cache_init g.world) (laws.cache_init_lem g.world)
        (λ _ w e. record {
          aviutl_is = ap (λ v. v.aviutl) e ∙ k.aviutl_is;
          cache_is = ap (λ v. v.cache) e;
          speak_is = ap (λ v. v.speak) e ∙ k.speak_is;
          ipc_is = ap (λ v. v.ipc) e ∙ k.ipc_is;
          libs_are = λ x. ap (λ v. v.libs x) e ∙ k.libs_are x;
          g_speak_is = k.g_speak_is;
          g_ipc_is = k.g_ipc_is;
          bridge_is = λ _. k.bridge_is refl;
          loaded_is = λ t. absurd (cc);
        })
        (λ _ w e. Running-same view base 1 g w e k)

  speak-Running :
      (g : Globals W)
      → Running view base 2 g
      → From g (λ _. Running view base 3) (λ _. Running view base 2) (start_speak lib parts)
  unfolding start_speak beyond assign_global
  speak-Running g k =
      >>=-From {P = λ _ g'. Running view base 3 (record g' { speak = true })}
        (record {
          ends =
              (beyond_Ends lib parts view laws base)
                (λ _ g'. Running view base 3 (record g' { speak = true }))
                (λ _. Running view base 2) g (parts.speak_init g.world)
                (laws.speak_init_lem g.world)
                (λ _ w e. record {
                  aviutl_is = ap (λ v. v.aviutl) e ∙ k.aviutl_is;
                  cache_is = ap (λ v. v.cache) e ∙ k.cache_is;
                  speak_is = ap (λ v. v.speak) e;
                  ipc_is = ap (λ v. v.ipc) e ∙ k.ipc_is;
                  libs_are = λ x. ap (λ v. v.libs x) e ∙ k.libs_are x;
                  g_speak_is = refl;
                  g_ipc_is = k.g_ipc_is;
                  bridge_is = λ _. k.bridge_is refl;
                  loaded_is = λ t. absurd (cc);
                })
                (λ _ w e. Running-same view base 2 g w e k);
        })
        (λ _ g' k'. record { ends = k' })

  ipc_init-From :
      (tmp : Chars) (g : Globals W)
      → Running view base 3 g
      → From g
          (λ _ g'. Running view base 4 (record g' { ipc = true }))
          (λ _. Running view base 3)
          (beyond (parts.ipc_init tmp))
  unfolding beyond
  ipc_init-From tmp g k = record {
    ends =
        (beyond_Ends lib parts view laws base)
          (λ _ g'. Running view base 4 (record g' { ipc = true })) (λ _. Running view base 3) g
          (parts.ipc_init tmp g.world) (laws.ipc_init_lem tmp g.world)
          (λ _ w e. record {
            aviutl_is = ap (λ v. v.aviutl) e ∙ k.aviutl_is;
            cache_is = ap (λ v. v.cache) e ∙ k.cache_is;
            speak_is = ap (λ v. v.speak) e ∙ k.speak_is;
            ipc_is = ap (λ v. v.ipc) e;
            libs_are = λ x. ap (λ v. v.libs x) e ∙ k.libs_are x;
            g_speak_is = k.g_speak_is;
            g_ipc_is = refl;
            bridge_is = λ _. k.bridge_is refl;
            loaded_is = λ t. absurd (cc);
          })
          (λ _ w e. Running-same view base 3 g w e k);
  }

  ipc-Running :
      (g : Globals W)
      → Running view base 3 g
      → From g (λ _. Running view base 4) (λ _. Running view base 3) (setup_ipc lib parts)
  unfolding setup_ipc assign_global
  ipc-Running g k =
      >>=-From
        ((beyond-From lib parts view laws base) 3 (own_directory lib parts) g
          (own_directory-Still lib parts view laws base) k)
        (λ dir g1 k1.
          >>=-From ((beyond-From lib parts view laws base) 3 (lib.scpym _) g1 (laws.scpym_lem _) k1)
            (λ tmp g2 k2.
              >>=-From {P = λ _ g'. Running view base 4 (record g' { ipc = true })}
                (ipc_init-From tmp g2 k2) (λ _ g' k'. record { ends = k' })))

  reported_view :
      (r : Result (Unit {0}) × W)
      → view (elim r.0 [ ok _ ↦ r.1 | err e ↦ parts.ereport fail r.1 ]) ≡ view r.1
  reported_view (ok a, w) = refl
  reported_view (err e, w) = laws.ereport_lem _ w

  menu_item-Running :
      (s : Chars) (i k f : ℕ) (g : Globals W)
      → Running view base 5 g
      → Running view base 5 (menu_item lib parts s i k f g)
  unfolding menu_item
  menu_item-Running s i k f g h =
      Running-same view base 5 g _
        (reported_view (parts.aviutl_add_menu_item s i k f g.world)
          ∙ (laws.aviutl_add_menu_item_lem s i k f).still g.world)
        h

  init_parts-Stopped : (g : Globals W) → Running view base 0 g → Stopped (init_parts lib parts g)
  unfolding init_parts menu_items
  init_parts-Stopped g k =
      or_box-Stopped 0 aviutl_message _ _ (omega arith) (aviutl-Running g k) (λ g1 k1.
        or_box-Stopped 1 plain_message _ _ (omega arith) (cache-Running g1 k1) (λ g2 k2.
          or_box-Stopped 2 plain_message _ _ (omega arith) (speak-Running g2 k2).ends (λ g3 k3.
            or_box-Stopped 3 plain_message _ _ (omega arith) (ipc-Running g3 k3).ends (λ g4 k4.
              or_box-Stopped 4 bridge_message _ _ (omega arith)
                (bridge-Running lib parts view laws base g4 k4).ends
                (λ g5 k5. (
                  5,
                  omega arith,
                  refl,
                  menu_item-Running _ 2 0 0 _ (menu_item-Running _ 1 b'W' 2 g5 k5),
                ))))))

  pub filter_init-Stopped :
      (g : Globals W) → Running view base 0 g → Stopped (filter_init lib parts g)
  unfolding filter_init
  filter_init-Stopped g k = architecture (parts.is_amd64 g.world) (laws.is_amd64_lem g.world)
    where
      architecture :
          (r : Bool × W)
          → view r.1 ≡ view g.world
          → Stopped (
              if r.0
              then init_parts lib parts (record g { world = parts.aviutl_set_pointers r.1 })
              else (
                false,
                record g {
                  world =
                      error_message_box lib parts
                        (explained (codes "PSDToolKit を使うには 64bit 版の Windows が必要です。"))
                        r.1;
                },
              ))
      architecture (true, w) e =
          init_parts-Stopped _ (Running-same view base 0 g _ (laws.aviutl_set_pointers_lem w ∙ e) k)
      architecture (false, w) e = (
        0,
        omega arith,
        refl,
        Running-same view base 0 g _ ((error_message_box-view lib parts view laws base) _ w ∙ e) k,
      )
