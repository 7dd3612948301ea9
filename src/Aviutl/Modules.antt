-- ===== src/Aviutl/Modules.antt =====
-- What `aviutl_init` and `aviutl_exit` of src/c/aviutl.c leave in the globals and loaded.
use aviutl_psdtoolkit.Base.{
  ℕ, ◌+◌, ◌-◌, Bool, true, false, ltb, ◌==◌, if◌then◌else◌, List, [], ◌∷◌, Option, none, some, own,
  take, drop, length, Chars, codes, M, ◌>>=◌, pure, raise, or_raise, Error, Result, ok, err, Ovstr,
  Ends, From, pure-From, raise-From, >>=-From, map_Ends, weaken-From, ptk, fail, overrun, subst,
  unexpected, ◌&&◌, ◌≡◌, refl, sym, ap, ◌∙◌, arith,
}
use aviutl_psdtoolkit.Aviutl.State.{
  Filter, Plugin, Exfunc, System, outside, answer, not_null, globals, present,
}
use aviutl_psdtoolkit.Aviutl.Calls.{aviutl_get_sys_info}
use aviutl_psdtoolkit.Aviutl.Version.{
  verify_exedit_version, check_version, check_major, check_minor, behind_token, version_token,
  atou32,
}
use aviutl_psdtoolkit.Aviutl.Init.{
  has_bit, find_filter, find_exedit_filter, verify_aviutl_version, beside, verify_installation,
  load_lua51, not_searched, when, preload, find_exedit, set_globals, aviutl_init, free_module,
  aviutl_exit,
}
use aviutl_psdtoolkit.Aviutl.Filters.{find_filter-first}

-- The documented effect of the calls on the modules that are loaded.
pub record ModuleLaws {W : Type 0} (lib : Ovstr W) (app : Exfunc W) (sys : System W)
    (loaded : W → ℕ → ℕ) : Type 0 where
  pub get_module_file_name_lem :
      (w : W) (h : ℕ) → loaded (sys.get_module_file_name w).1 h ≡ loaded w h
  pub extract_file_name_lem :
      (s : Chars) (w : W) (h : ℕ) → loaded (sys.extract_file_name s w).1 h ≡ loaded w h
  pub file_exists_lem : (s : Chars) (w : W) (h : ℕ) → loaded (sys.file_exists s w).1 h ≡ loaded w h
  pub scatm_lem :
      (s : Chars) (ss : List Chars) (w : W) (h : ℕ) → loaded (lib.scatm s ss w).1 h ≡ loaded w h
  pub get_sys_info_lem :
      (e : Option ℕ) (w : W) (h : ℕ) → loaded (app.get_sys_info e w).1 h ≡ loaded w h
  pub load_library_lem :
      (s : Chars) (w : W) (h : ℕ)
      → loaded (sys.load_library s w).1 h ≡ loaded w h + own (sys.load_library s w).0 h
  pub free_library_lem :
      (m : ℕ) (w : W) (h : ℕ) → loaded (sys.free_library m w) h ≡ loaded w h - own (some m) h

module _ {W : Type 0} (lib : Ovstr W) (app : Exfunc W) (sys : System W) (loaded : W → ℕ → ℕ)
    (laws : ModuleLaws lib app sys loaded) (t0 : Plugin W) where
  -- The globals are those of `t0`, and `extra` is loaded beyond the modules of then.
  abbrev With : Option ℕ → Plugin W → Type 0
  With extra t =
      (t ≡ record t0 { world = t.world })
      × ((h : ℕ) → loaded t.world h ≡ loaded t0.world h + own extra h)

  -- A call that leaves both alone, on every outcome.
  record Quiet {A : Type 0} (m : M (Plugin W) A) : Type 0 where
    from : (t : Plugin W) → With none t → From t (λ _. With none) (λ _. With none) m

  pure-Quiet : {A : Type 0} (a : A) → Quiet (pure a)
  pure-Quiet a = record { from = λ t k. pure-From a k }

  raise-Quiet : {A : Type 0} (e : Error) → Quiet {A = A} (raise e)
  raise-Quiet e = record { from = λ t k. raise-From e k }

  or_raise-Quiet : {A : Type 0} (o : Option A) (e : Error) → Quiet (or_raise o e)
  or_raise-Quiet none e = raise-Quiet e
  or_raise-Quiet (some a) e = pure-Quiet a

  >>=-Quiet :
      {A B : Type 0} {m : M (Plugin W) A} {f : A → M (Plugin W) B}
      → Quiet m
      → ((a : A) → Quiet (f a))
      → Quiet (m >>= f)
  >>=-Quiet q k = record { from = λ t h. >>=-From (q.from t h) λ a t' h'. (k a).from t' h' }

  if-Quiet :
      {A : Type 0} (b : Bool) {x y : M (Plugin W) A}
      → Quiet x
      → Quiet y
      → Quiet (if b then x else y)
  if-Quiet true q k = q
  if-Quiet false q k = k

  moved :
      (t : Plugin W) (w : W)
      → With none t
      → ((h : ℕ) → loaded w h ≡ loaded t.world h)
      → With none (record t { world = w })
  moved t w (e, k) s = (ap (λ (p : Plugin W). record p { world = w }) e, λ h. s h ∙ k h)

  both :
      {A : Type 0} (r : Result A) (t : Plugin W)
      → With none t
      → Ends (λ _. With none) (λ _. With none) (r, t)
  both (ok a) t k = k
  both (err e) t k = k

  outside-Quiet :
      {A : Type 0} (m : M W A)
      → ((w : W) (h : ℕ) → loaded (m w).1 h ≡ loaded w h)
      → Quiet (outside m)
  unfolding outside
  outside-Quiet m s = record {
    from = λ t k. record {
      ends =
          both (m t.world).0 (record t { world = (m t.world).1 })
            (moved t (m t.world).1 k (s t.world));
    };
  }

  answer-Quiet :
      {A : Type 0} (f : W → A × W)
      → ((w : W) (h : ℕ) → loaded (f w).1 h ≡ loaded w h)
      → Quiet (answer f)
  unfolding answer
  answer-Quiet f s = record { from = λ t k. record { ends = moved t (f t.world).1 k (s t.world) } }

  globals-Quiet : Quiet globals
  unfolding globals
  globals-Quiet = record { from = λ t k. record { ends = k } }

  present-Quiet : {A : Type 0} (o : Option A) → Quiet (present o)
  unfolding present
  present-Quiet none = raise-Quiet unexpected
  present-Quiet (some a) = pure-Quiet a

  sys_info-Quiet : Quiet (aviutl_get_sys_info app sys true)
  unfolding aviutl_get_sys_info not_null
  sys_info-Quiet = >>=-Quiet (pure-Quiet tt) λ _. >>=-Quiet globals-Quiet λ g.
      >>=-Quiet (present-Quiet g.fp) λ _.
        >>=-Quiet (answer-Quiet (app.get_sys_info g.editp) (laws.get_sys_info_lem g.editp))
          λ info. or_raise-Quiet info fail

  find_filter-Quiet : (n : ℕ) → Quiet (find_filter lib app sys n 0)
  find_filter-Quiet n = record {
    from = λ t k. record {
      ends =
          map_Ends (find_filter lib app sys n 0 t) (λ a w s. subst (With none) (sym s.0) k)
            (λ e w s. subst (With none) (sym s.0) k) (find_filter-first lib app sys t n);
    };
  }

  check_minor-Quiet : (major : ℕ) (o : Option (ℕ × ℕ)) → Quiet (check_minor major o)
  unfolding check_minor
  check_minor-Quiet major none = raise-Quiet (ptk 106)
  check_minor-Quiet major (some (minor, len)) =
      if-Quiet (major == 0 && ltb minor 92) (raise-Quiet (ptk 106)) (pure-Quiet tt)

  check_major-Quiet : (verstr : Chars) (o : Option (ℕ × ℕ)) → Quiet (check_major verstr o)
  unfolding check_major
  check_major-Quiet verstr none = raise-Quiet (ptk 106)
  check_major-Quiet verstr (some (major, len)) =
      if-Quiet (ltb len (length verstr)) (check_minor-Quiet major (atou32 (drop (len + 1) verstr)))
        (raise-Quiet overrun)

  check_version-Quiet : (o : Option Chars) → Quiet (check_version o)
  unfolding check_version
  check_version-Quiet none = raise-Quiet (ptk 106)
  check_version-Quiet (some verstr) = check_major-Quiet verstr (atou32 verstr)

  version-Quiet : (information : Chars) → Quiet (verify_exedit_version information)
  unfolding verify_exedit_version
  version-Quiet information = check_version-Quiet (behind_token version_token information)

  beside-Quiet : (file : Chars) → Quiet (beside lib app sys file)
  unfolding beside
  beside-Quiet file =
      >>=-Quiet (outside-Quiet sys.get_module_file_name laws.get_module_file_name_lem) λ path.
        >>=-Quiet (outside-Quiet (sys.extract_file_name path) (laws.extract_file_name_lem path))
          λ fnpos.
            outside-Quiet (lib.scatm (take fnpos path) (file ∷ []))
              (laws.scatm_lem (take fnpos path) (file ∷ []))

  verify_installation-Quiet : Quiet (verify_installation lib app sys)
  unfolding verify_installation
  verify_installation-Quiet = >>=-Quiet (beside-Quiet (codes "exedit.auf")) λ path.
      >>=-Quiet (outside-Quiet (sys.file_exists path) (laws.file_exists_lem path))
        λ found. if-Quiet found (pure-Quiet tt) (raise-Quiet (ptk 103))

  when-Quiet : (b : Bool) (m : M (Plugin W) (Unit {0})) → Quiet m → Quiet (when lib app sys b m)
  unfolding when
  when-Quiet b m q = if-Quiet b q (pure-Quiet tt)

  loaded_or_raise :
      (o : Option ℕ) (t : Plugin W)
      → With o t
      → From t (λ m. With (some m)) (λ _. With none) (or_raise o (ptk 104))
  loaded_or_raise none t k = raise-From (ptk 104) k
  loaded_or_raise (some m) t k = pure-From m k

  load_lua51-With :
      (t : Plugin W)
      → With none t
      → From t (λ m. With (some m)) (λ _. With none) (load_lua51 lib app sys)
  unfolding load_lua51 answer
  load_lua51-With t k = >>=-From ((beside-Quiet (codes "lua51.dll")).from t k) λ path t1 k1.
      >>=-From {P = With}
        (record {
          ends = (
            ap (λ (p : Plugin W). record p { world = (sys.load_library path t1.world).1 }) k1.0,
            λ h. omega (arith, laws.load_library_lem path t1.world h, k1.1 h),
          );
        })
        λ o t2 k2. loaded_or_raise o t2 k2

  preload-With :
      (b : Bool) (t : Plugin W) → With none t → From t With (λ _. With none) (preload lib app sys b)
  unfolding preload
  preload-With true t k = >>=-From (load_lua51-With t k) λ m t1 k1. pure-From (some m) k1
  preload-With false t k = pure-From none k

  find_exedit-With :
      (beside_exedit lua : Bool) (t : Plugin W)
      → With none t
      → From t
          (λ f t'. With f.lua51 t' × ((p : Filter) × (f.exedit_fp ≡ some p)))
          (λ _. With none)
          (find_exedit lib app sys beside_exedit lua)
  unfolding find_exedit find_exedit_filter
  find_exedit-With beside_exedit lua t k =
      >>=-From ((>>=-Quiet sys_info-Quiet λ si. find_filter-Quiet si.filter_n).from t k)
        λ found t1 k1. >>=-From ((version-Quiet found.0.information).from t1 k1) λ _ t2 k2.
          >>=-From
            ((when-Quiet beside_exedit (verify_installation lib app sys)
                verify_installation-Quiet).from
              t2 k2)
            λ _ t3 k3. >>=-From (preload-With lua t3 k3) λ m t4 k4.
              pure-From (record { exedit_fp = some found.0; patched = found.1; lua51 = m })
                (k4, (found.0, refl))

  chosen-With :
      (b beside_exedit lua : Bool) (t : Plugin W)
      → With none t
      → From t
          (λ f t'. With f.lua51 t' × (b ≡ true → (p : Filter) × (f.exedit_fp ≡ some p)))
          (λ _. With none)
          (if b then find_exedit lib app sys beside_exedit lua else pure (not_searched lib app sys))
  chosen-With true beside_exedit lua t k =
      weaken-From (find_exedit-With beside_exedit lua t k) λ f t' q. (q.0, λ _. q.1)
  chosen-With false beside_exedit lua t k = pure-From (not_searched lib app sys) (k, λ e. cc)

  verify_aviutl_version-Quiet : Quiet (verify_aviutl_version lib app sys)
  unfolding verify_aviutl_version
  verify_aviutl_version-Quiet =
      >>=-Quiet sys_info-Quiet
        λ si. if-Quiet (ltb si.build 10000) (raise-Quiet (ptk 101)) (pure-Quiet tt)

  -- After a success.
  abbrev pub Started : ℕ → Plugin W → Type 0
  Started options t =
      (t.initialized ≡ true)
      × ((h : ℕ) → loaded t.world h ≡ loaded t0.world h + own t.lua51 h)
      × (has_bit options 1 ≡ true → (p : Filter) × (t.exedit_fp ≡ some p))

  -- After an error.
  abbrev pub Untouched : Plugin W → Type 0
  Untouched t =
      (t ≡ record t0 { world = t.world }) × ((h : ℕ) → loaded t.world h ≡ loaded t0.world h)

  -- With the documented effect of the calls on the loaded modules: if aviutl_init succeeds, the
  -- plug-in is initialized, the module in g_lua51, if any, is loaded once more and no other, and
  -- with the option to find it a filter is in g_exedit_fp; if it fails at any call, no global has
  -- changed and no module is left loaded.
  pub aviutl_init-modules :
      (options : ℕ)
      → Ends (λ _. Started options) (λ _. Untouched) (aviutl_init lib app sys options t0)
  unfolding aviutl_init set_globals
  aviutl_init-modules options =
      map_Ends (aviutl_init lib app sys options t0) (λ _ t k. k)
        (λ e t k. (k.0, λ h. omega (arith, k.1 h)))
        (>>=-From {R = λ _. With none}
          (verify_aviutl_version-Quiet.from t0 (refl, λ h. omega arith))
          λ _ t1 k1.
            >>=-From (chosen-With (has_bit options 1) (has_bit options 2) (has_bit options 4) t1 k1)
              λ f t2 k2. record { ends = (refl, k2.0.1, k2.1) }).ends

  free_module-own :
      (o : Option ℕ) (w : W) (h : ℕ) → loaded (free_module lib app sys o w) h ≡ loaded w h - own o h
  unfolding free_module
  free_module-own none w h = omega arith
  free_module-own (some m) w h = laws.free_library_lem m w h

  after_exit :
      (options : ℕ) (r : Result (Unit {0}) × Plugin W)
      → Ends (λ _. Started options) (λ _. Untouched) r
      → t0.lua51 ≡ none
      → (h : ℕ) → loaded (aviutl_exit lib app sys r.1).1.world h ≡ loaded t0.world h
  unfolding aviutl_exit
  after_exit options (ok _, t) k is_none h = omega (arith, free_module-own t.lua51 t.world h, k.1 h)
  after_exit options (err e, t) k is_none h =
      let empty : t.lua51 ≡ none = ap (λ (p : Plugin W). p.lua51) k.0 ∙ is_none in
      omega (arith, free_module-own t.lua51 t.world h, k.1 h, ap (λ o. own o h) empty)

  -- When g_lua51 is null, aviutl_exit after aviutl_init leaves the loaded modules as they were,
  -- whether aviutl_init succeeds or fails.
  aviutl_exit-init :
      (options : ℕ)
      → t0.lua51 ≡ none
      → (h : ℕ)
      → loaded (aviutl_exit lib app sys (aviutl_init lib app sys options t0).1).1.world h
        ≡ loaded t0.world h
  aviutl_exit-init options is_none h =
      after_exit options (aviutl_init lib app sys options t0) (aviutl_init-modules options) is_none
        h
