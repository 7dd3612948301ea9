-- ===== src/Popupmenu/Shown.antt =====
-- What `popup_menu_show` of src/c/popupmenu.c shows, and what it leaves behind.
use aviutl_psdtoolkit.Base.{
  ℕ, ◌+◌, ◌-◌, List, [], ◌∷◌, ◌++◌, map, append_assoc, append-nil, Option, none, some, own, ◌==◌,
  if◌then◌else◌, Bool-cases, Wstr, ◌>>=◌, finally, Ends, From, pure-From, >>=-From, map_Ends,
  finally-From, ◌≡◌, ◌⊎◌, inl, inr, refl, sym, ap, ◌∙◌, subst, arith,
}
use aviutl_psdtoolkit.Popupmenu.Show.{
  PopupMenuItem, Menus, append_menu, append_all, track, with_menu, with_window, popup_menu_show,
}

pub data Entry : Type 0 where
  separator : Entry
  item : ℕ → Wstr → Entry

-- What the user is to see of an item.
abbrev pub entry_of : PopupMenuItem → Entry
entry_of pmi = if pmi.id == 0 then separator else item pmi.id pmi.caption

-- The entry that the user chose is among these.
abbrev pub Offers : ℕ → List Entry → Type 0
Offers n [] = ⊥
Offers n (separator ∷ l) = Offers n l
Offers n (item id c ∷ l) = (id ≡ n) ⊎ Offers n l

-- The classes, windows and menus that have to be given back, what stands in the menus, and the menu
-- that was shown last.
pub record Shell : Type 0 where
  pub classes : ℕ
  pub windows : ℕ → ℕ
  pub menus : ℕ → ℕ
  pub entries : ℕ → List Entry
  pub shown : List Entry

abbrev pub appended : ℕ → Entry → Shell → Shell
appended menu e v = record v {
  entries = λ x. if x == menu then v.entries x ++ e ∷ [] else v.entries x;
}

abbrev pub created : ℕ → Shell → Shell
created menu v = record v {
  menus = λ x. v.menus x + own (some menu) x;
  entries = λ x. if x == menu then [] else v.entries x;
}

-- The documented effect of the calls.
pub record MenuLaws {W : Type 0} (win : Menus W) (view : W → Shell) : Type 0 where
  pub register_class_lem :
      (w : W)
      → Ends
          (λ _ w'. view w' ≡ record (view w) { classes = (view w).classes + 1 })
          (λ _ w'. view w' ≡ view w)
          (win.register_class w)
  pub create_window_lem :
      (w : W)
      → Ends
          (λ d w'. view w' ≡ record (view w) { windows = λ x. (view w).windows x + own (some d) x })
          (λ _ w'. view w' ≡ view w)
          (win.create_window w)
  pub create_popup_menu_lem :
      (w : W)
      → Ends
          (λ m w'. view w' ≡ created m (view w))
          (λ _ w'. view w' ≡ view w)
          (win.create_popup_menu w)
  pub append_item_lem :
      (menu id : ℕ) (c : Wstr) (w : W)
      → Ends
          (λ _ w'. view w' ≡ appended menu (item id c) (view w))
          (λ _ w'. view w' ≡ view w)
          (win.append_item menu id c w)
  pub append_separator_lem :
      (menu : ℕ) (w : W)
      → Ends
          (λ _ w'. view w' ≡ appended menu separator (view w))
          (λ _ w'. view w' ≡ view w)
          (win.append_separator menu w)
  pub activate_lem : (p d : ℕ) (w : W) → view (win.activate p d w) ≡ view w
  pub track_popup_menu_lem :
      (menu d : ℕ) (w : W)
      → (view (win.track_popup_menu menu d w).1 ≡ record (view w) { shown = (view w).entries menu })
        × (((win.track_popup_menu menu d w).0 ≡ 0)
            ⊎ Offers (win.track_popup_menu menu d w).0 ((view w).entries menu))
  pub destroy_menu_lem :
      (m : ℕ) (w : W)
      → view (win.destroy_menu m w)
        ≡ record (view w) { menus = λ x. (view w).menus x - own (some m) x }
  pub destroy_window_lem :
      (d : ℕ) (w : W)
      → view (win.destroy_window d w)
        ≡ record (view w) { windows = λ x. (view w).windows x - own (some d) x }
  pub unregister_class_lem :
      (w : W) → view (win.unregister_class w) ≡ record (view w) { classes = (view w).classes - 1 }

-- What is open beyond `v0`, and the menu shown last.
record Opened (v0 : Shell) (c : ℕ) (d m : Option ℕ) (s : List Entry) (v : Shell) : Type 0 where
  classes_are : v.classes ≡ v0.classes + c
  windows_are : (x : ℕ) → v.windows x ≡ v0.windows x + own d x
  menus_are : (x : ℕ) → v.menus x ≡ v0.menus x + own m x
  shown_is : v.shown ≡ s

nothing : (n : ℕ) → n ≡ n + 0
nothing n = omega arith

back : (n k : ℕ) {a b : ℕ} → a ≡ n + k → b ≡ a - k → b ≡ n + 0
back n k e f = omega (arith, e, f)

forth : (n k : ℕ) {a b : ℕ} → a ≡ n + 0 → b ≡ a + k → b ≡ n + k
forth n k e f = omega (arith, e, f)

module _ {W : Type 0} (win : Menus W) (view : W → Shell) (laws : MenuLaws win view)
    (v0 : Shell) where
  abbrev At : ℕ → Option ℕ → Option ℕ → List Entry → W → Type 0
  At c d m s w = Opened v0 c d m s (view w)

  -- The menu holds these entries.
  abbrev Filled : ℕ → ℕ → List Entry → W → Type 0
  Filled d m l w = At 1 (some d) (some m) v0.shown w × ((view w).entries m ≡ l)

  appended-Filled :
      (d m : ℕ) (e : Entry) (l : List Entry) (w w' : W)
      → Filled d m l w
      → view w' ≡ appended m e (view w)
      → Filled d m (l ++ (e ∷ [])) w'
  appended-Filled d m e l w w' (k, f) s = (
    subst (Opened v0 1 (some d) (some m) v0.shown) (sym s) (record {
      classes_are = k.classes_are;
      windows_are = k.windows_are;
      menus_are = k.menus_are;
      shown_is = k.shown_is;
    }),
    ap (λ v. v.entries m) s ∙ ground (arith, f),
  )

  same-At :
      (c : ℕ) (d m : Option ℕ) (s : List Entry) (w w' : W)
      → At c d m s w
      → view w' ≡ view w
      → At c d m s w'
  same-At c d m s w w' k e = subst (Opened v0 c d m s) (sym e) k

  append_menu-From :
      (d m : ℕ) (pmi : PopupMenuItem) (l : List Entry) (w : W)
      → Filled d m l w
      → From w
          (λ _. Filled d m (l ++ (entry_of pmi ∷ [])))
          (λ _. At 1 (some d) (some m) v0.shown)
          (append_menu win m pmi)
  unfolding append_menu
  append_menu-From d m pmi l w k = elim (Bool-cases (pmi.id == 0)) [
    | inl e ↦ rw e (record {
      ends =
          map_Ends {Q = λ _. Filled d m (l ++ (separator ∷ []))}
            {S = λ _. At 1 (some d) (some m) v0.shown} (win.append_separator m w)
            (λ _ w' f. appended-Filled d m separator l w w' k f)
            (λ _ w' f. same-At 1 (some d) (some m) v0.shown w w' k.0 f)
            (laws.append_separator_lem m w);
    })
    | inr e ↦ rw e (record {
      ends =
          map_Ends {Q = λ _. Filled d m (l ++ (item pmi.id pmi.caption ∷ []))}
            {S = λ _. At 1 (some d) (some m) v0.shown} (win.append_item m pmi.id pmi.caption w)
            (λ _ w' f. appended-Filled d m (item pmi.id pmi.caption) l w w' k f)
            (λ _ w' f. same-At 1 (some d) (some m) v0.shown w w' k.0 f)
            (laws.append_item_lem m pmi.id pmi.caption w);
    })
  ]

  append_all-From :
      (d m : ℕ) (pm : List PopupMenuItem) (l : List Entry) (w : W)
      → Filled d m l w
      → From w
          (λ _. Filled d m (l ++ map entry_of pm))
          (λ _. At 1 (some d) (some m) v0.shown)
          (append_all win m pm)
  unfolding append_all
  append_all-From d m [] l w k = pure-From tt (rw (append-nil l) k)
  append_all-From d m (pmi ∷ pm) l w k = >>=-From (append_menu-From d m pmi l w k) (λ _ w' k'.
      subst
        (λ t.
          From w' (λ _. Filled d m t) (λ _. At 1 (some d) (some m) v0.shown) (append_all win m pm))
        (append_assoc l (entry_of pmi ∷ []) (map entry_of pm))
        (append_all-From d m pm (l ++ (entry_of pmi ∷ [])) w' k'))

  -- What is chosen of the menu that is shown.
  abbrev Chosen : List Entry → ℕ → Type 0
  Chosen l n = (n ≡ 0) ⊎ Offers n l

  track-From :
      (parent d m : ℕ) (l : List Entry) (w : W)
      → Filled d m l w
      → From w
          (λ n w'. At 1 (some d) (some m) l w' × Chosen l n)
          (λ _. At 1 (some d) (some m) v0.shown)
          (track win parent m d)
  unfolding track
  track-From parent d m l w (k, e) =
      let w1 = win.activate parent d w in
      let k1 = same-At 1 (some d) (some m) v0.shown w w1 k (laws.activate_lem parent d w) in
      let e1 : (view w1).entries m ≡ l = ap (λ v. v.entries m) (laws.activate_lem parent d w) ∙ e in
      let t = laws.track_popup_menu_lem m d w1 in
      record {
        ends = (
          subst (Opened v0 1 (some d) (some m) l) (sym t.0) (record {
            classes_are = k1.classes_are;
            windows_are = k1.windows_are;
            menus_are = k1.menus_are;
            shown_is = e1;
          }),
          subst (λ l. Chosen l (win.track_popup_menu m d w1).0) e1 t.1,
        );
      }

  destroyed_menu :
      (d m : ℕ) (s : List Entry) (w : W)
      → At 1 (some d) (some m) s w
      → At 1 (some d) none s (win.destroy_menu m w)
  destroyed_menu d m s w k =
      subst (Opened v0 1 (some d) none s) (sym (laws.destroy_menu_lem m w)) (record {
        classes_are = k.classes_are;
        windows_are = k.windows_are;
        menus_are = λ x. back (v0.menus x) (own (some m) x) (k.menus_are x) refl;
        shown_is = k.shown_is;
      })

  destroyed_window :
      (d : ℕ) (s : List Entry) (w : W)
      → At 1 (some d) none s w
      → At 1 none none s (win.destroy_window d w)
  destroyed_window d s w k =
      subst (Opened v0 1 none none s) (sym (laws.destroy_window_lem d w)) (record {
        classes_are = k.classes_are;
        windows_are = λ x. back (v0.windows x) (own (some d) x) (k.windows_are x) refl;
        menus_are = k.menus_are;
        shown_is = k.shown_is;
      })

  unregistered :
      (s : List Entry) (w : W) → At 1 none none s w → At 0 none none s (win.unregister_class w)
  unregistered s w k = subst (Opened v0 0 none none s) (sym (laws.unregister_class_lem w)) (record {
    classes_are = back v0.classes 1 k.classes_are refl;
    windows_are = k.windows_are;
    menus_are = k.menus_are;
    shown_is = k.shown_is;
  })

  module _ (parent : ℕ) (pm : List PopupMenuItem) where
    abbrev asked : List Entry
    asked = map entry_of pm

    with_menu-From :
        (d m : ℕ) (w : W)
        → Filled d m [] w
        → From w
            (λ n w'. At 1 (some d) none asked w' × Chosen asked n)
            (λ _. At 1 (some d) none v0.shown)
            (with_menu win parent pm d m)
    unfolding with_menu
    with_menu-From d m w k =
        finally-From (win.destroy_menu m)
          (>>=-From (append_all-From d m pm [] w k) (λ _ w' k'. track-From parent d m asked w' k'))
          (λ n w' k'. (destroyed_menu d m asked w' k'.0, k'.1))
          (λ _ w' k'. destroyed_menu d m v0.shown w' k')

    with_window-From :
        (d : ℕ) (w : W)
        → At 1 (some d) none v0.shown w
        → From w
            (λ n w'. At 1 none none asked w' × Chosen asked n)
            (λ _. At 1 none none v0.shown)
            (with_window win parent pm d)
    unfolding with_window
    with_window-From d w k =
        finally-From {R = λ _. At 1 (some d) none v0.shown} (win.destroy_window d)
          (>>=-From {P = λ m. Filled d m []}
            (record {
              ends =
                  map_Ends {Q = λ m. Filled d m []} {S = λ _. At 1 (some d) none v0.shown}
                    (win.create_popup_menu w)
                    (λ m w' e. (
                      subst (Opened v0 1 (some d) (some m) v0.shown) (sym e) (record {
                        classes_are = k.classes_are;
                        windows_are = k.windows_are;
                        menus_are = λ x. forth (v0.menus x) (own (some m) x) (k.menus_are x) refl;
                        shown_is = k.shown_is;
                      }),
                      ap (λ v. v.entries m) e ∙ ground arith,
                    ))
                    (λ _ w' e. same-At 1 (some d) none v0.shown w w' k e)
                    (laws.create_popup_menu_lem w);
            })
            (λ m w' k'. with_menu-From d m w' k'))
          (λ n w' k'. (destroyed_window d asked w' k'.0, k'.1))
          (λ _ w' k'. destroyed_window d v0.shown w' k')

    in_class-From :
        (w : W)
        → At 1 none none v0.shown w
        → From w
            (λ n w'. At 0 none none asked w' × Chosen asked n)
            (λ _. At 0 none none v0.shown)
            (finally
              (win.create_window >>= with_window win parent pm)
              (λ r w. (r, win.unregister_class w)))
    in_class-From w k =
        finally-From {R = λ _. At 1 none none v0.shown} win.unregister_class
          (>>=-From {P = λ d. At 1 (some d) none v0.shown}
            (record {
              ends =
                  map_Ends {Q = λ d. At 1 (some d) none v0.shown} {S = λ _. At 1 none none v0.shown}
                    (win.create_window w)
                    (λ d w' e. subst (Opened v0 1 (some d) none v0.shown) (sym e) (record {
                      classes_are = k.classes_are;
                      windows_are =
                          λ x. forth (v0.windows x) (own (some d) x) (k.windows_are x) refl;
                      menus_are = k.menus_are;
                      shown_is = k.shown_is;
                    }))
                    (λ _ w' e. same-At 1 none none v0.shown w w' k e) (laws.create_window_lem w);
            })
            with_window-From)
          (λ n w' k'. (unregistered asked w' k'.0, k'.1)) (λ _ w' k'. unregistered v0.shown w' k')

module _ {W : Type 0} (win : Menus W) (view : W → Shell) (laws : MenuLaws win view) where
  -- Nothing more or less has to be given back.
  abbrev pub Restored : W → W → Type 0
  Restored w w' =
      ((view w').classes ≡ (view w).classes)
      × ((x : ℕ) → (view w').windows x ≡ (view w).windows x)
      × ((x : ℕ) → (view w').menus x ≡ (view w).menus x)

  Opened-Restored :
      (w w' : W) (s : List Entry) → Opened (view w) 0 none none s (view w') → Restored w w'
  Opened-Restored w w' s k = (
    omega (arith, k.classes_are),
    λ x. omega (arith, k.windows_are x),
    λ x. omega (arith, k.menus_are x),
  )

  popup_menu_show-From :
      (parent : ℕ) (pm : List PopupMenuItem) (w : W)
      → From w
          (λ n w'.
            Opened (view w) 0 none none (map entry_of pm) (view w')
            × ((n ≡ 0) ⊎ Offers n (map entry_of pm)))
          (λ _ w'. Opened (view w) 0 none none (view w).shown (view w'))
          (popup_menu_show win parent pm)
  unfolding popup_menu_show
  popup_menu_show-From parent pm w =
      >>=-From {P = λ _ w'. Opened (view w) 1 none none (view w).shown (view w')}
        (record {
          ends =
              map_Ends {Q = λ _ w'. Opened (view w) 1 none none (view w).shown (view w')}
                {S = λ _ w'. Opened (view w) 0 none none (view w).shown (view w')}
                (win.register_class w)
                (λ _ w' e. subst (Opened (view w) 1 none none (view w).shown) (sym e) (record {
                  classes_are = refl;
                  windows_are = λ x. nothing ((view w).windows x);
                  menus_are = λ x. nothing ((view w).menus x);
                  shown_is = refl;
                }))
                (λ _ w' e. subst (Opened (view w) 0 none none (view w).shown) (sym e) (record {
                  classes_are = nothing (view w).classes;
                  windows_are = λ x. nothing ((view w).windows x);
                  menus_are = λ x. nothing ((view w).menus x);
                  shown_is = refl;
                }))
                (laws.register_class_lem w);
        })
        (λ _ w' k. in_class-From win view laws (view w) parent pm w' k)

  -- With the documented effect of the calls of Windows: after popup_menu_show no class, window or
  -- menu more or fewer has to be given back, on success and on every error. On success the menu
  -- that was shown had exactly the items in their order, those with the id 0 as separators, and
  -- the result is 0 or the id of an item that is no separator; after an error no menu was shown.
  pub popup_menu_show-Restored :
      (parent : ℕ) (pm : List PopupMenuItem) (w : W)
      → Ends
          (λ n w'.
            Restored w w'
            × ((view w').shown ≡ map entry_of pm)
            × ((n ≡ 0) ⊎ Offers n (map entry_of pm)))
          (λ _ w'. Restored w w' × ((view w').shown ≡ (view w).shown))
          (popup_menu_show win parent pm w)
  popup_menu_show-Restored parent pm w =
      map_Ends
        {Q = λ n w'.
          Restored w w'
          × ((view w').shown ≡ map entry_of pm)
          × ((n ≡ 0) ⊎ Offers n (map entry_of pm))}
        {S = λ _ w'. Restored w w' × ((view w').shown ≡ (view w).shown)}
        (popup_menu_show win parent pm w)
        (λ n w' k. (Opened-Restored w w' (map entry_of pm) k.0, k.0.shown_is, k.1))
        (λ _ w' k. (Opened-Restored w w' (view w).shown k, k.shown_is))
        (popup_menu_show-From parent pm w).ends
