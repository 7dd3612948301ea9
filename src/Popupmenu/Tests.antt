-- ===== src/Popupmenu/Tests.antt =====
-- Menus as plain data, for src/c/popupmenu.c.
use aviutl_psdtoolkit.Base.{
  ℕ, ◌+◌, ◌-◌, List, [], ◌∷◌, map, none, some, own, codes, ok, Ends, ◌≡◌, ◌⊎◌, inl, inr, refl,
}
use aviutl_psdtoolkit.Popupmenu.Show.{PopupMenuItem, Menus, popup_menu_show}
use aviutl_psdtoolkit.Popupmenu.Shown.{
  Entry, separator, item, entry_of, Offers, Shell, appended, created, MenuLaws, Restored,
  popup_menu_show-Restored,
}

-- The id of the first entry that is no separator.
first_id : List Entry → ℕ
first_id [] = 0
first_id (separator ∷ l) = first_id l
first_id (item id c ∷ l) = id

first_id-Offers : (l : List Entry) → (first_id l ≡ 0) ⊎ Offers (first_id l) l
unfolding first_id
first_id-Offers [] = inl refl
first_id-Offers (separator ∷ l) = first_id-Offers l
first_id-Offers (item id c ∷ l) = inr (inl refl)

-- The window is number 2, the menu number 3, and the user takes the first item.
abbrev shell_menus : Menus Shell
shell_menus = record {
  register_class = λ v. (ok tt, record v { classes = v.classes + 1 });
  create_window = λ v. (ok 2, record v { windows = λ x. v.windows x + own (some 2) x });
  create_popup_menu = λ v. (ok 3, created 3 v);
  append_item = λ m id c v. (ok tt, appended m (item id c) v);
  append_separator = λ m v. (ok tt, appended m separator v);
  activate = λ p d v. v;
  track_popup_menu = λ m d v. (first_id (v.entries m), record v { shown = v.entries m });
  destroy_menu = λ m v. record v { menus = λ x. v.menus x - own (some m) x };
  destroy_window = λ d v. record v { windows = λ x. v.windows x - own (some d) x };
  unregister_class = λ v. record v { classes = v.classes - 1 };
}

shell_menus-laws : MenuLaws shell_menus (λ v. v)
shell_menus-laws = record {
  register_class_lem = λ w. refl;
  create_window_lem = λ w. refl;
  create_popup_menu_lem = λ w. refl;
  append_item_lem = λ m id c w. refl;
  append_separator_lem = λ m w. refl;
  activate_lem = λ p d w. refl;
  track_popup_menu_lem = λ m d w. (refl, first_id-Offers (w.entries m));
  destroy_menu_lem = λ m w. refl;
  destroy_window_lem = λ d w. refl;
  unregister_class_lem = λ w. refl;
}

abbrev idle : Shell
idle = record { classes = 0; windows = λ x. 0; menus = λ x. 0; entries = λ x. []; shown = [] }

abbrev two_items : List PopupMenuItem
two_items =
    record { caption = some (codes "copy"); id = 1000 }
    ∷ record { caption = none; id = 0 }
    ∷ record { caption = some (codes "save"); id = 1002 }
    ∷ []

popup_menu_show-Restored_example :
    Ends
      (λ n v.
        Restored shell_menus (λ v. v) shell_menus-laws idle v
        × (v.shown ≡ map entry_of two_items)
        × ((n ≡ 0) ⊎ Offers n (map entry_of two_items)))
      (λ _ v. Restored shell_menus (λ v. v) shell_menus-laws idle v × (v.shown ≡ []))
      (popup_menu_show shell_menus 1 two_items idle)
popup_menu_show-Restored_example =
    popup_menu_show-Restored shell_menus (λ v. v) shell_menus-laws 1 two_items idle
