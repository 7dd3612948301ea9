-- ===== src/Popupmenu/Show.antt =====
-- `struct popup_menu` and `popup_menu_show` of src/c/popupmenu.c, and the calls of Windows under it.
use aviutl_psdtoolkit.Base.{
  ℕ, List, [], ◌∷◌, ◌==◌, if◌then◌else◌, Wstr, M, ◌>>=◌, pure, finally, ok,
}

pub record PopupMenuItem : Type 0 where
  pub caption : Wstr
  pub id : ℕ

-- What is left of a menu's items.
unfoldable pub popup_menu_free : List PopupMenuItem → List PopupMenuItem
popup_menu_free pm = []

-- There is one class, PSDToolKit_Dummy_Window. A number is a handle. A call that fails gives the
-- HRESULT of the last error. `activate` brings the window to the front for the parent's thread;
-- `track_popup_menu` shows the menu at the cursor and gives the id that the user chose, or 0.
pub record Menus (W : Type 0) : Type 0 where
  pub register_class : M W (Unit {0})
  pub create_window : M W ℕ
  pub create_popup_menu : M W ℕ
  pub append_item : (menu id : ℕ) → Wstr → M W (Unit {0})
  pub append_separator : (menu : ℕ) → M W (Unit {0})
  pub activate : (parent dummy_window : ℕ) → W → W
  pub track_popup_menu : (menu dummy_window : ℕ) → W → ℕ × W
  pub destroy_menu : ℕ → W → W
  pub destroy_window : ℕ → W → W
  pub unregister_class : W → W

module _ {W : Type 0} (win : Menus W) where
  -- An item with the id 0 is a separator.
  unfoldable pub append_menu : ℕ → PopupMenuItem → M W (Unit {0})
  append_menu menu pmi =
      if pmi.id == 0 then win.append_separator menu else win.append_item menu pmi.id pmi.caption

  unfoldable pub append_all : ℕ → List PopupMenuItem → M W (Unit {0})
  append_all menu [] = pure tt
  append_all menu (pmi ∷ pm) = append_menu menu pmi >>= λ _. append_all menu pm

  unfoldable pub track : (parent menu dummy_window : ℕ) → M W ℕ
  track parent menu dummy_window w =
      let (selected, w') =
        win.track_popup_menu menu dummy_window (win.activate parent dummy_window w) in
      (ok selected, w')

  -- The code from each handle on that `cleanup` gives back, the last one first.
  unfoldable pub with_menu : ℕ → List PopupMenuItem → (dummy_window menu : ℕ) → M W ℕ
  with_menu parent pm dummy_window menu =
      finally (append_all menu pm >>= λ _. track parent menu dummy_window)
        (λ r w. (r, win.destroy_menu menu w))

  unfoldable pub with_window : ℕ → List PopupMenuItem → ℕ → M W ℕ
  with_window parent pm dummy_window =
      finally (win.create_popup_menu >>= with_menu parent pm dummy_window)
        (λ r w. (r, win.destroy_window dummy_window w))

  unfoldable pub popup_menu_show : ℕ → List PopupMenuItem → M W ℕ
  popup_menu_show parent pm = win.register_class >>= λ _.
      finally (win.create_window >>= with_window parent pm) (λ r w. (r, win.unregister_class w))
