-- ===== src/Setting/Show.antt =====
-- The dialog's procedure and `show_setting` of src/c/setting.c.
use aviutl_psdtoolkit.Base.{
  ℕ, ◌^◌, ◌-◌, Bool, true, false, ◌==◌, ◌||◌, if◌then◌else◌, [], ◌∷◌, ◌++◌, Option, none, some,
  take, c_str, Chars, codes, M, ◌>>=◌, ◌>>◌, pure, fail, overrun, hr, finally, Result, ok, err,
  Ovstr,
}
use aviutl_psdtoolkit.Setting.Props.{SettingDialog, Value, read_props, Files, write_props}
use aviutl_psdtoolkit.Setting.Dialog.{Controls, init_dialog, read_dialog}

pub data DialogMessage : Type 0 where
  initializing : DialogMessage
  destroying : DialogMessage
  ok_pressed : DialogMessage
  cancel_pressed : DialogMessage
  unhandled : DialogMessage

-- The dialog with the settings that it was given. `property` says whether its property is set, and
-- `answer` is what EndDialog was called with.
pub record Box (W : Type 0) : Type 0 where
  pub settings : SettingDialog
  pub property : Bool
  pub answer : Option ℕ
  pub world : W

module _ {W : Type 0} (ui : Controls W) where
  unfoldable pub initialize : Box W → Box W
  initialize b = record b { property = true; world = init_dialog ui b.settings b.world }

  unfoldable pub accept : Box W → Box W
  accept b =
      let (sd, w) = read_dialog ui b.world in record b { settings = sd; answer = some 1; world = w }

  -- IDOK without the property writes an error through a null pointer.
  unfoldable pub setting_dialog_wndproc : DialogMessage → M (Box W) Bool
  setting_dialog_wndproc initializing b = (ok true, initialize b)
  setting_dialog_wndproc destroying b = (ok false, record b { property = false })
  setting_dialog_wndproc ok_pressed b = if b.property then (ok true, accept b) else (err overrun, b)
  setting_dialog_wndproc cancel_pressed b = (ok true, record b { answer = some 2 })
  setting_dialog_wndproc unhandled b = (ok false, b)

-- The calls of `show_setting`. `dialog_box` runs a procedure until the dialog ends, and gives its
-- result and the last error; `required` is the table that Lua loads, if it does.
pub record Desk (W : Type 0) : Type 0 where
  pub get_exedit_window : M W ℕ
  pub get_module_file_name : M W Chars
  pub extract_file_name : Chars → M W ℕ
  pub lua_newstate : W → Option ℕ × W
  pub lua_close : ℕ → W → W
  pub to_mbcs : Chars → M W Chars
  pub set_package_field : (state : ℕ) → (name value : Chars) → W → W
  pub required : (state : ℕ) → W → Option (Chars → Option Value) × W
  pub tointeger : Chars → ℕ
  pub disable_family_windows : ℕ → M W ℕ
  pub restore_disabled_family_windows : ℕ → W → W
  pub dialog_box : ℕ → (DialogMessage → M (Box W) Bool) → Box W → (ℕ × ℕ) × Box W

module _ {W : Type 0} (lib : Ovstr W) (files : Files W) (ui : Controls W) (desk : Desk W) where
  unfoldable pub script_directory : M W Chars
  script_directory = do
    tmp ← desk.get_module_file_name
    fnpos ← desk.extract_file_name tmp
    lib.scatm (take fnpos tmp) (codes "script\\PSDToolKit\\" ∷ [])

  unfoldable pub new_state : M W ℕ
  new_state w =
      let (state, w') = desk.lua_newstate w in (elim state [ some n ↦ ok n | none ↦ err fail ], w')

  unfoldable pub set_path : ℕ → Chars → Chars → Chars → M W (Unit {0})
  set_path state name directory suffix = desk.to_mbcs directory >>= λ s.
      λ w. (ok tt, desk.set_package_field state name (c_str s ++ suffix) w)

  -- A file that does not load counts as an empty table.
  unfoldable pub fields_of : Option (Chars → Option Value) → Chars → Option Value
  fields_of none name = none
  fields_of (some fields) name = fields name

  unfoldable pub load_settings : ℕ → M W SettingDialog
  load_settings state w =
      let (table, w') = desk.required state w in
      (ok (read_props (fields_of table) desk.tointeger), w')

  abbrev pub opened_with : SettingDialog → W → Box W
  opened_with sd w = record { settings = sd; property = false; answer = none; world = w }

  -- What the dialog's result means: settings to be written, or none.
  unfoldable pub answered : (ℕ × ℕ) × Box W → Result (Option SettingDialog) × W
  answered ((r, last_error), b) =
      if r == 0 || r == 2 ^ 32 - 1
      then (err (hr last_error), b.world)
      else if r == 2
      then (ok none, b.world)
      else (ok (some b.settings), b.world)

  unfoldable pub run_dialog : ℕ → SettingDialog → M W (Option SettingDialog)
  run_dialog parent_window sd w =
      answered (desk.dialog_box parent_window (setting_dialog_wndproc ui) (opened_with sd w))

  unfoldable pub write_settings : Chars → Option SettingDialog → M W (Unit {0})
  write_settings directory none = pure tt
  write_settings directory (some sd) = do
    path ← lib.scatm directory (codes "setting-gui.lua" ∷ [])
    write_props lib files path sd

  unfoldable pub edit_settings : ℕ → Chars → SettingDialog → M W (Unit {0})
  edit_settings parent_window directory sd = do
    disabled_windows ← desk.disable_family_windows parent_window
    finally (run_dialog parent_window sd >>= write_settings directory)
        (λ r w. (r, desk.restore_disabled_family_windows disabled_windows w))

  unfoldable pub with_state : ℕ → Chars → ℕ → M W (Unit {0})
  with_state parent_window directory state = do
    set_path state (codes "path") directory (codes "?.lua")
    set_path state (codes "cpath") directory (codes "?.dll")
    sd ← load_settings state
    edit_settings parent_window directory sd

  unfoldable pub show_setting : M W (Unit {0})
  show_setting = do
    parent_window ← desk.get_exedit_window
    directory ← script_directory
    state ← new_state
    finally (with_state parent_window directory state) (λ r w. (r, desk.lua_close state w))
