-- ===== src/Assist/Lifetime.antt =====
-- The start and the end of the plug-in, and the project's path, in src/c/assist.c.
use aviutl_psdtoolkit.Base.{
  ℕ, Bool, true, false, ◌==◌, if◌then◌else◌, [], ◌∷◌, ◌++◌, Option, none, some, take, Chars, codes,
  M, ◌>>=◌, ◌>>◌, pure, hr, ptk, fail, Error, Result, ok, err, finally, Wstr, Ovstr,
}

-- The globals of src/c/assist.c, and those of src/c/luafuncs.h that it sets. For `g_ipc` and
-- `g_speak` the model has whether they are not null.
pub record Globals (W : Type 0) : Type 0 where
  pub bridge : Option ℕ
  pub ipc : Bool
  pub speak : Bool
  pub ptk_window : ℕ
  pub current_project_path : Wstr
  pub current_frame : ℕ
  pub current_frame_n : ℕ
  pub current_render_index : ℕ
  pub world : W

-- The operations of the other files, and the calls of Windows and of the libraries. `ipc_init` is
-- given the command line. `load_library` and `get_proc_address` give the HRESULT of the last error.
pub record Parts (W : Type 0) : Type 0 where
  pub is_amd64 : W → Bool × W
  pub aviutl_set_pointers : W → W
  pub aviutl_init : M W (Unit {0})
  pub aviutl_initalized : W → Bool
  pub aviutl_exit : M W (Unit {0})
  pub aviutl_add_menu_item : Chars → (id def_key flag : ℕ) → M W (Unit {0})
  pub aviutl_get_project_path : M W Chars
  pub cache_init : M W (Unit {0})
  pub cache_exit : W → W
  pub speak_init : M W (Unit {0})
  pub speak_exit : W → W
  pub ipc_init : Chars → M W (Unit {0})
  pub ipc_exit : W → W
  pub ipc_clear_files : M W (Unit {0})
  pub ipc_update_current_project_path : Chars → M W (Unit {0})
  pub ipc_show_gui : M W ℕ
  pub ipc_serialize : M W Chars
  pub ipc_deserialize : Chars → M W (Unit {0})
  pub show_setting : M W (Unit {0})
  pub get_module_file_name : M W Chars
  pub extract_file_name : Chars → M W ℕ
  pub load_library : Chars → M W ℕ
  pub get_proc_address : ℕ → M W ℕ
  pub call_init : ℕ → W → W
  pub free_library : ℕ → W → W
  pub set_foreground_window : ℕ → W → W
  pub post_update_current_project_path : W → W
  pub to_utf8 : Chars → M W Chars
  pub error_to_string : Error → M W Chars
  pub message_box : Chars → W → W
  pub ereport : Error → W → W

-- A call that leaves the globals alone, and an assignment.
unfoldable pub beyond : {W A : Type 0} → M W A → M (Globals W) A
beyond m g = let (r, w) = m g.world in (r, record g { world = w })

unfoldable pub assign_global : {W : Type 0} → (Globals W → Globals W) → M (Globals W) (Unit {0})
assign_global f g = (ok tt, f g)

-- `HRESULT_FROM_WIN32(ERROR_MOD_NOT_FOUND)`
abbrev pub mod_not_found : ℕ
mod_not_found = 0x8007007e

unfoldable pub load_error : Error → Error
load_error (hr n) = if n == mod_not_found then ptk 105 else hr n
load_error e = e

-- `ERRMSG_INIT`
abbrev pub errmsg_init : Chars
errmsg_init = codes "PSDToolKit の初期化中にエラーが発生しました。"

-- The error that is shown behind the text, and the text.
abbrev pub Report : Type 0
Report = Option Error × Chars

abbrev pub explained : Chars → Report
explained s = (none, errmsg_init ++ codes "\r\n\r\n" ++ s)

-- The texts for the errors of `aviutl_init` and of `bridge_dll_init`.
unfoldable pub aviutl_message : Error → Report
aviutl_message (ptk n) =
    if n == 101
    then explained (codes "PSDToolKit を使うには AviUtl version 1.00 以降が必要です。")
    else if n == 102
    then explained (codes "拡張編集プラグインが見つかりません。")
    else if n == 103
    then explained (codes "インストール状態が正しくありません。\r\n付属のドキュメントに従ってインストールしてください。")
    else if n == 106
    then explained (codes "PSDToolKit を使うには 拡張編集 version 0.92 以降が必要です。")
    else (some (ptk n), errmsg_init)
aviutl_message e = (some e, errmsg_init)

unfoldable pub bridge_message : Error → Report
bridge_message (ptk n) =
    if n == 105
    then explained (
        codes
          "PSDToolKitBridge.dll の読み込みに失敗しました。\r\nインストール状態が正しくありません。\r\n付属のドキュメントに従ってインストールしてください。")
    else (some (ptk n), errmsg_init)
bridge_message e = (some e, errmsg_init)

abbrev pub plain_message : Error → Report
plain_message e = (some e, errmsg_init)

module _ {W : Type 0} (lib : Ovstr W) (parts : Parts W) where
  unfoldable pub build_error_message : Option Error → Chars → M W Chars
  build_error_message none main_message = lib.scpy main_message
  build_error_message (some e) main_message = do
    tmp ← parts.error_to_string e
    msg ← lib.scpym (main_message ∷ codes "\r\n\r\n" ∷ tmp ∷ [])
    lib.scpy msg

  unfoldable pub boxed : Result Chars × W → W
  boxed (ok errmsg, w) = parts.message_box errmsg w
  boxed (err e, w) = parts.ereport e w

  unfoldable pub error_message_box : Report → W → W
  error_message_box (e, msg) w = boxed (build_error_message e msg w)

  -- The path of a file beside the plug-in.
  unfoldable pub own_directory : M W Chars
  own_directory = do
    tmp ← parts.get_module_file_name
    fnpos ← parts.extract_file_name tmp
    pure (take fnpos tmp)

  unfoldable pub free_bridge : Option ℕ → Globals W → Globals W
  free_bridge none g = g
  free_bridge (some m) g = record g { bridge = none; world = parts.free_library m g.world }

  unfoldable pub bridge_failed : Result (Unit {0}) → Globals W → Result (Unit {0}) × Globals W
  bridge_failed (ok _) g = (ok tt, g)
  bridge_failed (err e) g = (err e, free_bridge g.bridge g)

  unfoldable pub loaded : Result ℕ → M (Globals W) ℕ
  loaded (ok m) g = (ok m, record g { bridge = some m })
  loaded (err e) g = (err (load_error e), record g { bridge = none })

  unfoldable pub load_bridge : Chars → M (Globals W) ℕ
  load_bridge path g =
      let (r, w) = parts.load_library path g.world in loaded r (record g { world = w })

  unfoldable pub bridge_dll_init : M (Globals W) (Unit {0})
  bridge_dll_init =
      finally
        (do
          dir ← beyond own_directory
          tmp ← beyond (lib.scatm dir (codes "script\\PSDToolKit\\PSDToolKitBridge.dll" ∷ []))
          m ← load_bridge tmp
          fn ← beyond (parts.get_proc_address m)
          assign_global (λ g. record g { world = parts.call_init fn g.world }))
        bridge_failed

  unfoldable pub bridge_dll_exit : Globals W → Globals W
  bridge_dll_exit g = free_bridge g.bridge g

  unfoldable pub setup_ipc : M (Globals W) (Unit {0})
  setup_ipc = do
    dir ← beyond own_directory
    tmp2 ← beyond (lib.scpym (codes "\"" ∷ dir ∷ codes "script\\PSDToolKit\\PSDToolKit.exe\"" ∷ []))
    beyond (parts.ipc_init tmp2)
    assign_global (λ g. record g { ipc = true })

  unfoldable pub start_speak : M (Globals W) (Unit {0})
  start_speak = do beyond parts.speak_init; assign_global (λ g. record g { speak = true })

  -- One step of `filter_init`: an error is shown and ends it.
  unfoldable pub or_box :
      (Error → Report)
      → Result (Unit {0}) × Globals W
      → (Globals W → Bool × Globals W)
      → Bool × Globals W
  or_box msg (ok _, g) next = next g
  or_box msg (err e, g) next = (false, record g { world = error_message_box (msg e) g.world })

  unfoldable pub menu_item : Chars → (id def_key flag : ℕ) → Globals W → Globals W
  menu_item name id def_key flag g =
      let (r, w) = parts.aviutl_add_menu_item name id def_key flag g.world in
      record g { world = elim r [ ok _ ↦ w | err e ↦ parts.ereport fail w ] }

  unfoldable pub menu_items : Globals W → Bool × Globals W
  menu_items g = (true, menu_item (codes "環境設定") 2 0 0 (menu_item (codes "ウィンドウを表示") 1 b'W' 2 g))

  unfoldable pub init_parts : Globals W → Bool × Globals W
  init_parts g = or_box aviutl_message (beyond parts.aviutl_init g) λ g1.
      or_box plain_message (beyond parts.cache_init g1) λ g2.
        or_box plain_message (start_speak g2) λ g3.
          or_box plain_message (setup_ipc g3)
            λ g4. or_box bridge_message (bridge_dll_init g4) menu_items

  unfoldable pub filter_init : Globals W → Bool × Globals W
  filter_init g =
      let (amd64, w) = parts.is_amd64 g.world in
      if amd64 then init_parts (record g { world = parts.aviutl_set_pointers w }) else (
        false,
        record g {
          world =
              error_message_box (explained (codes "PSDToolKit を使うには 64bit 版の Windows が必要です。")) w;
        },
      )

  unfoldable pub stop_ipc : Globals W → Globals W
  stop_ipc g = if g.ipc then record g { ipc = false; world = parts.ipc_exit g.world } else g

  unfoldable pub stop_speak : Globals W → Globals W
  stop_speak g = if g.speak then record g { speak = false; world = parts.speak_exit g.world } else g

  unfoldable pub ended : Result (Unit {0}) × W → W
  ended (ok _, w) = w
  ended (err e, w) = parts.ereport e w

  unfoldable pub stop_aviutl : Globals W → Globals W
  stop_aviutl g = record g {
    current_project_path = none;
    world = if parts.aviutl_initalized g.world then ended (parts.aviutl_exit g.world) else g.world;
  }

  unfoldable pub filter_exit : Globals W → Globals W
  filter_exit g =
      stop_aviutl
        (bridge_dll_exit (stop_speak (stop_ipc (record g { world = parts.cache_exit g.world }))))
