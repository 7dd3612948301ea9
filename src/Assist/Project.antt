-- ===== src/Assist/Project.antt =====
-- The project's path and its saved data, and the menu's commands, in src/c/assist.c.
use aviutl_psdtoolkit.Base.{
  ℕ, ◌+◌, ◌%◌, ◌^◌, Bool, true, false, ◌==◌, ◌||◌, if◌then◌else◌, ltb, length, overrun, [], Option,
  none, some, Chars, codes, M, ◌>>=◌, ◌>>◌, pure, raise, unexpected, ptk, Error, Result, ok, err,
  Ovstr,
}
use aviutl_psdtoolkit.Assist.Lifetime.{
  Globals, Parts, Report, beyond, assign_global, error_message_box,
}

-- `ipc_friendly_error_message_box`, up to the box.
unfoldable pub ipc_message : Chars → Error → Report
ipc_message msg (ptk n) =
    if n == 200
    then (
      none,
      codes
          "PSDToolKit.exe が見つかりませんでした。\r\n\r\nインストールファイルが破損している可能性があります。\r\nPSDToolKit を再インストールしてみてください。",
    )
    else if n == 201
    then (
      none,
      codes
          "PSDToolKit.exe へのアクセスが拒否されました。\r\n\r\nこのエラーはアンチウィルスソフトが PSDToolKit.exe を\r\n誤ブロックしているのが原因で発生することがあります。\r\n\r\nアンチウィルスソフトがプログラム実行を阻害していないか確認してください。",
    )
    else (some (ptk n), msg)
ipc_message msg e = (some e, msg)

module _ {W : Type 0} (lib : Ovstr W) (parts : Parts W) where
  unfoldable pub clear_files : M W (Unit {0})
  clear_files = parts.ipc_clear_files

  -- A project that is not open, or not yet saved, has the empty path.
  unfoldable pub project_path : Result Chars → M W Chars
  project_path (ok s) = pure s
  project_path (err (ptk n)) = if n == 107 || n == 108 then pure [] else raise (ptk n)
  project_path (err e) = raise e

  unfoldable pub keep_path : Chars → M (Globals W) (Unit {0})
  keep_path s = assign_global (λ g. record g { current_project_path = some s })

  unfoldable pub update_current_project_path : M (Globals W) (Unit {0})
  update_current_project_path = do
    path ← beyond (λ w. let (r, w') = parts.aviutl_get_project_path w in project_path r w')
    path ← beyond (lib.scpy path)
    keep_path path
    utf8 ← beyond (parts.to_utf8 path)
    beyond (parts.ipc_update_current_project_path utf8)

  unfoldable pub show_gui : M (Globals W) (Unit {0})
  show_gui = do
    w ← beyond parts.ipc_show_gui
    assign_global (λ g. record g { ptk_window = w; world = parts.set_foreground_window w g.world })

  unfoldable pub friendly : Chars → Result (Unit {0}) × Globals W → Globals W
  friendly msg (ok _, g) = g
  friendly msg (err e, g) = record g {
    world = error_message_box lib parts (ipc_message msg e) g.world;
  }

  abbrev pub something_failed : Chars
  something_failed = codes "エラーが発生しました。"

  unfoldable pub command_of : ℕ → M (Globals W) (Unit {0})
  command_of wparam =
      if wparam == 1
      then show_gui
      else if wparam == 2
      then beyond parts.show_setting
      else raise unexpected

  unfoldable pub wndproc_command : ℕ → Globals W → Bool × Globals W
  wndproc_command wparam g = (true, friendly something_failed (command_of wparam g))

  unfoldable pub reset : Globals W → Globals W
  reset g = friendly something_failed ((beyond clear_files >>= λ _. update_current_project_path) g)

  unfoldable pub wndproc_update_current_project_path : Globals W → Globals W
  wndproc_update_current_project_path g = friendly something_failed (update_current_project_path g)

  -- The index is an `int32_t`; the model counts it without a sign.
  unfoldable pub filter_proc : (frame frame_n : ℕ) → Globals W → Bool × Globals W
  filter_proc frame frame_n g = (
    true,
    record g {
      current_frame = frame;
      current_frame_n = frame_n;
      current_render_index = (g.current_render_index + 1) % 2 ^ 32;
    },
  )

  unfoldable pub succeeded : Result (Unit {0}) × Globals W → Bool × Globals W
  succeeded (ok _, g) = (true, g)
  succeeded (err e, g) = (false, record g { world = parts.ereport e g.world })

  unfoldable pub filter_project_load : Chars → Globals W → Bool × Globals W
  filter_project_load saved g = succeeded (
      beyond (parts.ipc_deserialize saved) (record g { world = parts.aviutl_set_pointers g.world }))

  -- The host gives a buffer in the second of two calls, of the size that the first one gave.
  unfoldable pub copy_out : Chars → Option ℕ → M (Globals W) (Option Chars)
  copy_out tmp none = pure none
  copy_out tmp (some room) = if ltb room (length tmp) then raise overrun else (λ g.
      (ok (some tmp), record g { world = parts.post_update_current_project_path g.world }))

  unfoldable pub project_saved :
      Result (ℕ × Option Chars) × Globals W → Option (ℕ × Option Chars) × Globals W
  project_saved (ok s, g) = (some s, g)
  project_saved (err e, g) = (none, record g { world = parts.ereport e g.world })

  -- The size, and what is copied to the buffer; none for FALSE.
  unfoldable pub filter_project_save :
      (room : Option ℕ) → Globals W → Option (ℕ × Option Chars) × Globals W
  filter_project_save room g = project_saved (
      (beyond parts.ipc_serialize >>= λ tmp.
      copy_out tmp room >>= λ written. pure (length tmp, written))
        (record g { world = parts.aviutl_set_pointers g.world }))
