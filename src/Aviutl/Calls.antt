-- ===== src/Aviutl/Calls.antt =====
-- The functions of src/c/aviutl.c that pass a call on to AviUtl.
use aviutl_psdtoolkit.Base.{
  ℕ, Bool, true, ◌||◌, ◌==◌, Option, none, some, if◌then◌else◌, get_or, Chars, M, ◌>>=◌, ◌>>◌, pure,
  raise, or_raise, finally, fail, ptk, invalid_argument, null_pointer, Result, ok, err, Wstr,
}
use aviutl_psdtoolkit.Aviutl.State.{
  SysInfo, FileInfo, Plugin, Exfunc, System, outside, answer, not_null, globals, present,
}

module _ {W : Type 0} (app : Exfunc W) (sys : System W) where
  -- The pointer of the editor is read after that of the plug-in.
  unfoldable pub editor : M (Plugin W) ℕ
  editor = do g ← globals; _fp ← present g.fp; present g.editp

  unfoldable pub aviutl_get_exedit_window : Bool → M (Plugin W) ℕ
  aviutl_get_exedit_window dest = do
    not_null dest
    g ← globals
    fp ← present g.exedit_fp
    pure fp.hwnd

  unfoldable pub aviutl_get_my_window : Bool → M (Plugin W) ℕ
  aviutl_get_my_window dest = do not_null dest; g ← globals; fp ← present g.fp; pure fp.hwnd

  -- The desktop's window stands in for one that is not there.
  unfoldable pub or_desktop : Result ℕ → Plugin W → Result ℕ × Plugin W
  or_desktop (ok h) t = (ok h, t)
  or_desktop (err e) t = answer sys.get_desktop_window (record t { world = sys.ereport e t.world })

  unfoldable pub aviutl_get_exedit_window_must : M (Plugin W) ℕ
  aviutl_get_exedit_window_must = finally (aviutl_get_exedit_window true) or_desktop

  unfoldable pub aviutl_get_my_window_must : M (Plugin W) ℕ
  aviutl_get_my_window_must = finally (aviutl_get_my_window true) or_desktop

  unfoldable pub aviutl_get_sys_info : Bool → M (Plugin W) SysInfo
  aviutl_get_sys_info si = do
    not_null si
    g ← globals
    _fp ← present g.fp
    info ← answer (app.get_sys_info g.editp)
    or_raise info fail

  -- A project without sound counts as none.
  unfoldable pub aviutl_get_editing_file_info : Bool → M (Plugin W) FileInfo
  aviutl_get_editing_file_info fi = do
    not_null fi
    editp ← editor
    info ← answer (app.get_file_info editp)
    info ← or_raise info fail
    if info.audio_rate == 0 || info.audio_ch == 0 then raise (ptk 107) else pure info

  -- `aviutl_get_file_info`: the file's information and its number of samples.
  unfoldable pub aviutl_get_file_info :
      Option Chars → (fi samples : Bool) → M (Plugin W) (FileInfo × ℕ)
  aviutl_get_file_info none fi samples = raise invalid_argument
  aviutl_get_file_info (some path) fi samples = do
    not_null fi
    not_null samples
    editor
    current ← aviutl_get_editing_file_info true
    s ← outside (sys.to_mbcs path)
    opened ← answer (app.avi_file_open s)
    opened ← or_raise opened fail
    n ← answer (app.avi_file_set_audio_sample_rate opened.0 current.audio_rate current.audio_ch)
    answer (λ w. (tt, app.avi_file_close opened.0 w))
    pure (opened.1, n)

  unfoldable pub named : Wstr → M (Plugin W) Chars
  named none = raise (ptk 108)
  named (some s) = if get_or s 0 0 == 0 then raise (ptk 108) else pure s

  unfoldable pub aviutl_get_project_path : Bool → M (Plugin W) Chars
  aviutl_get_project_path dest = do
    not_null dest
    si ← aviutl_get_sys_info true
    aviutl_get_editing_file_info true
    name ← named si.project_name
    outside (sys.from_mbcs name)

  unfoldable pub aviutl_get_frame : Bool → M (Plugin W) ℕ
  aviutl_get_frame f = do not_null f; editp ← editor; answer (app.get_frame editp)

  -- The pointer's content is the frame to go to, and then the one that AviUtl is at.
  unfoldable pub aviutl_set_frame : Option ℕ → M (Plugin W) ℕ
  aviutl_set_frame f = do
    f ← or_raise f null_pointer
    editp ← editor
    answer (app.set_frame editp f)

  unfoldable pub aviutl_get_frame_n : Bool → M (Plugin W) ℕ
  aviutl_get_frame_n n = do not_null n; editp ← editor; answer (app.get_frame_n editp)

  unfoldable pub aviutl_set_frame_n : Option ℕ → M (Plugin W) ℕ
  aviutl_set_frame_n n = do
    n ← or_raise n null_pointer
    editp ← editor
    answer (app.set_frame_n editp n)

  -- None is -1 in both.
  unfoldable pub aviutl_get_select_frame : (start end : Bool) → M (Plugin W) (Option (ℕ × ℕ))
  aviutl_get_select_frame start end = do
    not_null start
    not_null end
    editp ← editor
    answer (app.get_select_frame editp)

  unfoldable pub aviutl_set_select_frame : (start end : ℕ) → M (Plugin W) (Unit {0})
  aviutl_set_select_frame start end = do
    editp ← editor
    done ← answer (app.set_select_frame editp start end)
    if done then pure tt else raise fail

  unfoldable pub aviutl_add_menu_item :
      Option Chars → Option ℕ → (id def_key flag : ℕ) → M (Plugin W) (Unit {0})
  aviutl_add_menu_item name window id def_key flag = do
    name ← or_raise name invalid_argument
    window ← or_raise window invalid_argument
    g ← globals
    _fp ← present g.fp
    tmp ← outside (sys.to_mbcs name)
    done ← answer (app.add_menu_item tmp window id def_key flag)
    if done then pure tt else raise fail
