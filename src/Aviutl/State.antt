-- ===== src/Aviutl/State.antt =====
-- The state of src/c/aviutl.c, and the calls that it makes of AviUtl and of Windows.
use aviutl_psdtoolkit.Base.{
  ℕ, Bool, Option, none, some, if◌then◌else◌, Chars, M, pure, raise, Error, ok, null_pointer,
  unexpected, Wstr,
}

-- `enum aviutl_patched`
pub data Patched : Type 0 where
  patched_default patched_en patched_zh_cn : Patched

-- The members of `FILTER`, `SYS_INFO` and `FILE_INFO` that are read. The texts are the memory up to
-- the last character before the final NUL.
pub record Filter : Type 0 where
  pub hwnd : ℕ
  pub flag : ℕ
  pub name : Chars
  pub information : Chars

pub record SysInfo : Type 0 where
  pub build : ℕ
  pub filter_n : ℕ
  pub project_name : Wstr

pub record FileInfo : Type 0 where
  pub audio_rate : ℕ
  pub audio_ch : ℕ

-- The globals `g_...`, and the world outside of them.
pub record Plugin (W : Type 0) : Type 0 where
  pub fp : Option Filter
  pub editp : Option ℕ
  pub lua51 : Option ℕ
  pub exedit_fp : Option Filter
  pub exedit_patch : Patched
  pub initialized : Bool
  pub world : W

-- `EXFUNC` of AviUtl's SDK. A number is a C `int`.
pub record Exfunc (W : Type 0) : Type 0 where
  pub get_filterp : ℕ → W → Option Filter
  pub get_sys_info : Option ℕ → W → Option SysInfo × W
  pub get_file_info : ℕ → W → Option FileInfo × W
  pub avi_file_open : Chars → W → Option (ℕ × FileInfo) × W
  pub avi_file_set_audio_sample_rate : ℕ → (rate ch : ℕ) → W → ℕ × W
  pub avi_file_close : ℕ → W → W
  pub get_frame : ℕ → W → ℕ × W
  pub set_frame : ℕ → ℕ → W → ℕ × W
  pub get_frame_n : ℕ → W → ℕ × W
  pub set_frame_n : ℕ → ℕ → W → ℕ × W
  pub get_select_frame : ℕ → W → Option (ℕ × ℕ) × W
  pub set_select_frame : ℕ → (start end : ℕ) → W → Bool × W
  pub add_menu_item : Chars → (window id def_key flag : ℕ) → W → Bool × W

-- The modules of Windows, the files, and the conversion of texts, by ovutil.
pub record System (W : Type 0) : Type 0 where
  pub get_module_file_name : M W Chars
  pub extract_file_name : Chars → M W ℕ
  pub file_exists : Chars → M W Bool
  pub load_library : Chars → W → Option ℕ × W
  pub free_library : ℕ → W → W
  pub to_mbcs : Chars → M W Chars
  pub from_mbcs : Chars → M W Chars
  pub get_desktop_window : W → ℕ × W
  pub ereport : Error → W → W

-- A call that leaves the globals alone.
unfoldable pub outside : {W A : Type 0} → M W A → M (Plugin W) A
outside m t = let (r, w) = m t.world in (r, record t { world = w })

unfoldable pub answer : {W A : Type 0} → (W → A × W) → M (Plugin W) A
answer f t = let (a, w) = f t.world in (ok a, record t { world = w })

-- The test of the pointers to the results.
unfoldable pub not_null : {W : Type 0} → Bool → M W (Unit {0})
not_null there = if there then pure tt else raise null_pointer

unfoldable pub globals : {W : Type 0} → M (Plugin W) (Plugin W)
globals t = (ok t, t)

-- `!g_fp`, and `!g_editp || !g_fp`
unfoldable pub present : {W A : Type 0} → Option A → M W A
present none = raise unexpected
present (some a) = pure a
