-- ===== src/Aviutl/Tests.antt =====
-- Runs of the functions of src/c/aviutl.c, and the theorems at concrete inputs.
use aviutl_psdtoolkit.Base.{
  ℕ, ◌+◌, ◌-◌, true, false, none, some, own, ok, err, codes, Chars, ◌==◌, if◌then◌else◌, pure, Ends,
  ptk, same_text, ◌≡◌, refl,
}
use aviutl_psdtoolkit.Plain.{plain_on}
use aviutl_psdtoolkit.Aviutl.State.{patched_en, patched_default, Filter, Plugin, Exfunc, System}
use aviutl_psdtoolkit.Aviutl.Version.{
  atou32, atou32_loop, verify_exedit_version, check_version, check_major, check_minor, behind_token,
  after_prefix,
}
use aviutl_psdtoolkit.Aviutl.Decimal.{read_u32, atou32-read_u32}
use aviutl_psdtoolkit.Aviutl.Init.{find_filter, aviutl_init, recognise, patched_of, has_bit}
use aviutl_psdtoolkit.Aviutl.Modules.{ModuleLaws, Started, Untouched, aviutl_init-modules}

-- The world is the number of times that each module is loaded.
abbrev Counts : Type 0
Counts = ℕ → ℕ

abbrev filter_named : Chars → Filter
filter_named name = record {
  hwnd = 1;
  flag = 0;
  name = name;
  information = codes "exedit version 0.93 by";
}

abbrev app : Exfunc Counts
app = record {
  get_filterp = λ i w.
      if i == 1
      then some (filter_named (codes "Advanced Editing"))
      else some (filter_named (codes "PSDToolKit"));
  get_sys_info = λ e w. (some (record { build = 11003; filter_n = 3; project_name = none }), w);
  get_file_info = λ e w. (none, w);
  avi_file_open = λ s w. (none, w);
  avi_file_set_audio_sample_rate = λ h rate ch w. (0, w);
  avi_file_close = λ h w. w;
  get_frame = λ e w. (0, w);
  set_frame = λ e f w. (f, w);
  get_frame_n = λ e w. (0, w);
  set_frame_n = λ e f w. (f, w);
  get_select_frame = λ e w. (none, w);
  set_select_frame = λ e start end w. (false, w);
  add_menu_item = λ s window id def_key flag w. (true, w);
}

abbrev sys : System Counts
sys = record {
  get_module_file_name = pure (codes "bridge.auf");
  extract_file_name = λ s. pure 0;
  file_exists = λ s. pure true;
  load_library = λ s w. (some 3, λ h. w h + own (some 3) h);
  free_library = λ m w h. w h - own (some m) h;
  to_mbcs = λ s. pure s;
  from_mbcs = λ s. pure s;
  get_desktop_window = λ w. (0, w);
  ereport = λ e w. w;
}

sys-ModuleLaws : ModuleLaws plain_on app sys (λ w. w)
sys-ModuleLaws = record {
  get_module_file_name_lem = λ w h. refl;
  extract_file_name_lem = λ s w h. refl;
  file_exists_lem = λ s w h. refl;
  scatm_lem = λ s ss w h. refl;
  get_sys_info_lem = λ e w h. refl;
  load_library_lem = λ s w h. refl;
  free_library_lem = λ m w h. refl;
}

abbrev fresh : Plugin Counts
fresh = record {
  fp = some (filter_named (codes "PSDToolKit"));
  editp = some 1;
  lua51 = none;
  exedit_fp = none;
  exedit_patch = patched_default;
  initialized = false;
  world = λ h. 0;
}

run_find :
    (find_filter plain_on app sys 3 0 fresh).0
    ≡ ok (filter_named (codes "Advanced Editing"), patched_en)
unfolding find_filter recognise patched_of same_text has_bit
run_find = refl

run_version :
    (verify_exedit_version {W = Counts} (codes "exedit version 0.91") (λ h. 0)).0 ≡ err (ptk 106)
unfolding verify_exedit_version check_version check_major check_minor behind_token after_prefix
    atou32 atou32_loop
run_version = refl

atou32-read_u32_example : atou32 (codes "4294967296.") ≡ read_u32 (codes "4294967296.")
atou32-read_u32_example = atou32-read_u32 (codes "4294967296.")

aviutl_init-modules_example :
    Ends
      (λ _. Started plain_on app sys (λ w. w) sys-ModuleLaws fresh 7)
      (λ _. Untouched plain_on app sys (λ w. w) sys-ModuleLaws fresh)
      (aviutl_init plain_on app sys 7 fresh)
aviutl_init-modules_example = aviutl_init-modules plain_on app sys (λ w. w) sys-ModuleLaws fresh 7
