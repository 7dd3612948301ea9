-- ===== src/Aviutl/Init.antt =====
-- `aviutl_init` and `aviutl_exit` of src/c/aviutl.c, with the checks of the installation.
use aviutl_psdtoolkit.Base.{
  ℕ, zero, suc, Bool, true, false, [], ◌∷◌, Option, none, some, ltb, ◌==◌, if◌then◌else◌, take,
  same_text, Chars, codes, M, ◌>>=◌, ◌>>◌, pure, raise, or_raise, ptk, ok, err, Ovstr, ◌/◌, ◌%◌,
}
use aviutl_psdtoolkit.Aviutl.State.{
  Patched, patched_default, patched_en, patched_zh_cn, Filter, Plugin, Exfunc, System, outside,
  answer,
}
use aviutl_psdtoolkit.Aviutl.Calls.{aviutl_get_sys_info}
use aviutl_psdtoolkit.Aviutl.Version.{verify_exedit_version}

-- The names of the filter, in the code pages of the three versions.
abbrev pub exedit_name : Chars
exedit_name = 0x8a ∷ 0x67 ∷ 0x92 ∷ 0xa3 ∷ 0x95 ∷ 0xd2 ∷ 0x8f ∷ 0x57 ∷ []

abbrev pub zhcn_patched_exedit_name : Chars
zhcn_patched_exedit_name = 0xc0 ∷ 0xa9 ∷ 0xd5 ∷ 0xb9 ∷ 0xb1 ∷ 0xe0 ∷ 0xbc ∷ 0xad ∷ []

abbrev pub en_patched_exedit_name : Chars
en_patched_exedit_name = codes "Advanced Editing"

-- `value & bit`, for one bit.
unfoldable pub has_bit : ℕ → ℕ → Bool
has_bit value bit = (value / bit) % 2 == 1

unfoldable pub patched_of : Chars → Option Patched
patched_of name =
    if same_text name exedit_name
    then some patched_default
    else if same_text name zhcn_patched_exedit_name
    then some patched_zh_cn
    else if same_text name en_patched_exedit_name
    then some patched_en
    else none

-- Which of the three a filter is, if it is there.
unfoldable pub recognise : Option Filter → Option (Filter × Patched)
recognise none = none
recognise (some p) =
    if has_bit p.flag 0x200000
    then none
    else elim (patched_of p.name) [ none ↦ none | some patched ↦ some (p, patched) ]

module _ {W : Type 0} (lib : Ovstr W) (app : Exfunc W) (sys : System W) where
  -- The loop over the filters, with `n` of them left.
  unfoldable pub find_filter : ℕ → ℕ → M (Plugin W) (Filter × Patched)
  find_filter zero i t = (err (ptk 102), t)
  find_filter (suc n) i t =
      let later = find_filter n (suc i) t in
      elim (recognise (app.get_filterp i t.world)) [ some found ↦ (ok found, t) | none ↦ later ]

  unfoldable pub find_exedit_filter : M (Plugin W) (Filter × Patched)
  find_exedit_filter = aviutl_get_sys_info app sys true >>= λ si. find_filter si.filter_n 0

  unfoldable pub verify_aviutl_version : M (Plugin W) (Unit {0})
  verify_aviutl_version = do
    si ← aviutl_get_sys_info app sys true
    if ltb si.build 10000 then raise (ptk 101) else pure tt

  -- The path of a file beside the plug-in's module.
  unfoldable pub beside : Chars → M (Plugin W) Chars
  beside file = do
    path ← outside sys.get_module_file_name
    fnpos ← outside (sys.extract_file_name path)
    outside (lib.scatm (take fnpos path) (file ∷ []))

  unfoldable pub verify_installation : M (Plugin W) (Unit {0})
  verify_installation = do
    path ← beside (codes "exedit.auf")
    found ← outside (sys.file_exists path)
    if found then pure tt else raise (ptk 103)

  unfoldable pub load_lua51 : M (Plugin W) ℕ
  load_lua51 = do
    path ← beside (codes "lua51.dll")
    lua51 ← answer (sys.load_library path)
    or_raise lua51 (ptk 104)

  -- What is found before the globals are set.
  pub record Found : Type 0 where
    pub exedit_fp : Option Filter
    pub patched : Patched
    pub lua51 : Option ℕ

  abbrev pub not_searched : Found
  not_searched = record { exedit_fp = none; patched = patched_default; lua51 = none }

  unfoldable pub when : Bool → M (Plugin W) (Unit {0}) → M (Plugin W) (Unit {0})
  when b m = if b then m else pure tt

  unfoldable pub preload : Bool → M (Plugin W) (Option ℕ)
  preload b = if b then (load_lua51 >>= λ m. pure (some m)) else pure none

  -- The branch of `aviutl_init_options_find_exedit`; `beside_exedit` and `lua` are its two options.
  unfoldable pub find_exedit : (beside_exedit lua : Bool) → M (Plugin W) Found
  find_exedit beside_exedit lua = do
    found ← find_exedit_filter
    verify_exedit_version found.0.information
    when beside_exedit verify_installation
    m ← preload lua
    pure (record { exedit_fp = some found.0; patched = found.1; lua51 = m })

  unfoldable pub set_globals : Found → M (Plugin W) (Unit {0})
  set_globals f t = (
    ok tt,
    record t {
      exedit_fp = f.exedit_fp;
      exedit_patch = f.patched;
      lua51 = f.lua51;
      initialized = true;
    },
  )

  -- `aviutl_init`. Nothing is done between the loading of the
  -- module and the assignments, so the cleanup finds none to free.
  unfoldable pub aviutl_init : ℕ → M (Plugin W) (Unit {0})
  aviutl_init options = do
    verify_aviutl_version
    f ←
        (if has_bit options 1
          then find_exedit (has_bit options 2) (has_bit options 4)
          else pure not_searched)
    set_globals f

  unfoldable pub free_module : Option ℕ → W → W
  free_module none w = w
  free_module (some m) w = sys.free_library m w

  unfoldable pub aviutl_exit : M (Plugin W) (Unit {0})
  aviutl_exit t =
      (ok tt, record t { lua51 = none; initialized = false; world = free_module t.lua51 t.world })

unfoldable pub aviutl_set_pointers : {W : Type 0} → Option Filter → Option ℕ → Plugin W → Plugin W
aviutl_set_pointers fp editp t = record t { fp = fp; editp = editp }
