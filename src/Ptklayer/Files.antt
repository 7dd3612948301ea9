-- ===== src/Ptklayer/Files.antt =====
-- `show_save_dialog`, `write_to_file` and `file_path_to_default_save_name` of src/c/ptklayer.c, and
-- the calls of Windows and of ovutil under them.
use aviutl_psdtoolkit.Base.{
  ℕ, ◌==◌, if◌then◌else◌, [], ◌∷◌, Option, none, some, length, take, drop, get_elem?, Chars, codes,
  M, ◌>>=◌, ◌>>◌, pure, raise, finally, Result, null_pointer, invalid_argument, overrun, abort,
  Wstr, Ovstr,
}
use aviutl_psdtoolkit.Ptklayer.Types.{Item, Ptklayer, wcschr}
use aviutl_psdtoolkit.Ptklayer.Names.{ptklayer_get_readable_group_name}

-- `get_save_file_name owner title dir default` is the path in the buffer after a call that the user
-- does not cancel.
pub record Files (W : Type 0) : Type 0 where
  pub get_module_file_name : M W Chars
  pub extract_file_name : Chars → M W ℕ
  pub extract_file_extension : Chars → M W ℕ
  pub sanitize : Chars → M W Chars
  pub get_save_file_name : (owner : ℕ) (title dir default : Chars) → W → Option Chars × W
  pub to_cp : ℕ → Chars → M W Chars
  pub create_file : Chars → M W ℕ
  pub write_file : ℕ → Chars → M W (Unit {0})
  pub close_handle : ℕ → W → W
  pub disable_family_windows : ℕ → M W ℕ
  pub restore_disabled_family_windows : ℕ → W → W
  pub set_window_text : ℕ → Chars → M W (Unit {0})

abbrev pub cp_acp : ℕ
cp_acp = 0

abbrev pub cp_utf8 : ℕ
cp_utf8 = 65001

abbrev pub bom : Chars
bom = 0xef ∷ 0xbb ∷ 0xbf ∷ []

module _ {W : Type 0} (win : Files W) where
  -- The code between the opening of the file and its closing.
  unfoldable pub write_contents : ℕ → Chars → ℕ → M W (Unit {0})
  write_contents code_page bytes h =
      (if code_page == cp_utf8 then win.write_file h bom else pure tt) >> win.write_file h bytes

  unfoldable pub closed : ℕ → Result (Unit {0}) → W → Result (Unit {0}) × W
  closed h r w = (r, win.close_handle h w)

  unfoldable pub write_to_file : (path content : Chars) (code_page : ℕ) → M W (Unit {0})
  write_to_file path content code_page = do
    tmp ← win.to_cp code_page content
    h ← win.create_file path
    finally (write_contents code_page tmp h) (closed h)

module _ {W : Type 0} (lib : Ovstr W) (win : Files W) where
  unfoldable pub or_abort : Option Chars → M W Chars
  or_abort none = raise abort
  or_abort (some path) = lib.scpy path

  unfoldable pub show_save_dialog : (owner : ℕ) (title default_filename : Chars) → M W Chars
  show_save_dialog owner title default_filename = do
    lib.sgrow 4096
    tmp ← lib.scpy default_filename
    dir ← win.get_module_file_name
    pos ← win.extract_file_name dir
    dir ← lib.scatm (take pos dir) (codes "script" ∷ [])
    λ w. let (path, w') = win.get_save_file_name owner title dir tmp w in or_abort path w'

  -- `sncpy(&tmp, pi->file_path.ptr, p ? p - pi->file_path.ptr : pi->file_path.len)`. A layer that
  -- has been parsed has a path that is not null.
  unfoldable pub before_bar : Wstr → M W Chars
  before_bar none = raise overrun
  before_bar (some path) =
      lib.sncpy path (elim (wcschr path b'|') [ none ↦ length path | some p ↦ p ])

  unfoldable pub default_save_name : Ptklayer → ℕ → M W Chars
  default_save_name pi idx = do
    tmp ← before_bar pi.file_path
    fnpos ← win.extract_file_name tmp
    extpos ← win.extract_file_extension tmp
    tmp2 ← ptklayer_get_readable_group_name lib (some pi) idx (some none)
    tmp2 ← win.sanitize tmp2
    tmp ← lib.scatm (take extpos tmp) (codes "-" ∷ tmp2 ∷ codes ".anm" ∷ [])
    lib.scpy (drop fnpos tmp)

  unfoldable pub name_of_item : Option Item → Option Wstr → M W Chars → M W Chars
  name_of_item none dest f = raise invalid_argument
  name_of_item (some item) none f = raise null_pointer
  name_of_item (some item) (some _) f = f

  unfoldable pub file_path_to_default_save_name : Option Ptklayer → ℕ → Option Wstr → M W Chars
  file_path_to_default_save_name none idx dest = raise invalid_argument
  file_path_to_default_save_name (some pi) idx dest =
      name_of_item (get_elem? pi.items idx) dest (default_save_name pi idx)
