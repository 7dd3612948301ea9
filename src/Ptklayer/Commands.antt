-- ===== src/Ptklayer/Commands.antt =====
-- The commands of src/c/ptklayer.c on an item, and on the items of its group.
use aviutl_psdtoolkit.Base.{
  ℕ, ◌-◌, ◌+◌, Bool, true, false, ◌&&◌, leb, ltb, ◌==◌, if◌then◌else◌, [], ◌∷◌, Option, none, some,
  get_elem?, length, drop, Chars, codes, M, ◌>>=◌, pure, raise, abort, Result, ok, err,
  invalid_argument, overrun, Ovstr,
}
use aviutl_psdtoolkit.Ptklayer.Types.{Item, Ptklayer}
use aviutl_psdtoolkit.Ptklayer.Export.{build_siblings_csv, build_siblings_script}
use aviutl_psdtoolkit.Ptklayer.Clipboard.{Clipboard, copy_to_clipboard}
use aviutl_psdtoolkit.Ptklayer.Files.{
  Files, cp_acp, cp_utf8, show_save_dialog, write_to_file, file_path_to_default_save_name,
}

-- A letter of the C locale in lower case.
unfoldable pub lower : ℕ → ℕ
lower c = if leb b'A' c && leb c b'Z' then c + 32 else c

-- `wcsicmp(a, b) == 0`
unfoldable pub wcsicmp_eq : Chars → Chars → Bool
unfolding lower
wcsicmp_eq [] [] = true
wcsicmp_eq [] (d ∷ b) = d == 0
wcsicmp_eq (c ∷ a) [] = c == 0
wcsicmp_eq (c ∷ a) (d ∷ b) =
    let rest = wcsicmp_eq a b in
    if lower c == lower d then (if c == 0 then true else rest) else false

module _ {W : Type 0} where
  -- `!pi || idx >= pi->len`, and the item.
  unfoldable pub checked : {A : Type 0} → Option Item → (Item → M W A) → M W A
  checked none f = raise invalid_argument
  checked (some item) f = f item

  unfoldable pub on_item : {A : Type 0} → Option Ptklayer → ℕ → (Ptklayer → Item → M W A) → M W A
  on_item none idx f = raise invalid_argument
  on_item (some pi) idx f = checked (get_elem? pi.items idx) (f pi)

  -- `err_abort` is no failure.
  unfoldable pub unless_aborted : Result Chars → (Chars → M W (Unit {0})) → M W (Unit {0})
  unless_aborted (ok path) f = f path
  unless_aborted (err abort) f = pure tt
  unless_aborted (err e) f = raise e

module _ {W : Type 0} (lib : Ovstr W) (clip : Clipboard W) (win : Files W)
    (ov_utoa : ℕ → Chars) where
  unfoldable pub ptklayer_send_item : Option Ptklayer → ℕ → ℕ → M W (Unit {0})
  ptklayer_send_item pi target idx =
      on_item pi idx (λ _ item. win.set_window_text target item.value)

  unfoldable pub ptklayer_copy_to_clipboard_item : Option Ptklayer → ℕ → ℕ → M W (Unit {0})
  ptklayer_copy_to_clipboard_item pi owner idx =
      on_item pi idx (λ _ item. copy_to_clipboard clip owner (some (some item.value)))

  unfoldable pub ptklayer_copy_to_clipboard_siblings : Option Ptklayer → ℕ → ℕ → M W (Unit {0})
  ptklayer_copy_to_clipboard_siblings pi owner idx = on_item pi idx (λ p _.
      build_siblings_script lib ov_utoa p idx >>= λ tmp.
      copy_to_clipboard clip owner (some (some tmp)))

  -- The text is written at `path.ptr + path.len - 4`, which must lie in the string.
  unfoldable pub is_csv : Chars → M W Bool
  is_csv path =
      if ltb (length path) 4
      then raise overrun
      else pure (wcsicmp_eq (drop (length path - 4) path) (codes ".csv"))

  unfoldable pub save_as : Ptklayer → ℕ → Chars → M W (Unit {0})
  save_as pi idx path = is_csv path >>= λ csv.
      if csv
      then (build_siblings_csv lib pi idx >>= λ tmp. write_to_file win path tmp cp_utf8)
      else (build_siblings_script lib ov_utoa pi idx >>= λ tmp. write_to_file win path tmp cp_acp)

  unfoldable pub ptklayer_save_to_file_siblings : Option Ptklayer → ℕ → ℕ → M W (Unit {0})
  ptklayer_save_to_file_siblings pi window idx = on_item pi idx (λ p _.
      file_path_to_default_save_name lib win (some p) idx (some none) >>= λ tmp.
      win.disable_family_windows window >>= λ disabled w.
      let (r, w') = show_save_dialog lib win window (codes "ファイルに保存") tmp w in
      unless_aborted r (save_as p idx) (win.restore_disabled_family_windows disabled w'))
