-- ===== src/Ptklayer/DesktopTests.antt =====
-- A clipboard and a disk as plain data, for the code of src/c/ptklayer.c that uses them.
use aviutl_psdtoolkit.Base.{
  ℕ, ◌+◌, ◌-◌, true, false, [], ◌++◌, none, some, ◌==◌, if◌then◌else◌, own, Chars, codes, c_str,
  pure, ok, Ends, ◌≡◌, ◌≢◌, ◌⊎◌, refl, arith,
}
use mathlib.Core.Logic.{ite, if_pos, if_neg}
use mathlib.Core.List.{List-discrete}
use native.Mathlib.Decide.{ℕ_discrete}
use aviutl_psdtoolkit.Ptklayer.Clipboard.{Clipboard, copy_to_clipboard}
use aviutl_psdtoolkit.Ptklayer.Copied.{Desk, overwritten, ClipboardLaws, copy_to_clipboard-Balanced}
use aviutl_psdtoolkit.Ptklayer.Files.{Files, write_to_file, cp_utf8, bom}
use aviutl_psdtoolkit.Ptklayer.Written.{Disk, DiskLaws, write_to_file-Kept}

-- The one block is number 7.
abbrev allocate : ℕ → Desk → Desk
allocate n d = record d {
  size = λ x. if x == 7 then n else d.size x;
  owned = λ x. d.owned x + own (some 7) x;
}

abbrev desktop : Clipboard Desk
desktop = record {
  open_clipboard = λ o d. (ok tt, record d { is_open = true });
  global_alloc = λ n d. (ok 7, allocate n d);
  global_lock = λ h d. (ok h, d);
  write_memory = overwritten;
  global_unlock = λ p d. (ok tt, d);
  empty_clipboard = λ d. (ok tt, record d { shown = none });
  set_clipboard_data = λ h d. (
    ok tt,
    record d { owned = λ x. d.owned x - own (some h) x; shown = some (c_str (d.memory h)) },
  );
  global_free = λ h d. (ok tt, record d { owned = λ x. d.owned x - own (some h) x });
  close_clipboard = λ d. (ok tt, record d { is_open = false });
  report = λ e d. d;
}

desktop-laws : ClipboardLaws desktop (λ d. d) (λ p. p)
desktop-laws = record {
  open_clipboard_lem = λ o w. refl;
  global_alloc_lem =
      λ n w. record { room = omega arith; owner = λ x. refl; same_open = refl; same_shown = refl };
  global_lock_lem = λ h w. (refl, refl);
  write_memory_lem = λ p s w r. refl;
  global_unlock_lem = λ p w. refl;
  empty_clipboard_lem = λ w. refl;
  set_clipboard_data_lem = λ h w. refl;
  global_free_lem = λ h w. refl;
  close_clipboard_lem = λ w. refl;
  report_lem = λ e w. refl;
}

abbrev clear_desk : Desk
clear_desk = record {
  is_open = false;
  owned = λ x. 0;
  size = λ x. 0;
  memory = λ x. [];
  shown = none;
}

copy_to_clipboard-Balanced_example :
    Ends
      (λ _ d. ((d.is_open ≡ false) × ((x : ℕ) → d.owned x ≡ 0)) × (d.shown ≡ some (codes "eye")))
      (λ _ d.
        ((d.is_open ≡ false) × ((x : ℕ) → d.owned x ≡ 0)) × ((d.shown ≡ none) ⊎ (d.shown ≡ none)))
      (copy_to_clipboard desktop 1 (some (some (codes "eye"))) clear_desk)
copy_to_clipboard-Balanced_example =
    copy_to_clipboard-Balanced desktop (λ d. d) (λ p. p) desktop-laws 1 (some (codes "eye"))
      clear_desk (omega arith) (omega arith) refl

-- The content `s` at `path`.
abbrev stored : Chars → Chars → (Chars → Chars) → Chars → Chars
stored path s files q = ite (List-discrete ℕ_discrete q path) s (files q)

stored_at : (path s : Chars) (files : Chars → Chars) → stored path s files path ≡ s
stored_at path s files = if_pos (List-discrete ℕ_discrete path path) refl s (files path)

stored_off :
    (path s : Chars) (files : Chars → Chars) (q : Chars)
    → q ≢ path
    → stored path s files q ≡ files q
stored_off path s files q n = if_neg (List-discrete ℕ_discrete q path) n s (files q)

-- The one handle is number 5, and every encoding is the text itself.
abbrev shelf_disk : Files Disk
shelf_disk = record {
  get_module_file_name = pure (codes "C:\\a\\b.auf");
  extract_file_name = λ s. pure 5;
  extract_file_extension = λ s. pure 6;
  sanitize = pure;
  get_save_file_name = λ owner title dir default d. (some default, d);
  to_cp = λ cp s. pure s;
  create_file = λ path d. (
    ok 5,
    record {
      opened = λ x. d.opened x + own (some 5) x;
      files = stored path [] d.files;
      target = λ h. path;
    },
  );
  write_file = λ h s d.
      (ok tt, record d { files = stored (d.target h) (d.files (d.target h) ++ s) d.files });
  close_handle = λ h d. record d { opened = λ x. d.opened x - own (some h) x };
  disable_family_windows = λ w. pure 0;
  restore_disabled_family_windows = λ n d. d;
  set_window_text = λ w s. pure tt;
}

same_count : (n : ℕ) → n ≡ n + 0
same_count n = omega arith

shelf_disk-laws : DiskLaws shelf_disk (λ d. d) (λ cp s. s)
shelf_disk-laws = record {
  to_cp_lem = λ cp s w. (refl, refl);
  create_file_lem = λ path w. (
    record {
      holds = stored_at path [] w.files;
      others = stored_off path [] w.files;
      handles = λ x. refl;
    },
    refl,
  );
  write_file_lem = λ h s w. (
    record {
      holds = stored_at _ _ w.files;
      others = stored_off _ _ w.files;
      handles = λ x. same_count (w.opened x);
    },
    refl,
  );
  close_handle_lem = λ h w. refl;
}

abbrev no_files : Disk
no_files = record { opened = λ x. 0; files = λ q. []; target = λ h. [] }

write_to_file-Kept_example :
    Ends
      (λ _ d.
        (((x : ℕ) → d.opened x ≡ 0 + 0) × ((q : Chars) → q ≢ codes "a.csv" → d.files q ≡ []))
        × (d.files (codes "a.csv") ≡ bom ++ codes "eye,1"))
      (λ _ d. ((x : ℕ) → d.opened x ≡ 0 + 0) × ((q : Chars) → q ≢ codes "a.csv" → d.files q ≡ []))
      (write_to_file shelf_disk (codes "a.csv") (codes "eye,1") cp_utf8 no_files)
write_to_file-Kept_example =
    write_to_file-Kept shelf_disk (λ d. d) (λ cp s. s) shelf_disk-laws (codes "a.csv")
      (codes "eye,1") cp_utf8 no_files
