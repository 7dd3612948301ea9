-- ===== src/Assist/ExportTests.antt =====
-- A slider and its menu, for src/c/assist.c.
use aviutl_psdtoolkit.Base.{
  ℕ, [], ◌∷◌, none, some, Chars, codes, concat, pure, pure-Meets, Meets, NoError, ◌≡◌, refl,
}
use aviutl_psdtoolkit.Plain.{plain, plain-laws}
use aviutl_psdtoolkit.Ptklayer.Types.{Ptklayer, is_faview, wcsrchr, later}
use aviutl_psdtoolkit.Ptklayer.Names.{
  ptklayer_get_readable_item_name, ptklayer_get_readable_group_name, with_item, at_item, item_name,
  group_name, slider_name_to_readable, behind_last,
}
use aviutl_psdtoolkit.Ptklayer.Clipboard.{Clipboard}
use aviutl_psdtoolkit.Ptklayer.Files.{Files}
use aviutl_psdtoolkit.Find.Dialog.{MultiParameterDialog}
use aviutl_psdtoolkit.Assist.Export.{slider_menu, layer_menu}
use aviutl_psdtoolkit.Assist.Menu.{caption_of, slider_copy, slider_export, layer_copy, layer_export}
use aviutl_psdtoolkit.Assist.Exported.{Offered, slider_menu-Offered, layer_menu-Offered}

abbrev quiet_clipboard : Clipboard (Unit {0})
quiet_clipboard = record {
  open_clipboard = λ o. pure tt;
  global_alloc = λ n. pure 1;
  global_lock = pure;
  write_memory = λ p s w. w;
  global_unlock = λ p. pure tt;
  empty_clipboard = pure tt;
  set_clipboard_data = λ h. pure tt;
  global_free = λ h. pure tt;
  close_clipboard = pure tt;
  report = λ e w. w;
}

abbrev quiet_files : Files (Unit {0})
quiet_files = record {
  get_module_file_name = pure [];
  extract_file_name = λ s. pure 0;
  extract_file_extension = λ s. pure 0;
  sanitize = pure;
  get_save_file_name = λ owner title dir default w. (none, w);
  to_cp = λ cp s. pure s;
  create_file = λ path. pure 1;
  write_file = λ h s. pure tt;
  close_handle = λ h w. w;
  disable_family_windows = λ w. pure 0;
  restore_disabled_family_windows = λ n w. w;
  set_window_text = λ w s. pure tt;
}

abbrev slider : Ptklayer
slider = record {
  items = record { name = codes "eye"; value = codes "1" } ∷ [];
  slider_name = some (codes "face\\eyes");
  file_path = some (codes "a.psd");
}

-- The parameters 2 and 3, with their edit controls.
abbrev parameters : MultiParameterDialog
parameters = record { dialog = 1; labels = 2 ∷ 3 ∷ []; edits = 12 ∷ 13 ∷ [] }

abbrev label_text : ℕ → Chars
label_text h = codes "X"

slider_item_name :
    Meets NoError
      (λ n. n ≡ codes "eye")
      (ptklayer_get_readable_item_name plain (some slider) 0 (some none))
unfolding ptklayer_get_readable_item_name with_item at_item item_name is_faview
slider_item_name = record { run = λ w. refl }

slider_group_name :
    Meets NoError
      (λ n. n ≡ codes "eyes")
      (ptklayer_get_readable_group_name plain (some slider) 0 (some none))
unfolding ptklayer_get_readable_group_name with_item at_item group_name slider_name_to_readable
    behind_last wcsrchr later
slider_group_name = record { run = λ w. refl }

slider_menu-Offered_example :
    Meets NoError
      (Offered plain quiet_clipboard quiet_files
        (λ n. [])
        slider
        0
        7
        8
        parameters
        (caption_of
          (codes "eye")
          (concat (slider_copy (codes "eyes")))
          (concat (slider_export (codes "eyes")))
          label_text
          (2 ∷ 3 ∷ [])))
      (slider_menu plain (λ h. pure (label_text h)) slider 0 (2 ∷ 3 ∷ []))
slider_menu-Offered_example =
    slider_menu-Offered plain quiet_clipboard quiet_files (λ n. []) slider 0 7 8 parameters
      plain-laws (λ h. pure (label_text h)) label_text (λ h. pure-Meets (label_text h) refl)
      (codes "eye") (codes "eyes") slider_item_name slider_group_name

layer_menu-Offered_example :
    Meets NoError
      (Offered plain quiet_clipboard quiet_files
        (λ n. [])
        slider
        0
        7
        8
        parameters
        (caption_of
          (codes "eye")
          (concat (layer_copy (codes "eye")))
          (concat (layer_export (codes "eye")))
          label_text
          (2 ∷ 3 ∷ [])))
      (layer_menu plain (λ h. pure (label_text h)) slider 0 (2 ∷ 3 ∷ []))
layer_menu-Offered_example =
    layer_menu-Offered plain quiet_clipboard quiet_files (λ n. []) slider 0 7 8 parameters
      plain-laws (λ h. pure (label_text h)) label_text (λ h. pure-Meets (label_text h) refl)
      (codes "eye") slider_item_name
