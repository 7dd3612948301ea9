-- ===== src/Assist/Export.antt =====
-- The handlers of src/c/assist.c for the lists that the renderer exports: the menu over its window,
-- and what is done with the user's choice.
use aviutl_psdtoolkit.Base.{
  ℕ, ◌+◌, ◌-◌, ◌&&◌, ltb, leb, List, [], ◌∷◌, ◌++◌, Option, none, some, ◌==◌, if◌then◌else◌, length,
  get_elem?, Chars, codes, ℤ, M, ◌>>=◌, ◌>>◌, pure, raise, finally, overrun, not_found, Error,
  Result, ok, err, Ovstr,
}
use aviutl_psdtoolkit.Ptklayer.Types.{Ptklayer, empty_layer, Convert}
use aviutl_psdtoolkit.Ptklayer.Parse.{ptklayer_parse}
use aviutl_psdtoolkit.Ptklayer.Names.{
  ptklayer_get_readable_item_name, ptklayer_get_readable_group_name,
}
use aviutl_psdtoolkit.Ptklayer.Clipboard.{Clipboard}
use aviutl_psdtoolkit.Ptklayer.Files.{Files}
use aviutl_psdtoolkit.Ptklayer.Commands.{
  ptklayer_send_item, ptklayer_copy_to_clipboard_item, ptklayer_copy_to_clipboard_siblings,
  ptklayer_save_to_file_siblings,
}
use aviutl_psdtoolkit.Find.Search.{Windows}
use aviutl_psdtoolkit.Find.Dialog.{
  Control, Layout, MultiParameterDialog, find_exedit_multi_parameter_dialog,
}
use aviutl_psdtoolkit.Popupmenu.Show.{PopupMenuItem, Menus, popup_menu_show}
use aviutl_psdtoolkit.Ipc.Requests.{FaviewSlider, LayerNames}

abbrev pub no_dialog : MultiParameterDialog
no_dialog = record { dialog = 0; labels = []; edits = [] }

abbrev pub separating : PopupMenuItem
separating = record { caption = none; id = 0 }

abbrev pub entry : Chars → ℕ → PopupMenuItem
entry caption id = record { caption = some caption; id = id }

-- `err_not_found` is no failure, and leaves the dialog as it was initialised.
unfoldable pub or_no_dialog : {W : Type 0} → M W MultiParameterDialog → M W MultiParameterDialog
or_no_dialog m =
    finally m
      (λ r w. elim r [ ok d ↦ (ok d, w) | err not_found ↦ (ok no_dialog, w) | err e ↦ (err e, w) ])

module _ {W : Type 0} (lib : Ovstr W) (get_window_text : ℕ → M W Chars) where
  unfoldable pub add : List PopupMenuItem → PopupMenuItem → M W (List PopupMenuItem)
  add pm pmi = do lib.apush; pure (pm ++ pmi ∷ [])

  unfoldable pub add_item : List PopupMenuItem → ℕ → List Chars → M W (List PopupMenuItem)
  add_item pm id caption = lib.scpym caption >>= λ tmp. add pm (entry tmp id)

  -- The loop over the labels, from number `i` on.
  unfoldable pub add_labels : Chars → ℕ → List ℕ → List PopupMenuItem → M W (List PopupMenuItem)
  add_labels name i [] pm = pure pm
  add_labels name i (label ∷ labels) pm = do
    tmp2 ← get_window_text label
    pm ← add_item pm (2000 + i) (codes "\"" ∷ name ∷ codes "\" を「" ∷ tmp2 ∷ codes "」に割り当て" ∷ [])
    add_labels name (i + 1) labels pm

  -- What both handlers put into the menu first.
  unfoldable pub first_items : Chars → List ℕ → M W (List PopupMenuItem)
  first_items name labels = do
    pm ← add_item [] 1000 (codes "\"" ∷ name ∷ codes "\" をクリップボードにコピー" ∷ [])
    pm ← add pm separating
    pm ← add_labels name 0 labels pm
    if length labels == 0 then pure pm else add pm separating

  unfoldable pub slider_menu : Ptklayer → ℕ → List ℕ → M W (List PopupMenuItem)
  slider_menu pi idx labels = do
    name ← ptklayer_get_readable_item_name lib (some pi) idx (some none)
    pm ← first_items name labels
    name ← ptklayer_get_readable_group_name lib (some pi) idx (some none)
    pm ← add_item pm 1001 (codes "スライダー \"" ∷ name ∷ codes "\" 全体をクリップボードにコピー" ∷ [])
    add_item pm 1002 (codes "スライダー \"" ∷ name ∷ codes "\" 全体をファイルにエクスポート" ∷ [])

  unfoldable pub layer_menu : Ptklayer → ℕ → List ℕ → M W (List PopupMenuItem)
  layer_menu pi idx labels = do
    name ← ptklayer_get_readable_item_name lib (some pi) idx (some none)
    pm ← first_items name labels
    pm ← add_item pm 1001 (codes "\"" ∷ name ∷ codes "\" と同じ階層のレイヤー全てをクリップボードにコピー" ∷ [])
    add_item pm 1002 (codes "\"" ∷ name ∷ codes "\" と同じ階層のレイヤー全てをファイルにエクスポート" ∷ [])

module _ {W : Type 0} (lib : Ovstr W) (clip : Clipboard W) (files : Files W)
    (ov_utoa : ℕ → Chars) where
  unfoldable pub send_to : Ptklayer → ℕ → Option ℕ → M W (Unit {0})
  send_to pi idx none = raise overrun
  send_to pi idx (some edit) = ptklayer_send_item lib clip files ov_utoa (some pi) edit idx

  -- The `switch` on the id that was selected. `ptk_window` is `g_ptk_window`.
  unfoldable pub perform :
      Ptklayer → (idx window ptk_window : ℕ) → MultiParameterDialog → ℕ → M W (Unit {0})
  perform pi idx window ptk_window mpd selected =
      if selected == 0
      then pure tt
      else if selected == 1000
      then ptklayer_copy_to_clipboard_item lib clip files ov_utoa (some pi) window idx
      else if selected == 1001
      then ptklayer_copy_to_clipboard_siblings lib clip files ov_utoa (some pi) window idx
      else if selected == 1002
      then ptklayer_save_to_file_siblings lib clip files ov_utoa (some pi) ptk_window idx
      else if leb 2000 selected && ltb (selected - 2000) (length mpd.labels)
      then send_to pi idx (get_elem? mpd.edits (selected - 2000))
      else pure tt

-- What the handlers use of the other files, of Windows and of the C library. `show_error` is
-- `ipc_friendly_error_message_box` with the handler's message.
pub record Surroundings (W : Type 0) : Type 0 where
  pub lib : Ovstr W
  pub conv : Convert W
  pub clip : Clipboard W
  pub files : Files W
  pub menus : Menus W
  pub ov_utoa : ℕ → Chars
  pub screen : Layout
  pub qsort : (Control → Control → ℤ) → List Control → List Control
  pub me : ℕ
  pub desktop : Windows
  pub get_window_text : ℕ → M W Chars
  pub show_error : Error → W → W

module _ {W : Type 0} (s : Surroundings W) (window ptk_window : ℕ) where
  unfoldable pub find_parameters : M W MultiParameterDialog
  find_parameters =
      or_no_dialog (find_exedit_multi_parameter_dialog s.screen s.lib s.qsort s.me s.desktop)

  unfoldable pub offer : Ptklayer → ℕ → (List ℕ → M W (List PopupMenuItem)) → M W (Unit {0})
  offer pi idx menu = do
    mpd ← find_parameters
    pm ← menu mpd.labels
    selected ← popup_menu_show s.menus ptk_window pm
    perform s.lib s.clip s.files s.ov_utoa pi idx window ptk_window mpd selected

  -- The handlers up to the cleanup, on the message or the error in its place.
  unfoldable pub export_faview_slider : Result FaviewSlider → M W (Unit {0})
  export_faview_slider (err e) = raise e
  export_faview_slider (ok params) = do
    pi ←
        ptklayer_parse s.lib s.conv (some params.names_utf8) (some params.values_utf8)
          (some params.slider_name_utf8) params.file_path_utf8 (some empty_layer)
    offer pi params.selected_index (slider_menu s.lib s.get_window_text pi params.selected_index)

  unfoldable pub export_layer_names : Result LayerNames → M W (Unit {0})
  export_layer_names (err e) = raise e
  export_layer_names (ok params) = do
    pi ←
        ptklayer_parse s.lib s.conv (some params.names_utf8) (some params.values_utf8) none
          params.file_path_utf8 (some empty_layer)
    offer pi params.selected_index (layer_menu s.lib s.get_window_text pi params.selected_index)

  unfoldable pub shown_error : Result (Unit {0}) × W → W
  shown_error (ok _, w) = w
  shown_error (err e, w) = s.show_error e w

  unfoldable pub wndproc_receive_export_faview_slider : Result FaviewSlider → W → W
  wndproc_receive_export_faview_slider params w = shown_error (export_faview_slider params w)

  unfoldable pub wndproc_receive_export_layer_names : Result LayerNames → W → W
  wndproc_receive_export_layer_names params w = shown_error (export_layer_names params w)
