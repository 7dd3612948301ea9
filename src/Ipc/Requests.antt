-- ===== src/Ipc/Requests.antt =====
-- The requests of the renderer that src/c/ipc.c answers.
use Prim.Native.Nat.{bit_or}
use aviutl_psdtoolkit.Base.{
  ℕ, ◌==◌, if◌then◌else◌, Option, none, some, length, Chars, codes, M, ◌>>=◌, ◌>>◌, pure, Ovstr,
}
use aviutl_psdtoolkit.Ipc.State.{World, Win32, run}
use aviutl_psdtoolkit.Ipc.Wire.{u32, from_bytes, fourcc, read, read_string_utf8, write}

pub record ImageState : Type 0 where
  pub file_path_utf8 : Chars
  pub state_utf8 : Chars

pub record FaviewSlider : Type 0 where
  pub file_path_utf8 : Chars
  pub slider_name_utf8 : Chars
  pub names_utf8 : Chars
  pub values_utf8 : Chars
  pub selected_index : ℕ

pub record LayerNames : Type 0 where
  pub file_path_utf8 : Chars
  pub names_utf8 : Chars
  pub values_utf8 : Chars
  pub selected_index : ℕ

-- The functions of `struct ipc_options`, which may be null.
pub record Callbacks (O : Type 0) : Type 0 where
  pub on_update_editing_image_state : Option (ImageState → World O → World O)
  pub on_export_faview_slider : Option (FaviewSlider → World O → World O)
  pub on_export_layer_names : Option (LayerNames → World O → World O)

unfoldable pub notify : {O P : Type 0} → Option (P → World O → World O) → P → M (World O) (Unit {0})
notify none p = pure tt
notify (some f) p = run (f p)

module _ {O : Type 0} (lib : Ovstr (World O)) (win : Win32 O) (on : Callbacks O) where
  unfoldable pub read_image_state : M (World O) ImageState
  read_image_state = do
    file_path ← read_string_utf8 lib win
    state ← read_string_utf8 lib win
    pure (record { file_path_utf8 = file_path; state_utf8 = state })

  unfoldable pub read_request_update_editing_image_state : M (World O) (Unit {0})
  read_request_update_editing_image_state = do
    params ← read_image_state
    notify on.on_update_editing_image_state params
    write lib win (u32 0x80000000)

  unfoldable pub read_faview_slider : M (World O) FaviewSlider
  read_faview_slider = do
    file_path ← read_string_utf8 lib win
    slider_name ← read_string_utf8 lib win
    names ← read_string_utf8 lib win
    values ← read_string_utf8 lib win
    index ← read lib win 4
    pure (record {
      file_path_utf8 = file_path;
      slider_name_utf8 = slider_name;
      names_utf8 = names;
      values_utf8 = values;
      selected_index = from_bytes index;
    })

  unfoldable pub read_request_export_faview_slider : M (World O) (Unit {0})
  read_request_export_faview_slider = do
    params ← read_faview_slider
    notify on.on_export_faview_slider params
    write lib win (u32 0x80000000)

  unfoldable pub read_layer_names : M (World O) LayerNames
  read_layer_names = do
    file_path ← read_string_utf8 lib win
    names ← read_string_utf8 lib win
    values ← read_string_utf8 lib win
    index ← read lib win 4
    pure (record {
      file_path_utf8 = file_path;
      names_utf8 = names;
      values_utf8 = values;
      selected_index = from_bytes index;
    })

  unfoldable pub read_request_export_layer_names : M (World O) (Unit {0})
  read_request_export_layer_names = do
    params ← read_layer_names
    notify on.on_export_layer_names params
    write lib win (u32 0x80000000)

  unfoldable pub read_request_unknown_command : M (World O) (Unit {0})
  read_request_unknown_command = do
    let result = codes "invalid request command"
    write lib win (u32 (bit_or (length result) 0x80000000))
    write lib win result

  unfoldable pub read_request : ℕ → M (World O) (Unit {0})
  read_request id =
      if id == fourcc b'E' b'D' b'I' b'S'
      then read_request_update_editing_image_state
      else if id == fourcc b'E' b'X' b'F' b'S'
      then read_request_export_faview_slider
      else if id == fourcc b'E' b'X' b'L' b'N'
      then read_request_export_layer_names
      else read_request_unknown_command
