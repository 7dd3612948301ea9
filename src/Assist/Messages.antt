-- ===== src/Assist/Messages.antt =====
-- The messages that the plug-in's window gets, in src/c/assist.c: those of AviUtl, and those that
-- the thread of src/c/ipc.c posts for the renderer.
use aviutl_psdtoolkit.Base.{
  ℕ, Bool, false, [], ◌∷◌, Chars, codes, M, ◌>>=◌, Error, Result, ok, err, Ovstr,
}
use aviutl_psdtoolkit.Ipc.Requests.{ImageState, FaviewSlider, LayerNames}
use aviutl_psdtoolkit.Assist.Lifetime.{Globals, Parts}
use aviutl_psdtoolkit.Assist.Project.{wndproc_command, reset, wndproc_update_current_project_path}

-- The block of a posted message is what it holds: the parameters, or the error in their place.
pub data Message : Type 0 where
  filter_initialized : Message
  file_opened : Message
  file_closed : Message
  command : (wparam : ℕ) → Message
  path_outdated : Message
  image_state_received : Result ImageState → Message
  faview_slider_received : Result FaviewSlider → Message
  layer_names_received : Result LayerNames → Message
  another : Message

unfoldable pub carried : {P : Type 0} → P → Result (Unit {0}) → Result P
carried params (ok _) = ok params
carried params (err e) = err e

-- The callbacks, on the allocator and the queue of the window.
module _ {W : Type 0} (mem : M W (Unit {0})) (post_message : Message → W → W) where
  unfoldable pub ipc_on_update_editing_image_state_callback : ImageState → W → W
  ipc_on_update_editing_image_state_callback params w =
      let (r, w') = mem w in post_message (image_state_received (carried params r)) w'

  unfoldable pub ipc_on_export_faview_slider_callback : FaviewSlider → W → W
  ipc_on_export_faview_slider_callback params w =
      let (r, w') = mem w in post_message (faview_slider_received (carried params r)) w'

  unfoldable pub ipc_on_export_layer_names_callback : LayerNames → W → W
  ipc_on_export_layer_names_callback params w =
      let (r, w') = mem w in post_message (layer_names_received (carried params r)) w'

-- The handlers of the renderer's messages (Receive and Export), and the label in AviUtl's window.
pub record Receivers (W : Type 0) : Type 0 where
  pub receive_image_state : Result ImageState → W → W
  pub receive_faview_slider : Result FaviewSlider → W → W
  pub receive_layer_names : Result LayerNames → W → W
  pub create_label : Chars → W → W

-- A call beyond the globals that gives no result.
unfoldable pub outside : {W : Type 0} → (W → W) → Globals W → Globals W
outside f g = record g { world = f g.world }

module _ {W : Type 0} (lib : Ovstr W) (parts : Parts W) (receivers : Receivers W) where
  unfoldable pub dispatch : Message → Globals W → Bool × Globals W
  dispatch filter_initialized g =
      (false, outside (receivers.create_label (codes "説明書にあるチュートリアルを読んでください。")) g)
  dispatch file_opened g = (false, reset lib parts g)
  dispatch file_closed g = (false, reset lib parts g)
  dispatch (command wparam) g = wndproc_command lib parts wparam g
  dispatch path_outdated g = (false, wndproc_update_current_project_path lib parts g)
  dispatch (image_state_received r) g = (false, outside (receivers.receive_image_state r) g)
  dispatch (faview_slider_received r) g = (false, outside (receivers.receive_faview_slider r) g)
  dispatch (layer_names_received r) g = (false, outside (receivers.receive_layer_names r) g)
  dispatch another g = (false, g)

  unfoldable pub wndproc : Message → Globals W → Bool × Globals W
  wndproc message g = dispatch message (outside parts.aviutl_set_pointers g)

-- `error_reporter`: the text for the debugger.
module _ {W : Type 0} (lib : Ovstr W) (error_to_string : Error → M W Chars)
    (output_debug_string : Chars → W → W) where
  unfoldable pub report_text : (message position : Chars) → Error → M W Chars
  report_text message position e = do
    tmp ← error_to_string e
    lib.scpym (message ∷ position ∷ tmp ∷ [])

  unfoldable pub reported : Result Chars × W → W
  reported (ok msg, w) = output_debug_string msg w
  reported (err e, w) = output_debug_string (codes "failed to report error") w

  -- The position is the text "(reported at ...)" in its two line breaks.
  unfoldable pub error_reporter : (message position : Chars) → Error → W → W
  error_reporter message position e w = reported (report_text message position e w)
