-- ===== src/Ipc/Serve.antt =====
-- How the reading thread of src/c/ipc.c serves a request.
use aviutl_psdtoolkit.Base.{
  ◌<◌, ◌^◌, ◌++◌, Option, none, some, Chars, ◌>>=◌, Error, Ovstr, From, >>=-From, weaken-From, ◌≡◌,
  refl, ◌∙◌,
}
use aviutl_psdtoolkit.Ptklayer.Types.{Convert}
use aviutl_psdtoolkit.Ipc.State.{World, Win32}
use aviutl_psdtoolkit.Ipc.Wire.{u32, fourcc, write}
use aviutl_psdtoolkit.Ipc.Requests.{
  Callbacks, ImageState, FaviewSlider, LayerNames, notify, read_request,
  read_request_update_editing_image_state, read_request_export_faview_slider,
  read_request_export_layer_names,
}
use aviutl_psdtoolkit.Ipc.Worker.{read_message}
use aviutl_psdtoolkit.Ipc.Transfer.{PipeLaws, write-From}
use aviutl_psdtoolkit.Ipc.Messages.{
  string, Fits, Gives, after_u32, read_image_state-Gives, read_faview_slider-Gives,
  read_layer_names-Gives,
}

-- What a callback does, if there is one.
abbrev pub notified : {O P : Type 0} → Option (P → World O → World O) → P → World O → World O
notified none p w = w
notified (some f) p w = f p w

notify-notified :
    {O P : Type 0} {R : Error → World O → Type 0} (f : Option (P → World O → World O)) (p : P)
    (w : World O)
    → From w (λ _ w'. w' ≡ notified f p w) R (notify f p)
unfolding notify
notify-notified none p w = record { ends = refl }
notify-notified (some f) p w = record { ends = refl }

module _ {O : Type 0} (lib : Ovstr (World O)) (win : Win32 O) (pending sent : World O → Chars)
    {E : Error → Type 0} (laws : PipeLaws lib win pending sent E) where
  -- The request was read whole, the callback was called with it, and the answer was sent.
  abbrev pub Served :
      {P : Type 0} → Option (P → World O → World O) → P → World O → Chars → World O → Type 0
  Served f p w rest w' =
      (w1 : World O) × (pending w1 ≡ rest)
      × (sent w1 ≡ sent w)
      × (w1.ipc ≡ w.ipc)
      × (pending w' ≡ pending (notified f p w1))
      × (sent w' ≡ sent (notified f p w1) ++ u32 0x80000000)

  answer :
      {P : Type 0} (f : Option (P → World O → World O)) (p q : P) (w w1 : World O) (rest : Chars)
      → Gives lib win pending sent laws w rest p q w1
      → From w1
          (λ _. Served f p w rest)
          (λ e _. E e)
          (notify f q >>= λ _. write lib win (u32 0x80000000))
  answer f p q w w1 rest g = >>=-From (notify-notified f q w1) λ _ w2 n.
      rw (n, g.0)
        (weaken-From (write-From lib win pending sent laws (u32 0x80000000) (notified f p w1))
          λ _ w3 s. (w1, g.1, g.2, g.3, s.1, s.0))

  module _ (conv : Convert (World O)) (on : Callbacks O) where
    -- When a successful ReadFile or WriteFile transfers at least one byte and at most what is
    -- asked for, and the string library keeps the pipes: if EDIS and the file path and the state
    -- as strings shorter than 2^32 - 1 come next, one round of the reading thread takes exactly
    -- those bytes, calls on_update_editing_image_state with them if it is there, and then sends
    -- the answer 0x80000000, or the call ends in an error of the system or the string library.
    pub read_message-image_state :
        (p : ImageState) (rest : Chars) (w : World O)
        → Fits p.file_path_utf8
        → Fits p.state_utf8
        → pending w
          ≡ u32 (fourcc b'E' b'D' b'I' b'S')
            ++ (string p.file_path_utf8 ++ (string p.state_utf8 ++ rest))
        → From w
            (λ _. Served on.on_update_editing_image_state p w rest)
            (λ e _. E e)
            (read_message lib win conv on)
    unfolding read_message read_request read_request_update_editing_image_state
    read_message-image_state p rest w h k e =
        after_u32 lib win pending sent laws _ (fourcc b'E' b'D' b'I' b'S') _ w e λ w1 g.
          >>=-From (read_image_state-Gives lib win pending sent laws on p rest w1 h k g.1)
            λ q w2 g2. answer _ p q w w2 rest (g2.0, g2.1, g2.2 ∙ g.2, g2.3 ∙ g.3)

    -- When a successful ReadFile or WriteFile transfers at least one byte and at most what is
    -- asked for, and the string library keeps the pipes: if EXFS and the file path, the slider's
    -- name, the names and the values as strings shorter than 2^32 - 1, and a 32-bit index come
    -- next, one round of the reading thread takes exactly those bytes, calls
    -- on_export_faview_slider with them if it is there, and then sends the answer 0x80000000, or
    -- the call ends in an error of the system or the string library.
    pub read_message-faview_slider :
        (p : FaviewSlider) (rest : Chars) (w : World O)
        → Fits p.file_path_utf8
        → Fits p.slider_name_utf8
        → Fits p.names_utf8
        → Fits p.values_utf8
        → p.selected_index < 2 ^ 32
        → pending w
          ≡ u32 (fourcc b'E' b'X' b'F' b'S')
            ++ (string p.file_path_utf8
                ++ (string p.slider_name_utf8
                    ++ (string p.names_utf8
                        ++ (string p.values_utf8 ++ (u32 p.selected_index ++ rest)))))
        → From w
            (λ _. Served on.on_export_faview_slider p w rest)
            (λ e _. E e)
            (read_message lib win conv on)
    unfolding read_message read_request read_request_export_faview_slider
    read_message-faview_slider p rest w h1 h2 h3 h4 h5 e =
        after_u32 lib win pending sent laws _ (fourcc b'E' b'X' b'F' b'S') _ w e λ w1 g.
          >>=-From
            (read_faview_slider-Gives lib win pending sent laws on p rest w1 h1 h2 h3 h4 h5 g.1)
            λ q w2 g2. answer _ p q w w2 rest (g2.0, g2.1, g2.2 ∙ g.2, g2.3 ∙ g.3)

    -- When a successful ReadFile or WriteFile transfers at least one byte and at most what is
    -- asked for, and the string library keeps the pipes: if EXLN and the file path, the names and
    -- the values as strings shorter than 2^32 - 1, and a 32-bit index come next, one round of the
    -- reading thread takes exactly those bytes, calls on_export_layer_names with them if it is
    -- there, and then sends the answer 0x80000000, or the call ends in an error of the system or
    -- the string library.
    pub read_message-layer_names :
        (p : LayerNames) (rest : Chars) (w : World O)
        → Fits p.file_path_utf8
        → Fits p.names_utf8
        → Fits p.values_utf8
        → p.selected_index < 2 ^ 32
        → pending w
          ≡ u32 (fourcc b'E' b'X' b'L' b'N')
            ++ (string p.file_path_utf8
                ++ (string p.names_utf8
                    ++ (string p.values_utf8 ++ (u32 p.selected_index ++ rest))))
        → From w
            (λ _. Served on.on_export_layer_names p w rest)
            (λ e _. E e)
            (read_message lib win conv on)
    unfolding read_message read_request read_request_export_layer_names
    read_message-layer_names p rest w h1 h2 h3 h4 e =
        after_u32 lib win pending sent laws _ (fourcc b'E' b'X' b'L' b'N') _ w e λ w1 g.
          >>=-From (read_layer_names-Gives lib win pending sent laws on p rest w1 h1 h2 h3 h4 g.1)
            λ q w2 g2. answer _ p q w w2 rest (g2.0, g2.1, g2.2 ∙ g.2, g2.3 ∙ g.3)
