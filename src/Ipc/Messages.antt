-- ===== src/Ipc/Messages.antt =====
-- The strings and records that src/c/ipc.c reads, in the format of the pipes.
use aviutl_psdtoolkit.Base.{
  ℕ, ◌+◌, ◌%◌, ◌^◌, ◌<◌, false, [], ◌∷◌, ◌++◌, ltb, length, Chars, M, ◌>>=◌, Error, Ovstr, From,
  pure-From, >>=-From, weaken-From, ◌≡◌, refl, sym, ap, ◌∙◌, arith,
}
use aviutl_psdtoolkit.Ipc.State.{World, Win32}
use aviutl_psdtoolkit.Ipc.Wire.{u32, from_bytes, read, read_string_utf8}
use aviutl_psdtoolkit.Ipc.Requests.{
  Callbacks, ImageState, FaviewSlider, LayerNames, read_image_state, read_faview_slider,
  read_layer_names,
}
use aviutl_psdtoolkit.Ipc.Transfer.{PipeLaws, Took, read-From}

pub from_bytes-u32 : (n : ℕ) → n < 2 ^ 32 → from_bytes (u32 n) ≡ n
from_bytes-u32 n h = omega arith

append_cancel : (a b r s : Chars) → length a ≡ length b → a ++ r ≡ b ++ s → (a ≡ b) × (r ≡ s)
append_cancel [] [] r s h e = (refl, e)
append_cancel [] (d ∷ b) r s h e = absurd (omega arith)
append_cancel (c ∷ a) [] r s h e = absurd (omega arith)
append_cancel (c ∷ a) (d ∷ b) r s h e =
    let head : c ≡ d = cc in
    let tail : a ++ r ≡ b ++ s = cc in
    let (p, q) = append_cancel a b r s (omega arith) tail in (λ i. head i ∷ p i, q)

-- A string in the format: its length in four bytes, and its bytes.
abbrev pub string : Chars → Chars
string s = u32 (length s) ++ s

-- A length that, with one more, is a 32-bit number.
abbrev pub Fits : Chars → Type 0
Fits s = length s + 1 < 2 ^ 32

fits_cap : (n : ℕ) → n + 1 < 2 ^ 32 → ltb ((n + 1) % 2 ^ 32) n ≡ false
fits_cap n h = ground arith

module _ {O : Type 0} (lib : Ovstr (World O)) (win : Win32 O) (pending sent : World O → Chars)
    {E : Error → Type 0} (laws : PipeLaws lib win pending sent E) where
  -- `a` is the value expected; `rest` is still to be read, and nothing has been sent.
  abbrev pub Gives : {A : Type 0} → World O → Chars → A → A → World O → Type 0
  Gives w rest a r w' = (r ≡ a) × (pending w' ≡ rest) × (sent w' ≡ sent w) × (w'.ipc ≡ w.ipc)

  took :
      (w : World O) (b rest r : Chars) (w' : World O)
      → pending w ≡ b ++ rest
      → Took lib win pending sent laws w (length b) r w'
      → Gives w rest b r w'
  took w b rest r w' e h =
      let (p, q) = append_cancel r b (pending w') rest h.0 (sym h.1 ∙ e) in (p, q, h.2, h.3)

  pub read-bytes :
      (b rest : Chars) (w : World O)
      → pending w ≡ b ++ rest
      → From w (Gives w rest b) (λ e _. E e) (read lib win (length b))
  read-bytes b rest w e =
      weaken-From (read-From lib win pending sent laws (length b) w)
        λ r w' h. took w b rest r w' e h

  -- When a successful ReadFile or WriteFile transfers at least one byte and at most what is asked
  -- for, and the string library keeps the pipes: if a string shorter than 2^32 - 1 comes next
  -- behind its length in four bytes, read_string_utf8 gives the string and leaves what follows to
  -- be read, or the call ends in an error of the system or the string library.
  pub read_string_utf8-string :
      (s rest : Chars) (w : World O)
      → Fits s
      → pending w ≡ string s ++ rest
      → From w (Gives w rest s) (λ e _. E e) (read_string_utf8 lib win)
  unfolding read_string_utf8
  read_string_utf8-string s rest w h e =
      >>=-From (read-bytes (u32 (length s)) (s ++ rest) w e) λ b w1 h1.
        let size : from_bytes b ≡ length s =
          ap from_bytes h1.0 ∙ from_bytes-u32 (length s) (omega arith) in
        rw size (
          >>=-From (laws.sgrow_lem w1 _) λ _ w2 h2. rw (fits_cap (length s) h) (
            weaken-From (read-bytes s rest w2 (h2.0 ∙ h1.1))
              λ r w3 h3. (h3.0, h3.1, h3.2 ∙ h2.1 ∙ h1.2, h3.3 ∙ h2.2 ∙ h1.3)))

  -- Reading goes on behind what has been read.
  pub after_string :
      {B : Type 0} {Q : B → World O → Type 0} (f : Chars → M (World O) B) (s rest : Chars)
      (w : World O)
      → Fits s
      → pending w ≡ string s ++ rest
      → ((w' : World O) → Gives w rest s s w' → From w' Q (λ e _. E e) (f s))
      → From w Q (λ e _. E e) (read_string_utf8 lib win >>= f)
  after_string f s rest w h e k =
      >>=-From (read_string_utf8-string s rest w h e) λ r w' g. rw g.0 (k w' (refl, g.1, g.2, g.3))

  pub after_u32 :
      {B : Type 0} {Q : B → World O → Type 0} (f : Chars → M (World O) B) (n : ℕ) (rest : Chars)
      (w : World O)
      → pending w ≡ u32 n ++ rest
      → ((w' : World O) → Gives w rest (u32 n) (u32 n) w' → From w' Q (λ e _. E e) (f (u32 n)))
      → From w Q (λ e _. E e) (read lib win 4 >>= f)
  after_u32 f n rest w e k =
      >>=-From (read-bytes (u32 n) rest w e) λ r w' g. rw g.0 (k w' (refl, g.1, g.2, g.3))

  module _ (on : Callbacks O) where
    pub read_image_state-Gives :
        (p : ImageState) (rest : Chars) (w : World O)
        → Fits p.file_path_utf8
        → Fits p.state_utf8
        → pending w ≡ string p.file_path_utf8 ++ (string p.state_utf8 ++ rest)
        → From w (Gives w rest p) (λ e _. E e) (read_image_state lib win on)
    unfolding read_image_state
    read_image_state-Gives p rest w h k e = after_string _ p.file_path_utf8 _ w h e λ w1 g1.
        after_string _ p.state_utf8 _ w1 k g1.1
          λ w2 g2. pure-From _ (refl, g2.1, g2.2 ∙ g1.2, g2.3 ∙ g1.3)

    pub read_faview_slider-Gives :
        (p : FaviewSlider) (rest : Chars) (w : World O)
        → Fits p.file_path_utf8
        → Fits p.slider_name_utf8
        → Fits p.names_utf8
        → Fits p.values_utf8
        → p.selected_index < 2 ^ 32
        → pending w
          ≡ string p.file_path_utf8
            ++ (string p.slider_name_utf8
                ++ (string p.names_utf8
                    ++ (string p.values_utf8 ++ (u32 p.selected_index ++ rest))))
        → From w (Gives w rest p) (λ e _. E e) (read_faview_slider lib win on)
    unfolding read_faview_slider
    read_faview_slider-Gives p rest w h1 h2 h3 h4 h5 e =
        after_string _ p.file_path_utf8 _ w h1 e λ w1 g1.
          after_string _ p.slider_name_utf8 _ w1 h2 g1.1 λ w2 g2.
            after_string _ p.names_utf8 _ w2 h3 g2.1 λ w3 g3.
              after_string _ p.values_utf8 _ w3 h4 g3.1 λ w4 g4.
                after_u32 _ p.selected_index rest w4 g4.1 λ w5 g5. pure-From _ (
                  (λ i. record p { selected_index = from_bytes-u32 p.selected_index h5 i }),
                  g5.1,
                  g5.2 ∙ g4.2 ∙ g3.2 ∙ g2.2 ∙ g1.2,
                  g5.3 ∙ g4.3 ∙ g3.3 ∙ g2.3 ∙ g1.3,
                )

    pub read_layer_names-Gives :
        (p : LayerNames) (rest : Chars) (w : World O)
        → Fits p.file_path_utf8
        → Fits p.names_utf8
        → Fits p.values_utf8
        → p.selected_index < 2 ^ 32
        → pending w
          ≡ string p.file_path_utf8
            ++ (string p.names_utf8 ++ (string p.values_utf8 ++ (u32 p.selected_index ++ rest)))
        → From w (Gives w rest p) (λ e _. E e) (read_layer_names lib win on)
    unfolding read_layer_names
    read_layer_names-Gives p rest w h1 h2 h3 h4 e =
        after_string _ p.file_path_utf8 _ w h1 e λ w1 g1.
          after_string _ p.names_utf8 _ w1 h2 g1.1 λ w2 g2.
            after_string _ p.values_utf8 _ w2 h3 g2.1 λ w3 g3.
              after_u32 _ p.selected_index rest w3 g3.1 λ w4 g4. pure-From _ (
                (λ i. record p { selected_index = from_bytes-u32 p.selected_index h4 i }),
                g4.1,
                g4.2 ∙ g3.2 ∙ g2.2 ∙ g1.2,
                g4.3 ∙ g3.3 ∙ g2.3 ∙ g1.3,
              )
