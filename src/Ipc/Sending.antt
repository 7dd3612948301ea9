-- ===== src/Ipc/Sending.antt =====
-- What the property command of src/c/ipc.c sends.
use aviutl_psdtoolkit.Base.{
  ℕ, [], ◌++◌, Option, none, some, length, append_assoc, append-nil, Chars, M, ◌>>=◌, Error, Ovstr,
  From, pure-From, >>=-From, weaken-From, ◌≡◌, refl, sym, ap, ◌∙◌,
}
use aviutl_psdtoolkit.Ipc.State.{World, Win32}
use aviutl_psdtoolkit.Ipc.Wire.{u32, write_string_utf8}
use aviutl_psdtoolkit.Ipc.Commands.{
  PropertyOptions, write_u32_property, write_string_property, write_properties,
}
use aviutl_psdtoolkit.Ipc.Transfer.{PipeLaws, Sent, write-From}
use aviutl_psdtoolkit.Ipc.Messages.{string}
use aviutl_psdtoolkit.Ipc.Properties.{
  u32_property, string_property, properties, read_properties, AreSmall, read_properties-properties,
}

module _ {O : Type 0} (lib : Ovstr (World O)) (win : Win32 O) (pending sent : World O → Chars)
    {E : Error → Type 0} (laws : PipeLaws lib win pending sent E) where
  -- Sending two texts one after the other sends the joined text.
  pub then-Sent :
      {A : Type 0} {m : M (World O) A} {k : M (World O) (Unit {0})} (a b : Chars) (w : World O)
      → From w (λ _. Sent lib win pending sent laws w a) (λ e _. E e) m
      → ((w' : World O) → From w' (λ _. Sent lib win pending sent laws w' b) (λ e _. E e) k)
      → From w (λ _. Sent lib win pending sent laws w (a ++ b)) (λ e _. E e) (m >>= λ _. k)
  then-Sent a b w h k = >>=-From h λ _ w1 s. weaken-From (k w1) λ _ w2 t.
      (t.0 ∙ ap (λ (x : Chars). x ++ b) s.0 ∙ append_assoc (sent w) a b, t.1 ∙ s.1, t.2 ∙ s.2)

  pub write_string_utf8-string :
      (s : Chars) (w : World O)
      → From w
          (λ _. Sent lib win pending sent laws w (string s))
          (λ e _. E e)
          (write_string_utf8 lib win s)
  unfolding write_string_utf8
  write_string_utf8-string s w =
      then-Sent (u32 (length s)) s w (write-From lib win pending sent laws _ w)
        (write-From lib win pending sent laws s)

  nothing-Sent : (w : World O) → Sent lib win pending sent laws w [] w
  nothing-Sent w = (sym (append-nil (sent w)), refl, refl)

  u32_property-Sent :
      (propid : ℕ) (o : Option ℕ) (w : World O)
      → From w
          (λ _. Sent lib win pending sent laws w (u32_property propid o))
          (λ e _. E e)
          (write_u32_property lib win propid o)
  unfolding write_u32_property
  u32_property-Sent propid none w = pure-From tt (nothing-Sent w)
  u32_property-Sent propid (some v) w =
      then-Sent (u32 propid) (u32 v) w (write-From lib win pending sent laws _ w)
        (write-From lib win pending sent laws (u32 v))

  string_property-Sent :
      (propid : ℕ) (o : Option Chars) (w : World O)
      → From w
          (λ _. Sent lib win pending sent laws w (string_property propid o))
          (λ e _. E e)
          (write_string_property lib win propid o)
  unfolding write_string_property
  string_property-Sent propid none w = pure-From tt (nothing-Sent w)
  string_property-Sent propid (some v) w =
      then-Sent (u32 propid) (string v) w (write-From lib win pending sent laws _ w)
        (write_string_utf8-string v)

  pub write_properties-Sent :
      (o : PropertyOptions) (w : World O)
      → From w
          (λ _. Sent lib win pending sent laws w (properties o))
          (λ e _. E e)
          (write_properties lib win o)
  unfolding write_properties
  write_properties-Sent o w =
      then-Sent (u32_property 5 o.tag) _ w (u32_property-Sent 5 o.tag w) λ w1.
        then-Sent (string_property 1 o.layer_utf8) _ w1 (string_property-Sent 1 o.layer_utf8 w1)
          λ w2. then-Sent (u32_property 2 o.scale) _ w2 (u32_property-Sent 2 o.scale w2) λ w3.
            then-Sent (u32_property 3 o.offset_x) _ w3 (u32_property-Sent 3 o.offset_x w3) λ w4.
              then-Sent (u32_property 4 o.offset_y) _ w4 (u32_property-Sent 4 o.offset_y w4)
                λ w5. write-From lib win pending sent laws (u32 0) w5

  -- When a successful ReadFile or WriteFile transfers at least one byte and at most what is asked
  -- for, and the string library keeps the pipes: for options whose numbers are 32-bit and whose
  -- layer string is shorter than 2^32 - 1, the bytes that write_properties sends are, for a reader
  -- that takes properties in any order up to the end mark, exactly the options given, whatever
  -- follows them, or the call ends in an error of the system or the string library.
  pub write_properties-read :
      (o : PropertyOptions) (w : World O)
      → AreSmall o
      → From w
          (λ _ w'.
            (b : Chars) × (sent w' ≡ sent w ++ b)
            × ((rest : Chars) → read_properties (b ++ rest) ≡ some (o, rest)))
          (λ e _. E e)
          (write_properties lib win o)
  write_properties-read o w h =
      weaken-From (write_properties-Sent o w)
        λ _ w' s. (properties o, s.0, λ rest. read_properties-properties o rest h)
