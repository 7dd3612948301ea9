-- ===== src/Ipc/Exchange.antt =====
-- A whole command of src/c/ipc.c: the bytes it sends and what it makes of the reply.
use aviutl_psdtoolkit.Base.{
  finally, ℕ, true, not, ◌++◌, ◌==◌, ◌^◌, ◌<◌, none, append_assoc, Chars, M, ◌>>=◌, Error, Result,
  ok, err, Ovstr, Ends, From, pure-From, >>=-From, weaken-From, ◌≡◌, refl, ap, ◌∙◌,
}
use aviutl_psdtoolkit.Ipc.State.{Ipc, World, Win32, set_ipc}
use aviutl_psdtoolkit.Ipc.Wire.{u32, fourcc}
use aviutl_psdtoolkit.Ipc.Process.{is_process_running}
use aviutl_psdtoolkit.Ipc.Commands.{
  PropertyOptions, reply_of, ensure_process, start_command_process, get_reply,
  finish_command_process, command, read_results, ipc_set_properties, ipc_get_layer_names,
}
use aviutl_psdtoolkit.Ipc.Transfer.{PipeLaws, write-From}
use aviutl_psdtoolkit.Ipc.Messages.{
  string, Fits, read_string_utf8-string, Gives, after_u32, from_bytes-u32,
}
use aviutl_psdtoolkit.Ipc.Properties.{properties}
use aviutl_psdtoolkit.Ipc.Sending.{write_string_utf8-string, write_properties-Sent}

abbrev Same : {O : Type 0} → (pending sent : World O → Chars) → World O → World O → Type 0
Same pending sent w w' = (pending w' ≡ pending w) × (sent w' ≡ sent w)

-- What the threads do to the pipes: a wait for a reply lets the reading thread take the head of an
-- empty reply, which is `eok()`; locks and signals take and send nothing.
pub record ThreadLaws {O : Type 0} (win : Win32 O) (pending sent : World O → Chars) : Type 0 where
  pub mtx_lock_lem : (w : World O) → Same pending sent w (win.mtx_lock w)
  pub mtx_unlock_lem : (w : World O) → Same pending sent w (win.mtx_unlock w)
  pub signal_c2s_lem : (n : ℕ) (w : World O) → Same pending sent w (win.signal_c2s n w)
  pub wait_s2c_lem :
      (w : World O) (rest : Chars)
      → pending w ≡ u32 0x80000000 ++ rest
      → (pending (win.wait_s2c w) ≡ rest)
        × (sent (win.wait_s2c w) ≡ sent w)
        × ((win.wait_s2c w).ipc.reply ≡ none)
  pub set_ipc_lem : (f : Ipc → Ipc) (w : World O) → Same pending sent w (set_ipc f w)

finally_Ends :
    {W A : Type 0} (Q : A → W → Type 0) (R : Error → W → Type 0) (f : W → W) (r : Result A × W)
    → Ends (λ a w'. Q a (f w')) (λ e w'. R e (f w')) r
    → Ends Q R (r.0, f r.1)
finally_Ends Q R f (ok a, w) h = h
finally_Ends Q R f (err e, w) h = h

module _ {O : Type 0} (lib : Ovstr (World O)) (win : Win32 O) (pending sent : World O → Chars)
    {E : Error → Type 0} (laws : PipeLaws lib win pending sent E)
    (threads : ThreadLaws win pending sent) where
  -- The result expected, the bytes left, and the bytes sent.
  abbrev pub Exchanged : {A : Type 0} → World O → Chars → Chars → A → A → World O → Type 0
  Exchanged w b rest a r w' = (r ≡ a) × (pending w' ≡ rest) × (sent w' ≡ sent w ++ b)

  get_reply-done :
      (w : World O) (rest : Chars)
      → pending w ≡ u32 0x80000000 ++ rest
      → From w (λ _ w'. (pending w' ≡ rest) × (sent w' ≡ sent w)) (λ e _. E e) (get_reply lib win)
  unfolding get_reply ◌>>=◌ reply_of
  get_reply-done w rest e =
      let h = threads.wait_s2c_lem w rest e in
      let k = threads.set_ipc_lem (λ ipc. record ipc { s2c = 0; reply = none }) (win.wait_s2c w) in
      record { ends = rw (h.2) (k.0 ∙ h.0, k.1 ∙ h.1) }

  started :
      (msgid : ℕ) (w : World O)
      → is_process_running lib win (win.mtx_lock w) ≡ true
      → From w
          (λ _ w'. (sent w' ≡ sent w ++ u32 msgid) × (pending w' ≡ pending w))
          (λ e _. E e)
          (start_command_process lib win msgid)
  unfolding start_command_process
  started msgid w alive =
      let k = threads.mtx_lock_lem w in
      >>=-From {P = λ _ w'. w' ≡ win.mtx_lock w} (record { ends = refl })
        λ _ w1 e1. rw e1 (
          >>=-From {P = λ _ w'. w' ≡ win.mtx_lock w}
            (unfold ensure_process in record { ends = rw alive refl })
            λ _ w2 e2. rw e2 (
              weaken-From (write-From lib win pending sent laws (u32 msgid) _)
                λ _ w3 s. (s.0 ∙ ap (λ (x : Chars). x ++ u32 msgid) k.1, s.1 ∙ k.0)))

  -- A command that sends `b`, gets an empty reply, and reads the rest with `m`.
  exchanged :
      {A : Type 0} (msgid : ℕ) (b reply rest : Chars) (a : A) (w : World O) (m : M (World O) A)
      → is_process_running lib win (win.mtx_lock w) ≡ true
      → ((w1 : World O) → pending w1 ≡ reply → From w1 (Exchanged w1 b rest a) (λ e _. E e) m)
      → pending w ≡ reply
      → From w (Exchanged w (u32 msgid ++ b) rest a) (λ e _. E e) (command lib win msgid m)
  unfolding command finally finish_command_process
  exchanged msgid b reply rest a w m alive body e =
      let finish = λ (v : World O). win.mtx_unlock (win.signal_c2s 1 v) in
      let whole : From w (λ r w'. Exchanged w (u32 msgid ++ b) rest a r (finish w')) (λ e _. E e)
          (start_command_process lib win msgid >>= λ _. m) =
        >>=-From (started msgid w alive) λ _ w1 s. weaken-From (body w1 (s.1 ∙ e)) λ r w2 x.
          let k = threads.signal_c2s_lem 1 w2 in
          let u = threads.mtx_unlock_lem (win.signal_c2s 1 w2) in
          (
            x.0,
            u.0 ∙ k.0 ∙ x.1,
            u.1 ∙ k.1 ∙ x.2 ∙ ap (λ (y : Chars). y ++ b) s.0 ∙ append_assoc (sent w) (u32 msgid) b,
          ) in
      record {
        ends = finally_Ends (Exchanged w (u32 msgid ++ b) rest a) (λ e _. E e) finish _ whole.ends;
      }

  results :
      (m key width height : ℕ) (rest : Chars) (w : World O)
      → m < 2 ^ 32
      → key < 2 ^ 32
      → width < 2 ^ 32
      → height < 2 ^ 32
      → pending w ≡ u32 m ++ (u32 key ++ (u32 width ++ (u32 height ++ rest)))
      → From w
          (Gives lib win pending sent laws w rest
            (record { modifiled = not (m == 0); cache_key = key; width = width; height = height }))
          (λ e _. E e)
          (read_results lib win)
  unfolding read_results
  results m key width height rest w h1 h2 h3 h4 e =
      after_u32 lib win pending sent laws _ m _ w e λ w1 g1.
        after_u32 lib win pending sent laws _ key _ w1 g1.1 λ w2 g2.
          after_u32 lib win pending sent laws _ width _ w2 g2.1 λ w3 g3.
            after_u32 lib win pending sent laws _ height rest w3 g3.1 λ w4 g4. pure-From _ (
              (λ i. record {
                modifiled = not (from_bytes-u32 m h1 i == 0);
                cache_key = from_bytes-u32 key h2 i;
                width = from_bytes-u32 width h3 i;
                height = from_bytes-u32 height h4 i;
              }),
              g4.1,
              g4.2 ∙ g3.2 ∙ g2.2 ∙ g1.2,
              g4.3 ∙ g3.3 ∙ g2.3 ∙ g1.3,
            )

  -- When transfers move at least one byte and at most what is asked for, a wait for a reply ends
  -- with the empty reply's four bytes taken by the reading thread and eok() as the reply, locks
  -- and signals take and send nothing, and the process runs: if an empty reply and four 32-bit
  -- numbers come next, ipc_set_properties sends exactly PROP, the id, the path and the properties
  -- with their end mark, gives the four numbers as its results (modifiled says whether the first
  -- is not 0), and leaves what follows them to be read, or ends in an error of the system or the
  -- string library.
  pub ipc_set_properties-exchange :
      (id : ℕ) (path : Chars) (o : PropertyOptions) (m key width height : ℕ) (rest : Chars)
      (w : World O)
      → is_process_running lib win (win.mtx_lock w) ≡ true
      → m < 2 ^ 32
      → key < 2 ^ 32
      → width < 2 ^ 32
      → height < 2 ^ 32
      → pending w ≡ u32 0x80000000 ++ (u32 m ++ (u32 key ++ (u32 width ++ (u32 height ++ rest))))
      → From w
          (Exchanged w
            (u32 (fourcc b'P' b'R' b'O' b'P') ++ (u32 id ++ (string path ++ properties o)))
            rest
            (record { modifiled = not (m == 0); cache_key = key; width = width; height = height }))
          (λ e _. E e)
          (ipc_set_properties lib win id path o)
  unfolding ipc_set_properties
  ipc_set_properties-exchange id path o m key width height rest w alive h1 h2 h3 h4 e =
      exchanged _ (u32 id ++ (string path ++ properties o)) _ rest _ w _ alive
        (λ w1 e1. >>=-From (write-From lib win pending sent laws (u32 id) w1) λ _ w2 s2.
          >>=-From (write_string_utf8-string lib win pending sent laws path w2) λ _ w3 s3.
            >>=-From (write_properties-Sent lib win pending sent laws o w3) λ _ w4 s4.
              >>=-From (get_reply-done w4 _ (s4.1 ∙ s3.1 ∙ s2.1 ∙ e1)) λ _ w5 g.
                weaken-From (results m key width height rest w5 h1 h2 h3 h4 g.0) λ r w6 x. (
                  x.0,
                  x.1,
                  x.2
                      ∙ g.1
                      ∙ s4.0
                      ∙ ap (λ (y : Chars). y ++ properties o)
                          (s3.0 ∙ ap (λ (y : Chars). y ++ string path) s2.0)
                      ∙ append_assoc _ (string path) (properties o)
                      ∙ append_assoc (sent w1) (u32 id) _,
                ))
        e

  -- When transfers move at least one byte and at most what is asked for, a wait for a reply ends
  -- with the empty reply's four bytes taken by the reading thread and eok() as the reply, locks
  -- and signals take and send nothing, and the process runs: if an empty reply and a string
  -- shorter than 2^32 - 1 come next, ipc_get_layer_names sends exactly LNAM, the id and the path,
  -- gives the string, and leaves what follows it to be read, or ends in an error of the system or
  -- the string library.
  pub ipc_get_layer_names-exchange :
      (id : ℕ) (path names rest : Chars) (w : World O)
      → is_process_running lib win (win.mtx_lock w) ≡ true
      → Fits names
      → pending w ≡ u32 0x80000000 ++ (string names ++ rest)
      → From w
          (Exchanged w (u32 (fourcc b'L' b'N' b'A' b'M') ++ (u32 id ++ string path)) rest names)
          (λ e _. E e)
          (ipc_get_layer_names lib win id path)
  unfolding ipc_get_layer_names
  ipc_get_layer_names-exchange id path names rest w alive fits e =
      exchanged _ (u32 id ++ string path) _ rest _ w _ alive
        (λ w1 e1. >>=-From (write-From lib win pending sent laws (u32 id) w1) λ _ w2 s2.
          >>=-From (write_string_utf8-string lib win pending sent laws path w2) λ _ w3 s3.
            >>=-From (get_reply-done w3 _ (s3.1 ∙ s2.1 ∙ e1)) λ _ w4 g.
              weaken-From (read_string_utf8-string lib win pending sent laws names rest w4 fits g.0)
                λ r w5 x. (
                  x.0,
                  x.1,
                  x.2
                      ∙ g.1
                      ∙ s3.0
                      ∙ ap (λ (y : Chars). y ++ string path) s2.0
                      ∙ append_assoc (sent w1) (u32 id) _,
                ))
        e
