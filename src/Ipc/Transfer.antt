-- ===== src/Ipc/Transfer.antt =====
-- The bytes that `read` and `write` of src/c/ipc.c transfer.
use aviutl_psdtoolkit.Base.{
  ℕ, zero, suc, ◌-◌, ◌≤◌, [], ◌∷◌, ◌++◌, length, length-append, take, drop, append_assoc,
  take-append-drop, append-nil, Chars, Error, Ovstr, From, pure-From, >>=-From, weaken-From, ◌≡◌,
  refl, sym, ap, ◌∙◌, arith,
}
use aviutl_psdtoolkit.Ipc.State.{World, Win32}
use aviutl_psdtoolkit.Ipc.Wire.{read_loop, read, write_loop, write}

-- What Win32 documents of the pipes, with the bytes still to be read and those already sent. A
-- successful call reads or writes at least one byte and at most as many as it is asked for.
pub record PipeLaws {O : Type 0} (lib : Ovstr (World O)) (win : Win32 O)
    (pending sent : World O → Chars) (E : Error → Type 0) : Type 0 where
  pub read_file_lem :
      (w : World O) (n : ℕ)
      → From w
          (λ b w'.
            (1 ≤ length b)
            × (length b ≤ suc n)
            × (pending w ≡ b ++ pending w')
            × (sent w' ≡ sent w)
            × (w'.ipc ≡ w.ipc))
          (λ e _. E e)
          (win.read_file w.ipc.pipe_out_r (suc n))
  pub write_file_lem :
      (w : World O) (c : ℕ) (b : Chars)
      → From w
          (λ n w'.
            (1 ≤ n)
            × (n ≤ suc (length b))
            × (sent w' ≡ sent w ++ take n (c ∷ b))
            × (pending w' ≡ pending w)
            × (w'.ipc ≡ w.ipc))
          (λ e _. E e)
          (win.write_file w.ipc.pipe_in_w (c ∷ b))
  pub sgrow_lem :
      (w : World O) (n : ℕ)
      → From w
          (λ _ w'. (pending w' ≡ pending w) × (sent w' ≡ sent w) × (w'.ipc ≡ w.ipc))
          (λ e _. E e)
          (lib.sgrow n)

length-drop : (n : ℕ) (s : Chars) → length (drop n s) ≡ length s - n
length-drop zero s = omega arith
length-drop (suc n) [] = omega arith
length-drop (suc n) (c ∷ s) = omega (arith, length-drop n s)

module _ {O : Type 0} (lib : Ovstr (World O)) (win : Win32 O) (pending sent : World O → Chars)
    {E : Error → Type 0} (laws : PipeLaws lib win pending sent E) where
  -- The bytes read come from the stream, and nothing else changes.
  abbrev pub Took : World O → ℕ → Chars → World O → Type 0
  Took w n b w' =
      (length b ≡ n) × (pending w ≡ b ++ pending w') × (sent w' ≡ sent w) × (w'.ipc ≡ w.ipc)

  read_loop-From :
      (fuel n : ℕ) (w : World O)
      → n ≤ fuel
      → From w (Took w n) (λ e _. E e) (read_loop lib win fuel n)
  unfolding read_loop
  read_loop-From fuel zero w h = pure-From [] (refl, refl, refl, refl)
  read_loop-From zero (suc n) w h = absurd (omega arith)
  read_loop-From (suc fuel) (suc n) w h =
      >>=-From {P = λ ipc w'. (ipc ≡ w.ipc) × (w' ≡ w)} (record { ends = (refl, refl) })
        λ ipc w0 h0.
          rw (h0.0, h0.1)
            (>>=-From (laws.read_file_lem w n) λ b w1 h1.
              >>=-From (read_loop-From fuel (suc n - length b) w1 (omega (arith, h1.0)))
                λ rest w2 h2. pure-From (b ++ rest) (
                  omega (arith, length-append {0} b rest, h2.0, h1.1),
                  h1.2 ∙ ap (◌++◌ b) h2.1 ∙ sym (append_assoc b rest _),
                  h2.2 ∙ h1.3,
                  h2.3 ∙ h1.4,
                ))

  -- When a successful ReadFile or WriteFile transfers at least one byte and at most what is asked
  -- for, and the string library keeps the pipes: read of n bytes ends within n calls of ReadFile
  -- with the next n bytes of the pipe, whatever pieces they come in, and changes nothing else, or
  -- the call ends in an error of the system or the string library.
  pub read-From : (n : ℕ) (w : World O) → From w (Took w n) (λ e _. E e) (read lib win n)
  unfolding read
  read-From n w = read_loop-From n n w (omega arith)

  abbrev pub Sent : World O → Chars → World O → Type 0
  Sent w b w' = (sent w' ≡ sent w ++ b) × (pending w' ≡ pending w) × (w'.ipc ≡ w.ipc)

  write_loop-From :
      (fuel : ℕ) (b : Chars) (w : World O)
      → length b ≤ fuel
      → From w (λ _. Sent w b) (λ e _. E e) (write_loop lib win fuel b)
  unfolding write_loop
  write_loop-From fuel [] w h = pure-From tt (sym (append-nil (sent w)), refl, refl)
  write_loop-From zero (c ∷ b) w h = absurd (omega arith)
  write_loop-From (suc fuel) (c ∷ b) w h =
      >>=-From {P = λ ipc w'. (ipc ≡ w.ipc) × (w' ≡ w)} (record { ends = (refl, refl) })
        λ ipc w0 h0.
          rw (h0.0, h0.1)
            (>>=-From (laws.write_file_lem w c b) λ n w1 h1.
              weaken-From
                (write_loop-From fuel (drop n (c ∷ b)) w1
                  (omega (arith, length-drop n (c ∷ b), h1.0)))
                λ _ w2 h2. (
                  h2.0
                      ∙ ap (λ (s : Chars). s ++ drop n (c ∷ b)) h1.2
                      ∙ append_assoc (sent w) _ _
                      ∙ ap (◌++◌ (sent w)) (take-append-drop n (c ∷ b)),
                  h2.1 ∙ h1.3,
                  h2.2 ∙ h1.4,
                ))

  -- When a successful ReadFile or WriteFile transfers at least one byte and at most what is asked
  -- for, and the string library keeps the pipes: write ends within as many calls of WriteFile as
  -- there are bytes, with all of them sent in order and nothing else changed, or the call ends in
  -- an error of the system or the string library.
  pub write-From : (b : Chars) (w : World O) → From w (λ _. Sent w b) (λ e _. E e) (write lib win b)
  unfolding write
  write-From b w = write_loop-From (length b) b w (omega arith)
