-- ===== src/Ipc/Started.antt =====
-- Where the handles are that the body of `start_process` of src/c/ipc.c opens.
use aviutl_psdtoolkit.Base.{
  map_error, finally, own, ℕ, ◌+◌, Option, none, some, M, ◌>>=◌, fail, Result, ok, err, Ovstr, Ends,
  From, >>=-From, weaken-From, ◌≡◌, refl, ap, ◌∙◌, arith,
}
use aviutl_psdtoolkit.Ipc.State.{Ipc, World, Win32}
use aviutl_psdtoolkit.Ipc.Process.{
  Handles, no_handles, Frame, call, assign, handles_of, open_pipes, start_body,
}
use aviutl_psdtoolkit.Ipc.Handles.{Keeps, HandleLaws, Opens, launch-OpensTwo}

-- How often one of the local variables is this handle.
abbrev pub held : Handles → ℕ → ℕ
held v h =
    own v.in_r h
    + own v.in_w h
    + own v.out_r h
    + own v.out_w h
    + own v.err_r h
    + own v.err_w h
    + own v.h_process h
    + own v.h_thread h

module _ {O : Type 0} (lib : Ovstr (World O)) (win : Win32 O) (opened : O → ℕ → ℕ)
    (laws : HandleLaws lib win opened) (w0 : World O) where
  -- All handles that are open beyond those at the start are in the variables.
  abbrev pub Held : Frame O → Type 0
  Held l = (h : ℕ) → opened l.world.os h ≡ opened w0.os h + held l.handles h

  abbrev At : Handles → Frame O → Type 0
  At v l = (l.handles ≡ v) × ((h : ℕ) → opened l.world.os h ≡ opened w0.os h + held v h)

  At-Held : (v : Handles) (l : Frame O) → At v l → Held l
  At-Held v l a = rw (a.0) (a.1)

  called :
      {A : Type 0} (v : Handles) (l : Frame O) (r : Result A × World O)
      → At v l
      → ((h : ℕ) → opened r.1.os h ≡ opened l.world.os h)
      → Ends (λ _. At v) (λ _. Held) (r.0, record l { world = r.1 })
  called v l (ok a, w) a0 k = (a0.0, λ h. k h ∙ a0.1 h)
  called v l (err e, w) a0 k = rw (a0.0) (λ h. k h ∙ a0.1 h)

  call-At :
      {A : Type 0} {m : M (World O) A} (v : Handles) (l : Frame O)
      → Keeps opened m
      → At v l
      → From l (λ _. At v) (λ _. Held) (call m)
  unfolding call
  call-At {m} v l k a = record { ends = called v l (m l.world) a (k.keeps l.world) }

  pair_called :
      (v : Handles) (l : Frame O) (r : Result (ℕ × ℕ) × World O)
      → At v l
      → Opens lib win opened laws l.world r
      → Ends
          (λ p l'.
            (l'.handles ≡ v)
            × ((h : ℕ)
                → opened l'.world.os h
                  ≡ opened w0.os h + held v h + own (some p.0) h + own (some p.1) h))
          (λ _. Held)
          (r.0, record l { world = r.1 })
  pair_called v l (ok p, w) a k =
      (a.0, λ h. k h ∙ ap (λ (n : ℕ). n + own (some p.0) h + own (some p.1) h) (a.1 h))
  pair_called v l (err e, w) a k = rw (a.0) (λ h. k h ∙ a.1 h)

  -- Two handles are opened, and the variables that take them had none.
  open_two :
      {B : Type 0} {Q : B → Frame O → Type 0} (f : ℕ × ℕ → Handles → Handles) (v : Handles)
      (l : Frame O) (m : M (World O) (ℕ × ℕ)) (k : ℕ × ℕ → M (Frame O) B)
      → ((w : World O) → Opens lib win opened laws w (m w))
      → At v l
      → ((p : ℕ × ℕ) (h : ℕ) → held (f p v) h ≡ held v h + own (some p.0) h + own (some p.1) h)
      → ((p : ℕ × ℕ) (l' : Frame O) → At (f p v) l' → From l' Q (λ _. Held) (k p))
      → From l Q (λ _. Held) (call m >>= λ p. assign (f p) >>= λ _. k p)
  unfolding call assign
  open_two f v l m k o a e next =
      >>=-From (record { ends = pair_called v l (m l.world) a (o l.world) })
        λ p l1 b.
          >>=-From {P = λ _. At (f p v)}
            (record { ends = (ap (f p) b.0, λ h. omega (arith, b.1 h, e p h)) })
            λ _ l2 c. next p l2 c

  abbrev Piped : Frame O → Type 0
  Piped l =
      (a : ℕ) × (b : ℕ) × (c : ℕ) × (d : ℕ) × (e : ℕ) × (f : ℕ) × At
        (record {
          in_r = some a;
          in_w = some b;
          out_r = some c;
          out_w = some d;
          err_r = some e;
          err_w = some f;
          h_process = none;
          h_thread = none;
        })
        l

  pipe : (w : World O) → Opens lib win opened laws w (win.create_pipe w)
  pipe w = laws.create_pipe_lem w

  open_pipes-Piped :
      (l : Frame O) → At no_handles l → From l (λ _. Piped) (λ _. Held) (open_pipes lib win)
  unfolding open_pipes
  open_pipes-Piped l a0 =
      open_two _ no_handles l _ _ pipe a0 (λ p h. omega arith)
        λ p l1 a1. >>=-From (call-At _ l1 (laws.set_handle_information_lem p.1) a1) λ _ l2 a2.
          open_two _ _ l2 _ _ pipe a2 (λ q h. omega arith)
            λ q l3 a3. >>=-From (call-At _ l3 (laws.set_handle_information_lem q.0) a3) λ _ l4 a4.
              open_two _ _ l4 _ _ pipe a4 (λ e h. omega arith)
                λ e l5 a5.
                  weaken-From (call-At _ l5 (laws.set_handle_information_lem e.0) a5)
                    λ _ l6 a6. (p.0, p.1, q.0, q.1, e.0, e.1, a6)

  abbrev pub Fields : Ipc → Option ℕ → Option ℕ → Option ℕ → Type 0
  Fields ipc process pipe_in_w pipe_out_r =
      (ipc.process ≡ process) × (ipc.pipe_in_w ≡ pipe_in_w) × (ipc.pipe_out_r ≡ pipe_out_r)

  -- The process runs: its handle and two pipe ends are in the `struct ipc` as well.
  abbrev pub Running : Frame O → Type 0
  Running l =
      Held l
      × Fields l.world.ipc l.handles.h_process l.handles.in_w l.handles.out_r
      × ((x : ℕ) × (l.world.ipc.process ≡ some x))

  abbrev no_thread : Result (Unit {0}) × World O → Result (Unit {0}) × World O
  no_thread (ok a, w) = (ok a, w)
  no_thread (err e, w) = (err fail, w)

  thread_called :
      (l : Frame O) (r : Result (Unit {0}) × World O)
      → Running l
      → ((h : ℕ) → opened r.1.os h ≡ opened l.world.os h)
      → Fields r.1.ipc l.world.ipc.process l.world.ipc.pipe_in_w l.world.ipc.pipe_out_r
      → Ends (λ _. Running) (λ _. Held) ((no_thread r).0, record l { world = (no_thread r).1 })
  thread_called l (ok a, w) h k f =
      (λ n. k n ∙ h.0 n, (f.0 ∙ h.1.0, f.1 ∙ h.1.1, f.2 ∙ h.1.2), (h.2.0, f.0 ∙ h.2.1))
  thread_called l (err e, w) h k f = λ n. k n ∙ h.0 n

  map_error-no_thread :
      (w : World O) → map_error (λ _. fail) win.thrd_create w ≡ no_thread (win.thrd_create w)
  unfolding map_error finally
  map_error-no_thread w = by_result (win.thrd_create w)
    where
      by_result :
          (r : Result (Unit {0}) × World O)
          → elim r.0 [ ok a ↦ (ok a, r.1) | err e ↦ (err fail, r.1) ] ≡ no_thread r
      by_result (ok a, w') = refl
      by_result (err e, w') = refl

  thread-Running :
      (l : Frame O)
      → Running l
      → From l (λ _. Running) (λ _. Held) (call (map_error (λ _. fail) win.thrd_create))
  unfolding call
  thread-Running l h = record {
    ends = rw (map_error-no_thread l.world) (
        thread_called l (win.thrd_create l.world) h (laws.thrd_create_lem.0.keeps l.world)
          (laws.thrd_create_lem.1 l.world));
  }

  pub start_body-Running :
      (l : Frame O) → At no_handles l → From l (λ _. Running) (λ _. Held) (start_body lib win)
  unfolding start_body
  start_body-Running l a0 = >>=-From (open_pipes-Piped l a0) λ _ l1 (a, b, c, d, e, f, at).
      >>=-From {P = λ v l2. (v ≡ l1.handles) × (l2 ≡ l1)}
        (unfold handles_of in record { ends = (refl, refl) })
        λ v l2 s.
          rw (s.0, s.1)
            (open_two (λ p x. record x { h_process = some p.0; h_thread = some p.1 }) _ l1 _ _
              (launch-OpensTwo lib win opened laws l1.handles).opens at (λ p h. omega arith)
              λ p l3 a3.
                >>=-From {P = λ _. Running}
                  (unfold call in
                    record {
                      ends = (At-Held _ l3 a3, rw (a3.0, at.0) (refl, refl, refl), (p.0, refl));
                    })
                  λ _ l4 r4.
                    >>=-From (thread-Running l4 r4) λ _ l5 r5. unfold call in record { ends = r5 })
