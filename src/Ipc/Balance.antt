-- ===== src/Ipc/Balance.antt =====
-- The handles that `start_process` of src/c/ipc.c leaves open.
use aviutl_psdtoolkit.Base.{
  own, ℕ, ◌+◌, ◌-◌, false, not, ◌||◌, Option, none, some, Result, ok, err, Ovstr, Ends, From, ◌≡◌,
  refl, ap, ◌∙◌, arith,
}
use aviutl_psdtoolkit.Ipc.State.{Ipc, World, Win32, set_ipc}
use aviutl_psdtoolkit.Ipc.Process.{
  Handles, no_handles, Frame, start_body, close, close_all, start_cleanup, is_none, start_process,
}
use aviutl_psdtoolkit.Ipc.Handles.{HandleLaws}
use aviutl_psdtoolkit.Ipc.Started.{held, Held, Fields, Running, start_body-Running}

module _ {O : Type 0} (lib : Ovstr (World O)) (win : Win32 O) (opened : O → ℕ → ℕ)
    (laws : HandleLaws lib win opened) (w0 : World O) where
  close-own :
      (o : Option ℕ) (w : World O)
      → ((h : ℕ) → opened (close lib win o w).os h ≡ opened w.os h - own o h)
        × ((close lib win o w).ipc ≡ w.ipc)
  unfolding close
  close-own none w = (λ h. omega arith, refl)
  close-own (some x) w = laws.close_handle_lem x w

  close_all-held :
      (v : Handles) (w : World O)
      → ((h : ℕ) → opened (close_all lib win v w).os h ≡ opened w.os h - held v h)
        × ((close_all lib win v w).ipc ≡ w.ipc)
  unfolding close_all
  close_all-held v w =
      let w1 = close lib win v.h_thread w in
      let w2 = close lib win v.h_process w1 in
      let w3 = close lib win v.err_r w2 in
      let w4 = close lib win v.err_w w3 in
      let w5 = close lib win v.out_r w4 in
      let w6 = close lib win v.out_w w5 in
      let w7 = close lib win v.in_r w6 in
      let c1 = close-own v.h_thread w in
      let c2 = close-own v.h_process w1 in
      let c3 = close-own v.err_r w2 in
      let c4 = close-own v.err_w w3 in
      let c5 = close-own v.out_r w4 in
      let c6 = close-own v.out_w w5 in
      let c7 = close-own v.in_r w6 in
      let c8 = close-own v.in_w w7 in
      (
        λ h. omega (arith, c1.0 h, c2.0 h, c3.0 h, c4.0 h, c5.0 h, c6.0 h, c7.0 h, c8.0 h),
        c8.1 ∙ c7.1 ∙ c6.1 ∙ c5.1 ∙ c4.1 ∙ c3.1 ∙ c2.1 ∙ c1.1,
      )

  abbrev pub Balanced : World O → Type 0
  Balanced w =
      (h : ℕ)
      → opened w.os h
        ≡ opened w0.os h + own w.ipc.process h + own w.ipc.pipe_in_w h + own w.ipc.pipe_out_r h

  cleaned :
      (r : Result (Unit {0})) (l : Frame O)
      → Ends (λ _. (Running lib win opened laws w0)) (λ _. (Held lib win opened laws w0)) (r, l)
      → Ends
          (λ _ w'. Balanced w' × ((x : ℕ) × (w'.ipc.process ≡ some x)))
          (λ e w'.
            ((h : ℕ) → opened w'.os h ≡ opened w0.os h)
            × Fields lib win opened laws w0 w'.ipc none none none)
          (start_cleanup lib win r l)
  unfolding start_cleanup
  cleaned (ok a) l h =
      let v = record l.handles { h_process = none; in_w = none; out_r = none } in
      let c = close_all-held v l.world in
      let f = h.1 in
      let p = ap (λ (ipc : Ipc). ipc.process) c.1 ∙ f.0 in
      let i = ap (λ (ipc : Ipc). ipc.pipe_in_w) c.1 ∙ f.1 in
      let o = ap (λ (ipc : Ipc). ipc.pipe_out_r) c.1 ∙ f.2 in
      (
        λ n. omega (
          arith,
          c.0 n,
          h.0 n,
          ap (λ (x : Option ℕ). own x n) p,
          ap (λ (x : Option ℕ). own x n) i,
          ap (λ (x : Option ℕ). own x n) o,
        ),
        (h.2.0, ap (λ (ipc : Ipc). ipc.process) c.1 ∙ h.2.1),
      )
  cleaned (err e) l h =
      let w1 =
        set_ipc (λ ipc. record ipc { process = none; pipe_in_w = none; pipe_out_r = none })
          l.world in
      let c = close_all-held l.handles w1 in
      (λ n. omega (arith, c.0 n, h n), rw c.1 (refl, refl, refl))

  -- With the documented effect of each system call on the open handles, and a struct ipc that
  -- holds no handle: if start_process succeeds, exactly the process handle and the two pipe ends
  -- in the struct ipc are open beyond those before, and the process handle is there; if it fails
  -- at any call, no handle is left open and none is in the struct ipc.
  pub start_process-handles :
      Fields lib win opened laws w0 w0.ipc none none none
      → From w0
          (λ _ w'. Balanced w' × ((x : ℕ) × (w'.ipc.process ≡ some x)))
          (λ e w'.
            ((h : ℕ) → opened w'.os h ≡ opened w0.os h)
            × Fields lib win opened laws w0 w'.ipc none none none)
          (start_process lib win)
  unfolding start_process is_none
  start_process-handles f =
      let l0 : Frame O = record { handles = no_handles; world = w0 } in
      let body = (start_body-Running lib win opened laws w0 l0 (refl, λ h. omega arith)).ends in
      let clear : (not (is_none lib win w0.ipc.process)
            || not (is_none lib win w0.ipc.pipe_in_w)
            || not (is_none lib win w0.ipc.pipe_out_r))
          ≡ false =
        rw (f.0, f.1, f.2) refl in
      record { ends = rw clear (cleaned (start_body lib win l0).0 (start_body lib win l0).1 body) }
