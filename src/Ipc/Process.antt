-- ===== src/Ipc/Process.antt =====
-- How src/c/ipc.c starts and closes the renderer process.
use aviutl_psdtoolkit.Base.{
  map_error, ℕ, Bool, true, false, not, ◌||◌, [], ◌∷◌, Option, none, some, ◌==◌, if◌then◌else◌, M,
  ◌>>=◌, ◌>>◌, pure, raise, or_raise, Error, fail, unexpected, invalid_argument, null_pointer, hr,
  ptk, Result, ok, err, Wstr, Ovstr,
}
use aviutl_psdtoolkit.Ipc.State.{Ipc, World, Win32, run, ipc_of, set_ipc}
use aviutl_psdtoolkit.Ipc.Environment.{build_environment_strings, get_working_directory}

-- What `CreateProcessW` reports, as the code reports it.
unfoldable pub process_error : Error → Error
process_error (hr e) =
    if e == 0x80070002 then ptk 200 else if e == 0x80070005 then ptk 201 else hr e
process_error e = e

-- The handles that `start_process` holds in local variables.
pub record Handles : Type 0 where
  pub in_r : Option ℕ
  pub in_w : Option ℕ
  pub out_r : Option ℕ
  pub out_w : Option ℕ
  pub err_r : Option ℕ
  pub err_w : Option ℕ
  pub h_process : Option ℕ
  pub h_thread : Option ℕ

abbrev pub no_handles : Handles
no_handles = record {
  in_r = none;
  in_w = none;
  out_r = none;
  out_w = none;
  err_r = none;
  err_w = none;
  h_process = none;
  h_thread = none;
}

pub record Frame (O : Type 0) : Type 0 where
  pub handles : Handles
  pub world : World O

-- A call made in the function, and an assignment to its variables.
unfoldable pub call : {O A : Type 0} → M (World O) A → M (Frame O) A
call m l = let (r, w) = m l.world in (r, record l { world = w })

unfoldable pub assign : {O : Type 0} → (Handles → Handles) → M (Frame O) (Unit {0})
assign f l = (ok tt, record l { handles = f l.handles })

module _ {O : Type 0} (lib : Ovstr (World O)) (win : Win32 O) where
  -- The body of `start_process`, up to its cleanup.
  unfoldable pub open_pipes : M (Frame O) (Unit {0})
  open_pipes = do
    p ← call win.create_pipe
    assign (λ h. record h { in_r = some p.0; in_w = some p.1 })
    call (win.set_handle_information p.1)
    q ← call win.create_pipe
    assign (λ h. record h { out_r = some q.0; out_w = some q.1 })
    call (win.set_handle_information q.0)
    e ← call win.create_pipe
    assign (λ h. record h { err_r = some e.0; err_w = some e.1 })
    call (win.set_handle_information e.0)

  unfoldable pub launch : Handles → M (World O) (ℕ × ℕ)
  launch h = do
    envvar ← build_environment_strings lib win (some []) (some []) (some none)
    ipc ← ipc_of
    path ← lib.scpy ipc.cmdline
    dir ← get_working_directory lib win (some path) (some none)
    in_r ← or_raise h.in_r unexpected
    out_w ← or_raise h.out_w unexpected
    err_w ← or_raise h.err_w unexpected
    map_error process_error (win.create_process envvar path dir in_r out_w err_w)

  unfoldable pub handles_of : M (Frame O) Handles
  handles_of l = (ok l.handles, l)

  unfoldable pub start_body : M (Frame O) (Unit {0})
  start_body = do
    open_pipes
    h ← handles_of
    pi ← call (launch h)
    assign (λ h. record h { h_process = some pi.0; h_thread = some pi.1 })
    call (
        run (
          set_ipc
            λ ipc. record ipc { process = some pi.0; pipe_in_w = h.in_w; pipe_out_r = h.out_r }))
    call (map_error (λ _. fail) win.thrd_create)
    call (run (set_ipc λ ipc. record ipc { thread_running = true }))

  unfoldable pub close : Option ℕ → World O → World O
  close none w = w
  close (some h) w = win.close_handle h w

  unfoldable pub close_all : Handles → World O → World O
  close_all h w = close h.in_w (
      close h.in_r (
        close h.out_w
          (close h.out_r (close h.err_w (close h.err_r (close h.h_process (close h.h_thread w)))))))

  unfoldable pub start_cleanup : Result (Unit {0}) → Frame O → Result (Unit {0}) × World O
  start_cleanup (ok _) l =
      (ok tt, close_all (record l.handles { h_process = none; in_w = none; out_r = none }) l.world)
  start_cleanup (err e) l = (
    err e,
    close_all l.handles (
        set_ipc (λ ipc. record ipc { process = none; pipe_in_w = none; pipe_out_r = none })
          l.world),
  )

  unfoldable pub is_none : Option ℕ → Bool
  is_none none = true
  is_none (some h) = false

  unfoldable pub start_process : M (World O) (Unit {0})
  start_process w =
      let started = start_body (record { handles = no_handles; world = w }) in
      let ended = start_cleanup started.0 started.1 in
      if not (is_none w.ipc.process)
        || not (is_none w.ipc.pipe_in_w)
        || not (is_none w.ipc.pipe_out_r)
      then (err unexpected, w)
      else ended

  unfoldable pub alive : Option ℕ → World O → Bool
  alive none w = false
  alive (some h) w = win.is_alive h w

  unfoldable pub is_process_running : World O → Bool
  is_process_running w = alive w.ipc.process w

  unfoldable pub join_thread : Bool → World O → World O
  join_thread false w = w
  join_thread true w = set_ipc (λ ipc. record ipc { thread_running = false }) (win.thrd_join w)

  -- Each handle is forgotten after it is closed.
  unfoldable pub close_pipe_in : World O → World O
  close_pipe_in w = set_ipc (λ ipc. record ipc { pipe_in_w = none }) (close w.ipc.pipe_in_w w)

  unfoldable pub close_pipe_out : World O → World O
  close_pipe_out w = set_ipc (λ ipc. record ipc { pipe_out_r = none }) (close w.ipc.pipe_out_r w)

  unfoldable pub close_process_handle : World O → World O
  close_process_handle w = set_ipc (λ ipc. record ipc { process = none }) (close w.ipc.process w)

  unfoldable pub close_process : World O → World O
  close_process w =
      let w' = close_process_handle (close_pipe_out (close_pipe_in w)) in
      join_thread w'.ipc.thread_running w'

  -- What is left of the `struct ipc` is then freed.
  unfoldable pub ipc_exit : World O → World O
  ipc_exit w =
      let w' = if is_process_running w then close_process w else w in
      win.mtx_destroy (win.exit_c2s (win.exit_s2c w'))

-- `ipc_init`, with the options' command line; `mem` is the allocator of ovbase.
unfoldable pub ipc_init :
    {W : Type 0} → Ovstr W → M W (Unit {0}) → Option Wstr → Option (Unit {0}) → M W Ipc
ipc_init lib mem none dest = raise invalid_argument
ipc_init lib mem (some none) dest = raise invalid_argument
ipc_init lib mem (some (some [])) dest = raise invalid_argument
ipc_init lib mem (some (some (c ∷ cs))) none = raise null_pointer
ipc_init lib mem (some (some (c ∷ cs))) (some _) = do
  mem
  cmdline ← lib.scpy (c ∷ cs)
  pure (record {
    cmdline = cmdline;
    process = none;
    pipe_in_w = none;
    pipe_out_r = none;
    c2s = 0;
    s2c = 0;
    reply = none;
    thread_running = false;
  })
