-- ===== src/Ipc/Machine.antt =====
-- A system on which src/c/ipc.c runs: one that transfers a byte at a time and never refuses.
use aviutl_psdtoolkit.Base.{
  own, ℕ, suc, ◌+◌, ◌-◌, true, false, [], ◌∷◌, ◌++◌, none, some, Chars, Error, hr, Result, ok, err,
  Ends, codes, drop, ap, length, ◌≤◌, pure, ◌≡◌, refl, arith,
}
use aviutl_psdtoolkit.Plain.{plain_on}
use aviutl_psdtoolkit.Ptklayer.Types.{Convert}
use aviutl_psdtoolkit.Ipc.State.{Ipc, World, Win32, set_ipc}
use aviutl_psdtoolkit.Ipc.Requests.{Callbacks}
use aviutl_psdtoolkit.Ipc.Transfer.{PipeLaws}
use aviutl_psdtoolkit.Ipc.Exchange.{ThreadLaws}
use aviutl_psdtoolkit.Ipc.Handles.{Keeps, HandleLaws}

pub record Machine : Type 0 where
  pub incoming : Chars
  pub outgoing : Chars
  pub opened : ℕ → ℕ
  pub next : ℕ

abbrev broken_pipe : Error
broken_pipe = hr 0x8007006d

abbrev read_byte : Chars → World Machine → Result Chars × World Machine
read_byte [] w = (err broken_pipe, w)
read_byte (c ∷ cs) w = (ok (c ∷ []), record w { os = record w.os { incoming = cs } })

abbrev write_byte : Chars → World Machine → Result ℕ × World Machine
write_byte [] w = (ok 0, w)
write_byte (c ∷ cs) w =
    (ok 1, record w { os = record w.os { outgoing = w.os.outgoing ++ (c ∷ []) } })

abbrev open_pair : World Machine → Result (ℕ × ℕ) × World Machine
open_pair w =
    let a = w.os.next in
    (
      ok (a, a + 1),
      record w {
        os = record w.os {
          opened = λ h. w.os.opened h + own (some a) h + own (some (a + 1)) h;
          next = a + 2;
        };
      },
    )

abbrev pub machine : Win32 Machine
machine = record {
  read_file = λ _ n w. read_byte w.os.incoming w;
  write_file = λ _ b w. write_byte b w;
  create_pipe = open_pair;
  set_handle_information = λ h. pure tt;
  get_last_error = λ w. 0;
  get_environment_strings = pure (some (0 ∷ []));
  free_environment_strings = λ w. w;
  full_path_name_length = λ s. pure 260;
  full_path_name = λ s. pure (s, some 0);
  create_process = λ _ _ _ _ _ _ w. open_pair w;
  is_alive = λ h w. true;
  close_handle =
      λ x w. record w { os = record w.os { opened = λ h. w.os.opened h - own (some x) h } };
  thrd_create = pure tt;
  thrd_join = λ w. w;
  mtx_destroy = λ w. w;
  exit_c2s = λ w. w;
  exit_s2c = λ w. w;
  mtx_lock = λ w. w;
  mtx_unlock = λ w. w;
  signal_c2s = λ n w. set_ipc (λ ipc. record ipc { c2s = n }) w;
  signal_s2c = λ n w. set_ipc (λ ipc. record ipc { s2c = n }) w;
  wait_c2s = λ w. w;
  wait_s2c = λ w. record {
    ipc = record w.ipc { reply = none };
    os = record w.os { incoming = drop 4 w.os.incoming };
  };
}

abbrev pub incoming_of : World Machine → Chars
incoming_of w = w.os.incoming

abbrev pub outgoing_of : World Machine → Chars
outgoing_of w = w.os.outgoing

abbrev pub BrokenPipe : Error → Type 0
BrokenPipe e = e ≡ broken_pipe

one_byte :
    (s : Chars) (w : World Machine) (n : ℕ)
    → w.os.incoming ≡ s
    → Ends
        (λ b w'.
          (1 ≤ length b)
          × (length b ≤ suc n)
          × (w.os.incoming ≡ b ++ w'.os.incoming)
          × (w'.os.outgoing ≡ w.os.outgoing)
          × (w'.ipc ≡ w.ipc))
        (λ e _. BrokenPipe e)
        (read_byte s w)
one_byte [] w n e = refl
one_byte (c ∷ cs) w n e = (omega arith, omega arith, e, refl, refl)

pub machine-PipeLaws : PipeLaws plain_on machine incoming_of outgoing_of BrokenPipe
machine-PipeLaws = record {
  read_file_lem = λ w n. record { ends = one_byte w.os.incoming w n refl };
  write_file_lem = λ w c b. record { ends = (omega arith, omega arith, refl, refl, refl) };
  sgrow_lem = λ w n. record { ends = (refl, refl, refl) };
}

abbrev pub opened_in : Machine → ℕ → ℕ
opened_in o = o.opened

nothing_opened : {A : Type 0} {a : A} → Keeps opened_in (λ (w : World Machine). (ok a, w))
nothing_opened = record { keeps = λ w h. refl }

pub machine-HandleLaws : HandleLaws plain_on machine opened_in
machine-HandleLaws = record {
  create_pipe_lem = λ w h. refl;
  create_process_lem = λ _ _ _ _ _ _ w h. refl;
  close_handle_lem = λ x w. (λ h. refl, refl);
  thrd_create_lem = (nothing_opened, λ w. (refl, refl, refl));
  set_handle_information_lem = λ x. nothing_opened;
  get_environment_strings_lem = nothing_opened;
  free_environment_strings_lem = nothing_opened;
  full_path_name_length_lem = λ s. nothing_opened;
  full_path_name_lem = λ s. nothing_opened;
  sgrow_lem = λ n. nothing_opened;
  scpy_lem = λ s. nothing_opened;
  sncpy_lem = λ s n. nothing_opened;
}

abbrev pub ipc0 : Ipc
ipc0 = record {
  cmdline = codes "PSDToolKit.exe";
  process = none;
  pipe_in_w = none;
  pipe_out_r = none;
  c2s = 0;
  s2c = 0;
  reply = none;
  thread_running = false;
}

-- A world in which these bytes come in.
abbrev pub receiving : Chars → World Machine
receiving s = record {
  ipc = ipc0;
  os = record { incoming = s; outgoing = []; opened = λ h. 0; next = 4 };
}

abbrev pub ascii : Convert (World Machine)
ascii = record { from_utf8 = pure }

abbrev pub no_callbacks : Callbacks Machine
no_callbacks = record {
  on_update_editing_image_state = none;
  on_export_faview_slider = none;
  on_export_layer_names = none;
}

pub machine-ThreadLaws : ThreadLaws machine incoming_of outgoing_of
machine-ThreadLaws = record {
  mtx_lock_lem = λ w. (refl, refl);
  mtx_unlock_lem = λ w. (refl, refl);
  signal_c2s_lem = λ n w. (refl, refl);
  wait_s2c_lem = λ w rest e. (ap (drop 4) e, refl, refl);
  set_ipc_lem = λ f w. (refl, refl);
}

-- The same with a process that runs.
abbrev pub running : Chars → World Machine
running s = record {
  ipc = record ipc0 {
    process = some 1;
    pipe_in_w = some 2;
    pipe_out_r = some 3;
    thread_running = true;
  };
  os = record { incoming = s; outgoing = []; opened = λ h. 0; next = 4 };
}
