-- ===== src/Ipc/Tests.antt =====
-- Runs of the functions of src/c/ipc.c, and the theorems at concrete inputs.
use aviutl_psdtoolkit.Base.{
  ℕ, true, [], ◌++◌, none, some, Chars, codes, ◌>>=◌, ok, From, ◌≤◌, ◌≢◌, ◌≡◌, refl, arith,
}
use aviutl_psdtoolkit.Plain.{plain_on}
use aviutl_psdtoolkit.Ipc.State.{World}
use aviutl_psdtoolkit.Ipc.Wire.{u32, fourcc, read, read_string_utf8, read_loop}
use aviutl_psdtoolkit.Ipc.Requests.{ImageState, FaviewSlider, LayerNames}
use aviutl_psdtoolkit.Ipc.Worker.{read_message}
use aviutl_psdtoolkit.Ipc.Process.{start_process}
use aviutl_psdtoolkit.Ipc.Commands.{PropertyOptions, write_properties}
use aviutl_psdtoolkit.Ipc.Transfer.{Took, read-From}
use aviutl_psdtoolkit.Ipc.Messages.{string, Gives, read_string_utf8-string}
use aviutl_psdtoolkit.Ipc.Serve.{Served, read_message-faview_slider}
use aviutl_psdtoolkit.Ipc.Properties.{properties, read_properties}
use aviutl_psdtoolkit.Ipc.Sending.{write_properties-read}
use aviutl_psdtoolkit.Ipc.Started.{Fields}
use aviutl_psdtoolkit.Ipc.Balance.{Balanced, start_process-handles}
use aviutl_psdtoolkit.Ipc.Commands.{ipc_set_properties, ipc_get_layer_names}
use aviutl_psdtoolkit.Ipc.Process.{is_process_running, alive}
use aviutl_psdtoolkit.Ipc.Exchange.{
  Exchanged, ipc_set_properties-exchange, ipc_get_layer_names-exchange,
}
use aviutl_psdtoolkit.Ipc.Handover.{
  awaiting, payload, gone, header, waiting, at, begin, launch_reader, send, fail_early, reply,
  take_reply, resume, Reachable, initial, next, failures_of, BothRead-needs_failure,
  awaiting_gone-Deadlock, IsStuck,
}
use aviutl_psdtoolkit.Ipc.Machine.{
  Machine, machine, incoming_of, outgoing_of, BrokenPipe, machine-PipeLaws, machine-ThreadLaws,
  running, opened_in, machine-HandleLaws, receiving, ascii, no_callbacks,
}

run_read :
    (read_string_utf8 plain_on machine (receiving (string (codes "psd") ++ codes "x"))).0
    ≡ ok (codes "psd")
unfolding read_string_utf8 read read_loop ◌>>=◌
run_read = refl

read-From_example :
    From
      (receiving (codes "psd"))
      (Took plain_on machine incoming_of outgoing_of machine-PipeLaws (receiving (codes "psd")) 2)
      (λ e _. BrokenPipe e)
      (read plain_on machine 2)
read-From_example =
    read-From plain_on machine incoming_of outgoing_of machine-PipeLaws 2 (receiving (codes "psd"))

read_string_utf8-string_example :
    From
      (receiving (string (codes "psd") ++ codes "x"))
      (Gives plain_on machine incoming_of outgoing_of machine-PipeLaws
        (receiving (string (codes "psd") ++ codes "x"))
        (codes "x")
        (codes "psd"))
      (λ e _. BrokenPipe e)
      (read_string_utf8 plain_on machine)
read_string_utf8-string_example =
    read_string_utf8-string plain_on machine incoming_of outgoing_of machine-PipeLaws (codes "psd")
      (codes "x") _ (omega arith) refl

abbrev state : ImageState
state = record { file_path_utf8 = codes "a.psd"; state_utf8 = codes "L.0" }

abbrev state_request : World Machine
state_request = receiving (
    u32 (fourcc b'E' b'D' b'I' b'S')
    ++ (string (codes "a.psd") ++ (string (codes "L.0") ++ codes "x")))

abbrev slider : FaviewSlider
slider = record {
  file_path_utf8 = codes "a.psd";
  slider_name_utf8 = codes "eye";
  names_utf8 = codes "x";
  values_utf8 = codes "y";
  selected_index = 1;
}

abbrev slider_request : World Machine
slider_request = receiving (
    u32 (fourcc b'E' b'X' b'F' b'S')
    ++ (string (codes "a.psd")
        ++ (string (codes "eye") ++ (string (codes "x") ++ (string (codes "y") ++ (u32 1 ++ []))))))

read_message-faview_slider_example :
    From slider_request
      (λ _.
        Served plain_on machine incoming_of outgoing_of machine-PipeLaws none slider slider_request
          [])
      (λ e _. BrokenPipe e)
      (read_message plain_on machine ascii no_callbacks)
read_message-faview_slider_example =
    read_message-faview_slider plain_on machine incoming_of outgoing_of machine-PipeLaws ascii
      no_callbacks slider [] slider_request (omega arith) (omega arith) (omega arith) (omega arith)
      (omega arith) refl

abbrev layers : LayerNames
layers = record {
  file_path_utf8 = codes "a.psd";
  names_utf8 = codes "x";
  values_utf8 = codes "y";
  selected_index = 1;
}

abbrev layers_request : World Machine
layers_request = receiving (
    u32 (fourcc b'E' b'X' b'L' b'N')
    ++ (string (codes "a.psd") ++ (string (codes "x") ++ (string (codes "y") ++ (u32 1 ++ [])))))

abbrev options : PropertyOptions
options = record {
  tag = some 7;
  layer_utf8 = some (codes "L.0");
  scale = none;
  offset_x = some 3;
  offset_y = none;
}

write_properties-read_example :
    From
      (receiving [])
      (λ _ w'.
        (b : Chars) × (w'.os.outgoing ≡ [] ++ b)
        × ((rest : Chars) → read_properties (b ++ rest) ≡ some (options, rest)))
      (λ e _. BrokenPipe e)
      (write_properties plain_on machine options)
write_properties-read_example =
    write_properties-read plain_on machine incoming_of outgoing_of machine-PipeLaws options
      (receiving []) (omega arith, omega arith, tt, omega arith, tt)

start_process-handles_example :
    From
      (receiving [])
      (λ _ w'.
        Balanced plain_on machine opened_in machine-HandleLaws (receiving []) w'
        × ((x : ℕ) × (w'.ipc.process ≡ some x)))
      (λ e w'.
        ((h : ℕ) → opened_in w'.os h ≡ 0)
        × Fields plain_on machine opened_in machine-HandleLaws (receiving []) w'.ipc none none none)
      (start_process plain_on machine)
start_process-handles_example =
    start_process-handles plain_on machine opened_in machine-HandleLaws (receiving [])
      (refl, refl, refl)

-- `cndvar_signal` stores the value, and a wait while the variable is 0 returns when it is not.
abbrev store : ℕ → ℕ → ℕ
store c v = v

abbrev NotZero : ℕ → Type 0
NotZero v = v ≢ 0

-- A command fails, and at the next one both threads read.
run_both : Reachable store NotZero (at payload header 0 0 1)
run_both =
    next _ _
      (next _ _
        (next _ _
          (next _ _
            (next _ _
              (next _ _ (next _ _ (next _ _ initial (begin gone 0 0 0)) (fail_early gone 0 0 0))
                (begin gone 1 0 1))
              (launch_reader 1 0 1))
            (send header 1 0 1 (λ e. cc)))
          (reply 1 0 1))
        (take_reply waiting 1 1 1 (omega arith)))
      (resume payload 1 0 1 (omega arith))

BothRead-needs_failure_example : 1 ≤ failures_of (at payload header 0 0 1)
BothRead-needs_failure_example =
    BothRead-needs_failure store NotZero (λ c v. refl) (λ v h. h) (at payload header 0 0 1) run_both
      tt

awaiting_gone-Deadlock_example :
    Reachable store NotZero (at awaiting gone 0 0 0)
    × ((c s : ℕ)
        → Reachable store NotZero (at awaiting gone c s 0)
        → IsStuck store NotZero (at awaiting gone c s 0))
awaiting_gone-Deadlock_example = awaiting_gone-Deadlock store NotZero (λ c v. refl) (λ v h. h)

abbrev replied : World Machine
replied = running (u32 0x80000000 ++ (u32 1 ++ (u32 9 ++ (u32 640 ++ (u32 480 ++ [])))))

ipc_set_properties-exchange_example :
    From replied
      (Exchanged plain_on machine incoming_of outgoing_of machine-PipeLaws machine-ThreadLaws
        replied
        (u32 (fourcc b'P' b'R' b'O' b'P')
          ++ (u32 2 ++ (string (codes "a.psd") ++ properties options)))
        []
        (record { modifiled = true; cache_key = 9; width = 640; height = 480 }))
      (λ e _. BrokenPipe e)
      (ipc_set_properties plain_on machine 2 (codes "a.psd") options)
unfolding is_process_running alive
ipc_set_properties-exchange_example =
    ipc_set_properties-exchange plain_on machine incoming_of outgoing_of machine-PipeLaws
      machine-ThreadLaws 2 (codes "a.psd") options 1 9 640 480 [] replied refl (omega arith)
      (omega arith) (omega arith) (omega arith) refl

abbrev named : World Machine
named = running (u32 0x80000000 ++ (string (codes "face") ++ codes "x"))

ipc_get_layer_names-exchange_example :
    From named
      (Exchanged plain_on machine incoming_of outgoing_of machine-PipeLaws machine-ThreadLaws named
        (u32 (fourcc b'L' b'N' b'A' b'M') ++ (u32 2 ++ string (codes "a.psd")))
        (codes "x")
        (codes "face"))
      (λ e _. BrokenPipe e)
      (ipc_get_layer_names plain_on machine 2 (codes "a.psd"))
unfolding is_process_running alive
ipc_get_layer_names-exchange_example =
    ipc_get_layer_names-exchange plain_on machine incoming_of outgoing_of machine-PipeLaws
      machine-ThreadLaws 2 (codes "a.psd") (codes "face") (codes "x") named refl (omega arith) refl
