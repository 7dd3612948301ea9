-- ===== src/Ipc/State.antt =====
-- The state of src/c/ipc.c, and the calls of Win32 and of ovbase's threads that it makes.
use aviutl_psdtoolkit.Base.{ℕ, Bool, Option, Chars, M, ok, Error}

-- `struct ipc`. A handle that is `INVALID_HANDLE_VALUE` is none, and a reply that is `eok()` too.
-- Of the condition variables the field `var` is kept.
pub record Ipc : Type 0 where
  pub cmdline : Chars
  pub process : Option ℕ
  pub pipe_in_w : Option ℕ
  pub pipe_out_r : Option ℕ
  pub c2s : ℕ
  pub s2c : ℕ
  pub reply : Option Error
  pub thread_running : Bool

pub record World (O : Type 0) : Type 0 where
  pub ipc : Ipc
  pub os : O

-- Each call may change the system's state. A call that reports an error ends in an HRESULT. The
-- calls whose result the code ignores only change the state; `cndvar_wait_while` lets the other
-- threads run, which may change the `struct ipc` as well.
pub record Win32 (O : Type 0) : Type 0 where
  pub read_file : Option ℕ → ℕ → M (World O) Chars
  pub write_file : Option ℕ → Chars → M (World O) ℕ
  pub create_pipe : M (World O) (ℕ × ℕ)
  pub set_handle_information : ℕ → M (World O) (Unit {0})
  pub get_last_error : World O → ℕ
  pub get_environment_strings : M (World O) (Option Chars)
  pub free_environment_strings : World O → World O
  pub full_path_name_length : Chars → M (World O) ℕ
  pub full_path_name : Chars → M (World O) (Chars × Option ℕ)
  pub create_process :
      (environment command_line directory : Chars) (input output error : ℕ) → M (World O) (ℕ × ℕ)
  pub is_alive : ℕ → World O → Bool
  pub close_handle : ℕ → World O → World O
  pub thrd_create : M (World O) (Unit {0})
  pub thrd_join : World O → World O
  pub mtx_destroy : World O → World O
  pub exit_c2s : World O → World O
  pub exit_s2c : World O → World O
  pub mtx_lock : World O → World O
  pub mtx_unlock : World O → World O
  pub signal_c2s : ℕ → World O → World O
  pub signal_s2c : ℕ → World O → World O
  pub wait_c2s : World O → World O
  pub wait_s2c : World O → World O

-- A call whose result is ignored.
abbrev pub run : {W : Type 0} → (W → W) → M W (Unit {0})
run f w = (ok tt, f w)

abbrev pub ipc_of : {O : Type 0} → M (World O) Ipc
ipc_of w = (ok w.ipc, w)

abbrev pub set_ipc : {O : Type 0} → (Ipc → Ipc) → World O → World O
set_ipc f w = record w { ipc = f w.ipc }
