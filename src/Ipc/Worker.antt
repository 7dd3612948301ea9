-- ===== src/Ipc/Worker.antt =====
-- The thread of src/c/ipc.c that reads what the renderer sends.
use Prim.Native.Nat.{bit_and}
use aviutl_psdtoolkit.Base.{
  finally, ℕ, zero, suc, ◌+◌, ◌==◌, if◌then◌else◌, Option, none, some, M, ◌>>=◌, ◌>>◌, pure, Error,
  remote, Result, ok, err, Ovstr,
}
use aviutl_psdtoolkit.Ptklayer.Types.{Convert}
use aviutl_psdtoolkit.Ipc.State.{World, Win32, set_ipc}
use aviutl_psdtoolkit.Ipc.Wire.{from_bytes, read}
use aviutl_psdtoolkit.Ipc.Requests.{Callbacks, read_request}

-- `rep`: eok() unless the body got as far as making an error of the text.
unfoldable pub rep_of : Result (Option Error) → Option Error
rep_of (ok rep) = rep
rep_of (err e) = none

module _ {O : Type 0} (lib : Ovstr (World O)) (win : Win32 O) (conv : Convert (World O)) where
  unfoldable pub read_reply_text : ℕ → M (World O) (Option Error)
  read_reply_text size = do
    lib.sgrow (size + 1)
    tmp ← read lib win size
    tmp2 ← conv.from_utf8 tmp
    pure (some (remote tmp2))

  -- The first part of the cleanup: the reply is handed over.
  unfoldable pub post_reply : Option Error → World O → World O
  post_reply rep w = win.signal_s2c 1 (set_ipc (λ ipc. record ipc { reply = rep }) w)

  -- The second part: the command's thread reads the rest of the reply itself.
  unfoldable pub await_command : World O → World O
  await_command w = win.mtx_unlock (set_ipc (λ ipc. record ipc { c2s = 0 }) (win.wait_c2s w))

  unfoldable pub hand_over : Result (Option Error) → World O → Result (Option Error) × World O
  hand_over r w = (r, await_command (post_reply (rep_of r) w))

  unfoldable pub read_reply : ℕ → M (World O) (Option Error)
  read_reply size =
      let text = read_reply_text size in finally (if size == 0 then pure none else text) hand_over

  module _ (on : Callbacks O) where
    -- One round of the loop of `read_worker`.
    unfoldable pub read_message : M (World O) (Unit {0})
    read_message = do
      b ← read lib win 4
      let sz = from_bytes b
      let request = read_request lib win on sz
      let reply = read_reply (bit_and sz 0x7fffffff) >>= λ _. pure tt
      if bit_and sz 0x80000000 == 0 then request else reply

    -- `n` rounds of the loop, which ends only at an error.
    unfoldable pub read_worker : ℕ → M (World O) (Unit {0})
    read_worker zero = pure tt
    read_worker (suc n) = read_message >>= λ _. read_worker n
