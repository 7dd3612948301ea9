-- ===== src/Ipc/Wire.antt =====
-- `read`, `write` and the strings of src/c/ipc.c.
use Prim.Native.Nat.{bit_or}
use aviutl_psdtoolkit.Base.{
  ℕ, zero, suc, ◌+◌, ◌-◌, ◌*◌, ◌/◌, ◌%◌, ◌^◌, [], ◌∷◌, ◌++◌, ltb, if◌then◌else◌, length, drop,
  Chars, M, ◌>>=◌, ◌>>◌, pure, raise, overrun, Ovstr,
}
use aviutl_psdtoolkit.Ipc.State.{World, Win32, ipc_of}

-- The four bytes of a 32-bit number, the lowest first. A signed number stands for its bits.
abbrev pub u32 : ℕ → Chars
u32 n = n % 256 ∷ n / 256 % 256 ∷ n / 65536 % 256 ∷ n / 16777216 % 256 ∷ []

-- The number whose bytes these are.
abbrev pub from_bytes : Chars → ℕ
from_bytes [] = 0
from_bytes (b ∷ bs) = b + 256 * from_bytes bs

-- `FOURCC`
abbrev pub fourcc : ℕ → ℕ → ℕ → ℕ → ℕ
fourcc c0 c1 c2 c3 = bit_or (c3 * 2 ^ 24) (bit_or (c2 * 2 ^ 16) (bit_or (c1 * 2 ^ 8) c0))

module _ {O : Type 0} (lib : Ovstr (World O)) (win : Win32 O) where
  -- The loop of `read`, with `sz` bytes left. The fuel bounds the rounds: a successful call of
  -- `ReadFile` that reads nothing would be made again for ever.
  unfoldable pub read_loop : ℕ → ℕ → M (World O) Chars
  read_loop fuel zero = pure []
  read_loop zero (suc n) = raise overrun
  read_loop (suc fuel) (suc n) = do
    ipc ← ipc_of
    b ← win.read_file ipc.pipe_out_r (suc n)
    rest ← read_loop fuel (suc n - length b)
    pure (b ++ rest)

  unfoldable pub read : ℕ → M (World O) Chars
  read sz = read_loop sz sz

  -- `sz + 1` is computed in 32 bits.
  unfoldable pub read_string_utf8 : M (World O) Chars
  read_string_utf8 = do
    b ← read 4
    let sz = from_bytes b
    let cap = (sz + 1) % 2 ^ 32
    lib.sgrow cap
    if ltb cap sz then raise overrun else read sz

  -- The loop of `write`, on the bytes that are left.
  unfoldable pub write_loop : ℕ → Chars → M (World O) (Unit {0})
  write_loop fuel [] = pure tt
  write_loop zero (c ∷ b) = raise overrun
  write_loop (suc fuel) (c ∷ b) = do
    ipc ← ipc_of
    written ← win.write_file ipc.pipe_in_w (c ∷ b)
    write_loop fuel (drop written (c ∷ b))

  unfoldable pub write : Chars → M (World O) (Unit {0})
  write b = write_loop (length b) b

  unfoldable pub write_string_utf8 : Chars → M (World O) (Unit {0})
  write_string_utf8 s = do write (u32 (length s)); write s
