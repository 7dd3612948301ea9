-- ===== src/Ipc/Environment.antt =====
-- The environment and the working directory that src/c/ipc.c starts the renderer with.
use aviutl_psdtoolkit.Base.{
  finally, ℕ, zero, suc, ◌+◌, Bool, false, ◌&&◌, [], ◌∷◌, ◌++◌, Option, none, some, leb, ◌==◌,
  if◌then◌else◌, length, take, get_or, c_str, Chars, M, ◌>>=◌, ◌>>◌, pure, raise, fail,
  invalid_argument, null_pointer, overrun, hr, Wstr, Ovstr,
}
use aviutl_psdtoolkit.Ptklayer.Types.{wcsncmp_eq}
use aviutl_psdtoolkit.Ptklayer.Parse.{behind}
use aviutl_psdtoolkit.Ipc.State.{World, Win32}

-- A variable `key=value` of the environment, where the key is not empty.
unfoldable pub has_key : Chars → Chars → Bool
has_key key src =
    let l = length (c_str src) in
    leb (length key + 1) l && wcsncmp_eq src key (length key) && get_or src (length key) 0 == b'='

-- `key && key->len && …`
unfoldable pub skips : Option Chars → Chars → Bool
skips none src = false
skips (some []) src = false
skips (some (k ∷ ks)) src = has_key (k ∷ ks) src

unfoldable pub text_of : Option Chars → Chars
text_of none = []
text_of (some s) = s

-- Up to where the character stands, or the end.
unfoldable pub until : ℕ → Chars → ℕ
until ch [] = 0
until ch (c ∷ cs) = let n = until ch cs in if c == ch then 0 else n + 1

module _ {O : Type 0} (lib : Ovstr (World O)) (win : Win32 O) where
  -- The loop of `build_environment_strings`, with the text so far. The fuel bounds the rounds.
  unfoldable pub copy_environment : Option Chars → ℕ → Chars → Chars → M (World O) Chars
  copy_environment key fuel [] tmp = pure tmp
  copy_environment key zero (c ∷ cs) tmp = if c == 0 then pure tmp else raise overrun
  copy_environment key (suc fuel) (c ∷ cs) tmp =
      let l = length (c_str (c ∷ cs)) in
      let skip = copy_environment key fuel (behind (c ∷ cs)) tmp in
      let copy = lib.sgrow (length tmp + l + 1) >>= λ _.
      copy_environment key fuel (behind (c ∷ cs)) (tmp ++ take (l + 1) (c ∷ cs)) in
      if c == 0 then pure tmp else if skips key (c ∷ cs) then skip else copy

  unfoldable pub append_variable : Option Chars → Option Chars → Chars → M (World O) Chars
  append_variable none value tmp = pure tmp
  append_variable (some []) value tmp = pure tmp
  append_variable (some (k ∷ ks)) value tmp = do
    lib.sgrow (length tmp + (length (k ∷ ks) + 1 + length (text_of value)) + 1)
    pure (tmp ++ ((k ∷ ks) ++ (b'=' ∷ (text_of value ++ 0 ∷ []))))

  unfoldable pub environment_with : Option Chars → Option Chars → Chars → M (World O) Chars
  environment_with key value envstr = do
    tmp ← copy_environment key (length envstr) envstr []
    tmp ← append_variable key value tmp
    lib.sgrow (length tmp + 1)
    let tmp = tmp ++ 0 ∷ []
    lib.sgrow (length tmp)
    pure tmp

  -- At its end, also after an error, the function frees what `GetEnvironmentStringsW` gave.
  unfoldable pub use_environment : Option Chars → Option Chars → Option Chars → M (World O) Chars
  use_environment none key value = raise fail
  use_environment (some envstr) key value =
      finally (environment_with key value envstr) (λ r w. (r, win.free_environment_strings w))

  unfoldable pub build_environment_strings :
      Option Chars → Option Chars → Option Wstr → M (World O) Chars
  build_environment_strings key value none = raise null_pointer
  build_environment_strings key value (some _) = do
    envstr ← win.get_environment_strings
    use_environment envstr key value

  -- The program's path in the command line.
  unfoldable pub program_path : Chars → M (World O) Chars
  program_path [] = raise invalid_argument
  program_path (c ∷ cs) =
      if c == b'"' then lib.sncpy cs (until b'"' cs) else lib.sncpy (c ∷ cs) (until b' ' (c ∷ cs))

  unfoldable pub directory_of : Chars × Option ℕ → M (World O) Chars
  directory_of (path, none) w = raise (hr (win.get_last_error w)) w
  directory_of (path, some fn) w = lib.scpy (take fn path) w

  unfoldable pub get_working_directory : Wstr → Option Wstr → M (World O) Chars
  get_working_directory none dir = raise invalid_argument
  get_working_directory (some []) dir = raise invalid_argument
  get_working_directory (some (c ∷ cs)) none = raise null_pointer
  get_working_directory (some (c ∷ cs)) (some _) = do
    tmp ← program_path (c ∷ cs)
    dirlen ← win.full_path_name_length tmp
    lib.sgrow dirlen
    found ← win.full_path_name tmp
    directory_of found
