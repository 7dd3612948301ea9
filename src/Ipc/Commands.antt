-- ===== src/Ipc/Commands.antt =====
-- The commands that src/c/ipc.c sends to the renderer.
use aviutl_psdtoolkit.Base.{
  finally, ℕ, ◌*◌, ◌%◌, ◌^◌, Bool, not, Option, none, some, ltb, ◌==◌, if◌then◌else◌, Chars, M,
  ◌>>=◌, ◌>>◌, pure, raise, Error, not_sufficient_buffer, Result, ok, Ovstr,
}
use aviutl_psdtoolkit.Ipc.State.{World, Win32, run, ipc_of, set_ipc}
use aviutl_psdtoolkit.Ipc.Wire.{
  u32, from_bytes, fourcc, read, read_string_utf8, write, write_string_utf8,
}
use aviutl_psdtoolkit.Ipc.Process.{is_process_running, close_process, start_process}

pub record PropertyOptions : Type 0 where
  pub tag : Option ℕ
  pub layer_utf8 : Option Chars
  pub scale : Option ℕ
  pub offset_x : Option ℕ
  pub offset_y : Option ℕ

pub record PropertyResults : Type 0 where
  pub modifiled : Bool
  pub cache_key : ℕ
  pub width : ℕ
  pub height : ℕ

unfoldable pub reply_of : {W : Type 0} → Option Error → M W (Unit {0})
reply_of none = pure tt
reply_of (some e) = raise e

module _ {O : Type 0} (lib : Ovstr (World O)) (win : Win32 O) where
  unfoldable pub ensure_process : M (World O) (Unit {0})
  ensure_process w =
      let started = start_process lib win (close_process lib win w) in
      if is_process_running lib win w then (ok tt, w) else started

  unfoldable pub start_command_process : ℕ → M (World O) (Unit {0})
  start_command_process msgid = do run win.mtx_lock; ensure_process; write lib win (u32 msgid)

  -- The wait lets the reading thread run until it has signalled.
  unfoldable pub get_reply : M (World O) (Unit {0})
  get_reply = do
    run win.wait_s2c
    ipc ← ipc_of
    run (set_ipc λ ipc. record ipc { s2c = 0; reply = none })
    reply_of ipc.reply

  unfoldable pub finish_command_process : {A : Type 0} → Result A → World O → Result A × World O
  finish_command_process r w = (r, win.mtx_unlock (win.signal_c2s 1 w))

  -- What all commands share: each error on the way ends at the label `cleanup`.
  unfoldable pub command : {A : Type 0} → ℕ → M (World O) A → M (World O) A
  command msgid body = finally (start_command_process msgid >>= λ _. body) finish_command_process

  unfoldable pub ipc_add_file : Chars → ℕ → M (World O) (Unit {0})
  ipc_add_file path_utf8 tag =
      command (fourcc b'A' b'D' b'D' b'F')
        do write_string_utf8 lib win path_utf8; write lib win (u32 tag); get_reply

  unfoldable pub ipc_clear_files : M (World O) (Unit {0})
  ipc_clear_files = command (fourcc b'C' b'L' b'R' b'F') get_reply

  unfoldable pub ipc_deserialize : Chars → M (World O) (Unit {0})
  ipc_deserialize src_utf8 =
      command (fourcc b'D' b'S' b'L' b'Z')
        do write_string_utf8 lib win src_utf8; get_reply; r ← read lib win 4; pure tt

  unfoldable pub read_image : ℕ → ℕ → M (World O) Chars
  read_image width height = do
    b ← read lib win 4
    let sz = from_bytes b
    if ltb (width * 4 * height % 2 ^ 32) sz then raise not_sufficient_buffer else read lib win sz

  -- The result is what is written to the buffer at `p`.
  unfoldable pub ipc_draw : ℕ → Chars → ℕ → ℕ → M (World O) Chars
  ipc_draw id path_utf8 width height = command (fourcc b'D' b'R' b'A' b'W') do
    write lib win (u32 id)
    write_string_utf8 lib win path_utf8
    write lib win (u32 width)
    write lib win (u32 height)
    get_reply
    read_image width height

  unfoldable pub ipc_get_layer_names : ℕ → Chars → M (World O) Chars
  ipc_get_layer_names id path_utf8 = command (fourcc b'L' b'N' b'A' b'M') do
    write lib win (u32 id)
    write_string_utf8 lib win path_utf8
    get_reply
    read_string_utf8 lib win

  unfoldable pub ipc_serialize : M (World O) Chars
  ipc_serialize = command (fourcc b'S' b'R' b'L' b'Z') do get_reply; read_string_utf8 lib win

  unfoldable pub write_u32_property : ℕ → Option ℕ → M (World O) (Unit {0})
  write_u32_property propid none = pure tt
  write_u32_property propid (some v) = do write lib win (u32 propid); write lib win (u32 v)

  unfoldable pub write_string_property : ℕ → Option Chars → M (World O) (Unit {0})
  write_string_property propid none = pure tt
  write_string_property propid (some s) = do write lib win (u32 propid); write_string_utf8 lib win s

  unfoldable pub write_properties : PropertyOptions → M (World O) (Unit {0})
  write_properties options = do
    write_u32_property 5 options.tag
    write_string_property 1 options.layer_utf8
    write_u32_property 2 options.scale
    write_u32_property 3 options.offset_x
    write_u32_property 4 options.offset_y
    write lib win (u32 0)

  unfoldable pub read_results : M (World O) PropertyResults
  read_results = do
    modifiled ← read lib win 4
    cache_key ← read lib win 4
    width ← read lib win 4
    height ← read lib win 4
    pure (record {
      modifiled = not (from_bytes modifiled == 0);
      cache_key = from_bytes cache_key;
      width = from_bytes width;
      height = from_bytes height;
    })

  unfoldable pub ipc_set_properties : ℕ → Chars → PropertyOptions → M (World O) PropertyResults
  ipc_set_properties id path_utf8 options = command (fourcc b'P' b'R' b'O' b'P') do
    write lib win (u32 id)
    write_string_utf8 lib win path_utf8
    write_properties options
    get_reply
    read_results

  unfoldable pub ipc_show_gui : M (World O) ℕ
  ipc_show_gui =
      command (fourcc b'S' b'G' b'U' b'I') do get_reply; b ← read lib win 8; pure (from_bytes b)

  unfoldable pub ipc_update_current_project_path : Chars → M (World O) (Unit {0})
  ipc_update_current_project_path path_utf8 =
      command (fourcc b'U' b'P' b'D' b'P') do write_string_utf8 lib win path_utf8; get_reply
