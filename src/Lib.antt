-- ===== src/Lib.antt =====
-- PSDToolKit for AviUtl: the plug-in's C code (src/c).
--
-- The plug-in draws layers of PSD files in the video editor AviUtl. A renderer process (src/go)
-- reads the files; the plug-in starts it and sends it commands through pipes, and a thread of the
-- plug-in reads its replies and its own requests: an edited state, or a list of layers or of a
-- slider's items to export. What is exported is parsed into a list, shown by readable names and
-- copied or saved as a value, a Lua script or a CSV table. Values are written into, and found in,
-- the text of an object's script as Lua string literals.
--
-- The files, and the code that each is about:
--   Base, Base/*   native numbers and lists, errors as values, calls that may fail (`M`), and two
--                  notions of what a call ends in: `Meets` in every world, `From` in one world.
--                  Base/Strings is the string library of ovbase, a submodule whose code is not in
--                  the repository: the record `Ovstr` with its documented results, `OvstrLaws`.
--   Plain          a string library that meets them, so that the models run.
--   Buffer         the text buffers that are filled character by character (`put`, `grow`); a
--                  write behind what was asked for is the error `overrun`.
--   Luastr/*       src/c/luastr.c: luastr_encode (Encode), luastr_decode (Decode),
--                  luastr_find_assign and luastr_find_assign_number (Find, Assign). Bounds has
--                  the escaped text, Codec and Literal the proofs.
--   Ptklayer/*     src/c/ptklayer.c: the data (Types), ptklayer_parse (Parse), the readable names
--                  (Names), enumerate_siblings (Siblings), the script and the table (Export), the
--                  clipboard (Clipboard), the save dialog and the file (Files), and what the user
--                  can do with them (Commands). The proofs are in Percent, Readable, Paths, Group,
--                  Items, Script, Csv, Copied and Written.
--   Ipc/*          src/c/ipc.c: struct ipc and the calls of Win32 and the threads (State), read,
--                  write and strings (Wire), the renderer's requests (Requests), read_reply and
--                  read_worker (Worker), build_environment_strings and get_working_directory
--                  (Environment), start_process, close_process, ipc_init and ipc_exit (Process),
--                  and all commands (Commands). The proofs are in Transfer, Messages, Serve,
--                  Properties, Sending, Exchange, Handles, Started and Balance. Machine is a system
--                  on which the models run.
--   Speak/*        src/c/speak.c: the table of open files and the audio library (Types), close and
--                  open (Slots), read and speak_get_level (Level), gc, speak_init and speak_exit
--                  (Thread). The proofs are in Seen, Scan, Handles, Opening, Closing and Index.
--   Cache/*        src/c/cache.c (Store), over a hash map, an allocator and a clock. The proofs
--                  are in Items.
--   Luafuncs/*     src/c/luafuncs.c: the functions for Lua (Functions), over an interface for the
--                  parts that they call. Names has the proof on the list of layer names.
--   Aviutl/*       src/c/aviutl.c: the globals and AviUtl's functions (State), the calls passed on
--                  (Calls), atou32 and the versions (Version), aviutl_init and aviutl_exit (Init).
--                  The proofs are in Decimal, Filters and Modules.
--   Assist/*       src/c/assist.c: the rewriting of an object's text (Rewrite), which uses Luastr,
--                  and the handler around it (Receive); the handlers of the exported lists, with
--                  their menu (Export); the sound files for Speak (Wav); the start and the end of
--                  the plug-in (Lifetime), the project's path and data (Project), and the window's
--                  messages (Messages). The proofs are in Assigned, Menu, Exported, Sound, Running,
--                  Starting, Bridge, Started and Stopped.
--   Setting/*      src/c/setting.c: read_props and write_props (Props), over an interpreter of Lua,
--                  the controls (Dialog), the dialog's procedure and show_setting (Show). Script reads
--                  the file as Lua does. The proofs are in Written, Kept and Unchanged.
--   Find/*         src/c/find.c: find_exedit_multi_line_text (Search) and
--                  find_exedit_multi_parameter_dialog (Dialog), on a tree of windows. The proofs
--                  are in Wrapper, Located, Order, Pairs and Parameters; Base/Pigeons counts
--                  different numbers.
--   Popupmenu/*    src/c/popupmenu.c (Show). The proof is in Shown.
--   ErrorPtk       src/c/error_ptk.c, the texts for the errors.
--
-- A part takes what it needs of another file of the plug-in as a record of operations: Speak its
-- audio library, which Wav provides; Luafuncs and Lifetime the operations of the other parts.
--
-- A definition has the name of its C function. A loop has a name of its own (`encode_loop` in
-- luastr_encode) and recurses on what is left of its input, or on fuel: parse_loop on the number
-- of bytes of the names, since a round takes one at least; read and write on the number of bytes
-- to transfer, since a successful call transfers one at least; copy_environment on the length of
-- the block. Where fuel runs out, the model ends in `overrun`. A pointer that may be null is an
-- `Option`; an INVALID_HANDLE_VALUE is `none`. A wide character, a byte and a 32-bit number are a
-- ℕ, a signed number stands for its bits, and `% 2 ^ 32` is written where the code wraps. An error
-- keeps its code, not its stack of positions. The code at a label `cleanup` runs after a success
-- and after an error (`finally`). Handles, files and modules are closed as the code closes them;
-- memory is freed in Cache and Luafuncs, where it changes hands, and nowhere else. The thread of
-- Speak or Cache is a sequence of waits with the work of the other threads in between.
--
-- Calls that block (`cndvar_wait_while`) are parameters that may change the struct ipc as the
-- other thread does. Ipc/Handover has the order of the two threads as steps.
--
-- Not modelled: of src/c/assist.c DllMain and the table that registers the plug-in; of
-- src/c/luafuncs.c luafn_type and the registration; bridge.c and i18n.h, a pointer to a function and
-- a macro; src/c/3rd, copies of other projects; the renderer in Go and the Lua scripts.
pub mod Base
pub mod Plain
pub mod Buffer
pub mod Luastr
pub mod Ptklayer
pub mod Ipc
pub mod Speak
pub mod Aviutl
pub mod Assist
pub mod Cache
pub mod Luafuncs
pub mod Setting
pub mod ErrorPtk
pub mod Find
pub mod Popupmenu
