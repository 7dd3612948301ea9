-- ===== src/Luafuncs/Functions.antt =====
-- The functions of src/c/luafuncs.c, on arguments that the interpreter has converted.
use aviutl_psdtoolkit.Base.{
  Error, err, Result, same_text, ℕ, Bool, List, [], ◌∷◌, ◌++◌, Option, none, some, ltb, ◌==◌, ◌%◌,
  ◌^◌, if◌then◌else◌, length, take, drop, Chars, codes, M, ◌>>=◌, ◌>>◌, pure, raise, finally,
  unexpected, not_sufficient_buffer, ok, err, Ovstr,
}
use aviutl_psdtoolkit.Ipc.Commands.{PropertyOptions, PropertyResults}

-- A value on the stack of Lua. `F` are the numbers that are not whole.
pub data LuaValue (F : Type 0) : Type 0 where
  nil : LuaValue F
  boolean : Bool → LuaValue F
  integer : ℕ → LuaValue F
  number : F → LuaValue F
  string : Chars → LuaValue F
  table : List Chars → LuaValue F

-- The other parts of the plug-in, the texts of ovutil, and the memory that Lua points to.
pub record Parts (W F : Type 0) : Type 0 where
  pub ipc_add_file : Chars → ℕ → M W (Unit {0})
  pub ipc_draw : (id : ℕ) → Chars → (p width height : ℕ) → M W (Unit {0})
  pub ipc_get_layer_names : (id : ℕ) → Chars → M W Chars
  pub ipc_set_properties : (id : ℕ) → Chars → PropertyOptions → M W PropertyResults
  pub cache_get : Chars → M W (ℕ × ℕ)
  pub cache_put : Chars → (value value_len : ℕ) → M W (Unit {0})
  pub speak_get_level : Chars → (pos low_cut high_cut : F) → M W F
  pub from_mbcs : Chars → M W Chars
  pub to_mbcs : Chars → M W Chars
  pub to_utf8 : Chars → M W Chars
  pub file_exists : Chars → M W Bool
  pub extract_file_name : Chars → M W ℕ
  pub extract_file_extension : Chars → M W ℕ
  pub mem : ℕ → M W ℕ
  pub mem_free : ℕ → W → W
  pub memcpy : (dest src length : ℕ) → W → W

-- The loop of `luafn_getlayernames`: `name` are the characters from `prev` to `s`.
unfoldable pub layer_names_loop : Chars → Chars → List Chars
layer_names_loop name [] = name ∷ []
layer_names_loop name (c ∷ s) =
    let next = layer_names_loop [] s in
    let same = layer_names_loop (name ++ (c ∷ [])) s in
    if c == 0 then name ∷ [] else if c == b'\n' then name ∷ next else same

module _ {W F : Type 0} (lib : Ovstr W) (parts : Parts W F) where
  unfoldable pub mbcs_to_utf8 : Chars → M W Chars
  mbcs_to_utf8 mbcs = parts.from_mbcs mbcs >>= λ tmp. parts.to_utf8 tmp

  unfoldable pub luafn_addfile : Chars → ℕ → M W (List (LuaValue F))
  luafn_addfile path_utf8 tag = parts.ipc_add_file path_utf8 (tag % 2 ^ 32) >>= λ _. pure []

  unfoldable pub luafn_draw : ℕ → Chars → (p width height : ℕ) → M W (List (LuaValue F))
  luafn_draw id path p width height = do
    path_utf8 ← mbcs_to_utf8 path
    parts.ipc_draw (id % 2 ^ 32) path_utf8 p (width % 2 ^ 32) (height % 2 ^ 32)
    pure []

  unfoldable pub copied : (dest src length : ℕ) → M W (Unit {0})
  copied dest src length w = (ok tt, parts.memcpy dest src length w)

  -- After the copy the function ends in `err_unexpected`.
  unfoldable pub luafn_getcache : Chars → (dest dest_len : ℕ) → M W (List (LuaValue F))
  luafn_getcache key dest dest_len = do
    src ← parts.cache_get key
    if ltb dest_len src.1
        then raise not_sufficient_buffer
        else (copied dest src.0 src.1 >>= λ _. raise unexpected)

  -- `g_current_frame`, `g_current_frame_n` and `g_current_render_index`
  unfoldable pub luafn_getcurrentframe : (frame frame_n render_index : ℕ) → M W (List (LuaValue F))
  luafn_getcurrentframe frame frame_n render_index =
      pure (integer frame ∷ integer frame_n ∷ integer render_index ∷ [])

  unfoldable pub luafn_getlayernames : ℕ → Chars → M W (List (LuaValue F))
  luafn_getlayernames id path = do
    path_utf8 ← mbcs_to_utf8 path
    layer_names_utf8 ← parts.ipc_get_layer_names (id % 2 ^ 32) path_utf8
    pure (table (layer_names_loop [] layer_names_utf8) ∷ [])

  unfoldable pub luafn_getspeaklevel : Chars → (pos low_cut high_cut : F) → M W (List (LuaValue F))
  luafn_getspeaklevel filepath pos low_cut high_cut =
      parts.speak_get_level filepath pos low_cut high_cut >>= λ level. pure (number level ∷ [])

  -- The file itself, or one of its name in the project's folder. None means that there is no project.
  unfoldable pub wav_path : Chars → Chars → Bool → M W (Option Chars)
  wav_path path project_path exists =
      if exists
      then (lib.scpy path >>= λ tmp. pure (some tmp))
      else if length project_path == 0
      then pure none
      else do
        pos ← parts.extract_file_name project_path
        tmp ← lib.sncpy project_path pos
        pos ← parts.extract_file_name path
        tmp ← lib.scatm tmp (drop pos path ∷ [])
        pure (some tmp)

  unfoldable pub file_or_nil : Chars → Bool → M W (LuaValue F)
  file_or_nil tmp exists =
      if exists then (parts.to_mbcs tmp >>= λ mbcs. pure (string mbcs)) else pure nil

  -- The path with another extension, if there is such a file.
  unfoldable pub with_extension : Chars → ℕ → Chars → M W (LuaValue F)
  with_extension path extpos extension = do
    tmp ← lib.scatm (take extpos path) (extension ∷ [])
    exists ← parts.file_exists tmp
    file_or_nil tmp exists

  unfoldable pub wav_and_lab : Option Chars → M W (List (LuaValue F))
  wav_and_lab none = pure (nil ∷ nil ∷ [])
  wav_and_lab (some tmp) = do
    extpos ← parts.extract_file_extension tmp
    wav ← with_extension tmp extpos (codes ".wav")
    lab ← with_extension tmp extpos (codes ".lab")
    pure (wav ∷ lab ∷ [])

  unfoldable pub luafn_getwavlabpath : Chars → Chars → M W (List (LuaValue F))
  luafn_getwavlabpath project_path path_mbcs = do
    path ← parts.from_mbcs path_mbcs
    exists ← parts.file_exists path
    tmp ← wav_path path project_path exists
    wav_and_lab tmp

  -- The copy is the cache's after a success, and freed after an error.
  unfoldable pub luafn_putcache : Chars → (ptr len : ℕ) → M W (List (LuaValue F))
  luafn_putcache key ptr len = do
    v ← parts.mem len
    copied v ptr len
    finally (parts.cache_put key v len)
        (λ r w. elim r [ ok a ↦ (ok a, w) | err e ↦ (err e, parts.mem_free v w) ])
    pure []

  unfoldable pub layer_to_utf8 : Option Chars → M W (Option Chars)
  layer_to_utf8 none = pure none
  layer_to_utf8 (some layer) = mbcs_to_utf8 layer >>= λ layer_utf8. pure (some layer_utf8)

  -- The fields of the table that have the right type; the layer is in the code page of the system.
  unfoldable pub luafn_setprops : ℕ → Chars → PropertyOptions → M W (List (LuaValue F))
  luafn_setprops id path fields = do
    path_utf8 ← mbcs_to_utf8 path
    layer_utf8 ← layer_to_utf8 fields.layer_utf8
    rets ←
        parts.ipc_set_properties (id % 2 ^ 32) path_utf8 (record fields { layer_utf8 = layer_utf8 })
    pure (
        boolean rets.modifiled
        ∷ integer rets.cache_key
        ∷ integer rets.width
        ∷ integer rets.height
        ∷ [])

  -- `luafn_err_`: the message that lua_error raises, behind the position `place` of the call.
  unfoldable pub funcname_text : Chars → Chars
  funcname_text funcname =
      if same_text (take 6 funcname) (codes "luafn_")
      then codes "error on PSDToolKitBridge." ++ drop 6 funcname
      else codes "error on " ++ funcname

  unfoldable pub message_or_failure : Result Chars → W → Result Chars × W
  message_or_failure (ok s) w = (ok s, w)
  message_or_failure (err e) w = (ok (codes "failed to build error message"), w)

  unfoldable pub luafn_err : (Error → M W Chars) → (place funcname : Chars) → Error → M W Chars
  luafn_err error_to_string place funcname e = do
    s ←
        finally (do errmsg ← error_to_string e; lib.scatm [] (errmsg ∷ []); parts.to_mbcs errmsg)
          message_or_failure
    pure (place ++ (funcname_text funcname ++ (codes "():\r\n" ++ s)))
