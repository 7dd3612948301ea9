-- ===== src/ErrorPtk.antt =====
-- src/c/error_ptk.c: the texts for the errors.
use aviutl_psdtoolkit.Base.{ℕ, ◌==◌, if◌then◌else◌, List, [], ◌∷◌, Chars, codes, M, Ovstr}

-- The type of an error, the codes of `err_type_generic` named as in ovbase.
pub data GenericCode : Type 0 where
  fail_code : GenericCode
  unexpected_code : GenericCode
  invalid_argument_code : GenericCode
  null_pointer_code : GenericCode
  out_of_memory_code : GenericCode
  not_sufficient_buffer_code : GenericCode
  not_found_code : GenericCode
  abort_code : GenericCode
  not_implemented_yet_code : GenericCode
  another_code : GenericCode

pub data Code : Type 0 where
  generic : GenericCode → Code
  hresult : ℕ → Code
  ptk_code : ℕ → Code
  errno : ℕ → Code
  another_type : Code

unfoldable pub generic_text : GenericCode → Chars
generic_text fail_code = codes "Failed."
generic_text unexpected_code = codes "Unexpected."
generic_text invalid_argument_code = codes "Invalid argument."
generic_text null_pointer_code = codes "NULL pointer."
generic_text out_of_memory_code = codes "Out of memory."
generic_text not_sufficient_buffer_code = codes "Not sufficient buffer."
generic_text not_found_code = codes "Not found."
generic_text abort_code = codes "Aborted."
generic_text not_implemented_yet_code = codes "Not implemented yet."
generic_text another_code = codes "Unknown error code."

-- The cases of the switch.
abbrev pub ptk_texts : List (ℕ × Chars)
ptk_texts =
    (100, codes "A 64Bit version of Windows is required.")
    ∷ (101, codes "The currently running version of AviUtl is not supported.")
    ∷ (102, codes "Advanced Editing plug-in exedit.auf cannot be found.")
    ∷ (
      103,
      codes
          "Advanced Editing plug-in exedit.auf cannot be found in the same folder as GCMZDrops.auf.",
    )
    ∷ (104, codes "Failed to load lua51.dll.")
    ∷ (105, codes "Failed to load PSDToolKitBridge.dll.")
    ∷ (106, codes "The currently using version of exedit.auf is not supported.")
    ∷ (107, codes "AviUtl project file (*.aup) has not yet been opened.")
    ∷ (108, codes "AviUtl project file (*.aup) has not yet been saved.")
    ∷ (109, codes "Could not find the edit control to which the settings should be sent.")
    ∷ (110, codes "The variable to be rewritten could not be found.")
    ∷ (200, codes "The program to be started could not be found.")
    ∷ (201, codes "Program execution refused.")
    ∷ (300, codes "An error occurred while executing a Lua script.")
    ∷ []

unfoldable pub case_text : List (ℕ × Chars) → ℕ → Chars
case_text [] code = codes "Unknown error code."
case_text ((n, s) ∷ cases) code = if code == n then s else case_text cases code

-- The translation, the conversion, and the texts of Windows and of the C library.
pub record MessageParts (W : Type 0) : Type 0 where
  pub gettext : Chars → Chars
  pub to_wstr : Chars → M W Chars
  pub error_win32_message_mapper : ℕ → M W Chars
  pub error_errno_message_mapper : ℕ → M W Chars

module _ {W : Type 0} (lib : Ovstr W) (parts : MessageParts W) where
  unfoldable pub get_generic_message : GenericCode → M W Chars
  get_generic_message code = parts.to_wstr (parts.gettext (generic_text code))

  unfoldable pub get_ptk_message : ℕ → M W Chars
  get_ptk_message code = parts.to_wstr (parts.gettext (case_text ptk_texts code))

  -- With a `dest` that is not null.
  unfoldable pub ptk_error_message : Code → M W Chars
  ptk_error_message (generic code) = get_generic_message code
  ptk_error_message (hresult code) = parts.error_win32_message_mapper code
  ptk_error_message (ptk_code code) = get_ptk_message code
  ptk_error_message (errno code) = parts.error_errno_message_mapper code
  ptk_error_message another_type = lib.scpy (codes "Unknown error code.")
