-- ===== src/Assist/Receive.antt =====
-- The handler of src/c/assist.c around the rewriting: the window's text, the confirmation and the
-- error boxes.
use aviutl_psdtoolkit.Base.{
  ℕ, Bool, true, not, ◌&&◌, [], ◌∷◌, Option, if◌then◌else◌, same_text, Chars, codes, M, ◌>>=◌, pure,
  raise, map_error, finally, Error, ptk, Result, ok, err, Ovstr,
}
use aviutl_psdtoolkit.Luastr.Find.{luastr_find_assign_number}
use aviutl_psdtoolkit.Assist.Rewrite.{missing_as, rewrite_text}

-- The windows, the search for the edit control (src/c/find.c), and the conversion of texts. A
-- message box answers whether it was not cancelled.
pub record Windows (W : Type 0) : Type 0 where
  pub from_utf8 : Chars → M W Chars
  pub find_exedit_multi_line_text : Chars → M W (ℕ × ℕ)
  pub get_window_text : ℕ → M W Chars
  pub disable_family_windows : M W ℕ
  pub restore_disabled_family_windows : ℕ → W → W
  pub message_box : Chars → W → Bool × W
  pub set_window_text : ℕ → Chars → W → W
  pub send_change : (wnd edit_control : ℕ) → W → W
  pub error_message_box : Error → W → W

module _ {W V : Type 0} (lib : Ovstr W) (win : Windows W) (ov_atoi : Chars → Option V)
    (is_zero : V → Bool) where
  -- `send_guard != 0`: any error of the search counts as the number 1.
  unfoldable pub send_guard : Chars → M W Bool
  send_guard text =
      finally
        (luastr_find_assign_number lib ov_atoi text (codes "sendguard") >>= λ v.
          pure (not (is_zero v)))
        λ r w. elim r [ ok b ↦ (ok b, w) | err e ↦ (ok true, w) ]

  unfoldable pub ask : Chars → W → Result Bool × W
  ask text w = let (r, w') = win.message_box text w in (ok r, w')

  -- Whether the text may be written.
  unfoldable pub confirm : Chars → Chars → M W Bool
  confirm old_file_path file_path = do
    message ← lib.scpym (
        codes "送り先には別のPSDファイルが割り当てられています。\r\n本当に続行しますか？\r\n\r\n現在のPSDファイルオブジェクト:\r\n"
        ∷ old_file_path
        ∷ codes "\r\n\r\n割り当てられるPSDファイル:\r\n"
        ∷ file_path
        ∷ codes "\r\n\r\n※PSD オブジェクトの設定で sendguard = 0 にすると、この確認ダイアログは表示されなくなります。"
        ∷ [])
    disabled_windows ← win.disable_family_windows
    finally (ask message) (λ r w. (r, win.restore_disabled_family_windows disabled_windows w))

  unfoldable pub write_text : ℕ × ℕ → Chars → M W (Unit {0})
  write_text target text w =
      (ok tt, win.send_change target.0 target.1 (win.set_window_text target.1 text w))

  -- The handler up to its cleanup, on the message's path and state or the error in their place.
  unfoldable pub receive_image_state : Result (Chars × Chars) → M W (Unit {0})
  receive_image_state (err e) = raise e
  receive_image_state (ok (file_path_utf8, state_utf8)) = do
    file_path ← win.from_utf8 file_path_utf8
    state ← win.from_utf8 state_utf8
    target ← map_error (missing_as (ptk 109)) (win.find_exedit_multi_line_text (codes "ptkf=\""))
    text ← win.get_window_text target.1
    rewritten ← rewrite_text lib text file_path state
    guarded ← send_guard rewritten.0
    agreed ←
        (if guarded && not (same_text rewritten.1 file_path)
          then confirm rewritten.1 file_path
          else pure true)
    if agreed then write_text target rewritten.0 else pure tt

  -- `wndproc_receive_update_editing_image_state`: an error is shown.
  unfoldable pub wndproc_receive_update_editing_image_state : Result (Chars × Chars) → W → W
  wndproc_receive_update_editing_image_state params w =
      let (r, w') = receive_image_state params w in
      elim r [ ok _ ↦ w' | err e ↦ win.error_message_box e w' ]
