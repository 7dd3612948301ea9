-- ===== src/Speak/Tests.antt =====
-- Runs of the functions of src/c/speak.c, and the theorems at concrete inputs.
use aviutl_psdtoolkit.Base.{
  same_text, ℕ, ◌+◌, ◌-◌, ◌*◌, ◌/◌, List, [], ◌∷◌, some, own, ltb, codes, ok, Chars, ◌>>=◌, finally,
  ◌≡◌, refl, arith,
}
use aviutl_psdtoolkit.Plain.{plain_on}
use aviutl_psdtoolkit.Speak.Types.{Item, empty_item, Table, Audio, outside}
use aviutl_psdtoolkit.Speak.Slots.{
  scan, first_unused, older, index_of, make_room, assign, assign_at, now, fill, keep_or_close,
  open_new, open_scanned, open_path,
}
use aviutl_psdtoolkit.Speak.Level.{Floats, speak_get_level}
use aviutl_psdtoolkit.Speak.Thread.{no_items, speak_exit}
use aviutl_psdtoolkit.Speak.Handles.{AudioLaws, Tracked}
use aviutl_psdtoolkit.Speak.Opening.{speak_get_level-Tracked}
use aviutl_psdtoolkit.Speak.Closing.{speak_exit-closes}

-- The world is the number of times that each handle is open; every file gets the handle 7.
abbrev Counts : Type 0
Counts = ℕ → ℕ

abbrev counting : Audio Counts
counting = record {
  open_file = λ path freq ch w. (ok 7, λ h. w h + own (some 7) h);
  read_file = λ x offset length w. (ok (1 ∷ 2 ∷ []), w);
  close_file = λ x w h. w h - own (some x) h;
  timespec_get = λ w. (some (record { sec = 5; nsec = 0 }), w);
}

counting-AudioLaws : AudioLaws plain_on counting (λ w. w)
counting-AudioLaws = record {
  open_file_lem = λ path freq ch w h. refl;
  close_file_lem = λ x w h. refl;
  read_file_lem = λ x offset length w h. refl;
  timespec_get_lem = λ w h. refl;
  scpy_lem = λ s w h. refl;
}

abbrev whole : Floats ℕ
whole = record {
  of_nat = λ n. n;
  add = λ a b. a + b;
  mul = λ a b. a * b;
  div = λ a b. a / b;
  sqrt = λ a. a;
  lt = λ a b. ltb a b;
  trunc = λ a. a;
  of_sample = λ n. n;
  rdft = λ l. l;
}

abbrev voice : Chars
voice = codes "voice.wav"

abbrev used : ℕ → Item
used sec = record {
  h = some 7;
  filepath = some (codes "other.wav");
  used_at = record { sec = sec; nsec = 0 };
}

abbrev closed_table : Table Counts
closed_table = record { items = no_items; world = λ h. 0 }

-- The first file has been unused for long, and the second is in use.
abbrev two_files : List Item
two_files =
    used 1
    ∷ used 5
    ∷ empty_item
    ∷ empty_item
    ∷ empty_item
    ∷ empty_item
    ∷ empty_item
    ∷ empty_item
    ∷ []

abbrev open_table : Table Counts
open_table = record { items = two_files; world = λ h. own (some 7) h + own (some 7) h }

run_open : (open_path plain_on counting (some voice) 0 open_table).0 ≡ ok 0
unfolding open_path scan same_text first_unused older index_of open_scanned open_new finally fill
    make_room assign assign_at now outside keep_or_close ◌>>=◌
run_open = refl

speak_get_level-Tracked_example :
    Tracked plain_on counting
      (λ w. w)
      counting-AudioLaws
      (λ h. 0)
      (speak_get_level whole plain_on counting []
        (λ w. w)
        (λ w. w)
        (some voice)
        0
        0
        10
        closed_table).1
speak_get_level-Tracked_example =
    speak_get_level-Tracked plain_on counting (λ w. w) counting-AudioLaws (λ h. 0) whole [] (λ w. w)
      (λ w. w) (λ w h. refl) (λ w h. refl) (some voice) 0 0 10 closed_table (λ h. refl)

open_table-Tracked : Tracked plain_on counting (λ w. w) counting-AudioLaws (λ h. 0) open_table
open_table-Tracked h = omega arith

speak_exit-closes_example :
    speak_exit plain_on counting (λ w. w) (λ w. w) (some open_table) open_table.world 7 ≡ 0
speak_exit-closes_example =
    speak_exit-closes plain_on counting (λ w. w) counting-AudioLaws (λ h. 0) (λ w. w) (λ w. w)
      open_table (λ w h. refl) open_table-Tracked 7
