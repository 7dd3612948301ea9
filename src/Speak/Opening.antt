-- ===== src/Speak/Opening.antt =====
-- `open`, `read` and `speak_get_level` of src/c/speak.c, on every outcome.
use aviutl_psdtoolkit.Base.{
  List, Bool-cases, Option-cases, inl, inr, ℕ, Option, none, some, length, Chars, M, finally,
  map_Ends, unexpected, overrun, Result, ok, err, Wstr, Ovstr, Ends, From, pure-From, raise-From,
  >>=-From, get_elem?, ◌≡◌, ◌∙◌, arith, ltb,
}
use aviutl_psdtoolkit.Speak.Types.{Time, Table, Audio, outside}
use aviutl_psdtoolkit.Speak.Slots.{
  Scan, found, absent, fault, scan, assign, assign_at, now, fill, keep_or_close, open_new,
  open_scanned, open_path,
}
use aviutl_psdtoolkit.Speak.Scan.{Reports, scan-Reports}
use aviutl_psdtoolkit.Speak.Level.{Floats, handle_of, handle_at, read_level, speak_get_level}
use aviutl_psdtoolkit.Speak.Handles.{
  AudioLaws, Tracked, Free, total-set, extra, Same, fill-Tracked, outside_From, quiet_Ends,
  or_raise_From,
}

module _ {W : Type 0} (lib : Ovstr W) (audio : Audio W) (opened : W → ℕ → ℕ)
    (laws : AudioLaws lib audio opened) (base : ℕ → ℕ) where
  abbrev Kept : Table W → Type 0
  Kept = Tracked lib audio opened laws base

  keep_or_close-Ends :
      (x : ℕ) (r : Result (Unit {0}) × Table W)
      → Ends (λ _. Kept) (λ _. Tracked lib audio opened laws (extra lib audio opened laws base x)) r
      → Ends (λ _. Kept) (λ _. Kept) (keep_or_close lib audio x r.0 r.1)
  unfolding keep_or_close
  keep_or_close-Ends x (ok _, t) k = k
  keep_or_close-Ends x (err e, t) k = λ h. omega (arith, k h, laws.close_file_lem x t.world h)

  open_new-Kept :
      (unused oldest : Option ℕ) (path : Chars) (t : Table W)
      → ((j : ℕ) → unused ≡ some j → Free lib audio opened laws j t)
      → Kept t
      → From t (λ _. Kept) (λ _. Kept) (open_new lib audio unused oldest path)
  unfolding open_new finally
  open_new-Kept unused oldest path t free k =
      >>=-From
        {P = λ x t1.
          Tracked lib audio opened laws (extra lib audio opened laws base x) t1
          × ((j : ℕ) → unused ≡ some j → Free lib audio opened laws j t1)}
        (outside_From lib audio opened laws (audio.open_file path 24000 1) t (
          map_Ends (audio.open_file path 24000 1 t.world)
            (λ x w one. (λ h. omega (arith, one h, k h), free)) (λ e w same h. same h ∙ k h)
            (laws.open_file_lem path 24000 1 t.world)))
        λ x t1 c. record {
          ends =
              keep_or_close-Ends x (fill lib audio unused oldest path x t1)
                (fill-Tracked lib audio opened laws base x unused oldest path t1 c.1 c.0).ends;
        }

  open_scanned-Kept :
      (r : Scan) (path : Chars) (idx : ℕ) (t : Table W)
      → Reports t.items path r
      → Kept t
      → From t (λ _. Kept) (λ _. Kept) (open_scanned lib audio r path idx)
  unfolding open_scanned
  open_scanned-Kept (found i) path idx t r k = pure-From i k
  open_scanned-Kept (absent unused oldest) path idx t r k =
      >>=-From
        (open_new-Kept unused oldest path t (λ j e v at. let (item, at', is_none) = r.0 j e in cc)
          k)
        λ _ t1 c. pure-From idx c
  open_scanned-Kept fault path idx t r k = raise-From overrun k

  open_path-Kept :
      (filepath : Wstr) (idx : ℕ) (t : Table W)
      → Kept t
      → From t (λ _. Kept) (λ _. Kept) (open_path lib audio filepath idx)
  unfolding open_path
  open_path-Kept none idx t k = record { ends = k }
  open_path-Kept (some path) idx t k = record {
    ends =
        (open_scanned-Kept (scan path 0 t.items none none) path idx t (scan-Reports path t.items)
          k).ends;
  }

  quiet-Kept :
      {A : Type 0} (m : M W A) (t : Table W)
      → Same lib audio opened laws t.world (m t.world).1
      → Kept t
      → From t (λ _. Kept) (λ _. Kept) (outside m)
  quiet-Kept m t s k = outside_From lib audio opened laws m t (
      quiet_Ends lib audio opened laws t.world (m t.world) (λ a w s h. s h ∙ k h)
        (λ e w s h. s h ∙ k h) s)

  used_now-Kept :
      (i : ℕ) (time : Time) (t : Table W)
      → Kept t
      → From t (λ _. Kept) (λ _. Kept) (assign lib audio i (λ item. record item { used_at = time }))
  unfolding assign assign_at
  used_now-Kept i time t k = record {
    ends = elim (Option-cases (get_elem? t.items i)) [
      | inl e ↦ rw (e, assign_at) k
      | inr (item, e) ↦
          rw (e, assign_at)
            (λ h. omega (arith, total-set t.items i item (record item { used_at = time }) h e, k h))
    ];
  }

  now-Kept : (t : Table W) → Kept t → From t (λ _. Kept) (λ _. Kept) (now lib audio)
  unfolding now
  now-Kept t k = record { ends = λ h. laws.timespec_get_lem t.world h ∙ k h }

  module _ {F : Type 0} (fl : Floats F) (window : List F) where
    handle_at-Kept :
        (i : ℕ) (t : Table W)
        → Kept t
        → From t (λ _. Kept) (λ _. Kept) (handle_at fl lib audio window i)
    unfolding handle_at handle_of
    handle_at-Kept i t k = record {
      ends = elim (Option-cases (get_elem? t.items i)) [
        | inl e ↦ rw (e, handle_of) k
        | inr (item, e) ↦ rw (e, handle_of) k
      ];
    }

    read_level-Kept :
        (filepath : Wstr) (pos low_cut high_cut : F) (t : Table W)
        → Kept t
        → From t
            (λ _. Kept)
            (λ _. Kept)
            (read_level fl lib audio window filepath pos low_cut high_cut)
    unfolding read_level
    read_level-Kept filepath pos low_cut high_cut t k =
        >>=-From (open_path-Kept filepath 0 t k) λ idx t1 k1.
          >>=-From (handle_at-Kept idx t1 k1) λ x t2 k2.
            >>=-From
              (quiet-Kept (audio.read_file x (fl.trunc (fl.mul pos (fl.of_nat 24000))) 256) t2
                (laws.read_file_lem x (fl.trunc (fl.mul pos (fl.of_nat 24000))) 256 t2.world) k2)
              λ samples t3 k3. >>=-From (now-Kept t3 k3) λ time t4 k4.
                >>=-From (or_raise_From lib audio opened laws Kept time unexpected t4 k4 k4)
                  λ time t5 k5. >>=-From (used_now-Kept idx time t5 k5) λ _ t6 k6. record {
                    ends = elim (Bool-cases (ltb 256 (length samples))) [
                      | inl b ↦ rw (b) k6
                      | inr b ↦ rw (b) k6
                    ];
                  }

    Kept-at_end : {A : Type 0} (r : Result A × Table W) → Ends (λ _. Kept) (λ _. Kept) r → Kept r.1
    Kept-at_end (ok a, t) k = k
    Kept-at_end (err e, t) k = k

    -- With the documented effect of the audio library on the open files (a file opened is open
    -- once more, a file closed once less, and nothing else changes them): if the files open beyond
    -- a base are exactly those of the table, they are so after speak_get_level too, on every
    -- outcome, an error at any call and a file that had to be closed for the new one included.
    pub speak_get_level-Tracked :
        (lock unlock : W → W)
        → ((w : W) → Same lib audio opened laws w (lock w))
        → ((w : W) → Same lib audio opened laws w (unlock w))
        → (filepath : Wstr) (pos low_cut high_cut : F) (t : Table W)
        → Tracked lib audio opened laws base t
        → Tracked lib audio opened laws base
            (speak_get_level fl lib audio window lock unlock filepath pos low_cut high_cut t).1
    unfolding speak_get_level finally
    speak_get_level-Tracked lock unlock same_lock same_unlock filepath pos low_cut high_cut t k =
        let t1 : Table W = record t { world = lock t.world } in
        let r = read_level fl lib audio window filepath pos low_cut high_cut t1 in
        let kept : Kept r.1 =
          Kept-at_end r
            (read_level-Kept filepath pos low_cut high_cut t1
              (λ h. same_lock t.world h ∙ k h)).ends in
        λ h. same_unlock r.1.world h ∙ kept h
