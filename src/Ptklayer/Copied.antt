-- ===== src/Ptklayer/Copied.antt =====
-- What `copy_to_clipboard` of src/c/ptklayer.c leaves in the clipboard, and what it gives back.
use aviutl_psdtoolkit.Base.{
  ℕ, ◌+◌, ◌-◌, ◌*◌, ◌%◌, ◌^◌, ◌≤◌, ◌<◌, Bool, true, false, [], ◌∷◌, ◌++◌, Option, none, some, ◌==◌,
  if◌then◌else◌, own, length, length-append, drop, Chars, c_str, M, ◌>>=◌, ◌>>◌, hr, Error, Result,
  ok, err, Wstr, Ends, From, ==_iff, Bool-cases, ◌≡◌, ◌≢◌, ◌⊎◌, inl, inr, refl, sym, ap, ◌∙◌, subst,
  append_assoc, arith,
}
use mathlib.Core.Path.{fun_ext}
use aviutl_psdtoolkit.Ptklayer.Clipboard.{
  Clipboard, Copying, called, assigned, chars_of, reported, unlocked, copy_to, unlock_held,
  free_held, close_held, copy_cleanup, started, copy_outcome, copy_to_clipboard,
}

-- What the thread can observe: whether it has the clipboard open, the blocks it must free, their
-- sizes in bytes, their characters, and the text in the clipboard.
pub record Desk : Type 0 where
  pub is_open : Bool
  pub owned : ℕ → ℕ
  pub size : ℕ → ℕ
  pub memory : ℕ → Chars
  pub shown : Option Chars

-- `h` is a new block of at least `n` bytes.
pub record Allocated (n h : ℕ) (d d' : Desk) : Type 0 where
  pub room : n ≤ d'.size h
  pub owner : (x : ℕ) → d'.owned x ≡ d.owned x + own (some h) x
  pub same_open : d'.is_open ≡ d.is_open
  pub same_shown : d'.shown ≡ d.shown

abbrev pub overwritten : ℕ → Chars → Desk → Desk
overwritten h s d = record d {
  memory = λ x. if x == h then s ++ drop (length s) (d.memory x) else d.memory x;
}

-- The documented effect of the calls. `block_of` says in which block an address lies. A write is
-- specified only inside its block. Data that is set as `CF_UNICODETEXT` ends at its first NUL, and
-- its block belongs to the system from then on.
pub record ClipboardLaws {W : Type 0} (win : Clipboard W) (view : W → Desk) (block_of : ℕ → ℕ)
    : Type 0 where
  pub open_clipboard_lem :
      (o : ℕ) (w : W)
      → Ends
          (λ _ w'. view w' ≡ record (view w) { is_open = true })
          (λ _ w'. view w' ≡ view w)
          (win.open_clipboard o w)
  pub global_alloc_lem :
      (n : ℕ) (w : W)
      → Ends
          (λ h w'. Allocated n h (view w) (view w'))
          (λ _ w'. view w' ≡ view w)
          (win.global_alloc n w)
  pub global_lock_lem :
      (h : ℕ) (w : W)
      → Ends
          (λ p w'. (block_of p ≡ h) × (view w' ≡ view w))
          (λ _ w'. view w' ≡ view w)
          (win.global_lock h w)
  pub write_memory_lem :
      (p : ℕ) (s : Chars) (w : W)
      → length s * 2 ≤ (view w).size (block_of p)
      → view (win.write_memory p s w) ≡ overwritten (block_of p) s (view w)
  pub global_unlock_lem : (p : ℕ) (w : W) → view (win.global_unlock p w).1 ≡ view w
  pub empty_clipboard_lem :
      (w : W)
      → Ends
          (λ _ w'. view w' ≡ record (view w) { shown = none })
          (λ _ w'. view w' ≡ view w)
          (win.empty_clipboard w)
  pub set_clipboard_data_lem :
      (h : ℕ) (w : W)
      → Ends
          (λ _ w'. view w' ≡ record (view w) {
            owned = λ x. (view w).owned x - own (some h) x;
            shown = some (c_str ((view w).memory h));
          })
          (λ _ w'. view w' ≡ view w)
          (win.set_clipboard_data h w)
  pub global_free_lem :
      (h : ℕ) (w : W)
      → view (win.global_free h w).1
        ≡ record (view w) { owned = λ x. (view w).owned x - own (some h) x }
  pub close_clipboard_lem :
      (w : W) → view (win.close_clipboard w).1 ≡ record (view w) { is_open = false }
  pub report_lem : (e : Error) (w : W) → view (win.report e w) ≡ view w

overwritten_at :
    (h : ℕ) (s : Chars) (d : Desk)
    → (overwritten h s d).memory h ≡ s ++ drop (length s) (d.memory h)
overwritten_at h s d = ground arith

c_str-behind : (s t : Chars) → c_str (s ++ (0 ∷ t)) ≡ c_str s
c_str-behind [] t = refl
c_str-behind (c ∷ cs) t = ground (arith, c_str-behind cs t)

-- A call, and an assignment, with what follows it.
called_From :
    {W A B : Type 0} {P : A → W → Type 0} {E : Error → W → Type 0} {Q : B → Copying W → Type 0}
    {R : Error → Copying W → Type 0} (s : Copying W) (f : A → M (Copying W) B) (r : Result A × W)
    → Ends P E r
    → ((a : A) (w : W) → P a w → From (record s { world = w }) Q R (f a))
    → ((e : Error) (w : W) → E e w → R e (record s { world = w }))
    → From s Q R (called (λ _. r) >>= f)
unfolding called ◌>>=◌
called_From s f (ok a, w) h k l = record { ends = (k a w h).ends }
called_From s f (err e, w) h k l = record { ends = l e w h }

called_then :
    {W A B : Type 0} (P : A → W → Type 0) (E : Error → W → Type 0) {Q : B → Copying W → Type 0}
    {R : Error → Copying W → Type 0} {s : Copying W} (f : A → M (Copying W) B) (m : M W A)
    → Ends P E (m s.world)
    → ((a : A) (w : W) → P a w → From (record s { world = w }) Q R (f a))
    → ((e : Error) (w : W) → E e w → R e (record s { world = w }))
    → From s Q R (called m >>= f)
unfolding called ◌>>=◌
called_then P E {s} f m h k l = record {
  ends = (called_From {P = P} {E = E} s f (m s.world) h k l).ends;
}

assigned_then :
    {W B : Type 0} {Q : B → Copying W → Type 0} {R : Error → Copying W → Type 0} {s : Copying W}
    (f : Unit {0} → M (Copying W) B) (g : Copying W → Copying W)
    → From (g s) Q R (f tt)
    → From s Q R (assigned g >>= f)
unfolding ◌>>=◌
assigned_then f g h = record { ends = h.ends }

more : (n : ℕ) {m : ℕ} → m ≡ n + 0 → (k : ℕ) → m + k ≡ n + k
more n e k = omega (arith, e)

given : (n l : ℕ) {m r : ℕ} → m ≡ n + l → r ≡ m - l → r - 0 ≡ n
given n l e f = omega (arith, e, f)

shown_text : (s rest : Chars) → c_str ((s ++ (0 ∷ [])) ++ rest) ≡ c_str s
shown_text s rest = rw (append_assoc s (0 ∷ []) rest) (c_str-behind s rest)

fits :
    (s : Chars) (n : ℕ)
    → (length s + 1) * 2 < 2 ^ 32
    → (length s + 1) * 2 % 2 ^ 32 ≤ n
    → length (s ++ (0 ∷ [])) * 2 ≤ n
fits s n below room = omega (arith, below, room, length-append {0} s (0 ∷ []))

freed : (n l : ℕ) {m r : ℕ} → m ≡ n + l → r ≡ m - l → r ≡ n
freed n l e f = omega (arith, e, f)

shut_after : (b c : Bool) → c ≡ b → (if b then false else c) ≡ false
shut_after true c e = refl
shut_after false c e = e

no_less : (n : ℕ) → n ≡ n - 0
no_less n = omega arith

module _ {W : Type 0} (win : Clipboard W) (view : W → Desk) (block_of : ℕ → ℕ)
    (laws : ClipboardLaws win view block_of) where
  unlocked_lem : (r : Result (Unit {0}) × W) → view (unlocked win r) ≡ view r.1
  unfolding unlocked
  unlocked_lem (ok a, w) = refl
  unlocked_lem (err (hr n), w) =
      elim (n == 0) as (λ b. view (if b then w else win.report (hr n) w) ≡ view w) [
        | true ↦ refl
        | false ↦ laws.report_lem (hr n) w
      ]
  unlocked_lem (err e, w) = laws.report_lem e w

  reported_lem : (r : Result (Unit {0}) × W) → view (reported win r) ≡ view r.1
  unfolding reported
  reported_lem (ok a, w) = refl
  reported_lem (err e, w) = laws.report_lem e w

  abbrev freeing : Option ℕ → Desk → Desk
  freeing h d = record d { owned = λ x. d.owned x - own h x }

  abbrev shutting : Bool → Desk → Desk
  shutting b d = record d { is_open = if b then false else d.is_open }

  -- What the world shows after the code at `cleanup`.
  cleaned : Copying W → Desk
  cleaned s = shutting s.clipboard_open (freeing s.h (view s.world))

  unlock_held_lem : (p : Option ℕ) (w : W) → view (unlock_held win p w) ≡ view w
  unfolding unlock_held
  unlock_held_lem none w = refl
  unlock_held_lem (some p) w = unlocked_lem (win.global_unlock p w) ∙ laws.global_unlock_lem p w

  free_held_lem :
      (h : Option ℕ) (w : W)
      → view (free_held win h w) ≡ record (view w) { owned = λ x. (view w).owned x - own h x }
  unfolding free_held
  free_held_lem none w =
      λ i. record (view w) { owned = (fun_ext (λ x. no_less ((view w).owned x))) i }
  free_held_lem (some h) w = reported_lem (win.global_free h w) ∙ laws.global_free_lem h w

  close_held_lem :
      (b : Bool) (w : W)
      → view (close_held win b w)
        ≡ record (view w) { is_open = if b then false else (view w).is_open }
  unfolding close_held
  close_held_lem false w = refl
  close_held_lem true w = reported_lem (win.close_clipboard w) ∙ laws.close_clipboard_lem w

  copy_cleanup_lem : (s : Copying W) → view (copy_cleanup win s) ≡ cleaned s
  unfolding copy_cleanup cleaned
  copy_cleanup_lem s =
      let u = unlock_held_lem s.p s.world in
      let f = free_held_lem s.h (unlock_held win s.p s.world) in
      let c = close_held_lem s.clipboard_open (free_held win s.h (unlock_held win s.p s.world)) in
      c ∙ ap (shutting s.clipboard_open) (f ∙ ap (freeing s.h) u)

  -- The clipboard is closed, and no block more or less has to be freed.
  abbrev Restored : W → W → Type 0
  Restored w w' = ((view w').is_open ≡ false) × ((x : ℕ) → (view w').owned x ≡ (view w).owned x)

  module _ (d0 : Desk) where
    -- What has to be given back to reach `d0`, with its text or none in the clipboard.
    abbrev Owes : Bool → Option ℕ → Desk → Type 0
    Owes o h d =
        (d.is_open ≡ o)
        × ((x : ℕ) → d.owned x ≡ d0.owned x + own h x)
        × ((d.shown ≡ d0.shown) ⊎ (d.shown ≡ none))

    abbrev Failed : Error → Copying W → Type 0
    Failed e s = Owes s.clipboard_open s.h (view s.world)

    -- The block belongs to the clipboard, which shows its text.
    abbrev Pasted : Chars → Unit {0} → Copying W → Type 0
    Pasted text _ s =
        ((view s.world).is_open ≡ s.clipboard_open)
        × ((x : ℕ) → (view s.world).owned x - own s.h x ≡ d0.owned x)
        × ((view s.world).shown ≡ some (c_str text))

    abbrev Unchanged : W → Error → W → Type 0
    Unchanged w e w' = view w' ≡ view w

    Owes-unchanged : (o : Bool) (h : Option ℕ) {d d' : Desk} → d' ≡ d → Owes o h d → Owes o h d'
    Owes-unchanged o h e k = subst (Owes o h) (sym e) k

    Owes-Allocated :
        (n h : ℕ) {d d' : Desk} → Allocated n h d d' → Owes true none d → Owes true (some h) d'
    Owes-Allocated n h a (k, l, m) = (
      a.same_open ∙ k,
      λ x. a.owner x ∙ more (d0.owned x) (l x) (own (some h) x),
      subst (λ t. (t ≡ d0.shown) ⊎ (t ≡ none)) (sym a.same_shown) m,
    )

    module _ (owner : ℕ) (content : Wstr)
        (below : (length (chars_of content) + 1) * 2 < 2 ^ 32) where
      abbrev bytes : ℕ
      bytes = (length (chars_of content) + 1) * 2 % 2 ^ 32

      abbrev text : Chars
      text = chars_of content

      -- The end of the body, from the call that gives the block away.
      set-From :
          (h : ℕ) (rest : Chars) (w : W)
          → Owes true (some h) (view w)
          → (view w).memory h ≡ (text ++ (0 ∷ [])) ++ rest
          → From
              (record { clipboard_open = true; h = some h; p = none; world = w })
              (Pasted text)
              Failed
              (called (win.set_clipboard_data h) >> assigned (λ s. record s { h = none }))
      set-From h rest w (k, l, m) e =
          called_then
            (λ _ w'. view w' ≡ record (view w) {
              owned = λ x. (view w).owned x - own (some h) x;
              shown = some (c_str ((view w).memory h));
            })
            (Unchanged w) _ (win.set_clipboard_data h) (laws.set_clipboard_data_lem h w)
            (λ _ w' e'. record {
              ends = (
                ap (λ d. d.is_open) e' ∙ k,
                λ x. given (d0.owned x) (own (some h) x) (l x) (ap (λ d. d.owned x) e'),
                ap (λ d. d.shown) e' ∙ ap (λ t. some (c_str t)) e ∙ ap some (shown_text text rest),
              );
            })
            (λ _ w' e'. Owes-unchanged true (some h) e' (k, l, m))

      -- From the write into the block on.
      write-From :
          (h p : ℕ) (w : W)
          → Owes true (some h) (view w)
          → bytes ≤ (view w).size h
          → block_of p ≡ h
          → From
              (record { clipboard_open = true; h = some h; p = some p; world = w })
              (Pasted text)
              Failed
              (do
                assigned (λ s. record s { world = win.write_memory p (text ++ 0 ∷ []) s.world })
                assigned
                    (λ s. record s { p = none; world = unlocked win (win.global_unlock p s.world) })
                called win.empty_clipboard
                called (win.set_clipboard_data h)
                assigned (λ s. record s { h = none }))
      write-From h p w k room at =
          let w1 = win.write_memory p (text ++ 0 ∷ []) w in
          let w2 = unlocked win (win.global_unlock p w1) in
          let e1 = laws.write_memory_lem p (text ++ 0 ∷ []) w (
            subst (λ b. length (text ++ 0 ∷ []) * 2 ≤ (view w).size b) (sym at)
              (fits text ((view w).size h) below room)) in
          let e2 : view w2 ≡ overwritten h (text ++ 0 ∷ []) (view w) =
            unlocked_lem (win.global_unlock p w1)
            ∙ laws.global_unlock_lem p w1
            ∙ e1
            ∙ ap (λ b. overwritten b (text ++ 0 ∷ []) (view w)) at in
          let k2 = Owes-unchanged true (some h) e2 k in
          assigned_then _ _ (
            assigned_then _ _ (
              called_then (λ _ w'. view w' ≡ record (view w2) { shown = none }) (Unchanged w2) _
                win.empty_clipboard (laws.empty_clipboard_lem w2)
                (λ _ w3 e3.
                  set-From h (drop (length (text ++ 0 ∷ [])) ((view w).memory h)) w3
                    (Owes-unchanged true (some h) e3 (k2.0, k2.1, inr refl))
                    (ap (λ d. d.memory h) e3
                      ∙ ap (λ d. d.memory h) e2
                      ∙ overwritten_at h (text ++ 0 ∷ []) (view w)))
                (λ e w3 e3. Owes-unchanged true (some h) e3 k2)))

      copy_to-From :
          (w : W)
          → view w ≡ d0
          → d0.is_open ≡ false
          → From (started win w) (Pasted text) Failed (copy_to win owner content)
      unfolding copy_to
      copy_to-From w same shut =
          let k0 : Owes false none d0 = (shut, λ x. omega arith, inl refl) in
          let k = Owes-unchanged false none same k0 in
          called_then (λ _ w'. view w' ≡ record (view w) { is_open = true }) (Unchanged w) _
            (win.open_clipboard owner) (laws.open_clipboard_lem owner w)
            (λ _ w1 e1.
              let k1 = Owes-unchanged true none e1 (refl, k.1, k.2) in
              assigned_then _ _ (
                called_then (λ h w'. Allocated bytes h (view w1) (view w')) (Unchanged w1) _
                  (win.global_alloc bytes) (laws.global_alloc_lem bytes w1)
                  (λ h w2 a2.
                    let k2 = Owes-Allocated bytes h a2 k1 in
                    assigned_then _ _ (
                      called_then (λ p w'. (block_of p ≡ h) × (view w' ≡ view w2)) (Unchanged w2) _
                        (win.global_lock h) (laws.global_lock_lem h w2)
                        (λ p w3 a3. assigned_then _ _ (
                          write-From h p w3 (Owes-unchanged true (some h) a3.1 k2)
                            (subst (λ d. bytes ≤ d.size h) (sym a3.1) a2.room) a3.0))
                        (λ e w3 e3. Owes-unchanged true (some h) e3 k2)))
                  (λ e w2 e2. Owes-unchanged true none e2 k1)))
            (λ e w1 e1. Owes-unchanged false none e1 k)

  copy_outcome_Ends :
      (content : Wstr) (w : W) (r : Result (Unit {0}) × Copying W)
      → Ends (Pasted (view w) (chars_of content)) (Failed (view w)) r
      → Ends
          (λ _ w'. Restored w w' × ((view w').shown ≡ some (c_str (chars_of content))))
          (λ _ w'. Restored w w' × (((view w').shown ≡ (view w).shown) ⊎ ((view w').shown ≡ none)))
          (copy_outcome win r)
  unfolding cleaned
  copy_outcome_Ends content w (ok a, s) (o, l, t) =
      let e = copy_cleanup_lem s in
      (
        (ap (λ d. d.is_open) e ∙ shut_after s.clipboard_open _ o, λ x. ap (λ d. d.owned x) e ∙ l x),
        ap (λ d. d.shown) e ∙ t,
      )
  copy_outcome_Ends content w (err a, s) (o, l, t) =
      let e = copy_cleanup_lem s in
      (
        (
          ap (λ d. d.is_open) e ∙ shut_after s.clipboard_open _ o,
          λ x. freed ((view w).owned x) (own s.h x) (l x) (ap (λ d. d.owned x) e),
        ),
        subst (λ t. (t ≡ (view w).shown) ⊎ (t ≡ none)) (sym (ap (λ d. d.shown) e)) t,
      )

  -- With the documented effect of the calls of Windows, for a window that is not null, a text
  -- whose size in bytes with its terminator is below 2^32 and a clipboard that is not open:
  -- copy_to_clipboard ends, on success and on every error, with the clipboard closed and with no
  -- more and no fewer blocks to free than before. On success the clipboard shows the text up to
  -- its first NUL, and every write is inside the block; after an error it shows what it showed, or
  -- nothing.
  pub copy_to_clipboard-Balanced :
      (owner : ℕ) (content : Wstr) (w : W)
      → owner ≢ 0
      → (length (chars_of content) + 1) * 2 < 2 ^ 32
      → (view w).is_open ≡ false
      → Ends
          (λ _ w'. Restored w w' × ((view w').shown ≡ some (c_str (chars_of content))))
          (λ _ w'. Restored w w' × (((view w').shown ≡ (view w).shown) ⊎ ((view w').shown ≡ none)))
          (copy_to_clipboard win owner (some content) w)
  unfolding copy_to_clipboard
  copy_to_clipboard-Balanced owner content w there below shut = elim (Bool-cases (owner == 0)) [
    | inl e ↦ absurd (there ((==_iff owner 0).0 e))
    | inr e ↦
        rw e (
          copy_outcome_Ends content w _
            (copy_to-From (view w) owner content below w refl shut).ends)
  ]
