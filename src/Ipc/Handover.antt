-- ===== src/Ipc/Handover.antt =====
-- The order in which the two threads of src/c/ipc.c proceed: the one that makes a command, and the
-- one that reads the pipe.
use aviutl_psdtoolkit.Base.{ℕ, zero, suc, ◌≤◌, ◌≡◌, ◌≢◌, ◌⊎◌, inl, inr, refl, arith}

-- Where the command's thread is: outside of a command; behind `mtx_lock`, where it starts the
-- process and writes; in the wait of `get_reply`; or behind it, where it reads the payload.
pub data CommandAt : Type 0 where
  idle starting awaiting payload : CommandAt

-- Where the reading thread is: not there; reading the next message; or in the wait of `read_reply`.
pub data ReaderAt : Type 0 where
  gone header waiting : ReaderAt

-- Both, `c2s.var` and `s2c.var`, and how many commands have failed before their reply.
pub data Threads : Type 0 where
  at : CommandAt → ReaderAt → (c2s s2c failures : ℕ) → Threads

module _ (signal : ℕ → ℕ → ℕ) (Passes : ℕ → Type 0) where
  -- `signal` is what `cndvar_signal` makes of the variable; `Passes` is when a wait while it is 0
  -- may return. The renderer replies only to a command.
  pub data Step : Threads → Threads → Type 0 where
    begin : (r : ReaderAt) (c s n : ℕ) → Step (at idle r c s n) (at starting r c s n)
    launch_reader : (c s n : ℕ) → Step (at starting gone c s n) (at starting header c s n)
    send : (r : ReaderAt) (c s n : ℕ) → r ≢ gone → Step (at starting r c s n) (at awaiting r c s n)
    fail_early :
        (r : ReaderAt) (c s n : ℕ) → Step (at starting r c s n) (at idle r (signal c 1) s (suc n))
    reply : (c s n : ℕ) → Step (at awaiting header c s n) (at awaiting waiting c (signal s 1) n)
    take_reply :
        (r : ReaderAt) (c s n : ℕ) → Passes s → Step (at awaiting r c s n) (at payload r c 0 n)
    finish : (r : ReaderAt) (c s n : ℕ) → Step (at payload r c s n) (at idle r (signal c 1) s n)
    resume : (a : CommandAt) (c s n : ℕ) → Passes c → Step (at a waiting c s n) (at a header 0 s n)
    end_reader : (a : CommandAt) (c s n : ℕ) → Step (at a header c s n) (at a gone c s n)

  pub data Reachable : Threads → Type 0 where
    initial : Reachable (at idle gone 0 0 0)
    next : (t u : Threads) → Reachable t → Step t u → Reachable u

  -- Neither thread can go on.
  abbrev pub IsStuck : Threads → Type 0
  IsStuck t = (u : Threads) → ¬ Step t u

-- No signal is left over, or the one that lets the reading thread go on.
abbrev Calm : ReaderAt → ℕ → ℕ → Type 0
Calm waiting c s = (c ≢ 0) × (s ≡ 0)
Calm _ c s = (c ≡ 0) × (s ≡ 0)

abbrev Ordered : CommandAt → ReaderAt → ℕ → ℕ → Type 0
Ordered idle r c s = Calm r c s
Ordered starting r c s = Calm r c s
Ordered awaiting waiting c s = Calm waiting c s ⊎ ((c ≡ 0) × (s ≢ 0))
Ordered awaiting r c s = Calm r c s
Ordered payload waiting c s = (c ≡ 0) × (s ≡ 0)
Ordered payload r c s = ⊥

abbrev Invariant : Threads → Type 0
Invariant (at a r c s n) = n ≡ 0 → Ordered a r c s

-- Both threads read the pipe.
abbrev pub BothRead : Threads → Type 0
BothRead (at payload header c s n) = Unit
BothRead _ = ⊥

abbrev pub failures_of : Threads → ℕ
failures_of (at a r c s n) = n

module _ (signal : ℕ → ℕ → ℕ) (Passes : ℕ → Type 0) (sets : (c v : ℕ) → signal c v ≡ v)
    (nonzero : (v : ℕ) → Passes v → v ≢ 0) where
  signalled : (c : ℕ) → signal c 1 ≢ 0
  signalled c h = absurd (omega (arith, sets c 1))

  Step-Invariant : (t u : Threads) → Step signal Passes t u → Invariant t → Invariant u
  Step-Invariant _ _ (begin r c s n) i = λ e. i e
  Step-Invariant _ _ (launch_reader c s n) i = λ e. i e
  Step-Invariant _ _ (send gone c s n h) i = λ e. i e
  Step-Invariant _ _ (send header c s n h) i = λ e. i e
  Step-Invariant _ _ (send waiting c s n h) i = λ e. inl (i e)
  Step-Invariant _ _ (fail_early r c s n) i = λ e. absurd (omega arith)
  Step-Invariant _ _ (reply c s n) i = λ e. inr ((i e).0, signalled s)
  Step-Invariant _ _ (take_reply gone c s n p) i = λ e. nonzero s p (i e).1
  Step-Invariant _ _ (take_reply header c s n p) i = λ e. nonzero s p (i e).1
  Step-Invariant _ _ (take_reply waiting c s n p) i =
      λ e. elim (i e) [ inl calm ↦ absurd (nonzero s p calm.1) | inr replied ↦ (replied.0, refl) ]
  Step-Invariant _ _ (finish gone c s n) i = λ e. absurd (i e)
  Step-Invariant _ _ (finish header c s n) i = λ e. absurd (i e)
  Step-Invariant _ _ (finish waiting c s n) i = λ e. (signalled c, (i e).1)
  Step-Invariant _ _ (resume idle c s n p) i = λ e. (refl, (i e).1)
  Step-Invariant _ _ (resume starting c s n p) i = λ e. (refl, (i e).1)
  Step-Invariant _ _ (resume awaiting c s n p) i =
      λ e. elim (i e) [ inl calm ↦ (refl, calm.1) | inr replied ↦ absurd (nonzero c p replied.0) ]
  Step-Invariant _ _ (resume payload c s n p) i = λ e. nonzero c p (i e).0
  Step-Invariant _ _ (end_reader idle c s n) i = λ e. i e
  Step-Invariant _ _ (end_reader starting c s n) i = λ e. i e
  Step-Invariant _ _ (end_reader awaiting c s n) i = λ e. i e
  Step-Invariant _ _ (end_reader payload c s n) i = λ e. i e

  Reachable-Invariant : (t : Threads) → Reachable signal Passes t → Invariant t
  Reachable-Invariant _ initial = λ e. (refl, refl)
  Reachable-Invariant _ (next t u h step) = Step-Invariant t u step (Reachable-Invariant t h)

  both_need : (t : Threads) → Invariant t → BothRead t → 1 ≤ failures_of t
  both_need (at payload header c s zero) i b = absurd (i refl)
  both_need (at payload header c s (suc n)) i b = omega arith
  both_need (at idle r c s n) i b = absurd b
  both_need (at starting r c s n) i b = absurd b
  both_need (at awaiting r c s n) i b = absurd b
  both_need (at payload gone c s n) i b = absurd b
  both_need (at payload waiting c s n) i b = absurd b

  -- When a signal stores its value and a wait passes only at another value than 0, and the
  -- renderer replies only to commands: in every reachable state in which the command's thread
  -- reads its payload while the reading thread reads the pipe too, some command has failed before
  -- its reply.
  pub BothRead-needs_failure :
      (t : Threads) → Reachable signal Passes t → BothRead t → 1 ≤ failures_of t
  BothRead-needs_failure t h = both_need t (Reachable-Invariant t h)

  awaiting_gone-IsStuck : (c s n : ℕ) → s ≡ 0 → IsStuck signal Passes (at awaiting gone c s n)
  awaiting_gone-IsStuck c s n e _ (take_reply gone _ _ _ p) = nonzero s p e

  -- The first command, whose renderer ends before it replies.
  ended_early : Reachable signal Passes (at awaiting gone 0 0 0)
  ended_early =
      next _ _
        (next _ _ (next _ _ (next _ _ initial (begin gone 0 0 0)) (launch_reader 0 0 0))
          (send header 0 0 0 (λ e. cc)))
        (end_reader awaiting 0 0 0)

  -- When a signal stores its value and a wait passes only at another value than 0, and the
  -- renderer replies only to commands: a state can be reached in which a command waits for its
  -- reply and the reading thread has ended, with no command having failed before; and in every
  -- reachable state of this kind no step of either thread is possible any more.
  pub awaiting_gone-Deadlock :
      Reachable signal Passes (at awaiting gone 0 0 0)
      × ((c s : ℕ)
          → Reachable signal Passes (at awaiting gone c s 0)
          → IsStuck signal Passes (at awaiting gone c s 0))
  awaiting_gone-Deadlock =
      (ended_early, λ c s r. awaiting_gone-IsStuck c s 0 (Reachable-Invariant _ r refl).1)
