-- ===== src/Buffer.antt =====
-- The growing text buffers that src/c/luastr.c and src/c/ptklayer.c fill character by character,
-- and the room in them.
use aviutl_psdtoolkit.Base.{
  ℕ, suc, ◌+◌, ◌≤◌, ◌≡◌, [], ◌∷◌, ◌++◌, ltb, if◌then◌else◌, length, length-append, append_assoc,
  Chars, M, ◌>>=◌, ◌>>◌, pure, raise, overrun, Error, Meets, pure-Meets, if-Meets, >>=-Meets, Ovstr,
  OvstrLaws, arith,
}

-- `tmp`, of which only `cap` characters are known to exist.
pub record Buffer : Type 0 where
  pub cap : ℕ
  pub chars : Chars

abbrev pub empty_buffer : Buffer
empty_buffer = record { cap = 0; chars = [] }

-- `tmp.ptr[tmp.len++] = c`
unfoldable pub put : {W : Type 0} → ℕ → Buffer → M W Buffer
put c b =
    if ltb (length b.chars) b.cap
    then pure (record b { chars = b.chars ++ c ∷ [] })
    else raise overrun

-- `sgrow(&tmp, n)`: a growing buffer keeps what it holds.
unfoldable pub grow : {W : Type 0} → Ovstr W → ℕ → Buffer → M W Buffer
grow lib n b = do lib.sgrow n; pure (record b { cap = if ltb b.cap n then n else b.cap })

-- The buffer holds `s`, and room for `n` more characters.
pub record Holds (s : Chars) (n : ℕ) (b : Buffer) : Type 0 where
  pub chars_are : b.chars ≡ s
  pub room : length b.chars + n ≤ b.cap

module _ {W : Type 0} {E : Error → Type 0} where
  pub put-Meets :
      (c n : ℕ) (s : Chars) (b : Buffer)
      → Holds s (suc n) b
      → Meets {W = W} E (Holds (s ++ (c ∷ [])) n) (put c b)
  unfolding put
  put-Meets c n s b h =
      if-Meets (ltb (length b.chars) b.cap)
        (λ _. pure-Meets _ (ground (arith, length-append {0} b.chars (c ∷ []))))
        (λ e. absurd (ground arith))

  module _ (lib : Ovstr W) (laws : OvstrLaws lib E) where
    pub grow-Meets :
        (n m : ℕ) (s : Chars) (b : Buffer)
        → b.chars ≡ s
        → length s + m ≤ n
        → Meets E (Holds s m) (grow lib n b)
    unfolding grow
    grow-Meets n m s b h k = >>=-Meets (laws.sgrow_lem n) (λ _ _. pure-Meets _ (ground arith))

pub Holds-le : (n m : ℕ) (s : Chars) (b : Buffer) → m ≤ n → Holds s n b → Holds s m b
Holds-le n m s b k h = ground arith

-- A character and what is written behind it.
pub put-then :
    {W : Type 0} {E : Error → Type 0} (c n m : ℕ) (s t : Chars) (b : Buffer)
    (f : Buffer → M W Buffer)
    → Holds s (suc n) b
    → ((b1 : Buffer) → Holds (s ++ (c ∷ [])) n b1 → Meets E (Holds ((s ++ (c ∷ [])) ++ t) m) (f b1))
    → Meets E (Holds (s ++ (c ∷ t)) m) (put c b >>= f)
put-then c n m s t b f h k =
    >>=-Meets (put-Meets c n s b h) (λ b1 h1. rw (← append_assoc s (c ∷ []) t) (k b1 h1))
