-- ===== src/Speak/Types.antt =====
-- `struct speak` of src/c/speak.c, and the calls that it makes of other code.
use aviutl_psdtoolkit.Base.{ℕ, List, Option, none, Chars, M, Wstr}

-- `struct timespec`
pub record Time : Type 0 where
  pub sec : ℕ
  pub nsec : ℕ

pub record Item : Type 0 where
  pub h : Option ℕ
  pub filepath : Wstr
  pub used_at : Time

abbrev pub empty_item : Item
empty_item = record { h = none; filepath = none; used_at = record { sec = 0; nsec = 0 } }

-- The items of `struct speak`, and the world outside of them.
pub record Table (W : Type 0) : Type 0 where
  pub items : List Item
  pub world : W

-- `struct speak_callbacks`, and the clock, which may refuse.
pub record Audio (W : Type 0) : Type 0 where
  pub open_file : Chars → (freq ch : ℕ) → M W ℕ
  pub read_file : Option ℕ → (offset length : ℕ) → M W (List ℕ)
  pub close_file : ℕ → W → W
  pub timespec_get : W → Option Time × W

-- A call that leaves the items alone.
unfoldable pub outside : {W A : Type 0} → M W A → M (Table W) A
outside m t = let (r, w) = m t.world in (r, record t { world = w })
