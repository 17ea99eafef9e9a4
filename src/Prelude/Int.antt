-- ===== src/Prelude/Int.antt =====
-- Go's int and int64 as integers over the native numbers; the functions that may leave the 64-bit
-- range test it themselves.
use golang_fin.Prelude.{
  ℕ, suc, ◌+◌, ◌-◌, ◌^◌, leb, if◌then◌else◌, ◌≡◌, ◌↔◌, Bool, true, arith, ltb, ◌≤◌, ◌<◌, ◌==◌,
}

-- `negsuc n` is -(n + 1).
pub data ℤ : Type 0 where
  pos : ℕ → ℤ
  negsuc : ℕ → ℤ

abbrev pub pos_part : ℤ → ℕ
pos_part (pos n) = n
pos_part (negsuc n) = 0

abbrev pub neg_part : ℤ → ℕ
neg_part (pos n) = 0
neg_part (negsuc n) = suc n

infix 50 ◌<ℤ◌ ◌≤ℤ◌
abbrev pub ◌≤ℤ◌ : ℤ → ℤ → Type 0
a ≤ℤ b = pos_part a + neg_part b ≤ pos_part b + neg_part a

abbrev pub ◌<ℤ◌ : ℤ → ℤ → Type 0
a <ℤ b = pos_part a + neg_part b < pos_part b + neg_part a

abbrev pub ltb_ℤ : ℤ → ℤ → Bool
ltb_ℤ a b = ltb (pos_part a + neg_part b) (pos_part b + neg_part a)

abbrev pub eqb_ℤ : ℤ → ℤ → Bool
eqb_ℤ (pos m) (pos n) = m == n
eqb_ℤ (negsuc m) (negsuc n) = m == n
eqb_ℤ _ _ = Bool.false

pub eqb_ℤ_iff : (a b : ℤ) → (eqb_ℤ a b ≡ true) ↔ (a ≡ b)
eqb_ℤ_iff (pos m) (pos n) = ground arith
eqb_ℤ_iff (negsuc m) (negsuc n) = ground arith
eqb_ℤ_iff (pos m) (negsuc n) = ground arith
eqb_ℤ_iff (negsuc m) (pos n) = ground arith

-- a - b, as an integer.
abbrev pub sub_ℕ : ℕ → ℕ → ℤ
sub_ℕ a b = if leb b a then pos (a - b) else negsuc (b - a - 1)

-- An integer and a natural number.
infixl 65 ◌⊕◌
unfoldable pub ◌⊕◌ : ℤ → ℕ → ℤ
z ⊕ n = sub_ℕ (pos_part z + n) (neg_part z)

-- One lemma lets `omega` work with the sum shut.
pub ⊕_parts : (z : ℤ) (n : ℕ) → pos_part (z ⊕ n) + neg_part z ≡ neg_part (z ⊕ n) + pos_part z + n
unfolding ◌⊕◌
⊕_parts (pos m) n = ground arith
⊕_parts (negsuc m) n = ground arith

pub ⊕-zero : (z : ℤ) → z ⊕ 0 ≡ z
unfolding ◌⊕◌
⊕-zero (pos m) = ground arith
⊕-zero (negsuc m) = ground arith

-- The integers of 64 bits.
abbrev pub IsInt64 : ℤ → Type 0
IsInt64 z = (pos_part z < 2 ^ 63) × (neg_part z ≤ 2 ^ 63)
