-- ===== src/Go/Integers.antt =====
-- Go's signed `int`. Its size is not bounded here: where a number is parsed, the parser has the bound.
use terraform_provider_runde.Common.{
  ℕ, Bool, true, false, leb, eqb, ◌≡◌, refl, ap, ◌↔◌, arith, eqb→eq, subst,
}

-- `negsuc n` is -(n + 1).
pub data ℤ : Type 0 where
  pos : ℕ → ℤ
  negsuc : ℕ → ℤ

abbrev pub int_le : ℤ → ℤ → Bool
int_le (pos a) (pos b) = leb a b
int_le (pos a) (negsuc b) = false
int_le (negsuc a) (pos b) = true
int_le (negsuc a) (negsuc b) = leb b a

abbrev pub int_eq : ℤ → ℤ → Bool
int_eq (pos a) (pos b) = eqb a b
int_eq (negsuc a) (negsuc b) = eqb a b
int_eq _ _ = false

int_eq→eq : (a b : ℤ) → int_eq a b ≡ true → a ≡ b
int_eq→eq (pos a) (pos b) h = ap pos (eqb→eq a b h)
int_eq→eq (negsuc a) (negsuc b) h = ap negsuc (eqb→eq a b h)
int_eq→eq (pos a) (negsuc b) h = cc
int_eq→eq (negsuc a) (pos b) h = cc

int_eq_refl : (a : ℤ) → int_eq a a ≡ true
int_eq_refl (pos a) = ground arith
int_eq_refl (negsuc a) = ground arith

pub int_eq_iff : (a b : ℤ) → (int_eq a b ≡ true) ↔ (a ≡ b)
int_eq_iff a b = (int_eq→eq a b, λ p. subst (λ c. int_eq a c ≡ true) p (int_eq_refl a))

pub int_le_total : (a b : ℤ) → int_le a b ≡ false → int_le b a ≡ true
int_le_total (pos a) (pos b) h = ground arith
int_le_total (negsuc a) (negsuc b) h = ground arith
int_le_total (pos a) (negsuc b) h = refl
int_le_total (negsuc a) (pos b) h = cc

pub int_le_trans : (a b c : ℤ) → int_le a b ≡ true → int_le b c ≡ true → int_le a c ≡ true
int_le_trans (pos a) (pos b) (pos c) h g = ground arith
int_le_trans (pos a) (pos b) (negsuc c) h g = cc
int_le_trans (pos a) (negsuc b) c h g = cc
int_le_trans (negsuc a) (pos b) (pos c) h g = refl
int_le_trans (negsuc a) (pos b) (negsuc c) h g = cc
int_le_trans (negsuc a) (negsuc b) (pos c) h g = refl
int_le_trans (negsuc a) (negsuc b) (negsuc c) h g = ground arith

pub int_le_antisymm : (a b : ℤ) → int_le a b ≡ true → int_le b a ≡ true → a ≡ b
int_le_antisymm (pos a) (pos b) h g = ap pos (ground arith)
int_le_antisymm (negsuc a) (negsuc b) h g = ap negsuc (ground arith)
int_le_antisymm (pos a) (negsuc b) h g = cc
int_le_antisymm (negsuc a) (pos b) h g = cc
