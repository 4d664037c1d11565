-- ===== src/Prelude/Int.antt =====
-- Signed integers over the native numbers, under the library's names (its ℤ stands on the unary
-- ℕ). `negsuc n` is -(n + 1).
use strixcam.Prelude.{ℕ, suc, ◌+◌, Bool, true, false, ltb, leb, nat_eq, Comparable, ◌≡◌, ◌↔◌, arith}

pub data ℤ : Type 0 where
  pos : ℕ → ℤ
  negsuc : ℕ → ℤ

abbrev pub pos_part : ℤ → ℕ
pos_part (pos n) = n
pos_part (negsuc n) = 0

abbrev pub neg_part : ℤ → ℕ
neg_part (pos n) = 0
neg_part (negsuc n) = suc n

abbrev pub leb_ℤ : ℤ → ℤ → Bool
leb_ℤ a b = leb (pos_part a + neg_part b) (pos_part b + neg_part a)

abbrev pub ltb_ℤ : ℤ → ℤ → Bool
ltb_ℤ a b = ltb (pos_part a + neg_part b) (pos_part b + neg_part a)

unfoldable pub ℤ_eq : ℤ → ℤ → Bool
ℤ_eq (pos a) (pos b) = nat_eq a b
ℤ_eq (negsuc a) (negsuc b) = nat_eq a b
ℤ_eq _ _ = false

pub ℤ_eq_iff : (a b : ℤ) → (ℤ_eq a b ≡ true) ↔ (a ≡ b)
unfolding ℤ_eq
ℤ_eq_iff (pos a) (pos b) = ground arith
ℤ_eq_iff (negsuc a) (negsuc b) = ground arith
ℤ_eq_iff (pos a) (negsuc b) = ground arith
ℤ_eq_iff (negsuc a) (pos b) = ground arith

instance abbrev pub int_keys : Comparable ℤ
int_keys = record { same = ℤ_eq; same_iff = ℤ_eq_iff }
