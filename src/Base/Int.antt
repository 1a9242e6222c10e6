-- ===== src/Base/Int.antt =====
-- The signed integers of the source (ids, SIP status codes), over the native numbers.
use Prim.Native.Nat.{ℕ, suc, ◌+◌}
use mathlib.Core.Path.{◌≡◌, refl}
use mathlib.Core.Logic.{◌↔◌, ◌≢◌}
use mathlib.Core.Bool.{Bool, true, false}
use native.Mathlib.Omega.{arith}
use compact_phone.Base.Test.{ltb, leb, ◌==◌}

-- `negsuc n` is -(n + 1).
pub data ℤ : Type 0 where
  pos : ℕ → ℤ
  negsuc : ℕ → ℤ

abbrev pub pos_part : ℤ → ℕ
pos_part (pos n) = n
pos_part (negsuc n) = 0

abbrev pub neg_part : ℤ → ℕ
neg_part (pos n) = 0
neg_part (negsuc n) = suc n

abbrev pub ltb_ℤ : ℤ → ℤ → Bool
ltb_ℤ a b = ltb (pos_part a + neg_part b) (pos_part b + neg_part a)

abbrev pub leb_ℤ : ℤ → ℤ → Bool
leb_ℤ a b = leb (pos_part a + neg_part b) (pos_part b + neg_part a)

-- `==` on ids and codes; shut, and read through `z_eq_iff`.
unfoldable pub z_eq : ℤ → ℤ → Bool
z_eq (pos a) (pos b) = a == b
z_eq (negsuc a) (negsuc b) = a == b
z_eq (pos a) (negsuc b) = false
z_eq (negsuc a) (pos b) = false

pub z_eq_iff : (a b : ℤ) → (z_eq a b ≡ true) ↔ (a ≡ b)
unfolding z_eq
z_eq_iff (pos a) (pos b) = ground arith
z_eq_iff (negsuc a) (negsuc b) = ground arith
z_eq_iff (pos a) (negsuc b) = ground arith
z_eq_iff (negsuc a) (pos b) = ground arith

pub z_eq_refl : (a : ℤ) → z_eq a a ≡ true
z_eq_refl a = (z_eq_iff a a).1 refl

-- `kInvalidAccountId`, `kInvalidCallId` and `kInvalidWatchId` are all -1.
abbrev pub invalid_id : ℤ
invalid_id = negsuc 0

pub ne_of_z_eq : (a b : ℤ) → z_eq a b ≡ false → a ≢ b
ne_of_z_eq a b h e = ground (arith, z_eq_iff a b)
