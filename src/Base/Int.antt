-- ===== src/Base/Int.antt =====
-- Signed integers over the native numbers, under the library's names, and the C conversions
-- between them and the machine words that the sources use (gint, gint64, guint64, gsize).
use Prim.Native.Nat.{ℕ, suc, ◌+◌, ◌-◌, ◌%◌, ◌^◌, ◌≤◌, ◌<◌}
use mathlib.Core.Path.{◌≡◌}
use mathlib.Core.Bool.{Bool, false}
use native.Mathlib.Omega.{arith}
use pulsevideo.Base.Tests.{ltb, leb, ◌==◌, if◌then◌else◌}

-- `negsuc n` is -(n + 1).
pub data ℤ : Type 0 where
  pos : ℕ → ℤ
  negsuc : ℕ → ℤ

-- The sentinel of the sources.
abbrev pub minus_one : ℤ
minus_one = negsuc 0

abbrev pub pos_part : ℤ → ℕ
pos_part (pos n) = n
pos_part (negsuc n) = 0

abbrev pub neg_part : ℤ → ℕ
neg_part (pos n) = 0
neg_part (negsuc n) = suc n

abbrev pub sub_ℕ : ℕ → ℕ → ℤ
sub_ℕ a b = if leb b a then pos (a - b) else negsuc (b - a - 1)

infixl 65 ◌+ℤ◌ ◌-ℤ◌
infix 50 ◌≤ℤ◌ ◌<ℤ◌
unfoldable pub ◌+ℤ◌ : ℤ → ℤ → ℤ
a +ℤ b = sub_ℕ (pos_part a + pos_part b) (neg_part a + neg_part b)

unfoldable pub ◌-ℤ◌ : ℤ → ℤ → ℤ
a -ℤ b = sub_ℕ (pos_part a + neg_part b) (neg_part a + pos_part b)

abbrev pub ◌≤ℤ◌ : ℤ → ℤ → Type 0
a ≤ℤ b = pos_part a + neg_part b ≤ pos_part b + neg_part a

abbrev pub ◌<ℤ◌ : ℤ → ℤ → Type 0
a <ℤ b = pos_part a + neg_part b < pos_part b + neg_part a

abbrev pub ltb_ℤ : ℤ → ℤ → Bool
ltb_ℤ a b = ltb (pos_part a + neg_part b) (pos_part b + neg_part a)

abbrev pub leb_ℤ : ℤ → ℤ → Bool
leb_ℤ a b = leb (pos_part a + neg_part b) (pos_part b + neg_part a)

abbrev pub eqb_ℤ : ℤ → ℤ → Bool
eqb_ℤ (pos a) (pos b) = a == b
eqb_ℤ (pos a) (negsuc b) = false
eqb_ℤ (negsuc a) (pos b) = false
eqb_ℤ (negsuc a) (negsuc b) = a == b

abbrev pub max_ℤ : ℤ → ℤ → ℤ
max_ℤ a b = if ltb_ℤ b a then a else b

abbrev pub min_ℤ : ℤ → ℤ → ℤ
min_ℤ a b = if ltb_ℤ a b then a else b

pub +ℤ_parts :
    (a b : ℤ)
    → pos_part (a +ℤ b) + neg_part a + neg_part b ≡ neg_part (a +ℤ b) + pos_part a + pos_part b
unfolding ◌+ℤ◌
+ℤ_parts a b = ground arith

pub -ℤ_parts :
    (a b : ℤ)
    → pos_part (a -ℤ b) + neg_part a + pos_part b ≡ neg_part (a -ℤ b) + pos_part a + neg_part b
unfolding ◌-ℤ◌
-ℤ_parts a b = ground arith

pub eq_of_parts : (a b : ℤ) → pos_part a + neg_part b ≡ pos_part b + neg_part a → a ≡ b
eq_of_parts a b h = ground arith

pub ruleset int_laws = (arith, +ℤ_parts, -ℤ_parts, eq_of_parts)

abbrev pub two_63 : ℕ
two_63 = 2 ^ 63

abbrev pub two_64 : ℕ
two_64 = 2 ^ 64

abbrev pub two_31 : ℕ
two_31 = 2 ^ 31

abbrev pub two_32 : ℕ
two_32 = 2 ^ 32

-- An integer as the bit pattern of an unsigned word of 32 or 64 bits.
unfoldable pub to_u32 : ℤ → ℕ
to_u32 (pos n) = n % two_32
to_u32 (negsuc n) = two_32 - 1 - n % two_32

unfoldable pub to_u64 : ℤ → ℕ
to_u64 (pos n) = n % two_64
to_u64 (negsuc n) = two_64 - 1 - n % two_64

-- A bit pattern read as a signed word: the conversion of gcc, modulo 2 ^ 32 or 2 ^ 64.
unfoldable pub to_gint : ℕ → ℤ
to_gint w = let v = w % two_32 in if ltb v two_31 then pos v else negsuc (two_32 - 1 - v)

unfoldable pub to_gint64 : ℕ → ℤ
to_gint64 w = let v = w % two_64 in if ltb v two_63 then pos v else negsuc (two_64 - 1 - v)

-- guint64 a - b.
unfoldable pub sub_u64 : ℕ → ℕ → ℕ
sub_u64 a b = (a + two_64 - b) % two_64

-- guint64 a + b.
unfoldable pub add_u64 : ℕ → ℕ → ℕ
add_u64 a b = (a + b) % two_64

-- `acc += size` for a gint `acc` and a gsize `size`: added as gsize, stored as gint.
unfoldable pub add_size_gint : ℤ → ℕ → ℤ
unfolding to_u64 to_gint
add_size_gint acc size = to_gint (to_u64 acc + size)

pub add_size_gint_small :
    (acc size : ℕ) → acc + size < two_31 → add_size_gint (pos acc) size ≡ pos (acc + size)
unfolding add_size_gint
add_size_gint_small acc size h = ground arith
