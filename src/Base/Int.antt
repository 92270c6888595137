-- ===== src/Base/Int.antt =====
-- Integers over the native numbers. Go's `int` and `int64` are 64 bits wide: what the source adds
-- or multiplies goes through `wrap64`. An instant is a number of nanoseconds.
use Prim.Native.Nat.{ℕ, suc, ◌+◌, ◌-◌, ◌*◌, ◌%◌, ◌≤◌, ◌<◌}
use mathlib.Core.Path.{◌≡◌}
use mathlib.Core.Bool.{Bool}
use native.Mathlib.Omega.{arith}
use hearsay.Base.Tests.{ltb, leb, ◌==◌, if◌then◌else◌}

-- `negsuc n` is -(n + 1).
pub data ℤ : Type 0 where
  pos : ℕ → ℤ
  negsuc : ℕ → ℤ

abbrev pub pos_part : ℤ → ℕ
pos_part (pos n) = n
pos_part (negsuc n) = 0

abbrev pub neg_part : ℤ → ℕ
neg_part (pos n) = 0
neg_part (negsuc n) = suc n

-- a - b, as an integer.
abbrev pub sub_ℕ : ℕ → ℕ → ℤ
sub_ℕ a b = if leb b a then pos (a - b) else negsuc (b - a - 1)

infixl 65 ◌+ℤ◌
infix 50 ◌≤ℤ◌ ◌<ℤ◌
unfoldable pub ◌+ℤ◌ : ℤ → ℤ → ℤ
a +ℤ b = sub_ℕ (pos_part a + pos_part b) (neg_part a + neg_part b)

abbrev pub ◌≤ℤ◌ : ℤ → ℤ → Type 0
a ≤ℤ b = pos_part a + neg_part b ≤ pos_part b + neg_part a

abbrev pub ◌<ℤ◌ : ℤ → ℤ → Type 0
a <ℤ b = pos_part a + neg_part b < pos_part b + neg_part a

abbrev pub ltb_ℤ : ℤ → ℤ → Bool
ltb_ℤ a b = ltb (pos_part a + neg_part b) (pos_part b + neg_part a)

abbrev pub leb_ℤ : ℤ → ℤ → Bool
leb_ℤ a b = leb (pos_part a + neg_part b) (pos_part b + neg_part a)

abbrev pub eq_ℤ : ℤ → ℤ → Bool
eq_ℤ a b = (pos_part a + neg_part b) == (pos_part b + neg_part a)

-- One lemma for each operation lets `omega` work with the operations shut, at any depth.
pub +ℤ_parts :
    (a b : ℤ)
    → pos_part (a +ℤ b) + neg_part a + neg_part b ≡ neg_part (a +ℤ b) + pos_part a + pos_part b
unfolding ◌+ℤ◌
+ℤ_parts a b = ground arith

pub eq_of_parts : (a b : ℤ) → pos_part a + neg_part b ≡ pos_part b + neg_part a → a ≡ b
eq_of_parts a b h = ground arith

abbrev pub two63 : ℕ
two63 = 9223372036854775808

abbrev pub two64 : ℕ
two64 = 18446744073709551616

-- The value that the low 64 bits of an integer stand for in two's complement.
unfoldable pub wrap64 : ℤ → ℤ
wrap64 (pos n) = let r = n % two64 in if ltb r two63 then pos r else negsuc (two64 - 1 - r)
wrap64 (negsuc n) = let r = n % two64 in if ltb r two63 then negsuc r else pos (two64 - 1 - r)

pub wrap64-pos : (n : ℕ) → n < two63 → wrap64 (pos n) ≡ pos n
unfolding wrap64
wrap64-pos n h = ground arith

pub wrap64_range : (a : ℤ) → (pos_part (wrap64 a) < two63) × (neg_part (wrap64 a) ≤ two63)
unfolding wrap64
wrap64_range (pos n) = ground arith
wrap64_range (negsuc n) = ground arith

-- Instants. `After` and `Before` are strict; the zero instant is 0.
abbrev pub Time : Type 0
Time = ℤ

abbrev pub is_after : Time → Time → Bool
is_after a b = ltb_ℤ b a

abbrev pub is_before : Time → Time → Bool
is_before a b = ltb_ℤ a b

abbrev pub zero_time : Time
zero_time = pos 0

abbrev pub is_zero : Time → Bool
is_zero t = eq_ℤ t zero_time

abbrev pub second : ℕ
second = 1000000000

-- `time.Duration(ttl) * time.Second`: the product is an `int64` and wraps.
unfoldable pub seconds : ℤ → ℤ
seconds (pos n) = wrap64 (pos (n * second))
seconds (negsuc n) = wrap64 (negsuc (n * second + (second - 1)))

-- The longest TTL whose duration is exact.
abbrev pub max_ttl : ℕ
max_ttl = 9223372036

pub seconds-pos : (n : ℕ) → n ≤ max_ttl → seconds (pos n) ≡ pos (n * second)
unfolding seconds
seconds-pos n h = wrap64-pos (n * second) (omega arith)
