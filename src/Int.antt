-- ===== src/Int.antt =====
-- Signed integers over the native numbers, and Go's int64: sums and differences wrap at 64 bits.
use tachigo.Base.{
  ℕ, suc, ◌+◌, ◌-◌, ◌*◌, ◌/◌, ◌%◌, ◌≤◌, ◌<◌, ◌≡◌, ◌⊎◌, Bool, true, false, ◌&&◌, arith, ltb, leb,
  ◌==◌, if◌then◌else◌,
}
use native.Mathlib.Nat.{add-zero, div-le_self}

-- `negsuc n` is -(n + 1).
pub data ℤ : Type 0 where
  pos : ℕ → ℤ
  negsuc : ℕ → ℤ

abbrev pub pos_part : ℤ → ℕ
pos_part (pos n) = n
pos_part (negsuc n) = 0

abbrev pub neg_part : ℤ → ℕ
neg_part (pos n) = 0
neg_part (negsuc n) = suc n

-- a - b, as an integer.
abbrev pub sub_ℕ : ℕ → ℕ → ℤ
sub_ℕ a b = if leb b a then pos (a - b) else negsuc (b - a - 1)

infixl 65 ◌+ℤ◌ ◌-ℤ◌
infixl 70 ◌*ℤ◌
infix 50 ◌≤ℤ◌ ◌<ℤ◌
unfoldable pub ◌+ℤ◌ : ℤ → ℤ → ℤ
a +ℤ b = sub_ℕ (pos_part a + pos_part b) (neg_part a + neg_part b)

unfoldable pub ◌-ℤ◌ : ℤ → ℤ → ℤ
a -ℤ b = sub_ℕ (pos_part a + neg_part b) (neg_part a + pos_part b)

unfoldable pub ◌*ℤ◌ : ℤ → ℤ → ℤ
a *ℤ b =
    sub_ℕ (pos_part a * pos_part b + neg_part a * neg_part b)
      (pos_part a * neg_part b + neg_part a * pos_part b)

abbrev pub ◌≤ℤ◌ : ℤ → ℤ → Type 0
a ≤ℤ b = pos_part a + neg_part b ≤ pos_part b + neg_part a

abbrev pub ◌<ℤ◌ : ℤ → ℤ → Type 0
a <ℤ b = pos_part a + neg_part b < pos_part b + neg_part a

abbrev pub ltb_ℤ : ℤ → ℤ → Bool
ltb_ℤ a b = ltb (pos_part a + neg_part b) (pos_part b + neg_part a)

abbrev pub leb_ℤ : ℤ → ℤ → Bool
leb_ℤ a b = leb (pos_part a + neg_part b) (pos_part b + neg_part a)

abbrev pub eq_ℤ : ℤ → ℤ → Bool
eq_ℤ a b = pos_part a + neg_part b == pos_part b + neg_part a

-- With these laws the operations can stay shut.
pub +ℤ_parts :
    (a b : ℤ)
    → pos_part (a +ℤ b) + neg_part a + neg_part b ≡ neg_part (a +ℤ b) + pos_part a + pos_part b
unfolding ◌+ℤ◌
+ℤ_parts a b = ground arith

pub -ℤ_parts :
    (a b : ℤ)
    → pos_part (a -ℤ b) + neg_part a + pos_part b ≡ neg_part (a -ℤ b) + pos_part a + neg_part b
unfolding ◌-ℤ◌
-ℤ_parts a b = ground arith

pub eq_of_parts : (a b : ℤ) → pos_part a + neg_part b ≡ pos_part b + neg_part a → a ≡ b
eq_of_parts a b h = ground arith

-- An integer has one sign.
pub one_part : (a : ℤ) → (pos_part a ≡ 0) ⊎ (neg_part a ≡ 0)
one_part a = ground arith

pub ruleset int_laws = (arith, +ℤ_parts, -ℤ_parts, eq_of_parts)

pub +ℤ_comm : (a b : ℤ) → a +ℤ b ≡ b +ℤ a
+ℤ_comm a b = omega int_laws

pub +ℤ_zero_left : (a : ℤ) → pos 0 +ℤ a ≡ a
+ℤ_zero_left a = omega int_laws

pub +ℤ_zero_right : (a : ℤ) → a +ℤ pos 0 ≡ a
+ℤ_zero_right a = omega int_laws

-- 2 ^ 63 and 2 ^ 64.
abbrev pub int64_half : ℕ
int64_half = 9223372036854775808

abbrev pub int64_span : ℕ
int64_span = 18446744073709551616

-- `math.MaxInt64`.
abbrev pub max_int64 : ℤ
max_int64 = pos 9223372036854775807

abbrev pub fits_int64 : ℤ → Bool
fits_int64 a = ltb (pos_part a) int64_half && leb (neg_part a) int64_half

abbrev pub IsInt64 : ℤ → Type 0
IsInt64 a = (pos_part a < int64_half) × (neg_part a ≤ int64_half)

-- A column of 32 bits.
abbrev pub fits_int32 : ℤ → Bool
fits_int32 a = ltb (pos_part a) 2147483648 && leb (neg_part a) 2147483648

pub fits_int64→IsInt64 : (a : ℤ) → fits_int64 a ≡ true → IsInt64 a
fits_int64→IsInt64 a h = ground arith

-- The value that 64 bits of two's complement keep of an integer.
pub wrap64 : ℤ → ℤ
wrap64 (pos n) =
    let r = n % int64_span in if ltb r int64_half then pos r else negsuc (int64_span - 1 - r)
wrap64 (negsuc n) =
    let r = n % int64_span in if ltb r int64_half then negsuc r else pos (int64_span - 1 - r)

-- In range nothing wraps.
pub wrap64-eq : (a : ℤ) → IsInt64 a → wrap64 a ≡ a
unfolding wrap64
wrap64-eq (pos n) h = ground arith
wrap64-eq (negsuc n) h = ground arith

-- Whatever wraps lands in range.
pub wrap64-IsInt64 : (a : ℤ) → IsInt64 (wrap64 a)
unfolding wrap64
wrap64-IsInt64 (pos n) = ground arith
wrap64-IsInt64 (negsuc n) = ground arith

-- Wrapping only lowers what is not below the least int64.
pub wrap64_le : (a : ℤ) → neg_part a ≤ int64_half → wrap64 a ≤ℤ a
unfolding wrap64
wrap64_le (pos n) h = ground arith
wrap64_le (negsuc n) h = ground arith

-- Go's `a + b` and `a - b` on int64.
unfoldable pub add64 : ℤ → ℤ → ℤ
add64 a b = wrap64 (a +ℤ b)

unfoldable pub sub64 : ℤ → ℤ → ℤ
sub64 a b = wrap64 (a -ℤ b)

unfoldable pub mul64 : ℤ → ℤ → ℤ
mul64 a b = wrap64 (a *ℤ b)

abbrev magnitude : ℤ → ℕ
magnitude a = pos_part a + neg_part a

abbrev same_sign : ℤ → ℤ → Bool
same_sign (pos a) (pos b) = true
same_sign (negsuc a) (negsuc b) = true
same_sign _ _ = false

-- Go's `a / b`, which truncates towards zero. The services divide by positive numbers only.
unfoldable pub div64 : ℤ → ℤ → ℤ
div64 a b = let q = magnitude a / magnitude b in wrap64 (if same_sign a b then pos q else sub_ℕ 0 q)

-- Go's `a % b`, whose sign is that of `a`.
unfoldable pub rem64 : ℤ → ℤ → ℤ
rem64 (pos a) b = pos (a % magnitude b)
rem64 (negsuc a) b = sub_ℕ 0 (suc a % magnitude b)

-- Go's `t.Sub(u)` on times in nanoseconds, which saturates at the ends of int64.
unfoldable pub time_sub : ℕ → ℕ → ℤ
time_sub t u =
    if leb u t
    then (if ltb (t - u) int64_half then pos (t - u) else max_int64)
    else (if leb (u - t) int64_half then negsuc (u - t - 1) else negsuc (int64_half - 1))

-- On numbers that are not negative, while the result is in range, the operations are those of ℕ.
pub add64_pos : (a b : ℕ) → a + b < int64_half → add64 (pos a) (pos b) ≡ pos (a + b)
unfolding add64 wrap64 ◌+ℤ◌
add64_pos a b h = ground arith

pub sub64_pos : (a b : ℕ) → b ≤ a → a < int64_half → sub64 (pos a) (pos b) ≡ pos (a - b)
unfolding sub64 wrap64 ◌-ℤ◌
sub64_pos a b h k = ground arith

*ℤ_pos : (a b : ℕ) → pos a *ℤ pos b ≡ pos (a * b)
unfolding ◌*ℤ◌
*ℤ_pos a b = ground arith

pub mul64_pos : (a b : ℕ) → a * b < int64_half → mul64 (pos a) (pos b) ≡ pos (a * b)
unfolding mul64
mul64_pos a b h = rw *ℤ_pos (wrap64-eq (pos (a * b)) (h, omega arith))

pub div64_pos : (a b : ℕ) → a < int64_half → div64 (pos a) (pos b) ≡ pos (a / b)
unfolding div64
div64_pos a b h =
    rw (add-zero a, add-zero b)
      (wrap64-eq (pos (a / b)) (omega (arith, div-le_self a b), omega arith))

pub rem64_pos : (a b : ℕ) → rem64 (pos a) (pos b) ≡ pos (a % b)
unfolding rem64
rem64_pos a b = rw (add-zero b)
