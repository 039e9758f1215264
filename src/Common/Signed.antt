-- ===== src/Common/Signed.antt =====
-- The arithmetic and order of i64 and i32 values on their bit patterns, as a release build has them:
-- results wrap, and a shift takes the low six bits of its amount.
use Prim.Native.Nat.{bit_and, bit_or, bit_xor, compare, Ordering}
use yacht_sql.Prelude.{
  ℕ, ◌+◌, ◌-◌, ◌*◌, ◌/◌, ◌%◌, ◌^◌, Bool, not, ◌&&◌, Option, none, some, leb, ltb, ◌==◌,
  if◌then◌else◌,
}

-- Two to the power 64, 63, 32 and 31.
abbrev two_64 : ℕ
two_64 = 0x10000000000000000

abbrev two_63 : ℕ
two_63 = 0x8000000000000000

abbrev two_32 : ℕ
two_32 = 0x100000000

abbrev two_31 : ℕ
two_31 = 0x80000000

-- The integer that the pattern stands for, plus 2 ^ 63.
abbrev pub offset : ℕ → ℕ
offset v = (v + two_63) % two_64

-- a.cmp(b)
unfoldable pub signed_cmp : ℕ → ℕ → Ordering
signed_cmp a b = compare (offset a) (offset b)

unfoldable pub wrapping_add : ℕ → ℕ → ℕ
wrapping_add a b = (a + b) % two_64

unfoldable pub wrapping_sub : ℕ → ℕ → ℕ
wrapping_sub a b = (a + two_64 - b) % two_64

unfoldable pub wrapping_mul : ℕ → ℕ → ℕ
wrapping_mul a b = a * b % two_64

unfoldable pub wrapping_neg : ℕ → ℕ
wrapping_neg a = (two_64 - a) % two_64

-- a.unsigned_abs()
abbrev pub magnitude : ℕ → ℕ
magnitude a = if ltb a two_63 then a else two_64 - a

-- a % b for b that is not 0: the remainder of the magnitudes, with the sign of a. At -2 ^ 63 and -1,
-- where Rust panics in every build, it is 0.
unfoldable pub signed_rem : ℕ → ℕ → ℕ
unfolding wrapping_neg
signed_rem a b = let r = magnitude a % magnitude b in if ltb a two_63 then r else wrapping_neg r

-- a / b for b > 0, towards 0
unfoldable pub signed_div : ℕ → ℕ → ℕ
unfolding wrapping_neg
signed_div a b = if ltb a two_63 then a / b else wrapping_neg ((two_64 - a) / b)

unfoldable pub signed_not : ℕ → ℕ
signed_not a = two_64 - 1 - a

unfoldable pub signed_and : ℕ → ℕ → ℕ
signed_and a b = bit_and a b

unfoldable pub signed_or : ℕ → ℕ → ℕ
signed_or a b = bit_or a b

unfoldable pub signed_xor : ℕ → ℕ → ℕ
signed_xor a b = bit_xor a b

-- a << b
unfoldable pub shl : ℕ → ℕ → ℕ
shl a b = a * 2 ^ (b % 64) % two_64

-- a >> b, which copies the sign.
unfoldable pub shr : ℕ → ℕ → ℕ
shr a b =
    let k = b % 64 in if ltb a two_63 then a / 2 ^ k else two_64 - 1 - (two_64 - 1 - a) / 2 ^ k

-- The same for i32, v as i32 and v as i64.
abbrev pub wrapping_add_32 : ℕ → ℕ → ℕ
wrapping_add_32 a b = (a + b) % two_32

abbrev pub wrapping_sub_32 : ℕ → ℕ → ℕ
wrapping_sub_32 a b = (a + two_32 - b) % two_32

abbrev pub wrapping_mul_32 : ℕ → ℕ → ℕ
wrapping_mul_32 a b = a * b % two_32

abbrev pub wrapping_neg_32 : ℕ → ℕ
wrapping_neg_32 a = (two_32 - a) % two_32

abbrev pub truncate_32 : ℕ → ℕ
truncate_32 v = v % two_32

abbrev pub extend_32 : ℕ → ℕ
extend_32 v = if ltb v two_31 then v else v + (two_64 - two_32)

-- a.checked_add(b): none where the sum is not an i64.
unfoldable pub checked_add : ℕ → ℕ → Option ℕ
unfolding wrapping_add
checked_add a b =
    let sum = offset a + offset b in
    if leb two_63 sum && ltb sum (two_63 + two_64) then some (wrapping_add a b) else none

-- a.checked_sub(b)
unfoldable pub checked_sub : ℕ → ℕ → Option ℕ
unfolding wrapping_sub
checked_sub a b =
    if leb (offset b) (offset a + two_63) && ltb (offset a) (offset b + two_63)
    then some (wrapping_sub a b)
    else none

abbrev is_negative : ℕ → Bool
is_negative a = leb two_63 a

-- A product is negative if the signs differ.
abbrev signs_differ : ℕ → ℕ → Bool
signs_differ a b = if is_negative a then not (is_negative b) else is_negative b

-- a.checked_mul(b)
unfoldable pub checked_mul : ℕ → ℕ → Option ℕ
unfolding wrapping_mul
checked_mul a b =
    let product = magnitude a * magnitude b in
    if leb product (if signs_differ a b then two_63 else two_63 - 1)
    then some (wrapping_mul a b)
    else none

-- a.checked_neg(): none for -2 ^ 63.
unfoldable pub checked_neg : ℕ → Option ℕ
unfolding wrapping_neg
checked_neg a = if a == two_63 then none else some (wrapping_neg a)
