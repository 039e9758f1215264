-- ===== src/Prelude/Bits.antt =====
-- The bit operations on machine words that the null bitmap uses, by recursion on the bit position.
use Prim.Native.Nat.{ℕ, zero, suc, ◌+◌, ◌-◌, ◌*◌, ◌/◌, ◌%◌, ◌^◌, ◌≤◌, ◌<◌}
use mathlib.Core.Path.{◌≡◌, refl, sym, ap, ap₂, ◌∙◌}
use mathlib.Core.Bool.{Bool, true, false}
use native.Mathlib.Nat.{pow-suc, zero-add, suc-add}
use native.Mathlib.Omega.{arith}
use yacht_sql.Prelude.Tests.{◌==◌, ==_iff, ltb, lt→ltb, if◌then◌else◌}

-- w >> b
unfoldable pub shr : ℕ → ℕ → ℕ
shr w zero = w
shr w (suc b) = shr (w / 2) b

-- (w >> b) & 1 == 1
unfoldable pub test_bit : ℕ → ℕ → Bool
unfolding shr
test_bit w b = shr w b % 2 == 1

-- w | (1 << b)
unfoldable pub or_bit : ℕ → ℕ → ℕ
or_bit w zero = w / 2 * 2 + 1
or_bit w (suc b) = or_bit (w / 2) b * 2 + w % 2

-- w & !(1 << b)
unfoldable pub and_not_bit : ℕ → ℕ → ℕ
and_not_bit w zero = w / 2 * 2
and_not_bit w (suc b) = and_not_bit (w / 2) b * 2 + w % 2

-- w & ((1 << r) - 1)
unfoldable pub low_bits : ℕ → ℕ → ℕ
low_bits w zero = 0
low_bits w (suc r) = low_bits (w / 2) r * 2 + w % 2

-- w.count_ones(), for a word of n bits
unfoldable pub count_ones : ℕ → ℕ → ℕ
count_ones zero w = 0
count_ones (suc n) w = w % 2 + count_ones n (w / 2)

pub test_bit-suc : (w b : ℕ) → test_bit w (suc b) ≡ test_bit (w / 2) b
unfolding test_bit
test_bit-suc w b = refl

pub test_bit-zero : (b : ℕ) → test_bit 0 b ≡ false
unfolding test_bit
test_bit-zero zero = refl
test_bit-zero (suc b) = test_bit-zero b

half-double : (w r : ℕ) → r < 2 → (w * 2 + r) / 2 ≡ w
half-double w r h = omega arith

half-double_even : (w : ℕ) → w * 2 / 2 ≡ w
half-double_even w = omega arith

mod_two_lt : (w : ℕ) → w % 2 < 2
mod_two_lt w = omega arith

-- Setting a bit sets that bit and keeps the others.
pub test-or_bit : (w b c : ℕ) → test_bit (or_bit w b) c ≡ (if b == c then true else test_bit w c)
unfolding or_bit
test-or_bit w zero zero = unfold test_bit in ground arith
test-or_bit w zero (suc c) = simp (test_bit-suc, half-double (w / 2) 1 (omega arith)) (ground arith)
test-or_bit w (suc b) zero = unfold test_bit in ground arith
test-or_bit w (suc b) (suc c) =
    simp
      (test_bit-suc, half-double (or_bit (w / 2) b) (w % 2) (mod_two_lt w), test-or_bit (w / 2) b c)
      (ground arith)

-- Clearing a bit clears that bit and keeps the others.
pub test-and_not_bit :
    (w b c : ℕ) → test_bit (and_not_bit w b) c ≡ (if b == c then false else test_bit w c)
unfolding and_not_bit
test-and_not_bit w zero zero = unfold test_bit in ground arith
test-and_not_bit w zero (suc c) = simp (test_bit-suc, half-double_even (w / 2)) (ground arith)
test-and_not_bit w (suc b) zero = unfold test_bit in ground arith
test-and_not_bit w (suc b) (suc c) =
    simp
      (
        test_bit-suc,
        half-double (and_not_bit (w / 2) b) (w % 2) (mod_two_lt w),
        test-and_not_bit (w / 2) b c,
      )
      (ground arith)

-- A mask of r ones keeps the bits below r.
pub test-low_bits :
    (w r c : ℕ) → test_bit (low_bits w r) c ≡ (if ltb c r then test_bit w c else false)
unfolding low_bits
test-low_bits w zero c = rw (test_bit-zero c) (ground arith)
test-low_bits w (suc r) zero = unfold test_bit in ground arith
test-low_bits w (suc r) (suc c) =
    simp
      (
        test_bit-suc,
        half-double (low_bits (w / 2) r) (w % 2) (mod_two_lt w),
        test-low_bits (w / 2) r c,
      )
      (ground arith)

-- The number of places below n at which p holds.
unfoldable pub count_below : ℕ → (ℕ → Bool) → ℕ
count_below zero p = 0
count_below (suc n) p = (if p 0 then 1 else 0) + count_below n (λ i. p (suc i))

low_digit : (w : ℕ) → (if test_bit w 0 then 1 else 0) ≡ w % 2
unfolding test_bit
low_digit w = ground arith

-- `count_ones` counts the bits that are set.
pub count_ones-eq-count_below : (n w : ℕ) → count_ones n w ≡ count_below n (test_bit w)
unfolding count_ones count_below test_bit
count_ones-eq-count_below zero w = refl
count_ones-eq-count_below (suc n) w =
    omega (arith, low_digit w, count_ones-eq-count_below n (w / 2))

-- Places that agree below n are counted alike.
pub count_below_ext :
    (n : ℕ) (p q : ℕ → Bool) → ((i : ℕ) → i < n → p i ≡ q i) → count_below n p ≡ count_below n q
unfolding count_below
count_below_ext zero p q h = refl
count_below_ext (suc n) p q h =
    ap₂ (λ (b : Bool) (m : ℕ). (if b then 1 else 0) + m) (h 0 (omega arith))
      (count_below_ext n (λ i. p (suc i)) (λ i. q (suc i)) (λ i l. h (suc i) (omega arith)))

pub count_below-add :
    (m n : ℕ) (p : ℕ → Bool)
    → count_below (m + n) p ≡ count_below m p + count_below n (λ i. p (m + i))
unfolding count_below
count_below-add zero n p = omega (
  arith,
  ap (λ (k : ℕ). count_below k p) (zero-add n),
  count_below_ext n p (λ i. p (0 + i)) (λ i _. ap p (sym (zero-add i))),
)
count_below-add (suc m) n p = omega (
  arith,
  ap (λ (k : ℕ). count_below k p) (suc-add m n),
  count_below-add m n (λ i. p (suc i)),
  count_below_ext n (λ i. p (suc (m + i))) (λ i. p (suc m + i)) (λ i _. ap p (sym (suc-add m i))),
)

pub count_below-le : (n : ℕ) (p : ℕ → Bool) → count_below n p ≤ n
unfolding count_below
count_below-le zero p = omega arith
count_below-le (suc n) p = ground (arith, count_below-le n (λ i. p (suc i)))

pub count_below-false : (n : ℕ) (p : ℕ → Bool) → ((i : ℕ) → p i ≡ false) → count_below n p ≡ 0
unfolding count_below
count_below-false zero p h = refl
count_below-false (suc n) p h =
    rw (h 0) (omega (arith, count_below-false n (λ i. p (suc i)) (λ i. h (suc i))))

-- A word of k bits stays one when a bit of it is set or cleared.
pub or_bit-lt : (k w b : ℕ) → b < k → w < 2 ^ k → or_bit w b < 2 ^ k
unfolding or_bit
or_bit-lt zero w b h p = elim h [ ]
or_bit-lt (suc k) w zero h p = omega (arith, pow-suc 2 k)
or_bit-lt (suc k) w (suc b) h p =
    omega (arith, pow-suc 2 k, or_bit-lt k (w / 2) b (omega arith) (omega (arith, pow-suc 2 k)))

pub and_not_bit-le : (w b : ℕ) → and_not_bit w b ≤ w
unfolding and_not_bit
and_not_bit-le w zero = omega arith
and_not_bit-le w (suc b) = omega (arith, and_not_bit-le (w / 2) b)

-- Counting below r + k with everything from r on masked out is counting below r.
pub count_below_masked :
    (r k : ℕ) (p : ℕ → Bool)
    → count_below (r + k) (λ i. if ltb i r then p i else false) ≡ count_below r p
count_below_masked r k p = omega (
  arith,
  count_below-add r k (λ i. if ltb i r then p i else false),
  count_below_ext r (λ i. if ltb i r then p i else false) p (λ i h. rw (lt→ltb i r h)),
  count_below-false k (λ i. if ltb (r + i) r then p (r + i) else false) (λ i. ground arith),
)

-- A word of n ones has every bit below n set.
ones_half : (n : ℕ) → (2 ^ suc n - 1) / 2 ≡ 2 ^ n - 1
ones_half n = omega (arith, pow-suc 2 n)

pub two_pow_pos : (n : ℕ) → 0 < 2 ^ n
two_pow_pos zero = omega arith
two_pow_pos (suc n) = omega (arith, pow-suc 2 n, two_pow_pos n)

ones_odd : (n : ℕ) → test_bit (2 ^ suc n - 1) 0 ≡ true
unfolding test_bit
ones_odd n = (==_iff _ 1).1 (omega (arith, pow-suc 2 n, two_pow_pos n))

pub test-ones : (n b : ℕ) → b < n → test_bit (2 ^ n - 1) b ≡ true
test-ones zero b h = elim h [ ]
test-ones (suc n) zero h = ones_odd n
test-ones (suc n) (suc b) h =
    test_bit-suc (2 ^ suc n - 1) b
    ∙ ap (λ w. test_bit w b) (ones_half n)
    ∙ test-ones n b (omega arith)
