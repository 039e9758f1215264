-- ===== src/Prelude/Words.antt =====
-- The word operations by which the sum of a column walks over the rows that are not null.
use Prim.Native.Nat.{ℕ, zero, suc, ◌+◌, ◌-◌, ◌*◌, ◌/◌, ◌%◌, ◌^◌, ◌<◌}
use mathlib.Core.Path.{◌≡◌, refl, ap}
use mathlib.Core.Bool.{Bool, true, false}
use mathlib.Core.Logic.{inl, inr}
use mathlib.Core.List.{List, [], ◌∷◌, ◌++◌}
use native.Mathlib.Nat.{pow-suc}
use native.Mathlib.Omega.{arith}
use yacht_sql.Prelude.Tests.{◌==◌, ==_iff, if◌then◌else◌, Bool-cases}
use yacht_sql.Prelude.Lists.{length, get_or}
use yacht_sql.Prelude.Bits.{test_bit, count_ones}

-- a & b, for words of n bits
unfoldable pub and_bits : ℕ → ℕ → ℕ → ℕ
and_bits zero a b = 0
and_bits (suc n) a b = and_bits n (a / 2) (b / 2) * 2 + (if a % 2 == 1 then b % 2 else 0)

-- w.trailing_zeros(), for a word of n bits
unfoldable pub trailing_zeros : ℕ → ℕ → ℕ
trailing_zeros zero w = 0
trailing_zeros (suc n) w = let rest = trailing_zeros n (w / 2) in if w % 2 == 1 then 0 else rest + 1

-- The entries at the set bits.
unfoldable pub at_ones {ℓ} : {A : Type ℓ} → ℕ → ℕ → List A → List A
at_ones zero w xs = []
at_ones (suc n) w [] = []
at_ones (suc n) w (x ∷ xs) =
    let rest = at_ones n (w / 2) xs in if w % 2 == 1 then x ∷ rest else rest

half-fits : (n w : ℕ) → w < 2 ^ suc n → w / 2 < 2 ^ n
half-fits n w h = omega (arith, pow-suc 2 n)

and_self : (n w : ℕ) → w < 2 ^ n → and_bits n w w ≡ w
unfolding and_bits
and_self zero w h = omega arith
and_self (suc n) w h = ground (arith, and_self n (w / 2) (half-fits n w h))

-- w & (w - 1), which is the word less its lowest bit
unfoldable pub clear_lowest : ℕ → ℕ → ℕ
unfolding and_bits
clear_lowest n w = and_bits n w (w - 1)

clear_lowest-odd : (n w : ℕ) → w < 2 ^ suc n → w % 2 ≡ 1 → clear_lowest (suc n) w ≡ w / 2 * 2
unfolding clear_lowest and_bits
clear_lowest-odd n w h o =
    let same : (w - 1) / 2 ≡ w / 2 = omega arith in
    rw same (ground (arith, and_self n (w / 2) (half-fits n w h)))

clear_lowest-even :
    (n w : ℕ) → w % 2 ≡ 0 → 0 < w → clear_lowest (suc n) w ≡ clear_lowest n (w / 2) * 2
unfolding clear_lowest and_bits
clear_lowest-even n w o z =
    let same : (w - 1) / 2 ≡ w / 2 - 1 = omega arith in rw same (ground arith)

pub clear_lowest-fits : (n w : ℕ) → w < 2 ^ n → 0 < w → clear_lowest n w < 2 ^ n
clear_lowest-fits zero w h z = absurd (omega arith)
clear_lowest-fits (suc n) w h z = elim (Bool-cases (w % 2 == 1)) [
  | inl odd ↦
      omega (arith, clear_lowest-odd n w h ((==_iff (w % 2) 1).0 odd), pow-suc 2 n, half-fits n w h)
  | inr even ↦
      let e : w % 2 ≡ 0 = ground arith in
      omega (
        arith,
        clear_lowest-even n w e z,
        pow-suc 2 n,
        clear_lowest-fits n (w / 2) (half-fits n w h) (omega arith),
      )
]

pub count_ones-clear_lowest :
    (n w : ℕ) → w < 2 ^ n → 0 < w → count_ones n w ≡ suc (count_ones n (clear_lowest n w))
unfolding count_ones
count_ones-clear_lowest zero w h z = absurd (omega arith)
count_ones-clear_lowest (suc n) w h z = elim (Bool-cases (w % 2 == 1)) [
  | inl odd ↦
      let o : w % 2 ≡ 1 = (==_iff (w % 2) 1).0 odd in
      let back : w / 2 * 2 / 2 ≡ w / 2 = omega arith in
      rw (clear_lowest-odd n w h o) (rw back (omega arith))
  | inr even ↦
      let e : w % 2 ≡ 0 = ground arith in
      let back : clear_lowest n (w / 2) * 2 / 2 ≡ clear_lowest n (w / 2) = omega arith in
      rw (clear_lowest-even n w e z)
        (rw back (omega (arith, count_ones-clear_lowest n (w / 2) (half-fits n w h) (omega arith))))
]

-- The first entry at a set bit is the one at the trailing zeros, and the others are those at the
-- word less its lowest bit.
pub at_ones_step {ℓ} :
    {A : Type ℓ} (n w : ℕ) (xs : List A) (z : A)
    → w < 2 ^ n
    → 0 < w
    → length xs ≡ n
    → at_ones n w xs ≡ get_or xs (trailing_zeros n w) z ∷ at_ones n (clear_lowest n w) xs
unfolding at_ones trailing_zeros
at_ones_step zero w xs z h p l = absurd (omega arith)
at_ones_step (suc n) w [] z h p l = absurd (omega arith)
at_ones_step (suc n) w (x ∷ xs) z h p l = elim (Bool-cases (w % 2 == 1)) [
  | inl odd ↦
      let o : w % 2 ≡ 1 = (==_iff (w % 2) 1).0 odd in
      let back : w / 2 * 2 / 2 ≡ w / 2 = omega arith in
      rw (clear_lowest-odd n w h o) (rw back (ground (arith, odd)))
  | inr even ↦
      let e : w % 2 ≡ 0 = ground arith in
      let back : clear_lowest n (w / 2) * 2 / 2 ≡ clear_lowest n (w / 2) = omega arith in
      rw (clear_lowest-even n w e p)
        (rw back (ground (arith, even, at_ones_step n (w / 2) xs z (half-fits n w h))))
]

-- The entries where a flag is not set.
unfoldable pub unflagged {ℓ} : {A : Type ℓ} → (ℕ → Bool) → List A → List A
unflagged p [] = []
unflagged p (x ∷ xs) = let rest = unflagged (λ i. p (suc i)) xs in if p 0 then rest else x ∷ rest

-- The set bits of the complement of a word are its bits that are not set.
pub at_ones-complement {ℓ} :
    {A : Type ℓ} (n w : ℕ) (xs : List A)
    → w < 2 ^ n
    → length xs ≡ n
    → at_ones n (2 ^ n - 1 - w) xs ≡ unflagged (test_bit w) xs
unfolding at_ones unflagged test_bit
at_ones-complement zero w [] h l = refl
at_ones-complement zero w (x ∷ xs) h l = absurd (omega arith)
at_ones-complement (suc n) w [] h l = absurd (omega arith)
at_ones-complement (suc n) w (x ∷ xs) h l =
    let half : (2 ^ suc n - 1 - w) / 2 ≡ 2 ^ n - 1 - w / 2 = omega (arith, pow-suc 2 n) in
    let parity : (2 ^ suc n - 1 - w) % 2 ≡ 1 - w % 2 = omega (arith, pow-suc 2 n) in
    rw (half, parity)
      (rw (at_ones-complement n (w / 2) xs (half-fits n w h) (omega arith))
        (elim (Bool-cases (w % 2 == 1)) [ inl odd ↦ ground arith | inr even ↦ ground arith ]))

pub unflagged_ext {ℓ} :
    {A : Type ℓ} (p q : ℕ → Bool) (xs : List A)
    → ((i : ℕ) → i < length xs → p i ≡ q i)
    → unflagged p xs ≡ unflagged q xs
unfolding unflagged
unflagged_ext p q [] h = refl
unflagged_ext p q (x ∷ xs) h =
    let rest =
      unflagged_ext (λ i. p (suc i)) (λ i. q (suc i)) xs (λ i l. h (suc i) (omega arith)) in
    ground (arith, h 0 (omega arith), rest)

pub unflagged_none {ℓ} :
    {A : Type ℓ} (p : ℕ → Bool) (xs : List A)
    → ((i : ℕ) → i < length xs → p i ≡ false)
    → unflagged p xs ≡ xs
unfolding unflagged
unflagged_none p [] h = refl
unflagged_none p (x ∷ xs) h =
    ground (
      arith,
      h 0 (omega arith),
      unflagged_none (λ i. p (suc i)) xs (λ i l. h (suc i) (omega arith)),
    )

pub unflagged_all {ℓ} :
    {A : Type ℓ} (p : ℕ → Bool) (xs : List A)
    → ((i : ℕ) → i < length xs → p i ≡ true)
    → unflagged p xs ≡ []
unfolding unflagged
unflagged_all p [] h = refl
unflagged_all p (x ∷ xs) h =
    ground
      (arith, h 0 (omega arith), unflagged_all (λ i. p (suc i)) xs (λ i l. h (suc i) (omega arith)))

pub unflagged-append {ℓ} :
    {A : Type ℓ} (p : ℕ → Bool) (xs ys : List A)
    → unflagged p (xs ++ ys) ≡ unflagged p xs ++ unflagged (λ i. p (length xs + i)) ys
unfolding unflagged
unflagged-append p [] ys = unflagged_ext p (λ i. p (0 + i)) ys (λ i l. ap p (omega arith))
unflagged-append p (x ∷ xs) ys =
    let shifted =
      unflagged_ext (λ i. p (suc (length xs + i))) (λ i. p (suc (length xs) + i)) ys
        (λ i l. ap p (omega arith)) in
    ground (arith, unflagged-append (λ i. p (suc i)) xs ys, shifted)

pub at_ones-zero {ℓ} : {A : Type ℓ} (n : ℕ) (xs : List A) → at_ones n 0 xs ≡ []
unfolding at_ones
at_ones-zero zero xs = refl
at_ones-zero (suc n) [] = refl
at_ones-zero (suc n) (x ∷ xs) = at_ones-zero n xs
