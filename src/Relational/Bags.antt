-- ===== src/Relational/Bags.antt =====
-- The rows that the loops of crates/executor/src/executor/distinct.rs and set_ops.rs keep, as a list,
-- and how often each key occurs among them.
use yacht_sql.Prelude.{
  ℕ, suc, ◌+◌, ◌-◌, min, ◌≡◌, ◌↔◌, ap, Bool, true, false, not, ◌&&◌, inl, inr, List, [], ◌∷◌,
  Option, none, some, arith, ltb, if◌then◌else◌, Bool-cases,
}
use yacht_sql.Common.Externals.{Externals}
use yacht_sql.Storage.Table.RowOps.{Record}
use yacht_sql.Relational.Distinct.{seen_before, increment, decrement, count_in, count_keys}

-- Some of the rows, in their order.
pub data Sublist {A : Type 0} : List A → List A → Type 0 where
  empty : Sublist [] []
  keep : (x : A) {xs ys : List A} → Sublist xs ys → Sublist (x ∷ xs) (x ∷ ys)
  skip : (y : A) {xs ys : List A} → Sublist xs ys → Sublist xs (y ∷ ys)

module _ {R K : Type 0} (key : R → K) (same : K → K → Bool) where
  -- How many rows have the key.
  unfoldable pub occurrences : K → List R → ℕ
  occurrences k [] = 0
  occurrences k (r ∷ rs) = let rest = occurrences k rs in if same k (key r) then suc rest else rest

  -- The first row with the key.
  unfoldable pub first_with : K → List R → Option R
  first_with k [] = none
  first_with k (r ∷ rs) = let rest = first_with k rs in if same k (key r) then some r else rest

  -- What `push_unseen`, `push_counted` and `push_uncounted` push.
  unfoldable pub unseen : (K → Bool) → List K → List R → List R
  unseen wanted seen [] = []
  unseen wanted seen (r ∷ rs) =
      let skipped = unseen wanted seen rs in
      let taken = unseen wanted (key r ∷ seen) rs in
      if wanted (key r) && not (seen_before same (key r) seen) then r ∷ taken else skipped

  unfoldable pub counted : List (K × ℕ) → List R → List R
  counted counts [] = []
  counted counts (r ∷ rs) =
      let skipped = counted counts rs in
      let taken = counted (decrement same (key r) counts) rs in
      if ltb 0 (count_in same (key r) counts) then r ∷ taken else skipped

  unfoldable pub uncounted : List (K × ℕ) → List R → List R
  uncounted counts [] = []
  uncounted counts (r ∷ rs) =
      let skipped = uncounted (decrement same (key r) counts) rs in
      let taken = uncounted counts rs in
      if ltb 0 (count_in same (key r) counts) then skipped else r ∷ taken

  if_sublist :
      (b : Bool) (r : R) {xs ys rs : List R}
      → Sublist xs rs
      → Sublist ys rs
      → Sublist (if b then r ∷ xs else ys) (r ∷ rs)
  if_sublist true r p q = keep r p
  if_sublist false r p q = skip r q

  pub unseen-Sublist :
      (wanted : K → Bool) (seen : List K) (rs : List R) → Sublist (unseen wanted seen rs) rs
  unfolding unseen
  unseen-Sublist wanted seen [] = empty
  unseen-Sublist wanted seen (r ∷ rs) =
      if_sublist (wanted (key r) && not (seen_before same (key r) seen)) r
        (unseen-Sublist wanted (key r ∷ seen) rs) (unseen-Sublist wanted seen rs)

  pub counted-Sublist : (counts : List (K × ℕ)) (rs : List R) → Sublist (counted counts rs) rs
  unfolding counted
  counted-Sublist counts [] = empty
  counted-Sublist counts (r ∷ rs) =
      if_sublist (ltb 0 (count_in same (key r) counts)) r
        (counted-Sublist (decrement same (key r) counts) rs) (counted-Sublist counts rs)

  pub uncounted-Sublist : (counts : List (K × ℕ)) (rs : List R) → Sublist (uncounted counts rs) rs
  unfolding uncounted
  uncounted-Sublist counts [] = empty
  uncounted-Sublist counts (r ∷ rs) = elim (Bool-cases (ltb 0 (count_in same (key r) counts))) [
    | inl e ↦ rw (uncounted, e) (skip r (uncounted-Sublist (decrement same (key r) counts) rs))
    | inr e ↦ rw (uncounted, e) (keep r (uncounted-Sublist counts rs))
  ]

module _ {R K : Type 0} (key : R → K) (same : K → K → Bool)
    (same_iff : (j k : K) → (same j k ≡ true) ↔ (j ≡ k)) where
  -- Each wanted key that is not yet seen occurs once.
  pub occurrences-unseen :
      (wanted : K → Bool) (seen : List K) (rs : List R) (k : K)
      → occurrences key same k (unseen key same wanted seen rs) ≡ (
          if wanted k && not (seen_before same k seen) && ltb 0 (occurrences key same k rs)
          then 1
          else 0)
  unfolding occurrences unseen seen_before
  occurrences-unseen wanted seen [] k = ground arith
  occurrences-unseen wanted seen (r ∷ rs) k = elim (Bool-cases (same k (key r))) [
    | inl e ↦
        let k_is = (same_iff k (key r)).0 e in
        let want = ap wanted k_is in
        let seen_it = ap (λ j. seen_before same j seen) k_is in
        ground (
          arith,
          occurrences-unseen wanted seen rs k,
          occurrences-unseen wanted (key r ∷ seen) rs k,
        )
    | inr e ↦
        ground (
          arith,
          occurrences-unseen wanted seen rs k,
          occurrences-unseen wanted (key r ∷ seen) rs k,
        )
  ]

  -- Of the rows of a key the first one is taken.
  pub first_with-unseen :
      (wanted : K → Bool) (seen : List K) (rs : List R) (k : K)
      → first_with key same k (unseen key same wanted seen rs)
        ≡ (if wanted k && not (seen_before same k seen) then first_with key same k rs else none)
  unfolding first_with unseen seen_before
  first_with-unseen wanted seen [] k = ground arith
  first_with-unseen wanted seen (r ∷ rs) k = elim (Bool-cases (same k (key r))) [
    | inl e ↦
        let k_is = (same_iff k (key r)).0 e in
        let want = ap wanted k_is in
        let seen_it = ap (λ j. seen_before same j seen) k_is in
        ground
          (arith, first_with-unseen wanted seen rs k, first_with-unseen wanted (key r ∷ seen) rs k)
    | inr e ↦
        ground
          (arith, first_with-unseen wanted seen rs k, first_with-unseen wanted (key r ∷ seen) rs k)
  ]

  count_in-increment :
      (j k : K) (counts : List (K × ℕ))
      → count_in same k (increment same j counts)
        ≡ (if same k j then count_in same k counts + 1 else count_in same k counts)
  unfolding count_in increment
  count_in-increment j k [] = ground arith
  count_in-increment j k ((i, n) ∷ counts) =
      ground (arith, same_iff j i, same_iff k i, same_iff k j, count_in-increment j k counts)

  count_in-decrement :
      (j k : K) (counts : List (K × ℕ))
      → count_in same k (decrement same j counts)
        ≡ (if same k j then count_in same k counts - 1 else count_in same k counts)
  unfolding count_in decrement
  count_in-decrement j k [] = ground arith
  count_in-decrement j k ((i, n) ∷ counts) =
      ground (arith, same_iff j i, same_iff k i, same_iff k j, count_in-decrement j k counts)

  -- `counted` keeps as many rows of a key as there are and as its count allows.
  pub occurrences-counted :
      (counts : List (K × ℕ)) (rs : List R) (k : K)
      → occurrences key same k (counted key same counts rs)
        ≡ min (count_in same k counts) (occurrences key same k rs)
  unfolding occurrences counted
  occurrences-counted counts [] k = omega arith
  occurrences-counted counts (r ∷ rs) k = elim (Bool-cases (same k (key r))) [
    | inl e ↦
        let same_count = ap (λ j. count_in same j counts) ((same_iff k (key r)).0 e) in
        ground (
          arith,
          count_in-decrement (key r) k counts,
          occurrences-counted counts rs k,
          occurrences-counted (decrement same (key r) counts) rs k,
        )
    | inr e ↦ ground (
      arith,
      count_in-decrement (key r) k counts,
      occurrences-counted counts rs k,
      occurrences-counted (decrement same (key r) counts) rs k,
    )
  ]

  -- `uncounted` drops as many rows of a key as its count says.
  pub occurrences-uncounted :
      (counts : List (K × ℕ)) (rs : List R) (k : K)
      → occurrences key same k (uncounted key same counts rs)
        ≡ occurrences key same k rs - count_in same k counts
  unfolding occurrences uncounted
  occurrences-uncounted counts [] k = omega arith
  occurrences-uncounted counts (r ∷ rs) k = elim (Bool-cases (same k (key r))) [
    | inl e ↦
        let same_count = ap (λ j. count_in same j counts) ((same_iff k (key r)).0 e) in
        ground (
          arith,
          count_in-decrement (key r) k counts,
          occurrences-uncounted counts rs k,
          occurrences-uncounted (decrement same (key r) counts) rs k,
        )
    | inr e ↦ ground (
      arith,
      count_in-decrement (key r) k counts,
      occurrences-uncounted counts rs k,
      occurrences-uncounted (decrement same (key r) counts) rs k,
    )
  ]

module _ {X : Externals} {K : Type 0} (key : Record X → K) (same : K → K → Bool)
    (same_iff : (j k : K) → (same j k ≡ true) ↔ (j ≡ k)) where
  -- The counts are those of the rows, over what was counted before.
  pub count_in-count_keys :
      (rs : List (Record X)) (counts : List (K × ℕ)) (k : K)
      → count_in same k (count_keys key same rs counts)
        ≡ count_in same k counts + occurrences key same k rs
  unfolding count_keys occurrences
  count_in-count_keys [] counts k = omega arith
  count_in-count_keys (r ∷ rs) counts k = ground (
    arith,
    count_in-count_keys rs (increment same (key r) counts) k,
    count_in-increment key same same_iff (key r) k counts,
  )
