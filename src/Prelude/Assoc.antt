-- ===== src/Prelude/Assoc.antt =====
-- The standard library's `HashMap` and `HashSet` with text keys, as an association list. The order
-- of its entries stands for the unspecified order of iteration.
use mathlib.Core.Path.{◌≡◌, refl, ap}
use mathlib.Core.Logic.{inl, inr}
use mathlib.Core.Bool.{Bool, true, false, ◌&&◌, ◌||◌}
use mathlib.Core.List.{List, [], ◌∷◌}
use mathlib.Core.Option.{Option, none, some}
use native.Mathlib.Omega.{arith}
use yacht_sql.Prelude.Tests.{if◌then◌else◌, Bool-cases, Option-cases}
use yacht_sql.Prelude.Text.{Text, text_eq, text_eq_iff, text_eq_sound}

abbrev pub Assoc {ℓ} : Type ℓ → Type ℓ
Assoc V = List (Text × V)

abbrev pub is_some {ℓ} : {A : Type ℓ} → Option A → Bool
is_some none = false
is_some (some a) = true

-- `if b then o else none`, for lookups through a filter
abbrev pub when {ℓ} : {A : Type ℓ} → Bool → Option A → Option A
when true o = o
when false o = none

-- `o` and, where it is empty, `p`
abbrev pub or_else {ℓ} : {A : Type ℓ} → Option A → Option A → Option A
or_else (some a) p = some a
or_else none p = p

unfoldable pub text_mem : Text → List Text → Bool
text_mem j [] = false
text_mem j (k ∷ ks) = text_eq k j || text_mem j ks

-- keys.filter(|k| p(k))
unfoldable pub matching : (Text → Bool) → List Text → List Text
matching p [] = []
matching p (k ∷ ks) = let rest = matching p ks in if p k then k ∷ rest else rest

module _ {ℓ} {V : Type ℓ} where
  unfoldable pub get : Assoc V → Text → Option V
  get [] k = none
  get ((j, v) ∷ m) k = if text_eq j k then some v else get m k

  unfoldable pub contains_key : Assoc V → Text → Bool
  unfolding get
  contains_key m k = is_some (get m k)

  unfoldable pub insert : Assoc V → Text → V → Assoc V
  insert [] k v = (k, v) ∷ []
  insert ((j, w) ∷ m) k v =
      let rest = insert m k v in if text_eq j k then (k, v) ∷ m else (j, w) ∷ rest

  unfoldable pub remove : Assoc V → Text → Assoc V
  remove [] k = []
  remove ((j, w) ∷ m) k = let rest = remove m k in if text_eq j k then rest else (j, w) ∷ rest

  -- map.keys()
  unfoldable pub keys : Assoc V → List Text
  keys [] = []
  keys ((j, w) ∷ m) = j ∷ keys m

  -- for key in keys { if let Some(v) = from.remove(&key) { to.insert(key, v) } }
  unfoldable pub move_keys : List Text → Assoc V → Assoc V → Assoc V × Assoc V
  unfolding get remove insert
  move_keys [] from to = (from, to)
  move_keys (k ∷ ks) from to = elim (get from k) [
    | none ↦ move_keys ks from to
    | some v ↦ move_keys ks (remove from k) (insert to k v)
  ]

  -- for (k, v) in other { m.insert(k, v) }, in one of the possible orders
  unfoldable pub insert_all : Assoc V → Assoc V → Assoc V
  unfolding insert
  insert_all m [] = m
  insert_all m ((j, w) ∷ other) = insert (insert_all m other) j w

  pub get-insert :
      (m : Assoc V) (k j : Text) (v : V)
      → get (insert m k v) j ≡ (if text_eq k j then some v else get m j)
  unfolding get insert
  get-insert [] k j v = refl
  get-insert ((i, w) ∷ m) k j v =
      ground (arith, text_eq_iff i k, text_eq_iff i j, text_eq_iff k j, get-insert m k j v)

  pub get-remove :
      (m : Assoc V) (k j : Text) → get (remove m k) j ≡ (if text_eq k j then none else get m j)
  unfolding get remove
  get-remove [] k j = ground arith
  get-remove ((i, w) ∷ m) k j =
      ground (arith, text_eq_iff i k, text_eq_iff i j, text_eq_iff k j, get-remove m k j)

  pub get-insert_all :
      (m other : Assoc V) (j : Text) → get (insert_all m other) j ≡ or_else (get other j) (get m j)
  unfolding insert_all get
  get-insert_all m [] j = refl
  get-insert_all m ((i, w) ∷ other) j =
      ground (arith, get-insert (insert_all m other) i j w, get-insert_all m other j)

  get-move_keys_from :
      (ks : List Text) (from to : Assoc V) (j : Text)
      → get (move_keys ks from to).0 j ≡ (if text_mem j ks then none else get from j)
  unfolding move_keys text_mem
  get-move_keys_from [] from to j = refl
  get-move_keys_from (k ∷ ks) from to j = elim (Option-cases (get from k)) [
    | inl gone ↦ ground (arith, gone, get-move_keys_from ks from to j, text_eq_iff k j)
    | inr (v, there) ↦
        ground (
          arith,
          there,
          get-move_keys_from ks (remove from k) (insert to k v) j,
          get-remove from k j,
        )
  ]

  get-move_keys_to :
      (ks : List Text) (from to : Assoc V) (j : Text)
      → get (move_keys ks from to).1 j
        ≡ (if text_mem j ks then or_else (get from j) (get to j) else get to j)
  unfolding move_keys text_mem
  get-move_keys_to [] from to j = refl
  get-move_keys_to (k ∷ ks) from to j = elim (Option-cases (get from k)) [
    | inl gone ↦ ground (arith, gone, get-move_keys_to ks from to j, text_eq_iff k j)
    | inr (v, there) ↦ ground (
      arith,
      there,
      get-move_keys_to ks (remove from k) (insert to k v) j,
      get-remove from k j,
      get-insert to k j v,
      text_eq_iff k j,
    )
  ]

  mem-keys-matching :
      (p : Text → Bool) (m : Assoc V) (j : Text)
      → text_mem j (matching p (keys m)) ≡ p j && is_some (get m j)
  unfolding text_mem matching keys get
  mem-keys-matching p [] j = ground arith
  mem-keys-matching p ((i, w) ∷ m) j = elim (Bool-cases (text_eq i j)) [
    | inl same ↦ rw same (ground (arith, mem-keys-matching p m j, ap p (text_eq_sound i j same)))
    | inr other ↦ ground (arith, mem-keys-matching p m j)
  ]

  -- Moving the keys that pass a test splits the map by the test.
  pub get-move_matching_from :
      (p : Text → Bool) (m to : Assoc V) (j : Text)
      → get (move_keys (matching p (keys m)) m to).0 j ≡ (if p j then none else get m j)
  get-move_matching_from p m to j =
      ground (arith, get-move_keys_from (matching p (keys m)) m to j, mem-keys-matching p m j)

  pub get-move_matching_to :
      (p : Text → Bool) (m : Assoc V) (j : Text)
      → get (move_keys (matching p (keys m)) m []).1 j ≡ (if p j then get m j else none)
  unfolding get
  get-move_matching_to p m j =
      ground (arith, get-move_keys_to (matching p (keys m)) m [] j, mem-keys-matching p m j)

  -- Removing a key that is not there changes nothing.
  pub remove_absent : (m : Assoc V) (k : Text) → get m k ≡ none → remove m k ≡ m
  unfolding get remove
  remove_absent [] k h = refl
  remove_absent ((i, w) ∷ m) k h = elim (Bool-cases (text_eq i k)) [
    | inl same ↦ ground arith
    | inr other ↦ ground (arith, remove_absent m k)
  ]
