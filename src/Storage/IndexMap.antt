-- ===== src/Storage/IndexMap.antt =====
-- The insertion-ordered map of the indexmap crate, as far as tables use it: its documented
-- behaviour on the sequence of its entries. A concrete map stands below it.
use yacht_sql.Prelude.{ℕ, zero, suc, ◌≡◌, refl, List, [], ◌∷◌, false}
use yacht_sql.Prelude.Text.{Text}
use yacht_sql.Prelude.Assoc
use yacht_sql.Prelude.Assoc.{Assoc}

-- The entry at a position, all later ones behind it.
abbrev pub insert_at {ℓ} : {A : Type ℓ} → ℕ → A → List A → List A
insert_at zero x xs = x ∷ xs
insert_at (suc i) x [] = x ∷ []
insert_at (suc i) x (y ∷ ys) = y ∷ insert_at i x ys

-- The keys with other values, as far as both go.
abbrev pub with_values {ℓ} : {V : Type ℓ} → Assoc V → List V → Assoc V
with_values [] vs = []
with_values (e ∷ es) [] = e ∷ es
with_values ((k, w) ∷ es) (v ∷ vs) = (k, v) ∷ with_values es vs

abbrev pub values {ℓ} : {V : Type ℓ} → Assoc V → List V
values [] = []
values ((k, v) ∷ es) = v ∷ values es

pub record IndexMap (V : Type 0) : Type 1 where
  pub Map : Type 0
  -- The entries in the order of iteration.
  pub entries : Map → Assoc V
  pub empty : Map
  pub insert : Map → Text → V → Map
  pub shift_remove : Map → Text → Map
  pub shift_insert : Map → ℕ → Text → V → Map
  -- What is left after a loop over `values_mut` has put other values in order.
  pub assign : Map → List V → Map
  pub entries-empty : entries empty ≡ []
  -- `insert` replaces the value of a key that is there, and appends a new key.
  pub entries-insert :
      (m : Map) (k : Text) (v : V) → entries (insert m k v) ≡ Assoc.insert (entries m) k v
  pub entries-shift_remove :
      (m : Map) (k : Text) → entries (shift_remove m k) ≡ Assoc.remove (entries m) k
  -- For a key that is not there.
  pub entries-shift_insert :
      (m : Map) (i : ℕ) (k : Text) (v : V)
      → Assoc.contains_key (entries m) k ≡ false
      → entries (shift_insert m i k v) ≡ insert_at i (k, v) (entries m)
  pub entries-assign : (m : Map) (vs : List V) → entries (assign m vs) ≡ with_values (entries m) vs

-- A list of entries is such a map.
abbrev pub entry_list : (V : Type 0) → IndexMap V
entry_list V = record {
  Map = Assoc V;
  entries = λ m. m;
  empty = [];
  insert = Assoc.insert;
  shift_remove = Assoc.remove;
  shift_insert = λ m i k v. insert_at i (k, v) m;
  assign = with_values;
  entries-empty = refl;
  entries-insert = λ m k v. refl;
  entries-shift_remove = λ m k. refl;
  entries-shift_insert = λ m i k v h. refl;
  entries-assign = λ m vs. refl;
}
