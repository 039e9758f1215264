-- ===== src/Prelude/Tabulate.antt =====
-- The list of the first n values of a function, and what the list operations do to it.
use Prim.Native.Nat.{ℕ, zero, suc, ◌<◌}
use mathlib.Core.Path.{◌≡◌, refl, ap, ap₂, ◌∙◌}
use mathlib.Core.List.{List, [], ◌∷◌, ◌++◌}
use mathlib.Core.Option.{none, some}
use native.Mathlib.Omega.{arith}
use yacht_sql.Prelude.Tests.{◌==◌, ltb, if◌then◌else◌}
use yacht_sql.Prelude.Lists.{length, get_elem?, set, remove_at}

module _ {ℓ} {A : Type ℓ} where
  unfoldable pub tabulate : ℕ → (ℕ → A) → List A
  tabulate zero f = []
  tabulate (suc n) f = f 0 ∷ tabulate n (λ i. f (suc i))

  pub length-tabulate : (n : ℕ) (f : ℕ → A) → length (tabulate n f) ≡ n
  unfolding tabulate
  length-tabulate zero f = refl
  length-tabulate (suc n) f = ap suc (length-tabulate n (λ i. f (suc i)))

  pub tabulate_ext :
      (n : ℕ) (f g : ℕ → A) → ((i : ℕ) → i < n → f i ≡ g i) → tabulate n f ≡ tabulate n g
  unfolding tabulate
  tabulate_ext zero f g h = refl
  tabulate_ext (suc n) f g h =
      ap₂ ◌∷◌ (h 0 (omega arith))
        (tabulate_ext n (λ i. f (suc i)) (λ i. g (suc i)) (λ i l. h (suc i) (omega arith)))

  pub tabulate_snoc : (n : ℕ) (f : ℕ → A) → tabulate (suc n) f ≡ tabulate n f ++ f n ∷ []
  unfolding tabulate
  tabulate_snoc zero f = refl
  tabulate_snoc (suc n) f = ap (◌∷◌ (f 0)) (tabulate_snoc n (λ i. f (suc i)))

  pub get_elem?-tabulate :
      (n : ℕ) (f : ℕ → A) (i : ℕ)
      → get_elem? (tabulate n f) i ≡ (if ltb i n then some (f i) else none)
  unfolding tabulate
  get_elem?-tabulate zero f i = ground arith
  get_elem?-tabulate (suc n) f zero = ground arith
  get_elem?-tabulate (suc n) f (suc i) = ground (arith, get_elem?-tabulate n (λ j. f (suc j)) i)

  pub set-tabulate :
      (n : ℕ) (f : ℕ → A) (k : ℕ) (v : A)
      → set (tabulate n f) k v ≡ tabulate n (λ i. if k == i then v else f i)
  unfolding tabulate
  set-tabulate zero f k v = refl
  set-tabulate (suc n) f zero v = ap₂ ◌∷◌ (ground arith) (tabulate_ext n _ _ (λ i l. ground arith))
  set-tabulate (suc n) f (suc k) v =
      ap₂ ◌∷◌ (ground arith)
        (set-tabulate n (λ i. f (suc i)) k v ∙ tabulate_ext n _ _ (λ i l. ground arith))

  pub remove_at-tabulate :
      (n : ℕ) (f : ℕ → A) (k : ℕ)
      → k < suc n
      → remove_at (tabulate (suc n) f) k ≡ tabulate n (λ i. if ltb i k then f i else f (suc i))
  unfolding tabulate
  remove_at-tabulate n f zero h = tabulate_ext n _ _ (λ i l. ground arith)
  remove_at-tabulate zero f (suc k) h = absurd (omega arith)
  remove_at-tabulate (suc n) f (suc k) h = ap₂ ◌∷◌ (ground arith) (
      remove_at-tabulate n (λ i. f (suc i)) k (omega arith)
      ∙ tabulate_ext n _ _ (λ i l. ground arith))
