-- ===== src/Prelude/Sums.antt =====
-- The sum of a weight over a list. Two collections with the same sum for every weight hold the
-- same entries, each as often.
use Prim.Native.Nat.{ℕ, zero, suc, ◌+◌, ◌≤◌}
use mathlib.Core.Path.{◌≡◌, refl, ap}
use mathlib.Core.Logic.{◌≢◌}
use mathlib.Core.List.{List, [], ◌∷◌, ◌++◌}
use mathlib.Core.Option.{some}
use native.Mathlib.Omega.{arith}
use runact.Prelude.Lists.{get_elem?, set, replicate}

module _ {ℓ} {A : Type ℓ} (w : A → ℕ) where
  abbrev pub total : List A → ℕ
  total [] = 0
  total (x ∷ xs) = w x + total xs

  pub total-append : (xs ys : List A) → total (xs ++ ys) ≡ total xs + total ys
  total-append [] ys = omega arith
  total-append (x ∷ xs) ys = omega (arith, total-append xs ys)

  -- A write replaces the weight of the entry that was there.
  pub total-set :
      (xs : List A) (i : ℕ) (v : A) {x : A}
      → get_elem? xs i ≡ some x
      → total (set xs i v) + w x ≡ total xs + w v
  total-set [] i v h = absurd (cc)
  total-set (y ∷ xs) zero v h = ground arith
  total-set (y ∷ xs) (suc i) v h = omega (arith, total-set xs i v h)

  pub total-replicate : (n : ℕ) (a : A) → w a ≡ 0 → total (replicate n a) ≡ 0
  total-replicate zero a h = refl
  total-replicate (suc n) a h = omega (arith, total-replicate n a h)

  pub total-ge : (xs : List A) (i : ℕ) {x : A} → get_elem? xs i ≡ some x → w x ≤ total xs
  total-ge [] i h = absurd (cc)
  total-ge (y ∷ xs) zero h = ground arith
  total-ge (y ∷ xs) (suc i) h = omega (arith, total-ge xs i h)

  -- Two entries in different places.
  pub total-ge_two :
      (xs : List A) (i j : ℕ) {x y : A}
      → i ≢ j
      → get_elem? xs i ≡ some x
      → get_elem? xs j ≡ some y
      → w x + w y ≤ total xs
  total-ge_two [] i j ne h k = absurd (cc)
  total-ge_two (z ∷ xs) zero zero ne h k = absurd (ne refl)
  total-ge_two (z ∷ xs) zero (suc j) ne h k = ground (arith, total-ge xs j k)
  total-ge_two (z ∷ xs) (suc i) zero ne h k = ground (arith, total-ge xs i h)
  total-ge_two (z ∷ xs) (suc i) (suc j) ne h k =
      omega (arith, total-ge_two xs i j (λ e. ne (ap suc e)) h k)
