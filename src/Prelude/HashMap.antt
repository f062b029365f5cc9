-- ===== src/Prelude/HashMap.antt =====
-- `std::collections::HashMap` with keys that are numbers (ids are `u64` newtypes), as an
-- association list with one entry for each key. The order of the entries stands for the
-- iteration order, which the source leaves open: no theorem rests on it.
use Prim.Native.Nat.{ℕ, suc}
use mathlib.Core.Path.{◌≡◌, refl}
use mathlib.Core.List.{List, [], ◌∷◌}
use mathlib.Core.Option.{Option, none, some}
use native.Mathlib.Omega.{arith}
use runact.Prelude.Tests.{◌==◌, if◌then◌else◌}
use runact.Prelude.Lists.{length}

abbrev pub HashMap {ℓ} : Type ℓ → Type ℓ
HashMap V = List (ℕ × V)

module _ {ℓ} {V : Type ℓ} where
  -- `get`
  unfoldable pub lookup : ℕ → HashMap V → Option V
  lookup k [] = none
  lookup k (e ∷ m) = if e.0 == k then some e.1 else lookup k m

  unfoldable pub insert : ℕ → V → HashMap V → HashMap V
  insert k v [] = (k, v) ∷ []
  insert k v (e ∷ m) = if e.0 == k then (k, v) ∷ m else e ∷ insert k v m

  unfoldable pub remove : ℕ → HashMap V → HashMap V
  remove k [] = []
  remove k (e ∷ m) = if e.0 == k then m else e ∷ remove k m

  -- What is read at `j` once `v` has been written at `k`.
  pub lookup-insert :
      (k j : ℕ) (v : V) (m : HashMap V)
      → lookup j (insert k v m) ≡ (if k == j then some v else lookup j m)
  unfolding lookup insert
  lookup-insert k j v [] = refl
  lookup-insert k j v (e ∷ m) = ground (arith, lookup-insert k j v m)

  -- A new key adds an entry, an old one keeps the size.
  pub length-insert_new :
      (k : ℕ) (v : V) (m : HashMap V) → lookup k m ≡ none → length (insert k v m) ≡ suc (length m)
  unfolding lookup insert
  length-insert_new k v [] h = refl
  length-insert_new k v (e ∷ m) h = ground (arith, length-insert_new k v m)

  pub length-insert_old :
      (k : ℕ) (v w : V) (m : HashMap V) → lookup k m ≡ some w → length (insert k v m) ≡ length m
  unfolding lookup insert
  length-insert_old k v w [] h = absurd (cc)
  length-insert_old k v w (e ∷ m) h = ground (arith, length-insert_old k v w m)
