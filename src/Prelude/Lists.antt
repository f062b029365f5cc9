-- ===== src/Prelude/Lists.antt =====
-- Lists measured, indexed and cut by native numbers, and predicates on every entry.
use Prim.Native.Nat.{ℕ, zero, suc, ◌+◌, ◌-◌, ◌<◌, min}
use mathlib.Core.Path.{◌≡◌, refl, ap, subst}
use mathlib.Core.Logic.{◌≢◌, ◌⊎◌, inl, inr}
use mathlib.Core.List.{List, [], ◌∷◌, ◌++◌}
use mathlib.Core.Option.{Option, none, some}
use native.Mathlib.Omega.{arith}

module _ {ℓ} {A : Type ℓ} where
  abbrev pub length : List A → ℕ
  length [] = 0
  length (x ∷ xs) = suc (length xs)

  abbrev pub get_elem? : List A → ℕ → Option A
  get_elem? [] i = none
  get_elem? (x ∷ xs) zero = some x
  get_elem? (x ∷ xs) (suc i) = get_elem? xs i

  -- A write out of bounds changes nothing.
  abbrev pub set : List A → ℕ → A → List A
  set [] i v = []
  set (x ∷ xs) zero v = v ∷ xs
  set (x ∷ xs) (suc i) v = x ∷ set xs i v

  -- A write in place.
  abbrev pub modify : List A → ℕ → (A → A) → List A
  modify [] i f = []
  modify (x ∷ xs) zero f = f x ∷ xs
  modify (x ∷ xs) (suc i) f = x ∷ modify xs i f

  abbrev pub take : ℕ → List A → List A
  take zero xs = []
  take (suc n) [] = []
  take (suc n) (x ∷ xs) = x ∷ take n xs

  abbrev pub drop : ℕ → List A → List A
  drop zero xs = xs
  drop (suc n) [] = []
  drop (suc n) (x ∷ xs) = drop n xs

  abbrev pub replicate : ℕ → A → List A
  replicate zero a = []
  replicate (suc n) a = a ∷ replicate n a

module _ {ℓ} {A : Type ℓ} where
  pub length-append : (xs ys : List A) → length (xs ++ ys) ≡ length xs + length ys
  length-append [] ys = omega arith
  length-append (x ∷ xs) ys = omega (arith, length-append xs ys)

  pub length-set : (xs : List A) (i : ℕ) (v : A) → length (set xs i v) ≡ length xs
  length-set [] i v = refl
  length-set (x ∷ xs) zero v = refl
  length-set (x ∷ xs) (suc i) v = ap suc (length-set xs i v)

  pub get_elem?-set_self :
      (xs : List A) (i : ℕ) (v : A) → i < length xs → get_elem? (set xs i v) i ≡ some v
  get_elem?-set_self [] i v h = elim h [ ]
  get_elem?-set_self (x ∷ xs) zero v h = refl
  get_elem?-set_self (x ∷ xs) (suc i) v h = get_elem?-set_self xs i v (omega arith)

  pub get_elem?-set_ne :
      (xs : List A) {i j : ℕ} (v : A) → i ≢ j → get_elem? (set xs i v) j ≡ get_elem? xs j
  get_elem?-set_ne [] v h = refl
  get_elem?-set_ne (x ∷ xs) {i = zero} {j = zero} v h = absurd (h refl)
  get_elem?-set_ne (x ∷ xs) {i = zero} {j = suc j} v h = refl
  get_elem?-set_ne (x ∷ xs) {i = suc i} {j = zero} v h = refl
  get_elem?-set_ne (x ∷ xs) {i = suc i} {j = suc j} v h = get_elem?-set_ne xs v (λ e. h (ap suc e))

  pub take-append-drop : (n : ℕ) (xs : List A) → take n xs ++ drop n xs ≡ xs
  take-append-drop zero xs = refl
  take-append-drop (suc n) [] = refl
  take-append-drop (suc n) (x ∷ xs) = rw (take-append-drop n xs)

  pub length-take : (n : ℕ) (xs : List A) → length (take n xs) ≡ min n (length xs)
  length-take zero xs = omega arith
  length-take (suc n) [] = omega arith
  length-take (suc n) (x ∷ xs) = omega (arith, length-take n xs)

  pub length-drop : (n : ℕ) (xs : List A) → length (drop n xs) ≡ length xs - n
  length-drop zero xs = omega arith
  length-drop (suc n) [] = omega arith
  length-drop (suc n) (x ∷ xs) = omega (arith, length-drop n xs)

  pub length-replicate : (n : ℕ) (a : A) → length (replicate n a) ≡ n
  length-replicate zero a = refl
  length-replicate (suc n) a = ap suc (length-replicate n a)

module _ {ℓ κ} {A : Type ℓ} (P : A → Type κ) where
  -- Every entry satisfies `P`.
  abbrev pub All : List A → Type κ
  All [] = Unit
  All (x ∷ xs) = P x × All xs

  -- What is there, if anything is, satisfies `P`.
  abbrev pub Holds : Option A → Type κ
  Holds none = Unit
  Holds (some x) = P x

module _ {ℓ κ} {A : Type ℓ} (P : A → Type κ) where
  pub All-snoc : (xs : List A) {x : A} → All P xs → P x → All P (xs ++ x ∷ [])
  All-snoc [] h p = (p, tt)
  All-snoc (y ∷ xs) h p = (h.0, All-snoc xs h.1 p)

  pub All-append : (xs ys : List A) → All P xs → All P ys → All P (xs ++ ys)
  All-append [] ys h k = k
  All-append (x ∷ xs) ys h k = (h.0, All-append xs ys h.1 k)

  pub All-set : (xs : List A) (i : ℕ) {v : A} → All P xs → P v → All P (set xs i v)
  All-set [] i h p = h
  All-set (x ∷ xs) zero h p = (p, h.1)
  All-set (x ∷ xs) (suc i) h p = (h.0, All-set xs i h.1 p)

  pub All-get_elem? : (xs : List A) (i : ℕ) → All P xs → Holds P (get_elem? xs i)
  All-get_elem? [] i h = h
  All-get_elem? (x ∷ xs) zero h = h.0
  All-get_elem? (x ∷ xs) (suc i) h = All-get_elem? xs i h.1

  pub Holds-set :
      (xs : List A) (i j : ℕ) (v : A)
      → Holds P (get_elem? xs j)
      → (i ≡ j → P v)
      → Holds P (get_elem? (set xs i v) j)
  Holds-set [] i j v h p = h
  Holds-set (x ∷ xs) zero zero v h p = p refl
  Holds-set (x ∷ xs) zero (suc j) v h p = h
  Holds-set (x ∷ xs) (suc i) zero v h p = h
  Holds-set (x ∷ xs) (suc i) (suc j) v h p = Holds-set xs i j v h (λ e. p (ap suc e))

  pub Holds-snoc :
      (xs : List A) (j : ℕ) {v : A}
      → Holds P (get_elem? xs j)
      → P v
      → Holds P (get_elem? (xs ++ v ∷ []) j)
  Holds-snoc [] zero h p = p
  Holds-snoc [] (suc j) h p = h
  Holds-snoc (x ∷ xs) zero h p = h
  Holds-snoc (x ∷ xs) (suc j) h p = Holds-snoc xs j h p

  pub Holds-some : {o : Option A} {x : A} → o ≡ some x → Holds P o → P x
  Holds-some e h = subst (Holds P) e h

  pub All-replicate : (n : ℕ) {x : A} → P x → All P (replicate n x)
  All-replicate zero p = tt
  All-replicate (suc n) p = (p, All-replicate n p)

pub List-cases {ℓ} :
    {A : Type ℓ} (xs : List A) → (xs ≡ []) ⊎ ((x : A) × (rest : List A) × (xs ≡ x ∷ rest))
List-cases [] = inl refl
List-cases (x ∷ xs) = inr (x, xs, refl)

pub get_elem?-set {ℓ} :
    {A : Type ℓ} (xs : List A) (i j : ℕ) (v w : A)
    → get_elem? (set xs i v) j ≡ some w
    → (v ≡ w) ⊎ (get_elem? xs j ≡ some w)
get_elem?-set [] i j v w h = inr h
get_elem?-set (x ∷ xs) zero zero v w h = inl (ground arith)
get_elem?-set (x ∷ xs) zero (suc j) v w h = inr h
get_elem?-set (x ∷ xs) (suc i) zero v w h = inr h
get_elem?-set (x ∷ xs) (suc i) (suc j) v w h = get_elem?-set xs i j v w h

pub get_elem?-snoc {ℓ} :
    {A : Type ℓ} (xs : List A) (j : ℕ) (v w : A)
    → get_elem? (xs ++ v ∷ []) j ≡ some w
    → (v ≡ w) ⊎ (get_elem? xs j ≡ some w)
get_elem?-snoc [] zero v w h = inl (ground arith)
get_elem?-snoc [] (suc j) v w h = inr h
get_elem?-snoc (x ∷ xs) zero v w h = inr h
get_elem?-snoc (x ∷ xs) (suc j) v w h = get_elem?-snoc xs j v w h

pub Holds-map {ℓ κ μ} :
    {A : Type ℓ} (P : A → Type κ) (Q : A → Type μ)
    → ((x : A) → P x → Q x)
    → (o : Option A) → Holds P o
    → Holds Q o
Holds-map P Q f none h = tt
Holds-map P Q f (some x) h = f x h

module _ {ℓ} {A : Type ℓ} where
  pub get_elem?-lt : (xs : List A) (i : ℕ) {x : A} → get_elem? xs i ≡ some x → i < length xs
  get_elem?-lt [] i h = absurd (cc)
  get_elem?-lt (y ∷ xs) zero h = omega arith
  get_elem?-lt (y ∷ xs) (suc i) h = omega (arith, get_elem?-lt xs i h)

  pub get_elem?-some : (xs : List A) (i : ℕ) → i < length xs → (x : A) × (get_elem? xs i ≡ some x)
  get_elem?-some [] i h = absurd (omega arith)
  get_elem?-some (x ∷ xs) zero h = (x, refl)
  get_elem?-some (x ∷ xs) (suc i) h = get_elem?-some xs i (omega arith)

  -- What is appended stands at the end, and the rest stays in its place.
  pub get_elem?-end_snoc : (xs : List A) (x : A) → get_elem? (xs ++ x ∷ []) (length xs) ≡ some x
  get_elem?-end_snoc [] x = refl
  get_elem?-end_snoc (y ∷ xs) x = get_elem?-end_snoc xs x

  pub get_elem?-snoc_lt :
      (xs : List A) (i : ℕ) (x : A) → i < length xs → get_elem? (xs ++ x ∷ []) i ≡ get_elem? xs i
  get_elem?-snoc_lt [] i x h = absurd (omega arith)
  get_elem?-snoc_lt (y ∷ xs) zero x h = refl
  get_elem?-snoc_lt (y ∷ xs) (suc i) x h = get_elem?-snoc_lt xs i x (omega arith)

  pub set_same : (xs : List A) (i : ℕ) (v : A) → get_elem? xs i ≡ some v → set xs i v ≡ xs
  set_same [] i v h = refl
  set_same (x ∷ xs) zero v h = ground arith
  set_same (x ∷ xs) (suc i) v h = ap (λ ys. x ∷ ys) (set_same xs i v h)

module _ {ℓ κ} {A : Type ℓ} {B : Type κ} (P : A → B → Type 0) where
  -- Two lists of one length whose entries are related place by place.
  abbrev pub Both : List A → List B → Type 0
  Both [] [] = Unit
  Both [] (y ∷ ys) = ⊥
  Both (x ∷ xs) [] = ⊥
  Both (x ∷ xs) (y ∷ ys) = P x y × Both xs ys

module _ {ℓ κ} {A : Type ℓ} {B : Type κ} (P : A → B → Type 0) where
  pub Both-snoc :
      (xs : List A) (ys : List B) {x : A} {y : B}
      → Both P xs ys
      → P x y
      → Both P (xs ++ x ∷ []) (ys ++ y ∷ [])
  Both-snoc [] [] h p = (p, tt)
  Both-snoc [] (y ∷ ys) h p = absurd h
  Both-snoc (x ∷ xs) [] h p = absurd h
  Both-snoc (x ∷ xs) (y ∷ ys) h p = (h.0, Both-snoc xs ys h.1 p)

  -- A write on the left with its change on the right.
  pub Both-set :
      (xs : List A) (ys : List B) (i : ℕ) {x x' : A} (f : B → B)
      → get_elem? xs i ≡ some x
      → ((y : B) → P x y → P x' (f y))
      → Both P xs ys
      → Both P (set xs i x') (modify ys i f)
  Both-set [] [] i f at keeps h = tt
  Both-set [] (y ∷ ys) i f at keeps h = absurd h
  Both-set (x ∷ xs) [] i f at keeps h = absurd h
  Both-set (x ∷ xs) (y ∷ ys) zero {x' = x'} f at keeps h =
      (keeps y (subst (λ o. Holds (λ a. P a y) o) at h.0), h.1)
  Both-set (x ∷ xs) (y ∷ ys) (suc i) f at keeps h = (h.0, Both-set xs ys i f at keeps h.1)

  pub Both-get_elem? :
      (xs : List A) (ys : List B) (i : ℕ) {x : A}
      → get_elem? xs i ≡ some x
      → Both P xs ys
      → (y : B) × (get_elem? ys i ≡ some y) × P x y
  Both-get_elem? [] ys i at h = absurd (cc)
  Both-get_elem? (x ∷ xs) [] i at h = absurd h
  Both-get_elem? (x ∷ xs) (y ∷ ys) zero at h = (y, refl, subst (λ o. Holds (λ a. P a y) o) at h.0)
  Both-get_elem? (x ∷ xs) (y ∷ ys) (suc i) at h = Both-get_elem? xs ys i at h.1

  pub Both-length : (xs : List A) (ys : List B) → Both P xs ys → length xs ≡ length ys
  Both-length [] [] h = refl
  Both-length [] (y ∷ ys) h = absurd h
  Both-length (x ∷ xs) [] h = absurd h
  Both-length (x ∷ xs) (y ∷ ys) h = ap suc (Both-length xs ys h.1)

-- What stands where after a write in place.
pub get_elem?-modify {ℓ} :
    {A : Type ℓ} (xs : List A) (i j : ℕ) (f : A → A) (y : A)
    → get_elem? (modify xs i f) j ≡ some y
    → (x : A) × (get_elem? xs j ≡ some x) × ((x ≡ y) ⊎ (i ≡ j) × (f x ≡ y))
get_elem?-modify [] i j f y h = absurd (cc)
get_elem?-modify (x ∷ xs) zero zero f y h = (x, refl, inr (refl, ground arith))
get_elem?-modify (x ∷ xs) zero (suc j) f y h = (y, h, inl refl)
get_elem?-modify (x ∷ xs) (suc i) zero f y h = (x, refl, inl (ground arith))
get_elem?-modify (x ∷ xs) (suc i) (suc j) f y h =
    let (x', at, e) = get_elem?-modify xs i j f y h in
    (x', at, elim e [ inl same ↦ inl same | inr (here, new) ↦ inr (ap suc here, new) ])

module _ {ℓ κ} {A : Type ℓ} {B : Type κ} (P : A → B → Type 0) where
  -- A write on one side that keeps the relation.
  pub Both-set_left :
      (xs : List A) (ys : List B) (i : ℕ) {x x' : A}
      → get_elem? xs i ≡ some x
      → ((y : B) → P x y → P x' y)
      → Both P xs ys
      → Both P (set xs i x') ys
  Both-set_left [] ys i at keeps h = h
  Both-set_left (x ∷ xs) [] i at keeps h = absurd h
  Both-set_left (x ∷ xs) (y ∷ ys) zero at keeps h =
      (keeps y (subst (λ o. Holds (λ a. P a y) o) at h.0), h.1)
  Both-set_left (x ∷ xs) (y ∷ ys) (suc i) at keeps h = (h.0, Both-set_left xs ys i at keeps h.1)

  pub Both-modify :
      (xs : List A) (ys : List B) (i : ℕ) (f : B → B)
      → ((x : A) (y : B) → P x y → P x (f y))
      → Both P xs ys
      → Both P xs (modify ys i f)
  Both-modify [] [] i f keeps h = h
  Both-modify [] (y ∷ ys) i f keeps h = absurd h
  Both-modify (x ∷ xs) [] i f keeps h = h
  Both-modify (x ∷ xs) (y ∷ ys) zero f keeps h = (keeps x y h.0, h.1)
  Both-modify (x ∷ xs) (y ∷ ys) (suc i) f keeps h = (h.0, Both-modify xs ys i f keeps h.1)
