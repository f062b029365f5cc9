-- ===== src/Any.antt =====
-- `Box<dyn Any + Send>` of the standard library: a value that carries its type. The types of a
-- program are a parameter, with their equality (`TypeId`); `downcast` compares the type and gives
-- the value back.
use mathlib.Core.Path.{subst_refl}
use mathlib.Core.HLevel.{hedberg}
use runact.Prelude.{◌≡◌, ◌≢◌, refl, ap, ◌∙◌, subst, Option, none, some}

pub record Types : Type 1 where
  pub Ty : Type 0
  pub El : Ty → Type 0
  pub same : Discrete Ty

pub record Any (u : Types) : Type 0 where
  pub ty : u.Ty
  pub value : u.El ty

module _ (u : Types) where
  abbrev pub boxed : (t : u.Ty) → u.El t → Any u
  boxed t v = record { ty = t; value = v }

  downcast_by : (t : u.Ty) (a : Any u) → Dec (a.ty ≡ t) → Option (u.El t)
  downcast_by t a (yes p) = some (subst u.El p a.value)
  downcast_by t a (no q) = none

  unfoldable pub downcast : (t : u.Ty) → Any u → Option (u.El t)
  unfolding downcast_by
  downcast t a = downcast_by t a (u.same a.ty t)

  downcast_by-boxed :
      (t : u.Ty) (v : u.El t) (d : Dec (t ≡ t)) → downcast_by t (boxed t v) d ≡ some v
  unfolding downcast_by
  downcast_by-boxed t v (yes p) =
      ap some (ap (λ (q : t ≡ t). subst u.El q v) (hedberg u.same t t p refl) ∙ subst_refl u.El v)
  downcast_by-boxed t v (no q) = absurd (q refl)

  downcast_by-ne :
      (t s : u.Ty) (v : u.El s) (d : Dec (s ≡ t)) → s ≢ t → downcast_by t (boxed s v) d ≡ none
  unfolding downcast_by
  downcast_by-ne t s v (yes p) ne = absurd (ne p)
  downcast_by-ne t s v (no q) ne = refl

  -- A boxed value comes back at its own type,
  pub downcast-boxed : (t : u.Ty) (v : u.El t) → downcast t (boxed t v) ≡ some v
  unfolding downcast
  downcast-boxed t v = downcast_by-boxed t v (u.same t t)

  -- and not at any other.
  pub downcast-ne : (t s : u.Ty) (v : u.El s) → s ≢ t → downcast t (boxed s v) ≡ none
  unfolding downcast
  downcast-ne t s v ne = downcast_by-ne t s v (u.same s t) ne
