-- ===== src/Resource.antt =====
-- src/resource: capabilities, and the registry that finds them by the type of their handle. The types
-- of handles are a parameter (`Types`), and so is `TypeId`, with the law that two types have two ids;
-- an id stands as its number. The registry stores a capability as `Any`, under the id of its handle
-- type. `Arc<H>` is the handle itself, since a capability only reads it. No call panics while it
-- holds the lock, so the lock is never poisoned.
pub mod Lookup
pub mod Tests
use runact.Prelude.{ℕ, ◌≡◌, Bool, true, false, Option, none, some, List, [], ◌∷◌}
use runact.Prelude.HashMap.{HashMap, lookup, insert}
use runact.Prelude.HashMap
use runact.Any.{Types, Any, boxed, downcast}
use runact.Actor.ActorId.{ActorId}

pub record Capability (H : Type 0) : Type 0 where
  pub owner : ActorId
  pub handle : H

-- The types `Capability<H>`.
abbrev pub capabilities : Types → Types
capabilities u = record { Ty = u.Ty; El = λ t. Capability (u.El t); same = u.same }

module _ (u : Types) (type_id : u.Ty → ℕ) where
  pub record ResourceRegistry : Type 0 where
    pub resources : HashMap (Any (capabilities u))

  unfoldable pub new : ResourceRegistry
  new = record { resources = [] }

  unfoldable pub register : (t : u.Ty) → Capability (u.El t) → ResourceRegistry → ResourceRegistry
  register t capability r = record {
    resources = insert (type_id t) (boxed (capabilities u) t capability) r.resources;
  }

  -- `.and_then(|any| any.downcast…)`
  unfoldable pub downcast_found :
      (t : u.Ty) → Option (Any (capabilities u)) → Option (Capability (u.El t))
  downcast_found t none = none
  downcast_found t (some a) = downcast (capabilities u) t a

  unfoldable pub get : (t : u.Ty) → ResourceRegistry → Option (Capability (u.El t))
  unfolding downcast_found
  get t r = downcast_found t (lookup (type_id t) r.resources)

  unfoldable pub remove :
      (t : u.Ty) → ResourceRegistry → Option (Capability (u.El t)) × ResourceRegistry
  unfolding downcast_found
  remove t r = (
    downcast_found t (lookup (type_id t) r.resources),
    record { resources = HashMap.remove (type_id t) r.resources },
  )

  unfoldable pub has : (t : u.Ty) → ResourceRegistry → Bool
  has t r = elim (lookup (type_id t) r.resources) [ none ↦ false | some a ↦ true ]
