-- ===== src/Resource/Lookup.antt =====
-- src/resource/registry.rs: what is found under a type after a capability is registered.
use runact.Prelude.{
  ==_ne, ℕ, ◌≡◌, ◌≢◌, ap, ◌∙◌, sym, true, false, none, some, ◌==◌, ==_self, if_true, if_false,
}
use runact.Prelude.HashMap.{lookup, lookup-insert}
use runact.Any.{Types, boxed, downcast-boxed}
use runact.Resource.{
  Capability, capabilities, ResourceRegistry, register, get, remove, has, downcast_found,
}

module _ (u : Types) (type_id : u.Ty → ℕ)
    (apart : (t s : u.Ty) → type_id t ≡ type_id s → t ≡ s) where
  found_same :
      (t : u.Ty) (c : Capability (u.El t)) (r : ResourceRegistry u type_id)
      → lookup (type_id t) (register u type_id t c r).resources ≡ some (boxed (capabilities u) t c)
  unfolding register
  found_same t c r =
      lookup-insert (type_id t) (type_id t) (boxed (capabilities u) t c) r.resources
      ∙ if_true _ _ (==_self (type_id t))

  found_other :
      (t s : u.Ty) (c : Capability (u.El t)) (r : ResourceRegistry u type_id)
      → s ≢ t
      → lookup (type_id s) (register u type_id t c r).resources ≡ lookup (type_id s) r.resources
  unfolding register
  found_other t s c r ne =
      lookup-insert (type_id t) (type_id s) (boxed (capabilities u) t c) r.resources
      ∙ if_false {b = type_id t == type_id s} _ _
          (==_ne (type_id t) (type_id s) (λ e. ne (sym (apart t s e))))

  -- Once a capability is registered under its handle type, whatever was there before: `has` is true,
  -- `get` gives back exactly that capability, and so does `remove`; under every other type `get` and
  -- `has` answer as before.
  pub get-register :
      (t : u.Ty) (c : Capability (u.El t)) (r : ResourceRegistry u type_id)
      → let r' = register u type_id t c r in
        (has u type_id t r' ≡ true)
        × (get u type_id t r' ≡ some c)
        × ((remove u type_id t r').0 ≡ some c)
        × ((s : u.Ty)
            → s ≢ t
            → (get u type_id s r' ≡ get u type_id s r) × (has u type_id s r' ≡ has u type_id s r))
  unfolding has get remove downcast_found
  get-register t c r =
      let same = found_same t c r in
      let back = ap (downcast_found u type_id t) same ∙ downcast-boxed (capabilities u) t c in
      (
        ap (λ o. elim o [ none ↦ false | some a ↦ true ]) same,
        back,
        back,
        λ s ne. (
          ap (downcast_found u type_id s) (found_other t s c r ne),
          ap (λ o. elim o [ none ↦ false | some a ↦ true ]) (found_other t s c r ne),
        ),
      )
