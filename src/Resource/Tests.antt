-- ===== src/Resource/Tests.antt =====
-- src/resource/registry.rs: runs on small inputs.
use Prim.Native.String.{String}
use mathlib.Core.Bool.{Bool-discrete}
use runact.Prelude.{arith, ℕ, ◌≡◌, ◌≢◌, refl, Bool, true, false, some}
use runact.Any.{Types}
use runact.Actor.ActorId
use runact.Resource.{Capability, new, register, get, remove, has}
use runact.Resource.Lookup.{get-register}

abbrev HandleOf : Bool → Type 0
HandleOf true = ℕ
HandleOf false = String

abbrev handles : Types
handles = record { Ty = Bool; El = HandleOf; same = Bool-discrete }

abbrev id_of : Bool → ℕ
id_of true = 11
id_of false = 12

id_of-apart : (t s : Bool) → id_of t ≡ id_of s → t ≡ s
id_of-apart true true e = refl
id_of-apart false false e = refl
id_of-apart true false e = absurd (omega (arith, e))
id_of-apart false true e = absurd (omega (arith, e))

abbrev file : Capability ℕ
file = record { owner = ActorId.new 3; handle = 40 }

abbrev socket : Capability String
socket = record { owner = ActorId.new 4; handle = "s" }

get-register_example :
    let r = register handles id_of false socket (new handles id_of) in
    let r' = register handles id_of true file r in
    (has handles id_of true r' ≡ true)
    × (get handles id_of true r' ≡ some file)
    × ((remove handles id_of true r').0 ≡ some file)
    × ((s : Bool)
        → s ≢ true
        → (get handles id_of s r' ≡ get handles id_of s r)
          × (has handles id_of s r' ≡ has handles id_of s r))
get-register_example =
    get-register handles id_of id_of-apart true file
      (register handles id_of false socket (new handles id_of))
