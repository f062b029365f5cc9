-- ===== src/Compute/Tasks.antt =====
-- src/compute/task.rs: tasks, their results and errors. A job is what it does when it is run: it
-- returns a value or panics. A job that does neither is a worker that gets no more turns.
-- `created_at` is written and never read.
use Prim.Native.String.{String}
use runact.Prelude.{ℕ, ◌+◌, ◌%◌, ◌^◌}
use runact.Any.{Types, Any, boxed}

-- What a panic carries: the two types that the worker looks for, or another.
pub data PanicPayload : Type 0 where
  str_slice owned_string : String → PanicPayload
  other : PanicPayload

pub data Job (A : Type 0) : Type 0 where
  returns : A → Job A
  panics : PanicPayload → Job A

pub data ComputeError : Type 0 where
  queue_full scheduler_shutdown : ComputeError
  worker_panic : String → ComputeError

pub data ComputeResult (u : Types) : Type 0 where
  ok : Any u → ComputeResult u
  err : ComputeError → ComputeResult u
  panic : String → ComputeResult u
  timeout cancelled : ComputeResult u

pub record Task (u : Types) : Type 0 where
  pub id : ℕ
  pub job : Job (Any u)
  pub result_sender : ℕ  -- the address of the result channel
  pub cancelled : ℕ  -- the address of the flag

-- `COUNTER.fetch_add(1)`
unfoldable pub new_id : (counter : ℕ) → ℕ × ℕ
new_id counter = (counter, (counter + 1) % 2 ^ 64)

-- `Box::new(move || Box::new(job()))`
unfoldable pub boxed_job : (u : Types) (t : u.Ty) → Job (u.El t) → Job (Any u)
boxed_job u t (returns v) = returns (boxed u t v)
boxed_job u t (panics p) = panics p
