-- ===== src/Replication.antt =====
-- internal/replication/replication.go: the queue of chunks to copy, and how one chunk is pushed to
-- its replicas. A push is an HTTP request, so its answers are a parameter: what each attempt on
-- each address gave, and before which attempts the context was found done.
pub mod Retry
pub mod Targets
pub mod Queue
pub mod Pool
pub mod Cancel
use p2p_container_distributi.Prelude.{
  ℕ, zero, suc, ◌+◌, ◌-◌, ◌*◌, ◌/◌, ◌^◌, Bool, true, false, ◌&&◌, not, List, [], ◌∷◌, ◌++◌, Option,
  none, some, Bytes, bytes_eq, ◌==◌, length, ltb, eqb, if◌then◌else◌,
}
use p2p_container_distributi.Prelude.Int.{ℤ, pos, pos_part}
use p2p_container_distributi.Errors.{Error, status, Result, ok, err}
use p2p_container_distributi.Ring.{Ring, get_n}

-- `Factor`
abbrev pub factor : ℕ
factor = 3

-- The field `Data` of the source is `content`.
pub record Job : Type 0 where
  pub chunk_id : Bytes
  pub content : Bytes

-- The ring, the store and the resolver are shared with the rest of the node: they are arguments.
pub record Engine : Type 0 where
  pub self_id : Bytes
  pub queue : List Job
  pub closed : Bool
  pub workers : ℕ
  pub max_retries : ℕ
  pub retry_base : ℕ

abbrev millisecond : ℕ
millisecond = 10 ^ 6

abbrev pub queue_capacity : ℕ
queue_capacity = 1024

unfoldable pub new_engine : Bytes → ℤ → Engine
new_engine self_id workers = record {
  self_id = self_id;
  queue = [];
  closed = false;
  workers = if eqb (pos_part workers) 0 then 4 else pos_part workers;
  max_retries = 5;
  retry_base = 200 * millisecond;
}

-- A send on the channel: it goes through, or waits for room, or panics because it is closed.
pub data Sent : Type 0 where
  sent : Engine → Sent
  waits panics : Sent

unfoldable pub enqueue : Bytes → Bytes → Engine → Sent
enqueue chunk_id content e =
    if e.closed
    then panics
    else if ltb (length e.queue) queue_capacity
    then sent
        (record e { queue = e.queue ++ record { chunk_id = chunk_id; content = content } ∷ [] })
    else waits

-- A worker's receive: a job, or none yet, or the end of its loop.
pub data Received : Type 0 where
  received : Job → Engine → Received
  idle ended : Received

unfoldable pub receive : Engine → Received
receive e = elim e.queue [
  | job ∷ rest ↦ received job (record e { queue = rest })
  | [] ↦ if e.closed then ended else idle
]

unfoldable pub stop : Engine → Engine
stop e = record e { closed = true }

unfoldable pub queue_depth : Engine → ℕ
queue_depth e = length e.queue

unfoldable targets_for : (Bytes → Bytes) → Ring → Bytes → List Bytes
targets_for sha1 ring chunk_id = get_n sha1 ring chunk_id (pos factor)

-- `HTTPTransport.PushChunk`, by the status that the peer answers with, if it answers.
unfoldable pub push_chunk : Result ℕ → Option Error
push_chunk (err e) = some e
push_chunk (ok code) = if eqb (code / 100) 2 then none else some (status code)

pub data Outcome : Type 0 where
  delivered cancelled : Outcome
  -- `err` of the source: `nil` if no attempt was made
  gave_up : Option Error → Outcome

-- How a push ended, the attempts that were made, and the time spent in backoffs.
pub record Pushed : Type 0 where
  pub outcome : Outcome
  pub attempts : ℕ
  pub waited : ℕ

-- The loop of `pushWithRetry` from `attempt` on, with `rounds` attempts left and the last error.
unfoldable pub push_loop : (ℕ → Option Error) → (ℕ → Bool) → ℕ → ℕ → ℕ → ℕ → Option Error → Pushed
push_loop answer done retry_base zero attempt waited last = record {
  outcome = gave_up last;
  attempts = attempt;
  waited = waited;
}
push_loop answer done retry_base (suc rounds) attempt waited last =
    let stopped = ltb 0 attempt && done attempt in
    let waited' = if ltb 0 attempt then waited + retry_base * 2 ^ (attempt - 1) else waited in
    elim stopped [
      | true ↦ record { outcome = cancelled; attempts = attempt; waited = waited }
      | false ↦ elim (answer attempt) [
        | none ↦ record { outcome = delivered; attempts = attempt + 1; waited = waited' }
        | some e ↦ push_loop answer done retry_base rounds (attempt + 1) waited' (some e)
      ]
    ]

unfoldable pub push_with_retry : Engine → (ℕ → Option Error) → (ℕ → Bool) → Pushed
push_with_retry e answer done = push_loop answer done e.retry_base (e.max_retries + 1) 0 0 none

-- What the pushes of one job meet: the answers and the state of the context for each address.
pub record Network : Type 0 where
  pub answer : Bytes → ℕ → Option Error
  pub done : Bytes → ℕ → Bool

-- The loop of `replicate` over the targets: the pushes that it makes, with the node of each.
pub push_targets : Engine → (Bytes → Option Bytes) → Network → List Bytes → List (Bytes × Pushed)
push_targets e addr_for net [] = []
push_targets e addr_for net (node_id ∷ targets) =
    let rest = push_targets e addr_for net targets in
    if node_id == e.self_id then rest else elim (addr_for node_id) [
      | none ↦ rest
      | some addr ↦ (node_id, push_with_retry e (net.answer addr) (net.done addr)) ∷ rest
    ]

pub replicate :
    (Bytes → Bytes) → Ring → (Bytes → Option Bytes) → Network → Engine → Job → List (Bytes × Pushed)
replicate sha1 ring addr_for net e job =
    push_targets e addr_for net (get_n sha1 ring job.chunk_id (pos factor))
