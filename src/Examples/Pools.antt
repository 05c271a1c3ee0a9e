-- ===== src/Examples/Pools.antt =====
-- The theorems on the worker pool of internal/replication/replication.go, at two workers and a job.
use p2p_container_distributi.Prelude.{
  leb, ℕ, ◌*◌, ◌^◌, ◌≤◌, ◌≡◌, ◌↔◌, refl, true, false, List, [], ◌∷◌, ◌++◌, All, arith, Bytes, codes,
  length, get_or, ◌⊎◌, none, some,
}
use p2p_container_distributi.Prelude.Int.{pos}
use p2p_container_distributi.Replication.{
  Job, Engine, new_engine, enqueue, receive, stop, Network, Pushed, replicate,
}
use p2p_container_distributi.Errors.{other}
use p2p_container_distributi.Replication.Cancel.{IsCut, replicate-cancelled}
use p2p_container_distributi.Node.Lifetime.{
  Life, Moment, chunk, worker, signal, main, awaits_workers, exited, begin, proceed, moment,
  moments,
}
use p2p_container_distributi.Node.Lifetime.Shutdown.{chunk-panics}
use p2p_container_distributi.Examples.Rings.{toy_sha1, node_b, ring_ab}
use p2p_container_distributi.Replication.Queue.{History}
use p2p_container_distributi.Replication.Pool.{
  waiting, busy, gone, Pool, start, turn, turn_of, work, Event, enqueues, works, stops, event,
  events,
}
use p2p_container_distributi.Replication.Pool.Turns.{is_gone}
use p2p_container_distributi.Replication.Pool.Drain.{
  AreTurns, turns_to_rest, all_gone, work_all, stop_returns,
}

abbrev job : Job
job = record { chunk_id = codes "k"; content = codes "data" }

abbrev until_stop : List Event
until_stop = enqueues (codes "k") (codes "data") ∷ works 0 ∷ stops ∷ []

abbrev closed_engine : Engine
closed_engine = record {
  self_id = codes "a";
  queue = [];
  closed = true;
  workers = 2;
  max_retries = 5;
  retry_base = 200 * 10 ^ 6;
}

abbrev closed_history : History
closed_history = record { engine = closed_engine; accepted = job ∷ []; taken = job ∷ [] }

abbrev closed_pool : Pool
closed_pool = record { history = closed_history; workers = busy job ∷ waiting ∷ []; handled = [] }

abbrev rested_pool : Pool
rested_pool = record { history = closed_history; workers = gone ∷ gone ∷ []; handled = job ∷ [] }

ran_until_stop : events until_stop (start (new_engine (codes "a") (pos 2))) ≡ some closed_pool
unfolding events event enqueue start new_engine work turn_of turn receive stop
ran_until_stop = refl

abbrev last_turns : List ℕ
last_turns = 1 ∷ 0 ∷ 0 ∷ []

last-AreTurns : AreTurns last_turns closed_pool
unfolding work turn_of turn receive
last-AreTurns = (refl, (refl, (refl, tt)))

stop_returns_example :
    (length last_turns ≤ turns_to_rest closed_pool)
    × ((all_gone (work_all last_turns closed_pool).workers ≡ true)
        ↔ (length last_turns ≡ turns_to_rest closed_pool))
    × ((all_gone (work_all last_turns closed_pool).workers ≡ true)
        ⊎ ((i : ℕ) × (is_gone (get_or (work_all last_turns closed_pool).workers i gone) ≡ false)))
stop_returns_example =
    stop_returns (codes "a") (pos 2) until_stop closed_pool ran_until_stop last_turns refl
      last-AreTurns

-- The node is told to stop while one worker has a job.
abbrev until_wait : List Moment
until_wait =
    chunk (codes "k") (codes "data") ∷ worker 0 ∷ signal ∷ main ∷ main ∷ main ∷ main ∷ main ∷ []

abbrev waiting_life : Life
waiting_life = record {
  stage = awaits_workers;
  signalled = true;
  pool = closed_pool;
  serving = false;
  beating = false;
  cancelled = true;
  listen_failed = false;
  died = false;
}

abbrev ended_life : Life
ended_life = record waiting_life { stage = exited; pool = rested_pool }

ran_until_wait : moments until_wait (begin (new_engine (codes "a") (pos 2))) ≡ some waiting_life
unfolding moments begin proceed event enqueue start new_engine work turn_of turn receive stop
ran_until_wait = refl

abbrev until_exit : List Moment
until_exit = until_wait ++ (worker 1 ∷ worker 0 ∷ worker 0 ∷ main ∷ [])

chunk-panics_example :
    (moment (chunk (codes "late") []) waiting_life ≡ none)
    ↔ ((waiting_life.stage ≡ awaits_workers) × (waiting_life.died ≡ false))
chunk-panics_example =
    chunk-panics (codes "a") (pos 2) until_wait waiting_life ran_until_wait (codes "late") []

-- A network that refuses every attempt, on a context that is done from the third on.
abbrev cut_network : Network
cut_network = record { answer = λ addr k. some other; done = λ addr k. leb 2 k }

some_retries : 2 ≤ (new_engine node_b (pos 2)).max_retries
unfolding new_engine
some_retries = omega arith

replicate-cancelled_example :
    All
      (λ (r : Bytes × Pushed).
        (addr : Bytes) × (some r.0 ≡ some addr)
        × IsCut (new_engine node_b (pos 2)) (cut_network.answer addr) 2 r.1)
      (replicate toy_sha1 ring_ab (λ node. some node) cut_network (new_engine node_b (pos 2)) job)
replicate-cancelled_example =
    replicate-cancelled (λ node. some node) cut_network (new_engine node_b (pos 2)) (λ addr. 2)
      (λ addr. omega arith) (λ addr. some_retries) (λ addr i. refl) toy_sha1 ring_ab job
