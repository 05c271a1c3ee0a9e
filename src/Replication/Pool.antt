-- ===== src/Replication/Pool.antt =====
-- The worker pool of internal/replication/replication.go: Start, the loop of each worker and Stop,
-- under any interleaving. A schedule is a list of events; which worker moves is an input.
pub mod Turns
pub mod Account
pub mod Drain
pub mod Orderly
pub mod Runs
use p2p_container_distributi.Prelude.{
  ℕ, zero, suc, true, false, List, [], ◌∷◌, ◌++◌, Option, none, some, Bytes,
}
use p2p_container_distributi.Replication.{
  Job, Engine, sent, waits, panics, enqueue, received, idle, ended, receive, stop,
}
use p2p_container_distributi.Replication.Queue.{History}

-- A worker waits for a job, or is in `replicate` with one, or has left its loop (`wg.Done`).
pub data Worker : Type 0 where
  waiting : Worker
  busy : Job → Worker
  gone : Worker

-- The channel with what went into it and out of it, the workers, and the jobs whose `replicate`
-- has returned.
pub record Pool : Type 0 where
  pub history : History
  pub workers : List Worker
  pub handled : List Job

-- The loop of `Start`.
unfoldable pub start_workers : ℕ → List Worker
start_workers zero = []
start_workers (suc n) = waiting ∷ start_workers n

unfoldable pub start : Engine → Pool
unfolding start_workers
start e = record {
  history = record { engine = e; accepted = []; taken = [] };
  workers = start_workers e.workers;
  handled = [];
}

-- One turn of the loop of a worker: the channel and the worker after it, and the job that it has
-- handled.
unfoldable pub turn : Worker → History → History × Worker × List Job
turn waiting h = elim (receive h.engine) [
  | received job e ↦ (record h { engine = e; taken = h.taken ++ job ∷ [] }, busy job, [])
  | idle ↦ (h, waiting, [])
  | ended ↦ (h, gone, [])
]
turn (busy job) h = (h, waiting, job ∷ [])
turn gone h = (h, gone, [])

-- A turn of the worker with the given number.
unfoldable pub turn_of : ℕ → List Worker → History → History × List Worker × List Job
turn_of i [] h = (h, [], [])
turn_of zero (w ∷ ws) h = let (h', w', done) = turn w h in (h', w' ∷ ws, done)
turn_of (suc i) (w ∷ ws) h = let (h', ws', done) = turn_of i ws h in (h', w ∷ ws', done)

abbrev pub after_turn : Pool → History × List Worker × List Job → Pool
after_turn p (h, ws, done) = record { history = h; workers = ws; handled = p.handled ++ done }

unfoldable pub work : ℕ → Pool → Pool
work i p = after_turn p (turn_of i p.workers p.history)

pub data Event : Type 0 where
  enqueues : Bytes → Bytes → Event
  works : ℕ → Event
  stops : Event

-- What an event makes of the pool; `none` is a panic, which ends the program. A send for which
-- there is no room changes nothing yet.
unfoldable pub event : Event → Pool → Option Pool
event (enqueues id content) p =
    let h = p.history in
    elim (enqueue id content h.engine) [
      | sent e ↦ some (record p {
        history = record h {
          engine = e;
          accepted = h.accepted ++ record { chunk_id = id; content = content } ∷ [];
        };
      })
      | waits ↦ some p
      | panics ↦ none
    ]
event (works i) p = some (work i p)
event stops p =
    let h = p.history in
    elim h.engine.closed [
      | true ↦ none
      | false ↦ some (record p { history = record h { engine = stop h.engine } })
    ]

unfoldable pub events : List Event → Pool → Option Pool
unfolding event
events [] p = some p
events (e ∷ es) p = elim (event e p) [ none ↦ none | some p' ↦ events es p' ]
