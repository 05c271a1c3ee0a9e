-- ===== src/Node/Lifetime.antt =====
-- The life of the program of cmd/node/main.go from `engine.Start` on: what runs beside `main`, the
-- signal, and the shutdown, whose statements are the stages. The handlers and the repairs enter by
-- the chunks that they enqueue.
pub mod Shutdown
pub mod Stages
use p2p_container_distributi.Prelude.{
  ◌||◌, ℕ, Bool, true, false, List, [], ◌∷◌, Option, none, some, Bytes, if◌then◌else◌,
}
use p2p_container_distributi.Replication.{Engine}
use p2p_container_distributi.Replication.Pool.{Pool, start, Event, enqueues, works, stops, event}
use p2p_container_distributi.Replication.Pool.Drain.{all_gone}

-- The statement of `main` that comes next: the receive on `sigCh`, `httpServer.Shutdown`,
-- `membership.Stop`, `cancel`, `engine.Stop` up to the close of the queue, and its `wg.Wait`.
pub data Stage : Type 0 where
  awaits_signal shuts_server stops_membership cancels stops_engine awaits_workers exited : Stage

pub record Life : Type 0 where
  pub stage : Stage
  pub signalled : Bool
  pub pool : Pool
  -- the server takes connections, the loop of the membership runs, the context is done
  pub serving : Bool
  pub beating : Bool
  pub cancelled : Bool
  -- `ListenAndServe` has returned an error other than `ErrServerClosed`
  pub listen_failed : Bool
  -- `log.Fatalf` has ended the program
  pub died : Bool

-- `engine.Start`, `membership.Start` and `ListenAndServe`
unfoldable pub begin : Engine → Life
begin e = record {
  stage = awaits_signal;
  signalled = false;
  pool = start e;
  serving = true;
  beating = true;
  cancelled = false;
  listen_failed = false;
  died = false;
}

abbrev pub with_pool : Life → Option Pool → Option Life
with_pool l none = none
with_pool l (some p) = some (record l { pool = p })

abbrev pub to_wait : Option Life → Option Life
to_wait none = none
to_wait (some l) = some (record l { stage = awaits_workers })

-- The next statement of `main`; `none` is a panic. `Shutdown` returns when the handlers are done,
-- or after ten seconds, so handlers may still run then.
unfoldable pub proceed : Stage → Life → Option Life
proceed awaits_signal l = some (if l.signalled then record l { stage = shuts_server } else l)
proceed shuts_server l = some (record l { stage = stops_membership; serving = false })
proceed stops_membership l = some (record l { stage = cancels; beating = false })
proceed cancels l = some (record l { stage = stops_engine; cancelled = true })
proceed stops_engine l = to_wait (with_pool l (event stops l.pool))
proceed awaits_workers l = some (if all_gone l.pool.workers then record l { stage = exited } else l)
proceed exited l = some l

abbrev pub has_exited : Stage → Bool
has_exited exited = true
has_exited _ = false

-- What happens next: a signal comes, `main` goes on, `ListenAndServe` fails, the goroutine of the
-- server goes on to its `log.Fatalf`, a handler or a repair enqueues a chunk, a worker takes a turn.
pub data Moment : Type 0 where
  signal main listen_fails fatal : Moment
  chunk : Bytes → Bytes → Moment
  worker : ℕ → Moment

unfoldable pub happens : Moment → Life → Option Life
unfolding proceed
happens signal l = some (record l { signalled = true })
happens main l = proceed l.stage l
happens listen_fails l =
    some (if l.serving then record l { serving = false; listen_failed = true } else l)
happens fatal l = some (if l.listen_failed then record l { died = true } else l)
happens (chunk id content) l = with_pool l (event (enqueues id content) l.pool)
happens (worker i) l = with_pool l (event (works i) l.pool)

-- The program has ended: `main` has returned, or `log.Fatalf` was called.
abbrev pub is_over : Life → Bool
is_over l = has_exited l.stage || l.died

-- The end of the program ends everything.
unfoldable pub moment : Moment → Life → Option Life
unfolding happens
moment m l = if is_over l then some l else happens m l

unfoldable pub moments : List Moment → Life → Option Life
unfolding moment
moments [] l = some l
moments (m ∷ ms) l = elim (moment m l) [ none ↦ none | some l' ↦ moments ms l' ]
