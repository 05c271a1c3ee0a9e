-- ===== src/Replication/Pool/Drain.antt =====
-- The shutdown of the worker pool of internal/replication/replication.go: after Stop has closed the
-- queue, the workers run until `wg.Wait` returns.
use mathlib.Core.List.{Perm}
use mathlib.Core.List.Perm
use p2p_container_distributi.Prelude.{
  ℕ, suc, ◌+◌, ◌*◌, ◌≤◌, ◌<◌, ◌≡◌, ◌↔◌, refl, sym, ap, ◌∙◌, subst, Bool, true, false, ◌&&◌, List,
  [], ◌∷◌, ◌++◌, arith, Bytes, length, Bool-cases, inl, inr, ◌⊎◌, append-nil, some, get_or,
}
use p2p_container_distributi.Prelude.Int.{ℤ}
use p2p_container_distributi.Replication.{Job, new_engine}
use p2p_container_distributi.Replication.Queue.{History}
use p2p_container_distributi.Replication.Pool.{
  Worker, waiting, busy, gone, Pool, start, work, after_turn, Event, events,
}
use p2p_container_distributi.Replication.Pool.Turns.{
  is_gone, Turning, taking, idling, leaving, ending, absent, turn_of-Turning, work-fixed,
}
use p2p_container_distributi.Replication.Pool.Account.{
  IsPool, in_hand, any_gone, start-IsPool, work-IsPool,
}
use p2p_container_distributi.Replication.Pool.Runs.{events-IsPool}

-- The turns that a worker still has to take by itself: the end of its job, and its leave.
abbrev turns_left : Worker → ℕ
turns_left waiting = 1
turns_left (busy job) = 2
turns_left gone = 0

abbrev all_turns_left : List Worker → ℕ
all_turns_left [] = 0
all_turns_left (w ∷ ws) = turns_left w + all_turns_left ws

-- The turns after which a closed pool is at rest: a job that waits takes two.
abbrev pub turns_to_rest : Pool → ℕ
turns_to_rest p = 2 * length p.history.engine.queue + all_turns_left p.workers

-- `wg.Wait` returns.
abbrev pub all_gone : List Worker → Bool
all_gone [] = true
all_gone (w ∷ ws) = is_gone w && all_gone ws

-- The workers with these numbers take a turn each, one after the other.
abbrev pub work_all : List ℕ → Pool → Pool
work_all [] p = p
work_all (i ∷ is) p = work_all is (work i p)

-- Each is a turn of a worker that has not left yet.
abbrev pub AreTurns : List ℕ → Pool → Type 0
AreTurns [] p = Unit
AreTurns (i ∷ is) p = (is_gone (get_or p.workers i gone) ≡ false) × AreTurns is (work i p)

all_turns_left-middle :
    (as' bs : List Worker) (w : Worker)
    → all_turns_left (as' ++ w ∷ bs) ≡ turns_left w + all_turns_left (as' ++ bs)
all_turns_left-middle [] bs w = refl
all_turns_left-middle (a ∷ as') bs w = omega (arith, all_turns_left-middle as' bs w)

turned-turns_to_rest :
    (i : ℕ) (p : Pool) (r : History × List Worker × List Job)
    → p.history.engine.closed ≡ true
    → is_gone (get_or p.workers i gone) ≡ false
    → Turning i p.workers p.history r
    → turns_to_rest (after_turn p r) + 1 ≡ turns_to_rest p
turned-turns_to_rest i p r shut on (taking as' bs job rest e q s) = rw s (
    omega (
      arith,
      ap length q,
      ap all_turns_left e,
      all_turns_left-middle as' bs waiting,
      all_turns_left-middle as' bs (busy job),
    ))
turned-turns_to_rest i p r shut on (idling o s) = cc (shut, o)
turned-turns_to_rest i p r shut on (leaving as' bs e q c s) = rw s (
    omega (
      arith,
      ap all_turns_left e,
      all_turns_left-middle as' bs waiting,
      all_turns_left-middle as' bs gone,
    ))
turned-turns_to_rest i p r shut on (ending as' bs job e s) = rw s (
    omega (
      arith,
      ap all_turns_left e,
      all_turns_left-middle as' bs waiting,
      all_turns_left-middle as' bs (busy job),
    ))
turned-turns_to_rest i p r shut on (absent g s) = cc (on, g)

work-turns_to_rest :
    (i : ℕ) (p : Pool)
    → p.history.engine.closed ≡ true
    → is_gone (get_or p.workers i gone) ≡ false
    → turns_to_rest (work i p) + 1 ≡ turns_to_rest p
unfolding work
work-turns_to_rest i p shut on =
    turned-turns_to_rest i p _ shut on (turn_of-Turning i p.workers p.history)

pub work_all-turns_to_rest :
    (is : List ℕ) (p : Pool)
    → p.history.engine.closed ≡ true
    → AreTurns is p
    → length is + turns_to_rest (work_all is p) ≡ turns_to_rest p
work_all-turns_to_rest [] p shut t = omega arith
work_all-turns_to_rest (i ∷ is) p shut t = omega (
  arith,
  work-turns_to_rest i p shut t.0,
  work_all-turns_to_rest is (work i p) ((work-fixed i p).0 ∙ shut) t.1,
)

work_all-IsPool : (is : List ℕ) (p : Pool) → IsPool p → IsPool (work_all is p)
work_all-IsPool [] p v = v
work_all-IsPool (i ∷ is) p v = work_all-IsPool is (work i p) (work-IsPool p v i)

pub none_left : (ws : List Worker) → all_turns_left ws ≡ 0 → all_gone ws ≡ true
none_left [] h = refl
none_left (waiting ∷ ws) h = absurd (omega arith)
none_left (busy job ∷ ws) h = absurd (omega arith)
none_left (gone ∷ ws) h = none_left ws (omega arith)

some_left : (ws : List Worker) → all_gone ws ≡ true → (all_turns_left ws ≡ 0) × (in_hand ws ≡ [])
some_left [] h = (refl, refl)
some_left (waiting ∷ ws) h = cc h
some_left (busy job ∷ ws) h = cc h
some_left (gone ∷ ws) h = let (l, j) = some_left ws h in (omega (arith, l), j)

worker_left :
    (ws : List Worker) → all_gone ws ≡ false → (i : ℕ) × (is_gone (get_or ws i gone) ≡ false)
worker_left [] h = cc h
worker_left (waiting ∷ ws) h = (0, refl)
worker_left (busy job ∷ ws) h = (0, refl)
worker_left (gone ∷ ws) h = let (i, e) = worker_left ws h in (suc i, e)

all-any_gone : (ws : List Worker) → 0 < length ws → all_gone ws ≡ true → any_gone ws ≡ true
all-any_gone [] l h = absurd (omega arith)
all-any_gone (gone ∷ ws) l h = refl
all-any_gone (waiting ∷ ws) l h = cc h
all-any_gone (busy job ∷ ws) l h = cc h

-- Where all workers have left, nothing waits and nothing is in hand.
all_gone-empty :
    (p : Pool)
    → IsPool p
    → all_gone p.workers ≡ true
    → (p.history.engine.queue ≡ []) × (in_hand p.workers ≡ [])
all_gone-empty p v g = (
  (v.drained (all-any_gone p.workers (omega (arith, v.staffed, v.manned)) g)).1,
  (some_left p.workers g).1,
)

-- Where all workers have left, the jobs that were handled are those that were accepted.
pub all_gone-Perm :
    (p : Pool) → IsPool p → all_gone p.workers ≡ true → Perm p.handled p.history.accepted
all_gone-Perm p v g =
    let (empty, free) = all_gone-empty p v g in
    let once : Perm p.history.taken p.handled =
      subst (λ l. Perm p.history.taken l) (ap (◌++◌ p.handled) free ∙ append-nil p.handled)
        v.once in
    subst (λ l. Perm p.handled l)
      (sym (v.fifo.order ∙ ap (◌++◌ p.history.taken) empty ∙ append-nil p.history.taken))
      (Perm.symm once)

pub engine-manned : (self_id : Bytes) (workers : ℤ) → 0 < (new_engine self_id workers).workers
unfolding new_engine
engine-manned self_id workers = ground arith

module _ (self_id : Bytes) (workers : ℤ) (es : List Event) (p : Pool)
    (ran : events es (start (new_engine self_id workers)) ≡ some p) where
  run-IsPool : IsPool p
  unfolding new_engine
  run-IsPool =
      events-IsPool es _ p
        (start-IsPool (new_engine self_id workers) refl (engine-manned self_id workers)) ran

  -- In every schedule of an engine that is started with any number of workers: once the queue is
  -- closed, any turns of workers that have not left are at most two for each job that waits and
  -- each job in hand and one for each waiting worker; exactly after so many turns all workers have
  -- left; and until all have, some worker can take a turn.
  pub stop_returns :
      (is : List ℕ)
      → p.history.engine.closed ≡ true
      → AreTurns is p
      → (length is ≤ turns_to_rest p)
        × ((all_gone (work_all is p).workers ≡ true) ↔ (length is ≡ turns_to_rest p))
        × ((all_gone (work_all is p).workers ≡ true)
            ⊎ ((i : ℕ) × (is_gone (get_or (work_all is p).workers i gone) ≡ false)))
  stop_returns is shut turns =
      let q : Pool = work_all is p in
      let v : IsPool q = work_all-IsPool is p run-IsPool in
      let count = work_all-turns_to_rest is p shut turns in
      let full : all_gone q.workers ≡ true → length is ≡ turns_to_rest p =
        λ g. omega (arith, count, ap length (all_gone-empty q v g).0, (some_left q.workers g).0) in
      (
        omega (arith, count),
        (full, λ l. none_left q.workers (omega (arith, count))),
        elim (Bool-cases (all_gone q.workers)) [
          | inl all ↦ inl all
          | inr some_ ↦ inr (worker_left q.workers some_)
        ],
      )

  -- In every schedule of an engine that is started with any number of workers: when all workers
  -- have left, so that Stop returns, the jobs that were handled are the jobs that were accepted,
  -- each as often.
  pub handled-accepted : all_gone p.workers ≡ true → Perm p.handled p.history.accepted
  handled-accepted g = all_gone-Perm p run-IsPool g
