-- ===== src/Replication/Pool/Turns.antt =====
-- What one turn of a worker of internal/replication/replication.go does.

use p2p_container_distributi.Prelude.{
  ℕ, zero, suc, ◌≡◌, refl, ap, Bool, true, false, List, [], ◌∷◌, ◌++◌, arith, Bool-cases, inl, inr,
  get_or, ◌⊎◌,
}
use p2p_container_distributi.Replication.{Job, receive}
use p2p_container_distributi.Replication.Queue.{History}
use p2p_container_distributi.Replication.Pool.{
  Worker, waiting, busy, gone, Pool, turn, turn_of, work,
}

abbrev pub is_gone : Worker → Bool
is_gone gone = true
is_gone waiting = false
is_gone (busy job) = false

-- What a turn does: a worker takes the first job, or finds the queue empty, or leaves, or ends a
-- job; or it has left, or there is none of that number.
pub data Turning (i : ℕ) (ws : List Worker) (h : History) (r : History × List Worker × List Job)
    : Type 0 where
  taking :
      (as' bs : List Worker) (job : Job) (rest : List Job)
      → ws ≡ as' ++ waiting ∷ bs
      → h.engine.queue ≡ job ∷ rest
      → r ≡ (
        record h { engine = record h.engine { queue = rest }; taken = h.taken ++ job ∷ [] },
        as' ++ busy job ∷ bs,
        [],
      )
      → Turning i ws h r
  idling : h.engine.closed ≡ false → r ≡ (h, ws, []) → Turning i ws h r
  leaving :
      (as' bs : List Worker)
      → ws ≡ as' ++ waiting ∷ bs
      → h.engine.queue ≡ []
      → h.engine.closed ≡ true
      → r ≡ (h, as' ++ gone ∷ bs, [])
      → Turning i ws h r
  ending :
      (as' bs : List Worker) (job : Job)
      → ws ≡ as' ++ busy job ∷ bs
      → r ≡ (h, as' ++ waiting ∷ bs, job ∷ [])
      → Turning i ws h r
  absent : is_gone (get_or ws i gone) ≡ true → r ≡ (h, ws, []) → Turning i ws h r

List-cases : (q : List Job) → (q ≡ []) ⊎ ((job : Job) × (rest : List Job) × (q ≡ job ∷ rest))
List-cases [] = inl refl
List-cases (job ∷ rest) = inr (job, rest, refl)

waiting-Turning :
    (ws : List Worker) (h : History) → Turning zero (waiting ∷ ws) h (turn_of zero (waiting ∷ ws) h)
unfolding turn_of turn receive
waiting-Turning ws h = elim (List-cases h.engine.queue) [
  | inr (job, rest, e) ↦ taking [] ws job rest refl e (rw (e, turn_of, turn, receive))
  | inl empty ↦ elim (Bool-cases h.engine.closed) [
    | inl shut ↦ leaving [] ws refl empty shut (ground arith)
    | inr open_ ↦ idling open_ (ground arith)
  ]
]

later-Turning :
    (i : ℕ) (w : Worker) (ws : List Worker) (h : History) (r : History × List Worker × List Job)
    → Turning i ws h r
    → Turning (suc i) (w ∷ ws) h (r.0, w ∷ r.1, r.2)
later-Turning i w ws h r (taking as' bs job rest e q s) =
    taking (w ∷ as') bs job rest (ap (◌∷◌ w) e) q (ap (λ z. (z.0, w ∷ z.1, z.2)) s)
later-Turning i w ws h r (idling o s) = idling o (ap (λ z. (z.0, w ∷ z.1, z.2)) s)
later-Turning i w ws h r (leaving as' bs e q c s) =
    leaving (w ∷ as') bs (ap (◌∷◌ w) e) q c (ap (λ z. (z.0, w ∷ z.1, z.2)) s)
later-Turning i w ws h r (ending as' bs job e s) =
    ending (w ∷ as') bs job (ap (◌∷◌ w) e) (ap (λ z. (z.0, w ∷ z.1, z.2)) s)
later-Turning i w ws h r (absent g s) = absent g (ap (λ z. (z.0, w ∷ z.1, z.2)) s)

pub turn_of-Turning : (i : ℕ) (ws : List Worker) (h : History) → Turning i ws h (turn_of i ws h)
unfolding turn_of turn
turn_of-Turning i [] h = absent refl refl
turn_of-Turning zero (waiting ∷ ws) h = waiting-Turning ws h
turn_of-Turning zero (busy job ∷ ws) h = ending [] ws job refl refl
turn_of-Turning zero (gone ∷ ws) h = absent refl refl
turn_of-Turning (suc i) (w ∷ ws) h =
    later-Turning i w ws h (turn_of i ws h) (turn_of-Turning i ws h)

pub work-fixed :
    (i : ℕ) (p : Pool)
    → ((work i p).history.engine.closed ≡ p.history.engine.closed)
      × ((work i p).history.accepted ≡ p.history.accepted)
unfolding work
work-fixed i p = turned-fixed _ (turn_of-Turning i p.workers p.history)
  where
    turned-fixed :
        (r : History × List Worker × List Job)
        → Turning i p.workers p.history r
        → (r.0.engine.closed ≡ p.history.engine.closed) × (r.0.accepted ≡ p.history.accepted)
    turned-fixed r (taking as' bs job rest e q s) = rw s (refl, refl)
    turned-fixed r (idling o s) = rw s (refl, refl)
    turned-fixed r (leaving as' bs e q c s) = rw s (refl, refl)
    turned-fixed r (ending as' bs job e s) = rw s (refl, refl)
    turned-fixed r (absent g s) = rw s (refl, refl)
