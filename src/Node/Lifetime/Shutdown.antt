-- ===== src/Node/Lifetime/Shutdown.antt =====
-- The shutdown of the program of cmd/node/main.go.
use p2p_container_distributi.Prelude.{
  ap₂, ◌||◌, ℕ, ◌≡◌, ◌↔◌, refl, sym, ap, ◌∙◌, true, false, List, [], ◌∷◌, ◌++◌, map, arith, Bytes,
  length, Bool-cases, inl, inr, none, some, if◌then◌else◌,
}
use p2p_container_distributi.Prelude.Int.{ℤ}
use p2p_container_distributi.Replication.{new_engine}
use p2p_container_distributi.Replication.Pool.{Pool, enqueues, event, work}
use p2p_container_distributi.Replication.Pool.Orderly.{event_shut, enqueue_open}
use p2p_container_distributi.Replication.Pool.Drain.{
  all_gone, AreTurns, turns_to_rest, work_all, work_all-turns_to_rest, none_left,
}
use p2p_container_distributi.Node.Lifetime.{
  is_over, Stage, awaits_signal, shuts_server, stops_membership, cancels, stops_engine,
  awaits_workers, exited, Life, begin, with_pool, proceed, has_exited, Moment, main, chunk, worker,
  happens, moment, moments,
}
use p2p_container_distributi.Node.Lifetime.Stages.{
  runs_on, is_stopped, IsLife, moments-IsLife, begin-IsLife,
}

waits_of : (s : Stage) → is_stopped s ≡ true → has_exited s ≡ false → s ≡ awaits_workers
waits_of awaits_workers h on = refl
waits_of exited h on = cc on
waits_of awaits_signal h on = cc h
waits_of shuts_server h on = cc h
waits_of stops_membership h on = cc h
waits_of cancels h on = cc h
waits_of stops_engine h on = cc h

chunk-open :
    (id content : Bytes) (l : Life)
    → IsLife l
    → moment (chunk id content) l ≡ none
    → (l.stage ≡ awaits_workers) × (l.died ≡ false)
unfolding moment happens
chunk-open id content l v h = elim (Bool-cases (is_over l)) [
  | inl done ↦ cc (rw done at h)
  | inr on ↦ elim (Bool-cases l.pool.history.engine.closed) [
    | inl shut ↦ (waits_of l.stage (sym v.closed ∙ shut) (runs_on l on).0, (runs_on l on).1)
    | inr open_ ↦
        let (p, went, still) = enqueue_open id content l.pool open_ in
        let h' : with_pool l (event (enqueues id content) l.pool) ≡ none = rw on at h in
        cc (sym (ap (with_pool l) went) ∙ h')
  ]
]

chunk-shut :
    (id content : Bytes) (l : Life)
    → IsLife l
    → l.stage ≡ awaits_workers
    → l.died ≡ false
    → moment (chunk id content) l ≡ none
unfolding moment happens
chunk-shut id content l v waits lives =
    let on : is_over l ≡ false = ap₂ (λ s d. has_exited s || d) waits lives in
    rw on (
      ap (with_pool l)
        (event_shut (enqueues id content) l.pool (v.closed ∙ ap is_stopped waits) refl))

moments_step :
    (m : Moment) (ms : List Moment) (l l' : Life)
    → is_over l ≡ false
    → happens m l ≡ some l'
    → moments (m ∷ ms) l ≡ moments ms l'
unfolding moments moment
moments_step m ms l l' on e = let now : moment m l ≡ some l' = rw on e in rw (now, moments)

workers_then :
    (is : List ℕ) (ms : List Moment) (l : Life)
    → is_over l ≡ false
    → moments (map worker is ++ ms) l ≡ moments ms (record l { pool = work_all is l.pool })
unfolding happens event
workers_then [] ms l on = refl
workers_then (i ∷ is) ms l on =
    moments_step (worker i) (map worker is ++ ms) l (record l { pool = work i l.pool }) on refl
    ∙ workers_then is ms (record l { pool = work i l.pool }) on

last_step :
    (l : Life)
    → l.stage ≡ awaits_workers
    → is_over l ≡ false
    → all_gone l.pool.workers ≡ true
    → moments (main ∷ []) l ≡ some (record l { stage = exited })
unfolding happens proceed
last_step l waits on gone_ =
    moments_step main [] l (record l { stage = exited }) on
      (ap (λ s. proceed s l) waits
        ∙ ap (λ b. some (if b then record l { stage = exited } else l)) gone_)
    ∙ unfold moments in refl

module _ (self_id : Bytes) (workers : ℤ) (ms : List Moment) (l : Life)
    (ran : moments ms (begin (new_engine self_id workers)) ≡ some l) where
  run-IsLife : IsLife l
  run-IsLife = moments-IsLife ms _ l (begin-IsLife self_id workers) ran

  -- Whatever happened before: the program panics when a chunk is enqueued exactly if `engine.Stop`
  -- has closed the queue and still waits for the workers, and `log.Fatalf` has not ended it.
  pub chunk-panics :
      (id content : Bytes)
      → (moment (chunk id content) l ≡ none) ↔ ((l.stage ≡ awaits_workers) × (l.died ≡ false))
  chunk-panics id content =
      (chunk-open id content l run-IsLife, λ w. chunk-shut id content l run-IsLife w.0 w.1)

  -- Once `engine.Stop` waits, so many turns of workers that have not left as there are turns to
  -- rest, in any order, and `main` after them, end the program.
  pub stop-exits :
      (is : List ℕ)
      → l.stage ≡ awaits_workers
      → l.died ≡ false
      → AreTurns is l.pool
      → length is ≡ turns_to_rest l.pool
      → (l' : Life) × (moments (map worker is ++ main ∷ []) l ≡ some l') × (l'.stage ≡ exited)
  stop-exits is waits lives turns enough =
      let on : is_over l ≡ false = ap₂ (λ s d. has_exited s || d) waits lives in
      let q : Pool = work_all is l.pool in
      let gone_ : all_gone q.workers ≡ true = none_left q.workers (
        omega (
          arith,
          enough,
          work_all-turns_to_rest is l.pool (run-IsLife.closed ∙ ap is_stopped waits) turns,
        )) in
      (
        record l { stage = exited; pool = q },
        workers_then is (main ∷ []) l on ∙ last_step (record l { pool = q }) waits on gone_,
        refl,
      )
