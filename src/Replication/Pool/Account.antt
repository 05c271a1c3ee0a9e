-- ===== src/Replication/Pool/Account.antt =====
-- Where the accepted jobs of the worker pool of internal/replication/replication.go are.
use mathlib.Core.List.{Perm, perm_middle}
use mathlib.Core.List.Perm
use p2p_container_distributi.Prelude.{
  ℕ, zero, suc, ◌<◌, ◌≡◌, refl, sym, ap, ◌∙◌, subst, Bool, true, false, ◌||◌, List, [], ◌∷◌, ◌++◌,
  arith, length, append_assoc, append-nil,
}
use p2p_container_distributi.Replication.{Job, Engine}
use p2p_container_distributi.Replication.Queue.{History, IsFifo}
use p2p_container_distributi.Replication.Pool.{
  Worker, waiting, busy, gone, Pool, start, start_workers, work,
}
use p2p_container_distributi.Replication.Pool.{after_turn}
use p2p_container_distributi.Replication.Pool.Turns.{
  is_gone, Turning, taking, idling, leaving, ending, absent, turn_of-Turning,
}

-- The jobs that workers have taken and not handled yet.
abbrev pub in_hand : List Worker → List Job
in_hand [] = []
in_hand (busy job ∷ ws) = job ∷ in_hand ws
in_hand (waiting ∷ ws) = in_hand ws
in_hand (gone ∷ ws) = in_hand ws

abbrev pub any_gone : List Worker → Bool
any_gone [] = false
any_gone (w ∷ ws) = is_gone w || any_gone ws

-- Every accepted job is handled, or in the hands of a worker, or in the queue, and there once; the
-- queue is in the order of acceptance and within its capacity; there are as many workers as set, at
-- least one; a worker has left only if the queue is closed and empty.
pub record IsPool (p : Pool) : Type 0 where
  pub fifo : IsFifo p.history
  pub once : Perm p.history.taken (p.handled ++ in_hand p.workers)
  pub staffed : length p.workers ≡ p.history.engine.workers
  pub manned : 0 < p.history.engine.workers
  pub drained :
      any_gone p.workers ≡ true → (p.history.engine.closed ≡ true) × (p.history.engine.queue ≡ [])

in_hand-append : (as' bs : List Worker) → in_hand (as' ++ bs) ≡ in_hand as' ++ in_hand bs
in_hand-append [] bs = refl
in_hand-append (waiting ∷ as') bs = in_hand-append as' bs
in_hand-append (busy job ∷ as') bs = ap (◌∷◌ job) (in_hand-append as' bs)
in_hand-append (gone ∷ as') bs = in_hand-append as' bs

-- A job in the hands of a worker among others.
in_hand-busy :
    (as' bs : List Worker) (job : Job)
    → Perm (in_hand (as' ++ busy job ∷ bs)) (job ∷ in_hand (as' ++ waiting ∷ bs))
in_hand-busy as' bs job =
    rw (in_hand-append as' (busy job ∷ bs), in_hand-append as' (waiting ∷ bs))
      (perm_middle (in_hand as') (in_hand bs))

any_gone-middle :
    (as' bs : List Worker) (w : Worker)
    → is_gone w ≡ false
    → any_gone (as' ++ w ∷ bs) ≡ any_gone (as' ++ bs)
any_gone-middle [] bs w h = rw h
any_gone-middle (a ∷ as') bs w h = ap (◌||◌ (is_gone a)) (any_gone-middle as' bs w h)

length-middle :
    (as' bs : List Worker) (w v : Worker) → length (as' ++ w ∷ bs) ≡ length (as' ++ v ∷ bs)
length-middle [] bs w v = refl
length-middle (a ∷ as') bs w v = ap suc (length-middle as' bs w v)

-- A job joins those in hand.
move_in :
    (taken done hand hand' : List Job) (job : Job)
    → Perm taken (done ++ hand)
    → Perm hand' (job ∷ hand)
    → Perm (taken ++ job ∷ []) ((done ++ []) ++ hand')
move_in taken done hand hand' job old new =
    let last : Perm (hand ++ job ∷ []) (job ∷ hand) =
      subst (λ l. Perm (hand ++ job ∷ []) (job ∷ l)) (append-nil hand) (perm_middle hand []) in
    rw append-nil (
      Perm.trans (Perm.append_right (job ∷ []) old)
        (rw append_assoc (Perm.append_left done (Perm.trans last (Perm.symm new)))))

-- A job leaves those in hand.
move_out :
    (taken done hand hand' : List Job) (job : Job)
    → Perm taken (done ++ hand')
    → Perm hand' (job ∷ hand)
    → Perm taken ((done ++ job ∷ []) ++ hand)
move_out taken done hand hand' job old new =
    rw append_assoc (Perm.trans old (Perm.append_left done new))

module _ (p : Pool) (v : IsPool p) where
  taken-IsPool :
      (as' bs : List Worker) (job : Job) (rest : List Job)
      → p.workers ≡ as' ++ waiting ∷ bs
      → p.history.engine.queue ≡ job ∷ rest
      → let h = p.history in
        IsPool (
          after_turn p (
            record h { engine = record h.engine { queue = rest }; taken = h.taken ++ job ∷ [] },
            as' ++ busy job ∷ bs,
            [],
          ))
  taken-IsPool as' bs job rest e q = record {
    fifo = record {
      order =
          v.fifo.order
          ∙ ap (◌++◌ p.history.taken) q
          ∙ sym (append_assoc p.history.taken (job ∷ []) rest);
      bounded = omega (arith, v.fifo.bounded, ap length q);
    };
    once =
        move_in p.history.taken p.handled _ _ job
          (subst (λ ws. Perm p.history.taken (p.handled ++ in_hand ws)) e v.once)
          (in_hand-busy as' bs job);
    staffed = length-middle as' bs (busy job) waiting ∙ sym (ap length e) ∙ v.staffed;
    manned = v.manned;
    drained = λ g.
        let (c, none_left) = v.drained (
          ap any_gone e
          ∙ any_gone-middle as' bs waiting refl
          ∙ sym (any_gone-middle as' bs (busy job) refl)
          ∙ g) in
        cc;
  }

  ended-IsPool :
      (as' bs : List Worker) (job : Job)
      → p.workers ≡ as' ++ busy job ∷ bs
      → IsPool (after_turn p (p.history, as' ++ waiting ∷ bs, job ∷ []))
  ended-IsPool as' bs job e = record {
    fifo = v.fifo;
    once =
        move_out p.history.taken p.handled _ _ job
          (subst (λ ws. Perm p.history.taken (p.handled ++ in_hand ws)) e v.once)
          (in_hand-busy as' bs job);
    staffed = length-middle as' bs waiting (busy job) ∙ sym (ap length e) ∙ v.staffed;
    manned = v.manned;
    drained = λ g. v.drained (
        ap any_gone e
        ∙ any_gone-middle as' bs (busy job) refl
        ∙ sym (any_gone-middle as' bs waiting refl)
        ∙ g);
  }

  left-IsPool :
      (as' bs : List Worker)
      → p.workers ≡ as' ++ waiting ∷ bs
      → p.history.engine.queue ≡ []
      → p.history.engine.closed ≡ true
      → IsPool (after_turn p (p.history, as' ++ gone ∷ bs, []))
  left-IsPool as' bs e q c = record {
    fifo = v.fifo;
    once = rw (append-nil p.handled) (
        subst (λ l. Perm p.history.taken (p.handled ++ l))
          (ap in_hand e ∙ in_hand-append as' (waiting ∷ bs) ∙ sym (in_hand-append as' (gone ∷ bs)))
          v.once);
    staffed = length-middle as' bs gone waiting ∙ sym (ap length e) ∙ v.staffed;
    manned = v.manned;
    drained = λ g. (c, q);
  }

  kept-IsPool : IsPool (after_turn p (p.history, p.workers, []))
  kept-IsPool = rw (append-nil p.handled) (record {
    fifo = v.fifo;
    once = v.once;
    staffed = v.staffed;
    manned = v.manned;
    drained = v.drained;
  })

  turned-IsPool :
      (i : ℕ) (r : History × List Worker × List Job)
      → Turning i p.workers p.history r
      → IsPool (after_turn p r)
  turned-IsPool i r (taking as' bs job rest e q s) = rw s (taken-IsPool as' bs job rest e q)
  turned-IsPool i r (idling o s) = rw s kept-IsPool
  turned-IsPool i r (leaving as' bs e q c s) = rw s (left-IsPool as' bs e q c)
  turned-IsPool i r (ending as' bs job e s) = rw s (ended-IsPool as' bs job e)
  turned-IsPool i r (absent g s) = rw s kept-IsPool

  pub work-IsPool : (i : ℕ) → IsPool (work i p)
  unfolding work
  work-IsPool i = turned-IsPool i _ (turn_of-Turning i p.workers p.history)

start_workers_idle :
    (n : ℕ)
    → (length (start_workers n) ≡ n)
      × (in_hand (start_workers n) ≡ [])
      × (any_gone (start_workers n) ≡ false)
unfolding start_workers
start_workers_idle zero = (refl, refl, refl)
start_workers_idle (suc n) = let (l, j, g) = start_workers_idle n in (ap suc l, j, g)

pub start-IsPool : (e : Engine) → e.queue ≡ [] → 0 < e.workers → IsPool (start e)
unfolding start
start-IsPool e empty manned =
    let (l, j, g) = start_workers_idle e.workers in
    record {
      fifo = record { order = sym empty; bounded = rw empty (omega arith) };
      once = rw j Perm.nil;
      staffed = l;
      manned = manned;
      drained = λ h. cc (g, h);
    }
