-- ===== src/Node/Lifetime/Stages.antt =====
-- What the stages of `main` in cmd/node/main.go keep, beside everything that runs with it.
use mathlib.Core.Option.{some-injective}
use p2p_container_distributi.Prelude.{
  ℕ, ◌≡◌, refl, sym, ap, ◌∙◌, subst, Bool, true, false, List, [], ◌∷◌, Bytes, Bool-cases, inl, inr,
  Option, none, some, Option-cases, arith, if◌then◌else◌, ◌&&◌, not,
}
use p2p_container_distributi.Prelude.Int.{ℤ}
use p2p_container_distributi.Replication.{new_engine}
use p2p_container_distributi.Replication.Pool.{Pool, start, Event, enqueues, works, stops, event}
use p2p_container_distributi.Replication.Pool.Account.{IsPool, start-IsPool}
use p2p_container_distributi.Replication.Pool.Runs.{event-IsPool}
use p2p_container_distributi.Replication.Pool.Orderly.{event_shut, event_stops, enqueue_open}
use p2p_container_distributi.Replication.Pool.Turns.{work-fixed}
use p2p_container_distributi.Replication.Pool.Drain.{all_gone, engine-manned}
use p2p_container_distributi.Node.Lifetime.{
  Stage, awaits_signal, shuts_server, stops_membership, cancels, stops_engine, awaits_workers,
  exited, Life, begin, with_pool, proceed, has_exited, to_wait, Moment, signal, main, listen_fails,
  fatal, is_over, chunk, worker, happens, moment, moments,
}

-- The queue is closed.
abbrev pub is_stopped : Stage → Bool
is_stopped awaits_workers = true
is_stopped exited = true
is_stopped _ = false

-- What each statement has done is done from then on.
abbrev pub serves : Stage → Bool
serves awaits_signal = true
serves shuts_server = true
serves _ = false

abbrev pub beats : Stage → Bool
beats stops_membership = true
beats awaits_signal = true
beats shuts_server = true
beats _ = false

abbrev pub cancelled_at : Stage → Bool
cancelled_at stops_engine = true
cancelled_at awaits_workers = true
cancelled_at exited = true
cancelled_at _ = false

pub record IsLife (l : Life) : Type 0 where
  pub counted : IsPool l.pool
  pub closed : l.pool.history.engine.closed ≡ is_stopped l.stage
  pub ended : has_exited l.stage ≡ true → all_gone l.pool.workers ≡ true
  pub serving : l.serving ≡ (serves l.stage && not l.listen_failed)
  pub beating : l.beating ≡ beats l.stage
  pub cancelled : l.cancelled ≡ cancelled_at l.stage
  pub fatal : l.died ≡ true → l.listen_failed ≡ true

with_pool-inv :
    (l l' : Life) (o : Option Pool)
    → with_pool l o ≡ some l'
    → (p : Pool) × (o ≡ some p) × (record l { pool = p } ≡ l')
with_pool-inv l l' none h = cc h
with_pool-inv l l' (some p) h = (p, refl, some-injective _ _ h)

enqueues-closed :
    (id content : Bytes) (p p' : Pool)
    → event (enqueues id content) p ≡ some p'
    → p'.history.engine.closed ≡ p.history.engine.closed
enqueues-closed id content p p' h = elim (Bool-cases p.history.engine.closed) [
  | inl shut ↦ cc (event_shut (enqueues id content) p shut refl, h)
  | inr on ↦
      let (q, went, open_) = enqueue_open id content p on in
      ap (λ (r : Pool). r.history.engine.closed) (sym (some-injective _ _ (sym went ∙ h)))
      ∙ open_
      ∙ sym on
]

works-closed :
    (i : ℕ) (p p' : Pool)
    → event (works i) p ≡ some p'
    → p'.history.engine.closed ≡ p.history.engine.closed
unfolding event
works-closed i p p' h =
    ap (λ (r : Pool). r.history.engine.closed) (sym (some-injective _ _ h)) ∙ (work-fixed i p).0

module _ (l : Life) (v : IsLife l) (on : has_exited l.stage ≡ false) where
  abbrev serves_at : Stage → Bool
  serves_at s = serves s && not l.listen_failed

  same_stage-IsLife :
      (e : Event) (p : Pool)
      → event e l.pool ≡ some p
      → p.history.engine.closed ≡ l.pool.history.engine.closed
      → IsLife (record l { pool = p })
  same_stage-IsLife e p went same = record {
    counted = event-IsPool l.pool v.counted e p went;
    closed = same ∙ v.closed;
    ended = λ x. cc (on, x);
    serving = v.serving;
    beating = v.beating;
    cancelled = v.cancelled;
    fatal = v.fatal;
  }

  -- `main` has come to another stage on the same side of the close of the queue.
  staged-IsLife :
      (to_ : Stage) (serving beating cancelled : Bool)
      → is_stopped l.stage ≡ is_stopped to_
      → (has_exited to_ ≡ true → all_gone l.pool.workers ≡ true)
      → serving ≡ (serves to_ && not l.listen_failed)
      → beating ≡ beats to_
      → cancelled ≡ cancelled_at to_
      → IsLife
          (record l { stage = to_; serving = serving; beating = beating; cancelled = cancelled })
  staged-IsLife to_ serving beating cancelled same gone_ s b c = record {
    counted = v.counted;
    closed = v.closed ∙ same;
    ended = gone_;
    serving = s;
    beating = b;
    cancelled = c;
    fatal = v.fatal;
  }

  stops-IsLife : (l' : Life) → l.stage ≡ stops_engine → proceed stops_engine l ≡ some l' → IsLife l'
  unfolding proceed
  stops-IsLife l' at h =
      let open_ : l.pool.history.engine.closed ≡ false = v.closed ∙ ap is_stopped at in
      let p : Pool = record l.pool {
        history = record l.pool.history { engine = record l.pool.history.engine { closed = true } };
      } in
      let went : event stops l.pool ≡ some p = event_stops l.pool open_ in
      let to : to_wait (with_pool l (event stops l.pool))
          ≡ some (record l { stage = awaits_workers; pool = p }) =
        ap (λ o. to_wait (with_pool l o)) went in
      subst IsLife (some-injective _ _ (sym to ∙ h)) (record {
        counted = event-IsPool l.pool v.counted stops p went;
        closed = refl;
        ended = λ x. cc x;
        serving = v.serving ∙ ap serves_at at;
        beating = v.beating ∙ ap beats at;
        cancelled = v.cancelled ∙ ap cancelled_at at;
        fatal = v.fatal;
      })

  proceed-IsLife : (s : Stage) (l' : Life) → l.stage ≡ s → proceed s l ≡ some l' → IsLife l'
  unfolding proceed
  proceed-IsLife awaits_signal l' at h = elim (Bool-cases l.signalled) [
    | inl came ↦
        let goes : proceed awaits_signal l ≡ some (record l { stage = shuts_server }) =
          ap (λ b. some (if b then record l { stage = shuts_server } else l)) came in
        subst IsLife (some-injective _ _ (sym goes ∙ h)) (
          staged-IsLife shuts_server l.serving l.beating l.cancelled (ap is_stopped at) (λ x. cc x)
            (v.serving ∙ ap serves_at at) (v.beating ∙ ap beats at)
            (v.cancelled ∙ ap cancelled_at at))
    | inr wait ↦
        let stays : proceed awaits_signal l ≡ some l =
          ap (λ b. some (if b then record l { stage = shuts_server } else l)) wait in
        subst IsLife (some-injective _ _ (sym stays ∙ h)) v
  ]
  proceed-IsLife shuts_server l' at h = subst IsLife (some-injective _ _ h) (
      staged-IsLife stops_membership false l.beating l.cancelled (ap is_stopped at) (λ x. cc x) refl
        (v.beating ∙ ap beats at) (v.cancelled ∙ ap cancelled_at at))
  proceed-IsLife stops_membership l' at h = subst IsLife (some-injective _ _ h) (
      staged-IsLife cancels l.serving false l.cancelled (ap is_stopped at) (λ x. cc x)
        (v.serving ∙ ap serves_at at) refl (v.cancelled ∙ ap cancelled_at at))
  proceed-IsLife cancels l' at h = subst IsLife (some-injective _ _ h) (
      staged-IsLife stops_engine l.serving l.beating true (ap is_stopped at) (λ x. cc x)
        (v.serving ∙ ap serves_at at) (v.beating ∙ ap beats at) refl)
  proceed-IsLife stops_engine l' at h = stops-IsLife l' at h
  proceed-IsLife awaits_workers l' at h = elim (Bool-cases (all_gone l.pool.workers)) [
    | inl gone_ ↦ subst IsLife (some-injective _ _ (rw gone_ at h)) (
        staged-IsLife exited l.serving l.beating l.cancelled (ap is_stopped at) (λ x. gone_)
          (v.serving ∙ ap serves_at at) (v.beating ∙ ap beats at)
          (v.cancelled ∙ ap cancelled_at at))
    | inr some_ ↦
        let stays : proceed awaits_workers l ≡ some l =
          ap (λ b. some (if b then record l { stage = exited } else l)) some_ in
        subst IsLife (some-injective _ _ (sym stays ∙ h)) v
  ]
  proceed-IsLife exited l' at h = cc (ap has_exited at, on)

  happens-IsLife : (m : Moment) (l' : Life) → happens m l ≡ some l' → IsLife l'
  unfolding happens
  happens-IsLife signal l' h = subst IsLife (some-injective _ _ h) (record {
    counted = v.counted;
    closed = v.closed;
    ended = v.ended;
    serving = v.serving;
    beating = v.beating;
    cancelled = v.cancelled;
    fatal = v.fatal;
  })
  happens-IsLife listen_fails l' h = elim (Bool-cases l.serving) [
    | inl up_ ↦
        let goes : happens listen_fails l
            ≡ some (record l { serving = false; listen_failed = true }) =
          ap (λ b. some (if b then record l { serving = false; listen_failed = true } else l))
            up_ in
        subst IsLife (some-injective _ _ (sym goes ∙ h)) (record {
          counted = v.counted;
          closed = v.closed;
          ended = v.ended;
          serving = ground arith;
          beating = v.beating;
          cancelled = v.cancelled;
          fatal = λ x. refl;
        })
    | inr down ↦
        let stays : happens listen_fails l ≡ some l =
          ap (λ b. some (if b then record l { serving = false; listen_failed = true } else l))
            down in
        subst IsLife (some-injective _ _ (sym stays ∙ h)) v
  ]
  happens-IsLife fatal l' h = elim (Bool-cases l.listen_failed) [
    | inl failed ↦
        let goes : happens fatal l ≡ some (record l { died = true }) =
          ap (λ b. some (if b then record l { died = true } else l)) failed in
        subst IsLife (some-injective _ _ (sym goes ∙ h)) (record {
          counted = v.counted;
          closed = v.closed;
          ended = v.ended;
          serving = v.serving;
          beating = v.beating;
          cancelled = v.cancelled;
          fatal = λ x. failed;
        })
    | inr fine_ ↦
        let stays : happens fatal l ≡ some l =
          ap (λ b. some (if b then record l { died = true } else l)) fine_ in
        subst IsLife (some-injective _ _ (sym stays ∙ h)) v
  ]
  happens-IsLife main l' h = proceed-IsLife l.stage l' refl h
  happens-IsLife (chunk id content) l' h =
      let (p, went, e) = with_pool-inv l l' (event (enqueues id content) l.pool) h in
      subst IsLife e
        (same_stage-IsLife (enqueues id content) p went (enqueues-closed id content l.pool p went))
  happens-IsLife (worker i) l' h =
      let (p, went, e) = with_pool-inv l l' (event (works i) l.pool) h in
      subst IsLife e (same_stage-IsLife (works i) p went (works-closed i l.pool p went))

pub runs_on : (l : Life) → is_over l ≡ false → (has_exited l.stage ≡ false) × (l.died ≡ false)
runs_on l h = (ground (arith, h), ground (arith, h))

moment-IsLife : (m : Moment) (l l' : Life) → IsLife l → moment m l ≡ some l' → IsLife l'
unfolding moment
moment-IsLife m l l' v h = elim (Bool-cases (is_over l)) [
  | inl done ↦ subst IsLife (some-injective _ _ (rw done at h)) v
  | inr on ↦ happens-IsLife l v (runs_on l on).0 m l' (rw on at h)
]

pub moments-IsLife :
    (ms : List Moment) (l l' : Life) → IsLife l → moments ms l ≡ some l' → IsLife l'
unfolding moments
moments-IsLife [] l l' v h = subst IsLife (some-injective _ _ h) v
moments-IsLife (m ∷ ms) l l' v h = elim (Option-cases (moment m l)) [
  | inl panic ↦ cc (rw (panic, moments) at h)
  | inr (k, went) ↦ moments-IsLife ms k l' (moment-IsLife m l k v went) (rw (went, moments) at h)
]

pub begin-IsLife : (self_id : Bytes) (workers : ℤ) → IsLife (begin (new_engine self_id workers))
unfolding begin new_engine start
begin-IsLife self_id workers = record {
  counted =
      unfold start in
      start-IsPool (new_engine self_id workers) refl (engine-manned self_id workers);
  closed = refl;
  ended = λ x. cc x;
  serving = refl;
  beating = refl;
  cancelled = refl;
  fatal = λ x. cc x;
}
