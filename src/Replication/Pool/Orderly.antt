-- ===== src/Replication/Pool/Orderly.antt =====
-- When a schedule of the worker pool of internal/replication/replication.go panics.
use p2p_container_distributi.Prelude.{
  ◌≡◌, ◌≢◌, ◌↔◌, refl, ◌∙◌, Bool, true, false, ◌&&◌, List, [], ◌∷◌, ◌++◌, arith, Bytes, length,
  Bool-cases, inl, inr, Option, none, some, ltb,
}
use p2p_container_distributi.Replication.{Job, queue_capacity, enqueue, stop}
use p2p_container_distributi.Replication.Pool.Turns.{work-fixed}
use p2p_container_distributi.Replication.Pool.{
  Pool, work, Event, enqueues, works, stops, event, events,
}

abbrev is_works : Event → Bool
is_works (works i) = true
is_works (enqueues id content) = false
is_works stops = false

pub event_shut :
    (e : Event) (p : Pool) → p.history.engine.closed ≡ true → is_works e ≡ false → event e p ≡ none
unfolding event enqueue
event_shut (enqueues id content) p shut w = rw (shut, event, enqueue)
event_shut (works i) p shut w = cc w
event_shut stops p shut w = rw (shut, event)

pub event_room :
    (id content : Bytes) (p : Pool)
    → p.history.engine.closed ≡ false
    → ltb (length p.history.engine.queue) queue_capacity ≡ true
    → let job : Job = record { chunk_id = id; content = content } in
      let h = p.history in
      event (enqueues id content) p
      ≡ some (record p {
        history = record h {
          engine = record h.engine { queue = h.engine.queue ++ job ∷ [] };
          accepted = h.accepted ++ job ∷ [];
        };
      })
unfolding event enqueue
event_room id content p on room = ground arith

pub event_full :
    (id content : Bytes) (p : Pool)
    → p.history.engine.closed ≡ false
    → ltb (length p.history.engine.queue) queue_capacity ≡ false
    → event (enqueues id content) p ≡ some p
unfolding event enqueue
event_full id content p on full = ground arith

pub event_stops :
    (p : Pool)
    → p.history.engine.closed ≡ false
    → event stops p
      ≡ some (record p {
        history = record p.history { engine = record p.history.engine { closed = true } };
      })
unfolding event stop
event_stops p on = ground arith

abbrev only_works : List Event → Bool
only_works [] = true
only_works (e ∷ es) = is_works e && only_works es

-- Nothing is enqueued or stopped after the first stop.
abbrev pub orderly : List Event → Bool
orderly [] = true
orderly (enqueues id content ∷ es) = orderly es
orderly (works i ∷ es) = orderly es
orderly (stops ∷ es) = only_works es

both_iff :
    {A : Type 0} (b : Bool) (o : Option A)
    → (b ≡ true → o ≢ none)
    → (b ≡ false → o ≡ none)
    → (o ≡ none) ↔ (b ≡ false)
both_iff true o l r = ((λ e. absurd (l refl e)), (λ e. cc e))
both_iff false o l r = ((λ e. refl), (λ e. r refl))

pub enqueue_open :
    (id content : Bytes) (p : Pool)
    → p.history.engine.closed ≡ false
    → (p' : Pool) × (event (enqueues id content) p ≡ some p') × (p'.history.engine.closed ≡ false)
enqueue_open id content p on =
    elim (Bool-cases (ltb (length p.history.engine.queue) queue_capacity)) [
      | inl room ↦ (_, event_room id content p on room, on)
      | inr full ↦ (p, event_full id content p on full, on)
    ]

shut_events :
    (es : List Event) (p : Pool)
    → p.history.engine.closed ≡ true
    → (only_works es ≡ true → events es p ≢ none) × (only_works es ≡ false → events es p ≡ none)
unfolding events
shut_events [] p shut = ((λ e h. cc h), (λ e. cc e))
shut_events (works i ∷ es) p shut =
    unfold event in shut_events es (work i p) ((work-fixed i p).0 ∙ shut)
shut_events (enqueues id content ∷ es) p shut =
    ((λ e. cc e), (λ e. rw (event_shut (enqueues id content) p shut refl, events)))
shut_events (stops ∷ es) p shut = ((λ e. cc e), (λ e. rw (event_shut stops p shut refl, events)))

open_events :
    (es : List Event) (p : Pool)
    → p.history.engine.closed ≡ false
    → (orderly es ≡ true → events es p ≢ none) × (orderly es ≡ false → events es p ≡ none)
unfolding events
open_events [] p on = ((λ e h. cc h), (λ e. cc e))
open_events (works i ∷ es) p on =
    unfold event in open_events es (work i p) ((work-fixed i p).0 ∙ on)
open_events (enqueues id content ∷ es) p on =
    let (p', went, on') = enqueue_open id content p on in rw (went, events) (open_events es p' on')
open_events (stops ∷ es) p on = rw (event_stops p on, events) (shut_events es _ refl)

-- From an open queue, a schedule of the pool panics exactly when a chunk is enqueued, or the engine
-- stopped again, after a Stop.
pub events-panics :
    (es : List Event) (p : Pool)
    → p.history.engine.closed ≡ false
    → (events es p ≡ none) ↔ (orderly es ≡ false)
events-panics es p on = let (l, r) = open_events es p on in both_iff (orderly es) (events es p) l r
