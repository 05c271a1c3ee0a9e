-- ===== src/Replication/Pool/Runs.antt =====
-- The accepted jobs of the worker pool of internal/replication/replication.go over its events.

use mathlib.Core.Option.{some-injective}
use p2p_container_distributi.Prelude.{
  ◌≡◌, refl, sym, ap, ◌∙◌, subst, true, false, List, [], ◌∷◌, ◌++◌, arith, Bytes, length,
  length-append, ltb→lt, Bool-cases, Option-cases, inl, inr, append_assoc, some, ltb,
}
use p2p_container_distributi.Replication.{Job, queue_capacity}
use p2p_container_distributi.Replication.Pool.{Pool, Event, enqueues, works, stops, event, events}
use p2p_container_distributi.Replication.Pool.Orderly.{
  event_shut, event_room, event_full, event_stops,
}
use p2p_container_distributi.Replication.Pool.Account.{IsPool, work-IsPool}

module _ (p : Pool) (v : IsPool p) where
  sent-IsPool :
      (job : Job)
      → p.history.engine.closed ≡ false
      → ltb (length p.history.engine.queue) queue_capacity ≡ true
      → let h = p.history in
        IsPool (record p {
          history = record h {
            engine = record h.engine { queue = h.engine.queue ++ job ∷ [] };
            accepted = h.accepted ++ job ∷ [];
          };
        })
  sent-IsPool job on room =
      let q = p.history.engine.queue in
      record {
        fifo = record {
          order = ap (λ l. l ++ job ∷ []) v.fifo.order ∙ append_assoc p.history.taken q (job ∷ []);
          bounded =
              omega (arith, length-append q (job ∷ []), ltb→lt (length q) queue_capacity room);
        };
        once = v.once;
        staffed = v.staffed;
        manned = v.manned;
        drained = λ g. cc (on, (v.drained g).0);
      }

  enqueues-IsPool :
      (id content : Bytes) (p' : Pool) → event (enqueues id content) p ≡ some p' → IsPool p'
  enqueues-IsPool id content p' h =
      let job : Job = record { chunk_id = id; content = content } in
      elim (Bool-cases p.history.engine.closed) [
        | inl shut ↦ cc (event_shut (enqueues id content) p shut refl, h)
        | inr on ↦ elim (Bool-cases (ltb (length p.history.engine.queue) queue_capacity)) [
          | inl room ↦
              subst IsPool (some-injective _ _ (sym (event_room id content p on room) ∙ h))
                (sent-IsPool job on room)
          | inr full ↦
              subst IsPool (some-injective _ _ (sym (event_full id content p on full) ∙ h)) v
        ]
      ]

  stops-IsPool : (p' : Pool) → event stops p ≡ some p' → IsPool p'
  stops-IsPool p' h = elim (Bool-cases p.history.engine.closed) [
    | inl shut ↦ cc (event_shut stops p shut refl, h)
    | inr on ↦ subst IsPool (some-injective _ _ (sym (event_stops p on) ∙ h)) (record {
      fifo = record { order = v.fifo.order; bounded = v.fifo.bounded };
      once = v.once;
      staffed = v.staffed;
      manned = v.manned;
      drained = λ g. cc (on, (v.drained g).0);
    })
  ]

  pub event-IsPool : (e : Event) (p' : Pool) → event e p ≡ some p' → IsPool p'
  event-IsPool (enqueues id content) p' h = enqueues-IsPool id content p' h
  event-IsPool (works i) p' h =
      unfold event in subst IsPool (some-injective _ _ h) (work-IsPool p v i)
  event-IsPool stops p' h = stops-IsPool p' h

pub events-IsPool : (es : List Event) (p p' : Pool) → IsPool p → events es p ≡ some p' → IsPool p'
unfolding events
events-IsPool [] p p' v h = subst IsPool (some-injective _ _ h) v
events-IsPool (e ∷ es) p p' v h = elim (Option-cases (event e p)) [
  | inl panic ↦ cc (simp (panic, events) at h)
  | inr (q, ok_) ↦ events-IsPool es q p' (event-IsPool p v e q ok_) (rw (ok_, events) at h)
]
