-- ===== src/Replication/Queue.antt =====
-- The channel of internal/replication/replication.go as a bounded first-in first-out queue.
use p2p_container_distributi.Prelude.{
  ◌≤◌, ◌≡◌, refl, sym, ap, ◌∙◌, List, [], ◌∷◌, ◌++◌, arith, Bytes, length, length-append,
  Bool-cases, inl, inr, append_assoc,
}
use p2p_container_distributi.Replication.{
  Job, Engine, queue_capacity, Sent, sent, waits, panics, enqueue, Received, received, idle, ended,
  receive, stop,
}

-- What producers, workers and the shutdown do to the channel, in the order in which it happens.
pub data Action : Type 0 where
  sends : Bytes → Bytes → Action
  takes closes : Action

-- The engine, the jobs that were accepted and those that workers got.
pub record History : Type 0 where
  pub engine : Engine
  pub accepted : List Job
  pub taken : List Job

abbrev pub after_send : Bytes → Bytes → History → Sent → History
after_send id content h (sent e) = record h {
  engine = e;
  accepted = h.accepted ++ record { chunk_id = id; content = content } ∷ [];
}
after_send id content h waits = h
after_send id content h panics = h

abbrev pub after_receive : History → Received → History
after_receive h (received job e) = record h { engine = e; taken = h.taken ++ job ∷ [] }
after_receive h idle = h
after_receive h ended = h

pub act : Action → History → History
act (sends id content) h = after_send id content h (enqueue id content h.engine)
act takes h = after_receive h (receive h.engine)
act closes h = record h { engine = stop h.engine }

unfoldable pub act_all : List Action → History → History
unfolding act
act_all [] h = h
act_all (a ∷ as') h = act_all as' (act a h)

-- Every accepted job was taken or waits, in the order of acceptance, and the queue is within its
-- capacity.
pub record IsFifo (h : History) : Type 0 where
  pub order : h.accepted ≡ h.taken ++ h.engine.queue
  pub bounded : length h.engine.queue ≤ queue_capacity

pub send-IsFifo : (id content : Bytes) (h : History) → IsFifo h → IsFifo (act (sends id content) h)
unfolding act enqueue
send-IsFifo id content h v =
    let job : Job = record { chunk_id = id; content = content } in
    ground (
      arith,
      append_assoc h.taken h.engine.queue (job ∷ []),
      length-append h.engine.queue (job ∷ []),
    )

pub receive-IsFifo :
    (h : History) (q : List Job) → h.engine.queue ≡ q → IsFifo h → IsFifo (act takes h)
unfolding act receive
receive-IsFifo h [] e v = elim (Bool-cases h.engine.closed) [
  | inl shut ↦ simp (e, receive, shut) v
  | inr open_ ↦ simp (e, receive, open_) v
]
receive-IsFifo h (job ∷ rest) e v =
    simp (e, receive)
      (record {
        order = v.order ∙ ap (◌++◌ h.taken) e ∙ sym (append_assoc h.taken (job ∷ []) rest);
        bounded = omega (arith, v.bounded, ap length e);
      })

-- Whatever producers, workers and the shutdown do, the accepted jobs stay the jobs that workers
-- took followed by those that wait, in the order of acceptance, and the queue stays within its
-- capacity.
pub act_all-IsFifo : (as' : List Action) (h : History) → IsFifo h → IsFifo (act_all as' h)
unfolding act_all
act_all-IsFifo [] h v = v
act_all-IsFifo (sends id content ∷ as') h v = act_all-IsFifo as' _ (send-IsFifo id content h v)
act_all-IsFifo (takes ∷ as') h v = act_all-IsFifo as' _ (receive-IsFifo h h.engine.queue refl v)
act_all-IsFifo (closes ∷ as') h v = act_all-IsFifo as' _ (closed v)
  where
    closed : IsFifo h → IsFifo (act closes h)
    closed v = unfold act stop in record { order = v.order; bounded = v.bounded }
