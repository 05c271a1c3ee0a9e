-- ===== src/Exchange/Delivery.antt =====
-- A push that internal/replication/replication.go counts as delivered leaves the chunk in the store
-- of the peer, whatever was lost on the way.
use p2p_container_distributi.Prelude.{
  ℕ, zero, suc, ◌/◌, ◌≡◌, refl, sym, subst, Bool, true, false, ◌&&◌, ◌||◌, List, [], ◌∷◌, Bytes,
  bytes_eq, ◌==◌, ==_iff, eqb, Option, none, some, Option-cases, Bool-cases, inl, inr,
}
use p2p_container_distributi.Errors.{ok}
use p2p_container_distributi.Storage.{Backend, StoreLaws}
use p2p_container_distributi.Chunk.{verify}
use p2p_container_distributi.Replication.{
  Job, Engine, Pushed, Outcome, delivered, cancelled, gave_up, push_chunk,
}
use p2p_container_distributi.Replication.Retry.{push_with_retry-success}
use p2p_container_distributi.Api.{Server, handle_put_chunk}
use p2p_container_distributi.Exchange.{
  Fate, answered, cut, lost, unanswered, World, replace, send_put, after, attempt, push, push_each,
}

abbrev is_delivered : Outcome → Bool
is_delivered delivered = true
is_delivered _ = false

-- Whether the pushes of a job report that the node took the chunk.
abbrev pub delivered_to : Bytes → List (Bytes × Pushed) → Bool
delivered_to node_id [] = false
delivered_to node_id ((n, p) ∷ ps) =
    (n == node_id && is_delivered p.outcome) || delivered_to node_id ps

both_true : (a b : Bool) → (a && b) ≡ true → (a ≡ true) × (b ≡ true)
both_true true true h = (refl, refl)
both_true true false h = cc h
both_true false b h = cc h

is_delivered_iff : (o : Outcome) → is_delivered o ≡ true → o ≡ delivered
is_delivered_iff delivered h = refl
is_delivered_iff cancelled h = cc h
is_delivered_iff (gave_up e) h = cc h

module _ {S : Type 0} (store : Backend S) (laws : StoreLaws store) (sha256 : Bytes → Bytes)
    (job : Job)
    (again : (s : S)
      → store.get job.chunk_id s ≡ ok job.content
      → store.get job.chunk_id (store.put job.chunk_id job.content s).1 ≡ ok job.content) where
  -- The node at the address has the chunk.
  abbrev pub Has : Bytes → World S → Type 0
  Has addr w = store.get job.chunk_id (w addr).local ≡ ok job.content

  -- A write that the handler answers with success.
  handled :
      (s : Server S)
      → eqb ((handle_put_chunk store sha256 job.chunk_id (ok job.content) s).0.status / 100) 2
        ≡ true
      → store.get job.chunk_id
          (handle_put_chunk store sha256 job.chunk_id (ok job.content) s).1.local
        ≡ ok job.content
  unfolding handle_put_chunk
  handled s good = elim (Bool-cases (verify sha256 job.chunk_id job.content)) [
    | inr bad ↦ cc (rw (bad, handle_put_chunk) at good)
    | inl match ↦ elim (Option-cases (store.put job.chunk_id job.content s.local).0) [
      | inr (e, failed) ↦ cc (rw (match, handle_put_chunk, failed) at good)
      | inl fine ↦ rw (match, fine) (laws.put_self job.chunk_id job.content s.local fine)
    ]
  ]

  handled_again :
      (s : Server S)
      → store.get job.chunk_id s.local ≡ ok job.content
      → store.get job.chunk_id
          (handle_put_chunk store sha256 job.chunk_id (ok job.content) s).1.local
        ≡ ok job.content
  unfolding handle_put_chunk
  handled_again s had = elim (Bool-cases (verify sha256 job.chunk_id job.content)) [
    | inr bad ↦ rw bad had
    | inl match ↦ elim (Option-cases (store.put job.chunk_id job.content s.local).0) [
      | inr (e, failed) ↦ rw (match, failed) (again s.local had)
      | inl fine ↦ rw (match, fine) (again s.local had)
    ]
  ]

  -- A node is replaced by one that has the chunk if it had it.
  replace-Has :
      (addr a : Bytes) (s : Server S) (w : World S)
      → (Has addr w → store.get job.chunk_id s.local ≡ ok job.content)
      → Has a w
      → Has a (replace addr s w)
  replace-Has addr a s w keeps had = elim (Bool-cases (a == addr)) [
    | inl here ↦ rw here (keeps (subst (λ b. Has b w) ((==_iff a addr).0 here) had))
    | inr apart ↦ rw apart had
  ]

  send_put-Has :
      (f : Fate) (addr a : Bytes) (w : World S)
      → Has a w
      → Has a (send_put store sha256 f addr job w).1
  unfolding send_put handle_put_chunk
  send_put-Has answered addr a w had =
      replace-Has addr a (handle_put_chunk store sha256 job.chunk_id (ok job.content) (w addr)).1 w
        (handled_again (w addr)) had
  send_put-Has (cut e) addr a w had = replace-Has addr a (w addr) w (λ h. h) had
  send_put-Has lost addr a w had = had
  send_put-Has unanswered addr a w had =
      replace-Has addr a (handle_put_chunk store sha256 job.chunk_id (ok job.content) (w addr)).1 w
        (handled_again (w addr)) had

  taken : (code : ℕ) → push_chunk (ok code) ≡ none → eqb (code / 100) 2 ≡ true
  unfolding push_chunk
  taken code h = elim (Bool-cases (eqb (code / 100) 2)) [
    | inl good ↦ good
    | inr bad ↦ cc (rw (bad, push_chunk) at h)
  ]

  -- An attempt that the sender counts as taken.
  send_put-taken :
      (f : Fate) (addr : Bytes) (w : World S)
      → push_chunk (send_put store sha256 f addr job w).0 ≡ none
      → Has addr (send_put store sha256 f addr job w).1
  unfolding send_put push_chunk handle_put_chunk
  send_put-taken answered addr w h = rw ((==_iff addr addr).1 refl) (handled (w addr) (taken _ h))
  send_put-taken (cut e) addr w h = cc h
  send_put-taken lost addr w h = cc h
  send_put-taken unanswered addr w h = cc h

  after-Has :
      (fates : ℕ → Fate) (addr a : Bytes) (w : World S) (k : ℕ)
      → Has a w
      → Has a (after store sha256 fates addr job w k)
  unfolding after
  after-Has fates addr a w zero had = had
  after-Has fates addr a w (suc k) had =
      send_put-Has (fates k) addr a (after store sha256 fates addr job w k)
        (after-Has fates addr a w k had)

  -- Whatever becomes of the requests and the answers, a push that is counted as delivered leaves
  -- the chunk, with its content, in the store of the peer.
  pub push-Has :
      (e : Engine) (fates : ℕ → Fate) (done : ℕ → Bool) (addr : Bytes) (w : World S)
      → (push store sha256 e fates done addr job w).0.outcome ≡ delivered
      → Has addr (push store sha256 e fates done addr job w).1
  unfolding push attempt
  push-Has e fates done addr w h =
      let (k, attempts, good) =
        push_with_retry-success e (attempt store sha256 fates addr job w) done h in
      subst (λ n. Has addr (after store sha256 fates addr job w n)) (sym attempts)
        (unfold after in send_put-taken (fates k) addr (after store sha256 fates addr job w k) good)

  pub push-keeps :
      (e : Engine) (fates : ℕ → Fate) (done : ℕ → Bool) (addr a : Bytes) (w : World S)
      → Has a w
      → Has a (push store sha256 e fates done addr job w).1
  unfolding push
  push-keeps e fates done addr a w had = after-Has fates addr a w _ had

  pub push_each-keeps :
      (e : Engine) (addr_for : Bytes → Option Bytes) (fates : Bytes → ℕ → Fate)
      (done : Bytes → ℕ → Bool) (targets : List Bytes) (a : Bytes) (w : World S)
      → Has a w
      → Has a (push_each store sha256 e addr_for fates done job targets w).1
  unfolding push_each
  push_each-keeps e addr_for fates done [] a w had = had
  push_each-keeps e addr_for fates done (node ∷ targets) a w had =
      elim (Bool-cases (node == e.self_id)) [
        | inl own ↦ rw own (push_each-keeps e addr_for fates done targets a w had)
        | inr foreign ↦ elim (Option-cases (addr_for node)) [
          | inl unknown ↦
              rw (foreign, unknown, push_each)
                (push_each-keeps e addr_for fates done targets a w had)
          | inr (addr, known) ↦
              rw (foreign, known, push_each)
                (push_each-keeps e addr_for fates done targets a _
                  (push-keeps e (fates node) (done node) addr a w had))
        ]
      ]

  -- Over a store that keeps what it is given, also where it is written again, and whatever becomes
  -- of the requests and the answers: each target that the pushes of a job report as delivered has
  -- the chunk, with its content, at the end, at the address that it had for the sender.
  pub push_each-Has :
      (e : Engine) (addr_for : Bytes → Option Bytes) (fates : Bytes → ℕ → Fate)
      (done : Bytes → ℕ → Bool) (targets : List Bytes) (w : World S) (node_id a : Bytes)
      → addr_for node_id ≡ some a
      → delivered_to node_id (push_each store sha256 e addr_for fates done job targets w).0 ≡ true
      → Has a (push_each store sha256 e addr_for fates done job targets w).1
  unfolding push_each
  push_each-Has e addr_for fates done [] w node_id a known h = cc h
  push_each-Has e addr_for fates done (node ∷ targets) w node_id a known h =
      elim (Bool-cases (node == e.self_id)) [
        | inl own ↦
            rw own (push_each-Has e addr_for fates done targets w node_id a known (rw own at h))
        | inr foreign ↦ elim (Option-cases (addr_for node)) [
          | inl unknown ↦
              rw (foreign, unknown, push_each)
                (push_each-Has e addr_for fates done targets w node_id a known
                  (rw (foreign, unknown, push_each) at h))
          | inr (addr, found) ↦
              let w1 = (push store sha256 e (fates node) (done node) addr job w).1 in
              let p = (push store sha256 e (fates node) (done node) addr job w).0 in
              let h' = rw (foreign, found, push_each) at h in
              rw (foreign, found, push_each)
                (elim (Bool-cases (node == node_id && is_delivered p.outcome)) [
                  | inl here ↦
                      let (same, taken_here) =
                        both_true (node == node_id) (is_delivered p.outcome) here in
                      let e_node : node ≡ node_id = (==_iff node node_id).0 same in
                      let at : addr ≡ a = cc (found, known, e_node) in
                      push_each-keeps e addr_for fates done targets a w1 (
                        subst (λ b. Has b w1) at
                          (push-Has e (fates node) (done node) addr w
                            (is_delivered_iff p.outcome taken_here)))
                  | inr later ↦
                      push_each-Has e addr_for fates done targets w1 node_id a known
                        (rw later at h')
                ])
        ]
      ]
