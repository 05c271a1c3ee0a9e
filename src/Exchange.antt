-- ===== src/Exchange.antt =====
-- The chunks that nodes send each other: the PushChunk and pushWithRetry of
-- internal/replication/replication.go on one side, handlePutChunk, handleGetChunk and fetchChunk of
-- internal/api/server.go on the other. What becomes of each request is an input.
pub mod Delivery
pub mod Reading
pub mod Survival
pub mod Healing
use p2p_container_distributi.Prelude.{
  ℕ, zero, suc, Bool, true, false, List, [], ◌∷◌, Option, none, some, Bytes, bytes_eq, ◌==◌,
  if◌then◌else◌,
}
use p2p_container_distributi.Prelude.Int.{pos}
use p2p_container_distributi.Errors.{Error, other, Result, ok, err}
use p2p_container_distributi.Storage.{Backend}
use p2p_container_distributi.Ring.{Ring, get_n}
use p2p_container_distributi.Replication.{Job, Engine, Pushed, factor, push_chunk, push_with_retry}
use p2p_container_distributi.Api.{
  Server, Peers, Response, Body, empty, message, failure, manifest, content, handle_put_chunk,
  handle_get_chunk,
}

-- What becomes of a request: the peer handles it and the answer arrives; the peer cannot read the
-- body, and says so; the request does not arrive; the peer handles it, and the answer is lost.
pub data Fate : Type 0 where
  answered : Fate
  cut : Error → Fate
  lost unanswered : Fate

-- The node at each address.
abbrev pub World : Type 0 → Type 0
World S = Bytes → Server S

abbrev pub replace : {S : Type 0} → Bytes → Server S → World S → World S
replace addr s w a = if a == addr then s else w a

-- What a reader of the response gets.
unfoldable pub body_bytes : Body → Bytes
body_bytes (message text) = text
body_bytes (content bs) = bs
body_bytes (failure text e) = text
body_bytes empty = []
body_bytes (manifest m) = []

module _ {S : Type 0} (store : Backend S) (sha256 : Bytes → Bytes) where
  -- A PUT of a chunk: the status that the sender sees, if any, and the nodes after it.
  unfoldable pub send_put : Fate → Bytes → Job → World S → Result ℕ × World S
  send_put answered addr job w =
      let (r, s) = handle_put_chunk store sha256 job.chunk_id (ok job.content) (w addr) in
      (ok r.status, replace addr s w)
  send_put (cut e) addr job w =
      let (r, s) = handle_put_chunk store sha256 job.chunk_id (err e) (w addr) in
      (ok r.status, replace addr s w)
  send_put lost addr job w = (err other, w)
  send_put unanswered addr job w =
      let (r, s) = handle_put_chunk store sha256 job.chunk_id (ok job.content) (w addr) in
      (err other, replace addr s w)

  -- The nodes after the first `k` attempts of a push, and what the attempt `k` gives.
  unfoldable pub after : (ℕ → Fate) → Bytes → Job → World S → ℕ → World S
  after fates addr job w zero = w
  after fates addr job w (suc k) = (send_put (fates k) addr job (after fates addr job w k)).1

  unfoldable pub attempt : (ℕ → Fate) → Bytes → Job → World S → ℕ → Option Error
  attempt fates addr job w k = push_chunk (send_put (fates k) addr job (after fates addr job w k)).0

  -- `pushWithRetry`, with what it does to the nodes.
  unfoldable pub push : Engine → (ℕ → Fate) → (ℕ → Bool) → Bytes → Job → World S → Pushed × World S
  push e fates done addr job w =
      let p = push_with_retry e (attempt fates addr job w) done in
      (p, after fates addr job w p.attempts)

  -- The loop of `replicate` over the targets, with what it does to the nodes.
  unfoldable pub push_each :
      Engine
      → (Bytes → Option Bytes)
      → (Bytes → ℕ → Fate)
      → (Bytes → ℕ → Bool)
      → Job
      → List Bytes
      → World S
      → List (Bytes × Pushed) × World S
  push_each e addr_for fates done job [] w = ([], w)
  push_each e addr_for fates done job (node_id ∷ targets) w =
      if node_id == e.self_id
      then push_each e addr_for fates done job targets w
      else elim (addr_for node_id) [
        | none ↦ push_each e addr_for fates done job targets w
        | some addr ↦
            let (p, w1) = push e (fates node_id) (done node_id) addr job w in
            let (ps, w2) = push_each e addr_for fates done job targets w1 in ((node_id, p) ∷ ps, w2)
      ]

  unfoldable pub replicate_to :
      (Bytes → Bytes)
      → Ring
      → Engine
      → (Bytes → Option Bytes)
      → (Bytes → ℕ → Fate)
      → (Bytes → ℕ → Bool)
      → Job
      → World S
      → List (Bytes × Pushed) × World S
  replicate_to sha1 ring e addr_for fates done job w =
      push_each e addr_for fates done job (get_n sha1 ring job.chunk_id (pos factor)) w

-- The answers of the peers to a reader: those that can be reached.
unfoldable pub peers_of : {S : Type 0} → Backend S → (Bytes → Bool) → World S → Peers
peers_of store reachable w addr chunk_id =
    let r = handle_get_chunk store chunk_id (w addr) in
    if reachable addr then ok (r.status, ok (body_bytes r.body)) else err other
