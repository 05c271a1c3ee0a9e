-- ===== src/Exchange/Survival.antt =====
-- From a push to a later read, across the nodes of a cluster.
use p2p_container_distributi.Prelude.{
  ℕ, zero, suc, ◌≡◌, refl, Bool, true, false, List, [], ◌∷◌, Bytes, bytes_eq, ◌==◌, contains,
  Option, some, Option-cases, Bool-cases, inl, inr,
}
use p2p_container_distributi.Prelude.Int.{pos}
use p2p_container_distributi.Errors.{Result, ok, err}
use p2p_container_distributi.Storage.{Backend, StoreLaws}
use p2p_container_distributi.Chunk.{chunk_id}
use p2p_container_distributi.Ring.{Ring, get_n}
use p2p_container_distributi.Replication.{Job, Engine, factor}
use p2p_container_distributi.Api.{Server, fetch_chunk}
use p2p_container_distributi.Api.Content.{IsAddressed, handle_put_chunk-IsAddressed}
use p2p_container_distributi.Exchange.{
  Fate, answered, cut, lost, unanswered, World, replace, send_put, after, push, push_each,
  replicate_to, peers_of,
}
use p2p_container_distributi.Exchange.Delivery.{delivered_to, push_each-Has}
use p2p_container_distributi.Exchange.Reading.{fetch_chunk-reads}

module _ {S : Type 0} (store : Backend S) (laws : StoreLaws store) (sha256 : Bytes → Bytes)
    (job : Job) where
  -- Every node keeps its content under its own hash.
  abbrev pub AllAddressed : World S → Type 0
  AllAddressed w = (a : Bytes) → IsAddressed store laws sha256 (w a).local

  replace-AllAddressed :
      (addr : Bytes) (s : Server S) (w : World S)
      → IsAddressed store laws sha256 s.local
      → AllAddressed w
      → AllAddressed (replace addr s w)
  replace-AllAddressed addr s w new v a = elim (Bool-cases (a == addr)) [
    | inl here ↦ rw here new
    | inr apart ↦ rw apart (v a)
  ]

  send_put-AllAddressed :
      (f : Fate) (addr : Bytes) (w : World S)
      → AllAddressed w
      → AllAddressed (send_put store sha256 f addr job w).1
  unfolding send_put
  send_put-AllAddressed answered addr w v =
      replace-AllAddressed addr _ w
        (handle_put_chunk-IsAddressed store laws sha256 job.chunk_id (ok job.content) (w addr)
          (v addr))
        v
  send_put-AllAddressed (cut e) addr w v =
      replace-AllAddressed addr _ w
        (handle_put_chunk-IsAddressed store laws sha256 job.chunk_id (err e) (w addr) (v addr)) v
  send_put-AllAddressed lost addr w v = v
  send_put-AllAddressed unanswered addr w v =
      replace-AllAddressed addr _ w
        (handle_put_chunk-IsAddressed store laws sha256 job.chunk_id (ok job.content) (w addr)
          (v addr))
        v

  after-AllAddressed :
      (fates : ℕ → Fate) (addr : Bytes) (w : World S) (k : ℕ)
      → AllAddressed w
      → AllAddressed (after store sha256 fates addr job w k)
  unfolding after
  after-AllAddressed fates addr w zero v = v
  after-AllAddressed fates addr w (suc k) v =
      send_put-AllAddressed (fates k) addr (after store sha256 fates addr job w k)
        (after-AllAddressed fates addr w k v)

  push_each-AllAddressed :
      (e : Engine) (addr_for : Bytes → Option Bytes) (fates : Bytes → ℕ → Fate)
      (done : Bytes → ℕ → Bool) (targets : List Bytes) (w : World S)
      → AllAddressed w
      → AllAddressed (push_each store sha256 e addr_for fates done job targets w).1
  unfolding push_each push
  push_each-AllAddressed e addr_for fates done [] w v = v
  push_each-AllAddressed e addr_for fates done (node ∷ targets) w v =
      elim (Bool-cases (node == e.self_id)) [
        | inl own ↦ rw own (push_each-AllAddressed e addr_for fates done targets w v)
        | inr foreign ↦ elim (Option-cases (addr_for node)) [
          | inl unknown ↦
              rw (foreign, unknown, push_each)
                (push_each-AllAddressed e addr_for fates done targets w v)
          | inr (addr, known) ↦
              rw (foreign, known, push_each)
                (push_each-AllAddressed e addr_for fates done targets _
                  (after-AllAddressed (fates node) addr w _ v))
        ]
      ]

  -- Over a store that keeps what it is given and nothing else, also where it is written again, and
  -- where every node keeps its content under its own hash: if a sender pushes a chunk to its
  -- replicas, whatever becomes of the requests and the answers, and counts the push to one of them
  -- as delivered, then any other node that has this replica on its own ring for the chunk, at the
  -- same address, reachable, can fetch the chunk afterwards, and the bytes have the chunk's hash.
  pub replicate-fetch :
      (sha1 : Bytes → Bytes) (ring ring' : Ring) (e : Engine) (addr_for addr : Bytes → Option Bytes)
      (fates : Bytes → ℕ → Fate) (done : Bytes → ℕ → Bool) (w : World S) (node_id a : Bytes)
      (reachable : Bytes → Bool) (cold : Option (Bytes → Result Bytes)) (s : Server S)
      → ((t : S)
          → store.get job.chunk_id t ≡ ok job.content
          → store.get job.chunk_id (store.put job.chunk_id job.content t).1 ≡ ok job.content)
      → AllAddressed w
      → IsAddressed store laws sha256 s.local
      → addr_for node_id ≡ some a
      → delivered_to node_id (replicate_to store sha256 sha1 ring e addr_for fates done job w).0
        ≡ true
      → contains (get_n sha1 ring' job.chunk_id (pos factor)) node_id ≡ true
      → (node_id == s.self_id) ≡ false
      → addr node_id ≡ some a
      → reachable a ≡ true
      → let w' = (replicate_to store sha256 sha1 ring e addr_for fates done job w).1 in
        let replicas = get_n sha1 ring' job.chunk_id (pos factor) in
        (cs : Bytes) × (fetch_chunk store replicas addr
            (peers_of store reachable w')
            cold
            s
            job.chunk_id
          ≡ ok cs)
        × (chunk_id sha256 cs ≡ job.chunk_id)
  unfolding replicate_to
  replicate-fetch sha1 ring ring' e addr_for addr fates done w node_id a reachable cold s again v u
        sent took replica foreign known up =
      let targets = get_n sha1 ring job.chunk_id (pos factor) in
      fetch_chunk-reads store laws sha256 reachable
        (push_each store sha256 e addr_for fates done job targets w).1
        (push_each-AllAddressed e addr_for fates done targets w v) s.self_id addr job.chunk_id
        node_id a job.content foreign known up
        (push_each-Has store laws sha256 job again e addr_for fates done targets w node_id a sent
          took)
        (get_n sha1 ring' job.chunk_id (pos factor)) cold s refl u replica
