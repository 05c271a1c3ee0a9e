-- ===== src/Api.antt =====
-- internal/api/server.go: the HTTP handlers of a node. The local store is a parameter, and so are
-- the answers of the peers and of the cold store, the response writer, and the ring that is current
-- when a chunk is placed. A response is its status and its body; headers are left out.
pub mod Fetch
pub mod Content
pub mod Upload
pub mod RoundTrip
pub mod Routes
use p2p_container_distributi.Prelude.{
  ℕ, ◌+◌, Bool, true, false, ◌&&◌, ◌||◌, List, [], ◌∷◌, ◌++◌, map, Option, none, some, Bytes,
  bytes_eq, ◌==◌, codes, contains, length, eqb, if◌then◌else◌,
}
use p2p_container_distributi.Prelude.Int.{pos}
use p2p_container_distributi.Errors.{Error, not_found, Result, ok, err}
use p2p_container_distributi.Text.{trim_prefix}
use p2p_container_distributi.GoMap
use p2p_container_distributi.Chunk.{
  Chunk, Manifest, Reader, Writer, default_size, verify, split, reassemble,
}
use p2p_container_distributi.Storage.{Backend}
use p2p_container_distributi.Ring.{Ring, get_n, node_ids}
use p2p_container_distributi.Cluster.{Membership, Peer, all_peers, is_alive}
use p2p_container_distributi.Replication.{Job, Engine, factor, queue_depth}
use p2p_container_distributi.Recovery.{Manager, status_text}

pub data Body : Type 0 where
  empty : Body
  message : Bytes → Body
  -- a message that ends with the text of an error
  failure : Bytes → Error → Body
  manifest : Manifest → Body
  content : Bytes → Body

pub record Response : Type 0 where
  pub status : ℕ
  pub body : Body

-- The state that the handlers change: the local store and the index of manifests.
pub record Server (S : Type 0) : Type 0 where
  pub self_id : Bytes
  pub local : S
  pub manifests : List (Bytes × Manifest)

-- `NewServer`, of the fields that the handlers change.
unfoldable pub new_server : {S : Type 0} → Bytes → S → Server S
new_server self_id local = record { self_id = self_id; local = local; manifests = [] }

-- http.Error
abbrev pub http_error : Bytes → ℕ → Response
http_error text code = record { status = code; body = message text }

-- The answer of GET /internal/chunks/{id} on a peer: an error, or the status and what reading the
-- body gave.
abbrev pub Peers : Type 0
Peers = Bytes → Bytes → Result (ℕ × Result Bytes)

-- `addrForNode`: only peers that are held for alive.
unfoldable addr_of : List Peer → Bytes → Option Bytes
addr_of [] node_id = none
addr_of (p ∷ ps) node_id =
    let rest = addr_of ps node_id in
    if p.id == node_id && is_alive p.state then some p.addr else rest

unfoldable addr_for_node : {C : Type 0} → Membership C → Bytes → Option Bytes
addr_for_node m node_id = addr_of (all_peers m) node_id

-- The loop of `fetchChunk` over the replicas.
unfoldable pub fetch_from :
    Bytes → (Bytes → Option Bytes) → Peers → Bytes → List Bytes → Option Bytes
fetch_from self_id addr peers chunk_id [] = none
fetch_from self_id addr peers chunk_id (node_id ∷ nodes) =
    let rest = fetch_from self_id addr peers chunk_id nodes in
    if node_id == self_id then rest else elim (addr node_id) [
      | none ↦ rest
      | some a ↦ elim (peers a chunk_id) [
        | err e ↦ rest
        | ok (code, read) ↦
            if eqb code 200 then elim read [ ok bs ↦ some bs | err e ↦ rest ] else rest
      ]
    ]

-- `Cold.Get`, where a cold store is configured.
pub fetch_cold : Option (Bytes → Result Bytes) → Bytes → Result Bytes
fetch_cold none chunk_id = err not_found
fetch_cold (some cold) chunk_id = elim (cold chunk_id) [ ok bs ↦ ok bs | err e ↦ err not_found ]

-- A chunk is stored where this node is among its targets, or there are none.
unfoldable pub is_local : List Bytes → Bytes → Bool
is_local targets self_id = contains targets self_id || eqb (length targets) 0

module _ {S : Type 0} (store : Backend S) where
  -- `fetchChunk`: the local store, then the other replicas in ring order, then the cold store.
  unfoldable pub fetch_chunk :
      List Bytes
      → (Bytes → Option Bytes)
      → Peers
      → Option (Bytes → Result Bytes)
      → Server S
      → Bytes
      → Result Bytes
  fetch_chunk replicas addr peers cold s chunk_id = elim (store.get chunk_id s.local) [
    | ok bs ↦ ok bs
    | err e ↦ elim (fetch_from s.self_id addr peers chunk_id replicas) [
      | some bs ↦ ok bs
      | none ↦ fetch_cold cold chunk_id
    ]
  ]

  -- `handleGetChunk`
  unfoldable pub handle_get_chunk : Bytes → Server S → Response
  handle_get_chunk id s = elim (store.get id s.local) [
    | err e ↦ http_error (codes "not found") 404
    | ok bs ↦ record { status = 200; body = content bs }
  ]

  -- `handlePutChunk`; `received` is what reading the body gave.
  unfoldable pub handle_put_chunk :
      (Bytes → Bytes) → Bytes → Result Bytes → Server S → Response × Server S
  handle_put_chunk sha256 id (err e) s = (http_error (codes "read failed") 400, s)
  handle_put_chunk sha256 id (ok bs) s =
      let after = store.put id bs s.local in
      if verify sha256 id bs
      then elim after.0 [
        | some e ↦ (http_error (codes "storage failure") 500, record s { local = after.1 })
        | none ↦ (record { status = 200; body = empty }, record s { local = after.1 })
      ]
      else (http_error (codes "chunk integrity check failed") 400, s)

  unfoldable pub place : Bool → Chunk → S → Option Error × S
  place true c local = store.put c.id c.content local
  place false c local = (none, local)

  -- The loop of `handleUploadBlob` over the chunks: whether it went through, the store, and the
  -- jobs that it enqueued. `targets` gives the replicas of a chunk when its turn comes.
  unfoldable pub store_chunks : (Chunk → List Bytes) → Bytes → List Chunk → S → Bool × S × List Job
  store_chunks targets self_id [] local = (true, local, [])
  store_chunks targets self_id (c ∷ cs) local =
      let after = place (is_local (targets c) self_id) c local in
      let rest = store_chunks targets self_id cs after.1 in
      elim after.0 [
        | some e ↦ (false, after.1, [])
        | none ↦ (rest.0, rest.1, record { chunk_id = c.id; content = c.content } ∷ rest.2)
      ]

  -- `GetN(c.ID, Factor)` on the ring that is current at the chunk's turn.
  abbrev pub targets_on : (Bytes → Bytes) → (ℕ → Ring) → Chunk → List Bytes
  targets_on sha1 ring_at c = get_n sha1 (ring_at c.index) c.id (pos factor)

  pub finish_upload :
      Bytes → Manifest → Server S → Bool × S × List Job → Response × Server S × List Job
  finish_upload blob_id m s (false, local, jobs) =
      (http_error (codes "storage failure") 500, record s { local = local }, jobs)
  finish_upload blob_id m s (true, local, jobs) = (
    record { status = 200; body = manifest m },
    record s { local = local; manifests = GoMap.put blob_id m s.manifests },
    jobs,
  )

  pub upload_split :
      (Chunk → List Bytes)
      → Bytes
      → Server S
      → Option (Result (List Chunk × Manifest))
      → Option (Response × Server S × List Job)
  upload_split targets blob_id s none = none
  upload_split targets blob_id s (some (err e)) =
      some (record { status = 400; body = failure (codes "split failed: ") e }, s, [])
  upload_split targets blob_id s (some (ok (cs, m))) =
      some (finish_upload blob_id m s (store_chunks targets s.self_id cs s.local))

  -- `handleUploadBlob`, with the jobs that it enqueues; `none` only if `split` ran out of fuel.
  pub handle_upload_blob :
      (Bytes → Bytes)
      → (Bytes → Bytes)
      → (ℕ → Ring)
      → Bytes
      → Reader
      → Server S
      → Option (Response × Server S × List Job)
  handle_upload_blob sha1 sha256 ring_at path body s =
      let blob_id = trim_prefix (codes "/blobs/") path in
      if blob_id == []
      then some (http_error (codes "missing blob id in path") 400, s, [])
      else upload_split (targets_on sha1 ring_at) blob_id s
          (split sha256 blob_id body (pos default_size))

  -- `handleDownloadBlob`: an error of `Reassemble` is logged, and the response stays what it is.
  pub handle_download_blob :
      (Bytes → Bytes) → Writer → (Bytes → Result Bytes) → Bytes → Server S → Response
  handle_download_blob sha256 w fetch path s =
      elim (GoMap.get (trim_prefix (codes "/blobs/") path) s.manifests) [
        | none ↦ http_error (codes "unknown blob id") 404
        | some m ↦ record { status = 200; body = content (reassemble sha256 w fetch m []).0 }
      ]

unfoldable handle_healthz : Response
handle_healthz = record { status = 200; body = content (codes "ok") }

record StatusReport : Type 0 where
  pub node_id : Bytes
  ring_nodes : List Bytes
  replication_q : ℕ
  pub recovery : Bytes
  pub peers : List Peer

-- `handleStatus`, before it is written as JSON.
unfoldable handle_status :
    {C : Type 0} → Bytes → Ring → Engine → Manager → Membership C → StatusReport
handle_status self_id ring e m members = record {
  node_id = self_id;
  ring_nodes = node_ids ring;
  replication_q = queue_depth e;
  recovery = status_text m;
  peers = all_peers members;
}
