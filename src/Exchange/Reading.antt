-- ===== src/Exchange/Reading.antt =====
-- A chunk that one node of the replica set holds can be read at every node, by fetchChunk of
-- internal/api/server.go.
use p2p_container_distributi.Prelude.{
  ◌≡◌, ap, ◌∙◌, Bool, true, false, List, [], ◌∷◌, Bytes, bytes_eq, ◌==◌, ==_iff, contains, Option,
  some, Option-cases, Bool-cases, inl, inr, ◌⊎◌,
}
use p2p_container_distributi.Errors.{Result, ok, Result-cases}
use p2p_container_distributi.Storage.{Backend, StoreLaws}
use p2p_container_distributi.Chunk.{chunk_id}
use p2p_container_distributi.Api.{Server, fetch_from, fetch_chunk, handle_get_chunk}
use p2p_container_distributi.Api.Content.{IsAddressed}
use p2p_container_distributi.Exchange.{World, peers_of, body_bytes}

module _ {S : Type 0} (store : Backend S) (laws : StoreLaws store) (sha256 : Bytes → Bytes)
    (reachable : Bytes → Bool) (w : World S)
    (addressed : (a : Bytes) → IsAddressed store laws sha256 (w a).local) (self_id : Bytes)
    (addr : Bytes → Option Bytes) (id : Bytes) where
  abbrev fetched : List Bytes → Option Bytes
  fetched = fetch_from self_id addr (peers_of store reachable w) id

  -- Bytes that come back are those of the id.
  abbrev Matches : Option Bytes → Type 0
  Matches o = (bs : Bytes) × (o ≡ some bs) × (chunk_id sha256 bs ≡ id)

  -- One replica: the right bytes, or nothing, and the loop goes on.
  fetched_step :
      (n : Bytes) (ns : List Bytes) → Matches (fetched (n ∷ ns)) ⊎ (fetched (n ∷ ns) ≡ fetched ns)
  unfolding fetch_from peers_of handle_get_chunk body_bytes
  fetched_step n ns = elim (Bool-cases (n == self_id)) [
    | inl own ↦ inr (rw own)
    | inr foreign ↦ elim (Option-cases (addr n)) [
      | inl unknown ↦ inr (rw (foreign, unknown, fetch_from))
      | inr (a, known) ↦ elim (Bool-cases (reachable a)) [
        | inr down ↦ inr (rw (foreign, known, fetch_from, down))
        | inl answers ↦ elim (Result-cases (store.get id (w a).local)) [
          | inr (e, missing) ↦
              inr (rw (foreign, known, fetch_from, answers, handle_get_chunk, missing))
          | inl (bs, there) ↦ inl (
            bs,
            rw (foreign, known, fetch_from, answers, handle_get_chunk, there),
            (addressed a).named id bs there,
          )
        ]
      ]
    ]
  ]

  module _ (node_id a bs : Bytes) (other : (node_id == self_id) ≡ false)
      (known : addr node_id ≡ some a) (up : reachable a ≡ true)
      (there : store.get id (w a).local ≡ ok bs) where
    fetched_here : (ns : List Bytes) → fetched (node_id ∷ ns) ≡ some bs
    unfolding fetch_from peers_of handle_get_chunk body_bytes
    fetched_here ns = rw (other, known, fetch_from, up, handle_get_chunk, there)

    fetched-Matches : (ns : List Bytes) → contains ns node_id ≡ true → Matches (fetched ns)
    fetched-Matches [] c = cc c
    fetched-Matches (n ∷ ns) c = elim (Bool-cases (n == node_id)) [
      | inl same ↦ (
        bs,
        ap (λ z. fetched (z ∷ ns)) ((==_iff n node_id).0 same) ∙ fetched_here ns,
        (addressed a).named id bs there,
      )
      | inr apart ↦ elim (fetched_step n ns) [
        | inl found ↦ found
        | inr skipped ↦
            let (cs, got, right) = fetched-Matches ns (rw apart at c) in (cs, skipped ∙ got, right)
      ]
    ]

    -- Where every node keeps its content under its own hash, and some replica of a chunk, other
    -- than this node, holds it and can be reached at the address that this node has for it, a fetch
    -- of the chunk succeeds here, with bytes that have the chunk's hash, whatever else has failed.
    pub fetch_chunk-reads :
        (replicas : List Bytes) (cold : Option (Bytes → Result Bytes)) (s : Server S)
        → s.self_id ≡ self_id
        → IsAddressed store laws sha256 s.local
        → contains replicas node_id ≡ true
        → (cs : Bytes) × (fetch_chunk store replicas addr (peers_of store reachable w) cold s id
            ≡ ok cs)
          × (chunk_id sha256 cs ≡ id)
    unfolding fetch_chunk
    fetch_chunk-reads replicas cold s own v replica = elim (Result-cases (store.get id s.local)) [
      | inl (cs, local) ↦ (cs, rw (local, fetch_chunk), v.named id cs local)
      | inr (e, missing) ↦
          let (cs, got, right) = fetched-Matches replicas replica in
          let got' : fetch_from s.self_id addr (peers_of store reachable w) id replicas ≡ some cs =
            ap (λ z. fetch_from z addr (peers_of store reachable w) id replicas) own ∙ got in
          (cs, rw (missing, fetch_chunk, got'), right)
    ]
