-- ===== src/Api/Content.antt =====
-- The local store of internal/api/server.go as a content-addressed store: what a push from a peer
-- and an upload do to it.
use p2p_container_distributi.Prelude.{
  ◌≡◌, sym, ap, ◌∙◌, Bool, true, false, List, [], ◌∷◌, Bytes, bytes_eq, ==_iff, Option-cases,
  Bool-cases, inl, inr, All,
}
use p2p_container_distributi.Errors.{Result, ok, err}
use p2p_container_distributi.Storage.{Backend, StoreLaws}
use p2p_container_distributi.Chunk.{Chunk, chunk_id, verify}
use p2p_container_distributi.Api.{Server, handle_put_chunk, place, is_local, store_chunks}

module _ {S : Type 0} (store : Backend S) (laws : StoreLaws store) (sha256 : Bytes → Bytes) where
  pub record IsAddressed (s : S) : Type 0 where
    pub named : (id bs : Bytes) → store.get id s ≡ ok bs → chunk_id sha256 bs ≡ id

  put-IsAddressed :
      (id bs : Bytes) (s : S)
      → chunk_id sha256 bs ≡ id
      → IsAddressed s
      → IsAddressed (store.put id bs s).1
  put-IsAddressed id bs s e v = record {
    named = λ j d got. elim (laws.nothing_else id bs j d s got) [
      | inl (same, new) ↦ ap (chunk_id sha256) new ∙ e ∙ sym same
      | inr old ↦ v.named j d old
    ];
  }

  -- Over a store that keeps what it is given and nothing else, a push from a peer keeps every
  -- content under its own hash, whatever name and bytes it brings.
  pub handle_put_chunk-IsAddressed :
      (id : Bytes) (body : Result Bytes) (s : Server S)
      → IsAddressed s.local
      → IsAddressed (handle_put_chunk store sha256 id body s).1.local
  unfolding handle_put_chunk
  handle_put_chunk-IsAddressed id (err e) s v = v
  handle_put_chunk-IsAddressed id (ok bs) s v = elim (Bool-cases (verify sha256 id bs)) [
    | inr bad ↦ rw bad v
    | inl good ↦
        let kept : IsAddressed (store.put id bs s.local).1 =
          put-IsAddressed id bs s.local (unfold verify in (==_iff (chunk_id sha256 bs) id).0 good)
            v in
        elim (Option-cases (store.put id bs s.local).0) [
          | inl fine ↦ rw (good, fine) kept
          | inr (e, failed) ↦ rw (good, failed) kept
        ]
  ]

  place-IsAddressed :
      (here : Bool) (c : Chunk) (s : S)
      → chunk_id sha256 c.content ≡ c.id
      → IsAddressed s
      → IsAddressed (place store here c s).1
  unfolding place
  place-IsAddressed true c s e v = put-IsAddressed c.id c.content s e v
  place-IsAddressed false c s e v = v

  -- Over a store that keeps what it is given and nothing else, the loop of an upload over chunks
  -- that are named by their hashes keeps every content under its own hash, even where it breaks
  -- off.
  store_chunks-IsAddressed :
      (targets : Chunk → List Bytes) (self_id : Bytes) (cs : List Chunk) (s : S)
      → All (λ (c : Chunk). chunk_id sha256 c.content ≡ c.id) cs
      → IsAddressed s
      → IsAddressed (store_chunks store targets self_id cs s).1
  unfolding store_chunks
  store_chunks-IsAddressed targets self_id [] s h v = v
  store_chunks-IsAddressed targets self_id (c ∷ cs) s h v =
      let here = is_local (targets c) self_id in
      let kept = place-IsAddressed here c s h.0 v in
      elim (Option-cases (place store here c s).0) [
        | inr (e, failed) ↦ rw (failed, store_chunks) kept
        | inl fine ↦
            rw (fine, store_chunks)
              (store_chunks-IsAddressed targets self_id cs (place store here c s).1 h.1 kept)
      ]
