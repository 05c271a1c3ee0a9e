-- ===== src/Exchange/Healing.antt =====
-- From the death of a node to the new copies of its chunks: the repair of
-- internal/recovery/recovery.go with the pushes of internal/replication/replication.go and the
-- handler that takes them.
use p2p_container_distributi.Prelude.{
  ℕ, ◌≤◌, ◌≡◌, refl, sym, ap, ◌∙◌, subst, Bool, true, false, List, [], ◌∷◌, ◌++◌, Bytes, bytes_eq,
  ◌==◌, ==_iff, contains, arith, Option, none, some, Option-cases, Bool-cases, inl, inr, ◌⊎◌,
}
use p2p_container_distributi.Prelude.Int.{pos}
use p2p_container_distributi.Errors.{Result, ok, Result-cases}
use p2p_container_distributi.Storage.{Backend, StoreLaws}
use p2p_container_distributi.Chunk.{verify}
use p2p_container_distributi.Ring.{Ring, get_n, remove_node}
use p2p_container_distributi.Ring.Invariant.{IsRing}
use p2p_container_distributi.Replication.{Job, Engine, factor, push_chunk}
use p2p_container_distributi.Replication.Retry.{push_with_retry-delivers}
use p2p_container_distributi.Recovery.{repair_chunks, repair_local_chunks, handle_node_dead}
use p2p_container_distributi.Recovery.Repair.{repairable, gone}
use p2p_container_distributi.Api.{Server, handle_put_chunk}
use p2p_container_distributi.Exchange.{
  Fate, answered, World, send_put, after, attempt, push, push_each, replicate_to,
}
use p2p_container_distributi.Exchange.Delivery.{Has, push-Has, push_each-keeps}

module _ (sha1 : Bytes → Bytes) (self_id : Bytes) (ring_at : Bytes → Ring)
    (read : Bytes → Result Bytes) (job : Job) where
  repair_here :
      (ids : List Bytes)
      → contains (get_n sha1 (ring_at job.chunk_id) job.chunk_id (pos factor)) self_id ≡ true
      → read job.chunk_id ≡ ok job.content
      → repair_chunks sha1 self_id ring_at read (job.chunk_id ∷ ids)
        ≡ job ∷ repair_chunks sha1 self_id ring_at read ids
  unfolding repair_chunks
  repair_here ids here got = rw (here, got, repair_chunks)

  repair_head :
      (id : Bytes) (ids : List Bytes)
      → let rest = repair_chunks sha1 self_id ring_at read ids in
        (repair_chunks sha1 self_id ring_at read (id ∷ ids) ≡ rest)
        ⊎ ((j : Job) × (repair_chunks sha1 self_id ring_at read (id ∷ ids) ≡ j ∷ rest))
  unfolding repair_chunks
  repair_head id ids =
      elim (Bool-cases (contains (get_n sha1 (ring_at id) id (pos factor)) self_id)) [
        | inr out ↦ inl (rw out)
        | inl in_ ↦ elim (Result-cases (read id)) [
          | inl (bs, got) ↦
              inr (record { chunk_id = id; content = bs }, rw (in_, got, repair_chunks))
          | inr (e, failed) ↦ inl (rw (in_, failed, repair_chunks))
        ]
      ]

  -- A listed chunk that this node is a replica of and can read is enqueued, with its content.
  repair_chunks-job :
      (ids : List Bytes)
      → contains ids job.chunk_id ≡ true
      → contains (get_n sha1 (ring_at job.chunk_id) job.chunk_id (pos factor)) self_id ≡ true
      → read job.chunk_id ≡ ok job.content
      → (before : List Job) × (after' : List Job) × (repair_chunks sha1 self_id ring_at read ids
          ≡ before ++ job ∷ after')
  repair_chunks-job [] c here got = cc c
  repair_chunks-job (id ∷ ids) c here got = elim (Bool-cases (id == job.chunk_id)) [
    | inl same ↦ (
      [],
      repair_chunks sha1 self_id ring_at read ids,
      ap (λ z. repair_chunks sha1 self_id ring_at read (z ∷ ids)) ((==_iff id job.chunk_id).0 same)
          ∙ repair_here ids here got,
    )
    | inr other ↦
        let (before, after', e) = repair_chunks-job ids (rw other at c) here got in
        elim (repair_head id ids) [
          | inl skipped ↦ (before, after', skipped ∙ e)
          | inr (j, added) ↦ (j ∷ before, after', added ∙ ap (◌∷◌ j) e)
        ]
  ]

-- The node with this id answers one of the attempts that the engine makes, before the context is
-- done.
abbrev pub Answers : Engine → (Bytes → ℕ → Fate) → (Bytes → ℕ → Bool) → Bytes → Type 0
Answers e fates done node =
    (k : ℕ) × (k ≤ e.max_retries)
    × (fates node k ≡ answered)
    × ((j : ℕ) → j ≤ k → done node j ≡ false)

module _ {S : Type 0} (store : Backend S) (laws : StoreLaws store) (sha256 : Bytes → Bytes)
    (job : Job) (good : verify sha256 job.chunk_id job.content ≡ true)
    (fits : (t : S) → (store.put job.chunk_id job.content t).0 ≡ none) (e : Engine)
    (addr_for : Bytes → Option Bytes) (fates : Bytes → ℕ → Fate) (done : Bytes → ℕ → Bool) where
  again :
      (t : S)
      → store.get job.chunk_id t ≡ ok job.content
      → store.get job.chunk_id (store.put job.chunk_id job.content t).1 ≡ ok job.content
  again t had = laws.put_self job.chunk_id job.content t (fits t)

  attempt-answered :
      (node addr : Bytes) (w : World S) (k : ℕ)
      → fates node k ≡ answered
      → attempt store sha256 (fates node) addr job w k ≡ none
  unfolding attempt send_put
  attempt-answered node addr w k e_k =
      ap
        (λ f.
          push_chunk
            (send_put store sha256 f addr job (after store sha256 (fates node) addr job w k)).0)
        e_k
      ∙ taken (after store sha256 (fates node) addr job w k addr)
    where
      taken :
          (s : Server S)
          → push_chunk (ok (handle_put_chunk store sha256 job.chunk_id (ok job.content) s).0.status)
            ≡ none
      taken s = unfold push_chunk handle_put_chunk in rw (good, fits s.local) refl

  push-answered :
      (node addr : Bytes) (w : World S)
      → Answers e fates done node
      → Has store laws sha256 job again addr
          (push store sha256 e (fates node) (done node) addr job w).1
  push-answered node addr w (k, le, e_k, open_) =
      push-Has store laws sha256 job again e (fates node) (done node) addr w (
        unfold push in
        (push_with_retry-delivers e (attempt store sha256 (fates node) addr job w) (done node) k le
          (attempt-answered node addr w k e_k) open_).0)

  -- Each target that answers an attempt has the chunk after the loop of `replicate`.
  push_each-answered :
      (targets : List Bytes) (node a : Bytes) (w : World S)
      → contains targets node ≡ true
      → (node == e.self_id) ≡ false
      → addr_for node ≡ some a
      → Answers e fates done node
      → Has store laws sha256 job again a
          (push_each store sha256 e addr_for fates done job targets w).1
  unfolding push_each
  push_each-answered [] node a w c foreign known ans = cc c
  push_each-answered (n ∷ targets) node a w c foreign known ans = elim (Bool-cases (n == node)) [
    | inl same ↦
        let at : n ≡ node = (==_iff n node).0 same in
        let kept =
          push_each-keeps store laws sha256 job again e addr_for fates done targets a
            (push store sha256 e (fates node) (done node) a job w).1 (push-answered node a w ans) in
        subst
          (λ z.
            Has store laws sha256 job again a
              (push_each store sha256 e addr_for fates done job (z ∷ targets) w).1)
          (sym at) (rw (foreign, known, push_each) kept)
    | inr apart ↦
        let c' : contains targets node ≡ true = rw apart at c in
        elim (Bool-cases (n == e.self_id)) [
          | inl own ↦ rw own (push_each-answered targets node a w c' foreign known ans)
          | inr other ↦ elim (Option-cases (addr_for n)) [
            | inl unknown ↦
                rw (other, unknown, push_each)
                  (push_each-answered targets node a w c' foreign known ans)
            | inr (b, found) ↦
                rw (other, found, push_each)
                  (push_each-answered targets node a
                    (push store sha256 e (fates n) (done n) b job w).1 c' foreign known ans)
          ]
        ]
  ]

  -- A node has died and was removed from a well-formed ring, and this node lists a chunk of which
  -- it is now a replica and which it can read, with the right hash: then the repair enqueues the
  -- chunk with its content; and once that job is run on the new ring, over a store that keeps what
  -- it is given and takes the chunk, each other replica whose address is known and which answers
  -- one of the attempts before the context is done has the chunk, with its content. The dead node
  -- is no replica.
  pub repair_heals :
      (sha1 : Bytes → Bytes) (r : Ring) (dead_id : Bytes) (ids : List Bytes)
      (read : Bytes → Result Bytes) (w : World S) (node a : Bytes)
      → IsRing r
      → contains ids job.chunk_id ≡ true
      → repairable sha1 e.self_id (λ _. handle_node_dead dead_id r) read job.chunk_id ≡ true
      → read job.chunk_id ≡ ok job.content
      → contains (get_n sha1 (handle_node_dead dead_id r) job.chunk_id (pos factor)) node ≡ true
      → (node == e.self_id) ≡ false
      → addr_for node ≡ some a
      → Answers e fates done node
      → let ring = handle_node_dead dead_id r in
        ((before : List Job) × (after' : List Job) × (repair_local_chunks sha1 e.self_id
              (λ _. ring)
              read
              (ok ids)
            ≡ before ++ job ∷ after'))
        × (store.get job.chunk_id
              ((replicate_to store sha256 sha1 ring e addr_for fates done job w).1 a).local
            ≡ ok job.content)
        × (contains (get_n sha1 ring job.chunk_id (pos factor)) dead_id ≡ false)
  unfolding handle_node_dead repair_local_chunks replicate_to
  repair_heals sha1 r dead_id ids read w node a v listed able got replica foreign known ans =
      let s : Ring = remove_node dead_id r in
      (
        repair_chunks-job sha1 e.self_id (λ _. s) read job ids listed (ground (arith, able)) got,
        push_each-answered (get_n sha1 s job.chunk_id (pos factor)) node a w replica foreign known
            ans,
        gone sha1 r dead_id job.chunk_id v,
      )
