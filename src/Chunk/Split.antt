-- ===== src/Chunk/Split.antt =====
-- `Split` of pkg/chunk/chunk.go against its specification, on every outcome of the reader.
use p2p_container_distributi.Prelude.{
  ℕ, zero, suc, ◌+◌, ◌≤◌, ◌<◌, ◌≡◌, refl, ap, subst, ◌*◌, ◌∙◌, true, false, ◌||◌, List, [], ◌∷◌,
  ◌++◌, map, arith, Bytes, length, length-take, length-drop, take, drop, ltb, leb, some, leb→le,
  Bool-cases, inl, inr, append-nil, append_assoc,
}
use p2p_container_distributi.Prelude.Int.{ℤ, pos, negsuc}
use p2p_container_distributi.Errors.{Error, reading, ok, err, is_eof, is_unexpected_eof}
use p2p_container_distributi.Chunk.{
  Chunk, Manifest, Reader, Progress, read_full, effective_size, chunk_id, append_chunk, split_loop,
  finish_split, split,
}
use p2p_container_distributi.Chunk.Pieces.{
  pieces, concat, Cut, number, concat-pieces, pieces-Cut, map-content-number,
}

-- The errors that `Split` takes for the end of the blob.
abbrev pub Ends : Error → Type 0
Ends e = (is_eof e || is_unexpected_eof e) ≡ true

module _ (sha256 : Bytes → Bytes) (n : ℕ) (pos : 0 < n) where
  -- What the loop has gathered at the end.
  abbrev gathered : ℕ → Bytes → Progress → Progress
  gathered fuel bs p = record {
    chunks = p.chunks ++ number sha256 p.idx (pieces fuel n bs);
    total_size = p.total_size + length bs;
    idx = p.idx + length (pieces fuel n bs);
  }

  append_chunk_full :
      (bs : Bytes) (p : Progress)
      → 0 < length bs
      → append_chunk sha256 bs p ≡ record {
        chunks = p.chunks ++ record { id = chunk_id sha256 bs; index = p.idx; content = bs } ∷ [];
        total_size = p.total_size + length bs;
        idx = p.idx + 1;
      }
  unfolding append_chunk
  append_chunk_full bs p h = ground arith

  split_loop_step :
      (fuel : ℕ) (r : Reader) (p : Progress)
      → n ≤ length r.pending
      → split_loop sha256 (suc fuel) n r p
        ≡ split_loop sha256 fuel n
            (record r { pending = drop n r.pending })
            (append_chunk sha256 (take n r.pending) p)
  unfolding split_loop read_full
  split_loop_step fuel r p h = ground arith

  split_loop_last :
      (fuel : ℕ) (r : Reader) (p : Progress)
      → length r.pending < n
      → Ends r.final
      → split_loop sha256 (suc fuel) n r p ≡ some (ok (append_chunk sha256 r.pending p))
  unfolding split_loop read_full
  split_loop_last fuel r p h e = ground arith

  split_loop_fails :
      (fuel : ℕ) (r : Reader) (p : Progress)
      → length r.pending < n
      → (is_eof r.final || is_unexpected_eof r.final) ≡ false
      → split_loop sha256 (suc fuel) n r p ≡ some (err r.final)
  unfolding split_loop read_full
  split_loop_fails fuel r p h e = ground arith

  append_rest :
      (fuel : ℕ) (bs : Bytes) (p : Progress)
      → length bs < n
      → append_chunk sha256 bs p ≡ gathered (suc fuel) bs p
  unfolding append_chunk pieces
  append_rest fuel bs p h = elim (Bool-cases (ltb 0 (length bs))) [
    | inl some_left ↦ ground arith
    | inr none_left ↦ ground (arith, append-nil p.chunks)
  ]

  append_first :
      (fuel : ℕ) (bs : Bytes) (p : Progress)
      → n ≤ length bs
      → gathered fuel (drop n bs) (append_chunk sha256 (take n bs) p) ≡ gathered (suc fuel) bs p
  unfolding pieces
  append_first fuel bs p h = ground (
    arith,
    append_chunk_full (take n bs) p,
    length-take n bs,
    length-drop n bs,
    append_assoc p.chunks
        (record { id = chunk_id sha256 (take n bs); index = p.idx; content = take n bs } ∷ [])
        (number sha256 (p.idx + 1) (pieces fuel n (drop n bs))),
  )

  split_loop-gathered :
      (fuel : ℕ) (r : Reader) (p : Progress)
      → length r.pending < fuel
      → Ends r.final
      → split_loop sha256 fuel n r p ≡ some (ok (gathered fuel r.pending p))
  split_loop-gathered zero r p h e = elim h [ ]
  split_loop-gathered (suc fuel) r p h e = elim (Bool-cases (leb n (length r.pending))) [
    | inl full ↦
        split_loop_step fuel r p (leb→le _ _ full)
        ∙ split_loop-gathered fuel (record r { pending = drop n r.pending }) _
            (omega (arith, length-drop n r.pending, leb→le _ _ full)) e
        ∙ ap (λ q. some (ok q)) (append_first fuel r.pending p (leb→le _ _ full))
    | inr short ↦
        split_loop_last fuel r p (ground arith) e
        ∙ ap (λ q. some (ok q)) (append_rest fuel r.pending p (ground arith))
  ]

  split_loop-err :
      (fuel : ℕ) (r : Reader) (p : Progress)
      → length r.pending < fuel
      → (is_eof r.final || is_unexpected_eof r.final) ≡ false
      → split_loop sha256 fuel n r p ≡ some (err r.final)
  split_loop-err zero r p h e = elim h [ ]
  split_loop-err (suc fuel) r p h e = elim (Bool-cases (leb n (length r.pending))) [
    | inl full ↦
        split_loop_step fuel r p (leb→le _ _ full)
        ∙ split_loop-err fuel (record r { pending = drop n r.pending }) _
            (omega (arith, length-drop n r.pending, leb→le _ _ full)) e
    | inr short ↦ split_loop_fails fuel r p (ground arith) e
  ]

effective_size_pos : (k : ℤ) → 0 < effective_size k
unfolding effective_size
effective_size_pos k = ground arith

-- The chunks are the blob cut into pieces of `n` bytes, in order, numbered from 0 and named by
-- their hashes, and the manifest lists them.
pub record IsSplit (sha256 : Bytes → Bytes) (blob_id bs : Bytes) (n : ℕ) (cs : List Chunk)
    (m : Manifest) : Type 0 where
  pub contents : concat (map (λ (c : Chunk). c.content) cs) ≡ bs
  pub cut : Cut n (map (λ (c : Chunk). c.content) cs)
  pub numbered : cs ≡ number sha256 0 (map (λ (c : Chunk). c.content) cs)
  pub blob : m.blob_id ≡ blob_id
  pub size : m.size ≡ length bs
  pub ids : m.chunk_ids ≡ map (λ (c : Chunk). c.id) cs
  pub chunk_size : m.chunk_size ≡ n

-- The size that is asked for where it is positive, and 4 MiB where it is not.
abbrev pub asked_size : ℤ → ℕ
asked_size (pos zero) = 4 * 1024 * 1024
asked_size (pos (suc n)) = suc n
asked_size (negsuc n) = 4 * 1024 * 1024

effective_size-asked : (k : ℤ) → effective_size k ≡ asked_size k
unfolding effective_size
effective_size-asked (pos zero) = ground arith
effective_size-asked (pos (suc n)) = ground arith
effective_size-asked (negsuc n) = refl

-- The pieces of all that the reader gives.
abbrev pub split_pieces : Reader → ℤ → List Bytes
split_pieces r k = pieces (suc (length r.pending)) (effective_size k) r.pending

abbrev pub manifest_of : Bytes → Reader → ℤ → List Chunk → Manifest
manifest_of blob_id r k cs = record {
  blob_id = blob_id;
  size = length r.pending;
  chunk_ids = map (λ (c : Chunk). c.id) cs;
  chunk_size = effective_size k;
}

module _ (sha256 : Bytes → Bytes) (blob_id : Bytes) (r : Reader) (k : ℤ) where
  pub split-pieces :
      Ends r.final
      → split sha256 blob_id r k
        ≡ some (
            ok (
              number sha256 0 (split_pieces r k),
              manifest_of blob_id r k (number sha256 0 (split_pieces r k)),
            ))
  unfolding split finish_split
  split-pieces e =
      rw
        (split_loop-gathered sha256 (effective_size k) (effective_size_pos k)
          (suc (length r.pending)) r (record { chunks = []; total_size = 0; idx = 0 }) (omega arith)
          e)
        (ground arith)

  pub pieces-IsSplit :
      let cs = number sha256 0 (split_pieces r k) in
      IsSplit sha256 blob_id r.pending (effective_size k) cs (manifest_of blob_id r k cs)
  pieces-IsSplit =
      let n = effective_size k in
      let fuel = suc (length r.pending) in
      let ps = split_pieces r k in
      record {
        contents =
            ap concat (map-content-number sha256 0 ps)
            ∙ concat-pieces fuel n r.pending (effective_size_pos k) (omega arith);
        cut =
            rw (map-content-number sha256 0 ps)
              (pieces-Cut fuel n r.pending (effective_size_pos k));
        numbered = rw (map-content-number sha256 0 ps);
        blob = refl;
        size = refl;
        ids = refl;
        chunk_size = refl;
      }

  -- If the reader ends with EOF or with an unexpected EOF, `Split` returns all that it read, cut
  -- into chunks of the size asked for (4 MiB where that is not positive), and their
  -- manifest.
  pub split-IsSplit :
      Ends r.final
      → (cs : List Chunk) × (m : Manifest) × (split sha256 blob_id r k ≡ some (ok (cs, m)))
        × IsSplit sha256 blob_id r.pending (asked_size k) cs m
  split-IsSplit e =
      let cs = number sha256 0 (split_pieces r k) in
      let m = manifest_of blob_id r k cs in
      (
        cs,
        m,
        split-pieces e,
        subst (λ n. IsSplit sha256 blob_id r.pending n cs m) (effective_size-asked k)
            pieces-IsSplit,
      )

  -- On any other error `Split` returns that error, wrapped with the blob's name, and no chunk.
  pub split-err :
      (is_eof r.final || is_unexpected_eof r.final) ≡ false
      → split sha256 blob_id r k ≡ some (err (reading blob_id r.final))
  unfolding split finish_split
  split-err e = rw (
      split_loop-err sha256 (effective_size k) (effective_size_pos k) (suc (length r.pending)) r _
        (omega arith) e)
