-- ===== src/Chunk/Join.antt =====
-- `Reassemble` of pkg/chunk/chunk.go: what it writes, whatever the source of the chunks gives.
use p2p_container_distributi.Prelude.{
  ℕ, suc, ◌+◌, ◌≡◌, refl, sym, ap, ◌∙◌, subst, true, List, [], ◌∷◌, ◌++◌, map, arith, Bytes,
  bytes_eq, ==_iff, length, take, drop, take-append-drop, take_of_length-le, none, Option,
  Bool-cases, Option-cases, inl, inr, append-nil, append_assoc, All,
}
use p2p_container_distributi.Errors.{Result-cases, Error, Result, ok}
use p2p_container_distributi.Chunk.{
  Chunk, Manifest, Writer, chunk_id, verify, reassemble, reassemble_loop,
}
use p2p_container_distributi.Chunk.Pieces.{concat, number, map-id-number}
use p2p_container_distributi.Chunk.Split.{IsSplit}

-- The source gives each of `ds` for the id at its place, and it has that hash.
abbrev pub Fetched : (Bytes → Bytes) → (Bytes → Result Bytes) → List Bytes → List Bytes → Type 0
Fetched sha256 fetch ids [] = Unit
Fetched sha256 fetch [] (d ∷ ds) = ⊥
Fetched sha256 fetch (id ∷ ids) (d ∷ ds) =
    (fetch id ≡ ok d) × (chunk_id sha256 d ≡ id) × Fetched sha256 fetch ids ds

module _ (sha256 : Bytes → Bytes) (w : Writer) (fetch : Bytes → Result Bytes) where
  verified : (id bs : Bytes) → verify sha256 id bs ≡ true → chunk_id sha256 bs ≡ id
  unfolding verify
  verified id bs h = (==_iff (chunk_id sha256 bs) id).0 h

  accepted :
      (written bs : Bytes) → (w.write written bs).1 ≡ none → take (w.write written bs).0 bs ≡ bs
  accepted written bs h = take_of_length-le _ bs (omega (arith, w.write_all written bs h))

  -- What a run of `Reassemble` leaves behind: a prefix of verified chunks, all of them in full
  -- where there is no error.
  abbrev Sends : List Bytes → Bytes → Bytes × Option Error → Type 0
  Sends ids written (out, e) =
      (ds : List Bytes) × (rest : Bytes) × Fetched sha256 fetch ids ds
      × (out ++ rest ≡ written ++ concat ds)
      × (e ≡ none → (rest ≡ []) × (length ds ≡ length ids))

  reassemble_loop-Sends :
      (ids : List Bytes) (written : Bytes)
      → Sends ids written (reassemble_loop sha256 w fetch ids written)
  unfolding reassemble_loop
  reassemble_loop-Sends [] written = ([], [], tt, refl, λ _. (refl, refl))
  reassemble_loop-Sends (id ∷ ids) written = elim (Result-cases (fetch id)) [
    | inr (e, failed) ↦ rw (failed, reassemble_loop) ([], [], tt, refl, λ h. cc)
    | inl (bs, got) ↦ elim (Bool-cases (verify sha256 id bs)) [
      | inr bad ↦ rw (got, bad, reassemble_loop) ([], [], tt, refl, λ h. cc)
      | inl good ↦ elim (Option-cases (w.write written bs).1) [
        | inr (e, refused) ↦
            rw (got, good, refused, reassemble_loop)
              (
                bs ∷ [],
                drop (w.write written bs).0 bs,
                (got, verified id bs good, tt),
                append_assoc written _ _
                    ∙ ap (◌++◌ written)
                        (take-append-drop (w.write written bs).0 bs ∙ sym (append-nil bs)),
                λ h. cc,
              )
        | inl taken ↦
            let (ds, rest, f, out, whole) =
              reassemble_loop-Sends ids (written ++ take (w.write written bs).0 bs) in
            rw (got, good, taken, reassemble_loop)
              (
                bs ∷ ds,
                rest,
                (got, verified id bs good, f),
                out
                    ∙ append_assoc written _ _
                    ∙ ap (λ z. written ++ (z ++ concat ds)) (accepted written bs taken),
                λ e. ((whole e).0, ap suc (whole e).1),
              )
      ]
    ]
  ]

  -- Whatever the source gives and the writer takes, everything that `Reassemble` writes is a prefix
  -- of the contents, in the manifest's order, of chunks that have the hashes that the manifest
  -- names.
  pub reassemble-prefix :
      (m : Manifest) (written : Bytes)
      → (ds : List Bytes) × (rest : Bytes) × Fetched sha256 fetch m.chunk_ids ds
        × ((reassemble sha256 w fetch m written).0 ++ rest ≡ written ++ concat ds)
  unfolding reassemble
  reassemble-prefix m written =
      let (ds, rest, f, out, whole) = reassemble_loop-Sends m.chunk_ids written in
      (ds, rest, f, out)

  -- A `Reassemble` that returns no error has written the contents of all chunks of the manifest, in
  -- its order, each with the hash that the manifest names.
  pub reassemble-whole :
      (m : Manifest) (written : Bytes)
      → (reassemble sha256 w fetch m written).1 ≡ none
      → (ds : List Bytes) × Fetched sha256 fetch m.chunk_ids ds
        × (length ds ≡ length m.chunk_ids)
        × ((reassemble sha256 w fetch m written).0 ≡ written ++ concat ds)
  unfolding reassemble
  reassemble-whole m written fine =
      let (ds, rest, f, out, whole) = reassemble_loop-Sends m.chunk_ids written in
      (
        ds,
        f,
        (whole fine).1,
        sym (append-nil _)
            ∙ ap (λ z. (reassemble_loop sha256 w fetch m.chunk_ids written).0 ++ z)
                (sym (whole fine).0)
            ∙ out,
      )

  -- A source that has every chunk.
  abbrev pub Has : List Chunk → Type 0
  Has = All (λ (c : Chunk). fetch c.id ≡ ok c.content)

  reassemble_loop-number :
      (ps : List Bytes) (i : ℕ) (written : Bytes)
      → ((s t : Bytes) → (w.write s t).1 ≡ none)
      → Has (number sha256 i ps)
      → reassemble_loop sha256 w fetch (map (chunk_id sha256) ps) written
        ≡ (written ++ concat ps, none)
  unfolding reassemble_loop
  reassemble_loop-number [] i written free h = rw append-nil
  reassemble_loop-number (p ∷ ps) i written free h =
      rw (h.0, self p, free written p, accepted written p (free written p))
        (reassemble_loop-number ps (i + 1) (written ++ p) free h.1
          ∙ ap (λ z. (z, none)) (append_assoc written p (concat ps)))
    where
      self : (bs : Bytes) → verify sha256 (chunk_id sha256 bs) bs ≡ true
      self bs = unfold verify in (==_iff (chunk_id sha256 bs) (chunk_id sha256 bs)).1 refl

  -- A blob that was split is written whole and without an error, if the source has its chunks and
  -- the writer does not fail.
  pub reassemble-split :
      (blob_id bs written : Bytes) (n : ℕ) (cs : List Chunk) (m : Manifest)
      → IsSplit sha256 blob_id bs n cs m
      → Has cs
      → ((s t : Bytes) → (w.write s t).1 ≡ none)
      → reassemble sha256 w fetch m written ≡ (written ++ bs, none)
  unfolding reassemble
  reassemble-split blob_id bs written n cs m s h free =
      let ps = map (λ (c : Chunk). c.content) cs in
      ap (λ l. reassemble_loop sha256 w fetch l written)
        (s.ids ∙ ap (map (λ (c : Chunk). c.id)) s.numbered ∙ map-id-number sha256 0 ps)
      ∙ reassemble_loop-number ps 0 written free (subst Has s.numbered h)
      ∙ ap (λ z. (written ++ z, none)) s.contents
