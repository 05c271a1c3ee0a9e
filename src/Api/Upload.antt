-- ===== src/Api/Upload.antt =====
-- `handleUploadBlob` of internal/api/server.go on its branches: what it answers, stores and
-- enqueues.
use p2p_container_distributi.Prelude.{
  ℕ, ◌≡◌, ◌≢◌, refl, Bool, true, false, ◌||◌, List, [], ◌∷◌, map, arith, Bytes, bytes_eq, ◌==◌,
  ==_iff, none, some, Bool-cases, inl, inr, All, codes,
}
use p2p_container_distributi.Prelude.Int.{pos}
use p2p_container_distributi.Errors.{reading, is_eof, is_unexpected_eof}
use p2p_container_distributi.Text.{trim_prefix}
use p2p_container_distributi.Storage.{Backend}
use p2p_container_distributi.Ring.{Ring}
use p2p_container_distributi.Replication.{Job}
use p2p_container_distributi.Chunk.{Chunk, Reader, default_size}
use p2p_container_distributi.Chunk.Pieces.{number}
use p2p_container_distributi.Chunk.Split.{Ends, split_pieces, manifest_of, split-pieces, split-err}
use p2p_container_distributi.Api.{
  Server, failure, http_error, is_local, place, store_chunks, targets_on, finish_upload,
  upload_split, handle_upload_blob,
}

abbrev pub job_of : Chunk → Job
job_of c = record { chunk_id = c.id; content = c.content }

module _ {S : Type 0} (store : Backend S) (targets : Chunk → List Bytes) (self_id : Bytes) where
  -- An upload whose loop over the chunks goes through has enqueued every chunk, in order.
  store_chunks-jobs :
      (cs : List Chunk) (s : S)
      → (store_chunks store targets self_id cs s).0 ≡ true
      → (store_chunks store targets self_id cs s).2 ≡ map job_of cs
  unfolding store_chunks
  store_chunks-jobs [] s h = refl
  store_chunks-jobs (c ∷ cs) s h =
      let here = is_local (targets c) self_id in
      ground (arith, store_chunks-jobs cs (place store here c s).1)

  place_stays : (here : Bool) (c : Chunk) (s : S) → here ≡ false → place store here c s ≡ (none, s)
  unfolding place
  place_stays here c s e = rw e

  -- Where this node is a target of no chunk, the loop of an upload goes through and enqueues every
  -- chunk, but stores nothing.
  store_chunks-elsewhere :
      (cs : List Chunk) (s : S)
      → All (λ c. is_local (targets c) self_id ≡ false) cs
      → store_chunks store targets self_id cs s ≡ (true, s, map job_of cs)
  unfolding store_chunks
  store_chunks-elsewhere [] s h = refl
  store_chunks-elsewhere (c ∷ cs) s h =
      let stays = place_stays (is_local (targets c) self_id) c s h.0 in
      rw (stays, store_chunks, stays, store_chunks-elsewhere cs s h.1)

false_of_ne : (a : Bytes) → a ≢ [] → (a == []) ≡ false
false_of_ne a ne = elim (Bool-cases (a == [])) [
  | inl same ↦ absurd (ne ((==_iff a []).0 same))
  | inr other ↦ other
]

module _ {S : Type 0} (store : Backend S) (sha1 sha256 : Bytes → Bytes) (ring_at : ℕ → Ring) where
  -- An upload to a path without a name is answered with 400, and changes nothing.
  pub upload-nameless :
      (path : Bytes) (body : Reader) (s : Server S)
      → trim_prefix (codes "/blobs/") path ≡ []
      → handle_upload_blob store sha1 sha256 ring_at path body s
        ≡ some (http_error (codes "missing blob id in path") 400, s, [])
  unfolding handle_upload_blob
  upload-nameless path body s e = rw ((==_iff (trim_prefix (codes "/blobs/") path) []).1 e)

  -- An upload to a path with a name whose body breaks off with an error that is neither kind of end
  -- of file is answered with 400 and that error; nothing is stored, indexed or enqueued.
  pub upload-broken :
      (path : Bytes) (body : Reader) (s : Server S)
      → trim_prefix (codes "/blobs/") path ≢ []
      → (is_eof body.final || is_unexpected_eof body.final) ≡ false
      → handle_upload_blob store sha1 sha256 ring_at path body s
        ≡ some (
          record {
            status = 400;
            body =
                failure
                  (codes "split failed: ")
                  (reading (trim_prefix (codes "/blobs/") path) body.final);
          },
          s,
          [],
        )
  unfolding handle_upload_blob
  upload-broken path body s ne broken =
      let blob_id = trim_prefix (codes "/blobs/") path in
      rw (false_of_ne blob_id ne, split-err sha256 blob_id body (pos default_size) broken)
        (unfold upload_split in refl)

  -- The end of an upload to a path with a name, whose body ends with an end of file of either kind.
  pub upload-finish :
      (path : Bytes) (body : Reader) (s : Server S)
      → trim_prefix (codes "/blobs/") path ≢ []
      → Ends body.final
      → let blob_id = trim_prefix (codes "/blobs/") path in
        let cs = number sha256 0 (split_pieces body (pos default_size)) in
        handle_upload_blob store sha1 sha256 ring_at path body s
        ≡ some (
            finish_upload store blob_id
              (manifest_of blob_id body (pos default_size) cs)
              s
              (store_chunks store (targets_on store sha1 ring_at) s.self_id cs s.local))
  unfolding handle_upload_blob
  upload-finish path body s ne e =
      let blob_id = trim_prefix (codes "/blobs/") path in
      rw (false_of_ne blob_id ne, split-pieces sha256 blob_id body (pos default_size) e)
        (unfold upload_split in refl)
