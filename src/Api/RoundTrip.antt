-- ===== src/Api/RoundTrip.antt =====
-- A blob that goes through `handleUploadBlob` and `handleDownloadBlob` of internal/api/server.go on
-- one node.
use p2p_container_distributi.Prelude.{
  ℕ, ◌≡◌, ◌≢◌, refl, sym, ap, ◌∙◌, subst, Bool, true, false, List, [], ◌∷◌, arith, Bytes, bytes_eq,
  ◌==◌, ==_iff, Option, none, some, Bool-cases, inl, inr, All, codes,
}
use p2p_container_distributi.Prelude.Int.{pos}
use p2p_container_distributi.Prelude.Members.{All-imp}
use p2p_container_distributi.Replication.{Job}
use p2p_container_distributi.Errors.{Result, ok}
use p2p_container_distributi.Text.{trim_prefix}
use p2p_container_distributi.GoMap
use p2p_container_distributi.GoMap.{get-put}
use p2p_container_distributi.Storage.{Backend, StoreLaws}
use p2p_container_distributi.Ring.{Ring}
use p2p_container_distributi.Chunk.{
  Chunk, Manifest, Reader, Writer, default_size, effective_size, reassemble,
}
use p2p_container_distributi.Chunk.Pieces.{number}
use p2p_container_distributi.Chunk.Split.{Ends, split_pieces, manifest_of, pieces-IsSplit}
use p2p_container_distributi.Chunk.Join.{reassemble-split}
use p2p_container_distributi.Api.{
  Server, Peers, content, manifest, is_local, place, store_chunks, targets_on, finish_upload,
  handle_upload_blob, handle_download_blob, fetch_chunk,
}
use p2p_container_distributi.Api.Upload.{job_of, upload-finish}

-- No two of the chunks have one name and different contents.
abbrev pub NoClash : List Chunk → Type 0
NoClash [] = Unit
NoClash (c ∷ cs) = All (λ (d : Chunk). d.id ≡ c.id → d.content ≡ c.content) cs × NoClash cs

module _ {S : Type 0} (store : Backend S) (laws : StoreLaws store)
    (works : (id bs : Bytes) (s : S) → (store.put id bs s).0 ≡ none) where
  put_kept :
      (id bs j d : Bytes) (s : S)
      → store.get j s ≡ ok d
      → (id ≡ j → bs ≡ d)
      → store.get j (store.put id bs s).1 ≡ ok d
  put_kept id bs j d s got same = elim (Bool-cases (id == j)) [
    | inl e ↦
        let at_j : id ≡ j = (==_iff id j).0 e in
        subst (λ k. store.get k (store.put id bs s).1 ≡ ok bs) at_j
          (laws.put_self id bs s (works id bs s))
        ∙ ap ok (same at_j)
    | inr apart ↦ laws.put_other id bs j s (works id bs s) (λ e. ground (arith, ==_iff id j)) ∙ got
  ]

  place_works : (here : Bool) (c : Chunk) (s : S) → (place store here c s).0 ≡ none
  unfolding place
  place_works true c s = works c.id c.content s
  place_works false c s = refl

  place_kept :
      (here : Bool) (c : Chunk) (j d : Bytes) (s : S)
      → store.get j s ≡ ok d
      → (c.id ≡ j → c.content ≡ d)
      → store.get j (place store here c s).1 ≡ ok d
  unfolding place
  place_kept true c j d s got same = put_kept c.id c.content j d s got same
  place_kept false c j d s got same = got

  place_found :
      (here : Bool) (c : Chunk) (s : S)
      → here ≡ true
      → store.get c.id (place store here c s).1 ≡ ok c.content
  unfolding place
  place_found true c s h = laws.put_self c.id c.content s (works c.id c.content s)
  place_found false c s h = cc

  module _ (targets : Chunk → List Bytes) (self_id : Bytes) where
    abbrev after : Chunk → S → S
    after c s = (place store (is_local (targets c) self_id) c s).1

    chunks_step :
        (c : Chunk) (cs : List Chunk) (s : S)
        → store_chunks store targets self_id (c ∷ cs) s ≡ (
          (store_chunks store targets self_id cs (after c s)).0,
          (store_chunks store targets self_id cs (after c s)).1,
          job_of c ∷ (store_chunks store targets self_id cs (after c s)).2,
        )
    unfolding store_chunks
    chunks_step c cs s = rw (place_works (is_local (targets c) self_id) c s, store_chunks) refl

    chunks_through : (cs : List Chunk) (s : S) → (store_chunks store targets self_id cs s).0 ≡ true
    chunks_through [] s = unfold store_chunks in refl
    chunks_through (c ∷ cs) s = ap (λ r. r.0) (chunks_step c cs s) ∙ chunks_through cs (after c s)

    chunks_kept :
        (cs : List Chunk) (j d : Bytes) (s : S)
        → store.get j s ≡ ok d
        → All (λ (c : Chunk). c.id ≡ j → c.content ≡ d) cs
        → store.get j (store_chunks store targets self_id cs s).1 ≡ ok d
    chunks_kept [] j d s got same = unfold store_chunks in got
    chunks_kept (c ∷ cs) j d s got same =
        ap (λ r. store.get j r.1) (chunks_step c cs s)
        ∙ chunks_kept cs j d (after c s)
            (place_kept (is_local (targets c) self_id) c j d s got same.0) same.1

    chunks_found :
        (cs : List Chunk) (s : S)
        → All (λ (c : Chunk). is_local (targets c) self_id ≡ true) cs
        → NoClash cs
        → All
            (λ (c : Chunk).
              store.get c.id (store_chunks store targets self_id cs s).1 ≡ ok c.content)
            cs
    chunks_found [] s here apart = tt
    chunks_found (c ∷ cs) s here apart =
        subst (λ r. All (λ (e : Chunk). store.get e.id r.1 ≡ ok e.content) (c ∷ cs))
          (sym (chunks_step c cs s))
          (
            chunks_kept cs c.id c.content (after c s)
                (place_found (is_local (targets c) self_id) c s here.0) apart.0,
            chunks_found cs (after c s) here.1 apart.1,
          )

module _ {S : Type 0} (store : Backend S) where
  finish_true :
      (blob_id : Bytes) (m : Manifest) (s : Server S) (r : Bool × S × List Job)
      → r.0 ≡ true
      → finish_upload store blob_id m s r ≡ (
        record { status = 200; body = manifest m },
        record s { local = r.1; manifests = GoMap.put blob_id m s.manifests },
        r.2,
      )
  unfolding finish_upload
  finish_true blob_id m s (true, local, jobs) h = refl
  finish_true blob_id m s (false, local, jobs) h = cc

  fetch_local :
      (replicas : List Bytes) (addr : Bytes → Option Bytes) (peers : Peers)
      (cold : Option (Bytes → Result Bytes)) (s : Server S) (id bs : Bytes)
      → store.get id s.local ≡ ok bs
      → fetch_chunk store replicas addr peers cold s id ≡ ok bs
  unfolding fetch_chunk
  fetch_local replicas addr peers cold s id bs h = rw (h, fetch_chunk)

  download_found :
      (sha256 : Bytes → Bytes) (w : Writer) (fetch : Bytes → Result Bytes) (path bs : Bytes)
      (s : Server S) (m : Manifest)
      → GoMap.get (trim_prefix (codes "/blobs/") path) s.manifests ≡ some m
      → reassemble sha256 w fetch m [] ≡ (bs, none)
      → handle_download_blob store sha256 w fetch path s
        ≡ record { status = 200; body = content bs }
  unfolding handle_download_blob
  download_found sha256 w fetch path bs s m indexed whole =
      rw (indexed, handle_download_blob, whole)

-- Over a store that keeps what it is given and reports no error, an upload to a path with a name,
-- whose body ends with an end of file, of whose chunks this node is a target, and no two of which
-- clash, is answered with 200 and the manifest; and a download of that path from the server after
-- it, by a writer that does not fail, is answered with 200 and the bytes of the body, whatever the
-- peers and the cold store give.
pub download-upload :
    {S : Type 0} (store : Backend S) (laws : StoreLaws store)
    (works : (id bs : Bytes) (s : S) → (store.put id bs s).0 ≡ none) (sha1 sha256 : Bytes → Bytes)
    (ring_at : ℕ → Ring) (path : Bytes) (body : Reader) (s : Server S) (w : Writer)
    (replicas : Bytes → List Bytes) (addr : Bytes → Option Bytes) (peers : Peers)
    (cold : Option (Bytes → Result Bytes))
    → trim_prefix (codes "/blobs/") path ≢ []
    → Ends body.final
    → All
        (λ (c : Chunk). is_local (targets_on store sha1 ring_at c) s.self_id ≡ true)
        (number sha256 0 (split_pieces body (pos default_size)))
    → NoClash (number sha256 0 (split_pieces body (pos default_size)))
    → ((written bs : Bytes) → (w.write written bs).1 ≡ none)
    → (m : Manifest) × (s' : Server S) × (jobs : List Job) × (handle_upload_blob store sha1 sha256
          ring_at path body s
        ≡ some (record { status = 200; body = manifest m }, s', jobs))
      × (handle_download_blob store sha256 w
            (λ id. fetch_chunk store (replicas id) addr peers cold s' id)
            path
            s'
          ≡ record { status = 200; body = content body.pending })
download-upload {S = S} store laws works sha1 sha256 ring_at path body s w replicas addr peers cold
      ne e here apart free =
    let blob_id : Bytes = trim_prefix (codes "/blobs/") path in
    let cs : List Chunk = number sha256 0 (split_pieces body (pos default_size)) in
    let m : Manifest = manifest_of blob_id body (pos default_size) cs in
    let targets = targets_on store sha1 ring_at in
    let r = store_chunks store targets s.self_id cs s.local in
    let s' : Server S = record s { local = r.1; manifests = GoMap.put blob_id m s.manifests } in
    (
      m,
      s',
      r.2,
      upload-finish store sha1 sha256 ring_at path body s ne e
          ∙ ap some (
              finish_true store blob_id m s r
                (chunks_through store laws works targets s.self_id cs s.local)),
      download_found store sha256 w _ path body.pending s' m
          (get-put blob_id blob_id m s.manifests ∙ rw ((==_iff blob_id blob_id).1 refl))
          (reassemble-split sha256 w (λ id. fetch_chunk store (replicas id) addr peers cold s' id)
            blob_id body.pending [] (effective_size (pos default_size)) cs m
            (pieces-IsSplit sha256 blob_id body (pos default_size))
            (All-imp cs (chunks_found store laws works targets s.self_id cs s.local here apart)
              (λ (c : Chunk) h.
                fetch_local store (replicas c.id) addr peers cold s' c.id c.content h))
            free),
    )
