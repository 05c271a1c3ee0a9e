-- ===== src/Examples/Blobs.antt =====
-- The theorems on pkg/chunk/chunk.go at a blob of five bytes in chunks of two.
use p2p_container_distributi.Prelude.{
  ◌≡◌, refl, ap, List, [], ◌∷◌, ◌++◌, Bytes, bytes_eq, bytes_beq, none, some, codes, length,
}
use p2p_container_distributi.Prelude.Int.{pos}
use p2p_container_distributi.Errors.{eof, Result, ok}
use p2p_container_distributi.GoMap
use p2p_container_distributi.Storage.Memory.{Memory, get}
use p2p_container_distributi.Chunk.{
  Chunk, Manifest, Reader, Writer, chunk_id, effective_size, encode_to_string, split, reassemble,
}
use p2p_container_distributi.Chunk.Pieces.{concat, number, pieces}
use p2p_container_distributi.Chunk.Split.{
  asked_size, split_pieces, manifest_of, pieces-IsSplit, IsSplit, split-IsSplit,
}
use p2p_container_distributi.Chunk.Join.{Fetched, Has, reassemble-whole, reassemble-split}

-- A hash that is the bytes themselves.
abbrev pub toy_sha256 : Bytes → Bytes
toy_sha256 s = s

abbrev blob_id : Bytes
blob_id = codes "greeting"

abbrev body : Reader
body = record { pending = codes "hello"; final = eof }

abbrev chunks : List Chunk
chunks = number toy_sha256 0 (split_pieces body (pos 2))

abbrev listed : Manifest
listed = manifest_of blob_id body (pos 2) chunks

abbrev pub buffer : Writer
buffer = record { write = λ written bs. (length bs, none); write_all = λ written bs h. refl }

abbrev stored : Memory
stored =
    (chunk_id toy_sha256 (codes "he"), codes "he")
    ∷ (chunk_id toy_sha256 (codes "ll"), codes "ll")
    ∷ (chunk_id toy_sha256 (codes "o"), codes "o")
    ∷ []

abbrev fetch : Bytes → Result Bytes
fetch id = get id stored

all_stored : Has toy_sha256 buffer fetch chunks
unfolding get GoMap.get bytes_beq pieces effective_size chunk_id encode_to_string
all_stored = (refl, (refl, (refl, tt)))

split-IsSplit_example :
    (cs : List Chunk) × (m : Manifest) × (split toy_sha256 blob_id body (pos 2) ≡ some (ok (cs, m)))
    × IsSplit toy_sha256 blob_id (codes "hello") (asked_size (pos 2)) cs m
split-IsSplit_example = split-IsSplit toy_sha256 blob_id body (pos 2) refl

sent_whole : (reassemble toy_sha256 buffer fetch listed []).1 ≡ none
sent_whole =
    ap (λ r. r.1)
      (reassemble-split toy_sha256 buffer fetch blob_id (codes "hello") [] (effective_size (pos 2))
        chunks listed (pieces-IsSplit toy_sha256 blob_id body (pos 2)) all_stored (λ s t. refl))

reassemble-whole_example :
    (ds : List Bytes) × Fetched toy_sha256 fetch listed.chunk_ids ds
    × (length ds ≡ length listed.chunk_ids)
    × ((reassemble toy_sha256 buffer fetch listed []).0 ≡ [] ++ concat ds)
reassemble-whole_example = reassemble-whole toy_sha256 buffer fetch listed [] sent_whole

reassemble-split_example :
    reassemble toy_sha256 buffer fetch listed [] ≡ ([] ++ codes "hello", none)
reassemble-split_example =
    reassemble-split toy_sha256 buffer fetch blob_id (codes "hello") [] (effective_size (pos 2))
      chunks listed (pieces-IsSplit toy_sha256 blob_id body (pos 2)) all_stored (λ s t. refl)
