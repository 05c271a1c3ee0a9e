-- ===== src/Examples/Requests.antt =====
-- The theorems on internal/api/server.go at a server over the store in memory.
use p2p_container_distributi.Prelude.{
  contains, All, ◌≡◌, ◌≢◌, refl, sym, true, ◌||◌, List, [], ◌∷◌, arith, Bytes, bytes_eq, ◌==◌,
  ==_iff, none, some, codes, inl, inr, ◌⊎◌, Bool-cases,
}
use p2p_container_distributi.Errors.{not_found, ok, err, eof}
use p2p_container_distributi.GoMap
use p2p_container_distributi.Text.{trim_prefix}
use p2p_container_distributi.Chunk.{
  Chunk, Reader, chunk_id, Manifest, default_size, effective_size, encode_to_string,
}
use p2p_container_distributi.Storage.Memory.{Memory, memory, put, get, get-put_memory}
use p2p_container_distributi.Api.{
  Server, Peers, is_local, fetch_chunk, handle_put_chunk, handle_upload_blob, targets_on,
  handle_download_blob, content, manifest,
}
use p2p_container_distributi.Api.Fetch.{any_serves, cold_serves, succeeds, fetch_chunk-succeeds}
use p2p_container_distributi.Api.Content.{IsAddressed, handle_put_chunk-IsAddressed}
use p2p_container_distributi.Storage.{StoreLaws}
use p2p_container_distributi.Prelude.Int.{pos}
use p2p_container_distributi.Replication.{Job}
use p2p_container_distributi.Chunk.Pieces.{number, pieces}
use p2p_container_distributi.Chunk.Split.{split_pieces}
use p2p_container_distributi.Api.RoundTrip.{NoClash, download-upload}
use p2p_container_distributi.Examples.Rings.{hosts_hello, toy_sha1, node_a, node_b, ring_ab}
use p2p_container_distributi.Examples.Blobs.{toy_sha256, buffer}

pub memory-StoreLaws : StoreLaws memory
unfolding put get
memory-StoreLaws = record {
  nothing_else = λ id bs j d s h. elim (Bool-cases (id == j)) [
    | inl same ↦ inl (sym ((==_iff id j).0 same), ground (arith, get-put_memory id j bs s))
    | inr apart ↦ inr (ground (arith, get-put_memory id j bs s))
  ];
  put_self = λ id bs s h. ground (arith, get-put_memory id id bs s, ==_iff id id);
  put_other = λ id bs j s h ne. ground (arith, get-put_memory id j bs s, ==_iff id j);
}

abbrev server : Server Memory
server = record { self_id = node_a; local = []; manifests = [] }

pub empty-IsAddressed : IsAddressed memory memory-StoreLaws toy_sha256 []
unfolding get GoMap.get
empty-IsAddressed = record { named = λ id bs h. cc }

abbrev data_id : Bytes
data_id = chunk_id toy_sha256 (codes "data")

handle_put_chunk-IsAddressed_example :
    IsAddressed memory memory-StoreLaws toy_sha256
      (handle_put_chunk memory toy_sha256 data_id (ok (codes "data")) server).1.local
handle_put_chunk-IsAddressed_example =
    handle_put_chunk-IsAddressed memory memory-StoreLaws toy_sha256 data_id (ok (codes "data"))
      server empty-IsAddressed

abbrev peers : Peers
peers addr id = ok (200, ok (codes "data"))

fetch_chunk-succeeds_example :
    let r = fetch_chunk memory (node_a ∷ node_b ∷ []) (λ n. some n) peers none server data_id in
    (succeeds r ≡ (
      succeeds (memory.get data_id server.local)
      || (any_serves node_a (λ n. some n) peers data_id (node_a ∷ node_b ∷ [])
          || cold_serves none data_id)))
    × ((succeeds r ≡ true) ⊎ (r ≡ err not_found))
fetch_chunk-succeeds_example =
    fetch_chunk-succeeds memory (node_a ∷ node_b ∷ []) (λ n. some n) peers none server data_id

abbrev upload_path : Bytes
upload_path = codes "/blobs/x"

named : trim_prefix (codes "/blobs/") upload_path ≢ []
unfolding trim_prefix
named e = cc

abbrev whole : Reader
whole = record { pending = codes "hello"; final = eof }

abbrev whole_chunks : List Chunk
whole_chunks = number toy_sha256 0 (split_pieces whole (pos default_size))

works : (id bs : Bytes) (s : Memory) → (memory.put id bs s).0 ≡ none
unfolding put
works id bs s = refl

member_local : (ts : List Bytes) → contains ts node_a ≡ true → is_local ts node_a ≡ true
unfolding is_local
member_local ts h = rw h

whole_here :
    All
      (λ (c : Chunk). is_local (targets_on memory toy_sha1 (λ i. ring_ab) c) node_a ≡ true)
      whole_chunks
unfolding pieces effective_size chunk_id encode_to_string
whole_here = (member_local _ hosts_hello, tt)

whole_apart : NoClash whole_chunks
unfolding pieces effective_size
whole_apart = (tt, tt)

download-upload_example :
    (m : Manifest) × (s' : Server Memory) × (jobs : List Job) × (handle_upload_blob memory toy_sha1
        toy_sha256
        (λ i. ring_ab)
        upload_path
        whole
        server
      ≡ some (record { status = 200; body = manifest m }, s', jobs))
    × (handle_download_blob memory toy_sha256 buffer
          (λ id. fetch_chunk memory [] (λ n. none) peers none s' id)
          upload_path
          s'
        ≡ record { status = 200; body = content (codes "hello") })
download-upload_example =
    download-upload memory memory-StoreLaws works toy_sha1 toy_sha256 (λ i. ring_ab) upload_path
      whole server buffer (λ id. []) (λ n. none) peers none named refl whole_here whole_apart
      (λ written bs. refl)
