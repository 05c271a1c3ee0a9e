-- ===== src/Examples/Exchanges.antt =====
-- The theorems on the chunks that nodes send each other, at a push whose first answer is lost.
use p2p_container_distributi.Prelude.{
  ℕ, zero, suc, ◌≡◌, refl, ap, ◌∙◌, Bool, true, false, List, [], ◌∷◌, arith, Bytes, bytes_eq,
  bytes_beq, ◌==◌, ==_iff, contains, codes, All, Option, none, some,
}
use p2p_container_distributi.Prelude.Int.{pos}
use p2p_container_distributi.Errors.{ok}
use p2p_container_distributi.GoMap
use p2p_container_distributi.Storage.Memory.{Memory, memory, get, put, get-put_memory}
use p2p_container_distributi.Chunk.{chunk_id, verify, encode_to_string}
use p2p_container_distributi.Ring.{get_n}
use p2p_container_distributi.Replication.{
  Job, Engine, new_engine, push_with_retry, push_loop, push_chunk, factor,
}
use p2p_container_distributi.Api.{Server, fetch_chunk, handle_put_chunk}
use p2p_container_distributi.Chunk.Hex.{IsHexDigit}
use p2p_container_distributi.Api.Routes.{
  put_chunk, get_chunk, no_method, route, chunk_path, route-chunk,
}
use p2p_container_distributi.Exchange.{
  Fate, answered, unanswered, World, send_put, after, attempt, push, push_each, replicate_to,
  peers_of,
}
use p2p_container_distributi.Exchange.Delivery.{delivered_to}
use p2p_container_distributi.Exchange.Survival.{AllAddressed, replicate-fetch}
use p2p_container_distributi.Examples.Rings.{
  toy_sha1, node_a, node_b, ring_ab, hello_key, replicas_hello,
}
use p2p_container_distributi.Examples.Blobs.{toy_sha256}
use p2p_container_distributi.Examples.Requests.{memory-StoreLaws, empty-IsAddressed}

abbrev pub hello_job : Job
hello_job = record { chunk_id = hello_key; content = codes "hello" }

abbrev pub sender : Engine
sender = new_engine node_b (pos 4)

abbrev pub addresses : Bytes → Option Bytes
addresses node = some node

-- The first answer is lost.
abbrev pub fates : Bytes → ℕ → Fate
fates node zero = unanswered
fates node (suc k) = answered

abbrev pub never : Bytes → ℕ → Bool
never node k = false

abbrev pub empty_world : World Memory
empty_world a = record { self_id = a; local = []; manifests = [] }

empty_world-AllAddressed : AllAddressed memory memory-StoreLaws toy_sha256 hello_job empty_world
empty_world-AllAddressed a = empty-IsAddressed

put_again :
    (m : Memory)
    → get hello_key m ≡ ok (codes "hello")
    → get hello_key (put hello_key (codes "hello") m).1 ≡ ok (codes "hello")
put_again m h =
    ground (arith, get-put_memory hello_key hello_key (codes "hello") m, ==_iff hello_key hello_key)

abbrev targets : List Bytes
targets = node_a ∷ node_b ∷ []

took_a :
    delivered_to node_a
      (push_each memory toy_sha256 sender addresses fates never hello_job targets empty_world).0
    ≡ true
unfolding push_each push new_engine push_with_retry push_loop attempt after send_put push_chunk
    handle_put_chunk verify chunk_id encode_to_string bytes_beq GoMap.put put
took_a = refl

took_on_ring :
    delivered_to node_a
      (replicate_to memory toy_sha256 toy_sha1 ring_ab sender addresses fates never hello_job
        empty_world).0
    ≡ true
unfolding replicate_to
took_on_ring =
    ap
      (λ ts.
        delivered_to node_a
          (push_each memory toy_sha256 sender addresses fates never hello_job ts empty_world).0)
      replicas_hello
    ∙ took_a

on_ring : contains (get_n toy_sha1 ring_ab hello_key (pos factor)) node_a ≡ true
unfolding bytes_beq
on_ring = ap (λ ts. contains ts node_a) replicas_hello

abbrev reader : Server Memory
reader = record { self_id = codes "c"; local = []; manifests = [] }

other_node : (node_a == reader.self_id) ≡ false
unfolding bytes_beq
other_node = refl

replicate-fetch_example :
    let w =
      (replicate_to memory toy_sha256 toy_sha1 ring_ab sender addresses fates never hello_job
        empty_world).1 in
    let replicas = get_n toy_sha1 ring_ab hello_key (pos factor) in
    (cs : Bytes) × (fetch_chunk memory replicas addresses
        (peers_of memory (λ a. true) w)
        none
        reader
        hello_key
      ≡ ok cs)
    × (chunk_id toy_sha256 cs ≡ hello_key)
replicate-fetch_example =
    replicate-fetch memory memory-StoreLaws toy_sha256 hello_job toy_sha1 ring_ab ring_ab sender
      addresses addresses fates never empty_world node_a node_a (λ a. true) none reader put_again
      empty_world-AllAddressed empty-IsAddressed refl took_on_ring on_ring other_node refl refl

hello_key-IsHexDigit : All IsHexDigit hello_key
hello_key-IsHexDigit = ground arith

route-chunk_example :
    (route (codes "PUT") (chunk_path hello_key) ≡ put_chunk hello_key)
    × (route (codes "GET") (chunk_path hello_key) ≡ get_chunk hello_key)
    × (route (codes "DELETE") (chunk_path hello_key) ≡ no_method)
route-chunk_example = route-chunk hello_key (λ e. cc e) hello_key-IsHexDigit
