-- ===== src/Api/Fetch.antt =====
-- The fallback chain of `fetchChunk` in internal/api/server.go.
use p2p_container_distributi.Prelude.{
  ◌≡◌, refl, Bool, true, false, ◌&&◌, ◌||◌, not, List, [], ◌∷◌, arith, Bytes, bytes_eq, ◌==◌,
  Option, none, some, eqb, ◌⊎◌,
}
use p2p_container_distributi.Errors.{not_found, Result, ok, err}
use p2p_container_distributi.Storage.{Backend}
use p2p_container_distributi.Api.{Server, Peers, fetch_from, fetch_cold, fetch_chunk}

-- Some other replica with a known address answers 200 with a body that can be read.
abbrev answers : Peers → Bytes → Bytes → Bool
answers peers a chunk_id = elim (peers a chunk_id) [
  | err e ↦ false
  | ok (code, read) ↦ eqb code 200 && elim read [ ok bs ↦ true | err e ↦ false ]
]

abbrev serves : Bytes → (Bytes → Option Bytes) → Peers → Bytes → Bytes → Bool
serves self_id addr peers chunk_id node_id =
    not (node_id == self_id)
    && elim (addr node_id) [ none ↦ false | some a ↦ answers peers a chunk_id ]

abbrev pub any_serves : Bytes → (Bytes → Option Bytes) → Peers → Bytes → List Bytes → Bool
any_serves self_id addr peers chunk_id [] = false
any_serves self_id addr peers chunk_id (n ∷ ns) =
    serves self_id addr peers chunk_id n || any_serves self_id addr peers chunk_id ns

abbrev found : Option Bytes → Bool
found none = false
found (some bs) = true

abbrev pub succeeds : Result Bytes → Bool
succeeds (ok bs) = true
succeeds (err e) = false

-- There is a cold store, and it returns the chunk.
abbrev pub cold_serves : Option (Bytes → Result Bytes) → Bytes → Bool
cold_serves none chunk_id = false
cold_serves (some get) chunk_id = succeeds (get chunk_id)

fetch_from-found :
    (self_id : Bytes) (addr : Bytes → Option Bytes) (peers : Peers) (chunk_id : Bytes)
    (ns : List Bytes)
    → found (fetch_from self_id addr peers chunk_id ns) ≡ any_serves self_id addr peers chunk_id ns
unfolding fetch_from
fetch_from-found self_id addr peers chunk_id [] = refl
fetch_from-found self_id addr peers chunk_id (n ∷ ns) =
    ground (arith, fetch_from-found self_id addr peers chunk_id ns)

-- A fetch succeeds exactly if the chunk is in the local store, or another replica with a known
-- address serves it, or the cold store has it; otherwise it reports `ErrNotFound`.
pub fetch_chunk-succeeds :
    {S : Type 0} (store : Backend S) (replicas : List Bytes) (addr : Bytes → Option Bytes)
    (peers : Peers) (cold : Option (Bytes → Result Bytes)) (s : Server S) (chunk_id : Bytes)
    → let r = fetch_chunk store replicas addr peers cold s chunk_id in
      (succeeds r ≡ (
        succeeds (store.get chunk_id s.local)
        || (any_serves s.self_id addr peers chunk_id replicas || cold_serves cold chunk_id)))
      × ((succeeds r ≡ true) ⊎ (r ≡ err not_found))
unfolding fetch_chunk fetch_cold
fetch_chunk-succeeds store replicas addr peers cold s chunk_id =
    (ground (arith, fetch_from-found s.self_id addr peers chunk_id replicas), ground arith)
