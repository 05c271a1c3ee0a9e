-- ===== src/Api/Routes.antt =====
-- Which handler gets a request: `Routes` of internal/api/server.go with the patterns of net/http,
-- and the URLs that PushChunk of internal/replication/replication.go and `fetchChunk` build. A path
-- is as it is sent, escaped; a path that the mux would clean and redirect is left out.
use p2p_container_distributi.Prelude.{
  ℕ, ◌≡◌, ◌≢◌, ◌<◌, refl, ap, ap₂, ◌∙◌, Bool, ◌||◌, [], ◌∷◌, ◌++◌, arith, Bytes, bytes_eq,
  bytes_beq, ◌==◌, ==_iff, codes, All, Option, none, some, Bool-cases, inl, inr, if◌then◌else◌,
}
use p2p_container_distributi.Text.{strip_prefix, split_on}
use p2p_container_distributi.Text.Cut.{Lacks, strip_prefix-append, split_on-Lacks}
use p2p_container_distributi.Url.Decode.{unescape, unescape-cons}
use p2p_container_distributi.Chunk.Hex.{IsHexDigit}

-- A handler with what it takes from the path: the decoded path, or the decoded `{id}`.
pub data Route : Type 0 where
  upload_blob download_blob put_chunk get_chunk : Bytes → Route
  healthz status_page : Route
  -- 404 and 405
  no_page no_method : Route

-- A pattern with GET takes HEAD too.
abbrev reads : Bytes → Bool
reads method = method == codes "GET" || method == codes "HEAD"

-- "PUT /internal/chunks/{id}" and "GET /internal/chunks/{id}": one segment, not empty.
unfoldable chunk_route : Bytes → Bytes → Route
chunk_route method rest = elim (split_on b'/' rest) [
  | id ∷ [] ↦
      if id == []
      then no_page
      else if method == codes "PUT"
      then put_chunk (unescape id)
      else if reads method
      then get_chunk (unescape id)
      else no_method
  | _ ↦ no_page
]

-- "POST /blobs/" and "GET /blobs/": every path below.
blob_route : Bytes → Bytes → Route
blob_route method path =
    if method == codes "POST"
    then upload_blob (unescape path)
    else if reads method
    then download_blob (unescape path)
    else no_method

page_route : Bytes → Bytes → Route
page_route method path =
    if path == codes "/healthz"
    then (if reads method then healthz else no_method)
    else if path == codes "/status"
    then (if reads method then status_page else no_method)
    else no_page

-- By what follows "/blobs/", or "/internal/chunks/", in the path.
dispatch : Bytes → Bytes → Option Bytes → Option Bytes → Route
unfolding chunk_route blob_route page_route
dispatch method path (some _) _ = blob_route method path
dispatch method path none (some rest) = chunk_route method rest
dispatch method path none none = page_route method path

unfoldable pub route : Bytes → Bytes → Route
unfolding dispatch
route method path =
    dispatch method path (strip_prefix (codes "/blobs/") path)
      (strip_prefix (codes "/internal/chunks/") path)

-- fmt.Sprintf("http://%s/internal/chunks/%s", addr, chunkID), without the address
abbrev pub chunk_path : Bytes → Bytes
chunk_path chunk_id = codes "/internal/chunks/" ++ chunk_id

unescape_plain : (s : Bytes) → Lacks b'%' s → unescape s ≡ s
unescape_plain [] l = unfold unescape in refl
unescape_plain (c ∷ s) l = unescape-cons c s l.0 ∙ ap (◌∷◌ c) (unescape_plain s l.1)

no_blob : (id : Bytes) → strip_prefix (codes "/blobs/") (chunk_path id) ≡ none
unfolding strip_prefix
no_blob id = refl

chunk_found : (id : Bytes) → strip_prefix (codes "/internal/chunks/") (chunk_path id) ≡ some id
chunk_found id = strip_prefix-append (codes "/internal/chunks/") id

route-chunk_path : (method id : Bytes) → route method (chunk_path id) ≡ chunk_route method id
unfolding route dispatch
route-chunk_path method id = ap₂ (dispatch method (chunk_path id)) (no_blob id) (chunk_found id)

-- An id of lower-case hexadecimal digits, as `chunk.ID` gives, is one segment and is not escaped.
hex_Lacks : (t : ℕ) (id : Bytes) → t < b'0' → All IsHexDigit id → Lacks t id
hex_Lacks t [] low h = tt
hex_Lacks t (c ∷ id) low h = (ground arith, hex_Lacks t id low h.1)

chunk_route-hex :
    (method id : Bytes)
    → id ≢ []
    → All IsHexDigit id
    → chunk_route method id ≡ (
        if method == codes "PUT"
        then put_chunk id
        else if reads method
        then get_chunk id
        else no_method)
unfolding chunk_route
chunk_route-hex method id some_id h = elim (Bool-cases (id == [])) [
  | inl gone ↦ absurd (some_id ((==_iff id []).0 gone))
  | inr there ↦ rw (
    chunk_route,
    split_on-Lacks b'/' id (hex_Lacks b'/' id (omega arith) h),
    there,
    unescape_plain id (hex_Lacks b'%' id (omega arith) h),
  )
]

-- The URL that a push builds for a chunk reaches the peer's handlePutChunk with the chunk's own id,
-- and the one that a fetch builds reaches handleGetChunk with it, for every id of lower-case
-- hexadecimal digits that is not empty; a deletion reaches no handler.
pub route-chunk :
    (id : Bytes)
    → id ≢ []
    → All IsHexDigit id
    → (route (codes "PUT") (chunk_path id) ≡ put_chunk id)
      × (route (codes "GET") (chunk_path id) ≡ get_chunk id)
      × (route (codes "DELETE") (chunk_path id) ≡ no_method)
unfolding bytes_beq
route-chunk id some_id h = (
  route-chunk_path (codes "PUT") id ∙ chunk_route-hex (codes "PUT") id some_id h,
  route-chunk_path (codes "GET") id ∙ chunk_route-hex (codes "GET") id some_id h,
  route-chunk_path (codes "DELETE") id ∙ chunk_route-hex (codes "DELETE") id some_id h,
)
