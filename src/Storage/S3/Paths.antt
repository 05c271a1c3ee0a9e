-- ===== src/Storage/S3/Paths.antt =====
-- The paths of the requests of internal/storage/s3.go: each chunk has its own, whatever the bytes
-- of its id.
use p2p_container_distributi.Prelude.{
  subst, List, contains, true, ℕ, ◌≡◌, ◌≢◌, refl, sym, ap, ◌∙◌, bytes_beq, false, not, [], ◌∷◌,
  ◌++◌, arith, Bytes, bytes_eq, ◌==◌, codes, eqb, ltb, if◌then◌else◌, Bool-cases, inl, inr, All,
  All-append, All-take, length, take, drop, append_assoc,
}
use p2p_container_distributi.Errors.{not_found, ok, err, Result-cases}
use p2p_container_distributi.Chunk.Hex.{IsByte}
use p2p_container_distributi.Url.{path_escape, slashes}
use p2p_container_distributi.Url.Decode.{
  unescape, unescape-path_escape, slashes-append, IsInPath, escaped-IsInPath,
}
use p2p_container_distributi.Storage.S3.Sign.{
  S3, Url, Request, Crypto, sign, Stamp, Headers, sha256_hex, signing_headers, set_header,
  canonical_from,
}
use p2p_container_distributi.GoMap
use p2p_container_distributi.Storage.S3.{Web, endpoint_of, object_key, request_url, new_request}

-- What the parser of URLs promises of a path below an endpoint that is a scheme and a host: the
-- path is decoded, there is no query, and the host is that of the endpoint.
pub record ParserLaws {S : Type 0} (web : Web S) (c : S3) : Type 0 where
  pub host : Bytes
  pub decoded :
      (p : Bytes) (u : Url)
      → All IsInPath p
      → web.parse_url (endpoint_of c ++ b'/' ∷ p) ≡ ok u
      → (u.path ≡ b'/' ∷ unescape p) × (u.raw_query ≡ []) × (u.host ≡ host)
  -- an error of net/url is not the store's own
  pub own_error : (p : Bytes) → web.parse_url p ≢ err not_found
  -- the endpoint has nothing to decode
  pub plain : All (λ b. eqb b b'%' ≡ false) (endpoint_of c)

-- The headers that `sign` sets.
abbrev pub sent_names : List Bytes
sent_names =
    codes "X-Amz-Date"
    ∷ codes "X-Amz-Content-Sha256"
    ∷ codes "X-Amz-Security-Token"
    ∷ codes "Host"
    ∷ codes "Authorization"
    ∷ []

abbrev pub AreSent : Headers → Type 0
AreSent h = All (λ (e : Bytes × List Bytes). contains sent_names e.0 ≡ true) h

-- A request for an object of the bucket at a host: a path that is not that of the bucket itself, no
-- query, and no header but those of a signature.
pub record IsObject (host : Bytes) (req : Request) : Type 0 where
  pub here : req.url.host ≡ host
  pub named : (k : Bytes) × (k ≢ []) × (req.url.path ≡ b'/' ∷ k)
  pub no_query : req.url.raw_query ≡ []
  pub plain_headers : AreSent req.headers

put-AreSent :
    (name : Bytes) (vals : List Bytes) (h : Headers)
    → contains sent_names name ≡ true
    → AreSent h
    → AreSent (GoMap.put name vals h)
unfolding GoMap.put
put-AreSent name vals [] k v = (k, tt)
put-AreSent name vals ((n, vs) ∷ h) k v = elim (Bool-cases (n == name)) [
  | inl same ↦ rw (same, GoMap.put) (k, v.1)
  | inr apart ↦ rw (apart, GoMap.put) (v.0, put-AreSent name vals h k v.1)
]

sign-AreSent :
    (crypto : Crypto) (c : S3) (now : Stamp) (req : Request) (body : Bytes)
    → AreSent req.headers
    → AreSent (sign crypto c now req body).headers
unfolding sign signing_headers set_header canonical_from bytes_beq
sign-AreSent crypto c now req body v =
    let dated = put-AreSent (codes "X-Amz-Date") (now.amz_date ∷ []) req.headers refl v in
    let hashed =
      put-AreSent (codes "X-Amz-Content-Sha256") (sha256_hex crypto body ∷ []) _ refl dated in
    put-AreSent (codes "Authorization") _ _ refl (
      put-AreSent (codes "Host") (req.url.host ∷ []) _ refl
        (elim (Bool-cases (c.session_token == [])) [
          | inl none_set ↦ rw none_set hashed
          | inr some_set ↦
              rw some_set
                (put-AreSent (codes "X-Amz-Security-Token") (c.session_token ∷ []) _ refl hashed)
        ]))

object_key-IsByte : (id : Bytes) → All IsByte id → All IsByte (object_key id)
unfolding object_key
object_key-IsByte id h = elim (Bool-cases (ltb (length id) 2)) [
  | inl short ↦ rw short (All-append IsByte (codes "chunks/_short/") id (omega arith) h)
  | inr long ↦ rw long (
      All-append IsByte (codes "chunks/") _ (omega arith)
        (All-append IsByte (take 2 id) _ (All-take IsByte 2 id h) (omega arith, h)))
]

object_key-head : (id : Bytes) → (s : Bytes) × (object_key id ≡ b'c' ∷ s)
unfolding object_key
object_key-head id = elim (Bool-cases (ltb (length id) 2)) [
  | inl short ↦ (codes "hunks/_short/" ++ id, rw short)
  | inr long ↦ (codes "hunks/" ++ (take 2 id ++ b'/' ∷ id), rw long)
]

object_key_set : (id : Bytes) → object_key id ≢ []
object_key_set id e = let (s, head) = object_key-head id in cc (head, e)

object_key-longer :
    (a b : ℕ) (r : Bytes) → object_key (a ∷ b ∷ r) ≡ codes "chunks/" ++ (a ∷ b ∷ b'/' ∷ a ∷ b ∷ r)
unfolding object_key
object_key-longer a b r =
    let long : ltb (length (a ∷ b ∷ r)) 2 ≡ false = ground arith in rw long refl

-- Different ids have different keys.
pub object_key_injective : (i j : Bytes) → object_key i ≡ object_key j → i ≡ j
unfolding object_key
object_key_injective [] [] h = refl
object_key_injective [] (b ∷ []) h = cc (ap (drop 14) h)
object_key_injective (a ∷ []) [] h = cc (ap (drop 14) h)
object_key_injective (a ∷ []) (b ∷ []) h = ap (drop 14) h
object_key_injective [] (b ∷ b' ∷ s) h = cc (ap (drop 9) (h ∙ object_key-longer b b' s))
object_key_injective (a ∷ []) (b ∷ b' ∷ s) h = cc (ap (drop 9) (h ∙ object_key-longer b b' s))
object_key_injective (a ∷ a' ∷ r) [] h = cc (ap (drop 9) (sym h ∙ object_key-longer a a' r))
object_key_injective (a ∷ a' ∷ r) (b ∷ []) h = cc (ap (drop 9) (sym h ∙ object_key-longer a a' r))
object_key_injective (a ∷ a' ∷ r) (b ∷ b' ∷ s) h =
    ap (drop 10) (sym (object_key-longer a a' r) ∙ h ∙ object_key-longer b b' s)

module _ {S : Type 0} (web : Web S) (crypto : Crypto) (c : S3) (laws : ParserLaws web c) where
  request_url-key :
      (id : Bytes)
      → request_url c (object_key id)
        ≡ endpoint_of c ++ b'/' ∷ slashes (path_escape (object_key id))
  unfolding request_url bytes_beq
  request_url-key id =
      let (s, head) = object_key-head id in
      let no_percent : All (λ b. eqb b b'%' ≡ false) (endpoint_of c ++ b'/' ∷ []) =
        All-append _ (endpoint_of c) (b'/' ∷ []) laws.plain (refl, tt) in
      ap
        (λ k.
          if not (k == [])
          then slashes ((endpoint_of c ++ b'/' ∷ []) ++ path_escape (object_key id))
          else endpoint_of c ++ b'/' ∷ [])
        {x = object_key id} {y = b'c' ∷ s} head
      ∙ slashes-append (endpoint_of c ++ b'/' ∷ []) (path_escape (object_key id)) no_percent
      ∙ append_assoc (endpoint_of c) (b'/' ∷ []) (slashes (path_escape (object_key id)))

  -- A request of `newRequest` for a chunk is one for an object, at the path that decodes to the
  -- chunk's key.
  pub request-path :
      (method id body : Bytes) (s : S) (req : Request)
      → All IsByte id
      → new_request web crypto c method (object_key id) body s ≡ ok req
      → (req.url.path ≡ b'/' ∷ object_key id)
        × (req.method ≡ method)
        × (req.body ≡ body)
        × IsObject laws.host req
  unfolding new_request sign
  request-path method id body s req h made =
      elim (Result-cases (web.parse_url (request_url c (object_key id)))) [
        | inr (e, failed) ↦ cc (rw (failed, new_request) at made)
        | inl (u, parsed) ↦
            let made' = rw (parsed, new_request) at made in
            let (path_is, no_query, here) =
              laws.decoded (slashes (path_escape (object_key id))) u
                (escaped-IsInPath (object_key id) (object_key-IsByte id h))
                (ap web.parse_url (sym (request_url-key id)) ∙ parsed) in
            let at_path : u.path ≡ b'/' ∷ object_key id =
              path_is
              ∙ ap (◌∷◌ b'/') (unescape-path_escape (object_key id) (object_key-IsByte id h)) in
            let same : sign crypto c (web.now s)
                  (record { method = method; url = u; headers = []; body = body }) body
                ≡ req =
              cc made' in
            (
              ap (λ (r : Request). r.url.path) (sym same) ∙ at_path,
              ap (λ (r : Request). r.method) (sym same),
              ap (λ (r : Request). r.body) (sym same),
              record {
                here = ap (λ (r : Request). r.url.host) (sym same) ∙ here;
                named = (
                  object_key id,
                  object_key_set id,
                  ap (λ (r : Request). r.url.path) (sym same) ∙ at_path,
                );
                no_query = ap (λ (r : Request). r.url.raw_query) (sym same) ∙ no_query;
                plain_headers =
                    subst (λ (r : Request). AreSent r.headers) same
                      (sign-AreSent crypto c (web.now s) _ body tt);
              },
            )
      ]
