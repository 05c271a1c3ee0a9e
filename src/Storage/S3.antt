-- ===== src/Storage/S3.antt =====
-- internal/storage/s3.go: the store in an S3 bucket. The HTTP client, the parser of URLs and the
-- clock are the parameter `web`, over a state `S` of the outside world; SHA-256 and HMAC are the
-- parameter `crypto`.
pub mod Sign
pub mod Listing
pub mod Keys
pub mod Order
pub mod Paths
pub mod Answers
pub mod Held
pub mod Verify
pub mod Server
use Sign.{S3, Stamp, Url, Request, Crypto, sign}
use Listing.{parse_list_keys}
use p2p_container_distributi.Prelude.{
  ℕ, ◌/◌, Bool, true, false, ◌&&◌, not, List, [], ◌∷◌, ◌++◌, Option, none, some, Bytes, bytes_eq,
  ◌==◌, codes, length, take, ltb, eqb, if◌then◌else◌,
}
use p2p_container_distributi.Errors.{Error, not_found, s3_call, s3_status, Result, ok, err}
use p2p_container_distributi.Url.{path_escape, slashes}
use p2p_container_distributi.Storage.{Backend}

-- What `Do` returns: the status, and what reading the body gives.
pub record Reply : Type 0 where
  pub status : ℕ
  pub body : Result Bytes
  -- what was read before reading the body failed
  pub partial : Bytes

pub record Web (S : Type 0) : Type 0 where
  -- http.NewRequest's reading of a URL
  pub parse_url : Bytes → Result Url
  -- Query, Set and Encode of net/url, from the old query
  pub with_query : List (Bytes × Bytes) → Bytes → Bytes
  -- time.Now, in the two formats of a signature
  pub now : S → Stamp
  pub send : Request → S → Result Reply × S

unfoldable pub new_s3 : Bytes → Bytes → Bytes → Bytes → Bytes → S3
new_s3 bucket region access_key_id secret_access_key session_token = record {
  bucket = bucket;
  region = region;
  access_key_id = access_key_id;
  secret_access_key = secret_access_key;
  session_token = session_token;
  endpoint = [];
}

-- The method `endpoint`.
unfoldable pub endpoint_of : S3 → Bytes
endpoint_of c =
    if not (c.endpoint == [])
    then c.endpoint
    else codes "https://" ++ (c.bucket ++ (codes ".s3." ++ (c.region ++ codes ".amazonaws.com")))

unfoldable pub object_key : Bytes → Bytes
object_key chunk_id =
    if ltb (length chunk_id) 2
    then codes "chunks/_short/" ++ chunk_id
    else codes "chunks/" ++ (take 2 chunk_id ++ b'/' ∷ chunk_id)

-- The URL of `newRequest`.
unfoldable pub request_url : S3 → Bytes → Bytes
request_url c key =
    let u = endpoint_of c ++ b'/' ∷ [] in
    if not (key == []) then slashes (u ++ path_escape key) else u

-- `body, _ := io.ReadAll(resp.Body)`
unfoldable pub body_text : Reply → Bytes
body_text reply = elim reply.body [ ok bs ↦ bs | err e ↦ reply.partial ]

module _ {S : Type 0} (web : Web S) (crypto : Crypto) (c : S3) where
  -- `newRequest`, at the state whose clock it reads.
  unfoldable pub new_request : Bytes → Bytes → Bytes → S → Result Request
  new_request method key body s = elim (web.parse_url (request_url c key)) [
    | err e ↦ err e
    | ok u ↦ ok (
        sign crypto c (web.now s) (record { method = method; url = u; headers = []; body = body })
          body)
  ]

  unfoldable pub put : Bytes → Bytes → S → Option Error × S
  put chunk_id data' s = elim (new_request (codes "PUT") (object_key chunk_id) data' s) [
    | err e ↦ (some e, s)
    | ok req ↦
        let (r, s') = web.send req s in
        elim r [
          | err e ↦ (some (s3_call (codes "put") chunk_id e), s')
          | ok reply ↦
              if eqb (reply.status / 100) 2
              then (none, s')
              else (some (s3_status (codes "put") chunk_id reply.status (body_text reply)), s')
        ]
  ]

  -- Its result; the request also moves the world on.
  unfoldable pub get : Bytes → S → Result Bytes × S
  get chunk_id s = elim (new_request (codes "GET") (object_key chunk_id) [] s) [
    | err e ↦ (err e, s)
    | ok req ↦
        let (r, s') = web.send req s in
        elim r [
          | err e ↦ (err (s3_call (codes "get") chunk_id e), s')
          | ok reply ↦
              if eqb reply.status 404
              then (err not_found, s')
              else if eqb (reply.status / 100) 2
              then (reply.body, s')
              else (err (s3_status (codes "get") chunk_id reply.status (body_text reply)), s')
        ]
  ]

  unfoldable pub has : Bytes → S → Bool × S
  has chunk_id s = elim (new_request (codes "HEAD") (object_key chunk_id) [] s) [
    | err e ↦ (false, s)
    | ok req ↦
        let (r, s') = web.send req s in
        elim r [ err e ↦ (false, s') | ok reply ↦ (eqb (reply.status / 100) 2, s') ]
  ]

  unfoldable pub delete : Bytes → S → Option Error × S
  delete chunk_id s = elim (new_request (codes "DELETE") (object_key chunk_id) [] s) [
    | err e ↦ (some e, s)
    | ok req ↦
        let (r, s') = web.send req s in
        elim r [
          | err e ↦ (some (s3_call (codes "delete") chunk_id e), s')
          | ok reply ↦
              if not (eqb (reply.status / 100) 2) && not (eqb reply.status 404)
              then (some (s3_status (codes "delete") chunk_id reply.status (body_text reply)), s')
              else (none, s')
        ]
  ]

  -- The request of `List`: signed, given its query, and signed again.
  unfoldable pub list_request : S → Result Request
  list_request s = elim (new_request (codes "GET") [] [] s) [
    | err e ↦ err e
    | ok req ↦
        let query =
          web.with_query ((codes "list-type", codes "2") ∷ (codes "prefix", codes "chunks/") ∷ [])
            req.url.raw_query in
        ok
          (sign crypto c (web.now s) (record req { url = record req.url { raw_query = query } }) [])
  ]

  -- `none` inside only if the extraction of the keys ran out of fuel.
  unfoldable pub list : S → Result (Option (List Bytes)) × S
  list s = elim (list_request s) [
    | err e ↦ (err e, s)
    | ok req ↦
        let (r, s') = web.send req s in
        elim r [
          | err e ↦ (err (s3_call (codes "list") [] e), s')
          | ok reply ↦
              if not (eqb (reply.status / 100) 2)
              then (err (s3_status (codes "list") [] reply.status (body_text reply)), s')
              else elim reply.body [
                | err e ↦ (err e, s')
                | ok body ↦ (ok (parse_list_keys body), s')
              ]
        ]
  ]
