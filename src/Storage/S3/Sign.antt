-- ===== src/Storage/S3/Sign.antt =====
-- AWS Signature Version 4 as `sign` of internal/storage/s3.go makes it.
use p2p_container_distributi.Prelude.{
  Option, ◌+◌, ◌-◌, ◌&&◌, Bool, true, List, [], ◌∷◌, ◌++◌, none, some, Bytes, bytes_eq, ◌==◌, codes,
  leb, eqb, not, map, if◌then◌else◌,
}
use p2p_container_distributi.Prelude.Sorting.{sort_by}
use p2p_container_distributi.GoMap
use p2p_container_distributi.Text.{join_with, to_lower, has_prefix, trim_space, bytes_le}
use p2p_container_distributi.Chunk.{encode_to_string}

-- The fields of the credentials and of the place of the bucket; the HTTP client is in `Web`.
pub record S3 : Type 0 where
  pub bucket : Bytes
  pub region : Bytes
  pub access_key_id : Bytes
  pub secret_access_key : Bytes
  pub session_token : Bytes
  pub endpoint : Bytes

-- A time as "20060102T150405Z" and as "20060102".
pub record Stamp : Type 0 where
  pub amz_date : Bytes
  pub date_stamp : Bytes

-- `path` is decoded, as in Go's url.URL.
pub record Url : Type 0 where
  pub host : Bytes
  pub path : Bytes
  pub raw_query : Bytes

abbrev pub Headers : Type 0
Headers = List (Bytes × List Bytes)

pub record Request : Type 0 where
  pub method : Bytes
  pub url : Url
  pub headers : Headers
  pub body : Bytes

pub record Crypto : Type 0 where
  pub sha256 : Bytes → Bytes
  -- the key, and the message
  pub hmac : Bytes → Bytes → Bytes

-- textproto.CanonicalMIMEHeaderKey of a name of letters and dashes: `upper` at the start of a word.
unfoldable pub canonical_from : Bool → Bytes → Bytes
canonical_from upper [] = []
canonical_from upper (c ∷ s) =
    (if upper && (leb b'a' c && leb c b'z')
      then c - 32
      else if not upper && (leb b'A' c && leb c b'Z')
      then c + 32
      else c)
    ∷ canonical_from (eqb c b'-') s

-- Header.Set and Header.Get
unfoldable pub set_header : Bytes → Bytes → Headers → Headers
unfolding canonical_from
set_header name value h = GoMap.put (canonical_from true name) (value ∷ []) h

unfoldable pub first_value : Option (List Bytes) → Bytes
first_value none = []
first_value (some []) = []
first_value (some (v ∷ _)) = v

unfoldable pub get_header : Bytes → Headers → Bytes
unfolding canonical_from first_value
get_header name h = first_value (GoMap.get (canonical_from true name) h)

-- The loop of `canonicalizeHeaders` over the header map, in the order in which it is walked.
unfoldable pub amz_headers : Headers → List (Bytes × Bytes)
amz_headers [] = []
amz_headers ((name, vals) ∷ h) =
    let rest = amz_headers h in
    if has_prefix (to_lower name) (codes "x-amz-")
    then (to_lower name, join_with (codes ",") vals) ∷ rest
    else rest

abbrev pub key_le : Bytes × Bytes → Bytes × Bytes → Bool
key_le a b = bytes_le a.0 b.0

-- The text of the headers in order, and their names.
unfoldable pub header_lines : List (Bytes × Bytes) → Bytes
header_lines [] = []
header_lines ((k, v) ∷ hs) = k ++ b':' ∷ (trim_space v ++ 10 ∷ header_lines hs)

unfoldable pub sorted_headers : Headers → List (Bytes × Bytes)
sorted_headers h = sort_by key_le ((codes "host", get_header (codes "Host") h) ∷ amz_headers h)

unfoldable pub canonicalize_headers : Headers → Bytes × Bytes
canonicalize_headers h = (
  header_lines (sorted_headers h),
  join_with (codes ";") (map (λ (e : Bytes × Bytes). e.0) (sorted_headers h)),
)

unfoldable pub canonical_uri : Bytes → Bytes
canonical_uri p = if p == [] then codes "/" else p

module _ (crypto : Crypto) where
  unfoldable pub sha256_hex : Bytes → Bytes
  sha256_hex b = encode_to_string (crypto.sha256 b)

  unfoldable pub derive_signing_key : Bytes → Bytes → Bytes → Bytes → Bytes
  derive_signing_key secret date_stamp region service =
      let k_date = crypto.hmac (codes "AWS4" ++ secret) date_stamp in
      let k_region = crypto.hmac k_date region in
      let k_service = crypto.hmac k_region service in crypto.hmac k_service (codes "aws4_request")

  -- The headers that `sign` sets before it reads them.
  unfoldable pub signing_headers : S3 → Stamp → Request → Bytes → Headers
  signing_headers c now req body =
      let h1 = set_header (codes "x-amz-date") now.amz_date req.headers in
      let h2 = set_header (codes "x-amz-content-sha256") (sha256_hex body) h1 in
      let h3 =
        if not (c.session_token == [])
        then set_header (codes "x-amz-security-token") c.session_token h2
        else h2 in
      set_header (codes "Host") req.url.host h3

  unfoldable pub canonical_request : Request → Headers → Bytes → Bytes
  canonical_request req h body = join_with (10 ∷ []) (
      req.method
      ∷ canonical_uri req.url.path
      ∷ req.url.raw_query
      ∷ (canonicalize_headers h).0
      ∷ (canonicalize_headers h).1
      ∷ sha256_hex body
      ∷ [])

  unfoldable pub credential_scope : S3 → Stamp → Bytes
  credential_scope c now = now.date_stamp ++ b'/' ∷ (c.region ++ codes "/s3/aws4_request")

  unfoldable pub auth_header : S3 → Stamp → Request → Headers → Bytes → Bytes
  auth_header c now req h body =
      let string_to_sign = join_with (10 ∷ []) (
        codes "AWS4-HMAC-SHA256"
        ∷ now.amz_date
        ∷ credential_scope c now
        ∷ sha256_hex (canonical_request req h body)
        ∷ []) in
      let signing_key =
        derive_signing_key c.secret_access_key now.date_stamp c.region (codes "s3") in
      codes "AWS4-HMAC-SHA256 Credential="
      ++ (c.access_key_id
          ++ (b'/'
              ∷ (credential_scope c now
                  ++ (codes ", SignedHeaders="
                      ++ ((canonicalize_headers h).1
                          ++ (codes ", Signature="
                              ++ encode_to_string (crypto.hmac signing_key string_to_sign)))))))

  unfoldable pub sign : S3 → Stamp → Request → Bytes → Request
  sign c now req body =
      let h = signing_headers c now req body in
      record req { headers = set_header (codes "Authorization") (auth_header c now req h body) h }
