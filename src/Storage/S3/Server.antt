-- ===== src/Storage/S3/Server.antt =====
-- What a server of S3 checks of a signed request, by the documentation of AWS Signature Version 4,
-- for the requests that internal/storage/s3.go signs.
use p2p_container_distributi.Prelude.{
  ℕ, ◌/◌, ◌%◌, Bool, ◌&&◌, ◌||◌, List, [], ◌∷◌, ◌++◌, Bytes, bytes_eq, ◌==◌, codes, leb, eqb,
  if◌then◌else◌,
}
use p2p_container_distributi.Text.{trim_space}
use p2p_container_distributi.Url.{upper_hex}
use p2p_container_distributi.Chunk.{encode_to_string}
use p2p_container_distributi.Storage.S3.Sign.{S3, Request, Crypto, Headers, get_header}

-- A byte of a path that the canonical URI leaves as it is.
abbrev pub is_unreserved : ℕ → Bool
is_unreserved b =
    (leb b'A' b && leb b b'Z')
    || (leb b'a' b && leb b b'z')
    || (leb b'0' b && leb b b'9')
    || eqb b b'-'
    || eqb b b'.'
    || eqb b b'_'
    || eqb b b'~'
    || eqb b b'/'

unfoldable pub uri_encode : Bytes → Bytes
uri_encode [] = []
uri_encode (b ∷ s) =
    (if is_unreserved b then b ∷ [] else b'%' ∷ upper_hex (b / 16) ∷ upper_hex (b % 16) ∷ [])
    ++ uri_encode s

-- What the server reads and computes, with the credentials `c` of the client: the names of the
-- headers that it wants signed, ...
unfoldable pub server_names : Request → List Bytes
server_names req =
    codes "host"
    ∷ codes "x-amz-content-sha256"
    ∷ codes "x-amz-date"
    ∷ (if get_header (codes "x-amz-security-token") req.headers == []
        then []
        else codes "x-amz-security-token" ∷ [])

-- ... their lines, ...
unfoldable pub server_headers : List Bytes → Headers → Bytes
server_headers [] h = []
server_headers (name ∷ names) h =
    name ++ b':' ∷ (trim_space (get_header name h) ++ 10 ∷ server_headers names h)

-- ... the names with semicolons between them, ...
unfoldable pub server_list : List Bytes → Bytes
server_list [] = []
server_list (name ∷ []) = name
server_list (name ∷ other ∷ names) = name ++ b';' ∷ server_list (other ∷ names)

-- ... the canonical request, ...
abbrev pub server_request : Crypto → Request → Bytes
server_request crypto req =
    req.method
    ++ 10
      ∷ ((if req.url.path == [] then codes "/" else uri_encode req.url.path)
          ++ 10
            ∷ (req.url.raw_query
                ++ 10
                  ∷ (server_headers (server_names req) req.headers
                      ++ 10
                        ∷ (server_list (server_names req)
                            ++ 10 ∷ encode_to_string (crypto.sha256 req.body)))))

-- ... the scope, ...
abbrev pub server_scope : S3 → Bytes → Bytes
server_scope c date_stamp = date_stamp ++ b'/' ∷ (c.region ++ codes "/s3/aws4_request")

-- ... and the signature.
abbrev pub server_signature : Crypto → S3 → Bytes → Request → Bytes
server_signature crypto c date_stamp req =
    let date_key = crypto.hmac (codes "AWS4" ++ c.secret_access_key) date_stamp in
    let region_key = crypto.hmac date_key c.region in
    let service_key = crypto.hmac region_key (codes "s3") in
    let key = crypto.hmac service_key (codes "aws4_request") in
    let text =
      codes "AWS4-HMAC-SHA256"
      ++ 10
        ∷ (get_header (codes "x-amz-date") req.headers
            ++ 10
              ∷ (server_scope c date_stamp
                  ++ 10 ∷ encode_to_string (crypto.sha256 (server_request crypto req)))) in
    encode_to_string (crypto.hmac key text)

abbrev pub server_authorization : Crypto → S3 → Bytes → Request → Bytes
server_authorization crypto c date_stamp req =
    codes "AWS4-HMAC-SHA256 Credential="
    ++ (c.access_key_id
        ++ b'/'
          ∷ (server_scope c date_stamp
              ++ (codes ", SignedHeaders="
                  ++ (server_list (server_names req)
                      ++ (codes ", Signature=" ++ server_signature crypto c date_stamp req)))))

-- The check of a server: the hash in the headers is that of the body, the host is that of the URL,
-- and the header of the authorization names the key, the scope and the headers, and carries the
-- signature that the server computes from the request as it comes. The query is taken as it is
-- sent.
unfoldable pub accepts : Crypto → S3 → Bytes → Request → Bool
accepts crypto c date_stamp req =
    get_header (codes "x-amz-content-sha256") req.headers
      == encode_to_string (crypto.sha256 req.body)
    && (get_header (codes "Host") req.headers == req.url.host
        && get_header (codes "Authorization") req.headers
          == server_authorization crypto c date_stamp req)
