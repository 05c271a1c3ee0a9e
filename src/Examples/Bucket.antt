-- ===== src/Examples/Bucket.antt =====
-- The theorems on internal/storage/s3.go at a bucket that is an association list.
use p2p_container_distributi.Prelude.{
  ℕ, ◌/◌, ◌≡◌, ◌≢◌, refl, sym, ap, ◌∙◌, List, [], ◌∷◌, ◌++◌, arith, Bytes, bytes_eq, bytes_beq,
  ◌==◌, ==_iff, codes, All, Option, none, some, Option-cases, Bool-cases, inl, inr, if◌then◌else◌,
}
use p2p_container_distributi.Errors.{other, not_found, Result, ok, err}
use p2p_container_distributi.GoMap
use p2p_container_distributi.GoMap.{get-put, get-delete}
use p2p_container_distributi.Text.{strip_prefix}
use p2p_container_distributi.Text.Cut.{strip_prefix-append}
use p2p_container_distributi.Chunk.Hex.{IsByte}
use p2p_container_distributi.Url.{path_escape, slashes}
use p2p_container_distributi.Url.Decode.{unescape, unescape-cons}
use p2p_container_distributi.Storage.S3.Sign.{S3, Url, Request, Crypto, sign}
use p2p_container_distributi.Storage.S3.{
  Reply, Web, object_key, request_url, new_request, new_s3, endpoint_of, put, get,
}
use p2p_container_distributi.Storage.S3.Paths.{ParserLaws}
use p2p_container_distributi.Storage.S3.Held.{Bucket, held, put-held, Reports, get-Reports}

abbrev Objects : Type 0
Objects = List (Bytes × Bytes)

abbrev toy_s3 : S3
toy_s3 = new_s3 (codes "b") (codes "r") (codes "key") (codes "secret") []

abbrev base : Bytes
base = codes "https://b.s3.r.amazonaws.com"

abbrev toy_parse : Bytes → Result Url
toy_parse url = elim (strip_prefix base url) [
  | none ↦ err other
  | some rest ↦ ok (record { host = codes "b"; path = unescape rest; raw_query = [] })
]

abbrev replied : ℕ → Bytes → Result Reply
replied status body = ok (record { status = status; body = ok body; partial = [] })

abbrev answer_get : Option Bytes → Result Reply
answer_get none = replied 404 []
answer_get (some bs) = replied 200 bs

abbrev toy_send : Request → Objects → Result Reply × Objects
toy_send req s =
    if req.method == codes "PUT"
    then (replied 200 [], GoMap.put req.url.path req.body s)
    else if req.method == codes "DELETE"
    then (replied 204 [], GoMap.delete req.url.path s)
    else (answer_get (GoMap.get req.url.path s), s)

abbrev toy_web : Web Objects
toy_web = record {
  parse_url = toy_parse;
  with_query = λ q old. old;
  now = λ s. record { amz_date = codes "20240101T000000Z"; date_stamp = codes "20240101" };
  send = toy_send;
}

abbrev toy_crypto : Crypto
toy_crypto = record { sha256 = λ s. s; hmac = λ k s. k ++ s }

toy_endpoint : endpoint_of toy_s3 ≡ base
unfolding endpoint_of new_s3 bytes_beq
toy_endpoint = refl

toy_parse-base :
    (rest : Bytes)
    → toy_parse (base ++ rest)
      ≡ ok (record { host = codes "b"; path = unescape rest; raw_query = [] })
toy_parse-base rest =
    ap
      (λ r. elim r [
        | none ↦ err other
        | some q ↦ ok (record { host = codes "b"; path = unescape q; raw_query = [] })
      ])
      (strip_prefix-append base rest)

toy_decoded :
    (p : Bytes) (u : Url)
    → toy_parse (endpoint_of toy_s3 ++ b'/' ∷ p) ≡ ok u
    → (u.path ≡ b'/' ∷ unescape p) × (u.raw_query ≡ []) × (u.host ≡ codes "b")
toy_decoded p u parsed =
    let same : record { host = codes "b"; path = unescape (b'/' ∷ p); raw_query = [] } ≡ u =
      cc (toy_parse-base (b'/' ∷ p), parsed, ap (λ e. toy_parse (e ++ b'/' ∷ p)) toy_endpoint) in
    (
      ap (λ (w : Url). w.path) (sym same) ∙ unescape-cons b'/' p refl,
      ap (λ (w : Url). w.raw_query) (sym same),
      ap (λ (w : Url). w.host) (sym same),
    )

toy_own_error : (url : Bytes) → toy_parse url ≢ err not_found
unfolding strip_prefix
toy_own_error url h = elim (Option-cases (strip_prefix base url)) [
  | inl bad ↦ cc (rw bad at h)
  | inr (rest, good) ↦ cc (rw good at h)
]

abbrev toy_laws : ParserLaws toy_web toy_s3
toy_laws = record {
  host = codes "b";
  decoded = λ p u h parsed. toy_decoded p u parsed;
  own_error = toy_own_error;
  plain = rw toy_endpoint (ground arith);
}

toy_send_put :
    (req : Request) (s : Objects)
    → req.method ≡ codes "PUT"
    → toy_send req s ≡ (replied 200 [], GoMap.put req.url.path req.body s)
toy_send_put req s h = rw ((==_iff req.method (codes "PUT")).1 h)

toy_send_get :
    (req : Request) (s : Objects)
    → req.method ≡ codes "GET"
    → toy_send req s ≡ (answer_get (GoMap.get req.url.path s), s)
unfolding bytes_beq
toy_send_get req s h = rw h

toy_send_delete :
    (req : Request) (s : Objects)
    → req.method ≡ codes "DELETE"
    → toy_send req s ≡ (replied 204 [], GoMap.delete req.url.path s)
unfolding bytes_beq
toy_send_delete req s h = rw h

toy_get_found :
    (req : Request) (s s' : Objects) (reply : Reply) (bs : Bytes)
    → req.method ≡ codes "GET"
    → toy_send req s ≡ (ok reply, s')
    → reply.status / 100 ≡ 2
    → reply.body ≡ ok bs
    → GoMap.get req.url.path s ≡ some bs
toy_get_found req s s' reply bs h sent good body =
    let got : answer_get (GoMap.get req.url.path s) ≡ ok reply =
      ap (λ r. r.0) (sym (toy_send_get req s h) ∙ sent) in
    elim (Option-cases (GoMap.get req.url.path s)) [
      | inl missing ↦ cc (rw missing at got, good)
      | inr (cs, there) ↦ cc (rw there at got, body, there)
    ]

toy_get_missing :
    (req : Request) (s s' : Objects) (reply : Reply)
    → req.method ≡ codes "GET"
    → toy_send req s ≡ (ok reply, s')
    → reply.status ≡ 404
    → GoMap.get req.url.path s ≡ none
toy_get_missing req s s' reply h sent code =
    let got : answer_get (GoMap.get req.url.path s) ≡ ok reply =
      ap (λ r. r.0) (sym (toy_send_get req s h) ∙ sent) in
    elim (Option-cases (GoMap.get req.url.path s)) [
      | inl missing ↦ missing
      | inr (cs, there) ↦
          let got' = rw there at got in
          let same : record { status = 200; body = ok cs; partial = [] } ≡ reply = cc got' in
          let status : 200 ≡ reply.status = ap (λ (r : Reply). r.status) same in
          absurd (omega (arith, status, code))
    ]

answer_get-body :
    (o : Option Bytes) (reply : Reply) → answer_get o ≡ ok reply → reply.body ≢ err not_found
answer_get-body none reply h e = cc (h, e)
answer_get-body (some bs) reply h e = cc (h, e)

toy_body :
    (req : Request) (s s' : Objects) (reply : Reply)
    → toy_send req s ≡ (ok reply, s')
    → reply.body ≢ err not_found
toy_body req s s' reply sent e = elim (Bool-cases (req.method == codes "PUT")) [
  | inl puts ↦ cc (rw puts at sent, e)
  | inr no_put ↦ elim (Bool-cases (req.method == codes "DELETE")) [
    | inl deletes ↦ cc (rw (no_put, deletes) at sent, e)
    | inr no_delete ↦
        answer_get-body (GoMap.get req.url.path s) reply
          (ap (λ r. r.0) (rw (no_put, no_delete) at sent)) e
  ]
]

same_flip : (a b : Bytes) → (a == b) ≡ (b == a)
same_flip a b = ground (arith, ==_iff a b, ==_iff b a)

toy_bucket : Bucket toy_web (codes "b")
toy_bucket = record {
  lookup = λ p s. GoMap.get p s;
  put_done = λ req s s' reply p o h sent good.
      ap (GoMap.get p) (sym (ap (λ r. r.1) (sym (toy_send_put req s h) ∙ sent)))
      ∙ get-put req.url.path p req.body s
      ∙ ap (λ t. if t then some req.body else GoMap.get p s) (same_flip req.url.path p);
  get_found = λ req s s' reply bs o. toy_get_found req s s' reply bs;
  get_missing = λ req s s' reply o. toy_get_missing req s s' reply;
  own_error = toy_body;
  delete_done = λ req s s' reply p o h sent good.
      ap (GoMap.get p) (sym (ap (λ r. r.1) (sym (toy_send_delete req s h) ∙ sent)))
      ∙ get-delete req.url.path p s
      ∙ ap (λ t. if t then none else GoMap.get p s) (same_flip req.url.path p);
}

abbrev chunk_a : Bytes
chunk_a = codes "ab12"

abbrev content_a : Bytes
content_a = codes "hello"

abbrev kept : Objects
kept = (codes "/chunks/ab/ab12", content_a) ∷ []

put_a : put toy_web toy_crypto toy_s3 chunk_a content_a [] ≡ (none, kept)
unfolding put new_request new_s3 endpoint_of object_key request_url path_escape slashes unescape
    strip_prefix bytes_beq GoMap.put sign
put_a = refl

get_a : get toy_web toy_crypto toy_s3 chunk_a kept ≡ (ok content_a, kept)
unfolding get new_request new_s3 endpoint_of object_key request_url path_escape slashes unescape
    strip_prefix bytes_beq GoMap.get sign
get_a = refl

chunk_a-IsByte : All IsByte chunk_a
chunk_a-IsByte = omega arith

put-held_example : held toy_web toy_crypto toy_s3 toy_laws toy_bucket (codes "c") kept ≡ (
    if codes "c" == chunk_a
    then some content_a
    else held toy_web toy_crypto toy_s3 toy_laws toy_bucket (codes "c") [])
put-held_example =
    put-held toy_web toy_crypto toy_s3 toy_laws toy_bucket chunk_a content_a [] kept chunk_a-IsByte
      put_a (codes "c")

get-Reports_example :
    Reports (ok content_a) (held toy_web toy_crypto toy_s3 toy_laws toy_bucket chunk_a kept)
get-Reports_example =
    get-Reports toy_web toy_crypto toy_s3 toy_laws toy_bucket chunk_a (ok content_a) kept kept
      chunk_a-IsByte get_a
