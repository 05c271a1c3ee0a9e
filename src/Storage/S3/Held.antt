-- ===== src/Storage/S3/Held.antt =====
-- The store of internal/storage/s3.go as a map from ids to contents, over a bucket that does what
-- the documentation of S3 says of its answers.
use p2p_container_distributi.Prelude.{
  ◌/◌, ◌≡◌, ◌≢◌, sym, ap, ap₂, ◌∙◌, true, ◌||◌, [], ◌∷◌, Bytes, bytes_eq, ◌==◌, ==_iff, codes, eqb,
  eqb_iff, if◌then◌else◌, Option, none, some, Bool-cases, inl, inr, All, drop,
}
use p2p_container_distributi.Errors.{not_found, Result, ok, err, Result-cases}
use p2p_container_distributi.Chunk.Hex.{IsByte}
use p2p_container_distributi.Storage.S3.Sign.{S3, Request, Crypto}
use p2p_container_distributi.Storage.S3.{
  Reply, Web, object_key, request_url, new_request, put, get, delete,
}
use p2p_container_distributi.Storage.S3.Paths.{
  ParserLaws, IsObject, object_key_injective, request-path,
}
use p2p_container_distributi.Storage.S3.Answers.{put_answer, get_answer, delete_answer}

-- A bucket at a host: the object at each path, and how the answers to requests for objects tell of
-- it.
pub record Bucket {S : Type 0} (web : Web S) (host : Bytes) : Type 0 where
  pub lookup : Bytes → S → Option Bytes
  pub put_done :
      (req : Request) (s s' : S) (reply : Reply) (p : Bytes)
      → IsObject host req
      → req.method ≡ codes "PUT"
      → web.send req s ≡ (ok reply, s')
      → reply.status / 100 ≡ 2
      → lookup p s' ≡ (if p == req.url.path then some req.body else lookup p s)
  pub get_found :
      (req : Request) (s s' : S) (reply : Reply) (bs : Bytes)
      → IsObject host req
      → req.method ≡ codes "GET"
      → web.send req s ≡ (ok reply, s')
      → reply.status / 100 ≡ 2
      → reply.body ≡ ok bs
      → lookup req.url.path s ≡ some bs
  pub get_missing :
      (req : Request) (s s' : S) (reply : Reply)
      → IsObject host req
      → req.method ≡ codes "GET"
      → web.send req s ≡ (ok reply, s')
      → reply.status ≡ 404
      → lookup req.url.path s ≡ none
  -- an error of reading a body is not the store's own
  pub own_error :
      (req : Request) (s s' : S) (reply : Reply)
      → web.send req s ≡ (ok reply, s')
      → reply.body ≢ err not_found
  pub delete_done :
      (req : Request) (s s' : S) (reply : Reply) (p : Bytes)
      → IsObject host req
      → req.method ≡ codes "DELETE"
      → web.send req s ≡ (ok reply, s')
      → (eqb (reply.status / 100) 2 || eqb reply.status 404) ≡ true
      → lookup p s' ≡ (if p == req.url.path then none else lookup p s)

-- What the result of a `Get` says of what is held.
abbrev pub Reports : Result Bytes → Option Bytes → Type 0
Reports (ok bs) h = h ≡ some bs
Reports (err not_found) h = h ≡ none
Reports (err _) h = Unit

module _ {S : Type 0} (web : Web S) (crypto : Crypto) (c : S3) (laws : ParserLaws web c)
    (bucket : Bucket web laws.host) where
  -- What the bucket holds for a chunk.
  abbrev pub held : Bytes → S → Option Bytes
  held id s = bucket.lookup (b'/' ∷ object_key id) s

  -- The paths of two chunks are equal where the ids are.
  path_test :
      (id j : Bytes) (req : Request)
      → req.url.path ≡ b'/' ∷ object_key id
      → ((b'/' ∷ object_key j) == req.url.path) ≡ (j == id)
  path_test id j req at_path = elim (Bool-cases (j == id)) [
    | inl same ↦
        (==_iff (b'/' ∷ object_key j) req.url.path).1
          (ap (λ i. b'/' ∷ object_key i) ((==_iff j id).0 same) ∙ sym at_path)
        ∙ sym same
    | inr other ↦ elim (Bool-cases ((b'/' ∷ object_key j) == req.url.path)) [
      | inr apart ↦ apart ∙ sym other
      | inl meets ↦
          let same : j ≡ id =
            object_key_injective j id
              (ap (drop 1) ((==_iff (b'/' ∷ object_key j) req.url.path).0 meets ∙ at_path)) in
          cc ((==_iff j id).1 same)
    ]
  ]

  -- In a bucket that does what S3 documents of requests for objects, and with a parser of URLs that
  -- decodes the path: a
  -- `Put` that returns no error, for an id of bytes, changes what is held for its own chunk, to
  -- the data, and for no other.
  pub put-held :
      (id bs : Bytes) (s s' : S)
      → All IsByte id
      → put web crypto c id bs s ≡ (none, s')
      → (j : Bytes) → held j s' ≡ (if j == id then some bs else held j s)
  put-held id bs s s' h done j =
      let (req, reply, made, sent, good) = put_answer web crypto c id bs s s' done in
      let (at_path, is_put, body, object) =
        request-path web crypto c laws (codes "PUT") id bs s req h made in
      bucket.put_done req s s' reply (b'/' ∷ object_key j) object is_put sent good
      ∙ ap₂ (λ t d. if t then some d else held j s) (path_test id j req at_path) body

  -- What a `Get` returns is what the bucket holds for the chunk.
  get-held :
      (id bs : Bytes) (s s' : S)
      → All IsByte id
      → get web crypto c id s ≡ (ok bs, s')
      → held id s ≡ some bs
  get-held id bs s s' h done =
      let (req, reply, made, sent, good, body) = get_answer web crypto c id bs s s' done in
      let (at_path, is_get, _, object) =
        request-path web crypto c laws (codes "GET") id [] s req h made in
      ap (λ p. bucket.lookup p s) (sym at_path)
      ∙ bucket.get_found req s s' reply bs object is_get sent good body

  -- The answer that a `Get` that returns `not_found` met.
  missing_answer :
      (id : Bytes) (s s' : S)
      → get web crypto c id s ≡ (err not_found, s')
      → (req : Request) × (reply : Reply) × (new_request web crypto c
            (codes "GET")
            (object_key id)
            []
            s
          ≡ ok req)
        × (web.send req s ≡ (ok reply, s'))
        × (reply.status ≡ 404)
  unfolding get new_request
  missing_answer id s s' h = elim (Result-cases (web.parse_url (request_url c (object_key id)))) [
    | inr (e, failed) ↦
        let given = ap (λ r. r.0) (rw (failed, get, new_request) at h) in
        let same : e ≡ not_found = cc given in
        absurd (laws.own_error (request_url c (object_key id)) (failed ∙ ap err same))
    | inl (u, parsed) ↦
        elim (Result-cases (new_request web crypto c (codes "GET") (object_key id) [] s)) [
          | inr (e, failed) ↦ cc (rw (parsed, new_request) at failed)
          | inl (req, made) ↦ elim (Result-cases (web.send req s).0) [
            | inr (e, failed) ↦ cc (rw (made, get, failed) at h)
            | inl (reply, sent) ↦
                let sent_eq : (s'' : S)
                    → (web.send req s).1 ≡ s''
                    → web.send req s ≡ (ok reply, s'') =
                  λ s'' e. ap₂ (λ a b. (a, b)) sent e in
                elim (Bool-cases (eqb reply.status 404)) [
                  | inl missing ↦
                      let done = rw (made, get, sent, missing) at h in
                      (
                        req,
                        reply,
                        made,
                        sent_eq s' (ap (λ r. r.1) done),
                        (eqb_iff reply.status 404).0 missing,
                      )
                  | inr there ↦ elim (Bool-cases (eqb (reply.status / 100) 2)) [
                    | inr bad ↦ cc (rw (made, get, sent, there, bad) at h)
                    | inl good ↦
                        let done = rw (made, get, sent, there, good) at h in
                        absurd (
                          bucket.own_error req s s' reply (sent_eq s' (ap (λ r. r.1) done))
                            (ap (λ r. r.0) done))
                  ]
                ]
          ]
        ]
  ]

  -- `ErrNotFound` says that the bucket holds nothing for the chunk.
  get-missing :
      (id : Bytes) (s s' : S)
      → All IsByte id
      → get web crypto c id s ≡ (err not_found, s')
      → held id s ≡ none
  get-missing id s s' h done =
      let (req, reply, made, sent, missing) = missing_answer id s s' done in
      let (at_path, is_get, _, object) =
        request-path web crypto c laws (codes "GET") id [] s req h made in
      ap (λ p. bucket.lookup p s) (sym at_path)
      ∙ bucket.get_missing req s s' reply object is_get sent missing

  -- In a bucket that does what S3 documents of requests for objects, and with a parser of URLs that
  -- decodes the path: a
  -- `Delete` that returns no error, for an id of bytes, removes what is held for its own chunk,
  -- and nothing else; it is no error that there was nothing.
  pub delete-held :
      (id : Bytes) (s s' : S)
      → All IsByte id
      → delete web crypto c id s ≡ (none, s')
      → (j : Bytes) → held j s' ≡ (if j == id then none else held j s)
  delete-held id s s' h done j =
      let (req, reply, made, sent, good) = delete_answer web crypto c id s s' done in
      let (at_path, is_delete, _, object) =
        request-path web crypto c laws (codes "DELETE") id [] s req h made in
      bucket.delete_done req s s' reply (b'/' ∷ object_key j) object is_delete sent good
      ∙ ap (λ t. if t then none else held j s) (path_test id j req at_path)

  -- In a bucket that does what S3 documents of requests for objects, and with a parser of URLs that
  -- decodes the path: the
  -- content that a `Get` returns, for an id of bytes, is what is held for the chunk, and
  -- `ErrNotFound` says that nothing is held for it.
  pub get-Reports :
      (id : Bytes) (r : Result Bytes) (s s' : S)
      → All IsByte id
      → get web crypto c id s ≡ (r, s')
      → Reports r (held id s)
  get-Reports id (ok bs) s s' h done = get-held id bs s s' h done
  get-Reports id (err not_found) s s' h done = get-missing id s s' h done
  get-Reports id (err _) s s' h done = tt
