-- ===== src/Storage/S3/Verify.antt =====
-- That `sign` of internal/storage/s3.go gives the server what it checks.
use p2p_container_distributi.Prelude.{
  ◌≡◌, refl, sym, ap, ◌∙◌, Bool, true, ◌&&◌, not, List, [], ◌∷◌, Bytes, bytes_eq, bytes_beq, ◌==◌,
  ==_iff, codes, All, Bool-cases, inl, inr, ◌⊎◌, if◌then◌else◌, map,
}
use p2p_container_distributi.Prelude.Sorting.{sort_by}
use p2p_container_distributi.GoMap
use p2p_container_distributi.Text.{join_with, to_lower, has_prefix, strip_prefix, bytes_le}
use p2p_container_distributi.Chunk.{encode_to_string}
use p2p_container_distributi.Storage.S3.Sign.{
  S3, Stamp, Request, Crypto, Headers, canonical_from, first_value, set_header, get_header,
  amz_headers, header_lines, sorted_headers, canonicalize_headers, sha256_hex, signing_headers,
  canonical_request, canonical_uri, credential_scope, derive_signing_key, auth_header, sign,
}
use p2p_container_distributi.Storage.S3.Server.{
  is_unreserved, uri_encode, server_names, server_headers, server_list, server_authorization,
  accepts,
}

uri_encode-plain : (s : Bytes) → All (λ b. is_unreserved b ≡ true) s → uri_encode s ≡ s
unfolding uri_encode
uri_encode-plain [] h = refl
uri_encode-plain (b ∷ s) h = rw (h.0) (ap (◌∷◌ b) (uri_encode-plain s h.1))

-- The headers of a request that was signed, with what stands behind them.
abbrev pub signed_set : S3 → Bytes → Bytes → Bytes → Headers → Headers
signed_set c date hash host rest =
    (codes "X-Amz-Date", date ∷ [])
    ∷ (codes "X-Amz-Content-Sha256", hash ∷ [])
    ∷ (if not (c.session_token == [])
        then (codes "X-Amz-Security-Token", c.session_token ∷ []) ∷ (codes "Host", host ∷ []) ∷ rest
        else (codes "Host", host ∷ []) ∷ rest)

abbrev authorized : Bytes → Headers
authorized value = (codes "Authorization", value ∷ []) ∷ []

-- A request without headers, as `newRequest` signs it, or one that was signed with the same
-- credentials before, as `List` signs it again.
abbrev pub IsFresh : S3 → Headers → Type 0
IsFresh c h =
    (h ≡ [])
    ⊎ ((date : Bytes) × (hash : Bytes) × (host : Bytes) × (value : Bytes) × (h
          ≡ signed_set c date hash host ((codes "Authorization", value ∷ []) ∷ [])))

module _ (crypto : Crypto) (c : S3) (now : Stamp) where
  first_time :
      (req : Request)
      → req.headers ≡ []
      → signing_headers crypto c now req req.body
        ≡ signed_set c now.amz_date (sha256_hex crypto req.body) req.url.host []
  unfolding signing_headers set_header canonical_from bytes_beq GoMap.put
  first_time req none_ = elim (Bool-cases (c.session_token == [])) [
    | inl off ↦ rw (none_, off) refl
    | inr on ↦ rw (none_, on) refl
  ]

  again :
      (req : Request) (date hash host value : Bytes)
      → req.headers ≡ signed_set c date hash host (authorized value)
      → signing_headers crypto c now req req.body
        ≡ signed_set c now.amz_date (sha256_hex crypto req.body) req.url.host (authorized value)
  unfolding signing_headers set_header canonical_from bytes_beq GoMap.put
  again req date hash host value signed_ = elim (Bool-cases (c.session_token == [])) [
    | inl off ↦ rw (signed_, off) refl
    | inr on ↦ rw (signed_, on) refl
  ]

module _ (c : S3) (date hash host value : Bytes) where
  abbrev signed : Headers
  signed = signed_set c date hash host (authorized value)

  -- The new signature takes the place of the old one.
  authorized_first :
      set_header (codes "Authorization") value (signed_set c date hash host []) ≡ signed
  unfolding set_header canonical_from bytes_beq GoMap.put
  authorized_first = elim (Bool-cases (c.session_token == [])) [
    | inl off ↦ rw off refl
    | inr on ↦ rw on refl
  ]

  authorized_again :
      (old : Bytes)
      → set_header (codes "Authorization") value (signed_set c date hash host (authorized old))
        ≡ signed
  unfolding set_header canonical_from bytes_beq GoMap.put
  authorized_again old = elim (Bool-cases (c.session_token == [])) [
    | inl off ↦ rw off refl
    | inr on ↦ rw on refl
  ]

  read_back :
      (get_header (codes "x-amz-date") signed ≡ date)
      × (get_header (codes "x-amz-content-sha256") signed ≡ hash)
      × (get_header (codes "Host") signed ≡ host)
      × (get_header (codes "host") signed ≡ host)
      × (get_header (codes "x-amz-security-token") signed ≡ c.session_token)
      × (get_header (codes "Authorization") signed ≡ value)
  unfolding get_header first_value canonical_from bytes_beq GoMap.get
  read_back = elim (Bool-cases (c.session_token == [])) [
    | inl off ↦
        let none_ : c.session_token ≡ [] = (==_iff c.session_token []).0 off in
        rw off (refl, refl, refl, refl, sym none_, refl)
    | inr on ↦ rw on (refl, refl, refl, refl, refl, refl)
  ]

-- The headers that are signed, in order.
abbrev wanted : S3 → Bytes → Bytes → Bytes → List (Bytes × Bytes)
wanted c date hash host =
    (codes "host", host)
    ∷ (codes "x-amz-content-sha256", hash)
    ∷ (codes "x-amz-date", date)
    ∷ (if not (c.session_token == [])
        then (codes "x-amz-security-token", c.session_token) ∷ []
        else [])

sorted_wanted :
    (c : S3) (date hash host : Bytes) (rest : Headers)
    → amz_headers rest ≡ []
    → sorted_headers (signed_set c date hash host rest) ≡ wanted c date hash host
unfolding sorted_headers amz_headers sort_by bytes_le to_lower has_prefix strip_prefix join_with
    get_header first_value canonical_from bytes_beq GoMap.get
sorted_wanted c date hash host rest plain = elim (Bool-cases (c.session_token == [])) [
  | inl off ↦ rw (off, plain) refl
  | inr on ↦ rw (on, plain) refl
]

-- The server reads from the headers what the client signed.
server_parts :
    (c : S3) (date hash host : Bytes) (req : Request)
    → get_header (codes "x-amz-date") req.headers ≡ date
    → get_header (codes "x-amz-content-sha256") req.headers ≡ hash
    → get_header (codes "host") req.headers ≡ host
    → get_header (codes "x-amz-security-token") req.headers ≡ c.session_token
    → (server_headers (server_names req) req.headers ≡ header_lines (wanted c date hash host))
      × (server_list (server_names req)
          ≡ join_with (codes ";") (map (λ (e : Bytes × Bytes). e.0) (wanted c date hash host)))
unfolding header_lines join_with server_names server_headers server_list
server_parts c date hash host req date_is hash_is host_is token_is =
    elim (Bool-cases (c.session_token == [])) [
      | inl off ↦ rw (token_is, off, host_is, hash_is, date_is) (refl, refl)
      | inr on ↦ rw (token_is, on, host_is, hash_is, date_is, token_is) (refl, refl)
    ]

all_three : {a b d : Bool} → a ≡ true → b ≡ true → d ≡ true → (a && (b && d)) ≡ true
all_three x y z = rw (x, y, z)

server_uri :
    (path : Bytes)
    → All (λ b. is_unreserved b ≡ true) path
    → (if path == [] then codes "/" else uri_encode path) ≡ canonical_uri path
unfolding canonical_uri
server_uri path plain = ap (λ p. if path == [] then codes "/" else p) (uri_encode-plain path plain)

module _ (crypto : Crypto) (c : S3) (now : Stamp) (req : Request)
    (plain : All (λ b. is_unreserved b ≡ true) req.url.path) where
  -- The server computes what the client has written.
  same_text :
      (h sent : Headers) (w : List (Bytes × Bytes))
      → sorted_headers h ≡ w
      → server_headers (server_names (record req { headers = sent })) sent ≡ header_lines w
      → server_list (server_names (record req { headers = sent }))
        ≡ join_with (codes ";") (map (λ (e : Bytes × Bytes). e.0) w)
      → get_header (codes "x-amz-date") sent ≡ now.amz_date
      → server_authorization crypto c now.date_stamp (record req { headers = sent })
        ≡ auth_header crypto c now req h req.body
  unfolding auth_header canonical_request canonicalize_headers credential_scope derive_signing_key
      sha256_hex
  same_text h sent w sorted lines names date_is =
      rw (sorted, lines, names, date_is, server_uri req.url.path plain) (unfold join_with in refl)

  -- What the server finds in a request with the signature over the headers `h`.
  checked :
      (h rest sent : Headers)
      → h ≡ signed_set c now.amz_date (sha256_hex crypto req.body) req.url.host rest
      → amz_headers rest ≡ []
      → sent
        ≡ signed_set c now.amz_date
            (sha256_hex crypto req.body)
            req.url.host
            (authorized (auth_header crypto c now req h req.body))
      → accepts crypto c now.date_stamp (record req { headers = sent }) ≡ true
  unfolding accepts
  checked h rest sent at_headers no_amz at_sent =
      let hash = sha256_hex crypto req.body in
      let value = auth_header crypto c now req h req.body in
      let (date_is, hash_is, host_is, low_host, token_is, value_is) =
        read_back c now.amz_date hash req.url.host value in
      let date_sent = ap (get_header (codes "x-amz-date")) at_sent ∙ date_is in
      let hash_sent = ap (get_header (codes "x-amz-content-sha256")) at_sent ∙ hash_is in
      let (lines, names) =
        server_parts c now.amz_date hash req.url.host (record req { headers = sent }) date_sent
          hash_sent (ap (get_header (codes "host")) at_sent ∙ low_host)
          (ap (get_header (codes "x-amz-security-token")) at_sent ∙ token_is) in
      let sorted : sorted_headers h ≡ wanted c now.amz_date hash req.url.host =
        ap sorted_headers at_headers ∙ sorted_wanted c now.amz_date hash req.url.host rest no_amz in
      let hash_text : hash ≡ encode_to_string (crypto.sha256 req.body) =
        unfold sha256_hex in refl in
      let text =
        same_text h sent (wanted c now.amz_date hash req.url.host) sorted lines names date_sent in
      all_three ((==_iff _ _).1 (hash_sent ∙ hash_text))
        ((==_iff _ _).1 (ap (get_header (codes "Host")) at_sent ∙ host_is))
        ((==_iff _ _).1 (ap (get_header (codes "Authorization")) at_sent ∙ value_is ∙ sym text))

  -- A request without headers, or one that was signed with the same credentials before, to a path
  -- of bytes that need no escape: once signed, it passes the check of a server that has the same
  -- credentials, takes the query as it is sent, and computes the signature from the request as it
  -- comes, by Signature Version 4.
  pub sign-accepts :
      IsFresh c req.headers
      → accepts crypto c now.date_stamp (sign crypto c now req req.body) ≡ true
  unfolding sign
  sign-accepts (inl none_) =
      let value =
        auth_header crypto c now req (signing_headers crypto c now req req.body) req.body in
      checked (signing_headers crypto c now req req.body) [] _ (first_time crypto c now req none_)
        (unfold amz_headers in refl)
        (ap (set_header (codes "Authorization") value) (first_time crypto c now req none_)
          ∙ authorized_first c now.amz_date (sha256_hex crypto req.body) req.url.host value)
  sign-accepts (inr (date, hash, host, old, signed_)) =
      let value =
        auth_header crypto c now req (signing_headers crypto c now req req.body) req.body in
      let now_set = again crypto c now req date hash host old signed_ in
      checked (signing_headers crypto c now req req.body) (authorized old) _ now_set
        (unfold amz_headers to_lower has_prefix strip_prefix in refl)
        (ap (set_header (codes "Authorization") value) now_set
          ∙ authorized_again c now.amz_date (sha256_hex crypto req.body) req.url.host value old)
