-- ===== src/Storage/S3/Answers.antt =====
-- The answers that a successful call of internal/storage/s3.go met.
use p2p_container_distributi.Prelude.{
  ◌/◌, ◌≡◌, ap, ap₂, true, ◌||◌, [], Bytes, bytes_eq, codes, eqb, eqb_iff, none, Bool-cases, inl,
  inr,
}
use p2p_container_distributi.Errors.{ok, Result-cases}
use p2p_container_distributi.Storage.S3.Sign.{S3, Request, Crypto}
use p2p_container_distributi.Storage.S3.{Reply, Web, object_key, new_request, put, get, delete}

module _ {S : Type 0} (web : Web S) (crypto : Crypto) (c : S3) where
  -- The answer that a successful `Put` met.
  pub put_answer :
      (id bs : Bytes) (s s' : S)
      → put web crypto c id bs s ≡ (none, s')
      → (req : Request) × (reply : Reply) × (new_request web crypto c
            (codes "PUT")
            (object_key id)
            bs
            s
          ≡ ok req)
        × (web.send req s ≡ (ok reply, s'))
        × (reply.status / 100 ≡ 2)
  unfolding put
  put_answer id bs s s' h =
      elim (Result-cases (new_request web crypto c (codes "PUT") (object_key id) bs s)) [
        | inr (e, failed) ↦ cc (rw (failed, put) at h)
        | inl (req, made) ↦ elim (Result-cases (web.send req s).0) [
          | inr (e, failed) ↦ cc (rw (made, put, failed) at h)
          | inl (reply, sent) ↦ elim (Bool-cases (eqb (reply.status / 100) 2)) [
            | inr bad ↦ cc (rw (made, put, sent, bad) at h)
            | inl good ↦
                let done = rw (made, put, sent, good) at h in
                (
                  req,
                  reply,
                  made,
                  ap₂ (λ a b. (a, b)) sent (ap (λ r. r.1) done),
                  (eqb_iff (reply.status / 100) 2).0 good,
                )
          ]
        ]
      ]

  -- The answer that a `Get` with content met.
  pub get_answer :
      (id bs : Bytes) (s s' : S)
      → get web crypto c id s ≡ (ok bs, s')
      → (req : Request) × (reply : Reply) × (new_request web crypto c
            (codes "GET")
            (object_key id)
            []
            s
          ≡ ok req)
        × (web.send req s ≡ (ok reply, s'))
        × (reply.status / 100 ≡ 2)
        × (reply.body ≡ ok bs)
  unfolding get
  get_answer id bs s s' h =
      elim (Result-cases (new_request web crypto c (codes "GET") (object_key id) [] s)) [
        | inr (e, failed) ↦ cc (rw (failed, get) at h)
        | inl (req, made) ↦ elim (Result-cases (web.send req s).0) [
          | inr (e, failed) ↦ cc (rw (made, get, failed) at h)
          | inl (reply, sent) ↦ elim (Bool-cases (eqb reply.status 404)) [
            | inl missing ↦ cc (rw (made, get, sent, missing) at h)
            | inr there ↦ elim (Bool-cases (eqb (reply.status / 100) 2)) [
              | inr bad ↦ cc (rw (made, get, sent, there, bad) at h)
              | inl good ↦
                  let done = rw (made, get, sent, there, good) at h in
                  (
                    req,
                    reply,
                    made,
                    ap₂ (λ a b. (a, b)) sent (ap (λ r. r.1) done),
                    (eqb_iff (reply.status / 100) 2).0 good,
                    ap (λ r. r.0) done,
                  )
            ]
          ]
        ]
      ]

  -- The answer that a successful `Delete` met.
  pub delete_answer :
      (id : Bytes) (s s' : S)
      → delete web crypto c id s ≡ (none, s')
      → (req : Request) × (reply : Reply) × (new_request web crypto c
            (codes "DELETE")
            (object_key id)
            []
            s
          ≡ ok req)
        × (web.send req s ≡ (ok reply, s'))
        × ((eqb (reply.status / 100) 2 || eqb reply.status 404) ≡ true)
  unfolding delete
  delete_answer id s s' h =
      elim (Result-cases (new_request web crypto c (codes "DELETE") (object_key id) [] s)) [
        | inr (e, failed) ↦ cc (rw (failed, delete) at h)
        | inl (req, made) ↦ elim (Result-cases (web.send req s).0) [
          | inr (e, failed) ↦ cc (rw (made, delete, failed) at h)
          | inl (reply, sent) ↦
              let sent_eq : (s'' : S)
                  → (web.send req s).1 ≡ s''
                  → web.send req s ≡ (ok reply, s'') =
                λ s'' e. ap₂ (λ a b. (a, b)) sent e in
              elim (Bool-cases (eqb (reply.status / 100) 2)) [
                | inl good ↦
                    let done = rw (made, delete, sent, good) at h in
                    (req, reply, made, sent_eq s' (ap (λ r. r.1) done), rw good)
                | inr bad ↦ elim (Bool-cases (eqb reply.status 404)) [
                  | inl missing ↦
                      let done = rw (made, delete, sent, bad, missing) at h in
                      (req, reply, made, sent_eq s' (ap (λ r. r.1) done), rw (bad, missing))
                  | inr there ↦ cc (rw (made, delete, sent, bad, there) at h)
                ]
              ]
        ]
      ]
