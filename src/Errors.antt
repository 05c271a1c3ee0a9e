-- ===== src/Errors.antt =====
-- Go's `error` values and the pair `(value, error)` that a fallible call returns. An error that
-- `fmt.Errorf` wraps with `%w` is a constructor over the wrapped one, without its fixed text.
use p2p_container_distributi.Prelude.{ℕ, ◌≡◌, refl, ◌⊎◌, inl, inr, Bool, true, false, Bytes}

pub data Error : Type 0 where
  -- io.EOF and io.ErrUnexpectedEOF
  eof unexpected_eof : Error
  -- storage.ErrNotFound
  not_found : Error
  -- os.ErrNotExist
  not_exist : Error
  -- any other error of the system or the network
  other : Error
  -- "chunk: reading blob %s: %w"
  reading : Bytes → Error → Error
  -- "chunk: fetching %s: %w", "chunk: integrity check failed for %s", "chunk: writing %s: %w"
  fetching : Bytes → Error → Error
  integrity : Bytes → Error
  writing : Bytes → Error → Error
  -- a peer or the store answered with this status
  status : ℕ → Error
  -- "storage: s3 %s %s: %w" and "storage: s3 %s %s: status %d: %s", by the operation and the chunk
  s3_call : Bytes → Bytes → Error → Error
  s3_status : Bytes → Bytes → ℕ → Bytes → Error

pub data Result {ℓ} (A : Type ℓ) : Type ℓ where
  ok : A → Result A
  err : Error → Result A

pub Result-cases {ℓ} :
    {A : Type ℓ} (r : Result A) → ((a : A) × (r ≡ ok a)) ⊎ ((e : Error) × (r ≡ err e))
Result-cases (ok a) = inl (a, refl)
Result-cases (err e) = inr (e, refl)

-- err == io.EOF || err == io.ErrUnexpectedEOF
abbrev pub is_eof : Error → Bool
is_eof eof = true
is_eof _ = false

abbrev pub is_unexpected_eof : Error → Bool
is_unexpected_eof unexpected_eof = true
is_unexpected_eof _ = false
