-- ===== src/Chunk.antt =====
-- pkg/chunk/chunk.go: a blob is split into chunks that are named by their hash, and put together
-- again from a manifest. SHA-256 is the parameter `sha256`. Lengths are unbounded numbers: a blob
-- in memory is far below 2^63 bytes.
pub mod Hex
pub mod Pieces
pub mod Split
pub mod Join
use p2p_container_distributi.Prelude.{
  ℕ, zero, suc, ◌+◌, ◌-◌, ◌*◌, ◌/◌, ◌%◌, ◌≡◌, Bool, true, false, ◌&&◌, not, List, [], ◌∷◌, ◌++◌,
  map, Option, none, some, Bytes, bytes_eq, ◌==◌, length, take, drop, ltb, leb, eqb, if◌then◌else◌,
}
use p2p_container_distributi.Prelude.Int.{ℤ, pos, pos_part}
use p2p_container_distributi.Errors.{
  Error, eof, unexpected_eof, reading, fetching, integrity, writing, Result, ok, err, is_eof,
  is_unexpected_eof,
}

abbrev pub default_size : ℕ
default_size = 4 * 1024 * 1024

-- The field `data` of the source is `content`.
pub record Chunk : Type 0 where
  pub id : Bytes
  pub index : ℕ
  pub content : Bytes

pub record Manifest : Type 0 where
  pub blob_id : Bytes
  pub size : ℕ
  pub chunk_ids : List Bytes
  pub chunk_size : ℕ

-- hex.EncodeToString
pub hex_digit : ℕ → ℕ
hex_digit d = if ltb d 10 then b'0' + d else b'a' + (d - 10)

unfoldable pub encode_to_string : Bytes → Bytes
unfolding hex_digit
encode_to_string [] = []
encode_to_string (b ∷ bs) = hex_digit (b / 16) ∷ hex_digit (b % 16) ∷ encode_to_string bs

-- An io.Reader: the bytes that it still has, and the error that it gives after them.
pub record Reader : Type 0 where
  pub pending : Bytes
  pub final : Error

-- io.ReadFull into a buffer of `n` bytes: what was read, the error if any, and the reader after.
pub read_full : Reader → ℕ → Bytes × Option Error × Reader
read_full r n =
    if leb n (length r.pending)
    then (take n r.pending, none, record r { pending = drop n r.pending })
    else (
      r.pending,
      some (if is_eof r.final && ltb 0 (length r.pending) then unexpected_eof else r.final),
      record r { pending = [] },
    )

-- `chunkSize <= 0` asks for the default.
unfoldable pub effective_size : ℤ → ℕ
effective_size chunk_size =
    if eqb (pos_part chunk_size) 0 then default_size else pos_part chunk_size

-- What the loop of `Split` has when it goes on or ends.
pub record Progress : Type 0 where
  pub chunks : List Chunk
  pub total_size : ℕ
  pub idx : ℕ

module _ (sha256 : Bytes → Bytes) where
  -- `ID`
  unfoldable pub chunk_id : Bytes → Bytes
  chunk_id bs = encode_to_string (sha256 bs)

  unfoldable pub verify : Bytes → Bytes → Bool
  verify id bs = chunk_id bs == id

  -- if n > 0 { … }
  pub append_chunk : Bytes → Progress → Progress
  append_chunk bs p =
      if ltb 0 (length bs)
      then record p {
        chunks = p.chunks ++ record { id = chunk_id bs; index = p.idx; content = bs } ∷ [];
        total_size = p.total_size + length bs;
        idx = p.idx + 1;
      }
      else p

  -- The loop of `Split`, on fuel: `none` means that the fuel ran out.
  pub split_loop : ℕ → ℕ → Reader → Progress → Option (Result Progress)
  split_loop zero n r p = none
  split_loop (suc fuel) n r p =
      let (bs, e, r') = read_full r n in
      let p' = append_chunk bs p in
      elim e [
        | none ↦ split_loop fuel n r' p'
        | some e' ↦
            if is_eof e'
            then some (ok p')
            else if is_unexpected_eof e'
            then some (ok p')
            else some (err e')
      ]

  pub finish_split : Bytes → ℕ → Option (Result Progress) → Option (Result (List Chunk × Manifest))
  finish_split blob_id n none = none
  finish_split blob_id n (some (err e)) = some (err (reading blob_id e))
  finish_split blob_id n (some (ok p)) = some (
      ok (
        p.chunks,
        record {
          blob_id = blob_id;
          size = p.total_size;
          chunk_ids = map (λ c. c.id) p.chunks;
          chunk_size = n;
        },
      ))

  -- A round reads a byte or ends the loop, so the fuel is enough.
  pub split : Bytes → Reader → ℤ → Option (Result (List Chunk × Manifest))
  split blob_id r chunk_size =
      let n = effective_size chunk_size in
      finish_split blob_id n
        (split_loop (suc (length r.pending)) n r (record { chunks = []; total_size = 0; idx = 0 }))

-- An io.Writer: how many of the bytes it takes after those already written, and the error if any.
-- As io.Writer promises, without an error it takes them all.
pub record Writer : Type 0 where
  pub write : Bytes → Bytes → ℕ × Option Error
  pub write_all :
      (written bs : Bytes) → (write written bs).1 ≡ none → (write written bs).0 ≡ length bs

module _ (sha256 : Bytes → Bytes) (w : Writer) (fetch : Bytes → Result Bytes) where
  -- The loop of `Reassemble`: what is written in the end, and the error if any.
  pub reassemble_loop : List Bytes → Bytes → Bytes × Option Error
  reassemble_loop [] written = (written, none)
  reassemble_loop (id ∷ ids) written = elim (fetch id) [
    | err e ↦ (written, some (fetching id e))
    | ok bs ↦ elim (verify sha256 id bs) [
      | false ↦ (written, some (integrity id))
      | true ↦ elim (w.write written bs).1 [
        | some e ↦ (written ++ take (w.write written bs).0 bs, some (writing id e))
        | none ↦ reassemble_loop ids (written ++ take (w.write written bs).0 bs)
      ]
    ]
  ]

  pub reassemble : Manifest → Bytes → Bytes × Option Error
  unfolding reassemble_loop
  reassemble m written = reassemble_loop m.chunk_ids written
