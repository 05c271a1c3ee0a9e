-- ===== src/Chunk/Hex.antt =====
-- The text of a chunk's name: hex.EncodeToString as pkg/chunk/chunk.go calls it.
use p2p_container_distributi.Prelude.{
  ℕ, ◌*◌, ◌/◌, ◌%◌, ◌<◌, ◌≡◌, refl, ap₂, true, ◌||◌, ◌&&◌, [], ◌∷◌, arith, Bytes, length, All, leb,
}
use p2p_container_distributi.Chunk.{hex_digit, encode_to_string, chunk_id}

abbrev pub IsByte : ℕ → Type 0
IsByte b = b < 256

-- 0 to 9 and a to f.
abbrev pub IsHexDigit : ℕ → Type 0
IsHexDigit c = ((leb b'0' c && leb c b'9') || (leb b'a' c && leb c b'f')) ≡ true

hex_digit-IsHexDigit : (d : ℕ) → d < 16 → IsHexDigit (hex_digit d)
unfolding hex_digit
hex_digit-IsHexDigit d h = ground arith

hex_digit_injective : (a b : ℕ) → a < 16 → b < 16 → hex_digit a ≡ hex_digit b → a ≡ b
unfolding hex_digit
hex_digit_injective a b h k e = ground arith

length-encode_to_string : (bs : Bytes) → length (encode_to_string bs) ≡ 2 * length bs
unfolding encode_to_string
length-encode_to_string [] = refl
length-encode_to_string (b ∷ bs) = omega (arith, length-encode_to_string bs)

encode_to_string-IsHexDigit : (bs : Bytes) → All IsByte bs → All IsHexDigit (encode_to_string bs)
unfolding encode_to_string
encode_to_string-IsHexDigit [] h = tt
encode_to_string-IsHexDigit (b ∷ bs) h = (
  hex_digit-IsHexDigit (b / 16) (omega (arith, h.0)),
  (hex_digit-IsHexDigit (b % 16) (omega arith), encode_to_string-IsHexDigit bs h.1),
)

-- Byte strings with the same hex text are the same.
pub encode_to_string_injective :
    (as' bs : Bytes)
    → All IsByte as'
    → All IsByte bs
    → encode_to_string as' ≡ encode_to_string bs
    → as' ≡ bs
unfolding encode_to_string
encode_to_string_injective [] [] ha hb e = refl
encode_to_string_injective [] (b ∷ bs) ha hb e = cc
encode_to_string_injective (a ∷ as') [] ha hb e = cc
encode_to_string_injective (a ∷ as') (b ∷ bs) ha hb e =
    let high : a / 16 ≡ b / 16 =
      hex_digit_injective _ _ (omega (arith, ha.0)) (omega (arith, hb.0)) (cc) in
    let low : a % 16 ≡ b % 16 = hex_digit_injective _ _ (omega arith) (omega arith) (cc) in
    ap₂ ◌∷◌ {x = a} {y = b} (omega arith) (encode_to_string_injective as' bs ha.1 hb.1 (cc))

-- A chunk's name has two hex digits for each byte of its hash.
chunk_id_format :
    (sha256 : Bytes → Bytes) (bs : Bytes)
    → All IsByte (sha256 bs)
    → (length (chunk_id sha256 bs) ≡ 2 * length (sha256 bs)) × All IsHexDigit (chunk_id sha256 bs)
unfolding chunk_id
chunk_id_format sha256 bs h =
    (length-encode_to_string (sha256 bs), encode_to_string-IsHexDigit (sha256 bs) h)
