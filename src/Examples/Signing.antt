-- ===== src/Examples/Signing.antt =====
-- The theorems on the names, the signature and the listings of internal/storage/s3.go.

use p2p_container_distributi.Prelude.{
  inr, ℕ, eqb, if◌then◌else◌, ◌≡◌, refl, true, List, [], ◌∷◌, ◌++◌, arith, Bytes, bytes_eq, codes,
  All, none, some,
}
use p2p_container_distributi.Chunk.Hex.{IsByte}
use p2p_container_distributi.Text.{cut_around, strip_prefix}
use p2p_container_distributi.Url.{path_escape, slashes}
use p2p_container_distributi.Url.Decode.{unescape, unescape-path_escape}
use p2p_container_distributi.Storage.S3.Sign.{S3, Stamp, Request, Crypto, sign}
use p2p_container_distributi.Storage.S3.{new_s3}
use p2p_container_distributi.Storage.S3.Server.{accepts}
use p2p_container_distributi.Storage.S3.Verify.{IsFresh, signed_set, sign-accepts}
use p2p_container_distributi.Storage.S3.Listing.{open_tag, parse_list_keys}
use p2p_container_distributi.Storage.S3.Keys.{
  IsEntry, IsXmlPlain, listing, parse_list_keys_total, parse_list_keys-listing,
}

abbrev odd_key : Bytes
odd_key = codes "chunks/50/50% off"

odd_key-IsByte : All IsByte odd_key
odd_key-IsByte = omega arith

unescape-path_escape_example : unescape (slashes (path_escape odd_key)) ≡ odd_key
unescape-path_escape_example = unescape-path_escape odd_key odd_key-IsByte

abbrev two_entries : List (Bytes × Bytes)
two_entries = (codes "<Contents>", codes "ab12") ∷ (codes "</Contents><Contents>", codes "x") ∷ []

two_entries-IsEntry : All IsEntry two_entries
unfolding cut_around strip_prefix
two_entries-IsEntry = (
  (refl, record { no_slash = ground arith; xml_plain = ground arith }),
  ((refl, record { no_slash = ground arith; xml_plain = ground arith }), tt),
)

listing_end : cut_around open_tag (codes "</Contents>") ≡ none
unfolding cut_around strip_prefix
listing_end = refl

-- The ampersand is written as in XML.
abbrev toy_escape : ℕ → Bytes
toy_escape b = if eqb b b'&' then codes "&amp;" else b ∷ []

toy_escape-plain : (b : ℕ) → IsXmlPlain b → toy_escape b ≡ b ∷ []
toy_escape-plain b h = ground (arith, h)

parse_list_keys-listing_example :
    parse_list_keys (listing toy_escape two_entries (codes "</Contents>"))
    ≡ some (codes "ab12" ∷ codes "x" ∷ [])
parse_list_keys-listing_example =
    parse_list_keys-listing toy_escape toy_escape-plain two_entries (codes "</Contents>")
      two_entries-IsEntry listing_end

parse_list_keys_total_example : (r : List Bytes) × (parse_list_keys (codes "<Key>x") ≡ some r)
parse_list_keys_total_example = parse_list_keys_total (codes "<Key>x")

abbrev one_s3 : S3
one_s3 = new_s3 (codes "b") (codes "r") (codes "key") (codes "secret") (codes "token")

abbrev one_stamp : Stamp
one_stamp = record { amz_date = codes "20240101T000000Z"; date_stamp = codes "20240101" }

abbrev toy_crypto : Crypto
toy_crypto = record { sha256 = λ s. s; hmac = λ k s. k ++ s }

-- Signed before, as in `List`.
abbrev one_request : Request
one_request = record {
  method = codes "GET";
  url = record { host = codes "b"; path = codes "/"; raw_query = codes "list-type=2" };
  headers =
      signed_set one_s3 (codes "20231231T000000Z") [] (codes "b")
        ((codes "Authorization", codes "old" ∷ []) ∷ []);
  body = [];
}

one_request-IsFresh : IsFresh one_s3 one_request.headers
one_request-IsFresh = inr (codes "20231231T000000Z", [], codes "b", codes "old", refl)

sign-accepts_example :
    accepts toy_crypto one_s3 (codes "20240101") (sign toy_crypto one_s3 one_stamp one_request [])
    ≡ true
sign-accepts_example =
    sign-accepts toy_crypto one_s3 one_stamp one_request (refl, tt) one_request-IsFresh
