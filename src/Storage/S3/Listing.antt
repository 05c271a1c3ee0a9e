-- ===== src/Storage/S3/Listing.antt =====
-- `parseListKeys` of internal/storage/s3.go.
use p2p_container_distributi.Prelude.{
  ℕ, zero, suc, List, [], ◌∷◌, ◌++◌, Option, none, some, Bytes, codes, length,
}
use p2p_container_distributi.Text.{split_on, cut_around}

abbrev pub open_tag : Bytes
open_tag = codes "<Key>"

abbrev pub close_tag : Bytes
close_tag = codes "</Key>"

-- The chunk's id where the key has three parts, and the key where it has not.
unfoldable pub bare_id : Bytes → Bytes
bare_id full = elim (split_on b'/' full) [ _ ∷ _ ∷ id ∷ [] ↦ id | _ ↦ full ]

-- The loop, on fuel: `none` means that the fuel ran out.
unfoldable pub parse_keys : ℕ → Bytes → List Bytes → Option (List Bytes)
parse_keys zero s keys = none
parse_keys (suc fuel) s keys = elim (cut_around open_tag s) [
  | none ↦ some keys
  | some (_, s1) ↦ elim (cut_around close_tag s1) [
    | none ↦ some keys
    | some (full, s2) ↦ parse_keys fuel s2 (keys ++ bare_id full ∷ [])
  ]
]

unfoldable pub parse_list_keys : Bytes → Option (List Bytes)
parse_list_keys xml_body = parse_keys (suc (length xml_body)) xml_body []
