-- ===== src/Storage/S3/Keys.antt =====
-- The names of chunks in the bucket of internal/storage/s3.go: their keys, and what `parseListKeys`
-- reads from a listing.
use p2p_container_distributi.Prelude.{
  ap₂, contains, nat_eq, not, leb, ◌&&◌, true, ℕ, zero, suc, ◌≤◌, ◌<◌, ◌≡◌, refl, sym, ap, ◌∙◌,
  List, [], ◌∷◌, ◌++◌, map, arith, Bytes, codes, ltb, none, some, Option-cases, Bool-cases, inl,
  inr, All, All-append, All-take, length, length-append, take, append_assoc, append-nil,
}
use p2p_container_distributi.Prelude.Members.{All-imp}
use p2p_container_distributi.Text.{cut_around, split_on}
use p2p_container_distributi.Text.Cut.{
  Lacks, cut_around-lt, cut_around-append, cut_around-Lacks, split_on-append, split_on-Lacks,
}
use p2p_container_distributi.Storage.S3.{object_key}
use p2p_container_distributi.Storage.S3.Listing.{
  open_tag, close_tag, bare_id, parse_keys, parse_list_keys,
}

parse_keys_total :
    (fuel : ℕ) (s : Bytes) (keys : List Bytes)
    → length s < fuel
    → (r : List Bytes) × (parse_keys fuel s keys ≡ some r)
unfolding parse_keys
parse_keys_total zero s keys h = absurd (omega arith)
parse_keys_total (suc fuel) s keys h = elim (Option-cases (cut_around open_tag s)) [
  | inl no_key ↦ (keys, rw (no_key, parse_keys))
  | inr ((before, s1), opened) ↦ elim (Option-cases (cut_around close_tag s1)) [
    | inl no_end ↦ (keys, rw (opened, parse_keys, no_end))
    | inr ((full, s2), closed) ↦
        let (r, e) = parse_keys_total fuel s2 (keys ++ bare_id full ∷ []) (
          omega (
            arith,
            cut_around-lt open_tag s before s1 (omega arith) opened,
            cut_around-lt close_tag s1 full s2 (omega arith) closed,
          )) in
        (r, rw (opened, parse_keys, closed) e)
  ]
]

-- `parseListKeys` ends on every text: with one more round than the text has bytes, the fuel of the
-- model does not run out, since each round takes two tags from the text.
pub parse_list_keys_total : (s : Bytes) → (r : List Bytes) × (parse_list_keys s ≡ some r)
unfolding parse_list_keys
parse_list_keys_total s = parse_keys_total (suc (length s)) s [] (omega arith)

-- A printable byte of ASCII that is not special in XML.
abbrev pub IsXmlPlain : ℕ → Type 0
IsXmlPlain b = (leb 32 b && ltb b 127 && not (contains (codes "&<>'" ++ 34 ∷ []) b)) ≡ true

-- An id that a key keeps apart from its directories, and that XML writes as it is.
pub record IsSimple (id : Bytes) : Type 0 where
  pub no_slash : Lacks b'/' id
  pub xml_plain : All IsXmlPlain id

no_tag : (id : Bytes) → IsSimple id → Lacks b'<' id
no_tag id v = All-imp id v.xml_plain (λ b h. ground (arith, h))

take-Lacks : (t n : ℕ) (s : Bytes) → Lacks t s → Lacks t (take n s)
take-Lacks t n s l = All-take _ n s l

object_key_no_tag : (id : Bytes) → IsSimple id → Lacks b'<' (object_key id)
unfolding object_key
object_key_no_tag id v = elim (Bool-cases (ltb (length id) 2)) [
  | inl short ↦ rw short (All-append _ (codes "chunks/_short/") id (simple_short) (no_tag id v))
  | inr long ↦ rw long (
      All-append _ (codes "chunks/") _ simple_chunks
        (All-append _ (take 2 id) _ (take-Lacks b'<' 2 id (no_tag id v)) (refl, no_tag id v)))
]
  where
    simple_chunks : Lacks b'<' (codes "chunks/")
    simple_chunks = ground arith

    simple_short : Lacks b'<' (codes "chunks/_short/")
    simple_short = ground arith

three_parts :
    (dir id : Bytes)
    → Lacks b'/' dir
    → Lacks b'/' id
    → split_on b'/' (codes "chunks/" ++ (dir ++ b'/' ∷ id)) ≡ codes "chunks" ∷ dir ∷ id ∷ []
three_parts dir id l k =
    split_on-append b'/' (codes "chunks") (dir ++ b'/' ∷ id) (ground arith)
    ∙ ap (◌∷◌ (codes "chunks"))
        (split_on-append b'/' dir id l ∙ ap (◌∷◌ dir) (split_on-Lacks b'/' id k))

third_part : (full a b id : Bytes) → split_on b'/' full ≡ a ∷ b ∷ id ∷ [] → bare_id full ≡ id
unfolding bare_id
third_part full a b id h = rw (h, bare_id)

-- The id comes back from its key.
bare_id-object_key : (id : Bytes) → IsSimple id → bare_id (object_key id) ≡ id
unfolding object_key
bare_id-object_key id v = elim (Bool-cases (ltb (length id) 2)) [
  | inl short ↦
      rw short (third_part _ _ _ id (three_parts (codes "_short") id (ground arith) v.no_slash))
  | inr long ↦ rw long (
      third_part _ _ _ id (three_parts (take 2 id) id (take-Lacks b'/' 2 id v.no_slash) v.no_slash))
]

-- The keys as they are between their tags, each behind some text.
abbrev plain_listing : List (Bytes × Bytes) → Bytes → Bytes
plain_listing [] tail = tail
plain_listing ((gap, id) ∷ es) tail =
    gap ++ (open_tag ++ (object_key id ++ (close_tag ++ plain_listing es tail)))

abbrev pub IsEntry : Bytes × Bytes → Type 0
IsEntry (gap, id) = (cut_around open_tag gap ≡ none) × IsSimple id

parse_keys_step :
    (fuel : ℕ) (s s1 s2 before full : Bytes) (keys : List Bytes)
    → cut_around open_tag s ≡ some (before, s1)
    → cut_around close_tag s1 ≡ some (full, s2)
    → parse_keys (suc fuel) s keys ≡ parse_keys fuel s2 (keys ++ bare_id full ∷ [])
unfolding parse_keys
parse_keys_step fuel s s1 s2 before full keys opened closed = rw (opened, parse_keys, closed)

parse_keys_last :
    (fuel : ℕ) (s : Bytes) (keys : List Bytes)
    → cut_around open_tag s ≡ none
    → parse_keys (suc fuel) s keys ≡ some keys
unfolding parse_keys
parse_keys_last fuel s keys h = rw (h, parse_keys)

parse_keys-listing :
    (fuel : ℕ) (es : List (Bytes × Bytes)) (tail : Bytes) (keys : List Bytes)
    → length es < fuel
    → All IsEntry es
    → cut_around open_tag tail ≡ none
    → parse_keys fuel (plain_listing es tail) keys
      ≡ some (keys ++ map (λ (e : Bytes × Bytes). e.1) es)
parse_keys-listing zero es tail keys h v last = absurd (omega arith)
parse_keys-listing (suc fuel) [] tail keys h v last =
    parse_keys_last fuel tail keys last ∙ ap some (sym (append-nil keys))
parse_keys-listing (suc fuel) ((gap, id) ∷ es) tail keys h v last =
    parse_keys_step fuel (plain_listing ((gap, id) ∷ es) tail)
      (object_key id ++ (close_tag ++ plain_listing es tail)) (plain_listing es tail) gap
      (object_key id) keys (cut_around-append b'<' (codes "Key>") gap _ (ground arith) v.0.0)
      (cut_around-append b'<' (codes "/Key>") (object_key id) _ (ground arith)
        (cut_around-Lacks b'<' (codes "/Key>") (object_key id) (object_key_no_tag id v.0.1)))
    ∙ parse_keys-listing fuel es tail _ (omega arith) v.1 last
    ∙ ap some (
        append_assoc keys (bare_id (object_key id) ∷ []) _
        ∙ ap (λ z. keys ++ z ∷ map (λ (e : Bytes × Bytes). e.1) es) (bare_id-object_key id v.0.1))

length-listing-le :
    (es : List (Bytes × Bytes)) (tail : Bytes) → length es ≤ length (plain_listing es tail)
length-listing-le [] tail = omega arith
length-listing-le ((gap, id) ∷ es) tail = omega (
  arith,
  length-listing-le es tail,
  length-append gap (open_tag ++ (object_key id ++ (close_tag ++ plain_listing es tail))),
  length-append (object_key id) (close_tag ++ plain_listing es tail),
)

object_key-xml : (id : Bytes) → IsSimple id → All IsXmlPlain (object_key id)
unfolding object_key
object_key-xml id v = elim (Bool-cases (ltb (length id) 2)) [
  | inl short ↦ rw short (All-append _ (codes "chunks/_short/") id simple_short v.xml_plain)
  | inr long ↦ rw long (
      All-append _ (codes "chunks/") _ simple_chunks
        (All-append _ (take 2 id) _ (All-take _ 2 id v.xml_plain) (refl, v.xml_plain)))
]
  where
    simple_chunks : All IsXmlPlain (codes "chunks/")
    simple_chunks = ground arith

    simple_short : All IsXmlPlain (codes "chunks/_short/")
    simple_short = ground arith

-- How S3 writes the bytes of a key in XML.
module _ (escape : ℕ → Bytes) where
  abbrev xml_text : Bytes → Bytes
  xml_text [] = []
  xml_text (c ∷ s) = escape c ++ xml_text s

  -- A listing: the XML text of each key stands between its tags, behind any text without an opening
  -- tag.
  abbrev pub listing : List (Bytes × Bytes) → Bytes → Bytes
  listing [] tail = tail
  listing ((gap, id) ∷ es) tail =
      gap ++ (open_tag ++ (xml_text (object_key id) ++ (close_tag ++ listing es tail)))

module _ (escape : ℕ → Bytes) (plain : (b : ℕ) → IsXmlPlain b → escape b ≡ b ∷ []) where
  xml_text-plain : (s : Bytes) → All IsXmlPlain s → xml_text escape s ≡ s
  xml_text-plain [] h = refl
  xml_text-plain (c ∷ s) h = ap₂ (λ a b. a ++ b) (plain c h.0) (xml_text-plain s h.1)

  listing-plain :
      (es : List (Bytes × Bytes)) (tail : Bytes)
      → All IsEntry es
      → listing escape es tail ≡ plain_listing es tail
  listing-plain [] tail v = refl
  listing-plain ((gap, id) ∷ es) tail v =
      ap₂ (λ k l. gap ++ (open_tag ++ (k ++ (close_tag ++ l))))
        (xml_text-plain (object_key id) (object_key-xml id v.0.1)) (listing-plain es tail v.1)

  -- Where XML writes each printable byte of ASCII but `&`, `<`, `>` and quotes as it is: from a
  -- listing with any number of keys of chunks, whose ids are of such bytes without a slash,
  -- `parseListKeys` reads the ids, in order.
  pub parse_list_keys-listing :
      (es : List (Bytes × Bytes)) (tail : Bytes)
      → All IsEntry es
      → cut_around open_tag tail ≡ none
      → parse_list_keys (listing escape es tail) ≡ some (map (λ (e : Bytes × Bytes). e.1) es)
  unfolding parse_list_keys
  parse_list_keys-listing es tail v last =
      ap parse_list_keys (listing-plain es tail v)
      ∙ parse_keys-listing (suc (length (plain_listing es tail))) es tail []
          (omega (arith, length-listing-le es tail)) v last
