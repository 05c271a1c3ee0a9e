-- ===== src/Storage/S3/Order.antt =====
-- The headers that `canonicalizeHeaders` of internal/storage/s3.go signs: Go walks its header map
-- in no set order.
use mathlib.Core.List.{Perm, Permᴰ}
use mathlib.Core.List.Permᴰ
use mathlib.Core.Logic.{∥∥₁_elim}
use p2p_container_distributi.Prelude.{
  ◌≡◌, refl, sym, ap, ap₂, ◌∙◌, subst, true, false, not, List, [], ◌∷◌, map, arith, Bytes, bytes_eq,
  ==_iff, codes, Bool-cases, inl, inr, contains, Distinct, All,
}
use p2p_container_distributi.Prelude.Sorting.{sort_by}
use p2p_container_distributi.Prelude.Orders.{Apart, AllApart, sort_by-Perm}
use p2p_container_distributi.GoMap
use p2p_container_distributi.Text.{bytes_le, strip_prefix, to_lower, has_prefix, join_with}
use p2p_container_distributi.Text.Order.{bytes_le_trans, bytes_le-flip}
use p2p_container_distributi.Storage.S3.Sign.{
  Headers, amz_headers, key_le, sorted_headers, get_header, first_value, header_lines,
  canonicalize_headers,
}

-- No two names of the headers are the same but for the case of their letters.
abbrev pub AllNamesDiffer : Headers → Type 0
AllNamesDiffer h = Distinct (map (λ (e : Bytes × List Bytes). to_lower e.0) h)

is_set : (a b : List (Bytes × Bytes)) → IsProp (a ≡ b)
is_set = hlevel

amz_headers-Permᴰ : {h h' : Headers} → Permᴰ h h' → Permᴰ (amz_headers h) (amz_headers h')
unfolding amz_headers
amz_headers-Permᴰ Permᴰ.nil = Permᴰ.nil
amz_headers-Permᴰ (Permᴰ.cons {a = a} {l₁ = l₁} {l₂ = l₂} e d) =
    let rest = amz_headers-Permᴰ d in
    subst (λ z. Permᴰ (amz_headers (a ∷ l₁)) (amz_headers (z ∷ l₂))) e
      (elim (Bool-cases (has_prefix (to_lower a.0) (codes "x-amz-"))) [
        | inl amz ↦ rw amz (Permᴰ.cons refl rest)
        | inr plain ↦ rw plain rest
      ])
amz_headers-Permᴰ (Permᴰ.swap {a = a} {b = b} {l = l} e₁ e₂) =
    subst (λ zs. Permᴰ (amz_headers (a ∷ b ∷ l)) (amz_headers zs)) (ap₂ (λ x y. x ∷ y ∷ l) e₂ e₁)
      (elim (Bool-cases (has_prefix (to_lower a.0) (codes "x-amz-"))) [
        | inl amz ↦ elim (Bool-cases (has_prefix (to_lower b.0) (codes "x-amz-"))) [
          | inl amz' ↦ rw (amz, amz') (Permᴰ.swap refl refl)
          | inr plain ↦ rw (amz, plain) (Permᴰ.refl _)
        ]
        | inr plain ↦ rw plain (Permᴰ.refl _)
      ])
amz_headers-Permᴰ (Permᴰ.trans d₁ d₂) = Permᴰ.trans (amz_headers-Permᴰ d₁) (amz_headers-Permᴰ d₂)

-- A name that no header has comes before or after each.
name-Apart :
    (k v : Bytes) (h : Headers)
    → contains (map (λ (e : Bytes × List Bytes). to_lower e.0) h) k ≡ false
    → All (Apart key_le (k, v)) (amz_headers h)
unfolding amz_headers
name-Apart k v [] fresh = tt
name-Apart k v ((name, vals) ∷ h) fresh = ground (
  arith,
  name-Apart k v h,
  bytes_le-flip k (to_lower name),
  ==_iff k (to_lower name),
  ==_iff (to_lower name) k,
)

amz_headers-AllApart : (h : Headers) → AllNamesDiffer h → AllApart key_le (amz_headers h)
unfolding amz_headers
amz_headers-AllApart [] differ = tt
amz_headers-AllApart ((name, vals) ∷ h) differ = ground (
  arith,
  amz_headers-AllApart h differ.1,
  name-Apart (to_lower name) (join_with (codes ",") vals) h differ.0,
)

-- "host" comes before all that starts with "x-amz-".
host_first :
    (k : Bytes)
    → has_prefix k (codes "x-amz-") ≡ true
    → (bytes_le (codes "host") k ≡ true) × (bytes_le k (codes "host") ≡ false)
unfolding has_prefix strip_prefix bytes_le
host_first [] p = cc
host_first (c ∷ k) p = ground arith

host-Apart : (v : Bytes) (h : Headers) → All (Apart key_le (codes "host", v)) (amz_headers h)
unfolding amz_headers
host-Apart v [] = tt
host-Apart v ((name, vals) ∷ h) = elim (Bool-cases (has_prefix (to_lower name) (codes "x-amz-"))) [
  | inl amz ↦
      let (low, high) = host_first (to_lower name) amz in
      rw amz (low ∙ ap not (sym high), host-Apart v h)
  | inr plain ↦ rw plain (host-Apart v h)
]

not_there :
    (name : Bytes) (h : Headers)
    → contains (map (λ (e : Bytes × List Bytes). to_lower e.0) h) (to_lower name) ≡ false
    → contains (GoMap.keys h) name ≡ false
not_there name [] fresh = refl
not_there name ((n, vals) ∷ h) fresh =
    let same : n ≡ name → to_lower n ≡ to_lower name = λ e. ap to_lower e in
    ground (arith, not_there name h, same, ==_iff n name, ==_iff (to_lower n) (to_lower name))

-- Names that differ in more than case differ.
names-Distinct : (h : Headers) → AllNamesDiffer h → Distinct (GoMap.keys h)
names-Distinct [] differ = tt
names-Distinct ((name, vals) ∷ h) differ = (not_there name h differ.0, names-Distinct h differ.1)

get_header-Permᴰ :
    (name : Bytes) {h h' : Headers}
    → Permᴰ h h'
    → AllNamesDiffer h
    → get_header name h ≡ get_header name h'
unfolding get_header
get_header-Permᴰ name {h} d differ =
    ap first_value (GoMap.Order.get-Permᴰ _ d (names-Distinct h differ))

sorted_headers-Perm :
    {h h' : Headers} → Perm h h' → AllNamesDiffer h → sorted_headers h ≡ sorted_headers h'
unfolding sorted_headers
sorted_headers-Perm {h} {h'} p differ = ∥∥₁_elim p (is_set _ _) λ d.
    ap (λ v. sort_by key_le ((codes "host", v) ∷ amz_headers h))
      (get_header-Permᴰ (codes "Host") d differ)
    ∙ sort_by-Perm key_le (λ a b c. bytes_le_trans a.0 b.0 c.0) is_set
        ∣ Permᴰ.cons refl (amz_headers-Permᴰ d) ∣₁
        (host-Apart (get_header (codes "Host") h') h, amz_headers-AllApart h differ)

-- What is signed of the headers does not depend on the order in which Go walks the map of them.
pub canonicalize_headers-Perm :
    {h h' : Headers}
    → Perm h h'
    → AllNamesDiffer h
    → canonicalize_headers h ≡ canonicalize_headers h'
unfolding canonicalize_headers
canonicalize_headers-Perm p differ =
    ap (λ hs. (header_lines hs, join_with (codes ";") (map (λ (e : Bytes × Bytes). e.0) hs)))
      (sorted_headers-Perm p differ)
