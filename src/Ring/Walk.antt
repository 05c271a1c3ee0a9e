-- ===== src/Ring/Walk.antt =====
-- `GetN` of internal/hashring/hashring.go against its specification: the nodes that own the points
-- met clockwise from the key, each at its first point.
use native.Mathlib.Numerals.{add-one}
use p2p_container_distributi.Prelude.{
  ℕ, zero, suc, ◌+◌, ◌≤◌, ◌≡◌, refl, sym, ap, ◌∙◌, true, not, ◌&&◌, List, [], ◌∷◌, ◌++◌, map, arith,
  Bytes, bytes_eq, contains, Distinct, ltb→le, ltb→lt, All-append, All-map, All-keep, keep, eqb_iff,
  length, length-append, take, drop, take_of_length-le, ltb, eqb, if◌then◌else◌, Bool-cases, inl,
  inr, append_assoc, append-nil, All,
}
use p2p_container_distributi.Prelude.Int.{ℤ, pos_part}
use p2p_container_distributi.Prelude.Sorting.{IsSorted}
use p2p_container_distributi.Prelude.Dedup.{
  dedup, lacking, lacking-dedup_seen, lacking-dedup_new, Within, Within-full, contains-dedup,
  Within-of_contains, Within-contains,
}
use p2p_container_distributi.Prelude.Members.{snoc-Distinct}
use p2p_container_distributi.Prelude.Indexing.{
  rotate, length-rotate, drop-get_or, get_or-rotate, take-append_of_length-eq, drop_of_length-le,
}
use p2p_container_distributi.GoMap.{add_member}
use p2p_container_distributi.Ring.Search.{
  search_first-rank, before, from, take-before, drop-before, length-before-le,
}
use p2p_container_distributi.Ring.{Ring, owner, hash_key, collect, get_n}

abbrev pub owners : Ring → List ℕ → List Bytes
owners r = map (owner r)

-- The points in clockwise order from position `h`.
abbrev pub clockwise : Ring → ℕ → List ℕ
clockwise r h = from h r.sorted_hashes ++ before h r.sorted_hashes

-- Every node of the ring, in the order in which it is met from the key.
abbrev pub walk : (Bytes → Bytes) → Ring → Bytes → List Bytes
walk sha1 r key = dedup (owners r (clockwise r (hash_key sha1 key)))

-- The points are in order, and each belongs to a node of the ring.
pub record IsOwned (r : Ring) : Type 0 where
  pub sorted : IsSorted r.sorted_hashes
  pub owned : All (λ h. contains r.nodes (owner r h) ≡ true) r.sorted_hashes

-- The loop of `collect` over the nodes that it meets, one by one.
collect_met : ℕ → ℕ → List Bytes → List Bytes → List Bytes → List Bytes
collect_met total n [] seen result = result
collect_met total n (node ∷ met) seen result =
    let fresh = not (contains seen node) in
    let rest =
      collect_met total n met (if fresh then add_member node seen else seen)
        (if fresh then result ++ node ∷ [] else result) in
    if ltb (length result) n && ltb (length seen) total then rest else result

module _ (r : Ring) (idx n : ℕ) (inside : idx ≤ length r.sorted_hashes) where
  collect-met :
      (rounds i : ℕ) (seen result : List Bytes)
      → i + rounds ≡ length r.sorted_hashes
      → collect r idx n rounds i seen result
        ≡ collect_met
            (length r.nodes)
            n
            (owners r (drop i (rotate idx r.sorted_hashes)))
            seen
            result
  unfolding collect collect_met
  collect-met zero i seen result h =
      rw
        (drop_of_length-le i (rotate idx r.sorted_hashes)
          (omega (arith, length-rotate idx r.sorted_hashes inside)))
        refl
  collect-met (suc rounds) i seen result h =
      rw
        (
          collect-met rounds (i + 1) _ _ (omega arith),
          drop-get_or (rotate idx r.sorted_hashes) i 0
              (omega (arith, length-rotate idx r.sorted_hashes inside)),
          get_or-rotate idx r.sorted_hashes i 0 inside (omega arith),
          add-one,
        )
        refl

keep_all {ℓ} : {A : Type ℓ} (xs : List A) → keep (λ x. true) xs ≡ xs
keep_all [] = refl
keep_all (x ∷ xs) = ap (◌∷◌ x) (keep_all xs)

take-nil : (n : ℕ) → take {A = Bytes} n [] ≡ []
take-nil zero = refl
take-nil (suc n) = refl

lacking_none : (acc zs : List Bytes) → Within acc zs → lacking acc zs ≡ []
lacking_none acc [] h = refl
lacking_none acc (z ∷ zs) h = ground (arith, lacking_none acc zs h.1)

-- Once every node was met, nothing is lacking.
lacking_full :
    (nodes acc met : List Bytes)
    → Distinct acc
    → Within nodes acc
    → Within nodes met
    → length nodes ≤ length acc
    → lacking acc (dedup met) ≡ []
lacking_full nodes acc met d w m full = lacking_none acc (dedup met) (
    Within-of_contains (dedup met) acc λ a c.
      Within-full acc nodes a d w full
        (Within-contains met nodes a m (sym (contains-dedup met a) ∙ c)))

collect_met-take :
    (nodes : List Bytes) (n : ℕ) (met acc : List Bytes)
    → Distinct acc
    → Within nodes acc
    → Within nodes met
    → length acc ≤ n
    → collect_met (length nodes) n met acc acc ≡ take n (acc ++ lacking acc (dedup met))
unfolding collect_met add_member
collect_met-take nodes n [] acc d w m h = rw append-nil (sym (take_of_length-le n acc h))
collect_met-take nodes n (y ∷ ys) acc d w m h = elim (Bool-cases (ltb (length acc) n)) [
  | inr enough ↦
      rw enough (sym (take-append_of_length-eq n acc _ (omega (arith, ltb→le _ _ enough))))
  | inl short ↦ elim (Bool-cases (ltb (length acc) (length nodes))) [
    | inr full ↦
        rw (short, full, lacking_full nodes acc (y ∷ ys) d w m (ltb→le _ _ full), append-nil)
          (sym (take_of_length-le n acc h))
    | inl open_ ↦ elim (Bool-cases (contains acc y)) [
      | inl seen ↦
          let step : collect_met (length nodes) n (y ∷ ys) acc acc
              ≡ collect_met (length nodes) n ys acc acc =
            rw (short, open_, seen) in
          step
          ∙ collect_met-take nodes n ys acc d w m.1 h
          ∙ ap (λ zs. take n (acc ++ zs)) (sym (lacking-dedup_seen acc y ys seen))
      | inr fresh ↦
          let acc' : List Bytes = acc ++ y ∷ [] in
          let step : collect_met (length nodes) n (y ∷ ys) acc acc
              ≡ collect_met (length nodes) n ys acc' acc' =
            rw (short, open_, fresh) in
          step
          ∙ collect_met-take nodes n ys acc' (snoc-Distinct acc y fresh d)
              (All-append _ acc (y ∷ []) w (m.0, tt)) m.1
              (omega (arith, length-append acc (y ∷ []), ltb→lt _ _ short))
          ∙ ap (take n) (append_assoc acc (y ∷ []) _)
          ∙ ap (λ zs. take n (acc ++ zs)) (sym (lacking-dedup_new acc y ys fresh))
    ]
  ]
]

rotate-clockwise :
    (h : ℕ) (hs : List ℕ)
    → IsSorted hs
    → rotate (length (before h hs)) hs ≡ from h hs ++ before h hs
rotate-clockwise h hs s = rw (take-before h hs s, drop-before h hs s)

-- The walk stays on the nodes of the ring.
pub clockwise-Within : (r : Ring) (h : ℕ) → IsOwned r → Within r.nodes (owners r (clockwise r h))
clockwise-Within r h o = All-map _ (owner r) (clockwise r h) (
    All-append _ (from h r.sorted_hashes) _ (All-keep _ _ r.sorted_hashes o.owned)
      (All-keep _ _ r.sorted_hashes o.owned))

collect-walk :
    (r : Ring) (n h : ℕ)
    → IsOwned r
    → collect r (length (before h r.sorted_hashes)) n (length r.sorted_hashes) 0 [] []
      ≡ take n (dedup (owners r (clockwise r h)))
collect-walk r n h o =
    collect-met r (length (before h r.sorted_hashes)) n (length-before-le h r.sorted_hashes)
      (length r.sorted_hashes) 0 [] [] (omega arith)
    ∙ ap (λ hs. collect_met (length r.nodes) n (owners r hs) [] [])
        (rotate-clockwise h r.sorted_hashes o.sorted)
    ∙ collect_met-take r.nodes n (owners r (clockwise r h)) [] tt tt (clockwise-Within r h o)
        (omega arith)
    ∙ ap (take n) (keep_all (dedup (owners r (clockwise r h))))

no_points : (xs : List ℕ) → eqb (length xs) 0 ≡ true → xs ≡ []
no_points [] h = refl
no_points (x ∷ xs) h = absurd (ground arith)

-- On a ring whose points are in order and belong to its nodes, `GetN` returns the first `n` of the
-- nodes met clockwise from the key, each counted once, and none where `n` is not positive.
pub get_n-walk :
    (sha1 : Bytes → Bytes) (r : Ring) (key : Bytes) (n : ℤ)
    → IsOwned r
    → get_n sha1 r key n ≡ take (pos_part n) (walk sha1 r key)
unfolding get_n
get_n-walk sha1 r key n o = elim (Bool-cases (eqb (length r.sorted_hashes) 0)) [
  | inl none_left ↦
      rw (none_left, no_points r.sorted_hashes none_left) (sym (take-nil (pos_part n)))
  | inr points ↦ elim (Bool-cases (eqb (pos_part n) 0)) [
    | inl zero_wanted ↦ rw (points, zero_wanted, (eqb_iff (pos_part n) 0).0 zero_wanted)
    | inr wanted ↦
        rw (points, wanted, search_first-rank (hash_key sha1 key) r.sorted_hashes o.sorted)
          (collect-walk r (pos_part n) (hash_key sha1 key) o)
  ]
]
