-- ===== src/Ring/Replicas.antt =====
-- How the replica sets of `GetN` and the primary of `Get` in internal/hashring/hashring.go change
-- when a node leaves or joins.
use p2p_container_distributi.Prelude.{
  ℕ, zero, suc, ◌≡◌, refl, sym, ap, ◌∙◌, Bool, true, false, List, [], ◌∷◌, arith, Bytes, bytes_eq,
  ◌==◌, ==_iff, contains, Distinct, Bool-cases, inl, inr, ◌⊎◌, take,
}
use p2p_container_distributi.Prelude.Int.{ℤ, pos, pos_part}
use p2p_container_distributi.Prelude.Dedup.{without, dedup-Distinct}
use p2p_container_distributi.Ring.{Ring, add_node, remove_node, get_n, get_owner}
use p2p_container_distributi.Ring.Walk.{walk, get_n-walk}
use p2p_container_distributi.Ring.Invariant.{IsRing, NoCollision, remove_node-IsRing}
use p2p_container_distributi.Ring.Join.{add_node-IsRing}
use p2p_container_distributi.Ring.Placement.{walk-remove_node, walk-add_node}

without_absent : (x : Bytes) (xs : List Bytes) → contains xs x ≡ false → without x xs ≡ xs
without_absent x [] h = refl
without_absent x (y ∷ ys) h = ground (arith, without_absent x ys)

take-take : (n : ℕ) (xs : List Bytes) → take n (take n xs) ≡ take n xs
take-take zero xs = refl
take-take (suc n) [] = refl
take-take (suc n) (x ∷ xs) = ap (◌∷◌ x) (take-take n xs)

without-take_absent :
    (n : ℕ) (x : Bytes) (xs : List Bytes)
    → contains xs x ≡ false
    → without x (take n xs) ≡ take n xs
without-take_absent zero x xs h = refl
without-take_absent (suc n) x [] h = refl
without-take_absent (suc n) x (y ∷ ys) h = ground (arith, without-take_absent n x ys)

-- One element fewer: the first `n` of the rest are among the first `n + 1`.
take-without :
    (n : ℕ) (x : Bytes) (w : List Bytes)
    → Distinct w
    → take n (without x (take (suc n) w)) ≡ take n (without x w)
take-without zero x w d = refl
take-without (suc n) x [] d = refl
take-without (suc n) x (y ∷ ys) d = elim (Bool-cases (y == x)) [
  | inl hit ↦
      let gone : contains ys x ≡ false = sym (ap (contains ys) ((==_iff y x).0 hit)) ∙ d.0 in
      rw
        (hit, without-take_absent (suc n) x ys gone, without_absent x ys gone, take-take (suc n) ys)
  | inr miss ↦ rw miss (ap (◌∷◌ y) (take-without n x ys d.1))
]

contains-take-suc :
    (n : ℕ) (y : Bytes) (w : List Bytes)
    → contains (take n w) y ≡ true
    → contains (take (suc n) w) y ≡ true
contains-take-suc zero y w c = cc
contains-take-suc (suc n) y [] c = cc
contains-take-suc (suc n) y (z ∷ w) c = ground (arith, contains-take-suc n y w)

contains-take-without :
    (n : ℕ) (x y : Bytes) (w : List Bytes)
    → (y == x) ≡ false
    → contains (take n w) y ≡ true
    → contains (take n (without x w)) y ≡ true
contains-take-without zero x y w ne c = cc
contains-take-without (suc n) x y [] ne c = cc
contains-take-without (suc n) x y (z ∷ w) ne c = elim (Bool-cases (z == x)) [
  | inl hit ↦ rw hit (
      contains-take-suc n y (without x w)
        (contains-take-without n x y w ne (ground (arith, ==_iff z y, ==_iff z x, ==_iff y x))))
  | inr miss ↦ ground (arith, contains-take-without n x y w ne)
]

-- When a node leaves a well-formed ring, the new replica set of a key is the old set of one node
-- more, without that node, cut to the number asked for: every other replica stays, in its order,
-- and at most one node is promoted.
pub get_n-remove_node :
    (sha1 : Bytes → Bytes) (r : Ring) (key x : Bytes) (n : ℕ)
    → IsRing r
    → get_n sha1 (remove_node x r) key (pos n) ≡ take n (without x (get_n sha1 r key (pos (suc n))))
get_n-remove_node sha1 r key x n v =
    get_n-walk sha1 (remove_node x r) key (pos n) (remove_node-IsRing r x v).owned
    ∙ ap (take n) (walk-remove_node sha1 r key x v)
    ∙ sym (take-without n x (walk sha1 r key) (dedup-Distinct _))
    ∙ ap (λ w. take n (without x w)) (sym (get_n-walk sha1 r key (pos (suc n)) v.owned))

module _ (sha1 : Bytes → Bytes) (r : Ring) (key x : Bytes) (v : IsRing r)
    (absent : contains r.nodes x ≡ false) (free : NoCollision sha1 r x) where
  joined : IsRing (add_node sha1 x r)
  joined = add_node-IsRing sha1 r x v (λ _. free)

  -- When a node that is not on a well-formed ring joins it, and none of its points collides, the
  -- old replica set of a key is the new set of one node more, without the new node, cut to the
  -- number asked for.
  pub get_n-add_node :
      (n : ℕ)
      → get_n sha1 r key (pos n)
        ≡ take n (without x (get_n sha1 (add_node sha1 x r) key (pos (suc n))))
  get_n-add_node n =
      get_n-walk sha1 r key (pos n) v.owned
      ∙ ap (take n) (sym (walk-add_node sha1 r key x v absent free))
      ∙ sym (take-without n x (walk sha1 (add_node sha1 x r) key) (dedup-Distinct _))
      ∙ ap (λ w. take n (without x w))
          (sym (get_n-walk sha1 (add_node sha1 x r) key (pos (suc n)) joined.owned))

  -- No key moves between two old nodes when a node that is not on a well-formed ring joins it
  -- without a collision: a replica after the join is the new node, or was one before.
  pub get_n-add_node_moves :
      (n : ℕ) (y : Bytes)
      → contains (get_n sha1 (add_node sha1 x r) key (pos n)) y ≡ true
      → (y ≡ x) ⊎ (contains (get_n sha1 r key (pos n)) y ≡ true)
  get_n-add_node_moves n y c = elim (Bool-cases (y == x)) [
    | inl same ↦ inl ((==_iff y x).0 same)
    | inr other ↦ inr (
        ap (λ w. contains w y)
          (get_n-walk sha1 r key (pos n) v.owned
            ∙ ap (take n) (sym (walk-add_node sha1 r key x v absent free)))
        ∙ contains-take-without n x y (walk sha1 (add_node sha1 x r) key) other (
            ap (λ w. contains w y)
              (sym (get_n-walk sha1 (add_node sha1 x r) key (pos n) joined.owned))
            ∙ c))
  ]

  -- A node that is not on a well-formed ring, joins it without a collision and leaves again, leaves
  -- every replica set as it was.
  pub get_n-leave-join :
      (n : ℤ) → get_n sha1 (remove_node x (add_node sha1 x r)) key n ≡ get_n sha1 r key n
  get_n-leave-join n =
      get_n-walk sha1 _ key n (remove_node-IsRing _ x joined).owned
      ∙ ap (take (pos_part n)) (
          walk-remove_node sha1 (add_node sha1 x r) key x joined
          ∙ walk-add_node sha1 r key x v absent free)
      ∙ sym (get_n-walk sha1 r key n v.owned)

take_one-without :
    (x : Bytes) (w : List Bytes) → contains (take 1 w) x ≡ false → take 1 (without x w) ≡ take 1 w
take_one-without x [] h = refl
take_one-without x (y ∷ w) h = ground arith

-- The primary as a function of the list that `Get` asks `GetN` for.
abbrev pub first_of_list : List Bytes → Bytes × Bool
first_of_list [] = ([], false)
first_of_list (y ∷ ys) = (y, true)

pub get_owner-first :
    (sha1 : Bytes → Bytes) (r : Ring) (key : Bytes)
    → get_owner sha1 r key ≡ first_of_list (get_n sha1 r key (pos 1))
unfolding get_owner
get_owner-first sha1 r key = ground arith

-- A key of a well-formed ring keeps its primary when a node leaves that is not its primary.
pub get_owner-remove_node :
    (sha1 : Bytes → Bytes) (r : Ring) (key x : Bytes)
    → IsRing r
    → contains (get_n sha1 r key (pos 1)) x ≡ false
    → get_owner sha1 (remove_node x r) key ≡ get_owner sha1 r key
get_owner-remove_node sha1 r key x v other =
    get_owner-first sha1 (remove_node x r) key
    ∙ ap first_of_list (
        get_n-walk sha1 (remove_node x r) key (pos 1) (remove_node-IsRing r x v).owned
        ∙ ap (take 1) (walk-remove_node sha1 r key x v)
        ∙ take_one-without x (walk sha1 r key)
            (sym (ap (λ w. contains w x) (get_n-walk sha1 r key (pos 1) v.owned)) ∙ other)
        ∙ sym (get_n-walk sha1 r key (pos 1) v.owned))
    ∙ sym (get_owner-first sha1 r key)

joined_first :
    (x : Bytes) (w : List Bytes)
    → (first_of_list (take 1 w) ≡ (x, true))
      ⊎ (first_of_list (take 1 w) ≡ first_of_list (take 1 (without x w)))
joined_first x [] = inr refl
joined_first x (y ∷ w) = elim (Bool-cases (y == x)) [
  | inl same ↦ inl (ap (λ z. (z, true)) ((==_iff y x).0 same))
  | inr other ↦ inr (rw other)
]

-- When a node that is not on a well-formed ring joins it without a collision, every key keeps its
-- primary or has the new node for it.
pub get_owner-add_node :
    (sha1 : Bytes → Bytes) (r : Ring) (key x : Bytes)
    → IsRing r
    → contains r.nodes x ≡ false
    → NoCollision sha1 r x
    → (get_owner sha1 (add_node sha1 x r) key ≡ (x, true))
      ⊎ (get_owner sha1 (add_node sha1 x r) key ≡ get_owner sha1 r key)
get_owner-add_node sha1 r key x v absent free =
    let s : Ring = add_node sha1 x r in
    let at_s : get_owner sha1 s key ≡ first_of_list (take 1 (walk sha1 s key)) =
      get_owner-first sha1 s key
      ∙ ap first_of_list
          (get_n-walk sha1 s key (pos 1) (joined sha1 r key x v absent free).owned) in
    let at_r : get_owner sha1 r key ≡ first_of_list (take 1 (without x (walk sha1 s key))) =
      get_owner-first sha1 r key
      ∙ ap first_of_list (
          get_n-walk sha1 r key (pos 1) v.owned
          ∙ ap (take 1) (sym (walk-add_node sha1 r key x v absent free))) in
    elim (joined_first x (walk sha1 s key)) [
      | inl e ↦ inl (at_s ∙ e)
      | inr e ↦ inr (at_s ∙ e ∙ sym at_r)
    ]
