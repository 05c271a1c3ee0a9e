-- ===== src/Rebalance/Names.antt =====
-- The names of nodes in benchmarks/rebalance/main.go are different for different numbers.
use p2p_container_distributi.Prelude.{
  ℕ, zero, suc, ◌+◌, ◌-◌, ◌*◌, ◌/◌, ◌<◌, ◌≤◌, ◌≡◌, ◌≢◌, sym, ap, ◌∙◌, [], ◌∷◌, arith, Bytes,
  Bool-cases, inl, inr, ltb, bytes_eq, ==_iff, false, contains, drop, ◌==◌,
}
use p2p_container_distributi.Ring.{Ring, decimal, decimal_digits, add_node}
use p2p_container_distributi.Ring.Members.{contains-add_node}
use p2p_container_distributi.Rebalance.{node_name, add_nodes}

-- The number that decimal digits stand for, after those read so far.
abbrev read_decimal : ℕ → Bytes → ℕ
read_decimal n [] = n
read_decimal n (d ∷ ds) = read_decimal (n * 10 + (d - b'0')) ds

read_decimal_digits :
    (fuel n : ℕ) (acc : Bytes)
    → n < fuel
    → read_decimal 0 (decimal_digits fuel n acc) ≡ read_decimal n acc
unfolding decimal_digits
read_decimal_digits zero n acc h = absurd (omega arith)
read_decimal_digits (suc fuel) n acc h = elim (Bool-cases (ltb n 10)) [
  | inl last ↦ rw last (ap (λ k. read_decimal k acc) (omega arith))
  | inr more ↦ rw more (
      read_decimal_digits fuel (n / 10) _ (ground arith)
      ∙ ap (λ k. read_decimal k acc) (omega arith))
]

read-decimal : (n : ℕ) → read_decimal 0 (decimal n) ≡ n
unfolding decimal
read-decimal n = read_decimal_digits (suc n) n [] (omega arith)

pub node_name_injective : (i j : ℕ) → node_name i ≡ node_name j → i ≡ j
unfolding node_name
node_name_injective i j e =
    sym (read-decimal i) ∙ ap (λ s. read_decimal 0 (drop 5 s)) e ∙ read-decimal j

pub node_name_set : (i : ℕ) → node_name i ≢ []
unfolding node_name
node_name_set i e = cc e

names_apart : (i j : ℕ) → i < j → (node_name i == node_name j) ≡ false
names_apart i j lt = elim (Bool-cases (node_name i == node_name j)) [
  | inl same ↦
      absurd (omega (arith, node_name_injective i j ((==_iff (node_name i) (node_name j)).0 same)))
  | inr apart ↦ apart
]

-- The nodes that were added do not include one with a later number.
pub later_absent :
    (sha1 : Bytes → Bytes) (rounds i j : ℕ) (r : Ring)
    → i + rounds ≤ j
    → contains r.nodes (node_name j) ≡ false
    → contains (add_nodes sha1 rounds i r).nodes (node_name j) ≡ false
unfolding add_nodes
later_absent sha1 zero i j r le h = h
later_absent sha1 (suc rounds) i j r le h =
    later_absent sha1 rounds (i + 1) j (add_node sha1 (node_name i) r) (omega arith) (
      contains-add_node sha1 r (node_name i) (node_name j)
      ∙ ground (arith, names_apart i j (omega arith), h))
