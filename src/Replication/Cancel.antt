-- ===== src/Replication/Cancel.antt =====
-- What internal/replication/replication.go pushes when its context is done on the way.
use p2p_container_distributi.Prelude.{
  ℕ, zero, suc, ◌+◌, ◌≤◌, ◌<◌, ◌≡◌, refl, Bool, true, false, ◌&&◌, List, [], ◌∷◌, All, arith, Bytes,
  bytes_eq, ◌==◌, Option, none, some, Option-cases, Bool-cases, inl, inr, ltb, leb, if◌then◌else◌,
}
use p2p_container_distributi.Prelude.Int.{pos}
use p2p_container_distributi.Errors.{Error}
use p2p_container_distributi.Ring.{Ring, get_n}
use p2p_container_distributi.Replication.{
  Job, Engine, delivered, cancelled, Pushed, push_loop, push_with_retry, Network, push_targets,
  replicate, factor,
}
use p2p_container_distributi.Replication.Retry.{backoffs, push_with_retry-bounds}

-- One of `n` attempts from `i` on is taken.
abbrev pub takes : (ℕ → Option Error) → ℕ → ℕ → Bool
takes answer zero i = false
takes answer (suc n) i = elim (answer i) [ none ↦ true | some e ↦ takes answer n (i + 1) ]

-- A push whose context is done from attempt `k` on.
abbrev pub IsCut : Engine → (ℕ → Option Error) → ℕ → Pushed → Type 0
IsCut e answer k p =
    (p.outcome ≡ (if takes answer k 0 then delivered else cancelled))
    × (p.attempts ≤ k)
    × (p.waited ≡ backoffs e.retry_base p.attempts)

module _ (answer : ℕ → Option Error) (done : ℕ → Bool) (base k : ℕ) (late : 1 ≤ k)
    (at_k : (i : ℕ) → done i ≡ leb k i) where
  push_loop-cut :
      (d rounds attempt waited : ℕ) (last : Option Error)
      → attempt + d ≡ k
      → d < rounds
      → let p = push_loop answer done base rounds attempt waited last in
        (p.outcome ≡ (if takes answer d attempt then delivered else cancelled)) × (p.attempts ≤ k)
  unfolding push_loop
  push_loop-cut d zero attempt waited last e le = absurd (omega arith)
  push_loop-cut zero (suc rounds) attempt waited last e le =
      let stopped : (ltb 0 attempt && done attempt) ≡ true = ground (arith, at_k attempt) in
      rw (stopped, push_loop) (refl, omega arith)
  push_loop-cut (suc d) (suc rounds) attempt waited last e le =
      let on : (ltb 0 attempt && done attempt) ≡ false = ground (arith, at_k attempt) in
      elim (Option-cases (answer attempt)) [
        | inl taken ↦ rw (on, push_loop, takes, taken) (refl, omega arith)
        | inr (x, refused) ↦
            rw (on, push_loop, takes, refused)
              (push_loop-cut d rounds (attempt + 1) _ (some x) (omega arith) (omega arith))
      ]

push-IsCut :
    (e : Engine) (answer : ℕ → Option Error) (done : ℕ → Bool) (k : ℕ)
    → 1 ≤ k
    → k ≤ e.max_retries
    → ((i : ℕ) → done i ≡ leb k i)
    → IsCut e answer k (push_with_retry e answer done)
unfolding push_with_retry
push-IsCut e answer done k late le at_k =
    let (o, n) =
      push_loop-cut answer done e.retry_base k late at_k k (e.max_retries + 1) 0 0 none
        (omega arith) (omega arith) in
    (o, n, (push_with_retry-bounds e answer done).1)

module _ (addr_for : Bytes → Option Bytes) (net : Network) (e : Engine) (cut : Bytes → ℕ)
    (late : (addr : Bytes) → 1 ≤ cut addr) (soon : (addr : Bytes) → cut addr ≤ e.max_retries)
    (at_cut : (addr : Bytes) (i : ℕ) → net.done addr i ≡ leb (cut addr) i) where
  abbrev IsCutPush : Bytes × Pushed → Type 0
  IsCutPush (node, p) =
      (addr : Bytes) × (addr_for node ≡ some addr) × IsCut e (net.answer addr) (cut addr) p

  push_targets-cut : (targets : List Bytes) → All IsCutPush (push_targets e addr_for net targets)
  unfolding push_targets
  push_targets-cut [] = tt
  push_targets-cut (node ∷ targets) = elim (Bool-cases (node == e.self_id)) [
    | inl own ↦ rw own (push_targets-cut targets)
    | inr foreign ↦ elim (Option-cases (addr_for node)) [
      | inl unknown ↦ rw (foreign, unknown, push_targets) (push_targets-cut targets)
      | inr (addr, known) ↦
          rw (foreign, known, push_targets)
            (
              (
                addr,
                known,
                push-IsCut e (net.answer addr) (net.done addr) (cut addr) (late addr) (soon addr)
                    (at_cut addr),
              ),
              push_targets-cut targets,
            )
    ]
  ]

  -- If, in the push to each address, the context is done from some attempt on that is neither the
  -- first nor after the last retry, then each push of a job is delivered exactly if an attempt
  -- before that was taken, and else reported cancelled; it makes no attempt from there on, and it
  -- has waited the doubling backoffs before each attempt that it made but the first.
  pub replicate-cancelled :
      (sha1 : Bytes → Bytes) (ring : Ring) (job : Job)
      → All
          (λ (r : Bytes × Pushed).
            (addr : Bytes) × (addr_for r.0 ≡ some addr) × IsCut e (net.answer addr) (cut addr) r.1)
          (replicate sha1 ring addr_for net e job)
  unfolding replicate
  replicate-cancelled sha1 ring job = push_targets-cut (get_n sha1 ring job.chunk_id (pos factor))
