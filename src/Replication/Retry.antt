-- ===== src/Replication/Retry.antt =====
-- `pushWithRetry` of internal/replication/replication.go: how many attempts, how long the waits,
-- and when it succeeds.
use native.Mathlib.Nat.{pow-suc}
use native.Mathlib.Numerals.{add-one}
use p2p_container_distributi.Prelude.{
  ℕ, zero, suc, ◌+◌, ◌-◌, ◌*◌, ◌^◌, ◌≤◌, ◌<◌, ◌≡◌, ◌≢◌, refl, sym, subst, Bool, true, false, ◌&&◌,
  arith, Option, none, some, Option-cases, Bool-cases, inl, inr, ltb, if◌then◌else◌,
}
use p2p_container_distributi.Errors.{Error}
use p2p_container_distributi.Replication.{
  Engine, delivered, gave_up, Pushed, push_loop, push_with_retry,
}

-- The backoffs before `n` attempts: none before the first, then doubling from `base`.
abbrev pub backoffs : ℕ → ℕ → ℕ
backoffs base zero = 0
backoffs base (suc zero) = 0
backoffs base (suc (suc n)) = backoffs base (suc n) + base * 2 ^ n

backoffs_closed : (base n : ℕ) → backoffs base (suc n) + base ≡ base * 2 ^ n
backoffs_closed base zero = omega arith
backoffs_closed base (suc n) = rw pow-suc (omega (arith, backoffs_closed base n))

module _ (answer : ℕ → Option Error) (done : ℕ → Bool) (base : ℕ) where
  one_more :
      (attempt : ℕ)
      → (if ltb 0 attempt
          then backoffs base attempt + base * 2 ^ (attempt - 1)
          else backoffs base attempt)
        ≡ backoffs base (suc attempt)
  one_more zero = refl
  one_more (suc n) =
      let e : suc n - 1 ≡ n = omega arith in
      let t : ltb 0 (suc n) ≡ true = ground arith in rw (t, e)

  grown :
      (attempt waited : ℕ)
      → waited ≡ backoffs base attempt
      → (if ltb 0 attempt then waited + base * 2 ^ (attempt - 1) else waited)
        ≡ backoffs base (attempt + 1)
  grown attempt waited w = rw (w, add-one) (one_more attempt)

  -- The bounds of a push that has made `attempt` attempts and has `rounds` left, and what its
  -- outcome says of the answers.
  record IsPush (rounds attempt : ℕ) (p : Pushed) : Type 0 where
    at_most : p.attempts ≤ attempt + rounds
    pub backoff : p.waited ≡ backoffs base p.attempts
    pub success : p.outcome ≡ delivered → (k : ℕ) × (p.attempts ≡ suc k) × (answer k ≡ none)
    pub failure :
        (e : Option Error)
        → p.outcome ≡ gave_up e
        → (p.attempts ≡ attempt + rounds)
          × ((k : ℕ) → attempt ≤ k → k < attempt + rounds → answer k ≢ none)

  push_loop-IsPush :
      (rounds attempt waited : ℕ) (last : Option Error)
      → waited ≡ backoffs base attempt
      → IsPush rounds attempt (push_loop answer done base rounds attempt waited last)
  unfolding push_loop
  push_loop-IsPush zero attempt waited last w = record {
    at_most = omega arith;
    backoff = w;
    success = λ e. cc;
    failure = λ e h. (omega arith, λ k lo hi. absurd (omega arith));
  }
  push_loop-IsPush (suc rounds) attempt waited last w =
      elim (Bool-cases (ltb 0 attempt && done attempt)) [
        | inl stopped ↦
            rw (stopped, push_loop)
              (record {
                at_most = omega arith;
                backoff = w;
                success = λ e. cc;
                failure = λ e h. cc;
              })
        | inr on ↦ elim (Option-cases (answer attempt)) [
          | inl taken ↦
              rw (on, push_loop, taken)
                (record {
                  at_most = omega arith;
                  backoff = grown attempt waited w;
                  success = λ e. (attempt, omega arith, taken);
                  failure = λ e h. cc;
                })
          | inr (e, refused) ↦
              rw (on, push_loop, refused)
                (let ih =
                    push_loop-IsPush rounds (attempt + 1) _ (some e) (grown attempt waited w) in
                  record {
                    at_most = omega (arith, ih.at_most);
                    backoff = ih.backoff;
                    success = ih.success;
                    failure = λ l h.
                        let (n, all) = ih.failure l h in
                        (
                          omega (arith, n),
                          λ k lo hi. elim (Bool-cases (ltb attempt k)) [
                            | inl later ↦ all k (ground arith) (omega arith)
                            | inr now ↦
                                let here : attempt ≡ k = ground arith in
                                λ z. cc (subst (λ i. answer i ≡ some e) here refused, z)
                          ],
                        );
                  })
        ]
      ]

  push_loop-delivers :
      (rounds attempt waited : ℕ) (last : Option Error) (k : ℕ)
      → attempt ≤ k
      → k < attempt + rounds
      → answer k ≡ none
      → ((j : ℕ) → j ≤ k → done j ≡ false)
      → ((push_loop answer done base rounds attempt waited last).outcome ≡ delivered)
        × ((push_loop answer done base rounds attempt waited last).attempts ≤ suc k)
  unfolding push_loop
  push_loop-delivers zero attempt waited last k lo hi got open_ = absurd (omega arith)
  push_loop-delivers (suc rounds) attempt waited last k lo hi got open_ =
      let on : (ltb 0 attempt && done attempt) ≡ false = ground (arith, open_ attempt) in
      elim (Option-cases (answer attempt)) [
        | inl taken ↦ rw (on, push_loop, taken) (refl, omega arith)
        | inr (e, refused) ↦
            rw (on, push_loop, refused)
              (push_loop-delivers rounds (attempt + 1) _ (some e) k
                (later attempt k lo
                  (λ same. cc (subst (λ i. answer i ≡ none) (sym same) got, refused)))
                (omega arith) got open_)
      ]
    where
      later : (a k : ℕ) → a ≤ k → (a ≡ k → ⊥) → a + 1 ≤ k
      later a k lo ne = ground arith

module _ (e : Engine) (answer : ℕ → Option Error) (done : ℕ → Bool) where
  whole-IsPush :
      IsPush answer done e.retry_base (e.max_retries + 1) 0 (push_with_retry e answer done)
  unfolding push_with_retry
  whole-IsPush = push_loop-IsPush answer done e.retry_base (e.max_retries + 1) 0 0 none refl

  -- A push makes at most `maxRetries + 1` attempts, and waits the doubling backoffs before all of
  -- them but the first, whatever it meets.
  pub push_with_retry-bounds :
      let p = push_with_retry e answer done in
      (p.attempts ≤ e.max_retries + 1) × (p.waited ≡ backoffs e.retry_base p.attempts)
  push_with_retry-bounds = (omega (arith, whole-IsPush.at_most), whole-IsPush.backoff)

  -- A push reports success only if the last attempt that it made was taken.
  pub push_with_retry-success :
      (push_with_retry e answer done).outcome ≡ delivered
      → (k : ℕ) × ((push_with_retry e answer done).attempts ≡ suc k) × (answer k ≡ none)
  push_with_retry-success = whole-IsPush.success

  -- A push gives up only after `maxRetries + 1` attempts, none of which was taken.
  pub push_with_retry-failure :
      (last : Option Error) (k : ℕ)
      → (push_with_retry e answer done).outcome ≡ gave_up last
      → k ≤ e.max_retries
      → ((push_with_retry e answer done).attempts ≡ e.max_retries + 1) × (answer k ≢ none)
  push_with_retry-failure last k h le =
      let (n, all) = whole-IsPush.failure last h in
      (omega (arith, n), all k (omega arith) (omega arith))

-- If the peer takes some attempt up to the last retry, and the context is not done before that, the
-- push succeeds, and not later than there.
pub push_with_retry-delivers :
    (e : Engine) (answer : ℕ → Option Error) (done : ℕ → Bool) (k : ℕ)
    → k ≤ e.max_retries
    → answer k ≡ none
    → ((j : ℕ) → j ≤ k → done j ≡ false)
    → ((push_with_retry e answer done).outcome ≡ delivered)
      × ((push_with_retry e answer done).attempts ≤ suc k)
unfolding push_with_retry
push_with_retry-delivers e answer done k le got open_ =
    push_loop-delivers answer done e.retry_base (e.max_retries + 1) 0 0 none k (omega arith)
      (omega arith) got open_
