-- ===== src/Backends/Polling.antt =====
-- src/sir/backends/vllm.py: how long `_await_health` takes.
use stupid_inference_router.Prelude.{
  ℕ, zero, suc, ◌+◌, ◌≤◌, ◌<◌, ◌≡◌, refl, inl, inr, arith, Bool, true, false, not, some, ◌==◌,
  Bool-cases,
}
use stupid_inference_router.Float.{Float, le}
use stupid_inference_router.Backends.Vllm.{World, health, same, await_health}

same-eq : (a b : Bool) → same a b ≡ true → a ≡ b
same-eq true true h = refl
same-eq true false h = cc
same-eq false true h = cc
same-eq false false h = refl

same-not : (a b : Bool) → same a b ≡ false → a ≡ not b
same-not true true h = cc
same-not true false h = refl
same-not false true h = refl
same-not false false h = cc

module _ {F : Type 0} ⦃fl : Float F⦄ (world : World F) (want : Bool) (deadline : F) where
  -- The poll that ended the wait: the first one that found what was wanted, or that came too late.
  pub record IsPolled (first last : ℕ) (answer : Bool) : Type 0 where
    pub waits :
        (i : ℕ)
        → first ≤ i
        → i < last
        → (health (world.probes i) ≡ not want) × (le deadline (world.clock i) ≡ false)
    pub found : answer ≡ true → health (world.probes last) ≡ want
    pub late :
        answer ≡ false
        → (health (world.probes last) ≡ not want) × (le deadline (world.clock last) ≡ true)

  -- The wait takes at most one poll more than the clock needs to reach the deadline.
  pub await_health-IsPolled :
      (k fuel n : ℕ)
      → n ≤ k
      → n + fuel ≡ suc k
      → le deadline (world.clock k) ≡ true
      → (answer : Bool) × (await_health world want deadline fuel n ≡ some answer)
        × (last : ℕ) × (last ≤ k)
        × IsPolled n last answer
  unfolding await_health
  await_health-IsPolled k zero n early sum reached = ground arith
  await_health-IsPolled k (suc fuel) n early sum reached =
      elim (Bool-cases (same (health (world.probes n)) want)) [
        | inl found ↦ (
          true,
          rw found refl,
          n,
          early,
          record {
            waits = λ i from below. ground arith;
            found = λ yes. same-eq (health (world.probes n)) want found;
            late = λ no. cc;
          },
        )
        | inr other ↦ elim (Bool-cases (le deadline (world.clock n))) [
          | inl late ↦ (
            false,
            rw (other, late) refl,
            n,
            early,
            record {
              waits = λ i from below. ground arith;
              found = λ no. cc;
              late = λ yes. (same-not (health (world.probes n)) want other, late);
            },
          )
          | inr time ↦ elim (Bool-cases (n == k)) [
            | inl there ↦ let at : n ≡ k = ground arith in cc
            | inr before ↦
                let (answer, done, last, within, polled) =
                  await_health-IsPolled k fuel (n + 1) (ground arith) (omega arith) reached in
                (
                  answer,
                  rw (other, time) done,
                  last,
                  within,
                  record {
                    waits = λ i from below. elim (Bool-cases (i == n)) [
                      | inl here ↦
                          let at : i ≡ n = ground arith in
                          rw at (same-not (health (world.probes n)) want other, time)
                      | inr later ↦ polled.waits i (ground arith) below
                    ];
                    found = polled.found;
                    late = polled.late;
                  },
                )
          ]
        ]
      ]
