-- ===== src/Client/Resubmits.antt =====
-- src/clients/python/src/sir_client/client.py: how often `run` submits.
use mathlib.Core.Option
use stupid_inference_router.Prelude.{
  ℕ, zero, suc, ◌≤◌, String, Bool, true, not, ◌&&◌, ◌≡◌, ◌≢◌, refl, subst, arith, Option, none,
  some, List, [], ◌∷◌, ◌==◌, if_cases,
}
use stupid_inference_router.Float.{Float, add}
use stupid_inference_router.Json.{Json, Fields}
use stupid_inference_router.Client.Registry.{Registry}
use stupid_inference_router.Client.Polling.{Result, returns, throws, Job, Waited, await_job}
use stupid_inference_router.Client.Run.{
  Attempt, Ran, is_lost, counted, once, after_wait, after_submit, attempt, has_key, submit, run,
}

module _ {F : Type 0} ⦃fl : Float F⦄ (registry : Registry) (model : String) (body : Fields F)
    (key : Option String) (timeout deadline own : Option F) where
  -- The job of the attempt is lost.
  abbrev pub IsLost : Attempt F → Type 0
  IsLost a =
      (job : Job F) × (w : Waited F) × (submit registry model body key a.ask ≡ returns job)
      × (await_job job timeout deadline own a.now a.script ≡ some w)
      × (is_lost w.result ≡ true)

  -- One submission, or more where the first job is lost and attempts are left.
  abbrev Tries : ℕ → Attempt F → Option (Ran F) → Type 0
  Tries left a none = Unit
  Tries left a (some r) =
      (1 ≤ r.submissions) × (r.submissions ≤ suc left) × (r.submissions ≢ 1 → (1 ≤ left) × IsLost a)

  -- At most so many.
  abbrev Few : ℕ → Option (Ran F) → Type 0
  Few n none = Unit
  Few n (some r) = r.submissions ≤ n

  once-Tries : (left : ℕ) (a : Attempt F) (result : Result F (Json F)) → Tries left a (once result)
  once-Tries left a result = (omega arith, omega arith, λ more. absurd (more refl))

  counted-Tries :
      (left : ℕ) (a : Attempt F) (o : Option (Ran F))
      → 1 ≤ left
      → IsLost a
      → Few left o
      → Tries left a (counted o)
  counted-Tries left a none more lost few = tt
  counted-Tries left a (some r) more lost few =
      (omega arith, omega (arith, few), λ again. (more, lost))

  wait-Tries :
      (left : ℕ) (a : Attempt F) (job : Job F) (rest : Option (Ran F))
      → submit registry model body key a.ask ≡ returns job
      → Few left rest
      → Tries left a
          (after_wait (await_job job timeout deadline own a.now a.script) (not (left == 0)) rest)
  wait-Tries left a job rest accepted few =
      go (await_job job timeout deadline own a.now a.script) refl
    where
      go :
          (o : Option (Waited F))
          → await_job job timeout deadline own a.now a.script ≡ o
          → Tries left a (after_wait o (not (left == 0)) rest)
      go none waits = tt
      go (some w) waits =
          if_cases {A = Option (Ran F)} (Tries left a) (is_lost w.result && not (left == 0))
            (λ again.
              counted-Tries left a rest (ground arith) (job, w, accepted, waits, ground arith) few)
            (λ stays. once-Tries left a w.result)

  Tries-Few : (left : ℕ) (a : Attempt F) (o : Option (Ran F)) → Tries left a o → Few (suc left) o
  Tries-Few left a none t = tt
  Tries-Few left a (some r) t = t.1

  step-Tries :
      (left : ℕ) (a : Attempt F) (rest : Option (Ran F))
      → Few left rest
      → Tries left a (
          after_submit (submit registry model body key a.ask) (λ job.
            after_wait (await_job job timeout deadline own a.now a.script) (not (left == 0)) rest))
  step-Tries left a rest few = go (submit registry model body key a.ask) refl
    where
      go :
          (r : Result F (Job F))
          → submit registry model body key a.ask ≡ r
          → Tries left a (
              after_submit r (λ job.
                after_wait
                  (await_job job timeout deadline own a.now a.script)
                  (not (left == 0))
                  rest))
      go (returns job) accepted = wait-Tries left a job rest accepted few
      go (throws error) refused = once-Tries left a (throws error)

  attempt-Few :
      (left : ℕ) (tries : List (Attempt F))
      → Few left (attempt registry model body key timeout deadline own left tries)
  unfolding attempt
  attempt-Few zero tries = omega arith
  attempt-Few (suc left) [] = tt
  attempt-Few (suc left) (a ∷ tries) =
      Tries-Few left a (attempt registry model body key timeout deadline own (suc left) (a ∷ tries))
        (step-Tries left a (attempt registry model body key timeout deadline own left tries)
          (attempt-Few left tries))

  attempt-Tries :
      (left : ℕ) (a : Attempt F) (tries : List (Attempt F))
      → Tries left a (attempt registry model body key timeout deadline own (suc left) (a ∷ tries))
  unfolding attempt
  attempt-Tries left a tries =
      step-Tries left a (attempt registry model body key timeout deadline own left tries)
        (attempt-Few left tries)

module _ {F : Type 0} ⦃fl : Float F⦄ where
  -- One or two submissions, and two only with a reason.
  abbrev pub IsEntitled : Ran F → Bool → Option String → Type 0 → Type 0
  IsEntitled r resubmit key Lost =
      (1 ≤ r.submissions)
      × (r.submissions ≤ 2)
      × (r.submissions ≢ 1 → (resubmit ≡ true) × (has_key key ≡ true) × Lost)

  -- A call of `run` that ends has submitted once or twice, and twice only if the caller asked to resubmit
  -- on loss and gave an idempotency key, and the first job was lost.
  pub run-Tries :
      (registry : Registry) (own : Option F) (model : String) (body : Fields F) (timeout : Option F)
      (key : Option String) (resubmit : Bool) (now : F) (a : Attempt F) (tries : List (Attempt F))
      (r : Ran F)
      → run registry own model body timeout key resubmit now (a ∷ tries) ≡ some r
      → IsEntitled r resubmit key
          (IsLost registry model body key timeout (Option.map (λ t. add now t) timeout) own a)
  unfolding run
  run-Tries registry own model body timeout key resubmit now a tries r done =
      if_cases {A = ℕ}
        (λ n.
          attempt registry model body key timeout deadline own n (a ∷ tries) ≡ some r → Entitled)
        (resubmit && has_key key)
        (λ allowed d.
          let (one, two, why) =
            subst (Tries registry model body key timeout deadline own 1 a) d
              (attempt-Tries registry model body key timeout deadline own 1 a tries) in
          (one, two, λ again. (ground arith, ground arith, (why again).1)))
        (λ forbidden d.
          let (one, two, why) =
            subst (Tries registry model body key timeout deadline own 0 a) d
              (attempt-Tries registry model body key timeout deadline own 0 a tries) in
          (one, omega (arith, two), λ again. absurd (again (omega (arith, one, two)))))
        done
    where
      deadline : Option F
      deadline = Option.map (λ t. add now t) timeout

      Entitled : Type 0
      Entitled = IsEntitled r resubmit key (IsLost registry model body key timeout deadline own a)
