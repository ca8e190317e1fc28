-- ===== src/Backends/Startup.antt =====
-- src/sir/backends/vllm.py: how `start` and `stop` end.
use mathlib.Core.Option
use stupid_inference_router.Prelude.{
  ℕ, suc, ◌≤◌, ◌≡◌, refl, ap, ◌∙◌, ◌⊎◌, inl, inr, arith, Bool, true, false, not, Option, none, some,
  ◌==◌, if◌then◌else◌, Bool-cases,
}
use stupid_inference_router.Float.{Float, add, le}
use stupid_inference_router.Config.Models.{VllmParams}
use stupid_inference_router.Backends.Vllm.{
  World, Outcome, raised, fine, Stopped, adopted, waited, BackendError, not_healthy,
  start_container, health, docker_post, await_health, start, stop, come_up, after_post, of_health,
}
use stupid_inference_router.Backends.Polling.{IsPolled, await_health-IsPolled}

module _ {F : Type 0} ⦃fl : Float F⦄ (p : VllmParams F) (world : World F) where
  -- Docker has not refused, if it was asked at all.
  abbrev pub IsPosted : Type 0
  IsPosted = p.manage_lifecycle ≡ true → docker_post start_container world.docker ≡ none

  -- The server was never healthy up to a poll after which the deadline was over.
  abbrev pub NeverUp : ℕ → F → Type 0
  NeverUp k deadline =
      (last : ℕ) × (last ≤ k)
      × (le deadline (world.clock last) ≡ true)
      × ((i : ℕ) → i ≤ last → health (world.probes i) ≡ false)

  -- How `start` ends: it returns after a healthy answer, or raises what Docker or the deadline said.
  pub record IsStarted (k : ℕ) (outcome : Outcome) : Type 0 where
    pub up : outcome ≡ fine → IsPosted × ((n : ℕ) × (n ≤ k) × (health (world.probes n) ≡ true))
    pub down :
        (error : BackendError)
        → outcome ≡ raised error
        → ((p.manage_lifecycle ≡ true) × (docker_post start_container world.docker ≡ some error))
          ⊎ (IsPosted
              × (error ≡ not_healthy)
              × NeverUp k (add world.entered p.start_timeout_seconds))

  came_up :
      (k : ℕ)
      → IsPosted
      → le (add world.entered p.start_timeout_seconds) (world.clock k) ≡ true
      → (outcome : Outcome) × (come_up p world (suc k) ≡ some outcome) × IsStarted k outcome
  came_up k posted reached =
      let (answer, done, last, within, polled) =
        await_health-IsPolled world true (add world.entered p.start_timeout_seconds) k (suc k) 0
          (omega arith) (omega arith) reached in
      (of_health answer, ap (Option.map of_health) done, ended answer last within polled)
    where
      ended :
          (answer : Bool) (last : ℕ)
          → last ≤ k
          → IsPolled world true (add world.entered p.start_timeout_seconds) 0 last answer
          → IsStarted k (of_health answer)
      ended true last within polled = record {
        up = λ is. (posted, (last, within, polled.found refl));
        down = λ error is. cc;
      }
      ended false last within polled = record {
        up = λ is. cc;
        down = λ error is. inr (
          posted,
          cc,
          (
            last,
            within,
            (polled.late refl).1,
            λ i upto. elim (Bool-cases (i == last)) [
              | inl here ↦ let at : i ≡ last = ground arith in rw at (polled.late refl).0
              | inr before ↦ (polled.waits i (omega arith) (ground arith)).0
            ],
          ),
        );
      }

  -- Once some reading of the clock is past the deadline, `start` ends, and the polls up to that reading
  -- are enough. It returns only after the server answered healthy and, where the container is its
  -- own, after Docker took the order to start it; it raises only what Docker's refusal says, with no
  -- poll, or that the server is not healthy, after the deadline and with no healthy answer before.
  pub start-IsStarted :
      (k : ℕ)
      → le (add world.entered p.start_timeout_seconds) (world.clock k) ≡ true
      → (outcome : Outcome) × (start p world (suc k) ≡ some outcome) × IsStarted k outcome
  unfolding start
  start-IsStarted k reached =
      go p.manage_lifecycle refl (docker_post start_container world.docker) refl
    where
      go :
          (owned : Bool)
          → p.manage_lifecycle ≡ owned
          → (o : Option BackendError) → docker_post start_container world.docker ≡ o
          → (outcome : Outcome) × ((if owned
                then after_post o (come_up p world (suc k))
                else come_up p world (suc k))
              ≡ some outcome)
            × IsStarted k outcome
      go true own none posted = came_up k (λ is. posted) reached
      go true own (some error) refusal = (
        raised error,
        refl,
        record {
          up = λ is. cc;
          down = λ e is. inl (own, let same : error ≡ e = cc in refusal ∙ ap some same);
        },
      )
      go false free o answer = came_up k (λ is. cc) reached

  -- `stop` ends as well, and says that the server is gone only after an answer that is not healthy.
  stop-Returns :
      (k : ℕ)
      → le (add world.entered p.stop_timeout_seconds) (world.clock k) ≡ true
      → (stopped : Stopped) × (stop p world (suc k) ≡ some stopped)
        × (stopped ≡ waited true → (n : ℕ) × (n ≤ k) × (health (world.probes n) ≡ false))
  unfolding stop
  stop-Returns k reached = go p.manage_lifecycle
    where
      go :
          (owned : Bool)
          → (stopped : Stopped) × ((if not owned
                then some adopted
                else Option.map waited
                    (await_health world false (add world.entered p.stop_timeout_seconds) (suc k) 0))
              ≡ some stopped)
            × (stopped ≡ waited true → (n : ℕ) × (n ≤ k) × (health (world.probes n) ≡ false))
      go false = (adopted, refl, λ is. cc)
      go true =
          let (answer, done, last, within, polled) =
            await_health-IsPolled world false (add world.entered p.stop_timeout_seconds) k (suc k) 0
              (omega arith) (omega arith) reached in
          (waited answer, ap (Option.map waited) done, λ is. (last, within, polled.found cc))
