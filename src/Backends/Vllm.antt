-- ===== src/Backends/Vllm.antt =====
-- src/sir/backends/vllm.py: `start`, `stop`, `health`, `_await_health` and `_docker_post`. What Docker and
-- the server answer, and the readings of the clock, are arguments: the n-th poll of the server, and the
-- reading after it. A loop of polls takes fuel; `none` is a loop that has not ended with it.
use mathlib.Core.Option
use stupid_inference_router.Prelude.{
  ℕ, zero, suc, ◌+◌, String, Bool, true, false, not, ◌||◌, Option, none, some, ◌==◌, if◌then◌else◌,
}
use stupid_inference_router.Float.{Float, add, le}
use stupid_inference_router.Config.Models.{VllmParams}

-- A response with its status and what it says, or an httpx error.
pub data DockerAnswer : Type 0 where
  unreachable : String → DockerAnswer
  answers : ℕ → String → DockerAnswer

pub data Probe : Type 0 where
  no_answer : Probe
  status : ℕ → Probe

pub data Action : Type 0 where
  start_container stop_container : Action

-- The BackendErrors, for their causes; the messages are left out.
pub data BackendError : Type 0 where
  could_not : Action → String → BackendError
  refused : Action → ℕ → String → BackendError
  not_healthy : BackendError

unfoldable pub docker_post : Action → DockerAnswer → Option BackendError
docker_post action (unreachable error) = some (could_not action error)
docker_post action (answers code detail) =
    if code == 204 || code == 304 then none else some (refused action code detail)

abbrev pub health : Probe → Bool
health no_answer = false
health (status code) = code == 200

abbrev pub same : Bool → Bool → Bool
same true b = b
same false b = not b

-- What the backend does not decide.
pub record World (F : Type 0) : Type 0 where
  pub docker : DockerAnswer
  pub entered : F
  pub probes : ℕ → Probe
  pub clock : ℕ → F

-- The wait is over: an error, or none.
pub data Outcome : Type 0 where
  raised : BackendError → Outcome
  fine : Outcome

-- Nothing was to be done, or the wait for the server to be gone ended, in time or not.
pub data Stopped : Type 0 where
  adopted : Stopped
  waited : Bool → Stopped

abbrev pub of_health : Bool → Outcome
of_health true = fine
of_health false = raised not_healthy

abbrev pub after_post : Option BackendError → Option Outcome → Option Outcome
after_post none up = up
after_post (some error) up = some (raised error)

module _ {F : Type 0} ⦃fl : Float F⦄ where
  -- From the n-th poll on.
  unfoldable pub await_health : World F → Bool → F → ℕ → ℕ → Option Bool
  await_health world want deadline zero n = none
  await_health world want deadline (suc fuel) n =
      let rest = await_health world want deadline fuel (n + 1) in
      if same (health (world.probes n)) want
      then some true
      else if le deadline (world.clock n)
      then some false
      else rest

  abbrev pub come_up : VllmParams F → World F → ℕ → Option Outcome
  come_up p world fuel =
      Option.map of_health
        (await_health world true (add world.entered p.start_timeout_seconds) fuel 0)

  unfoldable pub start : VllmParams F → World F → ℕ → Option Outcome
  unfolding await_health docker_post
  start p world fuel =
      if p.manage_lifecycle
      then after_post (docker_post start_container world.docker) (come_up p world fuel)
      else come_up p world fuel

  -- An error of Docker's is passed over.
  unfoldable pub stop : VllmParams F → World F → ℕ → Option Stopped
  unfolding await_health
  stop p world fuel =
      if not p.manage_lifecycle
      then some adopted
      else Option.map waited
          (await_health world false (add world.entered p.stop_timeout_seconds) fuel 0)
