-- ===== src/Engine/Staffing.antt =====
-- src/sir/engine.py: the queues of the models that the control loop looks up.
use mathlib.Core.Option
use stupid_inference_router.Prelude.{
  ℕ, String, true, ◌≡◌, refl, sym, subst, inl, inr, Option, none, some, List, [], ◌∷◌, arith, In,
  is_some,
}
use stupid_inference_router.Prelude.Dict.{get}
use stupid_inference_router.Float.{Float}
use stupid_inference_router.Config.Models.{ModelConfig}
use stupid_inference_router.Types.Scheduling.{ModelState}
use stupid_inference_router.Queues.Defs.{
  Heap, ModelQueues, contains, depth, live_count, oldest_live, oldest_enqueued_at,
}
use stupid_inference_router.Queues.Purge.{live_queues}
use stupid_inference_router.Engine.Defs.{Engine, model_states, model_state}
use stupid_inference_router.Engine.Control.{Phase, draining, unloading, loading}

-- The target of a switch that is under way has a queue.
abbrev pub HasTarget : {F : Type 0} → Phase F → ModelQueues → Type 0
HasTarget (draining since target) queues = contains queues target ≡ true
HasTarget (unloading previous target) queues = contains queues target ≡ true
HasTarget (loading since target) queues = contains queues target ≡ true
HasTarget _ queues = Unit

-- The configured models and the resident one have queues.
pub record IsStaffed {F : Type 0} (models : List (ModelConfig F)) (resident : Option String)
    (queues : ModelQueues) : Type 0 where
  pub configured : (m : ModelConfig F) → In m models → contains queues m.name ≡ true
  pub hosted : (name : String) → resident ≡ some name → contains queues name ≡ true

module _ {F : Type 0} where
  abbrev pub Staffed : Engine F → Type 0
  Staffed e = IsStaffed e.config.models e.resident e.queues

  -- The stretch does not raise, and leads to a staffed engine.
  abbrev pub Returns : Option (Engine F × Phase F) → Type 0
  Returns none = ⊥
  Returns (some (e, p)) = Staffed e × HasTarget p e.queues

  pub contains-live_queues :
      (heap : Heap F) (queues : ModelQueues) (name : String)
      → contains (live_queues heap queues) name ≡ contains queues name
  unfolding live_queues get
  contains-live_queues heap [] name = refl
  contains-live_queues heap ((n, queue) ∷ queues) name =
      ground (arith, contains-live_queues heap queues name)

  -- Queues may change as long as each stays.
  pub restaffed :
      {models : List (ModelConfig F)} {resident : Option String} {queues queues' : ModelQueues}
      → ((name : String) → contains queues name ≡ true → contains queues' name ≡ true)
      → IsStaffed models resident queues
      → IsStaffed models resident queues'
  restaffed stays s = record {
    configured = λ m known. stays m.name (s.configured m known);
    hosted = λ name here. stays name (s.hosted name here);
  }

  -- Nothing is resident any more.
  pub vacated :
      {models : List (ModelConfig F)} {resident : Option String} {queues : ModelQueues}
      → IsStaffed models resident queues
      → IsStaffed models none queues
  vacated s = record { configured = s.configured; hosted = λ name here. cc }

  pub installed :
      {models : List (ModelConfig F)} {resident : Option String} {queues : ModelQueues}
      (target : String)
      → contains queues target ≡ true
      → IsStaffed models resident queues
      → IsStaffed models (some target) queues
  installed {queues = queues} target known s = record {
    configured = s.configured;
    hosted = λ name here.
        let same : target ≡ name = cc in subst (λ n. contains queues n ≡ true) same known;
  }

  pub depth-known :
      (heap : Heap F) (queues : ModelQueues) (name : String)
      → contains queues name ≡ true
      → (n : ℕ) × (depth heap queues name ≡ some n)
  unfolding depth
  depth-known heap queues name known = go (get name queues) known
    where
      go :
          (o : Option (List ℕ))
          → is_some o ≡ true
          → (n : ℕ) × (Option.map (live_count heap) o ≡ some n)
      go none h = cc
      go (some queue) h = (live_count heap queue, refl)

  oldest-known :
      (heap : Heap F) (queues : ModelQueues) (name : String)
      → contains queues name ≡ true
      → (t : Option F) × (oldest_enqueued_at heap queues name ≡ some t)
  unfolding oldest_enqueued_at
  oldest-known heap queues name known = go (get name queues) known
    where
      go :
          (o : Option (List ℕ))
          → is_some o ≡ true
          → (t : Option F) × (Option.map (oldest_live heap) o ≡ some t)
      go none h = cc
      go (some queue) h = (oldest_live heap queue, refl)

module _ {F : Type 0} ⦃fl : Float F⦄ where
  -- Every state in a snapshot is that of a model with a queue.
  pub model_states-known :
      (e : Engine F) (ms : List (ModelConfig F))
      → ((m : ModelConfig F) → In m ms → contains e.queues m.name ≡ true)
      → (states : List (ModelState F)) × (model_states e ms ≡ some states)
        × ((s : ModelState F) → In s states → contains e.queues s.name ≡ true)
  unfolding model_states Option.bind
  model_states-known e [] known = ([], refl, λ s h. absurd h)
  model_states-known e (m ∷ ms) known =
      let here = known m (inl refl) in
      let (queued, at) = depth-known e.heap e.queues m.name here in
      let (oldest, since) = oldest-known e.heap e.queues m.name here in
      let (states, rest, all) = model_states-known e ms (λ x h. known x (inr h)) in
      (
        model_state e m queued oldest ∷ states,
        rw (at, since, rest) refl,
        λ s h. elim h [
          | inl same ↦ subst (λ x. contains e.queues x.name ≡ true) (sym same) here
          | inr later ↦ all s later
        ],
      )
