-- ===== src/Engine/Coherence.antt =====
-- src/sir/engine.py: what the engine's flags, its resident and the loaded backends are at each await of
-- the control loop.
use stupid_inference_router.Prelude.{
  ℕ, suc, ◌≤◌, String, Bool, true, false, not, ◌≡◌, refl, ap, ◌∙◌, Option, none, some, List, [],
  ◌∷◌, arith, length, filter, names, str_eq, eq_iff, ◌==◌, if_cases,
}
use stupid_inference_router.Float.{Float}
use stupid_inference_router.Queues.Defs.{contains}
use stupid_inference_router.Engine.Defs.{Engine, Flight, emit}
use stupid_inference_router.Engine.Loop.{stop_flights, cancel_disconnected}
use stupid_inference_router.Engine.Residency.{loaded_by, gone}
use stupid_inference_router.Engine.Control.{
  Phase, looping, containing, stopping, draining, unloading, loading, cleaning, start_load,
  leave_resident, switch_from,
}

-- What coherence is about.
pub record Stance : Type 0 where
  pub limit : ℕ
  pub loaded : List String
  pub resident : Option String
  pub flights : ℕ
  pub draining : Bool
  pub switching : Bool

abbrev pub stance : {F : Type 0} → Engine F → Stance
stance e = record {
  limit = e.config.scheduler.max_concurrent_requests;
  loaded = e.loaded;
  resident = e.resident;
  flights = length e.in_flight;
  draining = e.draining;
  switching = e.switching;
}

-- Exactly the resident backend is loaded, and no more requests are served than the limit.
abbrev pub Settled : Stance → Type 0
Settled s = (s.loaded ≡ loaded_by s.resident) × (s.flights ≤ s.limit) × (s.switching ≡ false)

-- Nothing is resident, these backends are loaded, and no request is served.
abbrev pub Vacant : List String → Bool → Stance → Type 0
Vacant loaded moving s =
    (s.loaded ≡ loaded) × (s.resident ≡ none) × (s.flights ≡ 0) × (s.switching ≡ moving)

abbrev pub Coherent : {F : Type 0} → Phase F → Stance → Type 0
Coherent looping s = Settled s × (s.draining ≡ false)
Coherent (containing name rest) s = Settled s × (s.draining ≡ false) × (s.resident ≡ some name)
Coherent (stopping name rest) s = Vacant (name ∷ []) false s × (s.draining ≡ false)
Coherent (draining since target) s = Settled s × (s.draining ≡ true)
Coherent (unloading previous target) s = Vacant (previous ∷ []) true s × (s.draining ≡ false)
Coherent (loading since target) s = Vacant [] true s × (s.draining ≡ false)
Coherent (cleaning target) s = Vacant [] true s × (s.draining ≡ false)

-- The stretch leads to a coherent state, if it does not raise.
abbrev pub Leads : {F : Type 0} → Option (Engine F × Phase F) → Type 0
Leads none = Unit
Leads (some (e, p)) = Coherent p (stance e)

pub length-stop_flights :
    (test : Flight → Bool) (fs : List Flight) → length (stop_flights test fs) ≡ length fs
unfolding stop_flights
length-stop_flights test [] = refl
length-stop_flights test (f ∷ fs) = ap suc (length-stop_flights test fs)

pub names-resident : (o : Option String) (name : String) → names o name ≡ true → o ≡ some name
names-resident none name h = cc
names-resident (some n) name h = ground (arith, eq_iff n name)

zero_flights : {A : Type 0} (xs : List A) → (length xs == 0) ≡ true → length xs ≡ 0
zero_flights xs h = ground arith

pub unloaded :
    (name : String) (xs : List String) → xs ≡ name ∷ [] → filter (λ n. not (str_eq n name)) xs ≡ []
unloaded name xs eq = ap (filter (λ n. not (str_eq n name))) eq ∙ gone name

pub nothing : (name : String) → filter (λ n. not (str_eq n name)) [] ≡ []
unfolding filter
nothing name = refl

module _ {F : Type 0} ⦃fl : Float F⦄ where
  pub start_load-Leads :
      (e : Engine F) (now : F) (target : String)
      → Vacant [] true (stance e)
      → e.draining ≡ false
      → Leads (start_load e now target)
  unfolding start_load emit
  start_load-Leads e now target vacant quiet =
      if_cases {A = Option (Engine F × Phase F)} Leads (contains e.queues target)
        (λ known. (vacant, quiet)) (λ unknown. tt)

  pub leave_resident-Leads :
      (e : Engine F) (now : F) (target : String) (o : Option String)
      → e.resident ≡ o
      → e.loaded ≡ loaded_by o
      → length e.in_flight ≡ 0
      → e.draining ≡ false
      → e.switching ≡ true
      → Leads (leave_resident e now target o)
  unfolding leave_resident
  leave_resident-Leads e now target none resident loaded idle quiet moving =
      start_load-Leads e now target (loaded, resident, idle, moving) quiet
  leave_resident-Leads e now target (some previous) resident loaded idle quiet moving =
      ((loaded, refl, idle, moving), quiet)

  pub switch_from-Leads :
      (e : Engine F) (now : F) (count : ℕ → String) (target : String)
      → Coherent {F = F} looping (stance e)
      → Leads (switch_from e now count target)
  unfolding switch_from cancel_disconnected emit
  switch_from-Leads e now count target ((loaded, within, still), quiet) =
      if_cases {A = Option (Engine F × Phase F)} Leads (length e.in_flight == 0)
        (λ idle.
          leave_resident-Leads (record e { switching = true }) now target e.resident refl loaded
            (zero_flights e.in_flight idle) quiet refl)
        (λ busy. (
          (
            loaded,
            omega (arith, within, length-stop_flights (λ f. (e.heap f.ref).cancelled) e.in_flight),
            still,
          ),
          refl,
        ))
