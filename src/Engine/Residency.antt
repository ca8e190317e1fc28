-- ===== src/Engine/Residency.antt =====
-- src/sir/engine.py: which backends are loaded across `_drain` and `_switch`.
use stupid_inference_router.Prelude.{
  ℕ, String, true, false, not, ◌≡◌, refl, ap, sym, ◌∙◌, Option, none, some, List, [], ◌∷◌, arith,
  filter, str_eq, str_eq_refl, if◌then◌else◌, if_cases, filter-skip, length, ◌==◌,
}
use stupid_inference_router.Float.{Float}
use stupid_inference_router.Types.Scheduling.{EventKind}
use stupid_inference_router.Queues.Defs.{contains}
use stupid_inference_router.Engine.Keeps.{gather-Keeps}
use stupid_inference_router.Engine.Defs.{Engine, Flight, emit}
use stupid_inference_router.Engine.Serve.{Turn}
use stupid_inference_router.Engine.Loop.{mark_unavailable, cancel_disconnected}
use stupid_inference_router.Engine.Switch.{
  Times, Load, started, refused, change_over, unload_previous, load_result, drain, or_dash,
  switch_to,
}

-- The backends that are loaded are the resident one, or none.
abbrev pub loaded_by : Option String → List String
loaded_by none = []
loaded_by (some name) = name ∷ []

module _ {F : Type 0} where
  -- Exactly the resident backend is loaded.
  abbrev pub IsSingle : Engine F → Type 0
  IsSingle e = e.loaded ≡ loaded_by e.resident

pub gone : (name : String) → filter (λ n. not (str_eq n name)) (name ∷ []) ≡ []
unfolding filter
gone name = filter-skip (λ n. not (str_eq n name)) name [] (ap not (str_eq_refl name))

-- The resident model once a load has ended.
abbrev pub after_load : String → Load → Option String
after_load target started = some target
after_load target (refused message) = none

module _ {F : Type 0} ⦃fl : Float F⦄ where
  unload_previous-Single :
      (e : Engine F) (now : F) (o : Option String)
      → e.loaded ≡ loaded_by o
      → o ≡ e.resident
      → ((unload_previous e now o).loaded ≡ []) × ((unload_previous e now o).resident ≡ none)
  unfolding unload_previous emit filter
  unload_previous-Single e now none single eq = (single, sym eq)
  unload_previous-Single e now (some name) single eq =
      (ap (filter (λ n. not (str_eq n name))) single ∙ gone name, refl)

  load_result-Single :
      (e : Engine F) (t : Times F) (target : String) (load : Load)
      → e.loaded ≡ []
      → e.resident ≡ none
      → ((load_result e t target load).resident ≡ after_load target load)
        × ((load_result e t target load).loaded ≡ loaded_by (after_load target load))
  unfolding load_result emit mark_unavailable filter
  load_result-Single e t target started empty free = (refl, ap (λ xs. target ∷ xs) empty)
  load_result-Single e t target (refused message) empty free =
      (free, ap (filter (λ n. not (str_eq n target))) empty)

  change_over-Single :
      (e : Engine F) (t : Times F) (target : String) (load : Load)
      → IsSingle e
      → IsSingle (change_over e t target load)
        × ((change_over e t target load).resident ≡ after_load target load)
        × ((change_over e t target load).switching ≡ false)
  unfolding change_over emit
  change_over-Single e t target load single =
      let (empty, free) =
        unload_previous-Single (record e { switching = true }) t.unloaded e.resident single refl in
      let loading =
        emit (unload_previous (record e { switching = true }) t.unloaded e.resident) t.unloaded
          EventKind.load_start target "" none in
      let (resident, loaded) = load_result-Single loading t target load empty free in
      (loaded ∙ ap loaded_by (sym resident), resident, refl)

  unload_previous-in_flight :
      (e : Engine F) (now : F) (o : Option String)
      → (unload_previous e now o).in_flight ≡ e.in_flight
  unfolding unload_previous emit
  unload_previous-in_flight e now none = refl
  unload_previous-in_flight e now (some name) = refl

  load_result-in_flight :
      (e : Engine F) (t : Times F) (target : String) (load : Load)
      → (load_result e t target load).in_flight ≡ e.in_flight
  unfolding load_result emit mark_unavailable
  load_result-in_flight e t target started = refl
  load_result-in_flight e t target (refused message) = refl

  change_over-in_flight :
      (e : Engine F) (t : Times F) (target : String) (load : Load)
      → (change_over e t target load).in_flight ≡ e.in_flight
  unfolding change_over emit
  change_over-in_flight e t target load =
      load_result-in_flight _ t target load
      ∙ unload_previous-in_flight (record e { switching = true }) t.unloaded e.resident

  -- A drain ends with no request being served, and changes neither what is loaded nor what waits.
  drain_lem :
      (e : Engine F) (now later : F) (count : ℕ → String) (turns : ℕ → List Turn)
      → (IsSingle e → IsSingle (drain e now later count turns))
        × ((drain e now later count turns).in_flight ≡ [])
  unfolding drain cancel_disconnected emit
  drain_lem e now later count turns =
      if_cases {A = Engine F} (λ r. (IsSingle e → IsSingle r) × (r.in_flight ≡ []))
        (length e.in_flight == 0) (λ idle. (λ single. single, nothing e.in_flight idle))
        (λ busy.
          let begun =
            emit (record e { draining = true }) now EventKind.drain_start (or_dash e.resident)
              (count (length e.in_flight)) none in
          let stopped = cancel_disconnected begun in
          let keeps = gather-Keeps stopped now turns stopped.in_flight in
          (
            λ single.
                ap (λ f. f.loaded) keeps ∙ single ∙ ap loaded_by (sym (ap (λ f. f.resident) keeps)),
            refl,
          ))
    where
      nothing : (fs : List Flight) → (length fs == 0) ≡ true → fs ≡ []
      nothing [] eq = refl
      nothing (f ∷ fs) eq = ground arith

  -- If exactly the resident backend is loaded, then a switch to a configured model returns, and after
  -- it exactly the resident backend is loaded again, which is the target if its load succeeded and none
  -- if it failed; no request is left in flight, and the switch is marked as over.
  pub switch_to-Single :
      (e : Engine F) (t : Times F) (count : ℕ → String) (turns : ℕ → List Turn) (target : String)
      (load : Load)
      → contains e.queues target ≡ true
      → IsSingle e
      → (e' : Engine F) × (switch_to e t count turns target load ≡ some e')
        × IsSingle e'
        × (e'.resident ≡ after_load target load)
        × (e'.in_flight ≡ [])
        × (e'.switching ≡ false)
  unfolding switch_to
  switch_to-Single e t count turns target load known single =
      let drained = drain e t.entered t.drained count turns in
      let (keeps, none_left) = drain_lem e t.entered t.drained count turns in
      let (single', resident, over) = change_over-Single drained t target load (keeps single) in
      (
        change_over drained t target load,
        ap (λ b. if b then some (change_over drained t target load) else none) known,
        single',
        resident,
        change_over-in_flight drained t target load ∙ none_left,
        over,
      )
