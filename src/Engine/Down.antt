-- ===== src/Engine/Down.antt =====
-- src/sir/engine.py: `stop`, whatever the engine was doing.
use mathlib.Core.Option
use stupid_inference_router.Prelude.{
  ℕ, String, true, false, ◌≡◌, refl, sym, ap, subst, ◌∙◌, ◌⊎◌, inl, inr, Option, none, some, List,
  [], ◌∷◌, In, is_some,
}
use stupid_inference_router.Prelude.Dict.{get}
use stupid_inference_router.Float.{Float}
use stupid_inference_router.Config.App.{AppConfig}
use stupid_inference_router.Queues.Defs.{contains, model_names}
use stupid_inference_router.Engine.Defs.{Engine}
use stupid_inference_router.Engine.Residency.{loaded_by}
use stupid_inference_router.Engine.Control.{
  Phase, looping, containing, stopping, draining, unloading, loading, cleaning,
}
use stupid_inference_router.Engine.Coherence.{stance, Coherent, unloaded}
use stupid_inference_router.Engine.Steps.{Reach}
use stupid_inference_router.Engine.Invariant.{Reach-Coherent}
use stupid_inference_router.Engine.Shutdown.{
  halted, interrupted, release, drained_into, drain_all, stop,
}
use stupid_inference_router.Engine.Halting.{
  IsStill, IsQuiet, halted-IsStill, interrupted-IsStill, interrupted-IsQuiet, halted-IsQuiet,
}
use stupid_inference_router.Engine.Closing.{
  IsToldOff, drain_all-IsDrained, contains-keys, keys-contains,
}

-- The backend whose own `stop` was cut short.
abbrev pub cut_short : {F : Type 0} → Phase F → List String
cut_short (stopping name rest) = name ∷ []
cut_short (unloading previous target) = previous ∷ []
cut_short _ = []

pub record IsDown {F : Type 0} (e : Engine F) (p : Phase F) (e' : Engine F) : Type 0 where
  pub idle : e'.in_flight ≡ []
  pub empty : (name : String) → contains e.queues name ≡ true → get name e'.queues ≡ some []
  pub told :
      (name : String) (queue : List ℕ) (ref : ℕ)
      → get name e.queues ≡ some queue
      → In ref queue
      → IsToldOff (e'.heap ref)
  pub vacant : e'.resident ≡ none
  pub quiet : (e'.draining ≡ false) × (e'.switching ≡ false)
  pub unloaded : e'.loaded ≡ cut_short p

module _ {F : Type 0} ⦃fl : Float F⦄ where
  -- The backends that are loaded besides the resident one.
  loaded_lem :
      (e : Engine F) (p : Phase F)
      → Coherent p (stance e)
      → ((e.loaded ≡ loaded_by e.resident) × (cut_short p ≡ []))
        ⊎ ((e.loaded ≡ cut_short p) × (e.resident ≡ none))
  loaded_lem e looping ((loaded, within, still), quiet) = inl (loaded, refl)
  loaded_lem e (containing name rest) ((loaded, within, still), quiet, here) = inl (loaded, refl)
  loaded_lem e (stopping name rest) ((loaded, free, idle, still), quiet) = inr (loaded, free)
  loaded_lem e (draining since target) ((loaded, within, still), quiet) = inl (loaded, refl)
  loaded_lem e (unloading previous target) ((loaded, free, idle, moving), quiet) =
      inr (loaded, free)
  loaded_lem e (loading since target) ((loaded, free, idle, moving), quiet) = inr (loaded, free)
  loaded_lem e (cleaning target) ((loaded, free, idle, moving), quiet) = inr (loaded, free)

  -- The parts of an engine that a release touches, given what it released.
  record IsReleased (e e' : Engine F) (left : List String) : Type 0 where
    flights : e'.in_flight ≡ e.in_flight
    heap : e'.heap ≡ e.heap
    queues : e'.queues ≡ e.queues
    vacant : e'.resident ≡ none
    quiet : IsQuiet e → IsQuiet e'
    loaded : e'.loaded ≡ left

  released :
      (e : Engine F) (o : Option String) (left : List String)
      → e.resident ≡ o
      → ((e.loaded ≡ loaded_by o) × (left ≡ [])) ⊎ ((e.loaded ≡ left) × (o ≡ none))
      → IsReleased e (release e o) left
  unfolding release
  released e none left here held = record {
    flights = refl;
    heap = refl;
    queues = refl;
    vacant = here;
    quiet = λ q. q;
    loaded = elim held [
      | inl (loaded, nothing_left) ↦ loaded ∙ sym nothing_left
      | inr (loaded, free) ↦ loaded
    ];
  }
  released e (some name) left here held = record {
    flights = refl;
    heap = refl;
    queues = refl;
    vacant = refl;
    quiet = λ q. q;
    loaded = elim held [
      | inl (loaded, nothing_left) ↦ unloaded name e.loaded loaded ∙ sym nothing_left
      | inr (loaded, free) ↦ cc
    ];
  }

  held_on :
      (e : Engine F) (p : Phase F) (e' : Engine F)
      → Coherent p (stance e)
      → IsStill e e'
      → ((e'.loaded ≡ loaded_by e'.resident) × (cut_short p ≡ []))
        ⊎ ((e'.loaded ≡ cut_short p) × (e'.resident ≡ none))
  held_on e p e' coherent s = elim (loaded_lem e p coherent) [
    | inl (loaded, nothing_left) ↦
        inl (s.loaded ∙ loaded ∙ ap loaded_by (sym s.resident), nothing_left)
    | inr (loaded, free) ↦ inr (s.loaded ∙ loaded, s.resident ∙ free)
  ]

  -- Once every task has ended.
  close :
      (e : Engine F) (p : Phase F) (idle : Engine F)
      → Coherent p (stance e)
      → IsStill e idle
      → IsQuiet idle
      → idle.in_flight ≡ []
      → (e' : Engine F) × (Option.map {B = Engine F}
            (λ d. release (drained_into idle d) idle.resident)
            (drain_all idle.heap idle.queues (model_names idle.queues))
          ≡ some e')
        × IsDown e p e'
  close e p idle coherent s quiet over =
      let (r, done, d) =
        drain_all-IsDrained idle.heap idle.queues (model_names idle.queues)
          (contains-keys idle.queues) in
      let out =
        released (drained_into idle r) idle.resident (cut_short p) refl
          (held_on e p idle coherent s) in
      let here = λ (name : String) (known : contains e.queues name ≡ true).
        keys-contains idle.queues name (ap (λ q. contains q name) s.queues ∙ known) in
      (
        release (drained_into idle r) idle.resident,
        ap (Option.map {B = Engine F} (λ d. release (drained_into idle d) idle.resident)) done,
        record {
          idle = out.flights ∙ over;
          empty = λ name known. ap (get name) out.queues ∙ d.emptied name (here name known);
          told = λ name queue ref there waits.
              subst (λ h. IsToldOff (h ref)) (sym out.heap)
                (d.told name queue ref (here name (ap is_some there))
                  (ap (get name) s.queues ∙ there) waits);
          vacant = out.vacant;
          quiet = out.quiet quiet;
          unloaded = out.loaded;
        },
      )

  -- Whatever has happened and wherever the control loop is, `stop` returns and leaves nothing going on:
  -- no request is being served, every queue is empty, each request that waited in one is cancelled
  -- and the last thing its client reads is the error "router shutting down" with status 503, nothing
  -- is resident, and no drain or switch is under way. No backend is loaded, except that one whose
  -- `stop` the shutdown cut short, after a crash or for a switch, is not stopped again; a backend counts
  -- as loaded from the return of its `start` to the return of its `stop`.
  pub stop-IsDown :
      {config : AppConfig F} {e : Engine F} {p : Phase F} (now : F)
      → Reach config e p
      → (e' : Engine F) × (stop e now (some p) ≡ some e') × IsDown e p e'
  unfolding stop
  stop-IsDown {config} {e} {p} now reached =
      let coherent = Reach-Coherent reached in
      let before = interrupted e now (some p) in
      let s = halted-IsStill e before now (interrupted-IsStill e p now) in
      close e p (record (halted before now) { in_flight = [] }) coherent
        (record { queues = s.queues; resident = s.resident; loaded = s.loaded })
        (halted-IsQuiet before now (interrupted-IsQuiet e p now coherent)) refl
