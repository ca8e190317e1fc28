-- ===== src/Engine/Keeps.antt =====
-- src/sir/engine.py: what serving requests leaves alone.
use stupid_inference_router.Prelude.{
  ℕ, String, Bool, true, false, ◌≡◌, refl, ◌∙◌, Option, none, some, List, [], ◌∷◌, if_cases,
}
use stupid_inference_router.Float.{Float}
use stupid_inference_router.Config.App.{AppConfig}
use stupid_inference_router.Types.Request.{StreamEnd}
use stupid_inference_router.Queues.Defs.{ModelQueues}
use stupid_inference_router.Engine.Defs.{Engine, Flight, emit}
use stupid_inference_router.Engine.Serve.{
  Turn, yields, ends, exhausted, backend_error, other_error, stopped, closed, conclude, serve_body,
  serve_turn, serve_all, finish, observe_duration,
}
use stupid_inference_router.Engine.Loop.{await_flight, gather}

-- What of an engine serving does not touch.
pub record Frame (F : Type 0) : Type 0 where
  pub config : AppConfig F
  pub loaded : List String
  pub resident : Option String
  pub queues : ModelQueues
  pub in_flight : List Flight
  pub draining : Bool
  pub switching : Bool

module _ {F : Type 0} where
  abbrev pub frame : Engine F → Frame F
  frame e = record {
    config = e.config;
    loaded = e.loaded;
    resident = e.resident;
    queues = e.queues;
    in_flight = e.in_flight;
    draining = e.draining;
    switching = e.switching;
  }

  -- All but the requests, the log, the failures and the averages is as it was.
  abbrev pub Keeps : Engine F → Engine F → Type 0
  Keeps e e' = frame e' ≡ frame e

module _ {F : Type 0} ⦃fl : Float F⦄ where
  conclude-Keeps :
      (e : Engine F) (now : F) (ref : ℕ) (ending : Option StreamEnd)
      → Keeps e (conclude e now ref ending)
  unfolding conclude emit
  conclude-Keeps e now ref ending =
      if_cases {A = Engine F} (Keeps e) (e.heap ref).cancelled (λ left. refl) (λ stays. refl)

  serve_body-Keeps :
      (e : Engine F) (now : F) (ref : ℕ) (turn : Turn) → Keeps e (serve_body e now ref turn).0
  unfolding serve_body emit
  serve_body-Keeps e now ref (yields c) =
      if_cases {A = Engine F × Bool} (λ r. Keeps e r.0) (e.heap ref).cancelled
        (λ left. conclude-Keeps e now ref none) (λ stays. refl)
  serve_body-Keeps e now ref (ends ending) = conclude-Keeps e now ref (some ending)
  serve_body-Keeps e now ref exhausted = conclude-Keeps e now ref none
  serve_body-Keeps e now ref stopped = refl
  serve_body-Keeps e now ref (backend_error message) = refl
  serve_body-Keeps e now ref (other_error message shown) = refl

  pub serve_turn-Keeps :
      (e : Engine F) (now : F) (ref : ℕ) (turn : Turn) → Keeps e (serve_turn e now ref turn).0
  unfolding serve_turn finish observe_duration
  serve_turn-Keeps e now ref turn = go (serve_body e now ref turn) (serve_body-Keeps e now ref turn)
    where
      go : (r : Engine F × Bool) → Keeps e r.0 → Keeps e (closed r now ref).0
      go (e', true) keeps = keeps
      go (e', false) keeps = keeps

  serve_all-Keeps :
      (e : Engine F) (now : F) (ref : ℕ) (turns : List Turn) → Keeps e (serve_all e now ref turns)
  unfolding serve_all
  serve_all-Keeps e now ref [] = serve_turn-Keeps e now ref exhausted
  serve_all-Keeps e now ref (turn ∷ turns) =
      let (e', over) = serve_turn e now ref turn in
      let keeps = serve_turn-Keeps e now ref turn in
      if_cases {A = Engine F} (Keeps e) over (λ done. keeps)
        (λ more. serve_all-Keeps e' now ref turns ∙ keeps)

  pub gather-Keeps :
      (e : Engine F) (now : F) (turns : ℕ → List Turn) (fs : List Flight)
      → Keeps e (gather e now turns fs)
  unfolding gather
  gather-Keeps e now turns [] = refl
  gather-Keeps e now turns (f ∷ fs) =
      gather-Keeps (await_flight e now turns f) now turns fs
      ∙ if_cases {A = Engine F} (Keeps e) f.finished (λ done. refl)
          (λ not_done.
            if_cases {A = Engine F} (Keeps e) f.stopping
              (λ stopping. serve_turn-Keeps e now f.ref stopped)
              (λ runs. serve_all-Keeps e now f.ref (turns f.ref)))
