-- ===== src/Types/Scheduling.antt =====
-- src/sir/types.py, the scheduling half: what the policy sees and what it answers.
use stupid_inference_router.Prelude.{
  ℕ, String, Bool, true, false, ◌&&◌, ◌||◌, Option, none, some, List, [], ◌∷◌, ltb, str_eq,
  if◌then◌else◌, is_some,
}
use stupid_inference_router.Float.{Float, sub, max, le, lit}

-- Everything the policy may know of one model.
pub record ModelState (F : Type 0) : Type 0 where
  pub name : String
  pub priority : F
  pub depth : ℕ
  pub oldest_enqueued_at : Option F
  pub estimated_load_seconds : F
  pub resident : Bool
  pub resident_since : Option F
  pub in_flight : ℕ
  pub idle_since : Option F
  pub unavailable_until : Option F

module _ {F : Type 0} where
  abbrev pub has_pending : ModelState F → Bool
  has_pending m = ltb 0 m.depth

  -- Queued or generating.
  abbrev pub is_busy : ModelState F → Bool
  is_busy m = ltb 0 m.depth || ltb 0 m.in_flight

module _ {F : Type 0} ⦃fl : Float F⦄ where
  -- Seconds since a mark, 0 without one.
  abbrev pub since : Option F → F → F
  since none now = lit 0 0
  since (some t) now = max (lit 0 0) (sub now t)

  abbrev pub idle_for : ModelState F → F → F
  idle_for m now = since m.idle_since now

  abbrev pub oldest_wait : ModelState F → F → F
  oldest_wait m now = since m.oldest_enqueued_at now

  abbrev pub reached : Option F → F → Bool
  reached none now = true
  reached (some t) now = le t now

  abbrev pub is_available : ModelState F → F → Bool
  is_available m now = reached m.unavailable_until now

-- A consistent read of the world, handed to `decide`.
pub record SchedulerSnapshot (F : Type 0) : Type 0 where
  pub models : List (ModelState F)
  pub resident : Option String
  pub draining : Bool
  pub switching : Bool

module _ {F : Type 0} where
  unfoldable pub find_model : String → List (ModelState F) → Option (ModelState F)
  find_model name [] = none
  find_model name (m ∷ ms) = if str_eq m.name name then some m else find_model name ms

  abbrev pub by_name : SchedulerSnapshot F → String → Option (ModelState F)
  by_name snapshot name = find_model name snapshot.models

  -- An empty name is false to Python's test, and finds nothing.
  unfoldable pub resident_in : Option String → List (ModelState F) → Option (ModelState F)
  resident_in none ms = none
  resident_in (some name) ms = if str_eq name "" then none else find_model name ms

  abbrev pub resident_state : SchedulerSnapshot F → Option (ModelState F)
  resident_state snapshot = resident_in snapshot.resident snapshot.models

pub record WaitEstimate (F : Type 0) : Type 0 where
  pub position : ℕ
  pub resident : Bool
  pub needs_swap : Bool
  pub load_seconds : F
  pub dispatch_within_seconds : Option F
  pub estimated_seconds : F
  pub retry_after : F

pub data DecisionKind : Type 0 where
  idle serve hold switch : DecisionKind

pub data DecisionReason : Type 0 where
  no_work cold_start starvation min_residency resident_wins challenger_wins resident_idle
        backend_unavailable in_transition :
      DecisionReason

pub record ScoreBreakdown (F : Type 0) : Type 0 where
  pub model : String
  pub priority : F
  pub depth : ℕ
  pub oldest_wait : F
  pub age_term : F
  pub depth_term : F
  pub switch_cost : F
  pub score : F
  pub eligible : Bool
  pub note : String

pub record Decision (F : Type 0) : Type 0 where
  pub kind : DecisionKind
  pub reason : DecisionReason
  pub at : F
  pub resident : Option String
  pub target : Option String
  pub scores : List (ScoreBreakdown F)

abbrev pub is_switch : DecisionKind → Bool
is_switch switch = true
is_switch _ = false

-- A switch that takes the GPU from a model.
unfoldable pub is_swap : {F : Type 0} → Decision F → Bool
is_swap d = is_switch d.kind && is_some d.resident

pub data EventKind : Type 0 where
  enqueue dispatch complete cancelled failed drain_start drain_end load_start load_end load_failed
        unload crash :
      EventKind

-- What the engine did, and when.
pub record EngineEvent (F : Type 0) : Type 0 where
  pub at : F
  pub kind : EventKind
  pub model : String
  pub detail : String
  pub duration : Option F
