-- ===== src/Policy/Defs.antt =====
-- src/sir/policy.py: `score_model`, `decide` and `_score_of`, branch by branch.
use stupid_inference_router.Prelude.{
  String, Bool, true, false, not, ◌&&◌, ◌||◌, Option, none, some, List, [], ◌∷◌, map, ◌==◌, str_eq,
  names, filter, length, if◌then◌else◌,
}
use stupid_inference_router.Float.{Float, le, lt, add, sub, mul, lit, of_int, neg_inf, max_by}
use stupid_inference_router.Config.Scheduler.{SchedulerConfig}
use stupid_inference_router.Types.Scheduling.{
  ModelState, SchedulerSnapshot, ScoreBreakdown, Decision, DecisionKind, DecisionReason,
  has_pending, is_busy, idle_for, oldest_wait, is_available, resident_state,
}

module _ {F : Type 0} ⦃fl : Float F⦄ where
  -- The branches of `score_model`: an unavailable model, one with no work, and the formula.
  abbrev unavailable_score : ModelState F → F → ScoreBreakdown F
  unavailable_score m now = record {
    model = m.name;
    priority = m.priority;
    depth = m.depth;
    oldest_wait = oldest_wait m now;
    age_term = lit 0 0;
    depth_term = lit 0 0;
    switch_cost = lit 0 0;
    score = neg_inf;
    eligible = false;
    note = "backend unavailable";
  }

  abbrev idle_score : ModelState F → ScoreBreakdown F
  idle_score m = record {
    model = m.name;
    priority = m.priority;
    depth = 0;
    oldest_wait = lit 0 0;
    age_term = lit 0 0;
    depth_term = lit 0 0;
    switch_cost = lit 0 0;
    score = lit 0 0;
    eligible = true;
    note = "no pending work";
  }

  abbrev demand_score : ModelState F → F → SchedulerConfig F → Bool → ScoreBreakdown F
  demand_score m now config is_resident =
      let wait = oldest_wait m now in
      let age_term = mul config.age_weight wait in
      let depth_term = mul config.depth_weight (of_int m.depth) in
      let switch_cost =
        if is_resident then lit 0 0 else mul config.switch_cost_weight m.estimated_load_seconds in
      record {
        model = m.name;
        priority = m.priority;
        depth = m.depth;
        oldest_wait = wait;
        age_term = age_term;
        depth_term = depth_term;
        switch_cost = switch_cost;
        score = sub (mul m.priority (add age_term depth_term)) switch_cost;
        eligible = true;
        note = "";
      }

  unfoldable pub score_model : ModelState F → F → SchedulerConfig F → Bool → ScoreBreakdown F
  score_model m now config is_resident =
      if not (is_available m now)
      then unavailable_score m now
      else if not (has_pending m)
      then idle_score m
      else demand_score m now config is_resident

  -- The score listed for a name, -inf for none.
  unfoldable pub score_of : List (ScoreBreakdown F) → String → F
  score_of [] name = neg_inf
  score_of (b ∷ scores) name = if str_eq b.model name then b.score else score_of scores name

  abbrev pub swap_cost : SchedulerConfig F → ModelState F → F
  swap_cost config best = mul config.switch_cost_weight best.estimated_load_seconds

  -- Was the model loaded less than `min_residency_seconds` ago?
  abbrev pub is_fresh : SchedulerConfig F → F → Option F → Bool
  is_fresh config now none = false
  is_fresh config now (some loaded) = lt (sub now loaded) config.min_residency_seconds

-- What a branch of `decide` passes to its inner function `decision`.
pub record Verdict : Type 0 where
  pub kind : DecisionKind
  pub reason : DecisionReason
  pub target : Option String

abbrev pub verdict : DecisionKind → DecisionReason → Option String → Verdict
verdict kind reason target = record { kind = kind; reason = reason; target = target }

module _ {F : Type 0} ⦃fl : Float F⦄ (snapshot : SchedulerSnapshot F) (now : F)
    (config : SchedulerConfig F) where
  unfoldable pub all_scores : List (ScoreBreakdown F)
  all_scores = map (λ m. score_model m now config (names snapshot.resident m.name)) snapshot.models

  unfoldable pub with_work : List (ModelState F)
  with_work = filter has_pending snapshot.models

  abbrev available_now : ModelState F → Bool
  available_now m = is_available m now

  unfoldable pub servable : List (ModelState F)
  servable = filter available_now with_work

  -- Past the starvation ceiling, and not already resident.
  abbrev pub is_overdue : ModelState F → Bool
  is_overdue m =
      not (names snapshot.resident m.name) && le config.max_wait_seconds (oldest_wait m now)

  unfoldable pub overdue : List (ModelState F)
  overdue = filter is_overdue servable

  abbrev pub score_for : ModelState F → F
  score_for m = score_of all_scores m.name

  -- Step 5: the resident model keeps the GPU for its minimum residency.
  abbrev pub is_held : ModelState F → ModelState F → Bool
  is_held best resident =
      not (str_eq best.name resident.name)
      && is_fresh config now resident.resident_since
      && (is_busy resident || lt (idle_for resident now) (swap_cost config best))

  -- Step 6: the scores.
  unfoldable pub by_score : ModelState F → ModelState F → Verdict
  by_score best resident =
      if names snapshot.resident best.name
      then verdict (if length servable == 1 then DecisionKind.serve else DecisionKind.hold)
          DecisionReason.resident_wins none
      else if lt (score_for resident) (score_for best)
      then verdict DecisionKind.switch
          (if not (is_busy resident) && le (swap_cost config best) (idle_for resident now)
            then DecisionReason.resident_idle
            else DecisionReason.challenger_wins)
          (some best.name)
      else verdict DecisionKind.hold DecisionReason.resident_wins none

  -- Steps 4 to 6, for the best candidate.
  unfoldable pub contest : ModelState F → Option (ModelState F) → Verdict
  contest best none = verdict DecisionKind.switch DecisionReason.cold_start (some best.name)
  contest best (some resident) =
      if not (is_available resident now)
      then verdict DecisionKind.switch DecisionReason.backend_unavailable (some best.name)
      else if is_held best resident
      then verdict DecisionKind.hold DecisionReason.min_residency none
      else by_score best resident

  -- Steps 2 and 3: nothing wants the GPU, or nothing that wants it can be started.
  unfoldable pub among : List (ModelState F) → List (ModelState F) → Verdict
  among [] candidates = verdict DecisionKind.idle DecisionReason.no_work none
  among (w ∷ ws) [] = verdict DecisionKind.idle DecisionReason.backend_unavailable none
  among (w ∷ ws) (m ∷ ms) = contest (max_by score_for m ms) (resident_state snapshot)

  -- Step 1: the starvation ceiling.
  unfoldable pub past_ceiling : List (ModelState F) → Verdict
  past_ceiling [] = among with_work servable
  past_ceiling (m ∷ ms) =
      verdict DecisionKind.switch DecisionReason.starvation
        (some (max_by (λ s. oldest_wait s now) m ms).name)

  unfoldable pub choose : Verdict
  choose =
      if snapshot.switching || snapshot.draining
      then verdict DecisionKind.hold DecisionReason.in_transition none
      else past_ceiling overdue

  unfoldable pub decide : Decision F
  decide = record {
    kind = choose.kind;
    reason = choose.reason;
    at = now;
    resident = snapshot.resident;
    target = choose.target;
    scores = all_scores;
  }
