-- ===== src/Policy/Incumbent.antt =====
-- src/sir/policy.py: when `decide` leaves the GPU with the resident model.
use stupid_inference_router.Prelude.{
  true, ◌||◌, ◌≡◌, ◌≢◌, refl, inl, inr, Option, none, some, List, [], ◌∷◌, arith, In, String, names,
  str_eq, eq_iff, Bool-cases, if_cases,
}
use stupid_inference_router.Float.{Float, le, lt, max_by-In}
use stupid_inference_router.Config.Scheduler.{SchedulerConfig}
use stupid_inference_router.Types.Scheduling.{
  ModelState, SchedulerSnapshot, DecisionKind, DecisionReason, find_model, resident_in,
  resident_state, is_available, is_busy, idle_for,
}
use stupid_inference_router.Policy.Defs.{
  Verdict, overdue, with_work, servable, past_ceiling, among, contest, by_score, choose, decide,
  score_for, swap_cost, is_fresh,
}
use stupid_inference_router.Policy.Lemmas.{
  IsServable, IsStarving, overdue-IsStarving, servable-IsServable,
}

find_model-name :
    {F : Type 0} (n : String) (ms : List (ModelState F)) (r : ModelState F)
    → find_model n ms ≡ some r
    → str_eq n r.name ≡ true
unfolding find_model
find_model-name n [] r e = cc
find_model-name n (m ∷ ms) r e =
    ground (arith, eq_iff m.name n, eq_iff n r.name, find_model-name n ms r)

resident_in-names :
    {F : Type 0} (o : Option String) (ms : List (ModelState F)) (r : ModelState F)
    → resident_in o ms ≡ some r
    → names o r.name ≡ true
unfolding resident_in
resident_in-names none ms r e = cc
resident_in-names (some n) ms r e = ground (arith, find_model-name n ms r)

module _ {F : Type 0} ⦃fl : Float F⦄ (snapshot : SchedulerSnapshot F) (now : F)
    (config : SchedulerConfig F) where
  -- No model is past the starvation ceiling.
  abbrev pub NoneStarving : Type 0
  NoneStarving = (m : ModelState F) → ¬ IsStarving snapshot now config m

  past_ceiling_none :
      NoneStarving
      → past_ceiling snapshot now config (overdue snapshot now config)
        ≡ among snapshot now config (with_work snapshot now config) (servable snapshot now config)
  unfolding past_ceiling
  past_ceiling_none h = split (overdue snapshot now config) (overdue-IsStarving snapshot now config)
    where
      split :
          (ms : List (ModelState F))
          → ((m : ModelState F) → In m ms → IsStarving snapshot now config m)
          → past_ceiling snapshot now config ms
            ≡ among snapshot now config
                (with_work snapshot now config)
                (servable snapshot now config)
      split [] g = refl
      split (m ∷ ms) g = absurd (h m (g m (inl refl)))

  -- With nobody starving, a decision has a property of verdicts that every branch below has.
  unstarved :
      (P : Verdict → Type 0)
      → NoneStarving
      → P (record {
        kind = DecisionKind.hold;
        reason = DecisionReason.in_transition;
        target = none;
      })
      → P (record { kind = DecisionKind.idle; reason = DecisionReason.no_work; target = none })
      → P (record {
        kind = DecisionKind.idle;
        reason = DecisionReason.backend_unavailable;
        target = none;
      })
      → ((best : ModelState F)
          → IsServable snapshot now best
          → P (contest snapshot now config best (resident_state snapshot)))
      → P (choose snapshot now config)
  unfolding choose
  unstarved P quiet moving none_waits none_starts contested =
      if_cases P (snapshot.switching || snapshot.draining) (λ _. moving)
        λ _. rw (past_ceiling_none quiet) (
          split (with_work snapshot now config) (servable snapshot now config)
            (servable-IsServable snapshot now config))
    where
      split :
          (ws ms : List (ModelState F))
          → ((m : ModelState F) → In m ms → IsServable snapshot now m)
          → P (among snapshot now config ws ms)
      split [] ms g = unfold among in none_waits
      split (w ∷ ws) [] g = unfold among in none_starts
      split (w ∷ ws) (m ∷ ms) g =
          unfold among in contested _ (g _ (max_by-In (score_for snapshot now config) m ms))

  by_score-resident :
      (best resident : ModelState F)
      → resident_state snapshot ≡ some resident
      → str_eq best.name resident.name ≡ true
      → (by_score snapshot now config best resident).kind ≢ DecisionKind.switch
  unfolding by_score
  by_score-resident best r e n =
      ground
        (arith, resident_in-names snapshot.resident snapshot.models r e, eq_iff best.name r.name)

  contest-held :
      (best resident : ModelState F)
      → resident_state snapshot ≡ some resident
      → is_available resident now ≡ true
      → is_fresh config now resident.resident_since ≡ true
      → is_busy resident || lt (idle_for resident now) (swap_cost config best) ≡ true
      → (contest snapshot now config best (some resident)).kind ≢ DecisionKind.switch
  unfolding contest
  contest-held best r e a f b = elim (Bool-cases (str_eq best.name r.name)) [
    | inl same ↦ rw (a, same) (by_score-resident best r e same)
    | inr other ↦ rw (a, other, f, b) (λ c. cc)
  ]

  -- Hysteresis: while nobody starves, an available resident model that was loaded less than the
  -- minimum residency ago keeps the GPU, if it is busy, or has been idle for less than the cost of
  -- the switch to any servable model.
  pub decide-fresh :
      (resident : ModelState F)
      → resident_state snapshot ≡ some resident
      → is_available resident now ≡ true
      → is_fresh config now resident.resident_since ≡ true
      → ((m : ModelState F)
          → IsServable snapshot now m
          → is_busy resident || lt (idle_for resident now) (swap_cost config m) ≡ true)
      → NoneStarving
      → (decide snapshot now config).kind ≢ DecisionKind.switch
  unfolding decide
  decide-fresh r e a f b quiet =
      unstarved (λ v. v.kind ≢ DecisionKind.switch) quiet (λ c. cc) (λ c. cc) (λ c. cc)
        λ best s. rw e (contest-held best r e a f (b best s))

  contest-outscored :
      (best resident : ModelState F)
      → is_available resident now ≡ true
      → le (score_for snapshot now config best) (score_for snapshot now config resident) ≡ true
      → (contest snapshot now config best (some resident)).kind ≢ DecisionKind.switch
  unfolding contest by_score
  contest-outscored best r a h = ground arith

  -- Ties go to the incumbent: while nobody starves, an available resident model that no servable
  -- model outscores keeps the GPU.
  pub decide-incumbent :
      (resident : ModelState F)
      → resident_state snapshot ≡ some resident
      → is_available resident now ≡ true
      → ((m : ModelState F)
          → IsServable snapshot now m
          → le (score_for snapshot now config m) (score_for snapshot now config resident) ≡ true)
      → NoneStarving
      → (decide snapshot now config).kind ≢ DecisionKind.switch
  unfolding decide
  decide-incumbent r e a b quiet =
      unstarved (λ v. v.kind ≢ DecisionKind.switch) quiet (λ c. cc) (λ c. cc) (λ c. cc)
        λ best s. rw e (contest-outscored best r a (b best s))
