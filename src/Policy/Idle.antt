-- ===== src/Policy/Idle.antt =====
-- src/sir/policy.py: when `decide` is idle.
use stupid_inference_router.Prelude.{
  false, ◌||◌, ◌≡◌, ◌≢◌, refl, inl, Option, none, some, List, [], ◌∷◌, arith, In, filter-In, ◌↔◌,
}
use stupid_inference_router.Float.{Float}
use stupid_inference_router.Config.Scheduler.{SchedulerConfig}
use stupid_inference_router.Types.Scheduling.{
  ModelState, SchedulerSnapshot, DecisionKind, resident_state, has_pending,
}
use stupid_inference_router.Policy.Defs.{
  overdue, with_work, servable, past_ceiling, among, contest, by_score, choose, decide,
}
use stupid_inference_router.Policy.Lemmas.{
  IsServable, IsStarving, overdue-IsStarving, servable-IsServable, IsServable-servable,
}

module _ {F : Type 0} ⦃fl : Float F⦄ (snapshot : SchedulerSnapshot F) (now : F)
    (config : SchedulerConfig F) where
  contest-busy :
      (best : ModelState F) (o : Option (ModelState F))
      → (contest snapshot now config best o).kind ≢ DecisionKind.idle
  unfolding contest by_score
  contest-busy best none = λ c. cc
  contest-busy best (some r) = ground arith

  among-busy :
      (ws ms : List (ModelState F)) (w m : ModelState F)
      → In w ws
      → In m ms
      → (among snapshot now config ws ms).kind ≢ DecisionKind.idle
  unfolding among
  among-busy [] ms w m h k = absurd h
  among-busy (x ∷ xs) [] w m h k = absurd k
  among-busy (x ∷ xs) (y ∷ ys) w m h k = contest-busy _ (resident_state snapshot)

  past_ceiling-busy :
      (os : List (ModelState F)) (m : ModelState F)
      → IsServable snapshot now m
      → (past_ceiling snapshot now config os).kind ≢ DecisionKind.idle
  unfolding past_ceiling with_work
  past_ceiling-busy [] m (known, pending, available) =
      among-busy (with_work snapshot now config) (servable snapshot now config) m m
        (filter-In has_pending m snapshot.models known pending)
        (IsServable-servable snapshot now config m (known, pending, available))
  past_ceiling-busy (o ∷ os) m s = λ c. cc

  among-idle :
      (ws ms : List (ModelState F))
      → ((m : ModelState F) → ¬ In m ms)
      → (among snapshot now config ws ms).kind ≡ DecisionKind.idle
  unfolding among
  among-idle [] ms h = refl
  among-idle (w ∷ ws) [] h = refl
  among-idle (w ∷ ws) (m ∷ ms) h = absurd (h m (inl refl))

  past_ceiling-idle :
      (os : List (ModelState F))
      → ((m : ModelState F) → In m os → IsStarving snapshot now config m)
      → ((m : ModelState F) → ¬ IsServable snapshot now m)
      → (past_ceiling snapshot now config os).kind ≡ DecisionKind.idle
  unfolding past_ceiling
  past_ceiling-idle [] h empty =
      among-idle (with_work snapshot now config) (servable snapshot now config)
        λ m i. empty m (servable-IsServable snapshot now config m i)
  past_ceiling-idle (o ∷ os) h empty = absurd (empty o (h o (inl refl)).0)

  -- Outside a transition the decision is idle exactly when no model with queued work can be served.
  pub decide-idle_iff :
      snapshot.switching || snapshot.draining ≡ false
      → ((decide snapshot now config).kind ≡ DecisionKind.idle)
        ↔ ((m : ModelState F) → ¬ IsServable snapshot now m)
  unfolding decide choose
  decide-idle_iff t = rw t (
    λ k m s. past_ceiling-busy (overdue snapshot now config) m s k,
    past_ceiling-idle (overdue snapshot now config) (overdue-IsStarving snapshot now config),
  )
