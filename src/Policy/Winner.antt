-- ===== src/Policy/Winner.antt =====
-- src/sir/policy.py: the switches of `decide` for the score.
use stupid_inference_router.Prelude.{
  true, false, not, ◌||◌, ◌≡◌, refl, ◌⊎◌, Option, none, some, List, [], ◌∷◌, arith, In, names,
  if_cases,
}
use stupid_inference_router.Float.{Float, Laws, le, lt, max_by-In, max_by-ge}
use stupid_inference_router.Config.Scheduler.{SchedulerConfig}
use stupid_inference_router.Types.Scheduling.{
  ModelState, SchedulerSnapshot, DecisionReason, resident_state, is_available,
}
use stupid_inference_router.Policy.Defs.{
  Verdict, overdue, with_work, servable, past_ceiling, among, contest, by_score, choose, decide,
  score_for, is_held,
}
use stupid_inference_router.Policy.Lemmas.{IsServable, servable-IsServable, IsServable-servable}

-- The two reasons of a switch that scoring decides.
abbrev pub IsScored : DecisionReason → Type 0
IsScored reason =
    (reason ≡ DecisionReason.challenger_wins) ⊎ (reason ≡ DecisionReason.resident_idle)

module _ {F : Type 0} ⦃fl : Float F⦄ (snapshot : SchedulerSnapshot F) (now : F)
    (config : SchedulerConfig F) where
  abbrev score : ModelState F → F
  score = score_for snapshot now config

  -- The verdict names a model that beats the resident one and no servable model beats.
  abbrev pub Wins : Verdict → Type 0
  Wins v =
      (resident : ModelState F) × (best : ModelState F) × (resident_state snapshot ≡ some resident)
      × (v.target ≡ some best.name)
      × IsServable snapshot now best
      × (lt (score resident) (score best) ≡ true)
      × (is_held snapshot now config best resident ≡ false)
      × ((m : ModelState F) → IsServable snapshot now m → le (score m) (score best) ≡ true)

  abbrev Fair : Verdict → Type 0
  Fair v = IsScored v.reason → Wins v

  by_score-Fair :
      (best resident : ModelState F)
      → resident_state snapshot ≡ some resident
      → IsServable snapshot now best
      → is_held snapshot now config best resident ≡ false
      → ((m : ModelState F) → IsServable snapshot now m → le (score m) (score best) ≡ true)
      → Fair (by_score snapshot now config best resident)
  unfolding by_score
  by_score-Fair best r e s k top =
      if_cases Fair (names snapshot.resident best.name) (λ _ c. ground arith)
        λ _.
          if_cases Fair (lt (score r) (score best)) (λ p c. (r, best, e, refl, s, p, k, top))
            λ _ c. ground arith

  contest-Fair :
      (best : ModelState F) (o : Option (ModelState F))
      → resident_state snapshot ≡ o
      → IsServable snapshot now best
      → ((m : ModelState F) → IsServable snapshot now m → le (score m) (score best) ≡ true)
      → Fair (contest snapshot now config best o)
  unfolding contest
  contest-Fair best none e s top = λ c. ground arith
  contest-Fair best (some r) e s top =
      if_cases Fair (not (is_available r now)) (λ _ c. ground arith)
        λ _.
          if_cases Fair (is_held snapshot now config best r) (λ _ c. ground arith)
            λ k. by_score-Fair best r e s k top

  among-Fair :
      Laws fl
      → (ws ms : List (ModelState F)) → ((m : ModelState F) → In m ms → IsServable snapshot now m)
      → ((m : ModelState F) → IsServable snapshot now m → In m ms)
      → Fair (among snapshot now config ws ms)
  unfolding among
  among-Fair l [] ms g h = λ c. ground arith
  among-Fair l (w ∷ ws) [] g h = λ c. ground arith
  among-Fair l (w ∷ ws) (m ∷ ms) g h =
      contest-Fair _ (resident_state snapshot) refl (g _ (max_by-In score m ms))
        λ x s. max_by-ge l score m ms x (h x s)

  past_ceiling-Fair :
      Laws fl → (os : List (ModelState F)) → Fair (past_ceiling snapshot now config os)
  unfolding past_ceiling
  past_ceiling-Fair l [] =
      among-Fair l (with_work snapshot now config) (servable snapshot now config)
        (servable-IsServable snapshot now config) (IsServable-servable snapshot now config)
  past_ceiling-Fair l (o ∷ os) = λ c. ground arith

  -- Given the laws of floats: if the decision's reason is that a challenger won or that the
  -- resident model is idle, its target is a servable model with a strictly greater score than the
  -- resident model, hysteresis does not hold the resident model against it, and no servable model
  -- has a greater score.
  pub decide-Wins :
      Laws fl
      → IsScored (decide snapshot now config).reason
      → (resident : ModelState F) × (best : ModelState F) × (resident_state snapshot
          ≡ some resident)
        × ((decide snapshot now config).target ≡ some best.name)
        × IsServable snapshot now best
        × (lt (score_for snapshot now config resident) (score_for snapshot now config best) ≡ true)
        × (is_held snapshot now config best resident ≡ false)
        × ((m : ModelState F)
            → IsServable snapshot now m
            → le (score_for snapshot now config m) (score_for snapshot now config best) ≡ true)
  unfolding decide choose
  decide-Wins l =
      if_cases Fair (snapshot.switching || snapshot.draining) (λ _ c. ground arith)
        λ _. past_ceiling-Fair l (overdue snapshot now config)
