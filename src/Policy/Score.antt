-- ===== src/Policy/Score.antt =====
-- src/sir/policy.py: how `score_model` weighs residency and waiting.
use stupid_inference_router.Prelude.{
  String, Bool, true, false, ◌≡◌, refl, Option, none, some, List, [], ◌∷◌, arith, map, names,
  Bool-cases, inl, inr,
}
use stupid_inference_router.Float.{Float, Laws, le, lit, sub, le_refl, max_mono, neg_inf}
use stupid_inference_router.Config.Scheduler.{SchedulerConfig}
use stupid_inference_router.Types.Scheduling.{
  ModelState, SchedulerSnapshot, since, reached, find_model, is_available, has_pending,
}
use stupid_inference_router.Policy.Defs.{score_model, score_of, score_for, all_scores}

score_model-model :
    {F : Type 0} ⦃fl : Float F⦄ (m : ModelState F) (now : F) (config : SchedulerConfig F) (r : Bool)
    → (score_model m now config r).model ≡ m.name
unfolding score_model
score_model-model m now config r = ground arith

module _ {F : Type 0} ⦃fl : Float F⦄ (l : Laws fl) where
  -- Given the laws of floats: serving the resident model is free and serving any other costs a
  -- swap: with weights and load times that are not negative, a model scores at least as high
  -- resident as not.
  pub score_model-resident :
      (m : ModelState F) (now : F) (config : SchedulerConfig F)
      → le (lit 0 0) config.switch_cost_weight ≡ true
      → le (lit 0 0) m.estimated_load_seconds ≡ true
      → le (score_model m now config false).score (score_model m now config true).score ≡ true
  unfolding score_model
  score_model-resident m now config w c = elim (Bool-cases (is_available m now)) [
    | inr down ↦ rw down (le_refl l neg_inf)
    | inl up ↦ rw up (elim (Bool-cases (has_pending m)) [
      | inr none_queued ↦ rw none_queued (le_refl l (lit 0 0))
      | inl pending ↦ rw pending (
          l.sub_mono _ _ _ _ (le_refl l _)
            (l.mul_nonneg config.switch_cost_weight m.estimated_load_seconds w c))
    ])
  ]

  since_mono : (o : Option F) (t u : F) → le t u ≡ true → le (since o t) (since o u) ≡ true
  since_mono none t u h = le_refl l (lit 0 0)
  since_mono (some a) t u h =
      max_mono l (lit 0 0) (lit 0 0) (sub t a) (sub u a) (le_refl l (lit 0 0))
        (l.sub_mono t u a a h (le_refl l a))

  stays_available :
      (o : Option F) (t u : F) → reached o t ≡ true → le t u ≡ true → reached o u ≡ true
  stays_available none t u a h = refl
  stays_available (some b) t u a h = l.trans b t u a h

  -- Given the laws of floats: waiting pays: with a priority and an age weight that are not
  -- negative, the score of an available model with queued work never falls as time passes.
  pub score_model_mono :
      (m : ModelState F) (t u : F) (config : SchedulerConfig F) (is_resident : Bool)
      → le (lit 0 0) m.priority ≡ true
      → le (lit 0 0) config.age_weight ≡ true
      → has_pending m ≡ true
      → is_available m t ≡ true
      → le t u ≡ true
      → le (score_model m t config is_resident).score (score_model m u config is_resident).score
        ≡ true
  unfolding score_model
  score_model_mono m t u config r p a work up h =
      rw (up, stays_available m.unavailable_until t u up h, work)
        (l.sub_mono _ _ _ _
          (l.mul_mono _ _ m.priority p (
            l.add_mono _ _ _ _
              (l.mul_mono _ _ config.age_weight a (since_mono m.oldest_enqueued_at t u h))
              (le_refl l _)))
          (le_refl l _))

module _ {F : Type 0} ⦃fl : Float F⦄ (snapshot : SchedulerSnapshot F) (now : F)
    (config : SchedulerConfig F) where
  score_of-map :
      (n : String) (ms : List (ModelState F)) (m : ModelState F)
      → find_model n ms ≡ some m
      → score_of (map (λ s. score_model s now config (names snapshot.resident s.name)) ms) n
        ≡ (score_model m now config (names snapshot.resident m.name)).score
  unfolding score_of find_model
  score_of-map n [] m e = cc
  score_of-map n (x ∷ xs) m e =
      ground (
        arith,
        score_of-map n xs m,
        score_model-model x now config (names snapshot.resident x.name),
      )

  -- If a model is the one found under its name, then the score that `decide` looks up for it in the list
  -- of scores is the one that `score_model` gives it, as resident or not.
  pub score_for-score_model :
      (m : ModelState F)
      → find_model m.name snapshot.models ≡ some m
      → score_for snapshot now config m
        ≡ (score_model m now config (names snapshot.resident m.name)).score
  unfolding all_scores
  score_for-score_model m e = score_of-map m.name snapshot.models m e
