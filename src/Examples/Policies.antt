-- ===== src/Examples/Policies.antt =====
-- Witnesses and tests of the policy.
use stupid_inference_router.Prelude.{
  true, false, ◌≡◌, ◌≢◌, ◌⊎◌, ◌↔◌, refl, sym, subst, inl, inr, none, some, [], ◌∷◌, arith, names,
  In, filter, ◌||◌, ◌/◌,
}
use stupid_inference_router.Prelude.Int.{ℤ, pos}
use stupid_inference_router.Float.{le, lt, lit, add}
use stupid_inference_router.Float.{max_by}
use stupid_inference_router.Float.Fixed.{fixed, fixed-Laws}
use stupid_inference_router.Types.Scheduling.{
  ModelState, SchedulerSnapshot, DecisionKind, DecisionReason, resident_state, is_busy, idle_for,
  oldest_wait, find_model, resident_in,
}
use stupid_inference_router.Policy.Defs.{
  decide, choose, past_ceiling, overdue, servable, with_work, among, contest, by_score, all_scores,
  score_of, score_model, score_for, swap_cost, is_held,
}
use stupid_inference_router.Policy.Lemmas.{IsServable}
use stupid_inference_router.Policy.Starvation.{Relieves, decide-starving}
use stupid_inference_router.Policy.Targets.{IsNamed, decide-IsSound, decide-Leaves}
use stupid_inference_router.Policy.Incumbent.{NoneStarving, decide-fresh, decide-incumbent}
use stupid_inference_router.Policy.Idle.{decide-idle_iff}
use stupid_inference_router.Policy.Winner.{decide-Wins}
use stupid_inference_router.Policy.Score.{score_model_mono}
use stupid_inference_router.Policy.Estimate.{estimate_for, projected}
use stupid_inference_router.Policy.Estimate.Bounds.{estimate_mono, estimate_within_ceiling}
use stupid_inference_router.Examples.Data.{a_config, chat, code, both, a_snapshot}

in_both : (P : ModelState ℤ → Type 0) → P chat → P code → (m : ModelState ℤ) → In m both → P m
in_both P p q m (inl e) = subst P (sym e) p
in_both P p q m (inr (inl e)) = subst P (sym e) q
in_both P p q m (inr (inr h)) = absurd h

in_both-IsNamed : IsNamed a_snapshot
unfolding find_model
in_both-IsNamed = in_both _ (refl, refl) (refl, refl)

decide_early : (decide a_snapshot (pos 12_000) a_config).reason ≡ DecisionReason.min_residency
unfolding decide choose past_ceiling overdue servable with_work among contest by_score all_scores
    score_of score_model find_model resident_in filter max_by
decide_early = refl

decide_later : (decide a_snapshot (pos 40_000) a_config).reason ≡ DecisionReason.resident_idle
unfolding decide choose past_ceiling overdue servable with_work among contest by_score all_scores
    score_of score_model find_model resident_in filter max_by
decide_later = refl

code-IsServable : (now : ℤ) → IsServable a_snapshot now code
code-IsServable now = (inr (inl refl), refl, refl)

decide-starving_example : (t : ModelState ℤ) × Relieves a_snapshot (pos 200_000) a_config t
decide-starving_example =
    decide-starving a_snapshot (pos 200_000) a_config fixed-Laws code refl
      (code-IsServable (pos 200_000), refl, refl)

decide-IsSound_example :
    ((decide a_snapshot (pos 12_000) a_config).kind ≡ DecisionKind.switch)
      × ((m : ModelState ℤ) × ((decide a_snapshot (pos 12_000) a_config).target ≡ some m.name)
          × IsServable a_snapshot (pos 12_000) m)
    ⊎ ((decide a_snapshot (pos 12_000) a_config).kind ≢ DecisionKind.switch)
      × ((decide a_snapshot (pos 12_000) a_config).target ≡ none)
decide-IsSound_example = decide-IsSound a_snapshot (pos 12_000) a_config

-- In the twelfth second nobody has waited for the ceiling.
none_starving : NoneStarving a_snapshot (pos 12_000) a_config
none_starving m ((known, pending, available), other, late) =
    let early =
      in_both (λ s. le a_config.max_wait_seconds (oldest_wait s (pos 12_000)) ≡ false) refl refl m
        known in
    cc

chat_found : resident_state a_snapshot ≡ some chat
unfolding find_model resident_in
chat_found = refl

code_target : (decide a_snapshot (pos 200_000) a_config).target ≡ some "code"
unfolding decide choose past_ceiling overdue servable with_work filter max_by
code_target = refl

decide-Leaves_example : names a_snapshot.resident "code" ≡ false
decide-Leaves_example =
    decide-Leaves a_snapshot (pos 200_000) a_config in_both-IsNamed "code" code_target

decide-fresh_example : (decide a_snapshot (pos 12_000) a_config).kind ≢ DecisionKind.switch
decide-fresh_example =
    decide-fresh a_snapshot (pos 12_000) a_config chat chat_found refl refl
      (λ m s.
        in_both (λ c. is_busy chat || lt (idle_for chat (pos 12_000)) (swap_cost a_config c) ≡ true)
          refl refl m s.0)
      none_starving

-- With as much waiting for the resident model, nobody outscores it.
abbrev favourite : ModelState ℤ
favourite = record chat { depth = 2; oldest_enqueued_at = some (pos 10_000) }

abbrev busy_snapshot : SchedulerSnapshot ℤ
busy_snapshot = record a_snapshot { models = favourite ∷ code ∷ [] }

in_busy :
    (P : ModelState ℤ → Type 0)
    → P favourite
    → P code
    → (m : ModelState ℤ) → In m busy_snapshot.models
    → P m
in_busy P p q m (inl e) = subst P (sym e) p
in_busy P p q m (inr (inl e)) = subst P (sym e) q
in_busy P p q m (inr (inr h)) = absurd h

outscored :
    (m : ModelState ℤ)
    → In m busy_snapshot.models
    → le
        (score_for busy_snapshot (pos 12_000) a_config m)
        (score_for busy_snapshot (pos 12_000) a_config favourite)
      ≡ true
unfolding score_of all_scores score_model
outscored = in_busy _ refl refl

quiet_busy : NoneStarving busy_snapshot (pos 12_000) a_config
quiet_busy m ((known, pending, available), other, late) =
    let early =
      in_busy (λ s. le a_config.max_wait_seconds (oldest_wait s (pos 12_000)) ≡ false) refl refl m
        known in
    cc

favourite_found : resident_state busy_snapshot ≡ some favourite
unfolding find_model resident_in
favourite_found = refl

decide-incumbent_example : (decide busy_snapshot (pos 12_000) a_config).kind ≢ DecisionKind.switch
decide-incumbent_example =
    decide-incumbent busy_snapshot (pos 12_000) a_config favourite favourite_found refl
      (λ m s. outscored m s.0) quiet_busy

decide-idle_iff_example :
    ((decide a_snapshot (pos 12_000) a_config).kind ≡ DecisionKind.idle)
    ↔ ((m : ModelState ℤ) → ¬ IsServable a_snapshot (pos 12_000) m)
decide-idle_iff_example = decide-idle_iff a_snapshot (pos 12_000) a_config refl

decide-Wins_example :
    (resident : ModelState ℤ) × (best : ModelState ℤ) × (resident_state a_snapshot ≡ some resident)
    × ((decide a_snapshot (pos 40_000) a_config).target ≡ some best.name)
    × IsServable a_snapshot (pos 40_000) best
    × (lt
          (score_for a_snapshot (pos 40_000) a_config resident)
          (score_for a_snapshot (pos 40_000) a_config best)
        ≡ true)
    × (is_held a_snapshot (pos 40_000) a_config best resident ≡ false)
    × ((m : ModelState ℤ)
        → IsServable a_snapshot (pos 40_000) m
        → le
            (score_for a_snapshot (pos 40_000) a_config m)
            (score_for a_snapshot (pos 40_000) a_config best)
          ≡ true)
decide-Wins_example = decide-Wins a_snapshot (pos 40_000) a_config fixed-Laws (inr decide_later)

score_model_mono_example :
    le
      (score_model code (pos 12_000) a_config false).score
      (score_model code (pos 40_000) a_config false).score
    ≡ true
score_model_mono_example =
    score_model_mono fixed-Laws code (pos 12_000) (pos 40_000) a_config false refl refl refl refl
      refl

estimate_mono_example :
    (le
        (estimate_for a_snapshot code 1 (pos 12_000) a_config (pos 1380)).estimated_seconds
        (estimate_for a_snapshot code 5 (pos 12_000) a_config (pos 1380)).estimated_seconds
      ≡ true)
    × (le
          (estimate_for a_snapshot code 1 (pos 12_000) a_config (pos 1380)).retry_after
          (estimate_for a_snapshot code 5 (pos 12_000) a_config (pos 1380)).retry_after
        ≡ true)
estimate_mono_example =
    estimate_mono fixed-Laws a_snapshot code (pos 12_000) a_config (pos 1380) 1 5 refl (omega arith)

estimate_within_ceiling_example :
    (promise : ℤ) × ((estimate_for a_snapshot code 3
        (pos 12_000)
        a_config
        (pos 1380)).dispatch_within_seconds
      ≡ some promise)
    × (le (lit 0 0) promise ≡ true)
    × (le promise a_config.max_wait_seconds ≡ true)
    × (le (estimate_for a_snapshot code 3 (pos 12_000) a_config (pos 1380)).estimated_seconds (
          projected
            (add promise code.estimated_load_seconds)
            (3 / a_config.max_concurrent_requests)
            (pos 1380))
        ≡ true)
estimate_within_ceiling_example =
    estimate_within_ceiling fixed-Laws a_snapshot code (pos 12_000) a_config (pos 1380) 3 refl refl
      refl

code_found : find_model "code" both ≡ some code
unfolding find_model
code_found = refl
