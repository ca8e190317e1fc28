-- ===== src/Policy/Starvation.antt =====
-- src/sir/policy.py: the starvation ceiling of `decide`.
use stupid_inference_router.Prelude.{true, false, ◌||◌, ◌≡◌, refl, some, List, [], ◌∷◌}
use stupid_inference_router.Float.{Float, Laws, le, max_by, max_by-In, max_by-ge}
use stupid_inference_router.Config.Scheduler.{SchedulerConfig}
use stupid_inference_router.Types.Scheduling.{
  ModelState, SchedulerSnapshot, oldest_wait, DecisionKind, DecisionReason,
}
use stupid_inference_router.Policy.Defs.{overdue, past_ceiling, choose, decide}
use stupid_inference_router.Policy.Lemmas.{IsStarving, overdue-IsStarving, IsStarving-overdue}

module _ {F : Type 0} ⦃fl : Float F⦄ (snapshot : SchedulerSnapshot F) (now : F)
    (config : SchedulerConfig F) where
  -- `t` is switched to as the model that has starved longest.
  abbrev pub Relieves : ModelState F → Type 0
  Relieves t =
      ((decide snapshot now config).kind ≡ DecisionKind.switch)
      × ((decide snapshot now config).reason ≡ DecisionReason.starvation)
      × ((decide snapshot now config).target ≡ some t.name)
      × IsStarving snapshot now config t
      × ((m : ModelState F)
          → IsStarving snapshot now config m
          → le (oldest_wait m now) (oldest_wait t now) ≡ true)

  Relieves-oldest :
      Laws fl
      → (x : ModelState F) (xs : List (ModelState F)) → overdue snapshot now config ≡ x ∷ xs
      → snapshot.switching || snapshot.draining ≡ false
      → Relieves (max_by (λ s. oldest_wait s now) x xs)
  unfolding decide choose past_ceiling
  Relieves-oldest l x xs e t = (
    rw (t, e) refl,
    rw (t, e) refl,
    rw (t, e) refl,
    overdue-IsStarving snapshot now config _ (rw e (max_by-In (λ s. oldest_wait s now) x xs)),
    λ m h.
        max_by-ge l (λ s. oldest_wait s now) x xs m
          (rw e at (IsStarving-overdue snapshot now config m h)),
  )

  -- Given the laws of floats: outside a transition, if a servable model that is not resident has
  -- waited for the ceiling, the decision is to switch for starvation, to such a model, and none of
  -- them has waited longer.
  pub decide-starving :
      Laws fl
      → (m : ModelState F) → snapshot.switching || snapshot.draining ≡ false
      → IsStarving snapshot now config m
      → (t : ModelState F) × Relieves t
  decide-starving l m t h = split (overdue snapshot now config) refl
    where
      split :
          (ms : List (ModelState F))
          → overdue snapshot now config ≡ ms
          → (t : ModelState F) × Relieves t
      split [] e = absurd (rw e at (IsStarving-overdue snapshot now config m h))
      split (x ∷ xs) e = (_, Relieves-oldest l x xs e t)
