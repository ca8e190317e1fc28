-- ===== src/Policy/Targets.antt =====
-- src/sir/policy.py: what `decide` may switch to.
use stupid_inference_router.Prelude.{
  true, false, not, ◌||◌, ◌≡◌, ◌≢◌, refl, ◌⊎◌, inl, inr, Option, none, some, List, [], ◌∷◌, arith,
  In, String, names, str_eq, eq_iff, Bool-cases, if_cases,
}
use stupid_inference_router.Float.{Float, lt, max_by-In}
use stupid_inference_router.Config.Scheduler.{SchedulerConfig}
use stupid_inference_router.Types.Scheduling.{
  ModelState, SchedulerSnapshot, oldest_wait, DecisionKind, find_model, resident_in, resident_state,
  is_available,
}
use stupid_inference_router.Policy.Defs.{
  Verdict, overdue, with_work, servable, past_ceiling, among, contest, by_score, choose, decide,
  score_for, is_held,
}
use stupid_inference_router.Policy.Lemmas.{
  IsServable, IsStarving, overdue-IsStarving, servable-IsServable,
}

module _ {F : Type 0} ⦃fl : Float F⦄ (snapshot : SchedulerSnapshot F) (now : F)
    (config : SchedulerConfig F) where
  -- A verdict names a target exactly if it switches, and then a servable model.
  abbrev pub IsSound : Verdict → Type 0
  IsSound v =
      ((v.kind ≡ DecisionKind.switch)
        × ((m : ModelState F) × (v.target ≡ some m.name) × IsServable snapshot now m))
      ⊎ ((v.kind ≢ DecisionKind.switch) × (v.target ≡ none))

  by_score-IsSound :
      (best resident : ModelState F)
      → IsServable snapshot now best
      → IsSound (by_score snapshot now config best resident)
  unfolding by_score
  by_score-IsSound best r s =
      if_cases IsSound (names snapshot.resident best.name) (λ _. inr (ground arith, refl))
        λ _.
          if_cases IsSound
            (lt (score_for snapshot now config r) (score_for snapshot now config best))
            (λ _. inl (refl, (best, refl, s))) λ _. inr (ground arith, refl)

  contest-IsSound :
      (best : ModelState F) (o : Option (ModelState F))
      → IsServable snapshot now best
      → IsSound (contest snapshot now config best o)
  unfolding contest
  contest-IsSound best none s = inl (refl, (best, refl, s))
  contest-IsSound best (some r) s =
      if_cases IsSound (not (is_available r now)) (λ _. inl (refl, (best, refl, s)))
        λ _.
          if_cases IsSound (is_held snapshot now config best r) (λ _. inr (ground arith, refl))
            λ _. by_score-IsSound best r s

  among-IsSound :
      (ws ms : List (ModelState F))
      → ((m : ModelState F) → In m ms → IsServable snapshot now m)
      → IsSound (among snapshot now config ws ms)
  unfolding among
  among-IsSound [] ms h = inr (ground arith, refl)
  among-IsSound (w ∷ ws) [] h = inr (ground arith, refl)
  among-IsSound (w ∷ ws) (m ∷ ms) h =
      contest-IsSound _ (resident_state snapshot)
        (h _ (max_by-In (score_for snapshot now config) m ms))

  past_ceiling-IsSound :
      (ms : List (ModelState F))
      → ((m : ModelState F) → In m ms → IsStarving snapshot now config m)
      → IsSound (past_ceiling snapshot now config ms)
  unfolding past_ceiling
  past_ceiling-IsSound [] h =
      among-IsSound (with_work snapshot now config) (servable snapshot now config)
        (servable-IsServable snapshot now config)
  past_ceiling-IsSound (m ∷ ms) h =
      inl (refl, (_, refl, (h _ (max_by-In (λ s. oldest_wait s now) m ms)).0))

  -- A decision to switch names a known model that has queued work and whose backend may be started;
  -- every other decision names no target.
  pub decide-IsSound :
      (((decide snapshot now config).kind ≡ DecisionKind.switch)
        × ((m : ModelState F) × ((decide snapshot now config).target ≡ some m.name)
            × IsServable snapshot now m))
      ⊎ (((decide snapshot now config).kind ≢ DecisionKind.switch)
          × ((decide snapshot now config).target ≡ none))
  unfolding decide choose
  decide-IsSound = elim (Bool-cases (snapshot.switching || snapshot.draining)) [
    | inl e ↦ rw e (inr (ground arith, refl))
    | inr e ↦ rw e (
        past_ceiling-IsSound (overdue snapshot now config) (overdue-IsStarving snapshot now config))
  ]

-- Model names are told apart, and none is empty, as a loaded configuration guarantees.
abbrev pub IsNamed : {F : Type 0} → SchedulerSnapshot F → Type 0
IsNamed {F} snapshot =
    (m : ModelState F)
    → In m snapshot.models
    → (find_model m.name snapshot.models ≡ some m) × (str_eq m.name "" ≡ false)

resident_in-named :
    {F : Type 0} (o : Option String) (ms : List (ModelState F)) (m : ModelState F)
    → names o m.name ≡ true
    → find_model m.name ms ≡ some m
    → str_eq m.name "" ≡ false
    → resident_in o ms ≡ some m
unfolding resident_in
resident_in-named none ms m h f e = cc
resident_in-named (some n) ms m h f e = ground (arith, eq_iff n m.name)

module _ {F : Type 0} ⦃fl : Float F⦄ (snapshot : SchedulerSnapshot F) (now : F)
    (config : SchedulerConfig F) (named : IsNamed snapshot) where
  -- A target is never the resident model.
  abbrev Leaves : Verdict → Type 0
  Leaves v = (t : String) → v.target ≡ some t → names snapshot.resident t ≡ false

  contest-Leaves :
      (best : ModelState F) (o : Option (ModelState F))
      → IsServable snapshot now best
      → resident_state snapshot ≡ o
      → Leaves (contest snapshot now config best o)
  unfolding contest by_score
  contest-Leaves best none (known, _, _) e t h =
      ground (arith, resident_in-named snapshot.resident snapshot.models best, named best known)
  contest-Leaves best (some r) (known, _, available) e t h =
      ground (arith, resident_in-named snapshot.resident snapshot.models best, named best known)

  among-Leaves :
      (ws ms : List (ModelState F))
      → ((m : ModelState F) → In m ms → IsServable snapshot now m)
      → Leaves (among snapshot now config ws ms)
  unfolding among
  among-Leaves [] ms h = λ t e. cc
  among-Leaves (w ∷ ws) [] h = λ t e. cc
  among-Leaves (w ∷ ws) (m ∷ ms) h =
      contest-Leaves _ (resident_state snapshot)
        (h _ (max_by-In (score_for snapshot now config) m ms)) refl

  past_ceiling-Leaves :
      (ms : List (ModelState F))
      → ((m : ModelState F) → In m ms → IsStarving snapshot now config m)
      → Leaves (past_ceiling snapshot now config ms)
  unfolding past_ceiling
  past_ceiling-Leaves [] h =
      among-Leaves (with_work snapshot now config) (servable snapshot now config)
        (servable-IsServable snapshot now config)
  past_ceiling-Leaves (m ∷ ms) h =
      let starving = h _ (max_by-In (λ s. oldest_wait s now) m ms) in λ t e. ground arith

  -- If every model of the snapshot is the one found under its name, and no name is empty, then no
  -- decision switches to the model that is resident.
  pub decide-Leaves :
      (t : String)
      → (decide snapshot now config).target ≡ some t
      → names snapshot.resident t ≡ false
  unfolding decide choose
  decide-Leaves =
      if_cases Leaves (snapshot.switching || snapshot.draining) (λ _ t e. cc)
        λ _.
          past_ceiling-Leaves (overdue snapshot now config) (overdue-IsStarving snapshot now config)
