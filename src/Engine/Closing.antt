-- ===== src/Engine/Closing.antt =====
-- src/sir/engine.py: what `stop` leaves behind.
use mathlib.Core.Option
use stupid_inference_router.Prelude.{
  ℕ, String, true, ◌≡◌, refl, sym, subst, ◌∙◌, ◌⊎◌, inl, inr, Option, none, some, List, [], ◌∷◌,
  ◌++◌, arith, In, str_eq, eq_iff, is_some, ◌==◌, if_cases,
}
use stupid_inference_router.Prelude.Dict.{get, put, keys, get-put}
use stupid_inference_router.Types.Request.{QueuedRequest, RequestState, StreamEvent}
use stupid_inference_router.Queues.Defs.{Heap, ModelQueues, contains, drain, write}
use stupid_inference_router.Queues.Fresh.{contains-put}
use stupid_inference_router.Engine.Shutdown.{turned_away, shutting_down, turn_away, drain_all}

-- Turned away: cancelled, with the error as the last thing its client reads.
pub record IsToldOff {F : Type 0} (q : QueuedRequest F) : Type 0 where
  pub cancelled : q.state ≡ RequestState.cancelled
  pub told : (before : List StreamEvent) × (q.events ≡ before ++ shutting_down ∷ [])

-- What draining these queues leaves.
pub record IsDrained {F : Type 0} (listed : List String) (heap : Heap F) (queues : ModelQueues)
    (heap' : Heap F) (queues' : ModelQueues) : Type 0 where
  pub emptied : (name : String) → In name listed → get name queues' ≡ some []
  pub still_empty : (name : String) → get name queues ≡ some [] → get name queues' ≡ some []
  pub still_told : (ref : ℕ) → IsToldOff (heap ref) → IsToldOff (heap' ref)
  pub told :
      (name : String) (queue : List ℕ) (ref : ℕ)
      → In name listed
      → get name queues ≡ some queue
      → In ref queue
      → IsToldOff (heap' ref)

is_some-some : {A : Type 0} (o : Option A) → is_some o ≡ true → (a : A) × (o ≡ some a)
is_some-some none h = cc
is_some-some (some a) h = (a, refl)

pub contains-keys :
    (queues : ModelQueues) (name : String) → In name (keys queues) → contains queues name ≡ true
unfolding keys get
contains-keys [] name here = absurd here
contains-keys ((k, q) ∷ queues) name (inl same) = ground (arith, eq_iff k name)
contains-keys ((k, q) ∷ queues) name (inr later) = ground (arith, contains-keys queues name later)

pub keys-contains :
    (queues : ModelQueues) (name : String) → contains queues name ≡ true → In name (keys queues)
unfolding keys get
keys-contains [] name known = cc
keys-contains ((k, q) ∷ queues) name known =
    if_cases {A = Option (List ℕ)} (λ o. is_some o ≡ true → In name (k ∷ keys queues))
      (str_eq k name) (λ same h. inl (sym ((eq_iff k name).0 same)))
      (λ other h. inr (keys-contains queues name h)) known

emptied-put :
    (queues : ModelQueues) (first name : String)
    → (name ≡ first) ⊎ (get name queues ≡ some [])
    → get name (put first [] queues) ≡ some []
emptied-put queues first name empty =
    get-put name first [] queues ∙ ground (arith, eq_iff first name)

module _ {F : Type 0} where
  written-IsToldOff :
      (heap : Heap F) (ref other : ℕ)
      → IsToldOff (heap other) ⊎ (other ≡ ref)
      → IsToldOff (write heap ref (turned_away (heap ref)) other)
  written-IsToldOff heap ref other told =
      if_cases {A = QueuedRequest F} IsToldOff (other == ref)
        (λ here. record { cancelled = refl; told = ((heap ref).events, refl) })
        (λ elsewhere. ground (arith, told))

  -- Whoever was turned away stays so, and the listed ones are.
  turn_away-IsToldOff :
      (heap : Heap F) (refs : List ℕ) (ref : ℕ)
      → IsToldOff (heap ref) ⊎ In ref refs
      → IsToldOff (turn_away heap refs ref)
  unfolding turn_away
  turn_away-IsToldOff heap [] ref (inl told) = told
  turn_away-IsToldOff heap [] ref (inr here) = absurd here
  turn_away-IsToldOff heap (first ∷ refs) ref (inl told) =
      turn_away-IsToldOff (write heap first (turned_away (heap first))) refs ref
        (inl (written-IsToldOff heap first ref (inl told)))
  turn_away-IsToldOff heap (first ∷ refs) ref (inr (inl same)) =
      turn_away-IsToldOff (write heap first (turned_away (heap first))) refs ref
        (inl (written-IsToldOff heap first ref (inr same)))
  turn_away-IsToldOff heap (first ∷ refs) ref (inr (inr later)) =
      turn_away-IsToldOff (write heap first (turned_away (heap first))) refs ref (inr later)

  -- The first queue is drained, and then the others are.
  first-IsDrained :
      (heap heap' : Heap F) (queues queues' : ModelQueues) (first : String) (rest : List String)
      (queue : List ℕ)
      → get first queues ≡ some queue
      → IsDrained rest (turn_away heap queue) (put first [] queues) heap' queues'
      → IsDrained (first ∷ rest) heap queues heap' queues'
  first-IsDrained heap heap' queues queues' first rest queue at d = record {
    emptied = λ name listed. elim listed [
      | inl same ↦ d.still_empty name (emptied-put queues first name (inl same))
      | inr later ↦ d.emptied name later
    ];
    still_empty = λ name empty. d.still_empty name (emptied-put queues first name (inr empty));
    still_told = λ ref told. d.still_told ref (turn_away-IsToldOff heap queue ref (inl told));
    told = λ name other ref listed there waits.
        if_cases {A = Option (List ℕ)}
          (λ o. get name (put first [] queues) ≡ o → IsToldOff (heap' ref)) (str_eq first name)
          (λ same at_put.
            let same_name : first ≡ name = (eq_iff first name).0 same in
            let same_queue : queue ≡ other = cc in
            d.still_told ref
              (turn_away-IsToldOff heap queue ref (inr (subst (In ref) (sym same_queue) waits))))
          (λ elsewhere at_put. elim listed [
            | inl same ↦ ground (arith, eq_iff first name)
            | inr later ↦ d.told name other ref later (at_put ∙ there) waits
          ])
          (get-put name first [] queues);
  }

  pub drain_all-IsDrained :
      (heap : Heap F) (queues : ModelQueues) (listed : List String)
      → ((name : String) → In name listed → contains queues name ≡ true)
      → (r : Heap F × ModelQueues) × (drain_all heap queues listed ≡ some r)
        × IsDrained listed heap queues r.0 r.1
  unfolding drain_all drain Option.bind
  drain_all-IsDrained heap queues [] known = (
    (heap, queues),
    refl,
    record {
      emptied = λ name here. absurd here;
      still_empty = λ name empty. empty;
      still_told = λ ref told. told;
      told = λ name queue ref here. absurd here;
    },
  )
  drain_all-IsDrained heap queues (first ∷ rest) known =
      let (queue, at) = is_some-some (get first queues) (known first (inl refl)) in
      let ((heap', queues'), done, d) =
        drain_all-IsDrained (turn_away heap queue) (put first [] queues) rest
          (λ name later. contains-put queues first name [] (inr (known name (inr later)))) in
      (
        (heap', queues'),
        rw at done,
        first-IsDrained heap heap' queues queues' first rest queue at d,
      )
