-- ===== src/Engine/Capacity.antt =====
-- src/sir/engine.py: which requests `_dispatch` starts.
use mathlib.Core.Option
use stupid_inference_router.Prelude.{
  ℕ, suc, ◌+◌, ◌-◌, ◌≤◌, String, true, ◌≡◌, refl, ap, sym, subst, ◌∙◌, Option, some, List, [], ◌∷◌,
  ◌++◌, arith, eq_iff, take, drop, length, leb, str_eq, if◌then◌else◌, if_cases, length-take,
}
use stupid_inference_router.Float.{Float}
use stupid_inference_router.Types.Request.{model, wait_time}
use stupid_inference_router.Types.Scheduling.{EventKind}
use stupid_inference_router.Queues.Defs.{take_while}
use stupid_inference_router.Queues.Fifo.{view, take_while-view}
use stupid_inference_router.Engine.Defs.{Engine, Flight, emit}
use stupid_inference_router.Engine.Loop.{
  dispatch, dispatch_resident, dispatch_to, launch, new_flight,
}

-- The requests being served.
abbrev pub served : List Flight → List ℕ
served [] = []
served (f ∷ fs) = f.ref ∷ served fs

served-append : (fs gs : List Flight) → served (fs ++ gs) ≡ served fs ++ served gs
served-append [] gs = refl
served-append (f ∷ fs) gs = ap (λ rest. f.ref ∷ rest) (served-append fs gs)

served_one : (xs : List ℕ) (x : ℕ) (rest : List ℕ) → (xs ++ x ∷ []) ++ rest ≡ xs ++ x ∷ rest
served_one [] x rest = refl
served_one (y ∷ xs) x rest = ap (λ ys. y ∷ ys) (served_one xs x rest)

append_nil : (xs : List ℕ) → xs ++ [] ≡ xs
append_nil [] = refl
append_nil (x ∷ xs) = ap (λ ys. x ∷ ys) (append_nil xs)

pub length-append : (xs ys : List ℕ) → length (xs ++ ys) ≡ length xs + length ys
length-append [] ys = omega arith
length-append (x ∷ xs) ys = omega (arith, length-append xs ys)

pub length-served : (fs : List Flight) → length (served fs) ≡ length fs
length-served [] = refl
length-served (f ∷ fs) = ap suc (length-served fs)

module _ {F : Type 0} ⦃fl : Float F⦄ where
  -- The loop over the batch starts its requests in order, and leaves the queues alone.
  pub launch_lem :
      (e : Engine F) (now : F) (refs : List ℕ)
      → (served (launch e now refs).in_flight ≡ served e.in_flight ++ refs)
        × ((launch e now refs).heap ≡ e.heap)
        × ((launch e now refs).queues ≡ e.queues)
  unfolding launch emit
  launch_lem e now [] = (sym (append_nil _), refl, refl)
  launch_lem e now (ref ∷ refs) =
      let q = e.heap ref in
      let logged = emit e now EventKind.dispatch (model q) q.id (some (wait_time q now)) in
      let next = record logged { in_flight = e.in_flight ++ new_flight ref ∷ [] } in
      let (started, heap, queues) = launch_lem next now refs in
      (
        started
            ∙ ap (λ xs. xs ++ refs) (served-append e.in_flight (new_flight ref ∷ []))
            ∙ served_one (served e.in_flight) ref refs,
        heap,
        queues,
      )

  -- What a dispatch to the resident model does, `free` being the places left.
  abbrev pub Admits : Engine F → String → List ℕ → ℕ → Engine F → Type 0
  Admits e name waiting free e' =
      (served e'.in_flight ≡ served e.in_flight ++ take free waiting)
      × ((other : String)
          → view e'.heap e'.queues other
            ≡ (if str_eq name other then some (drop free waiting) else view e.heap e.queues other))

  -- With no place left nothing happens.
  full-Admits :
      (e : Engine F) (name : String) (waiting : List ℕ)
      → view e.heap e.queues name ≡ some waiting
      → Admits e name waiting 0 e
  full-Admits e name waiting here = (sym (append_nil _), same)
    where
      same :
          (other : String)
          → view e.heap e.queues other
            ≡ (if str_eq name other then some waiting else view e.heap e.queues other)
      same other =
          if_cases (λ r. view e.heap e.queues other ≡ r) (str_eq name other)
            (λ eq.
              subst (λ n. view e.heap e.queues n ≡ some waiting) ((eq_iff name other).0 eq) here)
            (λ ne. refl)

  dispatch_to-Admits :
      (e : Engine F) (now : F) (name : String) (waiting : List ℕ)
      → view e.heap e.queues name ≡ some waiting
      → (e' : Engine F) × (dispatch_to e now name ≡ some e')
        × Admits e name waiting (e.config.scheduler.max_concurrent_requests - length e.in_flight) e'
  unfolding dispatch_to
  dispatch_to-Admits e now name waiting here =
      if_cases {A = Option (Engine F)}
        (λ r.
          (e' : Engine F) × (r ≡ some e')
          × Admits e name waiting (e.config.scheduler.max_concurrent_requests - length e.in_flight)
              e')
        (leb e.config.scheduler.max_concurrent_requests (length e.in_flight))
        (λ full. (
          e,
          refl,
          subst (λ free. Admits e name waiting free e) (none_free full)
              (full-Admits e name waiting here),
        ))
        (λ space. taken)
    where
      none_free :
          leb e.config.scheduler.max_concurrent_requests (length e.in_flight) ≡ true
          → 0 ≡ e.config.scheduler.max_concurrent_requests - length e.in_flight
      none_free full = ground arith

      taken :
          (e' : Engine F) × (Option.map
              (λ batch.
                let (heap, queues, refs) = batch in
                launch (record e { heap = heap; queues = queues }) now refs)
              (take_while e.heap e.queues name now
                (e.config.scheduler.max_concurrent_requests - length e.in_flight))
            ≡ some e')
          × Admits e name waiting
              (e.config.scheduler.max_concurrent_requests - length e.in_flight)
              e'
      taken =
          let free = e.config.scheduler.max_concurrent_requests - length e.in_flight in
          let (r, eq, batch, views) = take_while-view e.heap e.queues name now free waiting here in
          let e0 = record e { heap = r.0; queues = r.1 } in
          let (started, heap, queues) = launch_lem e0 now r.2 in
          (
            launch e0 now r.2,
            ap (Option.map _) eq,
            (
              started ∙ ap (λ xs. served e.in_flight ++ xs) batch,
              λ other.
                  ap (λ h. view h (launch e0 now r.2).queues other) heap
                  ∙ ap (λ qs. view r.0 qs other) queues
                  ∙ views other,
            ),
          )

  -- A dispatch to the resident model starts, in the order in which they wait, the requests that wait
  -- for it, as many as the concurrency limit leaves places for; these leave the queue, the other
  -- queues keep their live requests, and no more requests than the limit are being served, provided
  -- that this was so before.
  pub dispatch-Admits :
      (e : Engine F) (now : F) (name : String) (waiting : List ℕ)
      → e.resident ≡ some name
      → view e.heap e.queues name ≡ some waiting
      → length e.in_flight ≤ e.config.scheduler.max_concurrent_requests
      → (e' : Engine F) × (dispatch e now ≡ some e')
        × Admits e name waiting (e.config.scheduler.max_concurrent_requests - length e.in_flight) e'
        × (length e'.in_flight ≤ e.config.scheduler.max_concurrent_requests)
  unfolding dispatch dispatch_resident
  dispatch-Admits e now name waiting here queue bound =
      let limit = e.config.scheduler.max_concurrent_requests in
      let (e', eq, admits) = dispatch_to-Admits e now name waiting queue in
      let count =
        ap length admits.0
        ∙ length-append (served e.in_flight) (take (limit - length e.in_flight) waiting) in
      (
        e',
        ap (dispatch_resident e now) here ∙ eq,
        admits,
        omega (
          arith,
          bound,
          count,
          length-served e.in_flight,
          length-served e'.in_flight,
          (length-take (limit - length e.in_flight) waiting).0,
        ),
      )
