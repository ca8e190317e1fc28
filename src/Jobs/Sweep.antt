-- ===== src/Jobs/Sweep.antt =====
-- src/sir/jobs.py: what `sweep_once` does to each job.
use stupid_inference_router.Prelude.{
  ℕ, String, true, false, not, ◌&&◌, ◌≡◌, refl, sym, ap, subst, ◌∙◌, ◌⊎◌, inl, inr, none, some, [],
  ◌∷◌, str_eq, eq_iff, arith, Bool-cases, if_cases,
}
use stupid_inference_router.Prelude.Dict.{Dict, get, values, get-put, get-pop}
use stupid_inference_router.Float.{Float, lt, sub, truthy}
use stupid_inference_router.Types.Request.{QueuedRequest, cancel}
use stupid_inference_router.Queues.Defs.{Heap}
use stupid_inference_router.Jobs.Defs.{
  Job, JobStore, job_id, is_terminal, forget, is_final, state_of,
}
use mathlib.Core.Path.{ap₂}
use stupid_inference_router.Jobs.Life.{
  abandon, abandoned, is_lapsed, is_expired, sweep_job, sweep_jobs, sweep_once,
}
use stupid_inference_router.Jobs.Invariant.{IsKeyed, values-get}

module _ {F : Type 0} ⦃fl : Float F⦄ (now : F) where
  -- What a visit leaves alone: the store's configuration, the ids, and another job with its request.
  abbrev Frame : Heap F → JobStore F → String → ℕ → Heap F × JobStore F → Type 0
  Frame heap store k ref r =
      (get k r.1.jobs ≡ get k store.jobs)
      × (r.0 ref ≡ heap ref)
      × (r.1.config ≡ store.config)
      × ((i : ℕ) → (r.0 i).id ≡ (heap i).id)

  sweep_job-ids :
      (heap : Heap F) (store : JobStore F) (x : Job F) (i : ℕ)
      → ((sweep_job heap store now x).0 i).id ≡ (heap i).id
  unfolding sweep_job abandon
  sweep_job-ids heap store x i = ground arith

  sweep_job-config :
      (heap : Heap F) (store : JobStore F) (x : Job F)
      → (sweep_job heap store now x).1.config ≡ store.config
  unfolding sweep_job abandon forget
  sweep_job-config heap store x = ground arith

  sweep_job-request :
      (heap : Heap F) (store : JobStore F) (x : Job F) (ref : ℕ)
      → str_eq (job_id heap x) (heap ref).id ≡ false
      → (sweep_job heap store now x).0 ref ≡ heap ref
  unfolding sweep_job abandon
  sweep_job-request heap store x ref h = ground (
    arith,
    ap (λ (i : ℕ). (heap i).id) {x = ref} {y = x.queued},
    eq_iff (job_id heap x) (heap ref).id,
  )

  sweep_job-get :
      (heap : Heap F) (store : JobStore F) (x : Job F) (k : String)
      → str_eq (job_id heap x) k ≡ false
      → get k (sweep_job heap store now x).1.jobs ≡ get k store.jobs
  unfolding sweep_job abandon forget
  sweep_job-get heap store x k h = ground (
    arith,
    get-put k (job_id heap x) (abandoned x now) store.jobs,
    get-pop k (job_id heap x) store.jobs,
  )

  sweep_job-Frame :
      (heap : Heap F) (store : JobStore F) (x : Job F) (k : String) (ref : ℕ)
      → (heap ref).id ≡ k
      → str_eq (job_id heap x) k ≡ false
      → Frame heap store k ref (sweep_job heap store now x)
  sweep_job-Frame heap store x k ref e h = (
    sweep_job-get heap store x k h,
    sweep_job-request heap store x ref (rw e h),
    sweep_job-config heap store x,
    sweep_job-ids heap store x,
  )

  IsKeyed-same :
      (a b : Heap F)
      → ((i : ℕ) → (b i).id ≡ (a i).id)
      → (d : Dict (Job F)) → IsKeyed a d
      → IsKeyed b d
  IsKeyed-same a b same [] k = k
  IsKeyed-same a b same ((j, x) ∷ d) (named, fresh, k) =
      (same x.queued ∙ named, fresh, IsKeyed-same a b same d k)

  -- Jobs under other ids leave the job under `k` alone.
  sweep_jobs-Frame :
      (heap : Heap F) (store : JobStore F) (d : Dict (Job F)) (k : String) (ref : ℕ)
      → IsKeyed heap d
      → get k d ≡ none
      → (heap ref).id ≡ k
      → Frame heap store k ref (sweep_jobs heap store now (values d))
  unfolding sweep_jobs values get
  sweep_jobs-Frame heap store [] k ref keyed absent e = (refl, refl, refl, λ i. refl)
  sweep_jobs-Frame heap store ((j, x) ∷ d) k ref (named, fresh, keyed) absent e =
      let other : str_eq (job_id heap x) k ≡ false =
        ground (arith, eq_iff j k, eq_iff (job_id heap x) k) in
      let (kept, request, config, ids) = sweep_job-Frame heap store x k ref e other in
      let (heap', store') = sweep_job heap store now x in
      let (kept', request', config', ids') =
        sweep_jobs-Frame heap' store' d k ref (IsKeyed-same heap heap' ids d keyed) (ground arith)
          (ids ref ∙ e) in
      (kept' ∙ kept, request' ∙ request, config' ∙ config, λ i. ids' i ∙ ids i)

  -- What the sweep makes of the job under `k`.
  abbrev pub Fate : Heap F → JobStore F → Job F → String → Heap F × JobStore F → Type 0
  Fate heap store job k r =
      ((is_lapsed heap store job now ≡ true)
        × (get k r.1.jobs ≡ some (abandoned job now))
        × (r.0 job.queued ≡ cancel (heap job.queued)))
      ⊎ ((is_lapsed heap store job now ≡ false)
          × (is_terminal heap job && is_expired store.config job job.finished_at now ≡ true)
          × (get k r.1.jobs ≡ none)
          × (r.0 job.queued ≡ heap job.queued))
      ⊎ ((is_lapsed heap store job now ≡ false)
          × (is_terminal heap job && is_expired store.config job job.finished_at now ≡ false)
          × (get k r.1.jobs ≡ some job)
          × (r.0 job.queued ≡ heap job.queued))

  sweep_job-Fate :
      (heap : Heap F) (store : JobStore F) (job : Job F) (k : String)
      → job_id heap job ≡ k
      → get k store.jobs ≡ some job
      → Fate heap store job k (sweep_job heap store now job)
  unfolding sweep_job abandon forget
  sweep_job-Fate heap store job k e here =
      if_cases (Fate heap store job k) (is_lapsed heap store job now)
        (λ late. inl (
          late,
          get-put k (job_id heap job) (abandoned job now) store.jobs
              ∙ ground (arith, eq_iff (job_id heap job) k),
          ground arith,
        ))
        λ fine.
          if_cases (Fate heap store job k)
            (is_terminal heap job && is_expired store.config job job.finished_at now)
            (λ old. inr (
              inl (
                fine,
                old,
                get-pop k (job_id heap job) store.jobs ∙ ground (arith, eq_iff (job_id heap job) k),
                refl,
              )))
            λ young. inr (inr (fine, young, here, refl))

  Fate-then :
      (heap : Heap F) (store : JobStore F) (job : Job F) (k : String) (r s : Heap F × JobStore F)
      → Fate heap store job k r
      → Frame r.0 r.1 k job.queued s
      → Fate heap store job k s
  Fate-then heap store job k r s (inl (late, at, q)) (kept, request, config, ids) =
      inl (late, kept ∙ at, request ∙ q)
  Fate-then heap store job k r s (inr (inl (fine, old, at, q))) (kept, request, config, ids) =
      inr (inl (fine, old, kept ∙ at, request ∙ q))
  Fate-then heap store job k r s (inr (inr (fine, young, at, q))) (kept, request, config, ids) =
      inr (inr (fine, young, kept ∙ at, request ∙ q))

  lapsed_same :
      (a b : Heap F) (s t : JobStore F) (job : Job F)
      → b job.queued ≡ a job.queued
      → t.config ≡ s.config
      → (is_lapsed b t job now ≡ is_lapsed a s job now)
        × (is_terminal b job && is_expired t.config job job.finished_at now
            ≡ is_terminal a job && is_expired s.config job job.finished_at now)
  lapsed_same a b s t job request config = (
    ap₂
        (λ c (q : QueuedRequest F).
          truthy c.lease_seconds
          && not (is_final (state_of job.terminal q.cancelled q.state))
          && lt c.lease_seconds (sub now job.last_polled_at))
        config request,
    ap₂
        (λ c (q : QueuedRequest F).
          is_final (state_of job.terminal q.cancelled q.state)
          && is_expired c job job.finished_at now)
        config request,
  )

  Frame-then :
      (heap : Heap F) (store : JobStore F) (job : Job F) (k : String) (r s : Heap F × JobStore F)
      → Frame heap store k job.queued r
      → Fate r.0 r.1 job k s
      → Fate heap store job k s
  Frame-then heap store job k r s (kept, request, config, ids) fate =
      let (lapsed, expired) = lapsed_same heap r.0 store r.1 job request config in
      elim fate [
        | inl (late, at, q) ↦ inl (sym lapsed ∙ late, at, q ∙ ap cancel request)
        | inr (inl (fine, old, at, q)) ↦
            inr (inl (sym lapsed ∙ fine, sym expired ∙ old, at, q ∙ request))
        | inr (inr (fine, young, at, q)) ↦
            inr (inr (sym lapsed ∙ fine, sym expired ∙ young, at, q ∙ request))
      ]

  sweep_jobs-Fate :
      (heap : Heap F) (store : JobStore F) (d : Dict (Job F)) (job : Job F) (k : String)
      → job_id heap job ≡ k
      → IsKeyed heap d
      → get k d ≡ some job
      → get k store.jobs ≡ some job
      → Fate heap store job k (sweep_jobs heap store now (values d))
  unfolding sweep_jobs values get
  sweep_jobs-Fate heap store [] job k e keyed listed here = cc
  sweep_jobs-Fate heap store ((j, x) ∷ d) job k e (named, fresh, keyed) listed here =
      let (heap', store') = sweep_job heap store now x in
      elim (Bool-cases (str_eq j k)) [
        | inl same ↦
            let mine : job ≡ x = ground arith in
            let ids = sweep_job-ids heap store job in
            let (heap'', store'') = sweep_job heap store now job in
            subst
              (λ y.
                Fate heap store job k
                  (let (h, s) = sweep_job heap store now y in sweep_jobs h s now (values d)))
              mine
              (Fate-then heap store job k (heap'', store'')
                (sweep_jobs heap'' store'' now (values d)) (sweep_job-Fate heap store job k e here)
                (sweep_jobs-Frame heap'' store'' d k job.queued
                  (IsKeyed-same heap heap'' ids d keyed) (ground (arith, eq_iff j k))
                  (ids job.queued ∙ e)))
        | inr other ↦
            let frame =
              sweep_job-Frame heap store x k job.queued e
                (ground (arith, eq_iff j k, eq_iff (job_id heap x) k)) in
            let (kept, request, config, ids) = frame in
            Frame-then heap store job k (heap', store') (sweep_jobs heap' store' now (values d))
              frame
              (sweep_jobs-Fate heap' store' d job k (ids job.queued ∙ e)
                (IsKeyed-same heap heap' ids d keyed) (ground arith) (kept ∙ here))
      ]

  -- In a store whose jobs are filed under their ids, the sweep decides on every job by that job alone:
  -- it abandons it and cancels its request if its lease lapsed, forgets it if it finished and its
  -- time is over, and otherwise leaves the job and its request as they were.
  pub sweep_once-Fate :
      (heap : Heap F) (store : JobStore F) (id : String) (job : Job F)
      → IsKeyed heap store.jobs
      → get id store.jobs ≡ some job
      → Fate heap store job id (sweep_once heap store now)
  unfolding sweep_once
  sweep_once-Fate heap store id job keyed here =
      sweep_jobs-Fate heap store store.jobs job id (values-get heap store.jobs keyed id job here).1
        keyed here here
