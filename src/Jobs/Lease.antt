-- ===== src/Jobs/Lease.antt =====
-- src/sir/jobs.py: the lease and the expiry of a single job.
use stupid_inference_router.Prelude.{
  String, true, false, ◌≡◌, ap, ◌∙◌, inl, inr, none, some, arith, str_eq_refl,
}
use stupid_inference_router.Prelude.Dict.{get, put, get-put}
use stupid_inference_router.Float.{Float, le, sub}
use stupid_inference_router.Types.Request.{RequestState}
use stupid_inference_router.Queues.Defs.{Heap}
use stupid_inference_router.Jobs.Defs.{Job, JobStore, is_terminal, update}
use stupid_inference_router.Jobs.Life.{sweep_once, get_job, poll_found, polled}
use stupid_inference_router.Jobs.Invariant.{IsKeyed, values-get, put-IsKeyed}
use stupid_inference_router.Jobs.Sweep.{sweep_once-Fate}

module _ {F : Type 0} ⦃fl : Float F⦄ (heap : Heap F) (store : JobStore F) (id : String)
    (job : Job F) (here : get id store.jobs ≡ some job) where
  get_job-busy :
      (polled_at : F)
      → is_terminal heap job ≡ false
      → (get_job heap store id polled_at).0
        ≡ update store id (record job { last_polled_at = polled_at })
  unfolding get_job poll_found polled
  get_job-busy polled_at busy = ground arith

  -- The poll of an unfinished job is noted in it.
  pub get_job-noted :
      (polled_at : F)
      → is_terminal heap job ≡ false
      → get id (get_job heap store id polled_at).0.jobs
        ≡ some (record job { last_polled_at = polled_at })
  get_job-noted polled_at busy =
      let renewed : Job F = record job { last_polled_at = polled_at } in
      ap (λ s. get id s.jobs) (get_job-busy polled_at busy)
      ∙ get-put id id renewed store.jobs
      ∙ ground (arith, str_eq_refl id)

module _ {F : Type 0} ⦃fl : Float F⦄ (heap : Heap F) (store : JobStore F) (id : String)
    (job : Job F) (keyed : IsKeyed heap store.jobs) (here : get id store.jobs ≡ some job) where
  -- An unfinished job that was polled no longer than the lease ago survives the sweep.
  pub sweep_once-young :
      (now : F)
      → is_terminal heap job ≡ false
      → le (sub now job.last_polled_at) store.config.lease_seconds ≡ true
      → (get id (sweep_once heap store now).1.jobs ≡ some job)
        × ((sweep_once heap store now).0 job.queued ≡ heap job.queued)
  sweep_once-young now busy recent = elim (sweep_once-Fate now heap store id job keyed here) [
    | inl (late, at, q) ↦ absurd (ground arith)
    | inr (inl (fine, old, at, q)) ↦ absurd (ground arith)
    | inr (inr (fine, young, at, q)) ↦ (at, q)
  ]

module _ {F : Type 0} ⦃fl : Float F⦄ (heap : Heap F) (store : JobStore F) (id : String)
    (job : Job F) (keyed : IsKeyed heap store.jobs) (here : get id store.jobs ≡ some job) where
  -- In a store whose jobs are filed under their ids: a job that is unfinished and was polled no
  -- longer than the lease ago survives the sweep, and its request is not cancelled by it.
  pub sweep_once-polled :
      (polled_at now : F)
      → is_terminal heap job ≡ false
      → le (sub now polled_at) store.config.lease_seconds ≡ true
      → let store' = (get_job heap store id polled_at).0 in
        let (heap'', store'') = sweep_once heap store' now in
        (get id store''.jobs ≡ some (record job { last_polled_at = polled_at }))
        × (heap'' job.queued ≡ heap job.queued)
  sweep_once-polled polled_at now busy recent =
      let renewed : Job F = record job { last_polled_at = polled_at } in
      let named = (values-get heap store.jobs keyed id job here).1 in
      let filed : get id (put id renewed store.jobs) ≡ some renewed =
        get-put id id renewed store.jobs ∙ ground (arith, str_eq_refl id) in
      rw (get_job-busy heap store id job here polled_at busy) (
        sweep_once-young heap (update store id renewed) id renewed
          (put-IsKeyed heap id renewed store.jobs named keyed) filed now busy recent)

  -- In a store whose jobs are filed under their ids: a job whose request the engine cancelled, as
  -- it does when a backend crashes, has neither a terminal event nor a finish time: it counts as
  -- cancelled, and no sweep at any time forgets it.
  pub sweep_once-stranded :
      (now : F)
      → job.terminal ≡ none
      → job.finished_at ≡ none
      → (heap job.queued).cancelled ≡ false
      → (heap job.queued).state ≡ RequestState.cancelled
      → (is_terminal heap job ≡ true) × (get id (sweep_once heap store now).1.jobs ≡ some job)
  sweep_once-stranded now t f c s =
      let over : is_terminal heap job ≡ true = ground arith in
      (
        over,
        elim (sweep_once-Fate now heap store id job keyed here) [
          | inl (late, at, q) ↦ ground arith
          | inr (inl (fine, old, at, q)) ↦ ground arith
          | inr (inr (fine, young, at, q)) ↦ at
        ],
      )
