-- ===== src/Jobs/Create.antt =====
-- src/sir/jobs.py: `create` and `_make_room`.
use stupid_inference_router.Prelude.{
  ℕ, ◌≤◌, ◌<◌, String, true, false, ◌≡◌, refl, sym, ◌∙◌, ◌⊎◌, inl, inr, Option, none, some, List,
  [], ◌∷◌, str_eq, eq_iff, arith, In, In-chosen, if◌then◌else◌, str_eq_refl, Bool-cases, ltb,
  length, filter, In-filter, filter-nil, subst,
}
use stupid_inference_router.Prelude.Dict.{
  get, pop, values, get-put, get-pop, length-put_le, length-pop_lt,
}
use stupid_inference_router.Float.{Float, le}
use stupid_inference_router.Queues.Defs.{Heap}
use stupid_inference_router.Schemas.{ChatCompletionRequest}
use stupid_inference_router.Jobs.Defs.{
  Job, JobStore, job_id, is_terminal, age_key, forget, insert_job, new_job, make_room, evict,
  create, inserted, find_by_key, oldest_of,
}
use stupid_inference_router.Jobs.Invariant.{IsKeyed, get-values, put-IsKeyed, pop-IsKeyed}
use stupid_inference_router.Jobs.Keys.{
  IsResolved, find_by_key-none, forget-IsResolved, find_by_key-insert_job, forget-unused,
  add_key-IsResolved,
}

module _ {F : Type 0} ⦃fl : Float F⦄ where
  oldest_of-In : (best : Job F) (rest : List (Job F)) → In (oldest_of best rest) (best ∷ rest)
  unfolding oldest_of
  oldest_of-In best [] = inl refl
  oldest_of-In best (job ∷ rest) =
      In-chosen (le (age_key best) (age_key job)) best job _ rest
        (oldest_of-In (if le (age_key best) (age_key job) then best else job) rest)

  -- What `_make_room` did: nothing, an eviction of a finished job, or a refusal.
  data Room (heap : Heap F) (store : JobStore F) (r : Option (JobStore F)) : Type 0 where
    spare : length store.jobs < store.config.max_jobs → r ≡ some store → Room heap store r
    evicted :
        (job : Job F)
        → In job (values store.jobs)
        → is_terminal heap job ≡ true
        → r ≡ some (forget heap store job)
        → Room heap store r
    full :
        store.config.max_jobs ≤ length store.jobs
        → ((job : Job F) → In job (values store.jobs) → is_terminal heap job ≡ false)
        → r ≡ none
        → Room heap store r

  make_room-Room : (heap : Heap F) (store : JobStore F) → Room heap store (make_room heap store)
  unfolding make_room evict
  make_room-Room heap store = elim (Bool-cases (ltb (length store.jobs) store.config.max_jobs)) [
    | inl e ↦ spare (ground arith) (rw e refl)
    | inr e ↦ go e (filter (is_terminal heap) (values store.jobs)) refl
  ]
    where
      go :
          ltb (length store.jobs) store.config.max_jobs ≡ false
          → (l : List (Job F)) → filter (is_terminal heap) (values store.jobs) ≡ l
          → Room heap store (make_room heap store)
      go e [] p =
          full (ground arith) (λ job h. filter-nil (is_terminal heap) job (values store.jobs) h p)
            (rw (e, p) refl)
      go e (job ∷ rest) p =
          let victim = oldest_of job rest in
          let (listed, final) =
            In-filter (is_terminal heap) victim (values store.jobs)
              (subst (In victim) (sym p) (oldest_of-In job rest)) in
          evicted victim listed final (rw (e, p) refl)

  -- The store is in order: jobs are filed under their ids, and keys lead to their jobs.
  pub record IsOrdered (heap : Heap F) (store : JobStore F) : Type 0 where
    pub keyed : IsKeyed heap store.jobs
    pub resolved : IsResolved store

  forget-IsOrdered :
      (heap : Heap F) (store : JobStore F) (job : Job F)
      → In job (values store.jobs)
      → IsOrdered heap store
      → IsOrdered heap (forget heap store job)
  forget-IsOrdered heap store job h o = record {
    keyed = unfold forget in pop-IsKeyed heap (job_id heap job) store.jobs o.keyed;
    resolved =
        forget-IsResolved heap store job (get-values heap store.jobs o.keyed job h) o.resolved;
  }

-- A result of `create` against the ceiling: refused with every listed job unfinished and the store
-- full, or a store within the ceiling, for which there was room or a finished job to evict.
abbrev pub WithinCeiling : {F : Type 0} → Heap F → JobStore F → Option (JobStore F × Job F) → Type 0
WithinCeiling {F} heap store r =
    ((r ≡ none)
      × (store.config.max_jobs ≤ length store.jobs)
      × ((job : Job F) → In job (values store.jobs) → is_terminal heap job ≡ false))
    ⊎ ((made : JobStore F × Job F) × (r ≡ some made)
        × (length made.0.jobs ≤ store.config.max_jobs)
        × ((length store.jobs < store.config.max_jobs)
            ⊎ ((job : Job F) × In job (values store.jobs) × (is_terminal heap job ≡ true))))

-- What a created job may rely on: the store is in order, the job is found under its id and its key,
-- and every unfinished job that was there still is.
abbrev pub IsFiled :
    {F : Type 0} ⦃fl : Float F⦄ → Heap F → JobStore F → Option (JobStore F × Job F) → Type 0
IsFiled heap store none = Unit
IsFiled {F} heap store (some (store', job)) =
    IsOrdered heap store'
    × (get (job_id heap job) store'.jobs ≡ some job)
    × ((key : String) → job.idempotency_key ≡ some key → find_by_key store' key ≡ some job)
    × ((id : String) (old : Job F)
        → get id store.jobs ≡ some old
        → is_terminal heap old ≡ false
        → get id store'.jobs ≡ some old)

module _ {F : Type 0} ⦃fl : Float F⦄ (heap : Heap F) (store : JobStore F) (now : F) (ref : ℕ)
    (body : ChatCompletionRequest F) (key : Option String) where
  abbrev job : Job F
  job = new_job ref body now key

  -- In a store that is in order and within a positive ceiling: `create` refuses exactly when the
  -- store is at its ceiling and no job in it has finished; otherwise the store stays within the
  -- ceiling.
  pub create-WithinCeiling :
      IsOrdered heap store
      → 0 < store.config.max_jobs
      → length store.jobs ≤ store.config.max_jobs
      → WithinCeiling heap store (create heap store now ref body key)
  unfolding create inserted
  create-WithinCeiling o positive within = go (make_room-Room heap store)
    where
      go :
          Room heap store (make_room heap store)
          → WithinCeiling heap store (inserted heap job (make_room heap store))
      go (spare h e) = inr (
        (insert_job heap job store, job),
        rw e refl,
        omega (arith, length-put_le (job_id heap job) job store.jobs),
        inl h,
      )
      go (evicted old h final e) = inr (
        (insert_job heap job (forget heap store old), job),
        rw e refl,
        unfold forget in
            omega (
              arith,
              length-put_le (job_id heap job) job (pop (job_id heap old) store.jobs),
              length-pop_lt (job_id heap old) old store.jobs
                  (get-values heap store.jobs o.keyed old h),
            ),
        inr (old, h, final),
      )
      go (full h busy e) = inl (rw e refl, h, busy)

  -- Filing a new job under a fresh id and an unused key.
  insert-IsFiled :
      (s : JobStore F)
      → IsOrdered heap s
      → str_eq (job_id heap job) "" ≡ false
      → get (job_id heap job) s.jobs ≡ none
      → ((k : String) → key ≡ some k → get k s.by_key ≡ none)
      → ((id : String) (old : Job F)
          → get id store.jobs ≡ some old
          → is_terminal heap old ≡ false
          → get id s.jobs ≡ some old)
      → IsFiled heap store (some (insert_job heap job s, job))
  insert-IsFiled s o named fresh unused kept = (
    record {
      keyed = put-IsKeyed heap (job_id heap job) job s.jobs refl o.keyed;
      resolved = add_key-IsResolved heap s job named fresh unused o.resolved;
    },
    get-put (job_id heap job) (job_id heap job) job s.jobs
        ∙ ground (arith, str_eq_refl (job_id heap job)),
    λ k e. find_by_key-insert_job heap s job k e named,
    λ id old e busy.
        get-put id (job_id heap job) job s.jobs
        ∙ ground (arith, eq_iff (job_id heap job) id, kept id old),
  )

  unused_in :
      IsResolved store
      → ((k : String) → key ≡ some k → find_by_key store k ≡ none)
      → (k : String) → key ≡ some k
      → get k store.by_key ≡ none
  unused_in r free k e = find_by_key-none store k r (free k e)

  -- In a store that was in order, a job created under a fresh id that is not empty, with a key that
  -- finds no job, is filed: the store stays in order, the job is found under its id and its key,
  -- and no unfinished job is lost.
  pub create-IsFiled :
      IsOrdered heap store
      → str_eq (job_id heap (new_job ref body now key)) "" ≡ false
      → get (job_id heap (new_job ref body now key)) store.jobs ≡ none
      → ((k : String) → key ≡ some k → find_by_key store k ≡ none)
      → IsFiled heap store (create heap store now ref body key)
  unfolding create inserted
  create-IsFiled o named fresh free = go (make_room-Room heap store)
    where
      go :
          Room heap store (make_room heap store)
          → IsFiled heap store (inserted heap job (make_room heap store))
      go (spare h e) =
          rw e (insert-IsFiled store o named fresh (unused_in o.resolved free) λ id old p busy. p)
      go (evicted victim h final e) = rw e (
          insert-IsFiled (forget heap store victim) (forget-IsOrdered heap store victim h o) named
            (unfold forget in
              get-pop (job_id heap job) (job_id heap victim) store.jobs ∙ ground arith)
            (λ k p. forget-unused heap store victim k (unused_in o.resolved free k p))
            (λ id old p busy.
              unfold forget in
              get-pop id (job_id heap victim) store.jobs
              ∙ ground (
                arith,
                eq_iff (job_id heap victim) id,
                get-values heap store.jobs o.keyed victim h,
              )))
      go (full h busy e) = rw e tt
