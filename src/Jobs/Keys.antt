-- ===== src/Jobs/Keys.antt =====
-- src/sir/jobs.py: idempotency keys.
use stupid_inference_router.Prelude.{
  String, false, ◌≡◌, refl, ◌∙◌, inl, inr, Option, none, some, str_eq, eq_iff, arith, str_eq_refl,
  Bool-cases,
}
use stupid_inference_router.Prelude.Dict.{get, put, pop, get-put, get-pop}
use stupid_inference_router.Float.{Float}
use stupid_inference_router.Queues.Defs.{Heap}
use stupid_inference_router.Jobs.Defs.{
  Job, JobStore, job_id, forget, insert_job, find_by_key, add_key, drop_key, job_of_id,
}

module _ {F : Type 0} where
  -- A key leads to a job that was created with it.
  abbrev pub IsResolved : JobStore F → Type 0
  IsResolved store =
      (key id : String)
      → get key store.by_key ≡ some id
      → (str_eq id "" ≡ false)
        × ((job : Job F) × (get id store.jobs ≡ some job) × (job.idempotency_key ≡ some key))

  pub find_by_key-none :
      (store : JobStore F) (key : String)
      → IsResolved store
      → find_by_key store key ≡ none
      → get key store.by_key ≡ none
  unfolding find_by_key job_of_id
  find_by_key-none store key h e = go (get key store.by_key) refl e
    where
      go : (o : Option String) → get key store.by_key ≡ o → job_of_id store o ≡ none → o ≡ none
      go none p e = refl
      go (some id) p e = let (named, (job, found, keyed)) = h key id p in ground arith

module _ {F : Type 0} ⦃fl : Float F⦄ (heap : Heap F) where
  -- Forgetting a job takes its key along, so no key is left without its job.
  pub forget-IsResolved :
      (store : JobStore F) (job : Job F)
      → get (job_id heap job) store.jobs ≡ some job
      → IsResolved store
      → IsResolved (forget heap store job)
  unfolding forget
  forget-IsResolved store job here h key id e = go job.idempotency_key refl e
    where
      go :
          (o : Option String)
          → job.idempotency_key ≡ o
          → get key (drop_key o store.by_key) ≡ some id
          → (str_eq id "" ≡ false)
            × ((x : Job F) × (get id (pop (job_id heap job) store.jobs) ≡ some x)
                × (x.idempotency_key ≡ some key))
      go none k e =
          let (named, (x, found, keyed)) = h key id e in
          (
            named,
            (
              x,
              get-pop id (job_id heap job) store.jobs ∙ ground (arith, eq_iff (job_id heap job) id),
              keyed,
            ),
          )
      go (some own) k e =
          let (named, (x, found, keyed)) =
            h key id (ground (arith, get-pop key own store.by_key)) in
          (
            named,
            (
              x,
              get-pop id (job_id heap job) store.jobs
                  ∙ ground (
                    arith,
                    eq_iff (job_id heap job) id,
                    eq_iff own key,
                    get-pop key own store.by_key,
                  ),
              keyed,
            ),
          )

  pub add_key-IsResolved :
      (store : JobStore F) (job : Job F)
      → str_eq (job_id heap job) "" ≡ false
      → get (job_id heap job) store.jobs ≡ none
      → ((key : String) → job.idempotency_key ≡ some key → get key store.by_key ≡ none)
      → IsResolved store
      → IsResolved (insert_job heap job store)
  add_key-IsResolved store job named fresh unused h key id e = go job.idempotency_key refl e
    where
      go :
          (o : Option String)
          → job.idempotency_key ≡ o
          → get key (add_key o (job_id heap job) store.by_key) ≡ some id
          → (str_eq id "" ≡ false)
            × ((x : Job F) × (get id (put (job_id heap job) job store.jobs) ≡ some x)
                × (x.idempotency_key ≡ some key))
      go none k e =
          let (filled, (x, found, keyed)) = h key id e in
          (
            filled,
            (
              x,
              get-put id (job_id heap job) job store.jobs
                  ∙ ground (arith, eq_iff (job_id heap job) id),
              keyed,
            ),
          )
      go (some own) k e = elim (Bool-cases (str_eq own key)) [
        | inl same ↦
            let mine : job_id heap job ≡ id =
              ground (arith, get-put key own (job_id heap job) store.by_key) in
            (
              rw (← mine) named,
              (
                job,
                get-put id (job_id heap job) job store.jobs
                    ∙ ground (arith, eq_iff (job_id heap job) id),
                ground (arith, eq_iff own key),
              ),
            )
        | inr other ↦
            let (filled, (x, found, keyed)) =
              h key id (ground (arith, get-put key own (job_id heap job) store.by_key)) in
            (
              filled,
              (
                x,
                get-put id (job_id heap job) job store.jobs
                    ∙ ground (arith, eq_iff (job_id heap job) id),
                keyed,
              ),
            )
      ]

  -- Right after its insertion a job is found under its key.
  pub find_by_key-insert_job :
      (store : JobStore F) (job : Job F) (key : String)
      → job.idempotency_key ≡ some key
      → str_eq (job_id heap job) "" ≡ false
      → find_by_key (insert_job heap job store) key ≡ some job
  unfolding find_by_key job_of_id
  find_by_key-insert_job store job key e named = go job.idempotency_key e
    where
      go :
          (o : Option String)
          → o ≡ some key
          → job_of_id
              (insert_job heap job store)
              (get key (add_key o (job_id heap job) store.by_key))
            ≡ some job
      go none p = cc
      go (some own) p = ground (
        arith,
        eq_iff own key,
        get-put key own (job_id heap job) store.by_key,
        get-put (job_id heap job) (job_id heap job) job store.jobs,
        str_eq_refl (job_id heap job),
      )

  pub forget-unused :
      (store : JobStore F) (job : Job F) (key : String)
      → get key store.by_key ≡ none
      → get key (forget heap store job).by_key ≡ none
  unfolding forget
  forget-unused store job key e = go job.idempotency_key
    where
      go : (o : Option String) → get key (drop_key o store.by_key) ≡ none
      go none = e
      go (some own) = get-pop key own store.by_key ∙ ground arith
