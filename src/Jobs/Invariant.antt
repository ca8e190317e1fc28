-- ===== src/Jobs/Invariant.antt =====
-- src/sir/jobs.py: the order of a store between calls.
use stupid_inference_router.Prelude.{
  String, ◌≡◌, refl, sym, ap, ◌∙◌, inl, inr, none, some, [], ◌∷◌, str_eq, eq_iff, arith, In,
  Bool-cases,
}
use stupid_inference_router.Prelude.Dict.{Dict, get, put, pop, values, get-put, get-pop}
use stupid_inference_router.Queues.Defs.{Heap}
use stupid_inference_router.Jobs.Defs.{Job, job_id}

module _ {F : Type 0} (heap : Heap F) where
  -- Each job is filed under its id, and no id twice.
  abbrev pub IsKeyed : Dict (Job F) → Type 0
  IsKeyed [] = Unit
  IsKeyed ((k, job) ∷ d) = (job_id heap job ≡ k) × (get k d ≡ none) × IsKeyed d

  -- A listed job is found under its id.
  pub get-values :
      (d : Dict (Job F))
      → IsKeyed d
      → (job : Job F) → In job (values d)
      → get (job_id heap job) d ≡ some job
  unfolding values get
  get-values [] k job h = absurd h
  get-values ((j, x) ∷ d) (named, fresh, k) job (inl e) =
      ground (arith, eq_iff j (job_id heap job), ap (job_id heap) e)
  get-values ((j, x) ∷ d) (named, fresh, k) job (inr h) =
      ground (arith, eq_iff j (job_id heap job), get-values d k job h)

  -- And a job that is found is listed.
  pub values-get :
      (d : Dict (Job F))
      → IsKeyed d
      → (id : String) (job : Job F) → get id d ≡ some job
      → In job (values d) × (job_id heap job ≡ id)
  unfolding values get
  values-get [] k id job e = cc
  values-get ((j, x) ∷ d) (named, fresh, k) id job e =
      ground (arith, eq_iff j id, values-get d k id job)

  pub put-IsKeyed :
      (id : String) (job : Job F) (d : Dict (Job F))
      → job_id heap job ≡ id
      → IsKeyed d
      → IsKeyed (put id job d)
  unfolding put get
  put-IsKeyed id job [] e k = (e, refl, tt)
  put-IsKeyed id job ((j, x) ∷ d) e (named, fresh, k) = elim (Bool-cases (str_eq j id)) [
    | inl same ↦ rw same (e ∙ sym ((eq_iff j id).0 same), fresh, k)
    | inr other ↦ rw other (
      named,
      get-put j id job d ∙ ground (arith, eq_iff id j, eq_iff j id),
      put-IsKeyed id job d e k,
    )
  ]

  pub pop-IsKeyed : (id : String) (d : Dict (Job F)) → IsKeyed d → IsKeyed (pop id d)
  unfolding pop
  pop-IsKeyed id [] k = k
  pop-IsKeyed id ((j, x) ∷ d) (named, fresh, k) = elim (Bool-cases (str_eq j id)) [
    | inl same ↦ rw same (pop-IsKeyed id d k)
    | inr other ↦ rw other (named, get-pop j id d ∙ ground arith, pop-IsKeyed id d k)
  ]
