-- ===== src/Client/Waits.antt =====
-- src/clients/python/src/sir_client/client.py: how `_await_job` ends.
use stupid_inference_router.Prelude.{
  String, Bool, true, false, not, ◌≡◌, refl, sym, subst, ◌⊎◌, inl, inr, Option, none, some, List,
  [], ◌∷◌, ◌==◌, if_cases,
}
use stupid_inference_router.Float.{Float}
use stupid_inference_router.Json.{Json, Fields, null, boolean, int, real, str, arr, obj, member}
use stupid_inference_router.Client.Polling.{
  Response, request_timeout, caller_gone, is_done, is_failed, is_cancelled, is_open, response_in,
  fields_of, Result, returns, throws, Meets, polls, given_up, Waited, JobStatus, is_over, settled,
  status_of, fetched, on_settled, on_fetched, plainly, abandoned, poll,
}

module _ {F : Type 0} ⦃fl : Float F⦄ where
  -- Nobody is left who waits for the job.
  abbrev pub is_abandoned : Result F (Json F) → Bool
  is_abandoned (throws (request_timeout id timeout)) = true
  is_abandoned (throws caller_gone) = true
  is_abandoned _ = false

  -- Some reading of the clock is past the deadline, or the caller gives up.
  abbrev pub Expires : Option F → List (Meets F) → Type 0
  Expires deadline [] = ⊥
  Expires deadline (polls now answer ∷ script) =
      (is_over deadline now ≡ true) ⊎ Expires deadline script
  Expires deadline (given_up now ∷ script) = Unit

  -- The job is cancelled exactly if it is abandoned; and a wait that expires is over.
  pub record IsHonest (deadline : Option F) (script : List (Meets F)) (o : Option (Waited F))
      : Type 0 where
    pub cancelled : (w : Waited F) → o ≡ some w → w.cancels ≡ is_abandoned w.result
    pub over : Expires deadline script → (w : Waited F) × (o ≡ some w)

  ends :
      (deadline : Option F) (script : List (Meets F)) (w : Waited F)
      → w.cancels ≡ is_abandoned w.result
      → IsHonest deadline script (some w)
  ends deadline script w honest = record {
    cancelled = λ w' is.
        let same : w ≡ w' = cc in subst (λ x. x.cancels ≡ is_abandoned x.result) same honest;
    over = λ expires. (w, refl);
  }

  -- No error of the job or of the server's abandons it.
  abbrev IsPlain : Option (Result F (Json F)) → Type 0
  IsPlain none = Unit
  IsPlain (some result) = is_abandoned result ≡ false

  abbrev IsPlainError : {A : Type 0} → Result F A → Type 0
  IsPlainError (returns a) = Unit
  IsPlainError (throws error) = is_abandoned (throws error) ≡ false

  response-IsPlain : (o : Option (Json F)) → IsPlain (some (response_in o))
  response-IsPlain none = refl
  response-IsPlain (some v) = refl

  settled-IsPlain :
      (id : String) (document : Fields F) (status : JobStatus)
      → IsPlain (settled id document status)
  unfolding settled
  settled-IsPlain id document is_done = response-IsPlain (member "response" document)
  settled-IsPlain id document is_failed = refl
  settled-IsPlain id document is_cancelled = refl
  settled-IsPlain id document is_open = tt

  fields-IsPlain : (v : Json F) → IsPlainError (fields_of v)
  fields-IsPlain null = refl
  fields-IsPlain (boolean b) = refl
  fields-IsPlain (int n) = refl
  fields-IsPlain (real x) = refl
  fields-IsPlain (str s) = refl
  fields-IsPlain (arr vs) = refl
  fields-IsPlain (obj fields) = tt

  fetched-IsPlain : (id : String) (answer : Response F) → IsPlainError (fetched id answer)
  unfolding fetched
  fetched-IsPlain id answer =
      if_cases {A = Result F (Fields F)} IsPlainError (answer.status_code == 404) (λ lost. refl)
        (λ there.
          if_cases {A = Result F (Fields F)} IsPlainError (not (answer.status_code == 200))
            (λ bad. refl) (λ good. fields-IsPlain answer.body))

  on_settled-IsHonest :
      (deadline : Option F) (script : List (Meets F)) (o : Option (Result F (Json F)))
      (rest : Option (Waited F))
      → IsPlain o
      → IsHonest deadline script rest
      → IsHonest deadline script (on_settled o rest)
  on_settled-IsHonest deadline script none rest plain honest = honest
  on_settled-IsHonest deadline script (some result) rest plain honest =
      ends deadline script (plainly result) (sym plain)

  on_fetched-IsHonest :
      (deadline : Option F) (script : List (Meets F)) (r : Result F (Fields F))
      (rest : Fields F → Option (Waited F))
      → IsPlainError r
      → ((d : Fields F) → IsHonest deadline script (rest d))
      → IsHonest deadline script (on_fetched r rest)
  on_fetched-IsHonest deadline script (returns d) rest plain honest = honest d
  on_fetched-IsHonest deadline script (throws error) rest plain honest =
      ends deadline script (plainly (throws error)) (sym plain)

  -- `_await_job`'s loop cancels the job exactly if nobody waits for it any more: it ran out of time, or its
  -- caller gave up. Any other end, a completion, a failure, a lost job or a transport error, leaves
  -- the job alone. And once the clock is read past the deadline, or the caller gives up, the wait is
  -- over, whatever the server answers.
  pub poll-IsHonest :
      (id : String) (timeout deadline : Option F) (document : Fields F) (script : List (Meets F))
      → IsHonest deadline script (poll id timeout deadline document script)
  unfolding poll
  poll-IsHonest id timeout deadline document [] =
      on_settled-IsHonest deadline [] _ none (settled-IsPlain id document (status_of document))
        (record { cancelled = λ w is. cc; over = λ expires. absurd expires })
  poll-IsHonest id timeout deadline document (given_up now ∷ script) =
      on_settled-IsHonest deadline (given_up now ∷ script) _ _
        (settled-IsPlain id document (status_of document))
        (if_cases {A = Option (Waited F)} (IsHonest deadline (given_up now ∷ script))
          (is_over deadline now) (λ late. ends deadline (given_up now ∷ script) (abandoned _) refl)
          (λ early. ends deadline (given_up now ∷ script) (abandoned caller_gone) refl))
  poll-IsHonest id timeout deadline document (polls now answer ∷ script) =
      on_settled-IsHonest deadline (polls now answer ∷ script) _ _
        (settled-IsPlain id document (status_of document))
        (if_cases {A = Option (Waited F)} (IsHonest deadline (polls now answer ∷ script))
          (is_over deadline now)
          (λ late. ends deadline (polls now answer ∷ script) (abandoned _) refl)
          (λ early.
            on_fetched-IsHonest deadline (polls now answer ∷ script) (fetched id answer) _
              (fetched-IsPlain id answer)
              (λ d.
                let honest = poll-IsHonest id timeout deadline d script in
                record {
                  cancelled = honest.cancelled;
                  over = λ expires. elim expires [ inl late ↦ cc | inr later ↦ honest.over later ];
                })))
