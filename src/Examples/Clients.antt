-- ===== src/Examples/Clients.antt =====
-- Witnesses and tests of the Python client.
use stupid_inference_router.Prelude.{String, true, false, ◌≡◌, refl, In, none, some, List, [], ◌∷◌}
use stupid_inference_router.Prelude.Int.{ℤ, pos}
use stupid_inference_router.Prelude.Dict.{get, put}
use stupid_inference_router.Prelude.Text.{is_empty, rstrip_code}
use stupid_inference_router.Float.Fixed.{fixed, fixed-Laws}
use stupid_inference_router.Json.{Fields, str, int, obj, field, end, member}
use stupid_inference_router.Client.Registry.{Registry, Host, bare, claim_all, discover}
use stupid_inference_router.Client.Discovery.{IsDiscovered, discover-IsDiscovered}
use stupid_inference_router.Client.Polling.{Meets, polls, poll, delay, returns}
use stupid_inference_router.Client.Bounds.{IsBounded, delay-IsBounded}
use stupid_inference_router.Client.Waits.{IsHonest, poll-IsHonest}
use stupid_inference_router.Client.Run.{Attempt, Ran, run}
use stupid_inference_router.Client.Resubmits.{IsEntitled, IsLost, run-Tries}

abbrev nowhere : Registry
nowhere = record { endpoints = []; fallback = none }

abbrev hosts : List Host
hosts =
    record { base_url = "http://gpu/"; status = 200; cards = some "org/chat" ∷ none ∷ some "" ∷ [] }
    ∷ record {
      base_url = "http://gpu";
      status = 200;
      cards = some "org/chat" ∷ some "org/code" ∷ [];
    }
    ∷ []

abbrev found : Registry
found = record {
  endpoints = ("org/chat", "http://gpu") ∷ ("org/code", "http://gpu") ∷ [];
  fallback = none;
}

both_found : discover nowhere hosts ≡ (found, none)
unfolding discover claim_all get put rstrip_code
both_found = refl

discover-IsDiscovered_example :
    IsDiscovered nowhere hosts found
    × ((a b : Host) (tag : String)
        → In a hosts
        → In b hosts
        → In (some tag) a.cards
        → In (some tag) b.cards
        → is_empty tag ≡ false
        → bare a.base_url ≡ bare b.base_url)
discover-IsDiscovered_example = discover-IsDiscovered nowhere found hosts both_found

abbrev queued_document : Fields ℤ
queued_document =
    field "id" (str "j") (field "status" (str "queued") (field "retry_after" (int (pos 90)) end))

delay-IsBounded_example :
    IsBounded fixed-Laws
      (pos 10_000)
      (delay (pos 10_000) queued_document (some (pos 300)))
      (some (pos 300))
delay-IsBounded_example =
    delay-IsBounded fixed-Laws (pos 10_000) queued_document (some (pos 300)) refl

-- The job is still in its queue at each poll, and the deadline passes.
abbrev slow : List (Meets ℤ)
slow =
    polls (pos 1000) (record { status_code = 200; body = obj queued_document })
    ∷ polls (pos 9000) (record { status_code = 200; body = obj queued_document })
    ∷ []

poll-IsHonest_example :
    IsHonest (some (pos 5000)) slow (poll "j" none (some (pos 5000)) queued_document slow)
poll-IsHonest_example = poll-IsHonest "j" none (some (pos 5000)) queued_document slow

-- The router restarts after the first submission.
abbrev forgotten : Attempt ℤ
forgotten = record {
  ask = λ post. record { status_code = 202; body = obj queued_document };
  now = pos 0;
  script = polls (pos 1000) (record { status_code = 404; body = obj end }) ∷ [];
}

abbrev answered_at_once : Attempt ℤ
answered_at_once = record {
  ask = λ post. record { status_code = 200; body = str "hello" };
  now = pos 2000;
  script = [];
}

abbrev ran : Ran ℤ
ran = record { result = returns (str "hello"); submissions = 2 }

ran_twice :
    run found none "org/chat" end none (some "key") true (pos 0) (forgotten ∷ answered_at_once ∷ [])
    ≡ some ran
unfolding run get member
ran_twice = refl

run-Tries_example :
    IsEntitled ran true
      (some "key")
      (IsLost found "org/chat" end (some "key") none none none forgotten)
run-Tries_example =
    run-Tries found none "org/chat" end none (some "key") true (pos 0) forgotten
      (answered_at_once ∷ []) ran ran_twice
