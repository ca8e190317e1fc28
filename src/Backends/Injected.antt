-- ===== src/Backends/Injected.antt =====
-- src/sir/backends/mock.py: a stream that completes and one that dies.
use stupid_inference_router.Prelude.{
  ℕ, zero, suc, ◌+◌, String, true, false, ◌≡◌, refl, List, [], ◌∷◌, ◌++◌,
}
use stupid_inference_router.Engine.Serve.{Turn, yields, exhausted, backend_error}
use stupid_inference_router.Backends.Mock.{MockBackend, MockError, died, token, generate}

-- The tokens from `index` on, so many.
unfoldable pub tokens : String → ℕ → ℕ → List Turn
tokens tag zero index = []
tokens tag (suc n) index =
    yields (record { text = token tag index; index = index }) ∷ tokens tag n (index + 1)

module _ {F : Type 0} (say : MockError → String) (tag : String) where
  -- A backend that is not to die yields as many tokens as asked for and is as it was, with one more
  -- request completed.
  pub generate-spared :
      (b : MockBackend F) (n index : ℕ)
      → generate say b tag false n index ≡ (
        record b { requests_completed = b.requests_completed + 1 },
        tokens tag n index ++ exhausted ∷ [],
      )
  unfolding generate tokens
  generate-spared b zero index = refl
  generate-spared b (suc n) index = rw (generate-spared b n (index + 1)) refl

  -- One that is to die yields two tokens, if it was asked for more, and is not healthy any more.
  pub generate-doomed :
      (b : MockBackend F) (n : ℕ)
      → generate say b tag true (suc (suc (suc n))) 0 ≡ (
        record b { crashed = true; loaded = false },
        tokens tag 2 0 ++ backend_error (say (died b.params.crash_after_n_requests)) ∷ [],
      )
  unfolding generate tokens
  generate-doomed b n = refl
