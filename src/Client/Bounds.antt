-- ===== src/Client/Bounds.antt =====
-- src/clients/python/src/sir_client/client.py: the bounds of `_delay`.
use stupid_inference_router.Prelude.{true, ◌≡◌, subst, Option, none, some}
use stupid_inference_router.Float.{
  Float, Laws, le, min, max, le-max_left, min-le_left, min-le_right, le-min,
}
use stupid_inference_router.Json.{Fields}
use stupid_inference_router.Client.Polling.{delay, within, min_poll_seconds}

module _ {F : Type 0} ⦃fl : Float F⦄ (l : Laws fl) where
  -- Where the wait may go on to: the client's limit, and the deadline, or the least delay if that is later.
  pub record IsBounded (max_poll d : F) (remaining : Option F) : Type 0 where
    pub no_busy_loop : le min_poll_seconds d ≡ true
    pub no_long_sleep : le d max_poll ≡ true
    pub in_time : (left : F) → remaining ≡ some left → le d (max min_poll_seconds left) ≡ true

  within-IsBounded :
      (max_poll d : F) (remaining : Option F)
      → le min_poll_seconds d ≡ true
      → le d max_poll ≡ true
      → IsBounded max_poll (within d remaining) remaining
  within-IsBounded max_poll d none least most = record {
    no_busy_loop = least;
    no_long_sleep = most;
    in_time = λ left is. cc;
  }
  within-IsBounded max_poll d (some left) least most = record {
    no_busy_loop =
        le-min l d (max min_poll_seconds left) min_poll_seconds least
          (le-max_left l min_poll_seconds left);
    no_long_sleep = l.trans _ d max_poll (min-le_left l d (max min_poll_seconds left)) most;
    in_time = λ other is.
        let same : left ≡ other = cc in
        subst (λ x. le (min d (max min_poll_seconds left)) (max min_poll_seconds x) ≡ true) same
          (min-le_right l d (max min_poll_seconds left));
  }

  -- Whatever `retry_after` the server suggests, if the client's limit is at least 0.05 seconds, the delay
  -- before the next poll is at least 0.05 seconds and at most that limit, and it passes the
  -- deadline only where less than 0.05 seconds remain, and then lasts no longer than those.
  pub delay-IsBounded :
      (max_poll : F) (document : Fields F) (remaining : Option F)
      → le min_poll_seconds max_poll ≡ true
      → IsBounded max_poll (delay max_poll document remaining) remaining
  unfolding delay
  delay-IsBounded max_poll document remaining room =
      within-IsBounded max_poll _ remaining
        (le-min l max_poll _ min_poll_seconds room (le-max_left l min_poll_seconds _))
        (min-le_left l max_poll _)
