-- ===== src/ApiClient/Retry/Backoffs.antt =====
-- The delays of `Backoff` of api-client/src/retry.rs.
use emporium.Prelude.{ℕ, ◌*◌, ◌&&◌, Option, none, some, List, [], if◌then◌else◌, ltb, map}
use emporium.ApiClient.Retry.{Backoff, duration_limit}

-- what a failure is answered with: the delay times the exponent, where that is a `Duration` below the
-- maximum
abbrev pub wait_of : Backoff → Option ℕ
wait_of b =
    if ltb (b.delay * b.exponent) duration_limit && ltb (b.delay * b.exponent) b.max_delay
    then some (b.delay * b.exponent)
    else none

-- the waits of a policy that answers each of the results so
abbrev pub waits_of : {A : Type 0} → Option ℕ → List A → List ℕ
waits_of none results = []
waits_of (some wait) results = map (λ _. wait) results
