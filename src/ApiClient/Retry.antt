-- ===== src/ApiClient/Retry.antt =====
-- The retry policies of api-client/src/retry.rs. A `Duration` is its number of nanoseconds. A policy
-- is asked after each response; it answers with how long to wait before the request is sent again,
-- or not to send it again, and `&mut self` is the policy that comes back.
pub mod Backoffs
pub mod Counting
use emporium.Prelude.{
  ℕ, suc, ◌+◌, ◌-◌, ◌*◌, ◌^◌, ◌≡◌, String, Bool, true, false, ◌&&◌, ◌||◌, Option, none, some, List,
  [], ◌∷◌, Result, ok, err, ltb, leb, nat_beq, if◌then◌else◌,
}
use mathlib.Core.Option.{get_or}
use emporium.Std.Num.{parse_usize}

-- the number of nanoseconds that no `Duration` reaches
abbrev pub duration_limit : ℕ
duration_limit = 2 ^ 64 * 1000000000

-- `Duration::checked_mul`
unfoldable pub checked_mul : ℕ → ℕ → Option ℕ
checked_mul delay n = if ltb (delay * n) duration_limit then some (delay * n) else none

pub record Backoff : Type 0 where
  pub delay : ℕ
  pub exponent : ℕ
  pub max_delay : ℕ

-- the status of a response, and its `Retry-After` header where that is text
pub record Response : Type 0 where
  pub status : ℕ
  pub retry_after : Option String

-- the request that was sent: its own `Retry-After` header
pub record Request : Type 0 where
  pub retry_after : Option String

-- `Backoff::rate_limited`
unfoldable pub rate_limited : Backoff → ℕ → Backoff
rate_limited b delay = record b { delay = delay }

-- the test of the new delay against the maximum
unfoldable pub below_max : Backoff → ℕ → Option Backoff
below_max b delay = if leb b.max_delay delay then none else some (record b { delay = delay })

-- `Backoff::increment`
unfoldable pub increment : Backoff → Option Backoff
unfolding checked_mul below_max
increment b = elim (checked_mul b.delay b.exponent) [ none ↦ none | some delay ↦ below_max b delay ]

-- `StatusCode::is_server_error`
unfoldable pub is_server_error : ℕ → Bool
is_server_error status = leb 500 status && ltb status 600

-- `Duration::from_secs` of the header's value
unfoldable pub header_delay : Option String → Option ℕ
header_delay none = none
header_delay (some value) = elim (parse_usize value) [
  | some secs ↦ some (secs * 1000000000)
  | none ↦ none
]

-- the wait after a rate limit, by the value of the header
unfoldable pub rate_limit_wait : Backoff → Backoff → Option ℕ → ℕ
unfolding rate_limited
rate_limit_wait b backoff none = backoff.delay
rate_limit_wait b backoff (some delay) = (rate_limited b delay).delay

-- `Policy::retry` of `Backoff`, once the delay is incremented: the wait
unfoldable pub backoff_wait :
    {E : Type 0} → Backoff → Backoff → Request → Result Response E → Option ℕ
unfolding is_server_error header_delay rate_limit_wait
backoff_wait b backoff req (err _) = some backoff.delay
backoff_wait b backoff req (ok res) =
    if nat_beq res.status 504 || nat_beq res.status 408
    then some backoff.delay
    else if is_server_error res.status
    then some backoff.delay
    else if nat_beq res.status 429
    then some (rate_limit_wait b backoff (header_delay req.retry_after))
    else none

-- `Policy::retry` of `Backoff`
unfoldable pub backoff_retry :
    {E : Type 0} → Backoff → Request → Result Response E → Option ℕ × Backoff
unfolding increment backoff_wait
backoff_retry b req result =
    (elim (increment b) [ none ↦ none | some backoff ↦ backoff_wait b backoff req result ], b)

-- the waits of a policy over the results of the successive attempts
unfoldable pub backoff_waits : {E : Type 0} → Backoff → Request → List (Result Response E) → List ℕ
unfolding backoff_retry
backoff_waits b req [] = []
backoff_waits b req (result ∷ results) =
    let (wait, c) = backoff_retry b req result in
    let rest = backoff_waits c req results in elim wait [ none ↦ [] | some delay ↦ delay ∷ rest ]

-- `Attempts`: how many retries are left
pub record Attempts : Type 0 where
  pub left : ℕ

-- a result that `Attempts` sends again
unfoldable pub is_failure : {E : Type 0} → Result Response E → Bool
unfolding is_server_error
is_failure (ok res) = is_server_error res.status
is_failure (err _) = true

-- `Policy::retry` of `Attempts`: whether the request is sent again, and the policy afterwards
unfoldable pub attempts_retry : {E : Type 0} → Attempts → Result Response E → Bool × Attempts
unfolding is_server_error
attempts_retry a (ok res) =
    if is_server_error res.status && ltb 0 a.left
    then (true, record { left = a.left - 1 })
    else (false, a)
attempts_retry a (err _) = if ltb 0 a.left then (true, record { left = a.left - 1 }) else (false, a)

-- how many times the request is sent again, given the results of the attempts
unfoldable pub attempts_made : {E : Type 0} → Attempts → List (Result Response E) → ℕ
unfolding attempts_retry
attempts_made a [] = 0
attempts_made a (result ∷ results) =
    let (again, b) = attempts_retry a result in
    let rest = attempts_made b results in if again then suc rest else 0
