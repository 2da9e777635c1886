-- ===== src/ApiClient/Retry/Counting.antt =====
-- How often `Attempts` of api-client/src/retry.rs sends a request again.
use emporium.Prelude.{ℕ, suc, ◌-◌, ◌≡◌, List, [], ◌∷◌, Result, ok, err, arith, if◌then◌else◌, ltb}
use emporium.ApiClient.Retry.{Response, attempts_made, attempts_retry, is_failure}

-- how many results fail before the first that does not
abbrev pub leading_failures : {E : Type 0} → List (Result Response E) → ℕ
leading_failures [] = 0
leading_failures (result ∷ results) =
    let rest = leading_failures results in if is_failure result then suc rest else 0

abbrev pub least : ℕ → ℕ → ℕ
least a b = if ltb a b then a else b

-- `Attempts` with `n` retries sends a request again as often as results fail in a row from the
-- start, and at most `n` times.
pub attempts_made_lem :
    {E : Type 0} (n : ℕ) (results : List (Result Response E))
    → attempts_made (record { left = n }) results ≡ least n (leading_failures results)
unfolding attempts_made attempts_retry is_failure
attempts_made_lem n [] = ground arith
attempts_made_lem n (ok res ∷ results) = ground (arith, attempts_made_lem (n - 1) results)
attempts_made_lem n (err e ∷ results) = ground (arith, attempts_made_lem (n - 1) results)
