-- ===== src/Octocat/Validity.antt =====
-- The tokens that `GithubApp::authentication_token` of services/octocat/src/lib.rs hands out.
use emporium.Prelude.{
  ℕ, ◌+◌, ◌-◌, ◌≡◌, refl, ◌∙◌, ap, ◌≤◌, inl, inr, String, false, Option, none, some, List, [], ◌∷◌,
  Result, ok, ltb, All, arith, Bool-cases, le→leb,
}
use emporium.Prelude.Actions.{Fault}
use emporium.Secret.{Secret, secret_from}
use emporium.Octocat.Types.{
  Error, Claims, TokenCache, GithubApp, Service, World, clock_drift_offset, token_duration,
}
use emporium.Octocat.Token.{
  new, earlier, later, signed_or, rendered_or, put_cache, is_expired, write, new_token,
  cached_token, authentication_token,
}

module _ {H R : Type 0} (env : Service H R) where
  -- a text that the application signed, and that GitHub takes from a minute before `time` to a minute
  -- after, so that clocks may differ by that much
  pub record IsSigned (app_id : String) (time : ℕ) (token : Secret) : Type 0 where
    claims : Claims
    signed : String
    sign_claims : env.sign claims ≡ ok signed
    rendered_signed : env.rendered signed ≡ ok token.revealed
    issuer_claims : claims.issuer ≡ app_id
    issued : claims.issued_at + clock_drift_offset ≤ time
    not_over : time + clock_drift_offset ≤ claims.expiration

  -- a signer and a printer that do not fail
  abbrev pub Signs : Type 0
  Signs =
      (c : Claims)
      → (s : String) × (text : String) × (env.sign c ≡ ok s) × (env.rendered s ≡ ok text)

  -- the clock is where a token can be signed
  abbrev pub InRange : ℕ → Type 0
  InRange time = (clock_drift_offset ≤ time) × (time + token_duration ≤ env.latest)

  -- calls by a clock that does not go back from `time` on
  abbrev pub IsAscending : ℕ → List R → Type 0
  IsAscending time [] = Unit
  IsAscending time (r ∷ rs) = (time ≤ env.now r) × IsAscending (env.now r) rs

  -- what the application answers at each of the states of the world, one after the other
  abbrev pub ask_tokens : GithubApp → List R → List (R × Result Secret (Fault Error))
  ask_tokens app [] = []
  ask_tokens app (r ∷ rs) =
      let (answer, w) = authentication_token env none (record { app = app; remote = r }) in
      (r, answer) ∷ ask_tokens w.app rs

  -- a cached token that will do for as long as it is kept
  abbrev IsKept : String → ℕ → Option TokenCache → Type 0
  IsKept app_id time none = Unit
  IsKept app_id time (some cache) =
      (now : ℕ) → time ≤ now → now ≤ cache.expires → IsSigned app_id now cache.secret

  abbrev app_with : String → Option TokenCache → GithubApp
  app_with app_id cached = record {
    app_id = app_id;
    token = record { poisoned = false; cached = cached };
  }

  abbrev claims_at : String → ℕ → Claims
  claims_at app_id now = record {
    issuer = app_id;
    issued_at = now - clock_drift_offset;
    expiration = now + token_duration;
  }

  abbrev kept_at : String → ℕ → TokenCache
  kept_at text now = record {
    secret = secret_from text;
    expires = (now + token_duration) - clock_drift_offset;
  }

  module _ (app_id : String) (cached : Option TokenCache) (r : R) where
    abbrev before_call : World R
    before_call = record { app = app_with app_id cached; remote = r }

    abbrev after_call : String → ℕ → World R
    after_call text now = record { app = app_with app_id (some (kept_at text now)); remote = r }

    write-new_token :
        (now : ℕ) (signed text : String)
        → InRange now
        → env.sign (claims_at app_id now) ≡ ok signed
        → env.rendered signed ≡ ok text
        → write (new_token env now) before_call ≡ (ok (secret_from text), after_call text now)
    unfolding write new_token earlier later signed_or rendered_or put_cache secret_from
    write-new_token now signed text (early, late) signs prints =
        rw
          (
            le→leb clock_drift_offset now early,
            le→leb (now + token_duration) env.latest late,
            signs,
            prints,
            le→leb clock_drift_offset (now + token_duration) (omega arith),
          )
          refl

  new-IsSigned :
      (app_id : String) (signed text : String) (now later : ℕ)
      → InRange now
      → env.sign (claims_at app_id now) ≡ ok signed
      → env.rendered signed ≡ ok text
      → now ≤ later
      → later ≤ (now + token_duration) - clock_drift_offset
      → IsSigned app_id later (secret_from text)
  unfolding secret_from
  new-IsSigned app_id signed text now later (early, late) signs prints le kept = record {
    claims = claims_at app_id now;
    signed = signed;
    sign_claims = signs;
    rendered_signed = prints;
    issuer_claims = refl;
    issued = omega arith;
    not_over = omega arith;
  }

  -- one call: its answer is a token, and what it leaves cached will do
  abbrev Answers : String → Option TokenCache → R → Type 0
  Answers app_id cached r =
      (token : Secret) × (left : Option TokenCache) × (authentication_token env none
          (before_call app_id cached r)
        ≡ (ok token, record { app = app_with app_id left; remote = r }))
      × IsSigned app_id (env.now r) token
      × IsKept app_id (env.now r) left

  new-Answers :
      (app_id : String) (cached : Option TokenCache) (r : R)
      → Signs
      → InRange (env.now r)
      → authentication_token env none (before_call app_id cached r)
        ≡ write (new_token env (env.now r)) (before_call app_id cached r)
      → Answers app_id cached r
  new-Answers app_id cached r signs range e =
      let (s, text, h, k) = signs (claims_at app_id (env.now r)) in
      (
        secret_from text,
        some (kept_at text (env.now r)),
        e ∙ write-new_token app_id cached r (env.now r) s text range h k,
        new-IsSigned app_id s text (env.now r) (env.now r) range h k (omega arith) (omega arith),
        λ now le kept. new-IsSigned app_id s text (env.now r) now range h k le kept,
      )

  authentication_token-Answers :
      (app_id : String) (cached : Option TokenCache) (time : ℕ) (r : R)
      → Signs
      → InRange (env.now r)
      → time ≤ env.now r
      → IsKept app_id time cached
      → Answers app_id cached r
  unfolding authentication_token cached_token is_expired
  authentication_token-Answers app_id none time r signs range le kept =
      new-Answers app_id none r signs range refl
  authentication_token-Answers app_id (some cache) time r signs range le kept =
      elim (Bool-cases (ltb cache.expires (env.now r))) [
        | inl e ↦ new-Answers app_id (some cache) r signs range (rw e refl)
        | inr e ↦ (
          cache.secret,
          some cache,
          rw e refl,
          kept (env.now r) le (ground arith),
          λ now later_ h. kept now (omega arith) h,
        )
      ]

  ask_tokens-All :
      (app_id : String) (cached : Option TokenCache) (time : ℕ) (rs : List R)
      → Signs
      → All (λ r. InRange (env.now r)) rs
      → IsAscending time rs
      → IsKept app_id time cached
      → All
          (λ (r, answer).
            (token : Secret) × (answer ≡ ok token) × IsSigned app_id (env.now r) token)
          (ask_tokens (app_with app_id cached) rs)
  ask_tokens-All app_id cached time [] signs ranges up kept = tt
  ask_tokens-All app_id cached time (r ∷ rs) signs (range, ranges) (le, up) kept =
      let (token, left, e, is_signed, left_kept) =
        authentication_token-Answers app_id cached time r signs range le kept in
      (
        (token, ap (λ p. p.0) e, is_signed),
        rw (ap (λ p. p.1.app) e)
            (ask_tokens-All app_id left (env.now r) rs signs ranges up left_kept),
      )

  -- Whenever a new application is asked for its token, by a clock that does not go back and is in the
  -- range of instants, and with a signer that does not fail, it answers with a token of its own that
  -- was issued at least a minute before and is valid for at least a minute more.
  pub authentication_token-IsSigned :
      (app_id : String) (time : ℕ) (rs : List R)
      → Signs
      → All (λ r. InRange (env.now r)) rs
      → IsAscending time rs
      → All
          (λ (r, answer).
            (token : Secret) × (answer ≡ ok token) × IsSigned app_id (env.now r) token)
          (ask_tokens (new app_id) rs)
  unfolding new
  authentication_token-IsSigned app_id time rs signs ranges up =
      ask_tokens-All app_id none time rs signs ranges up tt
