-- ===== src/Octocat/Token.antt =====
-- `GithubApp::authentication_token` of services/octocat/src/lib.rs: the application's own token,
-- which is signed anew once the cached one has expired.
use emporium.Prelude.{
  ℕ, ◌+◌, ◌-◌, String, Bool, true, false, Option, none, some, Result, ok, err, ltb, leb,
  if◌then◌else◌,
}
use mathlib.Core.Option.{get_or}
use emporium.Prelude.Actions.{Action, Fault, failed, panicked, pure, fail, panic, settle, ◌>>=◌}
use emporium.Secret.{Secret, secret_from}
use emporium.Octocat.Types.{
  Error, signature, serde, TokenSigningError, TokenFormattingError, TokenCache, GithubApp, Service,
  World, clock_drift_offset, token_duration,
}

-- `From<TokenSigningError> for Error`
unfoldable pub signing_error : TokenSigningError → Error
signing_error (TokenSigningError.signing e) = signature e
signing_error (TokenSigningError.serialization e) = serde e

-- `From<TokenFormattingError> for Error`, which panics
unfoldable pub formatting_fault : TokenFormattingError → Fault Error
formatting_fault (TokenFormattingError.serialization e) = failed (serde e)
formatting_fault (TokenFormattingError.io e) = panicked

-- `TokenCache::is_expired`
unfoldable pub is_expired : ℕ → TokenCache → Bool
is_expired now cache = ltb cache.expires now

-- `GithubApp::new`, as far as its state goes
unfoldable pub new : String → GithubApp
new app_id = record { app_id = app_id; token = record { poisoned = false; cached = none } }

module _ {R : Type 0} where
  -- `DateTime - Duration` and `DateTime + Duration`, which panic out of range
  unfoldable pub earlier : ℕ → ℕ → Action (World R) ℕ Error
  earlier time duration = if leb duration time then pure (time - duration) else panic

  unfoldable pub later : ℕ → ℕ → ℕ → Action (World R) ℕ Error
  later latest time duration =
      if leb (time + duration) latest then pure (time + duration) else panic

  -- `?` on the results of the signer and of the printer
  unfoldable pub signed_or : Result String TokenSigningError → Action (World R) String Error
  unfolding signing_error
  signed_or (ok token) = pure token
  signed_or (err e) = fail (signing_error e)

  unfoldable pub rendered_or : Result String TokenFormattingError → Action (World R) String Error
  unfolding formatting_fault
  rendered_or (ok text) = pure text
  rendered_or (err e) = settle (err (formatting_fault e))

  unfoldable pub put_cache : TokenCache → World R → World R
  put_cache cache w = record w {
    app = record w.app { token = record w.app.token { cached = some cache } };
  }

  -- the lock after its writer's step
  unfoldable pub poison : {A : Type 0} → Result A (Fault Error) → World R → World R
  poison (err panicked) w = record w {
    app = record w.app { token = record w.app.token { poisoned = true } };
  }
  poison _ w = w

  -- a step that holds the lock for writing
  unfoldable pub write : {A : Type 0} → Action (World R) A Error → Action (World R) A Error
  unfolding poison
  write step w =
      if w.app.token.poisoned then (err panicked, w) else (let (r, w') = step w in (r, poison r w'))

module _ {H R : Type 0} (env : Service H R) where
  -- a token signed at `now`, which is kept
  unfoldable pub new_token : ℕ → Action (World R) Secret Error
  unfolding earlier later signed_or rendered_or put_cache secret_from
  new_token now w =
      (earlier now clock_drift_offset >>= λ issued_at.
      later env.latest now token_duration >>= λ expire_at.
      signed_or
        (env.sign (record { issuer = w.app.app_id; issued_at = issued_at; expiration = expire_at }))
      >>= λ signed. rendered_or (env.rendered signed) >>= λ text.
          earlier expire_at clock_drift_offset >>= λ expires v. (
            ok (secret_from text),
            put_cache (record { secret = secret_from text; expires = expires }) v,
          ))
        w

  -- the cached token, unless it has expired by the clock
  unfoldable pub cached_token : ℕ → Option TokenCache → Action (World R) Secret Error
  unfolding is_expired write new_token
  cached_token now none w = write (new_token now) w
  cached_token now (some cache) w =
      if is_expired (env.now w.remote) cache then write (new_token now) w else (ok cache.secret, w)

  -- `GithubApp::authentication_token`
  unfoldable pub authentication_token : Option ℕ → Action (World R) Secret Error
  unfolding cached_token
  authentication_token now w =
      if w.app.token.poisoned
      then (err panicked, w)
      else cached_token (get_or now (env.now w.remote)) w.app.token.cached w
