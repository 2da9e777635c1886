-- ===== src/Tests/Github.antt =====
-- Concrete data for the results on the tokens of a GitHub application.
use emporium.Prelude.{ℕ, none, refl, ◌≡◌, List, [], ◌∷◌, ok, err, All, arith}
use emporium.Prelude.Actions.{failed}
use emporium.Secret.{Secret}
use emporium.ApiClient.Http.{other}
use emporium.Octocat.Types.{Service}
use emporium.Octocat.Token.{new}
use emporium.Octocat.Validity.{IsSigned, ask_tokens, authentication_token-IsSigned}
use emporium.Tests.Remote.{Headers, http}

-- the world is its clock
abbrev github : Service Headers ℕ
github = record {
  http = http;
  parse_uri = λ _. none;
  now = λ r. r;
  latest = 1000000000000000;
  sign = λ c. ok "signed";
  rendered = λ signed. ok "token";
  send = λ req r. (err (failed (other "no network")), r);
  from_utf8 = λ _. ok "";
  read_access = λ _. err "";
  read_installation = λ _. err "";
  read_installations = λ _. err "";
}

-- the first token is still good at the second call, and is renewed at the third
abbrev instants : List ℕ
instants = 100000000000 ∷ 340000000000 ∷ 341000000000 ∷ []

authentication_token-IsSigned_example :
    All
      (λ (r, answer). (token : Secret) × (answer ≡ ok token) × IsSigned github "1235" r token)
      (ask_tokens github (new "1235") instants)
authentication_token-IsSigned_example =
    authentication_token-IsSigned github "1235" 0 instants (λ c. ("signed", "token", refl, refl))
      ((omega arith, omega arith), ((omega arith, omega arith), ((omega arith, omega arith), tt)))
      (omega arith, (omega arith, (omega arith, tt)))
