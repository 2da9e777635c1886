-- ===== src/B2Client/Application/Authorized.antt =====
-- The `Authorization` header after the authentications of api-client/src/authentication.rs and of
-- services/b2-client/src/application.rs.
use emporium.Prelude.{
  ◌≡◌, refl, ◌∙◌, ap, sym, String, Bool, true, false, Option, none, some, List, [], ◌∷◌, inl, inr,
  Bool-cases, ◌==◌, string_eq,
}
use emporium.ApiClient.Http.{Http, IsHeaderMap, Request}
use emporium.ApiClient.Authentication.{
  authorization, BearerAuth, BasicAuth, bearer_value, basic_auth, revealed, append_authorization,
  authenticate_bearer, authenticate_basic,
}
use mathlib.Core.Option.{some_inj}
use emporium.Secret.{header_value}
use emporium.B2Client.Application.{B2Authorization, authorize, authenticate, insert_authorization}

-- The ways to authenticate a request that look for a header first; `()` adds none, and the access to an
-- installation of GitHub adds one in any case.
pub data Scheme : Type 0 where
  bearer : BearerAuth → Scheme
  basic : BasicAuth → Scheme
  b2 : B2Authorization → Scheme
  b2_request : B2Authorization → Scheme

module _ {H : Type 0} (http : Http H) (base64 : String → String) where
  -- what a scheme does to a request
  abbrev pub apply : {B : Type 0} → Scheme → Request H B → Option (Request H B)
  apply (bearer auth) req = authenticate_bearer http auth req
  apply (basic auth) req = authenticate_basic http base64 auth req
  apply (b2 auth) req = authenticate http auth req
  apply (b2_request auth) req = authorize http auth req

  -- the value of its header, if it is one
  abbrev pub value_of : Scheme → Option String
  value_of (bearer auth) = bearer_value http auth
  value_of (basic auth) = basic_auth http base64 auth.username (revealed auth.password)
  value_of (b2 auth) = header_value http.is_header_value auth.authorization_token.revealed
  value_of (b2_request auth) = header_value http.is_header_value auth.authorization_token.revealed

  -- the values of the header after a value for it, if it had none
  abbrev pub with_value : String → List String → List String
  with_value v [] = v ∷ []
  with_value v (x ∷ xs) = x ∷ xs

  -- Of a request that was given a value: the header has it if it had none, other headers are the
  -- same, and no scheme changes the request again. Of a panic: there was no value, nor a header.
  abbrev pub IsAuthorized :
      {B : Type 0} → Option String → Request H B → Option (Request H B) → Type 0
  IsAuthorized value req none =
      (value ≡ none) × (http.headers.get_all authorization req.headers ≡ [])
  IsAuthorized {B} value req (some req') =
      ((v : String)
        → value ≡ some v
        → http.headers.get_all authorization req'.headers
          ≡ with_value v (http.headers.get_all authorization req.headers))
      × ((name : String)
          → (authorization == name) ≡ false
          → http.headers.get_all name req'.headers ≡ http.headers.get_all name req.headers)
      × ((other : Scheme) → apply other req' ≡ some req')

  module _ (law : IsHeaderMap http.headers) where
    absent :
        (h : H)
        → http.headers.contains_key authorization h ≡ false
        → http.headers.get_all authorization h ≡ []
    absent h e =
        of_list (http.headers.get_all authorization h)
          (sym (law.contains_key_lem authorization h) ∙ e)
      where
        of_list :
            (vs : List String)
            → elim vs as (λ _. Bool) [ [] ↦ false | _ ∷ _ ↦ true ] ≡ false
            → vs ≡ []
        of_list [] e' = refl
        of_list (v ∷ vs) e' = cc

    present :
        (h : H) (v : String) (vs : List String)
        → http.headers.get_all authorization h ≡ v ∷ vs
        → http.headers.contains_key authorization h ≡ true
    present h v vs e =
        law.contains_key_lem authorization h
        ∙ ap (λ l. elim l as (λ _. Bool) [ [] ↦ false | _ ∷ _ ↦ true ]) e

    apply_present :
        {B : Type 0} (other : Scheme) (req : Request H B)
        → http.headers.contains_key authorization req.headers ≡ true
        → apply other req ≡ some req
    unfolding authenticate_bearer authenticate_basic authenticate authorize
    apply_present (bearer auth) req e = rw e
    apply_present (basic auth) req e = rw e
    apply_present (b2 auth) req e = rw e
    apply_present (b2_request auth) req e = rw e

    kept-IsAuthorized :
        {B : Type 0} (value : Option String) (req : Request H B)
        → http.headers.contains_key authorization req.headers ≡ true
        → IsAuthorized value req (some req)
    kept-IsAuthorized value req e = (
      λ v _. sym (
          of_list v (http.headers.get_all authorization req.headers)
            (sym (law.contains_key_lem authorization req.headers) ∙ e)),
      λ name _. refl,
      λ other. apply_present other req e,
    )
      where
        of_list :
            (v : String) (vs : List String)
            → elim vs as (λ _. Bool) [ [] ↦ false | _ ∷ _ ↦ true ] ≡ true
            → with_value v vs ≡ vs
        of_list v [] e' = cc
        of_list v (x ∷ xs) e' = refl

    -- a request whose headers have the value alone
    given-IsAuthorized :
        {B : Type 0} (v : String) (req : Request H B) (h : H)
        → http.headers.contains_key authorization req.headers ≡ false
        → http.headers.get_all authorization h ≡ v ∷ []
        → ((name : String)
            → (authorization == name) ≡ false
            → http.headers.get_all name h ≡ http.headers.get_all name req.headers)
        → IsAuthorized (some v) req (some (record req { headers = h }))
    given-IsAuthorized v req h e has same = (
      λ u vu. has ∙ (rw (absent req.headers e) (ap (λ t. t ∷ []) (some_inj.0 vu))),
      same,
      λ other. apply_present other (record req { headers = h }) (present h v [] has),
    )

    appended-IsAuthorized :
        {B : Type 0} (value : Option String) (req : Request H B)
        → http.headers.contains_key authorization req.headers ≡ false
        → IsAuthorized value req (append_authorization http value req)
    unfolding append_authorization
    appended-IsAuthorized none req e = (refl, absent req.headers e)
    appended-IsAuthorized (some v) req e =
        given-IsAuthorized v req (http.headers.append authorization v req.headers) e
          (law.get_all-append authorization authorization v req.headers ∙ rw (absent req.headers e))
          (λ name other. law.get_all-append authorization name v req.headers ∙ rw other)

    inserted-IsAuthorized :
        {B : Type 0} (value : Option String) (req : Request H B)
        → http.headers.contains_key authorization req.headers ≡ false
        → IsAuthorized value req (insert_authorization http value req)
    unfolding insert_authorization
    inserted-IsAuthorized none req e = (refl, absent req.headers e)
    inserted-IsAuthorized (some v) req e =
        given-IsAuthorized v req (http.headers.insert authorization v req.headers) e
          (law.get_all-insert authorization authorization v req.headers)
          (λ name other. law.get_all-insert authorization name v req.headers ∙ rw other)

    -- A request that is authenticated with a bearer token, with basic credentials or with the
    -- authorization of B2 has an `Authorization` header afterwards: its own, if it had one, and else
    -- that of the token or the credentials alone. No other header changes, and none of the three then
    -- changes the request again. It panics only where the request has no header and what it is
    -- authenticated with makes none.
    pub apply-IsAuthorized :
        {B : Type 0} (scheme : Scheme) (req : Request H B)
        → IsAuthorized (value_of scheme) req (apply scheme req)
    unfolding authenticate_bearer authenticate_basic authenticate authorize
    apply-IsAuthorized scheme req =
        elim (Bool-cases (http.headers.contains_key authorization req.headers)) [
          | inl e ↦ rw (apply_present scheme req e) (kept-IsAuthorized (value_of scheme) req e)
          | inr e ↦ added scheme e
        ]
      where
        added :
            (s : Scheme)
            → http.headers.contains_key authorization req.headers ≡ false
            → IsAuthorized (value_of s) req (apply s req)
        added (bearer auth) e = rw e (appended-IsAuthorized (bearer_value http auth) req e)
        added (basic auth) e = rw e (appended-IsAuthorized _ req e)
        added (b2 auth) e = rw e (inserted-IsAuthorized _ req e)
        added (b2_request auth) e = rw e (inserted-IsAuthorized _ req e)
