-- ===== src/ApiClient/Client.antt =====
-- api-client/src/lib.rs: the client, which holds a base URI and an authentication, and sends requests
-- through a service that is a parameter. Panics are faults.
pub mod Builder
use emporium.Prelude.{String, Option, Result, ok, err}
use emporium.Prelude.Actions.{Action, Fault, pure, map_fail, ◌>>=◌}
use emporium.ApiClient.Http.{Http, Uri, Request, Parts, HttpResponse, ClientError}
use emporium.ApiClient.Uri.{join}
use emporium.ApiClient.Authentication.{Authentication, BearerAuth, call}
use emporium.ApiClient.Response.{Response, Error, request, new_response}
use emporium.Secret.{Secret}

-- `ApiClient`, as what its locks hold
pub record ApiClient (A : Type 0) : Type 0 where
  pub base : Uri
  pub authentication : A

module _ {A : Type 0} where
  -- `ApiClient::new_with_inner_service`
  unfoldable pub new_with_inner_service : Uri → A → ApiClient A
  new_with_inner_service base authentication = record {
    base = base;
    authentication = authentication;
  }

  -- `ApiClient::set_base`
  unfoldable pub set_base : Uri → ApiClient A → ApiClient A
  set_base base client = record client { base = base }

  -- `ApiClient::refresh_auth`
  unfoldable pub refresh_auth : A → ApiClient A → ApiClient A
  refresh_auth authentication client = record client { authentication = authentication }

-- `ApiClient::new_bearer_auth`
unfoldable pub new_bearer_auth : Uri → Secret → ApiClient BearerAuth
unfolding new_with_inner_service
new_bearer_auth base token = new_with_inner_service base (record { token = token })

-- `RequestExt::parts` of a request
unfoldable pub parts : {H B : Type 0} → Request H B → Parts H
parts req = record { method = req.method; uri = req.uri; headers = req.headers }

-- `ApiClient::join_endpoint`
unfoldable pub join_endpoint : {A H : Type 0} → Http H → ApiClient A → String → Option Uri
unfolding join
join_endpoint http client endpoint = join http client.base endpoint

-- `ApiClient::execute`
unfoldable pub execute :
    {A H B S : Type 0}
    → Authentication A H B
    → (Request H B → Action S (HttpResponse H) ClientError)
    → ApiClient A
    → Request H B
    → Action S (Response H) Error
unfolding parts call new_response
execute scheme service client req = do
  let answered = parts req
  response ← map_fail request (call scheme service client.authentication req)
  pure (new_response answered response)
