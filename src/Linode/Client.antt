-- ===== src/Linode/Client.antt =====
-- `LinodeClient` of services/linode/src/lib.rs. The items of a paginated stream are given as the list
-- that it yields.
use emporium.Prelude.{
  ℕ, String, ◌&&◌, Option, none, some, List, [], ◌∷◌, Result, ok, err, map, map_err, map_ok, ◌==◌,
  string_eq, if◌then◌else◌,
}
use emporium.Prelude.Actions.{Action, pure, fail, unwrap, lift, map_fail, ◌>>=◌}
use emporium.Std.Text.{◌<>◌}
use emporium.Std.Num.{to_decimal}
use emporium.Secret.{Secret}
use emporium.ApiClient.Http.{
  Http, Method, get, put, post, delete, Uri, Request, HttpResponse, ClientError,
}
use emporium.ApiClient.Authentication.{BearerAuth, Authentication, authenticate_bearer}
use emporium.ApiClient.Client.{ApiClient, new_bearer_auth, execute}
use emporium.ApiClient.Client.Builder as Builder
use emporium.ApiClient.Response.{Error, is_success, text_of, response_body, request_builder}
use emporium.Linode.Types.{
  ErrorResponse, LinodeApiError, new_api_error, RecordType, type_to_string, Domain, RecordId,
  GetDomainRecord, Record, new_record, CreateDomainRecord, UpdateDomainRecord, SubDomain,
  with_domain, sub_domain_is,
}
use emporium.Linode.Ttl.{serialize_ttl}

-- `LinodeError`
pub data LinodeError : Type 0 where
  api_error : LinodeApiError → LinodeError
  request : Error → LinodeError
  serde : String → LinodeError
  not_found : String → String → LinodeError
  domain_mismatch : ℕ → RecordId → LinodeError

-- the JSON that is sent
pub data Content : Type 0 where
  no_content : Content
  create_record : CreateDomainRecord → Content
  update_record : UpdateDomainRecord → Content

-- Linode, whose state is an `S`, and the parsers
pub record Service (H S : Type 0) : Type 0 where
  pub http : Http H
  pub parse_uri : String → Option Uri
  pub send : Request H Content → Action S (HttpResponse H) ClientError
  pub from_utf8 : List ℕ → Result String String
  pub read_errors : String → Result ErrorResponse String
  pub read_domain : String → Result Domain String
  pub read_record : String → Result GetDomainRecord String
  pub read_empty : String → Result (Unit {0}) String

-- `LinodeClient`
pub record LinodeClient : Type 0 where
  pub inner : ApiClient BearerAuth

-- the item of a stream, with the error of the stream as the client's
unfoldable pub stream_error : {A : Type 0} → Result A String → Result A LinodeError
stream_error (err e) = err (request (response_body e))
stream_error (ok a) = ok a

-- `get_linode_domain`, from the items of `domains` on
unfoldable pub find_domain :
    String → List (Result Domain String) → Result (Option Domain) LinodeError
find_domain name [] = ok none
find_domain name (err e ∷ items) = err (request (response_body e))
find_domain name (ok domain ∷ items) =
    if domain.name == name then ok (some domain) else find_domain name items

-- `list_linode_domain_records`, from the items of `domains/{id}/records` on
unfoldable pub domain_records :
    Domain → List (Result GetDomainRecord String) → List (Result Record LinodeError)
unfolding stream_error new_record
domain_records domain items =
    map (λ r. map_ok (λ get. new_record get domain.id) (stream_error r)) items

-- `get_linode_domain_record`, from those records on: errors are passed over, and types are compared by
-- their texts, which differ
unfoldable pub find_record :
    RecordType → SubDomain → List (Result Record LinodeError) → Option Record
unfolding sub_domain_is type_to_string
find_record type name [] = none
find_record type name (err e ∷ items) = find_record type name items
find_record type name (ok r ∷ items) =
    if sub_domain_is name r.name && type_to_string r.type_of == type_to_string type
    then some r
    else find_record type name items

unfoldable pub domain_url : ℕ → String
domain_url id = "domains/" <> to_decimal id <> "/"

unfoldable pub records_url : ℕ → String
records_url id = "domains/" <> to_decimal id <> "/records"

unfoldable pub record_url : RecordId → String
record_url id = "domains/" <> to_decimal id.domain <> "/records/" <> to_decimal id.record_id

module _ {H S : Type 0} (env : Service H S) where
  -- `LinodeClient::new`
  unfoldable pub new : Secret → Option LinodeClient
  unfolding new_bearer_auth
  new token = elim (env.parse_uri "https://api.linode.com/v4/") [
    | none ↦ none
    | some base ↦ some (record { inner = new_bearer_auth base token })
  ]

  -- the text of a response, or the errors that it lists
  unfoldable pub text_or_errors : ℕ → String → Action S String LinodeError
  unfolding is_success new_api_error
  text_or_errors status body =
      if is_success status
      then pure body
      else lift (map_err serde (env.read_errors body)) >>= λ errors.
          fail (api_error (new_api_error status errors))

  bearer_authentication : Authentication BearerAuth H Content
  unfolding authenticate_bearer
  bearer_authentication = record { authenticate = authenticate_bearer env.http }

  -- `LinodeClient::execute`
  unfoldable pub execute_request : LinodeClient → Request H Content → Action S String LinodeError
  unfolding bearer_authentication execute text_of text_or_errors
  execute_request client req = do
    resp ← map_fail request (execute bearer_authentication env.send client.inner req)
    body ← lift (map_err (λ e. request (response_body e)) (text_of env.from_utf8 resp.body))
    text_or_errors resp.response.status body

  -- `LinodeClient::execute_and_deserialize`
  unfoldable pub execute_and_deserialize :
      {T : Type 0}
      → (String → Result T String)
      → LinodeClient
      → Builder.RequestBuilder H Content
      → Action S T LinodeError
  unfolding execute_request Builder.build
  execute_and_deserialize read client builder = do
    req ← lift (map_err (λ e. request (request_builder e)) (Builder.build no_content builder))
    body ← execute_request client req
    lift (map_err serde (read body))

  -- `LinodeClient::get` and `LinodeClient::delete`
  unfoldable pub call :
      {T : Type 0}
      → Method
      → (String → Result T String)
      → LinodeClient
      → String
      → Action S T LinodeError
  unfolding execute_and_deserialize Builder.request_to
  call method read client endpoint = do
    builder ← unwrap (Builder.request_to env.http method client.inner endpoint)
    execute_and_deserialize read client builder

  -- `LinodeClient::post` and `LinodeClient::put`
  unfoldable pub call_with :
      {T : Type 0}
      → Method
      → (String → Result T String)
      → LinodeClient
      → String
      → Content
      → Action S T LinodeError
  unfolding execute_and_deserialize Builder.request_to Builder.json
  call_with method read client endpoint content = do
    builder ← unwrap (Builder.request_to env.http method client.inner endpoint)
    filled ← lift (map_err request (Builder.json env.http (ok content) builder))
    execute_and_deserialize read client filled

  -- `get_linode_domain_by_id`
  unfoldable pub get_linode_domain_by_id : LinodeClient → ℕ → Action S Domain LinodeError
  unfolding call domain_url
  get_linode_domain_by_id client id = call get env.read_domain client (domain_url id)

  -- `create_linode_domain_record`, with a lifetime of an hour
  unfoldable pub create_linode_domain_record :
      LinodeClient → Domain → RecordType → SubDomain → String → Action S Record LinodeError
  unfolding call_with records_url with_domain serialize_ttl new_record
  create_linode_domain_record client domain type name target = do
    r ← call_with post env.read_record client (records_url domain.id) (
        create_record (record {
          type_of = type;
          target = target;
          name = with_domain name domain;
          ttl_sec = serialize_ttl 3600;
        }))
    pure (new_record r domain.id)

  -- `set_linode_domain_record`
  unfoldable pub set_linode_domain_record :
      LinodeClient → RecordId → RecordType → SubDomain → String → Action S (Unit {0}) LinodeError
  unfolding get_linode_domain_by_id call_with record_url with_domain
  set_linode_domain_record client id type name target = do
    domain ← get_linode_domain_by_id client id.domain
    _ ←
        call_with put env.read_record client (record_url id) (
          update_record
            (record { type_of = type; target = target; name = with_domain name domain }))
    pure tt

  -- `delete_linode_domain_record`
  unfoldable pub delete_linode_domain_record :
      LinodeClient → RecordId → Action S (Unit {0}) LinodeError
  unfolding call record_url
  delete_linode_domain_record client id = call delete env.read_empty client (record_url id)
