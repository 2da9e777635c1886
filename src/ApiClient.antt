-- ===== src/ApiClient.antt =====
-- The crate `api-client`: URIs, requests and responses, authentication, the client that sends them, the
-- retry policies and the stream over a paginated response.
pub mod Http
pub mod Uri
pub mod Authentication
pub mod Response
pub mod Client
pub mod Retry
pub mod Paginate
