-- ===== src/B2Client/Download.antt =====
-- services/b2-client/src/download.rs: the URL of a file, and the stream of its bytes
use emporium.Prelude.{ℕ, String, Option, none, some, List, [], ◌∷◌, Result, ok, err}
use emporium.Prelude.Actions.{Action, pure, unwrap, ◌>>=◌}
use emporium.Std.Path.{FilePath, normal, push}
use emporium.Std.Path.Display.{to_text}
use emporium.ApiClient.Http.{Method, Uri, Request}
use emporium.ApiClient.Authentication.{authorization}
use emporium.ApiClient.Uri.{join}
use emporium.ApiClient.Client.Builder.{RequestParts, header_of, with_body}
use emporium.B2Client.Types.{Body, empty}
use emporium.B2Client.Errors.{B2RequestError, handle_errors}
use emporium.B2Client.Remote.{Service, World, send}

-- `Utf8PathBuf::extend` with the components of a path
unfoldable pub extend : FilePath → FilePath → FilePath
unfolding push
extend path [] = path
extend path (c ∷ components) = extend (push path (c ∷ [])) components

-- `base.push(bucket)` and `path.extend(filename)`
unfoldable pub download_path : String → FilePath → FilePath
unfolding extend push
download_path bucket filename = extend (push (normal "file" ∷ []) (normal bucket ∷ [])) filename

-- a request that was built, or a panic
unfoldable pub built : {H B : Type 0} → Result (Request H B) String → Option (Request H B)
built (ok req) = some req
built (err _) = none

module _ {H S : Type 0} (env : Service H S) where
  -- `B2Client::b2_download_file_by_name_url`
  unfoldable pub b2_download_file_by_name_url : String → FilePath → World S → Option Uri
  unfolding download_path to_text join
  b2_download_file_by_name_url bucket filename w =
      join env.http w.b2.client.authentication.download_url
        (to_text (download_path bucket filename))

  -- the request for a URL
  unfoldable pub download_request : Uri → World S → Option (Request H Body)
  unfolding header_of with_body built
  download_request url w =
      let parts : RequestParts H =
        ok (record { method = Method.get; uri = url; headers = env.http.headers.empty }) in
      built (
        with_body
          (header_of env.http authorization w.b2.client.authentication.authorization_token.revealed
            parts)
          empty)

  -- `B2Client::b2_download_file_by_name`; the stream is what reading it gives
  unfoldable pub b2_download_file_by_name :
      String → FilePath → Action (World S) (Result (List ℕ) String) B2RequestError
  unfolding b2_download_file_by_name_url download_request send handle_errors
  b2_download_file_by_name bucket filename w =
      (do
        url ← unwrap (b2_download_file_by_name_url bucket filename w)
        req ← unwrap (download_request url w)
        resp ← send env req
        resp ← handle_errors env.reading resp
        pure resp.body)
        w
