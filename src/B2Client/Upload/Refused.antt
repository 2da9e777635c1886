-- ===== src/B2Client/Upload/Refused.antt =====
-- What becomes of a part that the service refuses, in services/b2-client/src/upload.rs.
use emporium.Prelude.{
  ℕ, suc, ◌≡◌, refl, ◌∙◌, false, [], ◌∷◌, map_ok, Option, none, some, Result, ok, err,
}
use emporium.Prelude.Actions.{
  Action, Fault, failed, panicked, diverged, pure, unwrap, map_fail, ◌>>=◌,
}
use emporium.StorageDriver.{Bytes}
use emporium.ApiClient.Http.{Request}
use emporium.ApiClient.Client.{execute}
use emporium.ApiClient.Response.{Error, Response}
use emporium.B2Client.Types.{Body, FileId}
use emporium.B2Client.Errors.{B2RequestError, client_error}
use emporium.B2Client.Application.{b2_authentication}
use emporium.B2Client.Remote.{Service, World, send}
use emporium.B2Client.Upload.Digest.{FileDigest}
use emporium.B2Client.Upload.Uploader.{B2Uploader, upload_request, b2_upload_part}
use emporium.Secret.{to_header}
use emporium.Std.Num.{to_decimal}
use emporium.B2Client.Upload.Large.{is_unavailable, or_again, part_attempts}

-- an outcome that is not that the service was not available
abbrev IsFinal : {A : Type 0} → Result A (Fault B2RequestError) → Type 0
IsFinal (ok a) = Unit
IsFinal (err fault) = is_unavailable fault ≡ false

bind-IsFinal :
    {T A B : Type 0} (m : Action T B B2RequestError) (f : B → Action T A B2RequestError) (t : T)
    → IsFinal (m t).0
    → ((b : B) (u : T) → IsFinal (f b u).0)
    → IsFinal ((m >>= f) t).0
bind-IsFinal {T} {B} m f t first later = split (m t) first
  where
    split : (p : Result B (Fault B2RequestError) × T) → IsFinal p.0 → IsFinal (((λ _. p) >>= f) t).0
    split (ok b, u) h = later b u
    split (err fault, u) h = h

or_again-IsFinal :
    {T A : Type 0} (a : A) (again : Action T A B2RequestError)
    (p : Result (Unit {0}) (Fault B2RequestError) × T) (t : T)
    → IsFinal p.0
    → or_again a again p.0 p.1 ≡ ((λ _. p) >>= λ _. pure a) t
unfolding or_again
or_again-IsFinal a again (ok _, u) t h = refl
or_again-IsFinal a again (err fault, u) t h = rw h

module _ {H S : Type 0} (env : Service H S) where
  -- no error of sending a request is one of the API
  send-IsFinal : (req : Request H Body) (w : World S) → IsFinal (send env req w).0
  unfolding send is_unavailable
  send-IsFinal req w =
      split (execute (b2_authentication env.http) env.serve w.b2.client req w.remote)
    where
      split :
          (q : Result (Response H) (Fault Error) × S)
          → IsFinal (map_fail {S = S} client_error (λ _. q) w.remote).0
      split (ok response, s) = tt
      split (err (failed e), s) = refl
      split (err panicked, s) = refl
      split (err diverged, s) = refl

  sending-IsFinal :
      (o : Option (Request H Body)) (w : World S)
      → IsFinal ((unwrap {E = B2RequestError} o >>= λ req. send env req >>= λ _. pure tt) w).0
  unfolding is_unavailable
  sending-IsFinal none w = refl
  sending-IsFinal (some req) w =
      bind-IsFinal (send env req) (λ _. pure tt) w (send-IsFinal req w) (λ _ _. tt)

  b2_upload_part-IsFinal :
      (uploader : B2Uploader) (buffer : Bytes) (part n : ℕ) (sha : Bytes) (w : World S)
      → IsFinal (b2_upload_part env uploader buffer part n sha w).0
  unfolding b2_upload_part
  b2_upload_part-IsFinal uploader buffer part n sha w = sending-IsFinal _ w

  -- the request that carries a part
  abbrev pub part_request : B2Uploader → ℕ → Bytes → FileDigest → Option (Request H Body)
  part_request uploader part buffer sum =
      upload_request env.http uploader.info
        (("content-length", to_decimal sum.content_length)
          ∷ ("x-bz-part-number", to_decimal part)
          ∷ ("x-bz-content-sha1", env.hex sum.digest)
          ∷ [])
        buffer (to_header env.http.is_header_value uploader.info.authorization_token)

  -- a request sent once: any answer will do
  abbrev pub sent_once :
      {A : Type 0} → A → Option (Request H Body) → Action (World S) A B2RequestError
  sent_once a none w = (err panicked, w)
  sent_once a (some req) w = let (answer, v) = send env req w in (map_ok (λ _. a) answer, v)

  abbrev done : Response H → Action (World S) (Unit {0}) B2RequestError
  done response = pure tt

  sent_once_lem :
      {A : Type 0} (a : A) (o : Option (Request H Body)) (w : World S)
      → ((unwrap {E = B2RequestError} o >>= λ req. send env req >>= done) >>= λ _. pure a) w
        ≡ sent_once a o w
  sent_once_lem a none w = refl
  sent_once_lem {A} a (some req) w = split (send env req w)
    where
      split :
          (p : Result (Response H) (Fault B2RequestError) × World S)
          → ◌≡◌ {A = Result A (Fault B2RequestError) × World S}
              ((((λ _. p) >>= done) >>= λ _. pure a) w)
              (map_ok (λ _. a) p.0, p.1)
      split (ok response, v) = refl
      split (err fault, v) = refl

  -- However many attempts are allowed, a part is sent once, and the response is not looked at: with
  -- an answer of whatever status the part counts as uploaded, and without one the fault of sending
  -- is the part's. It panics where there is no request.
  pub part_attempts-once :
      (left k : ℕ) (uploader : B2Uploader) (file : FileId) (part : ℕ) (buffer : Bytes)
      (sum : FileDigest) (w : World S)
      → part_attempts env (suc left) k uploader file part buffer sum w
        ≡ sent_once sum (part_request uploader part buffer sum) w
  unfolding part_attempts b2_upload_part
  part_attempts-once left k uploader file part buffer sum w =
      or_again-IsFinal sum _
        (b2_upload_part env uploader buffer part sum.content_length sum.digest w) w
        (b2_upload_part-IsFinal uploader buffer part sum.content_length sum.digest w)
      ∙ sent_once_lem sum (part_request uploader part buffer sum) w
