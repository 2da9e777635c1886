-- ===== src/B2Client/Upload/Multipart.antt =====
-- An upload in parts, of services/b2-client/src/upload.rs, against one that is given the pieces.
use emporium.Prelude.{
  ℕ, zero, suc, ◌≡◌, refl, Bool, true, false, List, [], ◌∷◌, map, Result, ok, err, length,
  if◌then◌else◌,
}
use emporium.Prelude.Actions.{Action, Fault, pure, attempt, settle, ◌>>=◌}
use emporium.StorageDriver.{Bytes}
use emporium.B2Client.Types.{FileId}
use emporium.B2Client.Errors.{B2RequestError}
use emporium.B2Client.Remote.{Service, World}
use emporium.B2Client.Upload.Digest.{FileDigest, digest-slice_reads}
use emporium.B2Client.Upload.Uploader.{B2Uploader, b2_get_upload_part_url, b2_upload_part}
use emporium.B2Client.Upload.Large.{
  Outcome, part_task, part_attempts, or_again, sleep, is_unavailable, join_all,
}
use emporium.B2Client.Upload.Parts.{upload_chunks}

-- a property of the value, if there is one
abbrev pub Ensures : {A : Type 0} → (A → Type 0) → Result A (Fault B2RequestError) → Type 0
Ensures P (ok a) = P a
Ensures P (err e) = Unit

module _ {T A : Type 0} (P : A → Type 0) where
  bind-Ensures :
      {B : Type 0} (m : Action T B B2RequestError) (f : B → Action T A B2RequestError) (t : T)
      → ((b : B) (u : T) → Ensures P (f b u).0)
      → Ensures P ((m >>= f) t).0
  bind-Ensures {B} m f t h = split (m t)
    where
      split : (p : Result B (Fault B2RequestError) × T) → Ensures P (((λ _. p) >>= f) t).0
      split (ok b, u) = h b u
      split (err e, u) = tt

  -- the same, where something is known of the first value
  bind-Ensures_of :
      {B : Type 0} (Q : B → Type 0) (m : Action T B B2RequestError)
      (f : B → Action T A B2RequestError) (t : T)
      → Ensures Q (m t).0
      → ((b : B) (u : T) → Q b → Ensures P (f b u).0)
      → Ensures P ((m >>= f) t).0
  bind-Ensures_of {B} Q m f t q h = split (m t) q
    where
      split :
          (p : Result B (Fault B2RequestError) × T)
          → Ensures Q p.0
          → Ensures P (((λ _. p) >>= f) t).0
      split (ok b, u) q' = h b u q'
      split (err e, u) q' = tt

  or_again-Ensures :
      (a : A) (again : Action T A B2RequestError) (r : Result (Unit {0}) (Fault B2RequestError))
      (t : T)
      → P a
      → ((u : T) → Ensures P (again u).0)
      → Ensures P (or_again a again r t).0
  unfolding or_again
  or_again-Ensures a again (ok _) t p h = p
  or_again-Ensures a again (err fault) t p h = by_test (is_unavailable fault)
    where
      by_test : (b : Bool) → Ensures P ((if b then again else settle (err fault)) t).0
      by_test true = h t
      by_test false = tt

  -- an attempt, and where the service was not available another after a wait with another uploader
  retry-Ensures :
      {U : Type 0} (m : Action T (Unit {0}) B2RequestError)
      (wait : Action T (Unit {0}) B2RequestError) (url : Action T U B2RequestError) (a : A)
      (again : U → Action T A B2RequestError) (t : T)
      → P a
      → ((u : U) (v : T) → Ensures P (again u v).0)
      → Ensures P ((attempt m >>= λ r. or_again a (wait >>= λ _. url >>= again) r) t).0
  retry-Ensures m wait url a again t p h =
      bind-Ensures (attempt m) (λ r. or_again a (wait >>= λ _. url >>= again) r) t
        (λ r v.
          or_again-Ensures a (wait >>= λ _. url >>= again) r v p
            (λ v1. bind-Ensures wait (λ _. url >>= again) v1 (λ _ v2. bind-Ensures url again v2 h)))

-- two actions that go on alike from the values that the first step has
pub bind_same :
    {T A B : Type 0} (Q : B → Type 0) (m : Action T B B2RequestError)
    (f g : B → Action T A B2RequestError) (t : T)
    → Ensures Q (m t).0
    → ((b : B) (u : T) → Q b → f b u ≡ g b u)
    → (m >>= f) t ≡ (m >>= g) t
bind_same {T} {B} Q m f g t q h = split (m t) q
  where
    split :
        (p : Result B (Fault B2RequestError) × T)
        → Ensures Q p.0
        → ((λ _. p) >>= f) t ≡ ((λ _. p) >>= g) t
    split (ok b, u) q' = h b u q'
    split (err e, u) q' = refl

module _ {H S : Type 0} (env : Service H S) where
  -- the digest of a piece
  abbrev pub IsSum : Bytes → FileDigest → Type 0
  IsSum chunk d = d ≡ record { digest = env.sha1 chunk; content_length = length chunk }

  part_attempts-Ensures :
      (left k : ℕ) (uploader : B2Uploader) (file : FileId) (part : ℕ) (buffer : Bytes)
      (sum : FileDigest) (w : World S)
      → IsSum buffer sum
      → Ensures (IsSum buffer) (part_attempts env left k uploader file part buffer sum w).0
  unfolding part_attempts
  part_attempts-Ensures zero k uploader file part buffer sum w h = tt
  part_attempts-Ensures (suc left) k uploader file part buffer sum w h =
      retry-Ensures (IsSum buffer)
        (b2_upload_part env uploader buffer part sum.content_length sum.digest) (sleep env k)
        (b2_get_upload_part_url env file) sum
        (λ again. part_attempts env left (suc k) again file part buffer sum) w h
        (λ again v. part_attempts-Ensures left (suc k) again file part buffer sum v h)

  -- a task that succeeds gives the sum of its piece
  part_task-Ensures :
      (uploader : B2Uploader) (file : FileId) (part : ℕ) (buffer : Bytes) (w : World S)
      → Ensures (IsSum buffer) (part_task env uploader file part buffer w).0
  unfolding part_task
  part_task-Ensures uploader file part buffer w =
      rw (digest-slice_reads env.sha1 buffer, Ensures)
        (part_attempts-Ensures w.b2.uploads.retries 1 uploader file part buffer _ w refl)

  -- the outcomes of the pieces, one for each
  abbrev pub AreSums : List Bytes → List Outcome → Type 0
  AreSums [] [] = Unit
  AreSums (c ∷ cs) (o ∷ os) = Ensures (IsSum c) o × AreSums cs os
  AreSums _ _ = ⊥

  pub upload_chunks-AreSums :
      (part : ℕ) (file : FileId) (cs : List Bytes) (w : World S)
      → Ensures (AreSums cs) (upload_chunks env part file cs w).0
  unfolding upload_chunks
  upload_chunks-AreSums part file [] w = tt
  upload_chunks-AreSums part file (c ∷ cs) w =
      bind-Ensures (AreSums (c ∷ cs)) (b2_get_upload_part_url env file) (pieces cs) w
        (λ uploader w1.
          bind-Ensures_of (AreSums (c ∷ cs)) (Ensures (IsSum c))
            (attempt (part_task env uploader file part c)) (later cs) w1
            (part_task-Ensures uploader file part c w1)
            (λ o w2 sum.
              bind-Ensures_of (AreSums (c ∷ cs)) (AreSums cs) (upload_chunks env (suc part) file cs)
                (λ os. pure (o ∷ os)) w2 (upload_chunks-AreSums (suc part) file cs w2)
                (λ os w3 sums. (sum, sums))))
    where
      later : List Bytes → Outcome → Action (World S) (List Outcome) B2RequestError
      later rest o = upload_chunks env (suc part) file rest >>= λ os. pure (o ∷ os)

      pieces : List Bytes → B2Uploader → Action (World S) (List Outcome) B2RequestError
      pieces rest uploader = attempt (part_task env uploader file part c) >>= later rest

  pub join_all-AreSums :
      {T : Type 0} (cs : List Bytes) (os : List Outcome) (t : T)
      → AreSums cs os
      → Ensures (λ ds. map (λ d. d.digest) ds ≡ map env.sha1 cs) (join_all os t).0
  unfolding join_all
  join_all-AreSums [] [] t h = refl
  join_all-AreSums [] (o ∷ os) t h = elim h [ ]
  join_all-AreSums (c ∷ cs) [] t h = elim h [ ]
  join_all-AreSums (c ∷ cs) (err e ∷ os) t h = tt
  join_all-AreSums (c ∷ cs) (ok d ∷ os) t h =
      bind-Ensures_of (λ ds. map (λ d. d.digest) ds ≡ env.sha1 c ∷ map env.sha1 cs)
        (λ ds. map (λ d. d.digest) ds ≡ map env.sha1 cs) (join_all os) (λ ds. pure (d ∷ ds)) t
        (join_all-AreSums cs os t h.1) (λ ds u e. cc)
