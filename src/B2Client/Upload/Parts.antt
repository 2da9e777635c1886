-- ===== src/B2Client/Upload/Parts.antt =====
-- What `upload_multipart_inner` of services/b2-client/src/upload.rs does with the bytes of its reader.
use emporium.Prelude.{
  ℕ, zero, suc, ◌≡◌, refl, ◌∙◌, ap, Option, none, some, List, [], ◌∷◌, Result, ok, err, take, drop,
}
use emporium.Prelude.Actions.{Action, Fault, pure, attempt, ◌>>=◌}
use emporium.StorageDriver.{Bytes}
use emporium.B2Client.Types.{FileId, FileInfo}
use emporium.B2Client.Errors.{B2RequestError}
use emporium.B2Client.Remote.{Service, World}
use emporium.B2Client.Upload.Uploader.{b2_get_upload_part_url}
use emporium.B2Client.Upload.Large.{
  Job, Outcome, on_world, read_part, part_task, spawn_part, upload_part_inner, upload_parts,
  push_handle,
}

-- the bytes in pieces of a size, the last of which may be shorter
abbrev pub chunks : ℕ → ℕ → Bytes → List Bytes
chunks zero size bytes = []
chunks (suc fuel) size [] = []
chunks (suc fuel) size (b ∷ bs) = take size (b ∷ bs) ∷ chunks fuel size (drop size (b ∷ bs))

chunks-nil : (fuel size : ℕ) → chunks fuel size [] ≡ []
chunks-nil zero size = refl
chunks-nil (suc fuel) size = refl

-- what an action of the job comes to, its reader aside
abbrev pub seen :
    {S A : Type 0}
    → Result A (Fault B2RequestError) × Job S
    → Result A (Fault B2RequestError) × World S
seen p = (p.0, p.1.world)

module _ {S A B : Type 0} where
  -- a value made of the result
  seen-then :
      (M : Action (Job S) A B2RequestError) (p : Result A (Fault B2RequestError) × World S)
      (f : A → B) (j : Job S)
      → seen (M j) ≡ p
      → seen ((M >>= λ a. pure (f a)) j) ≡ ((λ _. p) >>= λ a. pure (f a)) j.world
  seen-then M p f j h = split (M j) ∙ ap (λ q. ((λ _. q) >>= λ a. pure (f a)) j.world) h
    where
      split :
          (q : Result A (Fault B2RequestError) × Job S)
          → seen (((λ _. q) >>= λ a. pure (f a)) j) ≡ ((λ _. seen q) >>= λ a. pure (f a)) j.world
      split (ok a, k) = refl
      split (err e, k) = refl

module _ {S A U O : Type 0} where
  -- two steps of the client in front of what is done with the second's value
  seen-spawned :
      (m : Action (World S) U B2RequestError) (task : U → Action (World S) O B2RequestError)
      (rest : Option O → Action (Job S) A B2RequestError)
      (g : O → Action (World S) A B2RequestError) (j : Job S)
      → ((o : O) (w : World S) → seen (rest (some o) (record j { world = w })) ≡ g o w)
      → seen (((on_world m >>= λ u. on_world (task u) >>= λ o. pure (some o)) >>= rest) j)
        ≡ (m >>= λ u. task u >>= g) j.world
  seen-spawned m task rest g j h = first (m j.world)
    where
      second :
          (q : Result O (Fault B2RequestError) × World S)
          → seen (((on_world (λ _. q) >>= λ o. pure (some o)) >>= rest) j)
            ≡ ((λ _. q) >>= g) j.world
      second (ok o, w) = h o w
      second (err e, w) = refl

      first :
          (p : Result U (Fault B2RequestError) × World S)
          → seen
              (((on_world (λ _. p) >>= λ u. on_world (task u) >>= λ o. pure (some o)) >>= rest) j)
            ≡ ((λ _. p) >>= λ u. task u >>= g) j.world
      first (ok u, w) = second (task u w)
      first (err e, w) = refl

module _ {H S : Type 0} (env : Service H S) where
  -- each piece in order: a URL for it, and its task
  unfoldable pub upload_chunks :
      ℕ → FileId → List Bytes → Action (World S) (List Outcome) B2RequestError
  upload_chunks part file [] = pure []
  upload_chunks part file (chunk ∷ rest) = do
    uploader ← b2_get_upload_part_url env file
    outcome ← attempt (part_task env uploader file part chunk)
    outcomes ← upload_chunks (suc part) file rest
    pure (outcome ∷ outcomes)

  upload_chunks-nil :
      (part other : ℕ) (file : FileId) (w : World S)
      → upload_chunks part file [] w ≡ upload_chunks other file [] w
  unfolding upload_chunks
  upload_chunks-nil part other file w = refl

  pub seen-upload_parts :
      (left part n : ℕ) (info : FileInfo) (bytes : Bytes) (w : World S)
      → seen (
          upload_parts env left part
            (suc n)
            info
            (record { world = w; source = record { bytes = bytes; broken = none } }))
        ≡ upload_chunks part info.file_id (chunks left (suc n) bytes) w
  unfolding upload_parts upload_chunks upload_part_inner read_part spawn_part push_handle
  seen-upload_parts zero part n info bytes w = refl
  seen-upload_parts (suc left) part n info [] w =
      seen-then (upload_parts env left (suc part) (suc n) info)
        (upload_chunks (suc part) info.file_id [] w) (λ handles. handles)
        (record { world = w; source = record { bytes = []; broken = none } })
        (seen-upload_parts left (suc part) n info [] w
          ∙ ap (λ cs. upload_chunks (suc part) info.file_id cs w) (chunks-nil left (suc n)))
  seen-upload_parts (suc left) part n info (b ∷ bs) w =
      let j : Job S = record { world = w; source = record { bytes = drop n bs; broken = none } } in
      seen-spawned (b2_get_upload_part_url env info.file_id)
        (λ uploader. attempt (part_task env uploader info.file_id part (b ∷ take n bs)))
        (λ handle. upload_parts env left (suc part) (suc n) info >>= λ handles.
          pure (push_handle handle handles))
        (λ outcome.
          upload_chunks (suc part) info.file_id (chunks left (suc n) (drop n bs)) >>= λ outcomes.
          pure (outcome ∷ outcomes))
        j
        (λ outcome w2.
          seen-then (upload_parts env left (suc part) (suc n) info) _ (λ handles. outcome ∷ handles)
            (record j { world = w2 }) (seen-upload_parts left (suc part) n info (drop n bs) w2))
