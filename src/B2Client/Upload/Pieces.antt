-- ===== src/B2Client/Upload/Pieces.antt =====
-- `upload_multipart_inner` of services/b2-client/src/upload.rs comes to an upload of the pieces of its
-- file, one after the other.
use emporium.Prelude.{
  ℕ, zero, suc, ◌+◌, ◌-◌, ◌/◌, ◌*◌, ◌≡◌, refl, ◌∙◌, ap, ◌≤◌, ◌<◌, none, List, [], ◌∷◌, ◌++◌, map,
  Result, ok, err, arith, All, length, take, drop, length-drop, length-take-le, take-append-drop,
}
use mathlib.Core.List.{flatten}
use emporium.Prelude.Actions.{Action, Fault, pure, ◌>>=◌}
use emporium.StorageDriver.{Bytes}
use emporium.B2Client.Types.{FileInfo}
use emporium.B2Client.Errors.{B2RequestError}
use emporium.B2Client.Remote.{Service, World}
use emporium.B2Client.Upload.Digest.{FileDigest}
use emporium.B2Client.Upload.Uploader.{b2_finish_large_file}
use emporium.B2Client.Upload.Large.{
  Job, Outcome, on_world, join_all, upload_parts, count_parts, upload_multipart_inner,
}
use emporium.B2Client.Upload.Parts.{chunks, seen, seen-upload_parts, upload_chunks}
use emporium.B2Client.Upload.Multipart.{bind_same, AreSums, upload_chunks-AreSums, join_all-AreSums}

module _ {S A B : Type 0} where
  -- a step that comes to `p`, in front of steps that come to the same
  seen-bind :
      (M : Action (Job S) B B2RequestError) (p : Result B (Fault B2RequestError) × World S)
      (F : B → Action (Job S) A B2RequestError) (G : B → Action (World S) A B2RequestError)
      (j : Job S)
      → seen (M j) ≡ p
      → ((b : B) (k : Job S) → seen (F b k) ≡ G b k.world)
      → seen ((M >>= F) j) ≡ ((λ _. p) >>= G) j.world
  seen-bind M p F G j e h = split (M j) ∙ ap (λ q. ((λ _. q) >>= G) j.world) e
    where
      split :
          (q : Result B (Fault B2RequestError) × Job S)
          → seen (((λ _. q) >>= F) j) ≡ ((λ _. seen q) >>= G) j.world
      split (ok b, k) = h b k
      split (err f, k) = refl

seen-join_all :
    {S : Type 0} (os : List Outcome) (j : Job S) → seen (join_all os j) ≡ join_all os j.world
unfolding join_all
seen-join_all [] j = refl
seen-join_all (err e ∷ os) j = refl
seen-join_all (ok d ∷ os) j =
    seen-bind (join_all os) (join_all os j.world) (λ ds. pure (d ∷ ds)) (λ ds. pure (d ∷ ds)) j
      (seen-join_all os j) (λ ds k. refl)

flatten-chunks :
    (fuel n : ℕ) (bytes : Bytes)
    → length bytes ≤ fuel * suc n
    → flatten (chunks fuel (suc n) bytes) ≡ bytes
unfolding flatten
flatten-chunks zero n [] h = refl
flatten-chunks zero n (b ∷ bs) h = absurd (grind arith)
flatten-chunks (suc fuel) n [] h = refl
flatten-chunks (suc fuel) n (b ∷ bs) h =
    ap (λ rest. b ∷ (take n bs ++ rest))
      (flatten-chunks fuel n (drop n bs)
        (smaller (length bs) (length (drop n bs)) (length-drop n bs) h))
    ∙ ap (◌∷◌ b) (take-append-drop n bs)
  where
    smaller : (l d : ℕ) → d ≡ l - n → suc l ≤ suc fuel * suc n → d ≤ fuel * suc n
    smaller l d e k = grind arith

chunks-All :
    (fuel n : ℕ) (bytes : Bytes)
    → All (λ c. (0 < length c) × (length c ≤ suc n)) (chunks fuel (suc n) bytes)
chunks-All zero n bytes = tt
chunks-All (suc fuel) n [] = tt
chunks-All (suc fuel) n (b ∷ bs) =
    ((omega arith, omega (arith, length-take-le n bs)), chunks-All fuel n (drop n bs))

le-parts : (l n : ℕ) → l ≤ (l / suc n + 1) * suc n
le-parts l n = grind arith

module _ {H S : Type 0} (env : Service H S) where
  -- the pieces in order, and the file finished with their digests
  unfoldable pub upload_pieces : FileInfo → List Bytes → Action (World S) (Unit {0}) B2RequestError
  unfolding upload_chunks join_all b2_finish_large_file
  upload_pieces info pieces = do
    outcomes ← upload_chunks env 1 info.file_id pieces
    _ ← join_all outcomes
    b2_finish_large_file env info (map env.sha1 pieces)

  -- as many pieces as the code counts
  abbrev pub pieces_of : ℕ → Bytes → List Bytes
  pieces_of n bytes = chunks (length bytes / suc n + 1) (suc n) bytes

  -- With a part size above 0 and a reader that gives the length it was announced with,
  -- `upload_multipart_inner` comes to uploading the pieces of the file in order, numbered from 1, and
  -- finishing the file with the SHA-1s of the pieces. The pieces make up the file, and each is
  -- neither empty nor longer than the part size.
  pub upload_multipart_inner-pieces :
      (n : ℕ) (info : FileInfo) (bytes : Bytes) (w : World S)
      → (seen (
            upload_multipart_inner env
              (suc n)
              info
              (length bytes)
              (record { world = w; source = record { bytes = bytes; broken = none } }))
          ≡ upload_pieces info (pieces_of n bytes) w)
        × (flatten (pieces_of n bytes) ≡ bytes)
        × All (λ c. (0 < length c) × (length c ≤ suc n)) (pieces_of n bytes)
  unfolding upload_multipart_inner count_parts upload_pieces
  upload_multipart_inner-pieces n info bytes w = (
    seen-bind (upload_parts env (length bytes / suc n + 1) 1 (suc n) info)
          (upload_chunks env 1 info.file_id (pieces_of n bytes) w)
          (λ os. join_all os >>= λ ds. on_world (finish_with ds))
          (λ os. join_all os >>= finish_with)
          (record { world = w; source = record { bytes = bytes; broken = none } })
          (seen-upload_parts env (length bytes / suc n + 1) 1 n info bytes w)
          (λ os k.
            seen-bind (join_all os) (join_all os k.world) (λ ds. on_world (finish_with ds))
              finish_with k (seen-join_all os k) (λ ds k'. refl))
        ∙ bind_same (AreSums env (pieces_of n bytes))
            (upload_chunks env 1 info.file_id (pieces_of n bytes))
            (λ os. join_all os >>= finish_with) (λ os. join_all os >>= λ _. finish) w
            (upload_chunks-AreSums env 1 info.file_id (pieces_of n bytes) w)
            (λ os v sums.
              bind_same (λ ds. map (λ d. d.digest) ds ≡ map env.sha1 (pieces_of n bytes))
                (join_all os) finish_with (λ _. finish) v
                (join_all-AreSums env (pieces_of n bytes) os v sums)
                (λ ds u e. ap (λ shas. b2_finish_large_file env info shas u) e)),
    flatten-chunks (length bytes / suc n + 1) n bytes (le-parts (length bytes) n),
    chunks-All (length bytes / suc n + 1) n bytes,
  )
    where
      finish_with : List FileDigest → Action (World S) (Unit {0}) B2RequestError
      finish_with ds = b2_finish_large_file env info (map (λ d. d.digest) ds)

      finish : Action (World S) (Unit {0}) B2RequestError
      finish = b2_finish_large_file env info (map env.sha1 (pieces_of n bytes))
