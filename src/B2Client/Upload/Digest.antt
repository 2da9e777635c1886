-- ===== src/B2Client/Upload/Digest.antt =====
-- `FileDigest` and `digest` of services/b2-client/src/upload.rs. A reader is what its successive reads
-- give, and then its end; the hasher holds what it was given.
use emporium.Prelude.{
  ℕ, zero, suc, ◌+◌, ◌≡◌, refl, ◌∙◌, ap, ◌≤◌, String, List, [], ◌∷◌, ◌++◌, Result, ok, err, map_ok,
  arith, length, take, drop, length-append, length-drop-le, take-append-drop,
}
use mathlib.Core.List.{append_assoc, append-nil}
use emporium.StorageDriver.{Bytes}

pub record FileDigest : Type 0 where
  pub digest : Bytes
  pub content_length : ℕ

abbrev pub Reads : Type 0
Reads = List (Result Bytes String)

module _ (sha1 : Bytes → Bytes) where
  -- the loop of `digest`, with what was hashed and its length so far
  unfoldable pub digest_loop : Reads → Bytes → ℕ → Result FileDigest String
  digest_loop [] hashed n = ok (record { digest = sha1 hashed; content_length = n })
  digest_loop (err e ∷ reads) hashed n = err e
  digest_loop (ok [] ∷ reads) hashed n = ok (record { digest = sha1 hashed; content_length = n })
  digest_loop (ok (b ∷ bs) ∷ reads) hashed n =
      digest_loop reads (hashed ++ (b ∷ bs)) (n + length (b ∷ bs))

  -- `digest`
  unfoldable pub digest : Reads → Result FileDigest String
  unfolding digest_loop
  digest reads = digest_loop reads [] 0

-- `impl Read for &[u8]`, with a buffer of 1024 bytes
chunk_reads : ℕ → Bytes → Reads
chunk_reads zero bytes = []
chunk_reads (suc fuel) bytes = ok (take 1024 bytes) ∷ chunk_reads fuel (drop 1024 bytes)

unfoldable pub slice_reads : Bytes → Reads
unfolding chunk_reads
slice_reads bytes = chunk_reads (length bytes) bytes

-- what a reader gives until its end, as an empty read is
abbrev pub content : Reads → Result Bytes String
content [] = ok []
content (err e ∷ reads) = err e
content (ok [] ∷ reads) = ok []
content (ok (b ∷ bs) ∷ reads) = map_ok (λ rest. (b ∷ bs) ++ rest) (content reads)

module _ (sha1 : Bytes → Bytes) where
  abbrev sum_of : Bytes → FileDigest
  sum_of bytes = record { digest = sha1 bytes; content_length = length bytes }

  digest_loop_lem :
      (reads : Reads) (hashed : Bytes)
      → digest_loop sha1 reads hashed (length hashed)
        ≡ map_ok (λ rest. sum_of (hashed ++ rest)) (content reads)
  unfolding digest_loop
  digest_loop_lem [] hashed = simp append-nil
  digest_loop_lem (err e ∷ reads) hashed = refl
  digest_loop_lem (ok [] ∷ reads) hashed = simp append-nil
  digest_loop_lem (ok (b ∷ bs) ∷ reads) hashed =
      rw (← (length-append hashed (b ∷ bs)))
        (digest_loop_lem reads (hashed ++ (b ∷ bs)) ∙ shifted hashed (b ∷ bs) (content reads))
    where
      shifted :
          (xs ys : Bytes) (r : Result Bytes String)
          → map_ok (λ rest. sum_of ((xs ++ ys) ++ rest)) r
            ≡ map_ok (λ rest. sum_of (xs ++ rest)) (map_ok (λ rest. ys ++ rest) r)
      shifted xs ys (ok rest) = rw append_assoc
      shifted xs ys (err e) = refl

  -- Whatever sizes the reads have, `digest` gives the SHA-1 and the length of all that was read
  -- until the end, or the error of a read before it.
  pub digest-content :
      (reads : Reads)
      → digest sha1 reads
        ≡ map_ok (λ b. record { digest = sha1 b; content_length = length b }) (content reads)
  unfolding digest
  digest-content reads = digest_loop_lem reads []

content-chunk_reads : (fuel : ℕ) (b : Bytes) → length b ≤ fuel → content (chunk_reads fuel b) ≡ ok b
unfolding chunk_reads
content-chunk_reads zero [] h = refl
content-chunk_reads zero (b ∷ bs) h = absurd (omega arith)
content-chunk_reads (suc fuel) [] h = refl
content-chunk_reads (suc fuel) (b ∷ bs) h =
    ap (map_ok (λ rest. (b ∷ take 1023 bs) ++ rest))
      (content-chunk_reads fuel (drop 1023 bs) (omega (arith, length-drop-le 1023 bs)))
    ∙ ap (λ t. ok (b ∷ t)) (take-append-drop 1023 bs)

pub digest-slice_reads :
    (sha1 : Bytes → Bytes) (b : Bytes)
    → digest sha1 (slice_reads b) ≡ ok (record { digest = sha1 b; content_length = length b })
unfolding slice_reads
digest-slice_reads sha1 b =
    digest-content sha1 (slice_reads b) ∙ rw (content-chunk_reads (length b) b (omega arith))
