-- ===== src/Tests/Uploads.antt =====
-- The uploads of the client of B2 at a service of the tests.
use emporium.Prelude.{ℕ, ◌≡◌, ◌≤◌, ◌<◌, refl, ap, ◌∙◌, none, ok, List, [], ◌∷◌, length, All}
use mathlib.Core.List.{flatten}
use emporium.B2Client.Remote.{B2Client, World, ask, refresh_authorization}
use emporium.B2Client.Upload.Digest.{FileDigest, Reads, digest, digest-content}
use emporium.B2Client.Upload.Large.{part_attempts, upload_multipart_inner}
use emporium.B2Client.Upload.Parts.{seen}
use emporium.B2Client.Upload.Pieces.{pieces_of, upload_multipart_inner-pieces, upload_pieces}
use emporium.B2Client.Upload.Refused.{part_attempts-once, part_request, sent_once}
use emporium.B2Client.Upload.Uploader.{B2Uploader, b2_upload_part}
use emporium.Tests.Remote.{api, info, secret, service, world}

abbrev five_bytes : List ℕ
five_bytes = 1 ∷ 2 ∷ 3 ∷ 4 ∷ 5 ∷ []

upload_multipart_inner-pieces_example :
    (seen (
        upload_multipart_inner
          (service 200)
          2
          info
          5
          (record { world = world; source = record { bytes = five_bytes; broken = none } }))
      ≡ upload_pieces (service 200) info (pieces_of (service 200) 1 five_bytes) world)
    × (flatten (pieces_of (service 200) 1 five_bytes) ≡ five_bytes)
    × All (λ c. (0 < length c) × (length c ≤ 2)) (pieces_of (service 200) 1 five_bytes)
upload_multipart_inner-pieces_example =
    upload_multipart_inner-pieces (service 200) 1 info five_bytes world

abbrev uploader : B2Uploader
uploader = record { info = record { upload_url = api; authorization_token = secret "upload" } }

abbrev a_sum : FileDigest
a_sum = record { digest = 1 ∷ []; content_length = 1 }

part_attempts-once_example :
    part_attempts (service 503) 5 1 uploader (info.file_id) 1 (9 ∷ []) a_sum world
    ≡ sent_once (service 503) a_sum (part_request (service 503) uploader 1 (9 ∷ []) a_sum) world
part_attempts-once_example =
    part_attempts-once (service 503) 4 1 uploader (info.file_id) 1 (9 ∷ []) a_sum world

-- the answer is that the service is not available, and the part counts as uploaded
refused_part :
    (part_attempts (service 503) 5 1 uploader (info.file_id) 1 (9 ∷ []) a_sum world).0 ≡ ok a_sum
unfolding emporium.B2Client.Upload.Uploader.upload_request emporium.Secret.to_header
    emporium.B2Client.Remote.send
refused_part =
    ap (λ p. p.0)
      (part_attempts-once (service 503) 4 1 uploader (info.file_id) 1 (9 ∷ []) a_sum world)
    ∙ answered
  where
    answered :
        (sent_once
          (service 503)
          a_sum
          (part_request (service 503) uploader 1 (9 ∷ []) a_sum)
          world).0
        ≡ ok a_sum
    answered = refl

-- three reads and a fourth after the end, which is not hashed
abbrev four_reads : Reads
four_reads = ok (1 ∷ 2 ∷ []) ∷ ok (3 ∷ []) ∷ ok [] ∷ ok (4 ∷ []) ∷ []

digest-content_example :
    digest (λ bytes. bytes) four_reads ≡ ok (record { digest = 1 ∷ 2 ∷ 3 ∷ []; content_length = 3 })
digest-content_example = digest-content (λ bytes. bytes) four_reads
