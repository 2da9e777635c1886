-- ===== src/B2Client/Driver/Renewal.antt =====
-- What an upload of services/b2-client/src/client.rs does when its authorization has expired.
use emporium.Prelude.{◌≡◌, refl, ◌∙◌, ap, sym, none, [], ok, err}
use emporium.Prelude.Actions.{failed}
use emporium.Std.Path.{FilePath}
use emporium.StorageDriver.{Bytes}
use emporium.B2Client.Types.{BucketId}
use emporium.B2Client.Errors.{B2Error, expired_auth_token, b2_error}
use emporium.B2Client.Remote.{Service, World, refresh_authorization}
use emporium.B2Client.Upload.Digest.{digest-slice_reads}
use emporium.B2Client.Upload.Large.{Source, Job}
use emporium.B2Client.Upload.Parts.{seen}
use emporium.B2Client.Upload.Single.{
  read_to_end, upload_buffer, upload_inner, upload_reader, with_source,
}
use emporium.B2Client.Driver.{auth, refresh_in_job, upload_source}

abbrev used_up : Source
used_up = record { bytes = []; broken = none }

module _ {H S : Type 0} (env : Service H S) (id : BucketId) (remote : FilePath) where
  -- an upload of some bytes leaves the reader alone
  upload_buffer-source :
      (buffer : Bytes) (w : World S) (s : Source)
      → (upload_buffer env id remote none buffer (record { world = w; source = s })).1.source ≡ s
  unfolding upload_buffer with_source
  upload_buffer-source buffer w s = rw (digest-slice_reads env.sha1 buffer, upload_buffer)

  -- the reader is at its end after an upload of it
  upload_reader-source :
      (bytes : Bytes) (w : World S)
      → (upload_reader env id remote none
          (record { world = w; source = record { bytes = bytes; broken = none } })).1.source
        ≡ used_up
  unfolding upload_reader read_to_end
  upload_reader-source bytes w = upload_buffer-source bytes w used_up

  -- an upload of a reader that is at its end
  upload_reader-used_up :
      (w : World S)
      → seen (upload_reader env id remote none (record { world = w; source = used_up }))
        ≡ seen (
            upload_inner env id remote none 0
              (env.sha1 [])
              (record { world = w; source = used_up }))
  unfolding upload_reader read_to_end upload_buffer with_source
  upload_reader-used_up w = refl

  -- When the authorization turns out to have expired during an upload of a reader, and is renewed,
  -- what is uploaded then is an empty file, whatever the reader held.
  pub upload_source-expired :
      (bytes : Bytes) (w v : World S) (j : Job S) (error : B2Error)
      → upload_reader env id remote none
          (record { world = w; source = record { bytes = bytes; broken = none } })
        ≡ (err (failed (b2_error error)), j)
      → error.code ≡ expired_auth_token
      → refresh_authorization env j.world ≡ (ok tt, v)
      → upload_source env id (record { bytes = bytes; broken = none }) remote w
        ≡ seen (
            upload_inner env id remote none 0
              (env.sha1 [])
              (record { world = v; source = used_up }))
  unfolding upload_source auth refresh_in_job
  upload_source-expired bytes w v j error first expired refreshed = rw first (
      rw expired (
        rw refreshed (
          ap (λ s. seen (upload_reader env id remote none (record { world = v; source = s })))
            (sym (ap (λ p. p.1.source) first) ∙ upload_reader-source bytes w)
          ∙ upload_reader-used_up v)))
