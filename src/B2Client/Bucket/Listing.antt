-- ===== src/B2Client/Bucket/Listing.antt =====
-- `b2_list_file_names` of services/b2-client/src/bucket.rs follows a listing from page to page.
use emporium.Prelude.{
  ℕ, zero, suc, ◌≡◌, refl, ◌∙◌, ◌≤◌, String, Option, none, some, List, [], ◌++◌, Result, ok, err,
  map_ok, arith,
}
use mathlib.Core.List.{append_assoc}
use emporium.Prelude.Actions.{Fault, bind_ok, bind_err}
use emporium.Std.Path.{FilePath}
use emporium.B2Client.Types.{BucketId, FileInfo, FileListBody, FileListResponse, file_list}
use emporium.B2Client.Errors.{B2RequestError}
use emporium.B2Client.Remote.{Service, World, ask}
use emporium.B2Client.Bucket.{first_page, after_page, list_pages, b2_list_file_names}

module _ {H S : Type 0} (env : Service H S) where
  abbrev Files : Type 0
  Files = Result (List FileInfo) (Fault B2RequestError)

  -- the answer to the request for a page
  abbrev pub page_of :
      FileListBody → World S → Result FileListResponse (Fault B2RequestError) × World S
  page_of body = ask env "b2_list_file_names" (file_list body) env.json.file_list

  -- What the service answers from a page on: the files of that page and of those after it, as long as
  -- each names the next, or the fault of the first that cannot be had; and how many pages that were.
  pub data Listed : FileListBody → World S → Files → World S → ℕ → Type 0 where
    last :
        (body : FileListBody) (w v : World S) (page : FileListResponse)
        → page_of body w ≡ (ok page, v)
        → page.next_file_name ≡ none
        → Listed body w (ok page.files) v 1
    more :
        (body : FileListBody) (w v u : World S) (page : FileListResponse) (name : FilePath)
        (rest : Files) (n : ℕ)
        → page_of body w ≡ (ok page, v)
        → page.next_file_name ≡ some name
        → Listed (record body { start_file_name = some name }) v rest u n
        → Listed body w (map_ok (λ files. page.files ++ files) rest) u (suc n)
    no_page :
        (body : FileListBody) (w v : World S) (fault : Fault B2RequestError)
        → page_of body w ≡ (err fault, v)
        → Listed body w (err fault) v 1

  list_pages-Listed :
      (fuel : ℕ) (body : FileListBody) (infos : List FileInfo) (w u : World S) (r : Files) (n : ℕ)
      → Listed body w r u n
      → n ≤ fuel
      → list_pages env fuel body infos w ≡ (map_ok (λ files. infos ++ files) r, u)
  unfolding list_pages after_page
  list_pages-Listed zero body infos w u r n (last b w' v page e next) h = absurd (omega arith)
  list_pages-Listed zero body infos w u r n (more b w' v u' page name rest m e next l) h =
      absurd (omega arith)
  list_pages-Listed zero body infos w u r n (no_page b w' v fault e) h = absurd (omega arith)
  list_pages-Listed (suc fuel) body infos w u r n (last b w' v page e next) h =
      bind_ok (page_of body) (after_page (list_pages env fuel) body infos) e ∙ rw next
  list_pages-Listed (suc fuel) body infos w u r n (more b w' v u' page name rest m e next l) h =
      bind_ok (page_of body) (after_page (list_pages env fuel) body infos) e
      ∙ rw next (
          list_pages-Listed fuel (record body { start_file_name = some name }) (infos ++ page.files)
            v u rest m l (omega arith)
          ∙ after rest)
    where
      after :
          (r' : Files)
          → ◌≡◌ {A = Files × World S}
              (map_ok (λ files. (infos ++ page.files) ++ files) r', u)
              (map_ok (λ files. infos ++ files) (map_ok (λ files. page.files ++ files) r'), u)
      after (ok files) = rw append_assoc
      after (err fault) = refl
  list_pages-Listed (suc fuel) body infos w u r n (no_page b w' v fault e) h =
      bind_err (page_of body) (after_page (list_pages env fuel) body infos) e

  -- However many pages a listing has, up to the bound, `b2_list_file_names` gives the files of all of
  -- them in the order of the service, or the fault of the first page that cannot be had.
  pub b2_list_file_names-Listed :
      (bucket : BucketId) (prefix delimiter : Option String) (w u : World S) (r : Files) (n : ℕ)
      → Listed (first_page bucket prefix delimiter) w r u n
      → n ≤ env.pages
      → b2_list_file_names env bucket prefix delimiter w ≡ (r, u)
  unfolding b2_list_file_names
  b2_list_file_names-Listed bucket prefix delimiter w u r n l h =
      list_pages-Listed env.pages (first_page bucket prefix delimiter) [] w u r n l h ∙ whole r
    where
      whole : (r' : Files) → ◌≡◌ {A = Files × World S} (map_ok (λ files. [] ++ files) r', u) (r', u)
      whole (ok files) = refl
      whole (err fault) = refl
