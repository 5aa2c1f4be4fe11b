-- ===== src/Upload/Session.antt =====
-- Upload sessions, their part file and the three views on them (backend/apps/images/models.py,
-- storage_backend.py, views.py). Bytes and the characters of checksums are numbers; the digest of
-- a file is a parameter.
use node_pilot.Common.{
  ℕ, suc, ◌+◌, Bool, true, false, not, ◌&&◌, Option, none, some, List, [], ◌∷◌, ◌++◌, map, length,
  or_else, if◌then◌else◌, leb, ◌==◌,
}
use node_pilot.Common.Error.{
  Error, upload_empty, upload_size_mismatch, checksum_mismatch, upload_out_of_order,
}
use node_pilot.Common.Exec.{Result, ok, err}

pub data UploadStatus : Type 0 where
  uploading completed failed aborted : UploadStatus

pub data ImageStatus : Type 0 where
  pending uploading verifying ready failed : ImageStatus

abbrev pub Bytes : Type 0
Bytes = List ℕ

pub record ImageUploadSession : Type 0 where
  pub total_size_bytes : ℕ
  pub received_bytes : ℕ
  pub next_chunk_index : ℕ
  pub expected_sha256 : Bytes
  pub status : UploadStatus
  pub error : Option Error

pub record Image : Type 0 where
  pub size_bytes : ℕ
  pub sha256 : Bytes
  pub status : ImageStatus

-- The rows of a session and of its image, and their files: `temp_path` and `final_path`.
pub record Site : Type 0 where
  pub session : ImageUploadSession
  pub image : Image
  pub part : Option Bytes
  pub final : Option Bytes

-- What the views answer.
pub data Response : Type 0 where
  upload_not_active no_body upload_busy no_content : Response
  raised : Error → Response
  accepted : ℕ → ℕ → ℕ → Response
  image_data : Image → Response

abbrev pub is_uploading : UploadStatus → Bool
is_uploading UploadStatus.uploading = true
is_uploading _ = false

abbrev pub is_completed : UploadStatus → Bool
is_completed completed = true
is_completed _ = false

-- `write_chunk` with the view's session object, `save(update_fields=…)` included.
unfoldable pub write_chunk : ImageUploadSession → ℕ → Bytes → Site → Response × Site
write_chunk session index body site =
    if not (index == session.next_chunk_index) then (raised upload_out_of_order, site) else (
      accepted (session.received_bytes + length body) (suc session.next_chunk_index) (length body),
      record site {
        part = some (or_else site.part [] ++ body);
        session = record (site.session) {
          received_bytes = session.received_bytes + length body;
          next_chunk_index = suc session.next_chunk_index;
        };
      },
    )

-- The file in the body of a request, which has at least one byte.
pub record Chunk : Type 0 where
  pub first : ℕ
  pub rest : Bytes

abbrev pub bytes_of : Chunk → Bytes
bytes_of chunk = chunk.first ∷ chunk.rest

-- `ChunkUploadView.put`, from the session object that it loaded, before it asked for the lock, to
-- the end; `busy` says that another request holds the lock.
unfoldable pub put_chunk :
    ImageUploadSession → Bool → Option ℕ → Option Chunk → Site → Response × Site
unfolding write_chunk
put_chunk session busy index none site =
    if not (is_uploading session.status) then (upload_not_active, site) else (no_body, site)
put_chunk session busy index (some body) site =
    if not (is_uploading session.status)
    then (upload_not_active, site)
    else if busy
    then (upload_busy, site)
    else write_chunk session (or_else index session.next_chunk_index) (bytes_of body) site

-- Text equality, and `.lower()` on ASCII.
unfoldable pub same_text : Bytes → Bytes → Bool
same_text [] [] = true
same_text (a ∷ xs) (b ∷ ys) = a == b && same_text xs ys
same_text _ _ = false

unfoldable pub lower : ℕ → ℕ
lower c = if leb 65 c && leb c 90 then c + 32 else c

abbrev pub is_blank : Bytes → Bool
is_blank [] = true
is_blank _ = false

module _ (digest : Bytes → Bytes) where
  -- `finalize_upload`: the checksum and the size, with the file moved.
  unfoldable pub finalize_upload : Site → Result (Bytes × ℕ) × Site
  unfolding same_text lower
  finalize_upload site = elim site.part [
    | none ↦ (err upload_empty, site)
    | some source ↦
        if not (length source == site.session.total_size_bytes)
        then (err upload_size_mismatch, site)
        else if not (is_blank site.session.expected_sha256)
            && not (same_text (map lower site.session.expected_sha256) (digest source))
        then (err checksum_mismatch, site)
        else (ok (digest source, length source), record site { part = none; final = some source })
  ]

  -- `FinalizeUploadView.post`
  unfoldable pub post_finalize : Site → Response × Site
  unfolding finalize_upload
  post_finalize site =
      if is_completed site.session.status
      then (image_data site.image, site)
      else if not (is_uploading site.session.status)
      then (upload_not_active, site)
      else (let (result, after) = finalize_upload site in
          elim result [
            | err e ↦ (
              raised e,
              record after {
                session = record (after.session) { status = UploadStatus.failed; error = some e };
                image = record (after.image) { status = ImageStatus.failed };
              },
            )
            | ok (checksum, size) ↦
                (let image : Image = record {
                  size_bytes = size;
                  sha256 = checksum;
                  status = ready;
                } in
                  (
                    image_data image,
                    record after {
                      session = record (after.session) { status = completed };
                      image = image;
                    },
                  ))
          ])

-- `AbortUploadView.post`
unfoldable pub post_abort : Site → Response × Site
post_abort site = (
  no_content,
  record site {
    part = none;
    session = record (site.session) { status = aborted };
    image = record (site.image) { status = ImageStatus.failed };
  },
)
