-- ===== src/Upload/Tests.antt =====
-- The upload theorems at a concrete session.
use node_pilot.Common.{◌≡◌, refl, false, none, some, List, [], ◌∷◌, length, or_else}
use node_pilot.Upload.Session.{
  UploadStatus, completed, ImageStatus, ready, Bytes, Chunk, image_data, Site, put_chunk,
  post_finalize,
}
use node_pilot.Upload.Order.{
  joined, put_all, Holds, put_all-Holds, stale_put_duplicates, upload_arrives, checks,
}

abbrev start : Site
start = record {
  session = record {
    total_size_bytes = 5;
    received_bytes = 0;
    next_chunk_index = 0;
    expected_sha256 = [];
    status = UploadStatus.uploading;
    error = none;
  };
  image = record { size_bytes = 0; sha256 = []; status = ImageStatus.uploading };
  part = none;
  final = none;
}

abbrev first_chunk : Chunk
first_chunk = record { first = 1; rest = 2 ∷ 3 ∷ [] }

abbrev second_chunk : Chunk
second_chunk = record { first = 4; rest = 5 ∷ [] }

abbrev chunks : List Chunk
chunks = first_chunk ∷ second_chunk ∷ []

put_all-Holds_example : Holds (joined chunks) 2 start (put_all 0 chunks start)
put_all-Holds_example = put_all-Holds chunks start refl

stale_put_duplicates_example :
    let first = put_chunk start.session false (some 0) (some first_chunk) start in
    let second = put_chunk start.session false (some 0) (some first_chunk) first.1 in
    (second.0 ≡ first.0)
    × (or_else second.1.part [] ≡ 1 ∷ 2 ∷ 3 ∷ 1 ∷ 2 ∷ 3 ∷ [])
    × (second.1.session.received_bytes ≡ 3)
stale_put_duplicates_example = stale_put_duplicates first_chunk start refl

-- The digest is any function; the length in a list is one.
abbrev some_digest : Bytes → Bytes
some_digest file = length file ∷ []

upload_arrives_example :
    let end = post_finalize some_digest (put_all 0 chunks start) in
    (end.0 ≡ image_data (record { size_bytes = 5; sha256 = 5 ∷ []; status = ready }))
    × (end.1.final ≡ some (1 ∷ 2 ∷ 3 ∷ 4 ∷ 5 ∷ []))
    × (end.1.session.status ≡ completed)
unfolding checks
upload_arrives_example =
    upload_arrives some_digest first_chunk (second_chunk ∷ []) start refl refl refl refl
