-- ===== src/Upload/Order.antt =====
-- What a client that sends its chunks one after another gets, and what two requests at once do.
use node_pilot.Common.{
  ℕ, suc, ◌+◌, ◌≡◌, refl, sym, ap, ◌∙◌, Bool, true, false, none, some, List, [], ◌∷◌, ◌++◌, map,
  length, length-append, or_else, ◌||◌, arith,
}
use node_pilot.Upload.Session.{
  uploading, completed, ready, Bytes, Chunk, bytes_of, ImageUploadSession, Site, accepted,
  image_data, put_chunk, same_text, lower, is_blank, post_finalize,
}

abbrev pub joined : List Chunk → Bytes
joined [] = []
joined (c ∷ cs) = bytes_of c ++ joined cs

-- The client's loop: each request is answered before the next, and names its index.
unfoldable pub put_all : ℕ → List Chunk → Site → Site
unfolding put_chunk
put_all index [] site = site
put_all index (c ∷ cs) site =
    put_all (suc index) cs (put_chunk site.session false (some index) (some c) site).1

append_assoc : (xs ys zs : Bytes) → (xs ++ ys) ++ zs ≡ xs ++ (ys ++ zs)
append_assoc [] ys zs = refl
append_assoc (x ∷ xs) ys zs = cc (append_assoc xs ys zs)

-- What a site looks like after an upload of `cs`.
pub record Holds (cs : Bytes) (count : ℕ) (before after : Site) : Type 0 where
  pub part : or_else after.part [] ≡ or_else before.part [] ++ cs
  pub received : after.session.received_bytes ≡ before.session.received_bytes + length cs
  pub next : after.session.next_chunk_index ≡ before.session.next_chunk_index + count
  pub still_uploading : after.session.status ≡ before.session.status
  pub same_total : after.session.total_size_bytes ≡ before.session.total_size_bytes
  pub same_expected : after.session.expected_sha256 ≡ before.session.expected_sha256

-- An accepted chunk.
abbrev wrote : ImageUploadSession → Bytes → Site → Site
wrote session c site = record site {
  part = some (or_else site.part [] ++ c);
  session = record (site.session) {
    received_bytes = session.received_bytes + length c;
    next_chunk_index = suc session.next_chunk_index;
  };
}

put-accepted :
    (session : ImageUploadSession) (c : Chunk) (site : Site)
    → session.status ≡ uploading
    → put_chunk session false (some session.next_chunk_index) (some c) site ≡ (
      accepted
          (session.received_bytes + length (bytes_of c))
          (suc session.next_chunk_index)
          (length (bytes_of c)),
      wrote session (bytes_of c) site,
    )
unfolding put_chunk
put-accepted session c site u = ground arith

wrote-Holds : (c : Bytes) (site : Site) → Holds c 1 site (wrote site.session c site)
wrote-Holds c site = record {
  part = refl;
  received = refl;
  next = omega arith;
  still_uploading = refl;
  same_total = refl;
  same_expected = refl;
}

nil-Holds : (site : Site) → Holds [] 0 site site
nil-Holds site = record {
  part = append_nil (or_else site.part []);
  received = omega arith;
  next = omega arith;
  still_uploading = refl;
  same_total = refl;
  same_expected = refl;
}
  where
    append_nil : (xs : Bytes) → xs ≡ xs ++ []
    append_nil [] = refl
    append_nil (x ∷ xs) = cc (append_nil xs)

Holds-trans :
    (xs ys : Bytes) (n : ℕ) (a b c : Site)
    → Holds xs 1 a b
    → Holds ys n b c
    → Holds (xs ++ ys) (suc n) a c
Holds-trans xs ys n a b c h k = record {
  part = cc (k.part, h.part, append_assoc (or_else a.part []) xs ys);
  received = omega (arith, k.received, h.received, length-append xs ys);
  next = omega (arith, k.next, h.next);
  still_uploading = k.still_uploading ∙ h.still_uploading;
  same_total = k.same_total ∙ h.same_total;
  same_expected = k.same_expected ∙ h.same_expected;
}

-- Chunks that a client sends in order, from the index that the session expects next, are all
-- appended to the file: the file, the byte count and the next index grow by exactly what was sent.
pub put_all-Holds :
    (cs : List Chunk) (site : Site)
    → site.session.status ≡ uploading
    → Holds (joined cs) (length cs) site (put_all site.session.next_chunk_index cs site)
unfolding put_all
put_all-Holds [] site u = nil-Holds site
put_all-Holds (c ∷ cs) site u = rw (put-accepted site.session c site u) (
    Holds-trans (bytes_of c) (joined cs) (length cs) site (wrote site.session (bytes_of c) site)
      (put_all (suc site.session.next_chunk_index) cs (wrote site.session (bytes_of c) site))
      (wrote-Holds (bytes_of c) site) (put_all-Holds cs (wrote site.session (bytes_of c) site) u))

-- Two requests that loaded the session before either of them wrote are both accepted, one after
-- the other under the lock, and the file then holds the chunk twice while the row counts it once.
pub stale_put_duplicates :
    (c : Chunk) (site : Site)
    → site.session.status ≡ uploading
    → let first = put_chunk site.session false (some site.session.next_chunk_index) (some c) site in
      let second =
        put_chunk site.session false (some site.session.next_chunk_index) (some c) first.1 in
      (second.0 ≡ first.0)
      × (or_else second.1.part [] ≡ (or_else site.part [] ++ bytes_of c) ++ bytes_of c)
      × (second.1.session.received_bytes ≡ site.session.received_bytes + length (bytes_of c))
stale_put_duplicates c site u =
    rw (put-accepted site.session c site u)
      (rw (put-accepted site.session c (wrote site.session (bytes_of c) site) u) (refl, refl, refl))

put_all-step :
    (c : Chunk) (cs : List Chunk) (site : Site)
    → site.session.status ≡ uploading
    → put_all site.session.next_chunk_index (c ∷ cs) site
      ≡ put_all (suc site.session.next_chunk_index) cs (wrote site.session (bytes_of c) site)
unfolding put_all
put_all-step c cs site u = rw (put-accepted site.session c site u) refl

put_all-part :
    (cs : List Chunk) (site : Site) (file : Bytes)
    → site.session.status ≡ uploading
    → site.part ≡ some file
    → (end : Bytes) × ((put_all site.session.next_chunk_index cs site).part ≡ some end)
unfolding put_all
put_all-part [] site file u h = (file, h)
put_all-part (c ∷ cs) site file u h = rw (put_all-step c cs site u) (
    put_all-part cs (wrote site.session (bytes_of c) site) (or_else site.part [] ++ bytes_of c) u
      refl)

first_part :
    (c : Chunk) (cs : List Chunk) (site : Site)
    → site.session.status ≡ uploading
    → (end : Bytes) × ((put_all site.session.next_chunk_index (c ∷ cs) site).part ≡ some end)
first_part c cs site u = rw (put_all-step c cs site u) (
    put_all-part cs (wrote site.session (bytes_of c) site) (or_else site.part [] ++ bytes_of c) u
      refl)

module _ (digest : Bytes → Bytes) where
  -- The checksum that a session expects, if it expects one, is that of the file.
  unfoldable pub checks : ImageUploadSession → Bytes → Bool
  unfolding same_text lower
  checks session file =
      is_blank session.expected_sha256
      || same_text (map lower session.expected_sha256) (digest file)

  finalize-accepts :
      (site : Site) (file : Bytes)
      → site.part ≡ some file
      → site.session.status ≡ uploading
      → length file ≡ site.session.total_size_bytes
      → checks site.session file ≡ true
      → post_finalize digest site ≡ (
        image_data (record { size_bytes = length file; sha256 = digest file; status = ready }),
        record site {
          part = none;
          final = some file;
          session = record (site.session) { status = completed };
          image = record { size_bytes = length file; sha256 = digest file; status = ready };
        },
      )
  unfolding post_finalize checks
  finalize-accepts site file p u size good = ground (arith, p, u, size, good)

  -- A client that sends at least one chunk, all in order, to a session without a file, whose
  -- declared size is that of the bytes sent and whose declared checksum, where there is one, is
  -- that of the bytes sent, and then finalizes, gets its image READY, with the checksum of exactly
  -- these bytes; they are the image's file, and the session is COMPLETED.
  pub upload_arrives :
      (c : Chunk) (cs : List Chunk) (site : Site)
      → site.session.status ≡ uploading
      → site.part ≡ none
      → length (joined (c ∷ cs)) ≡ site.session.total_size_bytes
      → checks site.session (joined (c ∷ cs)) ≡ true
      → let end = post_finalize digest (put_all site.session.next_chunk_index (c ∷ cs) site) in
        (end.0
          ≡ image_data (record {
            size_bytes = site.session.total_size_bytes;
            sha256 = digest (joined (c ∷ cs));
            status = ready;
          }))
        × (end.1.final ≡ some (joined (c ∷ cs)))
        × (end.1.session.status ≡ completed)
  unfolding checks
  upload_arrives c cs site u empty size good =
      let after = put_all site.session.next_chunk_index (c ∷ cs) site in
      let h : Holds (joined (c ∷ cs)) (length (c ∷ cs)) site after =
        put_all-Holds (c ∷ cs) site u in
      let (end, q) = first_part c cs site u in
      let part_is : or_else site.part [] ++ joined (c ∷ cs) ≡ joined (c ∷ cs) =
        ground (arith, empty) in
      let whole : end ≡ joined (c ∷ cs) = ground (arith, q, h.part, part_is) in
      let total : length (joined (c ∷ cs)) ≡ after.session.total_size_bytes =
        size ∙ sym h.same_total in
      let done =
        finalize-accepts after (joined (c ∷ cs)) (rw (← whole) q) (h.still_uploading ∙ u) total
          (rw (h.same_expected) good) in
      (
        ap (λ x. x.0) done
            ∙ ap
                (λ n.
                  image_data
                    (record { size_bytes = n; sha256 = digest (joined (c ∷ cs)); status = ready }))
                size,
        ap (λ x. x.1.final) done,
        ap (λ x. x.1.session.status) done,
      )
