-- ===== src/Files/Uploads/Completion.antt =====
-- From an upload intent to a file that a product can show.
use Prim.Native.String.{◌++◌}
use market_place.Base.{
  ℕ, ◌<◌, ◌≡◌, refl, arith, String, true, Option, none, some, ◌==◌, ==_self, find?,
  find?-update_where, any, is_id, Bool-cases, inl, inr, str_eq,
}
use market_place.Base.Decimal.{digits}
use market_place.Store.{
  World, Result, ok, err, http, bad_request, File, product_image, pending, uploaded, User,
}
use market_place.Auth.Strategy.{AuthUser}
use market_place.Chat.Guards.{Driver}
use market_place.Products.Images.{file_id_is, uploader_of, check_file}
use market_place.Files.Storage.{StorageEnv, UploadIntent}
use market_place.Files.Uploads.{
  CreateUploadIntentDto, FileSummary, build_object_key, insert_file, create_upload_intent,
  with_upload, mark_uploaded,
}

-- A file of the user that waits for its upload.
abbrev IsWaiting : Driver → AuthUser → ℕ → World → File → Type 0
IsWaiting driver actor id w f =
    (find? (file_id_is id) w.db.files ≡ some f)
    × (is_id (uploader_of driver f.uploader_user_id) actor.sub ≡ true)
    × (f.purpose ≡ product_image)
    × (f.status ≡ pending)

-- What can be done with a waiting file: a product is refused it, the upload is marked, and then a
-- product gets it.
waiting-usable :
    (driver : Driver) (actor : AuthUser) (id : ℕ) (checksum : Option String) (w : World) (f : File)
    → IsWaiting driver actor id w f
    → ((check_file driver actor.sub id w).0
        ≡ err (
            http bad_request
              ("File " ++ digits id ++ " must be uploaded before product association")))
      × (((mark_uploaded driver actor id checksum w).0
            ≡ ok (record { id = id; object_key = f.object_key; status = uploaded }))
          × ((check_file driver actor.sub id (mark_uploaded driver actor id checksum w).1).0
              ≡ ok (with_upload w.now checksum f)))
unfolding check_file mark_uploaded
waiting-usable driver actor id checksum w f (found, owned, image, waits) =
    let after =
      find?-update_where (file_id_is id) (with_upload w.now checksum) (λ x. refl) w.db.files
        found in
    (
      rw (found, owned, image, waits) refl,
      (rw (found, owned) refl, rw (found, owned, after, owned, image) refl),
    )

result-first :
    {a a' : FileSummary} {b b' : UploadIntent}
    → ◌≡◌ {A = Result (FileSummary × UploadIntent)} (ok (a, b)) (ok (a', b'))
    → a ≡ a'
result-first h = cc

-- the row that an intent leaves
abbrev pub intended : AuthUser → CreateUploadIntentDto → World → String → File
intended actor dto w key = record {
  id = w.next_id;
  uploader_user_id = some actor.sub;
  owner_type = dto.owner_type;
  owner_id = dto.owner_id;
  purpose = dto.purpose;
  object_key = key;
  mime_type = some dto.mime_type;
  checksum_sha256 = none;
  status = pending;
  uploaded_at = none;
}

-- An intent that is given leaves a waiting file, the newest.
create_upload_intent-IsWaiting :
    (env : StorageEnv) (driver : Driver) (actor : AuthUser) (dto : CreateUploadIntentDto)
    (w : World) (summary : FileSummary) (intent : UploadIntent)
    → 0 < actor.sub
    → dto.purpose ≡ product_image
    → (create_upload_intent env actor dto w).0 ≡ ok (summary, intent)
    → IsWaiting driver actor summary.id
        (create_upload_intent env actor dto w).1
        (intended actor dto w summary.object_key)
unfolding create_upload_intent insert_file find?
create_upload_intent-IsWaiting env driver actor dto w summary intent positive image h =
    let key =
      build_object_key dto.owner_type dto.owner_id dto.filename dto.mime_type w.now
        (env.random_hex w.draws) in
    elim (Bool-cases (any (λ (u : User). u.id == actor.sub) w.db.users)) [
      | inl known ↦ elim (Bool-cases (any (λ (f : File). str_eq f.object_key key) w.db.files)) [
        | inl taken ↦ absurd (ground (arith, h, known, taken))
        | inr free ↦
            let same = result-first (rw (known, free) at h) in
            rw (← same, known, free)
              (
                rw (==_self w.next_id) refl,
                rw (driver.int8_reads actor.sub positive) (==_self actor.sub),
                image,
                refl,
              )
      ]
      | inr unknown ↦ absurd (ground (arith, h, unknown))
    ]

-- A user who is given an upload intent for a product image has a file that a product is refused
-- ("must be uploaded"); the user can mark it uploaded, and from then on it is accepted.
pub create_upload_intent-completes :
    (env : StorageEnv) (driver : Driver) (actor : AuthUser) (dto : CreateUploadIntentDto)
    (w : World) (summary : FileSummary) (intent : UploadIntent) (checksum : Option String)
    → 0 < actor.sub
    → dto.purpose ≡ product_image
    → (create_upload_intent env actor dto w).0 ≡ ok (summary, intent)
    → let waiting = (create_upload_intent env actor dto w).1 in
      let marked = mark_uploaded driver actor summary.id checksum waiting in
      ((check_file driver actor.sub summary.id waiting).0
        ≡ err (
            http bad_request
              ("File " ++ digits summary.id ++ " must be uploaded before product association")))
      × ((marked.0
            ≡ ok (record { id = summary.id; object_key = summary.object_key; status = uploaded }))
          × ((check_file driver actor.sub summary.id marked.1).0
              ≡ ok (with_upload waiting.now checksum (intended actor dto w summary.object_key))))
create_upload_intent-completes env driver actor dto w summary intent checksum positive image h =
    waiting-usable driver actor summary.id checksum (create_upload_intent env actor dto w).1
      (intended actor dto w summary.object_key)
      (create_upload_intent-IsWaiting env driver actor dto w summary intent positive image h)
