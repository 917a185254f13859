-- ===== src/Products/Images/Sync.antt =====
-- What `syncProductImages` leaves in the table of images.
use market_place.Base.{
  ℕ, zero, suc, ◌+◌, ◌≡◌, refl, sym, ap, ◌∙◌, Bool, true, not, Option, none, some, List, [], ◌∷◌,
  ◌==◌, ==_self, arith, find?, find_all, delete_where, get_elem?, Option-cases, inl, inr, ◌⊎◌,
  is_id,
}
use market_place.Base.JsValue.{to_positive_int}
use market_place.Store.{
  World, Db, Error, ok, err, outcome-cases, continue-err, err-not_ok, File, FilePurpose,
  product_image, FileStatus, uploaded, ProductImage,
}
use market_place.Chat.Guards.{Driver}
use market_place.Chat.Guards.Access.{read_back}
use market_place.Products.Images.{
  is_product_image, is_uploaded, uploader_of, file_id_is, check_file, check_files, image_rows,
  append_rows, attach_images, sync_product_images,
}

abbrev pub of_product : ℕ → ProductImage → Bool
of_product product_id i = i.product_id == product_id

abbrev pub of_other_product : ℕ → ProductImage → Bool
of_other_product product_id i = not (i.product_id == product_id)

-- The file is there, an uploaded product image of the user.
abbrev pub Usable : ℕ → Db → ℕ → File → Type 0
Usable actor d id f =
    (find? (file_id_is id) d.files ≡ some f)
    × (f.purpose ≡ product_image)
    × (f.uploader_user_id ≡ some actor)
    × (f.status ≡ uploaded)

abbrev pub AllUsable : ℕ → Db → List ℕ → List File → Type 0
AllUsable actor d [] [] = Unit
AllUsable actor d [] (f ∷ files) = ⊥
AllUsable actor d (id ∷ ids) [] = ⊥
AllUsable actor d (id ∷ ids) (f ∷ files) = Usable actor d id f × AllUsable actor d ids files

is_product_image-true : (p : FilePurpose) → is_product_image p ≡ true → p ≡ product_image
is_product_image-true product_image h = refl
is_product_image-true FilePurpose.avatar h = cc
is_product_image-true FilePurpose.chat_attachment h = cc
is_product_image-true FilePurpose.document h = cc

is_uploaded-true : (s : FileStatus) → is_uploaded s ≡ true → s ≡ uploaded
is_uploaded-true uploaded h = refl
is_uploaded-true FileStatus.pending h = cc
is_uploaded-true FileStatus.failed h = cc
is_uploaded-true FileStatus.deleted h = cc

uploader_of-is_id :
    (driver : Driver) (uploader : Option ℕ) (actor : ℕ)
    → is_id (uploader_of driver uploader) actor ≡ true
    → uploader ≡ some actor
uploader_of-is_id driver none actor h = cc
uploader_of-is_id driver (some n) actor h = elim (Option-cases (to_positive_int (driver.int8 n))) [
  | inl unread ↦ absurd (ground (arith, unread, h))
  | inr (x, read) ↦ ground (arith, read, h, read_back driver n x read)
]

check_file-frame :
    (driver : Driver) (actor id : ℕ) (w : World) → (check_file driver actor id w).1 ≡ w
unfolding check_file
check_file-frame driver actor id w = ground arith

check_file-Usable :
    (driver : Driver) (actor id : ℕ) (w : World) {f : File}
    → (check_file driver actor id w).0 ≡ ok f
    → Usable actor w.db id f
unfolding check_file
check_file-Usable driver actor id w {f} h = elim (Option-cases (find? (file_id_is id) w.db.files)) [
  | inl missing ↦ absurd (ground (arith, h, missing))
  | inr (g, found) ↦
      let image : is_product_image g.purpose ≡ true = ground (arith, h, found) in
      let owned : is_id (uploader_of driver g.uploader_user_id) actor ≡ true =
        ground (arith, h, found, image) in
      let ready : is_uploaded g.status ≡ true = ground (arith, h, found, image, owned) in
      let same : g ≡ f = ground (arith, h, found, image, owned, ready) in
      rw (← same) (
        found,
        is_product_image-true g.purpose image,
        uploader_of-is_id driver g.uploader_user_id actor owned,
        is_uploaded-true g.status ready,
      )
]

check_files-AllUsable :
    (driver : Driver) (actor : ℕ) (ids : List ℕ) (w : World)
    → ((files : List File) × (check_files driver actor ids w ≡ (ok files, w))
        × AllUsable actor w.db ids files)
      ⊎ ((e : Error) × ((check_files driver actor ids w).0 ≡ err e))
unfolding check_files
check_files-AllUsable driver actor [] w = inl ([], refl, tt)
check_files-AllUsable driver actor (id ∷ ids) w =
    elim (outcome-cases (check_file driver actor id w) w (check_file-frame driver actor id w)) [
      | inl (f, passed) ↦
          let usable = check_file-Usable driver actor id w {f = f} (rw passed refl) in
          elim (check_files-AllUsable driver actor ids w) [
            | inl (files, done, all_usable) ↦
                inl (f ∷ files, rw (passed, done) refl, (usable, all_usable))
            | inr (e, failed) ↦
                inr (e, rw passed (continue-err (check_files driver actor ids w) _ failed))
          ]
      | inr (e, failed) ↦ inr (e, rw failed refl)
    ]

find_all-delete_where :
    {A : Type 0} (p : A → Bool) (xs : List A) → find_all p (delete_where p xs) ≡ []
unfolding find_all delete_where
find_all-delete_where p [] = refl
find_all-delete_where p (x ∷ xs) = ground (arith, find_all-delete_where p xs)

find_all-image_rows :
    (product_id i : ℕ) (ids : List ℕ) (files : List File) (rows : List ProductImage)
    → find_all (of_product product_id) rows ≡ []
    → find_all (of_product product_id) (append_rows (image_rows product_id i ids files) rows)
      ≡ image_rows product_id i ids files
unfolding find_all append_rows image_rows
find_all-image_rows product_id i [] files rows none_left = none_left
find_all-image_rows product_id i (id ∷ ids) [] rows none_left = none_left
find_all-image_rows product_id i (id ∷ ids) (f ∷ files) rows none_left =
    rw (==_self product_id, find_all-image_rows product_id (i + 1) ids files rows none_left) refl

find_all-other_images :
    (product_id i : ℕ) (ids : List ℕ) (files : List File) (rows : List ProductImage)
    → find_all (of_other_product product_id) (append_rows (image_rows product_id i ids files) rows)
      ≡ find_all (of_other_product product_id) rows
unfolding find_all append_rows image_rows
find_all-other_images product_id i [] files rows = refl
find_all-other_images product_id i (id ∷ ids) [] rows = refl
find_all-other_images product_id i (id ∷ ids) (f ∷ files) rows =
    rw (==_self product_id, find_all-other_images product_id (i + 1) ids files rows) refl

find_all-not-delete_where :
    {A : Type 0} (p : A → Bool) (xs : List A)
    → find_all (λ x. not (p x)) (delete_where p xs) ≡ find_all (λ x. not (p x)) xs
unfolding find_all delete_where
find_all-not-delete_where p [] = refl
find_all-not-delete_where p (x ∷ xs) = ground (arith, find_all-not-delete_where p xs)

-- The image that stands at position `i`, if the list has an id there: it is numbered `i`, and has
-- that id and the key of its file.
abbrev pub image_at : ℕ → ℕ → Option ℕ → Option File → Option ProductImage
image_at product_id i (some id) (some f) =
    some
      (record { product_id = product_id; file_id = id; object_key = f.object_key; sort_order = i })
image_at product_id i (some id) none = none
image_at product_id i none f = none

image_at-none : (product_id i : ℕ) (id : Option ℕ) → image_at product_id i id none ≡ none
image_at-none product_id i none = refl
image_at-none product_id i (some id) = refl

get_elem?-image_rows :
    (product_id start : ℕ) (ids : List ℕ) (files : List File) (i : ℕ)
    → get_elem? (image_rows product_id start ids files) i
      ≡ image_at product_id (start + i) (get_elem? ids i) (get_elem? files i)
unfolding image_rows
get_elem?-image_rows product_id start [] files i = refl
get_elem?-image_rows product_id start (id ∷ ids) [] i =
    sym (image_at-none product_id (start + i) (get_elem? (id ∷ ids) i))
get_elem?-image_rows product_id start (id ∷ ids) (f ∷ files) zero =
    ap (λ n. image_at product_id n (some id) (some f)) (omega arith)
get_elem?-image_rows product_id start (id ∷ ids) (f ∷ files) (suc i) =
    get_elem?-image_rows product_id (start + 1) ids files i
    ∙ ap (λ n. image_at product_id n (get_elem? ids i) (get_elem? files i)) (omega arith)

-- the table of images after a sync that ended well
sync_product_images-rows :
    (driver : Driver) (actor product_id : ℕ) (ids : List ℕ) (w : World)
    → (sync_product_images driver actor product_id ids w).0 ≡ ok tt
    → (files : List File) × AllUsable actor w.db ids files
      × ((sync_product_images driver actor product_id ids w).1.db.product_images
          ≡ append_rows
              (image_rows product_id 0 ids files)
              (delete_where (of_product product_id) w.db.product_images))
unfolding sync_product_images attach_images image_rows append_rows
sync_product_images-rows driver actor product_id [] w h = ([], tt, refl)
sync_product_images-rows driver actor product_id (id ∷ ids) w h =
    let w' : World = record w {
      db = record w.db {
        product_images = delete_where (of_product product_id) w.db.product_images;
      };
    } in
    elim (check_files-AllUsable driver actor (id ∷ ids) w') [
      | inl (files, done, all_usable) ↦ (files, all_usable, rw done refl)
      | inr (e, failed) ↦
          absurd (err-not_ok (continue-err (check_files driver actor (id ∷ ids) w') _ failed) h)
    ]

-- When it ends well, every file of the list was an uploaded product image of the user; the images of
-- the product are the listed files and no others, the one at each position of the list numbered by
-- that position, from 0; and the images of other products are as before.
pub sync_product_images-replaces :
    (driver : Driver) (actor product_id : ℕ) (ids : List ℕ) (w : World)
    → (sync_product_images driver actor product_id ids w).0 ≡ ok tt
    → let after = (sync_product_images driver actor product_id ids w).1.db.product_images in
      (files : List File) × AllUsable actor w.db ids files
      × ((i : ℕ)
          → get_elem? (find_all (of_product product_id) after) i
            ≡ image_at product_id i (get_elem? ids i) (get_elem? files i))
      × (find_all (of_other_product product_id) after
          ≡ find_all (of_other_product product_id) w.db.product_images)
sync_product_images-replaces driver actor product_id ids w h =
    let (files, all_usable, rows) = sync_product_images-rows driver actor product_id ids w h in
    let none_left = find_all-delete_where (of_product product_id) w.db.product_images in
    let own = find_all-image_rows product_id 0 ids files _ none_left in
    let left = delete_where (of_product product_id) w.db.product_images in
    let others = find_all-other_images product_id 0 ids files left in
    let kept = find_all-not-delete_where (of_product product_id) w.db.product_images in
    (
      files,
      all_usable,
      λ i.
          rw (rows, own)
            (get_elem?-image_rows product_id 0 ids files i
              ∙ ap (λ n. image_at product_id n (get_elem? ids i) (get_elem? files i))
                  (omega arith)),
      rw (rows, others) kept,
    )
