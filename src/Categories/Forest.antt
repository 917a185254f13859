-- ===== src/Categories/Forest.antt =====
-- Every category's parent exists.
use market_place.Base.{
  ℕ, ◌≡◌, refl, arith, String, true, false, Option, none, some, List, [], ◌∷◌, ◌==◌, any, find?,
  delete_where, is_id, All, All-map, All-delete_where_if, any-delete_where_ne, Option-cases,
  Bool-cases, inl, inr, not-any_of_find?, delete_where-none,
}
use market_place.Store.{World, Category}
use market_place.Categories.{
  is_known, is_sibling, insert_category, create_category, delete_row, delete_category,
}

abbrev pub HasParent : List Category → Category → Type 0
HasParent rows c = is_known rows c.parent_id ≡ true

abbrev pub IsForest : List Category → Type 0
IsForest rows = All (HasParent rows) rows

is_known-cons :
    (rows : List Category) (c : Category) (p : Option ℕ)
    → is_known rows p ≡ true
    → is_known (c ∷ rows) p ≡ true
unfolding any
is_known-cons rows c none h = refl
is_known-cons rows c (some id) h = ground (arith, h)

added-IsForest :
    (rows : List Category) (c : Category)
    → is_known rows c.parent_id ≡ true
    → IsForest rows
    → IsForest (c ∷ rows)
added-IsForest rows c known forest = (
  is_known-cons rows c c.parent_id known,
  All-map (HasParent rows) (HasParent (c ∷ rows)) (λ x h. is_known-cons rows c x.parent_id h) rows
      forest,
)

pub create_category-IsForest :
    (name : String) (parent_id : Option ℕ) (w : World)
    → IsForest w.db.categories
    → IsForest (create_category name parent_id w).1.db.categories
unfolding create_category insert_category
create_category-IsForest name parent_id w forest =
    elim (Bool-cases (is_known w.db.categories parent_id)) [
      | inl known ↦ elim (Bool-cases (any (is_sibling name parent_id) w.db.categories)) [
        | inl taken ↦ rw (known, taken) forest
        | inr free ↦
            let c : Category = record { id = w.next_id; parent_id = parent_id; name = name } in
            rw (known, free, known) (added-IsForest w.db.categories c known forest)
      ]
      | inr unknown ↦ rw unknown forest
    ]

-- A known parent that is not deleted stays known.
is_known-delete_where :
    (id : ℕ) (rows : List Category) (p : Option ℕ)
    → is_id p id ≡ false
    → is_known rows p ≡ true
    → is_known (delete_where (λ (c : Category). c.id == id) rows) p ≡ true
is_known-delete_where id rows none apart h = refl
is_known-delete_where id rows (some q) apart h =
    rw
      (any-delete_where_ne (λ (c : Category). c.id == id) (λ (c : Category). c.id == q)
        (λ c here. ground (arith, here, apart)) rows)
      h

unreferenced :
    (id : ℕ) (all rows : List Category)
    → any (λ (c : Category). is_id c.parent_id id) rows ≡ false
    → All (HasParent all) rows
    → All (λ (c : Category). (is_id c.parent_id id ≡ false) × HasParent all c) rows
unfolding any
unreferenced id all [] h forest = tt
unreferenced id all (c ∷ rows) h (known, forest) =
    let free : is_id c.parent_id id ≡ false = ground (arith, h) in
    ((free, known), unreferenced id all rows (ground (arith, h)) forest)

removed-IsForest :
    (id : ℕ) (rows : List Category)
    → any (λ (c : Category). is_id c.parent_id id) rows ≡ false
    → IsForest rows
    → IsForest (delete_where (λ (c : Category). c.id == id) rows)
removed-IsForest id rows free forest =
    let after = delete_where (λ (c : Category). c.id == id) rows in
    All-delete_where_if (λ (c : Category). c.id == id)
      (λ (c : Category). (is_id c.parent_id id ≡ false) × HasParent rows c) (HasParent after)
      (λ c kept (apart, known). is_known-delete_where id rows c.parent_id apart known) rows
      (unreferenced id rows rows free forest)

pub delete_category-IsForest :
    (id : ℕ) (w : World)
    → IsForest w.db.categories
    → IsForest (delete_category id w).1.db.categories
unfolding delete_category delete_row
delete_category-IsForest id w forest =
    let rows = w.db.categories in
    elim (Option-cases (find? (λ (c : Category). c.id == id) rows)) [
      | inl missing ↦
          let absent = not-any_of_find? (λ (c : Category). c.id == id) rows missing in
          rw (missing, delete_where-none (λ (c : Category). c.id == id) rows absent) forest
      | inr (c, found) ↦ elim (Bool-cases (any (λ (x : Category). is_id x.parent_id id) rows)) [
        | inl referenced ↦ rw (found, referenced) forest
        | inr free ↦ rw (found, free) (removed-IsForest id rows free forest)
      ]
    ]

-- If every category's parent exists, it still does after a category is created or deleted, whether
-- the call succeeds or fails.
pub categories-IsForest :
    (name : String) (parent_id : Option ℕ) (id : ℕ) (w : World)
    → IsForest w.db.categories
    → IsForest (create_category name parent_id w).1.db.categories
      × IsForest (delete_category id w).1.db.categories
categories-IsForest name parent_id id w forest =
    (create_category-IsForest name parent_id w forest, delete_category-IsForest id w forest)
