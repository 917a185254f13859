-- ===== src/Categories.antt =====
-- src/categories/categories.service.ts. Names are compared in the lower case of ASCII, where the
-- index of db/schema.sql has that of the database.
pub mod Forest
use market_place.Base.{
  ℕ, String, Bool, true, false, Option, none, some, List, [], ◌∷◌, ◌==◌, ◌&&◌, not, str_eq, any,
  find?, delete_where, is_some, is_id, if◌then◌else◌, get_or_else, take, drop,
}
use market_place.Base.Text.{to_lower}
use market_place.Store.{
  Action, Error, http, pg, not_found, conflict, foreign_key_violation, unique_violation, pure,
  throw, throw_if, or_throw, query, gets, fresh_id, try_catch, ◌>>=◌, ◌>>◌, Category,
}

-- the foreign key of `parent_id`
abbrev pub is_known : List Category → Option ℕ → Bool
is_known rows none = true
is_known rows (some id) = any (λ (c : Category). c.id == id) rows

-- one key of the unique index (COALESCE(parent_id, 0), LOWER(name))
abbrev pub is_sibling : String → Option ℕ → Category → Bool
is_sibling name parent_id c =
    get_or_else c.parent_id 0 == get_or_else parent_id 0 && str_eq (to_lower c.name) (to_lower name)

unfoldable pub insert_category : String → Option ℕ → Action Category
insert_category name parent_id = do
  id ← fresh_id
  taken ← gets (λ w. any (is_sibling name parent_id) w.db.categories)
  throw_if taken (pg unique_violation)
  known ← gets (λ w. is_known w.db.categories parent_id)
  throw_if (not known) (pg foreign_key_violation)
  let category : Category = record { id = id; parent_id = parent_id; name = name }
  query (λ d. record d { categories = category ∷ d.categories })
  pure category

abbrev taken_name : Error → Error
taken_name (pg unique_violation) =
    http conflict "A category with that name already exists under the same parent"
taken_name e = e

unfoldable pub create_category : String → Option ℕ → Action Category
create_category name parent_id = do
  known ← gets (λ w. is_known w.db.categories parent_id)
  throw_if (not known) (http not_found "Parent category not found")
  try_catch (insert_category name parent_id) (λ e. throw (taken_name e))

-- ON DELETE RESTRICT
unfoldable pub delete_row : ℕ → Action (Option Category)
delete_row id = do
  found ← gets (λ w. find? (λ (c : Category). c.id == id) w.db.categories)
  referenced ← gets (λ w. any (λ (c : Category). is_id c.parent_id id) w.db.categories)
  throw_if (is_some found && referenced) (pg foreign_key_violation)
  query (λ d. record d { categories = delete_where (λ (c : Category). c.id == id) d.categories })
  pure found

abbrev still_referenced : Error → Error
still_referenced (pg foreign_key_violation) =
    http conflict "Category cannot be deleted: it has child categories or products referencing it"
still_referenced e = e

unfoldable pub delete_category : ℕ → Action Category
delete_category id = do
  deleted ← try_catch (delete_row id) (λ e. throw (still_referenced e))
  or_throw deleted (http not_found "Category not found")
