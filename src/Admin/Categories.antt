-- ===== src/Admin/Categories.antt =====
-- `createCategory` and `deleteCategory` of src/admin/admin.service.ts.
use market_place.Base.{ℕ, String, Option, some}
use market_place.Store.{World, Result, ok, err, continue, Action, pure, ◌>>=◌, ◌>>◌, Category}
use market_place.Admin.Audit.{log_admin_action, log_admin_action-frame}
use market_place.Categories.{create_category, delete_category}
use market_place.Categories.Forest.{IsForest, create_category-IsForest, delete_category-IsForest}

unfoldable create_category_as : ℕ → String → Option ℕ → Action Category
create_category_as admin_id name parent_id = do
  category ← create_category name parent_id
  log_admin_action admin_id "create_category" "category" (some category.id)
  pure category

unfoldable delete_category_as : ℕ → ℕ → Action Category
delete_category_as admin_id category_id = do
  category ← delete_category category_id
  log_admin_action admin_id "delete_category" "category" (some category_id)
  pure category

-- what follows the call of the service
abbrev after_call :
    ℕ → String → (Category → Option ℕ) → Result Category × World → Result Category × World
after_call admin_id action target r =
    continue r (λ c. log_admin_action admin_id action "category" (target c) >> pure c)

after_logging :
    (admin_id : ℕ) (action : String) (target : Category → Option ℕ) (r : Result Category × World)
    → IsForest r.1.db.categories
    → IsForest (after_call admin_id action target r).1.db.categories
after_logging admin_id action target (ok c, w) forest =
    rw (log_admin_action-frame admin_id action "category" (target c) w).1 forest
after_logging admin_id action target (err e, w) forest = forest

-- Every parent still exists after a creation by an admin.
create_category_as-IsForest :
    (admin_id : ℕ) (name : String) (parent_id : Option ℕ) (w : World)
    → IsForest w.db.categories
    → IsForest (create_category_as admin_id name parent_id w).1.db.categories
unfolding create_category_as
create_category_as-IsForest admin_id name parent_id w forest =
    after_logging admin_id "create_category" (λ c. some c.id) (create_category name parent_id w)
      (create_category-IsForest name parent_id w forest)

-- Every parent still exists after a deletion by an admin.
delete_category_as-IsForest :
    (admin_id category_id : ℕ) (w : World)
    → IsForest w.db.categories
    → IsForest (delete_category_as admin_id category_id w).1.db.categories
unfolding delete_category_as
delete_category_as-IsForest admin_id category_id w forest =
    after_logging admin_id "delete_category" (λ c. some category_id) (delete_category category_id w)
      (delete_category-IsForest category_id w forest)
