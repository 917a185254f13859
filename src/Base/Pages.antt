-- ===== src/Base/Pages.antt =====
-- Pages of a table as list operations: COUNT(*), ORDER BY, LIMIT and OFFSET, with the lemmas on them.
use Prim.Native.Nat.{ℕ, zero, suc}
use mathlib.Core.Path.{◌≡◌}
use mathlib.Core.Logic.{inl, inr}
use mathlib.Core.Bool.{Bool, true}
use mathlib.Core.List.{List, [], ◌∷◌}
use market_place.Base.Tests.{if◌then◌else◌, Bool-cases, leb}
use market_place.Base.Rows.{All, find_all}

module _ {ℓ} {A : Type ℓ} where
  -- `COUNT(*) … WHERE p`
  unfoldable pub count_where : (A → Bool) → List A → ℕ
  count_where p [] = 0
  count_where p (x ∷ xs) = if p x then suc (count_where p xs) else count_where p xs

  -- `ORDER BY key DESC`; rows with one key keep their order
  unfoldable pub insert_desc : (A → ℕ) → A → List A → List A
  insert_desc key x [] = x ∷ []
  insert_desc key x (y ∷ ys) =
      let later = y ∷ insert_desc key x ys in if leb (key y) (key x) then x ∷ y ∷ ys else later

  unfoldable pub order_desc : (A → ℕ) → List A → List A
  unfolding insert_desc
  order_desc key [] = []
  order_desc key (x ∷ xs) = insert_desc key x (order_desc key xs)

  -- `ORDER BY key ASC`
  unfoldable pub insert_asc : (A → ℕ) → A → List A → List A
  insert_asc key x [] = x ∷ []
  insert_asc key x (y ∷ ys) =
      let later = y ∷ insert_asc key x ys in if leb (key x) (key y) then x ∷ y ∷ ys else later

  unfoldable pub order_asc : (A → ℕ) → List A → List A
  unfolding insert_asc
  order_asc key [] = []
  order_asc key (x ∷ xs) = insert_asc key x (order_asc key xs)

  -- `LIMIT n`, and `OFFSET n`
  unfoldable pub take : ℕ → List A → List A
  take zero xs = []
  take (suc n) [] = []
  take (suc n) (x ∷ xs) = x ∷ take n xs

  unfoldable pub drop : ℕ → List A → List A
  drop zero xs = xs
  drop (suc n) [] = []
  drop (suc n) (x ∷ xs) = drop n xs

-- A page of a sorted, filtered table has only rows that meet the filter.
module _ {ℓ κ} {A : Type ℓ} (P : A → Type κ) where
  pub All-find_all :
      (p : A → Bool) (xs : List A) → ((x : A) → p x ≡ true → P x) → All P (find_all p xs)
  unfolding find_all
  All-find_all p [] h = tt
  All-find_all p (x ∷ xs) h = elim (Bool-cases (p x)) [
    | inl e ↦ rw e (h x e, All-find_all p xs h)
    | inr e ↦ rw e (All-find_all p xs h)
  ]

  All-insert_desc :
      (key : A → ℕ) (x : A) (xs : List A) → P x → All P xs → All P (insert_desc key x xs)
  unfolding insert_desc
  All-insert_desc key x [] px h = (px, tt)
  All-insert_desc key x (y ∷ ys) px (py, h) = elim (Bool-cases (leb (key y) (key x))) [
    | inl e ↦ rw e (px, (py, h))
    | inr e ↦ rw e (py, All-insert_desc key x ys px h)
  ]

  pub All-order_desc : (key : A → ℕ) (xs : List A) → All P xs → All P (order_desc key xs)
  unfolding order_desc
  All-order_desc key [] h = tt
  All-order_desc key (x ∷ xs) (px, h) =
      All-insert_desc key x (order_desc key xs) px (All-order_desc key xs h)

  All-insert_asc :
      (key : A → ℕ) (x : A) (xs : List A) → P x → All P xs → All P (insert_asc key x xs)
  unfolding insert_asc
  All-insert_asc key x [] px h = (px, tt)
  All-insert_asc key x (y ∷ ys) px (py, h) = elim (Bool-cases (leb (key x) (key y))) [
    | inl e ↦ rw e (px, (py, h))
    | inr e ↦ rw e (py, All-insert_asc key x ys px h)
  ]

  pub All-order_asc : (key : A → ℕ) (xs : List A) → All P xs → All P (order_asc key xs)
  unfolding order_asc
  All-order_asc key [] h = tt
  All-order_asc key (x ∷ xs) (px, h) =
      All-insert_asc key x (order_asc key xs) px (All-order_asc key xs h)

  pub All-take : (n : ℕ) (xs : List A) → All P xs → All P (take n xs)
  unfolding take
  All-take zero xs h = tt
  All-take (suc n) [] h = tt
  All-take (suc n) (x ∷ xs) (px, h) = (px, All-take n xs h)

  pub All-drop : (n : ℕ) (xs : List A) → All P xs → All P (drop n xs)
  unfolding drop
  All-drop zero xs h = h
  All-drop (suc n) [] h = tt
  All-drop (suc n) (x ∷ xs) (px, h) = All-drop n xs h
