-- ===== src/Base/Rows.antt =====
-- Tables as lists of rows: SELECT … LIMIT 1, EXISTS, UPDATE … WHERE and DELETE … WHERE as the list
-- operations `find?`, `any`, `update_where` and `delete_where`, with the lemmas on them.
use Prim.Native.Nat.{ℕ, zero, suc}
use mathlib.Core.Path.{◌≡◌, refl}
use mathlib.Core.Logic.{inl, inr}
use mathlib.Core.Bool.{Bool, true, false, ◌&&◌, ◌||◌}
use mathlib.Core.Option.{Option, none, some}
use mathlib.Core.List.{List, [], ◌∷◌}
use native.Mathlib.Omega.{arith}
use market_place.Base.Tests.{if◌then◌else◌, Bool-cases}

module _ {ℓ} {A : Type ℓ} where
  abbrev pub length : List A → ℕ
  length [] = 0
  length (x ∷ xs) = suc (length xs)

  abbrev pub get_elem? : List A → ℕ → Option A
  get_elem? [] i = none
  get_elem? (x ∷ xs) zero = some x
  get_elem? (x ∷ xs) (suc i) = get_elem? xs i

  -- the first row that the condition holds of
  unfoldable pub find? : (A → Bool) → List A → Option A
  find? p [] = none
  find? p (x ∷ xs) = if p x then some x else find? p xs

  -- every row that the condition holds of, in order
  unfoldable pub find_all : (A → Bool) → List A → List A
  find_all p [] = []
  find_all p (x ∷ xs) = let rest = find_all p xs in if p x then x ∷ rest else rest

  -- `EXISTS (SELECT 1 … WHERE p)`
  unfoldable pub any : (A → Bool) → List A → Bool
  any p [] = false
  any p (x ∷ xs) = p x || any p xs

  unfoldable pub all : (A → Bool) → List A → Bool
  all p [] = true
  all p (x ∷ xs) = p x && all p xs

  -- `UPDATE … SET f WHERE p`
  unfoldable pub update_where : (A → Bool) → (A → A) → List A → List A
  update_where p f [] = []
  update_where p f (x ∷ xs) = (if p x then f x else x) ∷ update_where p f xs

  -- `DELETE … WHERE p`
  unfoldable pub delete_where : (A → Bool) → List A → List A
  delete_where p [] = []
  delete_where p (x ∷ xs) = let rest = delete_where p xs in if p x then rest else x ∷ rest

  abbrev pub All {κ} : (A → Type κ) → List A → Type κ
  All P [] = Unit
  All P (x ∷ xs) = P x × All P xs

module _ {ℓ} {A : Type ℓ} (p : A → Bool) where
  -- A row that a query returns meets its condition.
  pub find?-sound : (xs : List A) {r : A} → find? p xs ≡ some r → p r ≡ true
  unfolding find?
  find?-sound [] h = ground arith
  find?-sound (x ∷ xs) {r} h = ground (arith, find?-sound xs {r = r})

  pub any_of_find? : (xs : List A) {r : A} → find? p xs ≡ some r → any p xs ≡ true
  unfolding find? any
  any_of_find? [] h = ground arith
  any_of_find? (x ∷ xs) {r} h = ground (arith, any_of_find? xs {r = r})

  pub not-any_of_find? : (xs : List A) → find? p xs ≡ none → any p xs ≡ false
  unfolding find? any
  not-any_of_find? [] h = refl
  not-any_of_find? (x ∷ xs) h = ground (arith, not-any_of_find? xs)

  pub find?-delete_where : (xs : List A) → find? p (delete_where p xs) ≡ none
  unfolding find? delete_where
  find?-delete_where [] = refl
  find?-delete_where (x ∷ xs) = ground (arith, find?-delete_where xs)

  pub any-delete_where : (xs : List A) → any p (delete_where p xs) ≡ false
  unfolding any delete_where
  any-delete_where [] = refl
  any-delete_where (x ∷ xs) = ground (arith, any-delete_where xs)

  -- A statement whose condition no row meets changes nothing.
  pub delete_where-none : (xs : List A) → any p xs ≡ false → delete_where p xs ≡ xs
  unfolding any delete_where
  delete_where-none [] h = refl
  delete_where-none (x ∷ xs) h = ground (arith, delete_where-none xs)

  pub update_where-none : (f : A → A) (xs : List A) → any p xs ≡ false → update_where p f xs ≡ xs
  unfolding any update_where
  update_where-none f [] h = refl
  update_where-none f (x ∷ xs) h = ground (arith, update_where-none f xs)

  -- After an update the query finds the changed row, if the condition reads no changed column.
  pub find?-update_where :
      (f : A → A)
      → ((x : A) → p (f x) ≡ p x)
      → (xs : List A) {r : A} → find? p xs ≡ some r
      → find? p (update_where p f xs) ≡ some (f r)
  unfolding find? update_where
  find?-update_where f keep [] h = ground arith
  find?-update_where f keep (x ∷ xs) {r} h =
      ground (arith, keep x, find?-update_where f keep xs {r = r})

  -- What a query finds after an update of columns that its condition does not read.
  pub find?-update_where_if :
      (q : A → Bool) (f : A → A)
      → ((x : A) → q (f x) ≡ q x)
      → (xs : List A) {r : A} → find? q xs ≡ some r
      → find? q (update_where p f xs) ≡ some (if p r then f r else r)
  unfolding find? update_where
  find?-update_where_if q f keep [] h = ground arith
  find?-update_where_if q f keep (x ∷ xs) {r} h = elim (Bool-cases (q x)) [
    | inl t ↦ ground (arith, keep x, t)
    | inr t ↦ ground (arith, keep x, t, find?-update_where_if q f keep xs {r = r})
  ]

  -- A query on another condition, untouched by the update, finds what it found.
  pub find?-update_where_ne :
      (q : A → Bool) (f : A → A)
      → ((x : A) → p x ≡ true → q x ≡ false)
      → ((x : A) → q (f x) ≡ q x)
      → (xs : List A) → find? q (update_where p f xs) ≡ find? q xs
  unfolding find? update_where
  find?-update_where_ne q f apart keep [] = refl
  find?-update_where_ne q f apart keep (x ∷ xs) =
      ground (arith, apart x, keep x, find?-update_where_ne q f apart keep xs)

  pub find?-delete_where_ne :
      (q : A → Bool)
      → ((x : A) → p x ≡ true → q x ≡ false)
      → (xs : List A) → find? q (delete_where p xs) ≡ find? q xs
  unfolding find? delete_where
  find?-delete_where_ne q apart [] = refl
  find?-delete_where_ne q apart (x ∷ xs) = ground (arith, apart x, find?-delete_where_ne q apart xs)

  pub any-delete_where_ne :
      (q : A → Bool)
      → ((x : A) → p x ≡ true → q x ≡ false)
      → (xs : List A) → any q (delete_where p xs) ≡ any q xs
  unfolding any delete_where
  any-delete_where_ne q apart [] = refl
  any-delete_where_ne q apart (x ∷ xs) = ground (arith, apart x, any-delete_where_ne q apart xs)

  -- An update of columns that a condition does not read.
  pub any-update_where :
      (q : A → Bool) (f : A → A)
      → ((x : A) → q (f x) ≡ q x)
      → (xs : List A) → any q (update_where p f xs) ≡ any q xs
  unfolding any update_where
  any-update_where q f keep [] = refl
  any-update_where q f keep (x ∷ xs) = ground (arith, keep x, any-update_where q f keep xs)

  pub length-update_where : (f : A → A) (xs : List A) → length (update_where p f xs) ≡ length xs
  unfolding update_where
  length-update_where f [] = refl
  length-update_where f (x ∷ xs) = omega (arith, length-update_where f xs)

  pub All-delete_where {κ} : (P : A → Type κ) (xs : List A) → All P xs → All P (delete_where p xs)
  unfolding delete_where
  All-delete_where P [] h = tt
  All-delete_where P (x ∷ xs) (h, hs) = elim (Bool-cases (p x)) [
    | inl e ↦ rw e (All-delete_where P xs hs)
    | inr e ↦ rw e (h, All-delete_where P xs hs)
  ]

  -- What holds of the rows that are left, which do not meet the condition.
  pub All-delete_where_if {κ κ'} :
      (P : A → Type κ) (Q : A → Type κ')
      → ((x : A) → p x ≡ false → P x → Q x)
      → (xs : List A) → All P xs
      → All Q (delete_where p xs)
  unfolding delete_where
  All-delete_where_if P Q step [] h = tt
  All-delete_where_if P Q step (x ∷ xs) (h, hs) = elim (Bool-cases (p x)) [
    | inl e ↦ rw e (All-delete_where_if P Q step xs hs)
    | inr e ↦ rw e (step x e h, All-delete_where_if P Q step xs hs)
  ]

  pub All-update_where {κ} :
      (P : A → Type κ) (f : A → A)
      → ((x : A) → p x ≡ true → P x → P (f x))
      → (xs : List A) → All P xs
      → All P (update_where p f xs)
  unfolding update_where
  All-update_where P f step [] h = tt
  All-update_where P f step (x ∷ xs) (h, hs) = elim (Bool-cases (p x)) [
    | inl e ↦ rw e (step x e h, All-update_where P f step xs hs)
    | inr e ↦ rw e (h, All-update_where P f step xs hs)
  ]

  pub All-find? {κ} : (P : A → Type κ) (xs : List A) {r : A} → All P xs → find? p xs ≡ some r → P r
  unfolding find?
  All-find? P [] h e = cc
  All-find? P (x ∷ xs) {r} (h, hs) e = elim (Bool-cases (p x)) [
    | inl t ↦ subst_some P h (rw (t, find?) at e)
    | inr t ↦ All-find? P xs hs (rw (t, find?) at e)
  ]
    where
      subst_some : (Q : A → Type κ) → Q x → some x ≡ some r → Q r
      subst_some Q q s = rw (← some_inj s) q
        where
          some_inj : some x ≡ some r → x ≡ r
          some_inj s = cc

-- What follows from what holds of every row.
pub All-map {ℓ κ κ'} :
    {A : Type ℓ} (P : A → Type κ) (Q : A → Type κ')
    → ((x : A) → P x → Q x)
    → (xs : List A) → All P xs
    → All Q xs
All-map P Q step [] h = tt
All-map P Q step (x ∷ xs) (h, hs) = (step x h, All-map P Q step xs hs)
