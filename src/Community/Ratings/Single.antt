-- ===== src/Community/Ratings/Single.antt =====
-- A user has at most one rating of another.
use market_place.Base.{
  ℕ, ◌≤◌, ◌≡◌, refl, String, Bool, true, false, Option, none, some, List, [], ◌∷◌, ◌==◌, ==_self,
  leb, ◌&&◌, not, arith, find?, update_where, find?-update_where, count_where, Option-cases, inl,
  inr,
}
use market_place.Store.{World, ok, Rating}
use market_place.Chat.Guards.{is_account, assert_user_exists}
use market_place.Community.Ratings.{rating_is, both_users, rated, insert_rating, rate_user}

count-none : (p : Rating → Bool) (rs : List Rating) → find? p rs ≡ none → count_where p rs ≡ 0
unfolding find? count_where
count-none p [] h = refl
count-none p (r ∷ rs) h = ground (arith, count-none p rs)

count-some :
    (p : Rating → Bool) (rs : List Rating) {r : Rating} → find? p rs ≡ some r → 1 ≤ count_where p rs
unfolding find? count_where
count-some p [] h = ground (arith, h)
count-some p (x ∷ rs) {r} h = ground (arith, count-some p rs {r = r})

count-update_where :
    (p : Rating → Bool) (f : Rating → Rating) (keep : (x : Rating) → p (f x) ≡ p x)
    (rs : List Rating)
    → count_where p (update_where p f rs) ≡ count_where p rs
unfolding count_where update_where
count-update_where p f keep [] = refl
count-update_where p f keep (x ∷ rs) = ground (arith, keep x, count-update_where p f keep rs)

abbrev new_row : ℕ → ℕ → ℕ → Option String → World → Rating
new_row a b value comment w = record {
  id = w.next_id;
  rater_id = a;
  rated_user_id = b;
  rating_value = value;
  comment = comment;
}

count-new :
    (a b : ℕ) (row : Rating) (rs : List Rating)
    → rating_is a b row ≡ true
    → find? (rating_is a b) rs ≡ none
    → (count_where (rating_is a b) (row ∷ rs) ≡ 1) × (find? (rating_is a b) (row ∷ rs) ≡ some row)
unfolding find? count_where
count-new a b row rs e new = rw (e, count-none (rating_is a b) rs new) (refl, refl)

-- A rating that is accepted has a value from 1 to 5 and is of another user; where there was at most
-- one rating of the pair there is now exactly one, with the new value and comment.
pub rate_user-single :
    (a b value : ℕ) (comment : Option String) (w : World) {r : Rating}
    → count_where (rating_is a b) w.db.ratings ≤ 1
    → (rate_user a b value comment w).0 ≡ ok r
    → let after = (rate_user a b value comment w).1.db.ratings in
      ((1 ≤ value) × (value ≤ 5) × ((a == b) ≡ false))
      × (count_where (rating_is a b) after ≡ 1)
      × ((s : Rating) × (find? (rating_is a b) after ≡ some s)
          × (s.rating_value ≡ value)
          × (s.comment ≡ comment))
unfolding rate_user insert_rating assert_user_exists
rate_user-single a b value comment w {r} few h =
    let distinct : (a == b) ≡ false = ground (arith, h) in
    let account : is_account b w.db.users ≡ true = ground (arith, h, distinct) in
    let range : (leb 1 value && leb value 5 && not (a == b)) ≡ true =
      ground (arith, h, distinct, account) in
    let known : both_users a b w.db.users ≡ true = ground (arith, h, distinct, account, range) in
    let low : leb 1 value ≡ true = ground (arith, range) in
    let high : leb value 5 ≡ true = ground (arith, range) in
    let bound_low : 1 ≤ value = ground (arith, range) in
    let bound_high : value ≤ 5 = ground (arith, range) in
    elim (Option-cases (find? (rating_is a b) w.db.ratings)) [
      | inl new ↦
          let (one, first) =
            count-new a b (new_row a b value comment w) w.db.ratings
              (rw (==_self a, ==_self b) refl) new in
          rw (distinct, account, low, high, known, new)
            ((bound_low, bound_high, refl), one, (new_row a b value comment w, first, refl, refl))
      | inr (old, there) ↦
          let least = count-some (rating_is a b) w.db.ratings {r = old} there in
          let same =
            count-update_where (rating_is a b) (rated value comment) (λ x. refl) w.db.ratings in
          rw (distinct, account, low, high, known, there)
            (
              (bound_low, bound_high, refl),
              exactly least same,
              (
                rated value comment old,
                find?-update_where (rating_is a b) (rated value comment) (λ x. refl) w.db.ratings
                    there,
                refl,
                refl,
              ),
            )
    ]
  where
    exactly :
        1 ≤ count_where (rating_is a b) w.db.ratings
        → count_where
            (rating_is a b)
            (update_where (rating_is a b) (rated value comment) w.db.ratings)
          ≡ count_where (rating_is a b) w.db.ratings
        → count_where
            (rating_is a b)
            (update_where (rating_is a b) (rated value comment) w.db.ratings)
          ≡ 1
    exactly least same = omega (arith, least, same, few)
