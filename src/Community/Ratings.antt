-- ===== src/Community/Ratings.antt =====
-- src/ratings/ratings.service.ts and src/reports/reports.service.ts. A rating's average is kept as
-- its sum and its count; the rounding to two places is the database's.
pub mod Single
use market_place.Base.{
  ℕ, ◌+◌, String, Bool, true, false, Option, none, some, List, [], ◌∷◌, ◌==◌, ◌&&◌, not, find?,
  find_all, any, leb, update_where, if◌then◌else◌, length, take, drop,
}
use market_place.Store.{
  World, Db, Action, http, bad_request, not_found, pg, foreign_key_violation, check_violation, pure,
  throw, throw_if, or_throw, query, gets, fresh_id, try_catch, ◌>>=◌, ◌>>◌, User, Rating, Report,
  open_report,
}
use market_place.Chat.Guards.{assert_user_exists}
use market_place.Chat.Conversations.{foreign_key_as}

abbrev pub rating_is : ℕ → ℕ → Rating → Bool
rating_is rater rated r = r.rater_id == rater && r.rated_user_id == rated

abbrev pub both_users : ℕ → ℕ → List User → Bool
both_users a b users = any (λ (u : User). u.id == a) users && any (λ (u : User). u.id == b) users

abbrev pub rated : ℕ → Option String → Rating → Rating
rated value comment r = record r { rating_value = value; comment = comment }

-- the row of ON CONFLICT … DO UPDATE, or the new one
abbrev pub upsert : Option Rating → ℕ → Rating → Db → Db
upsert none id row d = record d { ratings = row ∷ d.ratings }
upsert (some old) id row d = record d {
  ratings =
      update_where (rating_is row.rater_id row.rated_user_id) (rated row.rating_value row.comment)
        d.ratings;
}

abbrev pub upserted : Option Rating → Rating → Rating
upserted none row = row
upserted (some old) row = rated row.rating_value row.comment old

-- INSERT … ON CONFLICT (rater_id, rated_user_id) DO UPDATE …, under the checks and the foreign keys
unfoldable pub insert_rating : ℕ → ℕ → ℕ → Option String → Action Rating
insert_rating rater rated_user value comment = do
  id ← fresh_id
  throw_if (not (leb 1 value && leb value 5 && not (rater == rated_user))) (pg check_violation)
  known ← gets (λ w. both_users rater rated_user w.db.users)
  throw_if (not known) (pg foreign_key_violation)
  let row : Rating = record {
    id = id;
    rater_id = rater;
    rated_user_id = rated_user;
    rating_value = value;
    comment = comment;
  }
  old ← gets (λ w. find? (rating_is rater rated_user) w.db.ratings)
  query (upsert old id row)
  pure (upserted old row)

unfoldable pub rate_user : ℕ → ℕ → ℕ → Option String → Action Rating
rate_user user_id rated_user_id value comment = do
  throw_if (user_id == rated_user_id) (http bad_request "You cannot rate yourself")
  assert_user_exists rated_user_id "Rated user"
  try_catch (insert_rating user_id rated_user_id value comment)
      (λ e. throw (foreign_key_as "Rated user not found" e))

-- the sum and the number of the ratings of a user, from which AVG is formed
unfoldable pub rating_sum : List Rating → ℕ
rating_sum [] = 0
rating_sum (r ∷ rs) = r.rating_value + rating_sum rs

unfoldable pub ratings_of : ℕ → List Rating → List Rating
ratings_of user_id ratings = find_all (λ (r : Rating). r.rated_user_id == user_id) ratings

-- `sum` over `count` is the average, and no ratings have the average 0
pub record RatingSummary : Type 0 where
  pub sum : ℕ
  pub count : ℕ
  pub latest : List Rating

unfoldable pub get_user_rating_summary : ℕ → Action RatingSummary
get_user_rating_summary user_id = gets (λ w.
    let rs = ratings_of user_id w.db.ratings in
    record { sum = rating_sum rs; count = length rs; latest = take 20 rs })

unfoldable pub insert_report : ℕ → ℕ → String → Action Report
insert_report reporter reported reason = do
  id ← fresh_id
  throw_if (reporter == reported) (pg check_violation)
  known ← gets (λ w. both_users reporter reported w.db.users)
  throw_if (not known) (pg foreign_key_violation)
  let row : Report = record {
    id = id;
    reporter_id = reporter;
    reported_user_id = reported;
    reason = reason;
    status = open_report;
    reviewed_by = none;
    reviewed_at = none;
  }
  query (λ d. record d { reports = row ∷ d.reports })
  pure row

unfoldable pub create_report : ℕ → ℕ → String → Action Report
create_report user_id reported_user_id reason = do
  throw_if (user_id == reported_user_id) (http bad_request "You cannot report yourself")
  assert_user_exists reported_user_id "Reported user"
  try_catch (insert_report user_id reported_user_id reason)
      (λ e. throw (foreign_key_as "Reported user not found" e))

unfoldable pub get_my_reports : ℕ → ℕ → ℕ → Action (List Report)
get_my_reports user_id limit offset = gets (λ w.
    take limit (drop offset (find_all (λ (r : Report). r.reporter_id == user_id) w.db.reports)))
