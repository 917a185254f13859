-- ===== src/Admin/Reports.antt =====
-- `createWarning` and `updateReportStatus` of src/admin/admin.service.ts.
use market_place.Base.{ℕ, String, some, ◌∷◌, ◌==◌, ◌&&◌, not, find?, update_where, any, is_some}
use market_place.Store.{
  Action, http, not_found, pg, foreign_key_violation, pure, throw, throw_if, or_throw, query, gets,
  fresh_id, try_catch, ◌>>=◌, ◌>>◌, User, Warning, Report, ReportStatus,
}
use market_place.Chat.Guards.{assert_user_exists}
use market_place.Chat.Conversations.{foreign_key_as}
use market_place.Admin.Audit.{log_admin_action}

unfoldable pub insert_warning : ℕ → ℕ → String → Action Warning
insert_warning admin_id target_user_id message = do
  id ← fresh_id
  admin ← gets (λ w. any (λ (u : User). u.id == admin_id) w.db.users)
  target ← gets (λ w. any (λ (u : User). u.id == target_user_id) w.db.users)
  throw_if (not (admin && target)) (pg foreign_key_violation)
  let row : Warning = record {
    id = id;
    admin_id = admin_id;
    target_user_id = target_user_id;
    message = message;
  }
  query (λ d. record d { warnings = row ∷ d.warnings })
  pure row

unfoldable pub create_warning : ℕ → ℕ → String → Action Warning
create_warning admin_id target_user_id message = do
  assert_user_exists target_user_id "Target user"
  warning ←
      try_catch (insert_warning admin_id target_user_id message)
        (λ e. throw (foreign_key_as "Target user not found" e))
  log_admin_action admin_id "create_warning" "user" (some target_user_id)
  pure warning

unfoldable pub update_report_status : ℕ → ℕ → ReportStatus → Action Report
update_report_status admin_id report_id status = do
  found ← gets (λ w. find? (λ (r : Report). r.id == report_id) w.db.reports)
  now ← gets (λ w. w.now)
  admin ← gets (λ w. any (λ (u : User). u.id == admin_id) w.db.users)
  throw_if (is_some found && not admin) (pg foreign_key_violation)
  query (λ d. record d {
    reports =
        update_where (λ (r : Report). r.id == report_id)
          (λ r. record r { status = status; reviewed_by = some admin_id; reviewed_at = some now })
          d.reports;
  })
  before ← or_throw found (http not_found "Report not found")
  log_admin_action admin_id "update_report_status" "report" (some report_id)
  pure (record before { status = status; reviewed_by = some admin_id; reviewed_at = some now })
