-- ===== src/Admin/Audit.antt =====
-- The audit log of src/admin/admin.service.ts (`logAdminAction`). The payload, a JSON text, is not
-- kept.
use market_place.Base.{
  ℕ, String, Option, List, ◌∷◌, ◌==◌, not, any, ◌≡◌, refl, Bool-cases, inl, inr,
}
use market_place.Store.{
  World, ok, Action, pg, foreign_key_violation, pure, throw_if, query, gets, try_catch, ◌>>=◌, ◌>>◌,
  User, AuditLog,
}

-- INSERT INTO admin_audit_logs, under its foreign key
unfoldable pub insert_audit_log : ℕ → String → String → Option ℕ → Action (Unit {0})
insert_audit_log actor_id action target_type target_id = do
  actor ← gets (λ w. any (λ (u : User). u.id == actor_id) w.db.users)
  throw_if (not actor) (pg foreign_key_violation)
  let row : AuditLog = record {
    actor_id = actor_id;
    action = action;
    target_type = target_type;
    target_id = target_id;
  }
  query (λ d. record d { audit_logs = row ∷ d.audit_logs })

-- a failure is logged and nothing else
unfoldable pub log_admin_action : ℕ → String → String → Option ℕ → Action (Unit {0})
log_admin_action actor_id action target_type target_id =
    try_catch (insert_audit_log actor_id action target_type target_id) (λ e. pure tt)

-- Logging never fails, and writes nothing but the log.
pub log_admin_action-frame :
    (actor_id : ℕ) (action target_type : String) (target_id : Option ℕ) (w : World)
    → (log : List AuditLog) × (log_admin_action actor_id action target_type target_id w
        ≡ (ok tt, record w { db = record w.db { audit_logs = log } }))
unfolding log_admin_action insert_audit_log
log_admin_action-frame actor_id action target_type target_id w =
    elim (Bool-cases (any (λ (u : User). u.id == actor_id) w.db.users)) [
      | inl known ↦ (
        record {
          actor_id = actor_id;
          action = action;
          target_type = target_type;
          target_id = target_id;
        }
            ∷ w.db.audit_logs,
        rw known refl,
      )
      | inr unknown ↦ (w.db.audit_logs, rw unknown refl)
    ]
