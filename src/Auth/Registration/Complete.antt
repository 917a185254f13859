-- ===== src/Auth/Registration/Complete.antt =====
-- What the transaction of `verifyRegistrationOtp` does, after the code was accepted.
use market_place.Base.{
  ℕ, ◌+◌, ◌<◌, ◌≡◌, refl, sym, ap, String, true, false, Option, none, some, ◌∷◌, ◌&&◌, find?, any,
  delete_where, find?-sound, and-true, ltb, str_eq, str_eq_iff, ==_self, arith, Option-cases,
  Bool-cases, inl, inr, any-delete_where,
}
use market_place.Store.{World, Db, registration, Result, ok, err, User, active, Pending}
use market_place.Auth.Env.{Env}
use market_place.Auth.Provider.{CheckResult}
use market_place.Auth.StateStore.Frame.{clear_otp_transaction-frame}
use market_place.Auth.Tokens.{map_to_app_user}
use market_place.Auth.Tokens.Frame.{generate_tokens-frame}
use market_place.Auth.Session.{LoginResponse}
use market_place.Auth.Registration.{
  has_phone, live_pending_of, pending_of, new_user, use_otp, insert_user, complete_registration,
}

-- What a registration leaves in the tables, and what it answers: the pending row of the phone, which
-- had not expired at `now`, has become the latest account, active and with no rights.
pub record Registered (phone : String) (now : ℕ) (before after : Db) (response : LoginResponse)
    : Type 0 where
  pub id : ℕ
  pub pending : Pending
  pub was_pending :
      find? (λ (p : Pending). str_eq p.phone phone && ltb now p.expires_at) before.pendings
      ≡ some pending
  pub of_phone : pending.phone ≡ phone
  pub unexpired : now < pending.expires_at
  pub was_free : any (λ (u : User). str_eq u.phone phone) before.users ≡ false
  pub created :
      after.users
      ≡ record {
        id = id;
        name = pending.name;
        phone = phone;
        password_hash = pending.password_hash;
        avatar_file_id = none;
        contact_info = none;
        status = active;
        is_admin = false;
        token_version = 0;
        deleted_at = none;
      }
        ∷ before.users
  pub no_longer_pending : any (λ (p : Pending). str_eq p.phone phone) after.pendings ≡ false
  pub answered : response.user.id ≡ id

live_pending_of_sound :
    (phone : String) (now : ℕ) (p : Pending)
    → live_pending_of phone now p ≡ true
    → (p.phone ≡ phone) × (now < p.expires_at)
live_pending_of_sound phone now p h =
    let (same, live) = and-true (str_eq p.phone phone) (ltb now p.expires_at) h in
    ((str_eq_iff p.phone phone).0 same, ground (arith, live))

answered_id : Result LoginResponse → ℕ
answered_id (ok r) = r.user.id
answered_id (err _) = 0

use_otp-tables :
    (id : Option ℕ) (w : World)
    → (w' : World) × (use_otp id w ≡ (ok tt, w'))
      × (w'.db.users ≡ w.db.users)
      × (w'.db.pendings ≡ w.db.pendings)
unfolding use_otp
use_otp-tables none w = (w, refl, refl, refl)
use_otp-tables (some id) w = ((use_otp (some id) w).1, refl, refl, refl)

module _ (env : Env) (phone : String) (verified : CheckResult) (w : World) where
  complete-created :
      (p : Pending) {response : LoginResponse}
      → find? (live_pending_of phone w.now) w.db.pendings ≡ some p
      → any (has_phone phone) w.db.users ≡ false
      → (complete_registration env phone verified w).0 ≡ ok response
      → Registered phone w.now w.db (complete_registration env phone verified w).1.db response
  unfolding complete_registration insert_user any answered_id map_to_app_user
  complete-created p found free h =
      let user = new_user w.next_id p.name phone p.password_hash in
      let w1 : World = record w {
        next_id = w.next_id + 1;
        db = record w.db { users = user ∷ w.db.users };
      } in
      let (w2, marked, us, ps) = use_otp-tables verified.local_otp_id w1 in
      let (r, cleared) = clear_otp_transaction-frame phone registration w2 in
      let w3 : World = record w2 {
        redis = r;
        db = record w2.db { pendings = delete_where (pending_of phone) w2.db.pendings };
      } in
      let (r', issued) =
        generate_tokens-frame env user.id phone false 0 w3
          (rw us (ground (arith, ==_self w.next_id))) in
      let gone = any-delete_where (pending_of phone) w2.db.pendings in
      let (same, live) =
        live_pending_of_sound phone w.now p
          (find?-sound (live_pending_of phone w.now) w.db.pendings found) in
      let h1 = rw (found, free, marked, cleared, issued) at h in
      record {
        id = w.next_id;
        pending = p;
        was_pending = found;
        of_phone = same;
        unexpired = live;
        was_free = free;
        created = rw (found, free, marked, cleared, issued) us;
        no_longer_pending = rw (found, free, marked, cleared, issued) gone;
        answered = sym (ap answered_id h1);
      }

  pub complete_registration-Registered :
      {response : LoginResponse}
      → (complete_registration env phone verified w).0 ≡ ok response
      → Registered phone w.now w.db (complete_registration env phone verified w).1.db response
  unfolding complete_registration insert_user
  complete_registration-Registered h =
      elim (Option-cases (find? (live_pending_of phone w.now) w.db.pendings)) [
        | inl missing ↦ absurd (ground (arith, missing))
        | inr (p, found) ↦ elim (Bool-cases (any (has_phone phone) w.db.users)) [
          | inl taken ↦ absurd (ground (arith, found, taken))
          | inr free ↦ complete-created p found free h
        ]
      ]

pub Registered-before :
    {phone : String} {now : ℕ} {before after : Db} {response : LoginResponse} (t : ℕ) (b : Db)
    → now ≡ t
    → before.users ≡ b.users
    → before.pendings ≡ b.pendings
    → Registered phone now before after response
    → Registered phone t b after response
Registered-before t b same us ps r = record {
  id = r.id;
  pending = r.pending;
  was_pending = rw (same, ps) at r.was_pending;
  of_phone = r.of_phone;
  unexpired = rw same at r.unexpired;
  was_free = rw us at r.was_free;
  created = rw us at r.created;
  no_longer_pending = r.no_longer_pending;
  answered = r.answered;
}
