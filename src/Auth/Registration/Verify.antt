-- ===== src/Auth/Registration/Verify.antt =====
-- What `verifyRegistrationOtp` does, with one-time passwords of ConsoleOtpSender.
use market_place.Base.{◌≡◌, refl, ap, String, false, Option, some, List, [], ◌∷◌, any, arith}
use market_place.Store.{
  World, Db, registration, Result, ok, err, User, Otp, Error, continue, with_transaction,
  rollback-db, commit-ok,
}
use market_place.Auth.Env.{Env}
use market_place.Auth.Provider.{CheckResult, CheckPayload}
use market_place.Auth.Console
use market_place.Auth.Console.{newest_otp}
use market_place.Auth.Console.Code.{Matches, check_verification-keeps, check_verification-Matches}
use market_place.Auth.StateStore.Frame.{saved_transaction-frame}
use market_place.Auth.Session.{LoginResponse}
use market_place.Auth.Registration.{has_phone, complete_registration, verify_registration_otp}
use market_place.Auth.Registration.Complete.{
  Registered, Registered-before, complete_registration-Registered,
}

-- The phone numbers of the accounts are pairwise different.
abbrev pub UniquePhones : List User → Type 0
UniquePhones [] = Unit
UniquePhones (u ∷ us) = (any (has_phone u.phone) us ≡ false) × UniquePhones us

-- the transaction, from how the check of the code ended
checked-Registered :
    (env : Env) (phone : String) (x : Result CheckResult × World) {response : LoginResponse}
    → (continue x (λ verified. with_transaction (complete_registration env phone verified))).0
      ≡ ok response
    → Registered phone x.1.now x.1.db
        (continue x (λ verified. with_transaction (complete_registration env phone verified))).1.db
        response
checked-Registered env phone (err e, w) h = cc
checked-Registered env phone (ok verified, w) h =
    let done = commit-ok w.db (complete_registration env phone verified w) h in
    rw done (complete_registration-Registered env phone verified w (rw done at h))

-- a registration that succeeds had its code accepted
checked-ok :
    (env : Env) (phone : String) (x : Result CheckResult × World) {response : LoginResponse}
    → (continue x (λ verified. with_transaction (complete_registration env phone verified))).0
      ≡ ok response
    → (verified : CheckResult) × (x.0 ≡ ok verified)
checked-ok env phone (err e, w) h = cc
checked-ok env phone (ok verified, w) h = (verified, refl)

checked-unchanged :
    (env : Env) (phone : String) (x : Result CheckResult × World)
    → {e : Error}
    → (continue x (λ verified. with_transaction (complete_registration env phone verified))).0
      ≡ err e
    → (continue x (λ verified. with_transaction (complete_registration env phone verified))).1.db
      ≡ x.1.db
checked-unchanged env phone (err e, w) h = refl
checked-unchanged env phone (ok verified, w) h =
    rollback-db w.db (complete_registration env phone verified w) h

module _ (env : Env) (phone otp : String) (transaction : Option String) (w : World) where
  -- With codes of ConsoleOtpSender, a registration that succeeds was given the newest code of the
  -- phone, unused and not expired; the registration was pending and not expired at that time, and
  -- the phone free. It adds exactly one account, with the pending name and password hash, active
  -- and without admin rights, and ends the pending registration. The answer names the new account.
  pub verify_registration_otp-Registered :
      {response : LoginResponse}
      → (verify_registration_otp env (Console.provider env) phone otp transaction w).0 ≡ ok response
      → Registered phone w.now w.db
          (verify_registration_otp env (Console.provider env) phone otp transaction w).1.db
          response
        × ((o : Otp) × (newest_otp phone registration w.db.otps ≡ some o) × Matches env w.now otp o)
  unfolding verify_registration_otp
  verify_registration_otp-Registered h =
      let (id, e) = saved_transaction-frame transaction phone registration w in
      let p : CheckPayload = record {
        phone = phone;
        code = otp;
        purpose = registration;
        transaction_req_id = id;
      } in
      let x = Console.check_verification env p w in
      let (d, now) = check_verification-keeps env p w in
      let h1 = rw e at h in
      let (_, accepted) = checked-ok env phone x h1 in
      (
        rw e (
            Registered-before w.now w.db now (ap (λ (b : Db). b.users) d)
              (ap (λ (b : Db). b.pendings) d) (checked-Registered env phone x h1)),
        check_verification-Matches env p w accepted,
      )

  -- A registration that fails changes no account and no pending registration: at most the counter
  -- of wrong codes.
  pub verify_registration_otp-unchanged :
      {e : Error}
      → (verify_registration_otp env (Console.provider env) phone otp transaction w).0 ≡ err e
      → let after =
          (verify_registration_otp env (Console.provider env) phone otp transaction w).1.db in
        after ≡ record w.db { otp_attempts = after.otp_attempts }
  unfolding verify_registration_otp
  verify_registration_otp-unchanged h =
      let (id, e) = saved_transaction-frame transaction phone registration w in
      let p : CheckPayload = record {
        phone = phone;
        code = otp;
        purpose = registration;
        transaction_req_id = id;
      } in
      let x = Console.check_verification env p w in
      let (d, _) = check_verification-keeps env p w in
      let h1 = rw e at h in
      let same = checked-unchanged env phone x h1 in rw e (ground (arith, same, d))

-- A registration, failed or not, keeps the phone numbers of the accounts pairwise different.
pub verify_registration_otp-UniquePhones :
    (env : Env) (phone otp : String) (transaction : Option String) (w : World)
    → UniquePhones w.db.users
    → UniquePhones
        (verify_registration_otp env (Console.provider env) phone otp transaction w).1.db.users
verify_registration_otp-UniquePhones env phone otp transaction w h =
    by_outcome (verify_registration_otp env (Console.provider env) phone otp transaction w).0 refl
  where
    by_outcome :
        (r : Result LoginResponse)
        → (verify_registration_otp env (Console.provider env) phone otp transaction w).0 ≡ r
        → UniquePhones
            (verify_registration_otp env (Console.provider env) phone otp transaction w).1.db.users
    by_outcome (ok response) e =
        let (r, _) = verify_registration_otp-Registered env phone otp transaction w e in
        rw r.created (r.was_free, h)
    by_outcome (err failure) e =
        let same = verify_registration_otp-unchanged env phone otp transaction w e in
        rw (ap (λ (d : Db). d.users) same) h
