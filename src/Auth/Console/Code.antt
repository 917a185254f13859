-- ===== src/Auth/Console/Code.antt =====
-- Which code `checkVerification` accepts, and what a refused one leaves behind.
use market_place.Base.{
  ℕ, ◌+◌, ◌*◌, ◌≤◌, ◌≡◌, refl, String, true, false, none, some, List, [], ◌∷◌, arith, leb, ltb,
  if◌then◌else◌, Bool-cases, Option-cases, inl, inr, str_eq, str_eq_iff, str_eq_self, All, ◌↔◌,
}
use market_place.Store.{
  World, ok, err, http, bad_request, OtpPurpose, registration, password_reset, Otp,
}
use market_place.Auth.Env.{Env}
use market_place.Auth.Provider.{StartPayload, CheckPayload, CheckResult}
use market_place.Auth.StateStore.{same_purpose}
use market_place.Auth.StateStore.Frame.{increment_otp_attempts-frame, clear_otp_attempts-frame}
use market_place.Auth.Console.{
  hash_otp, sent_code, start_verification, check_verification, reject_code, newest_otp, otp_of,
  otp_max_attempts, otp_attempts_ttl_seconds,
}
use market_place.Auth.Console.Checks.{next_count}

-- The row is unused, still valid at `now`, and holds the hash of the code.
abbrev pub Matches : Env → ℕ → String → Otp → Type 0
Matches env now code o =
    (o.used_at ≡ none) × (now ≤ o.expires_at) × (hash_otp env code o.salt ≡ o.code_hash)

newest_created :
    (phone : String) (purpose : OtpPurpose) (now : ℕ) (os : List Otp) {o : Otp}
    → All (λ x. x.created_at ≤ now) os
    → newest_otp phone purpose os ≡ some o
    → o.created_at ≤ now
unfolding newest_otp
newest_created phone purpose now [] h e = cc
newest_created phone purpose now (x ∷ os) {o} (hx, h) e =
    elim (Option-cases (newest_otp phone purpose os)) [
      | inl none_yet ↦ ground (arith, none_yet)
      | inr (y, found) ↦ ground (arith, found, newest_created phone purpose now os h found)
    ]

module _ (env : Env) where
  -- A wrong code only counts: the tables keep everything but the counters.
  reject_code-frame :
      (phone : String) (purpose : OtpPurpose) (w : World)
      → ((reject_code env phone purpose w).1.db
          ≡ record w.db { otp_attempts = (reject_code env phone purpose w).1.db.otp_attempts })
        × ((reject_code env phone purpose w).1.now ≡ w.now)
        × ((reject_code env phone purpose w).0
            ≡ err (
                http bad_request (
                  if leb otp_max_attempts
                    (next_count phone purpose otp_max_attempts otp_attempts_ttl_seconds w)
                  then "Too many attempts — OTP invalidated"
                  else "Invalid OTP")))
  unfolding reject_code
  reject_code-frame phone purpose w =
      let (e, t, n) =
        increment_otp_attempts-frame phone purpose otp_max_attempts otp_attempts_ttl_seconds w in
      ground (arith, e, t, n)

  accepted_with :
      (p : CheckPayload) (w : World) (o : Otp)
      → newest_otp p.phone p.purpose w.db.otps ≡ some o
      → Matches env w.now p.code o
      → (check_verification env p w).0 ≡ ok (record { local_otp_id = some o.id })
  unfolding check_verification
  accepted_with p w o newest (unused, fresh, same) =
      let (r, e) = clear_otp_attempts-frame p.phone p.purpose w in
      let live : ltb o.expires_at w.now ≡ false = ground arith in
      let equal : str_eq (hash_otp env p.code o.salt) o.code_hash ≡ true =
        (str_eq_iff _ _).1 same in
      rw (newest, unused, live, equal, e)

  Matches-of_accepted :
      (p : CheckPayload) (w : World) (o : Otp) {result : CheckResult}
      → newest_otp p.phone p.purpose w.db.otps ≡ some o
      → (check_verification env p w).0 ≡ ok result
      → Matches env w.now p.code o
  unfolding check_verification
  Matches-of_accepted p w o newest h =
      elim (Bool-cases (str_eq (hash_otp env p.code o.salt) o.code_hash)) [
        | inl same ↦ (ground (arith, newest), ground (arith, newest), (str_eq_iff _ _).0 same)
        | inr wrong ↦
            let (_, _, refused) = reject_code-frame p.phone p.purpose w in
            absurd (ground (arith, newest, refused, wrong))
      ]

  -- Whatever an accepted check answers, the code was the newest one and good.
  pub check_verification-Matches :
      (p : CheckPayload) (w : World) {result : CheckResult}
      → (check_verification env p w).0 ≡ ok result
      → (o : Otp) × (newest_otp p.phone p.purpose w.db.otps ≡ some o) × Matches env w.now p.code o
  unfolding check_verification
  check_verification-Matches p w h = elim (Option-cases (newest_otp p.phone p.purpose w.db.otps)) [
    | inl missing ↦ absurd (ground (arith, missing))
    | inr (o, newest) ↦ (o, newest, Matches-of_accepted p w o newest h)
  ]

  -- A code is accepted exactly when the phone has a code for this purpose and the newest one is
  -- unused, has not expired and has the hash of what was entered. The answer names that row.
  pub check_verification_iff :
      (p : CheckPayload) (w : World) (id : ℕ)
      → ((check_verification env p w).0 ≡ ok (record { local_otp_id = some id })) ↔ (
          (o : Otp) × (newest_otp p.phone p.purpose w.db.otps ≡ some o)
          × (o.id ≡ id)
          × Matches env w.now p.code o)
  unfolding check_verification
  check_verification_iff p w id = (to, from)
    where
      to :
          (check_verification env p w).0 ≡ ok (record { local_otp_id = some id })
          → (o : Otp) × (newest_otp p.phone p.purpose w.db.otps ≡ some o)
            × (o.id ≡ id)
            × Matches env w.now p.code o
      to h = elim (Option-cases (newest_otp p.phone p.purpose w.db.otps)) [
        | inl missing ↦ absurd (ground (arith, missing))
        | inr (o, newest) ↦
            let m = Matches-of_accepted p w o newest h in
            let named = accepted_with p w o newest m in (o, newest, ground (arith, h, named), m)
      ]

      from :
          (o : Otp) × (newest_otp p.phone p.purpose w.db.otps ≡ some o)
            × (o.id ≡ id)
            × Matches env w.now p.code o
          → (check_verification env p w).0 ≡ ok (record { local_otp_id = some id })
      from (o, newest, same, m) = rw (accepted_with p w o newest m, same)

  -- Whatever is entered, and whether it is accepted or not, a check changes nothing in the tables
  -- but the counters of wrong codes, and takes no time.
  pub check_verification-keeps :
      (p : CheckPayload) (w : World)
      → ((check_verification env p w).1.db
          ≡ record w.db { otp_attempts = (check_verification env p w).1.db.otp_attempts })
        × ((check_verification env p w).1.now ≡ w.now)
  unfolding check_verification
  check_verification-keeps p w = elim (Option-cases (newest_otp p.phone p.purpose w.db.otps)) [
    | inl missing ↦ rw missing (refl, refl)
    | inr (o, newest) ↦
        let (r, e) = clear_otp_attempts-frame p.phone p.purpose w in
        let (d, n, _) = reject_code-frame p.phone p.purpose w in ground (arith, newest, e, d, n)
  ]

  -- The "too many attempts" answer says that the code is invalidated. It is not: where the newest
  -- code is unused and unexpired and a wrong one gets that answer, the right one is accepted
  -- right after it, at the same instant.
  pub locked_code_accepted :
      (phone wrong right transaction : String) (purpose : OtpPurpose) (w : World) (o : Otp)
      → let try : String → CheckPayload = λ code. record {
        phone = phone;
        code = code;
        purpose = purpose;
        transaction_req_id = some transaction;
      } in
        newest_otp phone purpose w.db.otps ≡ some o
        → Matches env w.now right o
        → (check_verification env (try wrong) w).0
          ≡ err (http bad_request "Too many attempts — OTP invalidated")
        → (check_verification env (try right) (check_verification env (try wrong) w).1).0
          ≡ ok (record { local_otp_id = some o.id })
  locked_code_accepted phone wrong right transaction purpose w o newest m locked =
      let p : CheckPayload = record {
        phone = phone;
        code = wrong;
        purpose = purpose;
        transaction_req_id = some transaction;
      } in
      let (d, n) = check_verification-keeps p w in
      accepted_with _ (check_verification env p w).1 o (rw d newest) (rw n m)

-- A code that was just made is the newest.
newest-start :
    (phone : String) (purpose : OtpPurpose) (now : ℕ) (new : Otp) (os : List Otp)
    → otp_of phone purpose new ≡ true
    → new.created_at ≡ now
    → All (λ x. x.created_at ≤ now) os
    → newest_otp phone purpose (new ∷ os) ≡ some new
unfolding newest_otp
newest-start phone purpose now new os ours at h =
    elim (Option-cases (newest_otp phone purpose os)) [
      | inl none_yet ↦ rw (ours, none_yet)
      | inr (y, found) ↦
          let older = newest_created phone purpose now os h found in
          rw (ours, found) (ground (arith, older))
    ]

same_purpose_self : (p : OtpPurpose) → same_purpose p p ≡ true
same_purpose_self registration = refl
same_purpose_self password_reset = refl

-- the payload that enters a code
abbrev pub enter : StartPayload → String → CheckPayload
enter p code = record {
  phone = p.phone;
  code = code;
  purpose = p.purpose;
  transaction_req_id = none;
}

-- The code that `startVerification` sends is accepted until it expires: at any time up to
-- `otpTtlMinutes` later, if no stored code is from the future, entering it is answered with a row of
-- auth_otps.
pub start-check_verification :
    (env : Env) (p : StartPayload) (w : World) (later : ℕ)
    → All (λ (o : Otp). o.created_at ≤ w.now) w.db.otps
    → later ≤ w.now + env.otp_ttl_minutes * 60
    → (check_verification env
        (enter p (sent_code env w.draws))
        (record (start_verification env p w).1 { now = later })).0
      ≡ ok (record { local_otp_id = some w.next_id })
unfolding start_verification
start-check_verification env p w later past le =
    accepted_with env (enter p (sent_code env w.draws))
      (record (start_verification env p w).1 { now = later }) _
      (newest-start p.phone p.purpose w.now _ w.db.otps
        (ground (arith, str_eq_self p.phone, same_purpose_self p.purpose)) refl past)
      (refl, le, refl)
