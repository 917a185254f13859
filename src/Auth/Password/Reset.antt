-- ===== src/Auth/Password/Reset.antt =====
-- After a password reset the new password logs in.
use market_place.Base.{
  ℕ, ◌+◌, ◌≡◌, ◌≢◌, ◌↔◌, eq_iff, refl, String, true, Option, none, some, find?, update_where, ◌==◌,
  ==_self, str_eq, arith, Option-cases, Bool-cases, inl, inr, find?-update_where_if,
}
use market_place.Store.{
  World, password_reset, Result, ok, err, User, active, with_transaction, pure, commit-ok, continue,
}
use market_place.Auth.Env.{Env, CryptoLaws}
use market_place.Auth.Provider.{OtpProvider, CheckResult, StartResult}
use market_place.Auth.StateStore.Frame.{clear_otp_transaction-frame, saved_transaction-frame}
use market_place.Auth.Tokens.{TokenPair}
use market_place.Auth.Tokens.Frame.{generate_tokens-frame, known_of_find?}
use market_place.Auth.Session.{is_active, account_of, login}
use market_place.Auth.Session.Access.{Succeeds, login_iff}
use market_place.Auth.Registration.{use_otp, OtpResponse, build_otp_sent_response, is_akedly}
use market_place.Auth.Password.{
  ResetPasswordDto, complete_reset, reset_password, start_reset, request_password_reset_otp,
}

-- Marking a code as used changes no account.
use_otp-users :
    (id : Option ℕ) (w : World)
    → (w' : World) × (use_otp id w ≡ (ok tt, w')) × (w'.db.users ≡ w.db.users)
unfolding use_otp
use_otp-users none w = (w, refl, refl)
use_otp-users (some id) w = ((use_otp (some id) w).1, refl, refl)

module _ (env : Env) (phone password : String) (verified : CheckResult) (w : World) where
  reset_users-found :
      {u : User}
      → find? (account_of phone) w.db.users ≡ some u
      → find? (account_of phone) (
          update_where
            (λ (x : User). x.id == u.id)
            (λ x. record x { password_hash = env.bcrypt_hash password w.draws })
            w.db.users)
        ≡ some (record u { password_hash = env.bcrypt_hash password w.draws })
  reset_users-found {u} found =
      let all =
        find?-update_where_if (λ (x : User). x.id == u.id) (account_of phone)
          (λ x. record x { password_hash = env.bcrypt_hash password w.draws }) (λ x. refl)
          w.db.users found in
      rw (==_self u.id) at all

  -- the statements behind the account's check
  after_check :
      (u : User)
      → find? (account_of phone) w.db.users ≡ some u
      → {pair : TokenPair} → (complete_reset env phone password verified w).0 ≡ ok pair
      → (u.status ≡ active)
        × (find? (account_of phone) (complete_reset env phone password verified w).1.db.users
            ≡ some (record u { password_hash = env.bcrypt_hash password w.draws }))
  unfolding complete_reset
  after_check u found h =
      let may : is_active u.status ≡ true = ground (arith, found) in
      let us =
        update_where (λ (x : User). x.id == u.id)
          (λ x. record x { password_hash = env.bcrypt_hash password w.draws }) w.db.users in
      let w1 : World = record w { draws = w.draws + 1; db = record w.db { users = us } } in
      elim (Option-cases (find? (λ (x : User). x.id == u.id) us)) [
        | inl gone ↦ absurd (ground (arith, found, may, gone))
        | inr (row, updated) ↦
            let known = known_of_find? (λ (x : User). x.id == u.id) us updated in
            let (w2, marked, same) = use_otp-users verified.local_otp_id w1 in
            let (r, cleared) = clear_otp_transaction-frame phone password_reset w2 in
            let (r', issued) =
              generate_tokens-frame env row.id row.phone u.is_admin u.token_version
                (record w2 { redis = r }) (rw same known) in
            (
              ground (arith, may),
              rw (found, may, updated, marked, cleared, issued, same) (reset_users-found found),
            )
      ]

  complete_reset-users :
      {pair : TokenPair}
      → (complete_reset env phone password verified w).0 ≡ ok pair
      → (u : User) × (find? (account_of phone) w.db.users ≡ some u)
        × (u.status ≡ active)
        × (find? (account_of phone) (complete_reset env phone password verified w).1.db.users
            ≡ some (record u { password_hash = env.bcrypt_hash password w.draws }))
  unfolding complete_reset
  complete_reset-users h = elim (Option-cases (find? (account_of phone) w.db.users)) [
    | inl missing ↦ absurd (ground (arith, missing))
    | inr (u, found) ↦ let (act, e) = after_check u found h in (u, found, act, e)
  ]

-- the transaction, from how the check of the code ended
checked_reset-login :
    (env : Env) (phone password : String) (x : Result CheckResult × World) {pair : TokenPair}
    → CryptoLaws env
    → (continue x (λ verified. with_transaction (complete_reset env phone password verified))).0
      ≡ ok pair
    → Succeeds
        (login env phone password
          (continue x
            (λ verified. with_transaction (complete_reset env phone password verified))).1).0
checked_reset-login env phone password (err e, w) laws h = cc
checked_reset-login env phone password (ok verified, w) laws h =
    let done = commit-ok w.db (complete_reset env phone password verified w) h in
    let (u, _, act, found) = complete_reset-users env phone password verified w (rw done at h) in
    rw done (
      (login_iff env phone password (complete_reset env phone password verified w).1).1
        (rw found (act, laws.compare-hash password w.draws)))

-- After a successful password reset, `login` with the phone and the new password gives tokens.
pub reset_password-login :
    (env : Env) (provider : OtpProvider) (dto : ResetPasswordDto) (w : World) {pair : TokenPair}
    → CryptoLaws env
    → (reset_password env provider dto w).0 ≡ ok pair
    → Succeeds (login env dto.phone dto.new_password (reset_password env provider dto w).1).0
unfolding reset_password
reset_password-login env provider dto w laws h =
    elim (Bool-cases (str_eq dto.new_password dto.confirm_password)) [
      | inr differ ↦ absurd (ground (arith, differ))
      | inl same ↦
          let (id, e) = saved_transaction-frame dto.transaction_req_id dto.phone password_reset w in
          let h1 = rw (same, e) at h in
          rw (same, e) (checked_reset-login env dto.phone dto.new_password _ laws h1)
    ]

abbrev pub message_of : Result OtpResponse → Option String
message_of (ok r) = some r.message
message_of (err _) = none

sent_or_failed :
    (x : Result StartResult × World)
    → message_of (continue x (λ result. pure (build_otp_sent_response result))).0
      ≢ some "If this number is registered, an OTP has been sent"
unfolding build_otp_sent_response
sent_or_failed (ok r, w) h =
    ground (arith, eq_iff "OTP sent" "If this number is registered, an OTP has been sent")
sent_or_failed (err e, w) h = cc

start_reset-reveals :
    (env : Env) (provider : OtpProvider) (phone : String) (u : User) (w : World)
    → message_of (start_reset env provider phone (some u) w).0
      ≢ some "If this number is registered, an OTP has been sent"
unfolding start_reset
start_reset-reveals env provider phone u w = elim (Bool-cases (is_akedly env.otp_provider)) [
  | inl on ↦ rw on (λ h. ground (
    arith,
    h,
    eq_iff "If this number is registered, complete Shield flow then call /auth/akedly/send"
        "If this number is registered, an OTP has been sent",
  ))
  | inr off ↦ rw off (sent_or_failed _)
]

-- The answer to a request for a reset code tells whether the phone has an account, though its words
-- are chosen to hide it: for a phone without an account it is always the sentence "If this number
-- is registered, an OTP has been sent", and for a phone with one it never is.
pub request_password_reset_otp-reveals :
    (env : Env) (provider : OtpProvider) (phone : String) (w : World)
    → (message_of (request_password_reset_otp env provider phone w).0
        ≡ some "If this number is registered, an OTP has been sent")
      ↔ (find? (account_of phone) w.db.users ≡ none)
unfolding request_password_reset_otp start_reset
request_password_reset_otp-reveals env provider phone w =
    elim (Option-cases (find? (account_of phone) w.db.users)) [
      | inl missing ↦ rw missing ((λ _. refl), (λ _. refl))
      | inr (u, found) ↦
          rw found ((λ h. absurd (start_reset-reveals env provider phone u w h)), (λ h. cc))
    ]
