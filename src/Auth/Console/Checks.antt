-- ===== src/Auth/Console/Checks.antt =====
-- One-time passwords: a sent code is accepted once it is entered, wrong codes are counted, and what
-- the counting does to the code.
use market_place.Base.{
  ℕ, ◌<◌, ◌≡◌, refl, String, true, false, List, arith, any, find?, find?-update_where_ne,
  find?-delete_where_ne, find?-delete_where, leb, if◌then◌else◌, Bool-cases, inl, inr, str_eq,
  str_eq_iff, ◌&&◌,
}
use market_place.Store.{World, OtpPurpose, registration, password_reset, OtpAttempts}
use market_place.Auth.StateStore.{
  same_purpose, attempts_of, upsert_attempts, returned_attempts, bumped, increment_otp_attempts,
}
use market_place.Auth.StateStore.Frame.{increment_otp_attempts-frame}

-- The counter of a phone and purpose, as the code reads it back.
abbrev pub counter : String → OtpPurpose → World → ℕ
counter phone purpose w = returned_attempts phone purpose w.db.otp_attempts

same_purpose_path : (p q : OtpPurpose) → same_purpose p q ≡ true → p ≡ q
same_purpose_path registration registration h = refl
same_purpose_path password_reset password_reset h = refl
same_purpose_path registration password_reset h = cc
same_purpose_path password_reset registration h = cc

same_purpose_trans :
    (p q r : OtpPurpose)
    → same_purpose p q ≡ true
    → same_purpose p r ≡ true
    → same_purpose q r ≡ true
same_purpose_trans p q r h k = rw (← same_purpose_path p q h) k

-- Rows of one key are not rows of another.
attempts_of-apart :
    (phone other : String) (purpose purpose' : OtpPurpose)
    → (str_eq phone other && same_purpose purpose purpose') ≡ false
    → (a : OtpAttempts) → attempts_of phone purpose a ≡ true
    → attempts_of other purpose' a ≡ false
attempts_of-apart phone other purpose purpose' ne a h = ground (
  arith,
  str_eq_iff a.phone phone,
  str_eq_iff a.phone other,
  str_eq_iff phone other,
  same_purpose_trans a.purpose purpose purpose',
)

bumped-key :
    (other : String) (purpose' : OtpPurpose) (now ttl : ℕ) (a : OtpAttempts)
    → attempts_of other purpose' (bumped now ttl a) ≡ attempts_of other purpose' a
unfolding bumped
bumped-key other purpose' now ttl a = ground arith

upsert_attempts-apart :
    (phone other : String) (purpose purpose' : OtpPurpose) (now ttl : ℕ) (rows : List OtpAttempts)
    → (str_eq phone other && same_purpose purpose purpose') ≡ false
    → find? (attempts_of other purpose') (upsert_attempts phone purpose now ttl rows)
      ≡ find? (attempts_of other purpose') rows
unfolding upsert_attempts find?
upsert_attempts-apart phone other purpose purpose' now ttl rows ne =
    elim (Bool-cases (any (attempts_of phone purpose) rows)) [
      | inl known ↦ rw known (
          find?-update_where_ne (attempts_of phone purpose) (attempts_of other purpose')
            (bumped now ttl) (attempts_of-apart phone other purpose purpose' ne)
            (bumped-key other purpose' now ttl) rows)
      | inr new ↦ rw (new, ne)
    ]

-- No counter reaches the limit.
abbrev pub IsBelow : ℕ → World → Type 0
IsBelow max w = (phone : String) (purpose : OtpPurpose) → counter phone purpose w < max

module _ (phone : String) (purpose : OtpPurpose) (max ttl : ℕ) (w : World) where
  -- the counter after this wrong code, before the limit is tested
  abbrev pub next_count : ℕ
  next_count =
      returned_attempts phone purpose (upsert_attempts phone purpose w.now ttl w.db.otp_attempts)

  counter-apart :
      (other : String) (purpose' : OtpPurpose)
      → (str_eq phone other && same_purpose purpose purpose') ≡ false
      → counter other purpose' (increment_otp_attempts phone purpose max ttl w).1
        ≡ counter other purpose' w
  unfolding returned_attempts
  counter-apart other purpose' ne =
      let (_, e, _) = increment_otp_attempts-frame phone purpose max ttl w in
      let kept =
        upsert_attempts-apart phone other purpose purpose' w.now ttl w.db.otp_attempts ne in
      let gone =
        find?-delete_where_ne (attempts_of phone purpose) (attempts_of other purpose')
          (attempts_of-apart phone other purpose purpose' ne)
          (upsert_attempts phone purpose w.now ttl w.db.otp_attempts) in
      rw e (ground (arith, kept, gone))

  counter_self :
      counter phone purpose (increment_otp_attempts phone purpose max ttl w).1
      ≡ (if leb max next_count then 0 else next_count)
  unfolding returned_attempts
  counter_self =
      let (_, e, _) = increment_otp_attempts-frame phone purpose max ttl w in
      let gone =
        find?-delete_where (attempts_of phone purpose)
          (upsert_attempts phone purpose w.now ttl w.db.otp_attempts) in
      rw e (ground (arith, gone))

-- Where every counter is below a positive limit, counting a wrong code keeps every counter below
-- it, and the counters of other phones and purposes as they are.
pub increment_otp_attempts-IsBelow :
    (phone : String) (purpose : OtpPurpose) (max ttl : ℕ) (w : World)
    → 0 < max
    → IsBelow max w
    → IsBelow max (increment_otp_attempts phone purpose max ttl w).1
      × ((other : String) (purpose' : OtpPurpose)
          → (str_eq phone other && same_purpose purpose purpose') ≡ false
          → counter other purpose' (increment_otp_attempts phone purpose max ttl w).1
            ≡ counter other purpose' w)
increment_otp_attempts-IsBelow phone purpose max ttl w pos h =
    (λ other purpose'. below other purpose', counter-apart phone purpose max ttl w)
  where
    below :
        (other : String) (purpose' : OtpPurpose)
        → counter other purpose' (increment_otp_attempts phone purpose max ttl w).1 < max
    below other purpose' = elim (Bool-cases (str_eq phone other && same_purpose purpose purpose')) [
      | inr ne ↦ rw (counter-apart phone purpose max ttl w other purpose' ne) (h other purpose')
      | inl same ↦
          let at : phone ≡ other = (str_eq_iff phone other).0 (ground arith) in
          let for : purpose ≡ purpose' = same_purpose_path purpose purpose' (ground arith) in
          rw (← at, ← for, counter_self phone purpose max ttl w) (ground arith)
    ]
