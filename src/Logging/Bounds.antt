-- ===== src/Logging/Bounds.antt =====
-- How large a logged value can be.
use Prim.Native.String.{◌++◌}
use market_place.Base.Decimal.{digits}
use market_place.Base.{
  ◌≡◌, refl, ap, ◌-◌, String, ℕ, zero, suc, ◌+◌, ◌≤◌, false, inl, inr, Bool-cases, leb, ltb, arith,
}
use market_place.Base.Json.{
  Json, null, boolean, number, other_number, text, array, object, Items, nil, cons, Fields, end,
  field, count_items, count_fields,
}
use market_place.Logging.Sanitize.{
  is_sensitive, sanitize, sanitize_items, sanitize_fields, sanitize_for_log, push_item, with_notice,
}

-- at most `levels` arrays and objects inside each other, arrays of at most 21 items and objects of
-- at most 30 keys
unfoldable mutual
  pub IsBounded : ℕ → Json → Type 0
  IsBounded zero (array vs) = ⊥
  IsBounded (suc levels) (array vs) = (count_items vs ≤ 21) × AllItems levels vs
  IsBounded zero (object fs) = ⊥
  IsBounded (suc levels) (object fs) = (count_fields fs ≤ 30) × AllFields levels fs
  IsBounded levels null = Unit
  IsBounded levels (boolean b) = Unit
  IsBounded levels (number n) = Unit
  IsBounded levels (other_number s) = Unit
  IsBounded levels (text s) = Unit

  AllItems : ℕ → Items → Type 0
  AllItems levels nil = Unit
  AllItems levels (cons v vs) = IsBounded levels v × AllItems levels vs

  AllFields : ℕ → Fields → Type 0
  AllFields levels end = Unit
  AllFields levels (field k v fs) = IsBounded levels v × AllFields levels fs

push_item-length : (vs : Items) (v : Json) → count_items (push_item vs v) ≡ suc (count_items vs)
unfolding count_items push_item
push_item-length nil v = refl
push_item-length (cons u vs) v = ap suc (push_item-length vs v)

push_item-AllItems :
    (levels : ℕ) (vs : Items) (v : Json)
    → AllItems levels vs
    → IsBounded levels v
    → AllItems levels (push_item vs v)
unfolding push_item IsBounded
push_item-AllItems levels nil v hs h = (h, tt)
push_item-AllItems levels (cons u vs) v (hu, hs) h = (hu, push_item-AllItems levels vs v hs h)

text-IsBounded : (levels : ℕ) (s : String) → IsBounded levels (text s)
unfolding IsBounded
text-IsBounded zero s = tt
text-IsBounded (suc levels) s = tt

with_notice-IsBounded :
    (levels n : ℕ) (vs : Items)
    → count_items vs ≤ 20
    → AllItems levels vs
    → IsBounded (suc levels) (array (with_notice n vs))
unfolding IsBounded
with_notice-IsBounded levels n vs short h = elim (Bool-cases (ltb 20 n)) [
  | inl longer ↦
      let notice = "[truncated:" ++ (digits (n - 20) ++ "]") in
      rw longer (
        omega (arith, short, push_item-length vs (text notice)),
        push_item-AllItems levels vs (text notice) h (text-IsBounded levels notice),
      )
  | inr all ↦ rw all (omega (arith, short), h)
]

sanitize_items-length : (depth n : ℕ) (vs : Items) → count_items (sanitize_items depth n vs) ≤ n
unfolding count_items sanitize
sanitize_items-length depth zero vs = omega arith
sanitize_items-length depth (suc n) nil = omega arith
sanitize_items-length depth (suc n) (cons v vs) = omega (arith, sanitize_items-length depth n vs)

sanitize_fields-length : (depth n : ℕ) (fs : Fields) → count_fields (sanitize_fields depth n fs) ≤ n
unfolding count_fields sanitize
sanitize_fields-length depth zero fs = omega arith
sanitize_fields-length depth (suc n) end = omega arith
sanitize_fields-length depth (suc n) (field k v fs) =
    omega (arith, sanitize_fields-length depth n fs)

mutual
  unfolding sanitize IsBounded

  sanitize-IsBounded :
      (levels depth : ℕ) (v : Json) → levels + depth ≡ 4 → IsBounded levels (sanitize depth v)
  sanitize-IsBounded zero depth (array vs) h = ground (arith, h)
  sanitize-IsBounded (suc levels) depth (array vs) h =
      let shallow : leb 4 depth ≡ false = ground (arith, h) in
      rw shallow (
        with_notice-IsBounded levels (count_items vs) (sanitize_items (suc depth) 20 vs)
          (sanitize_items-length (suc depth) 20 vs)
          (sanitize_items-AllItems levels (suc depth) 20 vs (omega (arith, h))))
  sanitize-IsBounded zero depth (object fs) h = ground (arith, h)
  sanitize-IsBounded (suc levels) depth (object fs) h =
      let shallow : leb 4 depth ≡ false = ground (arith, h) in
      rw shallow (
        sanitize_fields-length (suc depth) 30 fs,
        sanitize_fields-AllFields levels (suc depth) 30 fs (omega (arith, h)),
      )
  sanitize-IsBounded zero depth null h = tt
  sanitize-IsBounded zero depth (boolean b) h = tt
  sanitize-IsBounded zero depth (number n) h = tt
  sanitize-IsBounded zero depth (other_number s) h = tt
  sanitize-IsBounded zero depth (text s) h = tt
  sanitize-IsBounded (suc levels) depth null h = tt
  sanitize-IsBounded (suc levels) depth (boolean b) h = tt
  sanitize-IsBounded (suc levels) depth (number n) h = tt
  sanitize-IsBounded (suc levels) depth (other_number s) h = tt
  sanitize-IsBounded (suc levels) depth (text s) h = tt

  sanitize_items-AllItems :
      (levels depth n : ℕ) (vs : Items)
      → levels + depth ≡ 4
      → AllItems levels (sanitize_items depth n vs)
  sanitize_items-AllItems levels depth zero vs h = tt
  sanitize_items-AllItems levels depth (suc n) nil h = tt
  sanitize_items-AllItems levels depth (suc n) (cons v vs) h =
      (sanitize-IsBounded levels depth v h, sanitize_items-AllItems levels depth n vs h)

  sanitize_fields-AllFields :
      (levels depth n : ℕ) (fs : Fields)
      → levels + depth ≡ 4
      → AllFields levels (sanitize_fields depth n fs)
  sanitize_fields-AllFields levels depth zero fs h = tt
  sanitize_fields-AllFields levels depth (suc n) end h = tt
  sanitize_fields-AllFields levels depth (suc n) (field k v fs) h =
      elim (Bool-cases (is_sensitive k)) [
        | inl sensitive ↦
            rw sensitive
              (text-IsBounded levels "[REDACTED]", sanitize_fields-AllFields levels depth n fs h)
        | inr plain ↦
            rw plain
              (sanitize-IsBounded levels depth v h, sanitize_fields-AllFields levels depth n fs h)
      ]

-- Whatever is logged has at most 4 arrays and objects inside each other, arrays of at most 21 items
-- and objects of at most 30 keys.
pub sanitize_for_log-IsBounded : (v : Json) → IsBounded 4 (sanitize_for_log v)
unfolding sanitize_for_log
sanitize_for_log-IsBounded v = sanitize-IsBounded 4 0 v refl
