-- ===== src/Base/Json.antt =====
-- Values of JSON, as requests, responses and logs carry them. An object keeps its keys in the order
-- of insertion; `null` stands for undefined too, and `other_number` for a number that is no natural
-- number, by its text.
use market_place.Base.Tests.{str_eq, str_eq_self, str_eq_iff, if◌then◌else◌, Bool-cases}
use mathlib.Core.Path.{◌≡◌, refl, ap, ◌∙◌}
use mathlib.Core.Logic.{inl, inr}
use mathlib.Core.Option.{Option, none, some}
use Prim.Native.Nat.{ℕ, suc}
use Prim.Native.String.{String}
use mathlib.Core.Bool.{Bool, false, ◌||◌}

mutual
  pub data Json : Type 0 where
    null : Json
    boolean : Bool → Json
    number : ℕ → Json
    other_number : String → Json
    text : String → Json
    array : Items → Json
    object : Fields → Json

  pub data Items : Type 0 where
    nil : Items
    cons : Json → Items → Items

  pub data Fields : Type 0 where
    end : Fields
    field : String → Json → Fields → Fields

-- Object.prototype.hasOwnProperty
unfoldable pub has_key : String → Fields → Bool
has_key k end = false
has_key k (field x v fs) = str_eq x k || has_key k fs

-- the assignment of a key that is not there
unfoldable pub append_field : String → Json → Fields → Fields
append_field k v end = field k v end
append_field k v (field x u fs) = field x u (append_field k v fs)

unfoldable pub count_items : Items → ℕ
count_items nil = 0
count_items (cons v vs) = suc (count_items vs)

unfoldable pub count_fields : Fields → ℕ
count_fields end = 0
count_fields (field k v fs) = suc (count_fields fs)

-- `o[k]`
unfoldable pub get_key : String → Fields → Option Json
get_key k end = none
get_key k (field x v fs) = if str_eq x k then some v else get_key k fs

-- `o[k] = v`: a key that is there keeps its place
unfoldable pub set_key : String → Json → Fields → Fields
set_key k v end = field k v end
set_key k v (field x u fs) =
    let later = field x u (set_key k v fs) in if str_eq x k then field x v fs else later

-- What is assigned to a key is read from it, and the other keys are as they were.
pub get_key-set_key : (k : String) (v : Json) (fs : Fields) → get_key k (set_key k v fs) ≡ some v
unfolding get_key set_key
get_key-set_key k v end = rw (str_eq_self k) refl
get_key-set_key k v (field x u fs) = elim (Bool-cases (str_eq x k)) [
  | inl same ↦ rw (same, get_key, same) refl
  | inr other ↦ rw (other, get_key, other) (get_key-set_key k v fs)
]

pub get_key-set_key_ne :
    (k x : String) (v : Json) (fs : Fields)
    → str_eq k x ≡ false
    → get_key x (set_key k v fs) ≡ get_key x fs
unfolding get_key set_key
get_key-set_key_ne k x v end apart = rw apart refl
get_key-set_key_ne k x v (field y u fs) apart = elim (Bool-cases (str_eq y k)) [
  | inl same ↦
      let elsewhere : str_eq y x ≡ false = ap (λ z. str_eq z x) ((str_eq_iff y k).0 same) ∙ apart in
      rw (same, get_key, elsewhere) refl
  | inr other ↦ elim (Bool-cases (str_eq y x)) [
    | inl found ↦ rw (other, get_key, found) refl
    | inr no_match ↦ rw (other, get_key, no_match) (get_key-set_key_ne k x v fs apart)
  ]
]
