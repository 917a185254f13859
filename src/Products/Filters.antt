-- ===== src/Products/Filters.antt =====
-- The dynamic SQL of src/products/products.service.ts: `buildSearchFilters`, and
-- `escapeLike` of src/common/helpers/db.helpers.ts. A clause is kept in three pieces, its text up to
-- the placeholder, the placeholder's number and the text after it.
pub mod Placeholders
use Prim.Native.String.{◌++◌}
use Prim.Native.Char.{Char, code}
use market_place.Base.{
  ℕ, ◌+◌, String, Bool, true, false, Option, none, some, List, [], ◌∷◌, ◌==◌, ◌||◌, ◌&&◌, not,
  str_eq, if◌then◌else◌, length,
}
use market_place.Base.Text.{truthy_text}

-- a value of the parameter list; prices and rates as the client sends them
pub data Param : Type 0 where
  text : String → Param
  number : ℕ → Param

pub record Clause : Type 0 where
  pub before : String
  pub placeholder : ℕ
  pub after : String

-- The fields of SearchProductsDto and ListMyProductsDto that the filters read.
pub record FilterDto : Type 0 where
  pub category : Option String
  pub subcategory : Option String
  pub min_price : Option ℕ
  pub max_price : Option ℕ
  pub from_date : Option String
  pub to_date : Option String
  pub city : Option String
  pub address_text : Option String
  pub q : Option String
  pub min_rate : Option ℕ
  pub status : Option String

-- str.replace(/[%_\\]/g, '\\$&')
unfoldable pub escape_like : String → String
escape_like String.[] = ""
escape_like (String.◌∷◌ c s) =
    let rest = escape_like s in
    if code c == b'%' || code c == b'_' || code c == b'\\'
    then String.◌∷◌ "\\" (String.◌∷◌ c rest)
    else String.◌∷◌ c rest

-- Array.push
unfoldable pub push : {A : Type 0} → A → List A → List A
push a [] = a ∷ []
push a (x ∷ xs) = x ∷ push a xs

pub record Filters : Type 0 where
  pub clauses : List Clause
  pub params : List Param

-- `params.push(v); clauses.push(… $${base + params.length} …)`
unfoldable pub push_filter : ℕ → String → String → Param → Filters → Filters
push_filter base before after v f = record {
  clauses =
      push
        (record { before = before; placeholder = base + length (push v f.params); after = after })
        f.clauses;
  params = push v f.params;
}

unfoldable pub push_text : ℕ → String → String → Option String → Filters → Filters
push_text base before after none f = f
push_text base before after (some s) f = push_filter base before after (text s) f

unfoldable pub push_number : ℕ → String → String → Option ℕ → Filters → Filters
push_number base before after none f = f
push_number base before after (some n) f = push_filter base before after (number n) f

-- "all" is no filter
abbrev pub not_all : Option String → Option String
not_all none = none
not_all (some s) = if str_eq s "all" then none else some s

-- %…% around the escaped text
abbrev pub like_pattern : Option String → Option String
like_pattern none = none
like_pattern (some s) = some ("%" ++ escape_like s ++ "%")

abbrev pub status_filter : String → Option String → Option String
status_filter String.[] status = none
status_filter (String.◌∷◌ c s) status = truthy_text status

-- `base` is the number of the leading parameters
unfoldable pub build_search_filters : FilterDto → ℕ → String → Filters
build_search_filters dto base prefix =
    let f0 : Filters = record { clauses = []; params = [] } in
    let f1 = push_text base ("AND " ++ prefix ++ "category = $") "" (truthy_text dto.category) f0 in
    let f2 =
      push_text base ("AND " ++ prefix ++ "subcategory = $") ""
        (not_all (truthy_text dto.subcategory)) f1 in
    let f3 = push_number base ("AND " ++ prefix ++ "price >= $") "" dto.min_price f2 in
    let f4 = push_number base ("AND " ++ prefix ++ "price <= $") "" dto.max_price f3 in
    let f5 =
      push_text base ("AND " ++ prefix ++ "created_at >= $") "" (truthy_text dto.from_date) f4 in
    let f6 =
      push_text base ("AND " ++ prefix ++ "created_at <= $") "" (truthy_text dto.to_date) f5 in
    let f7 =
      push_text base ("AND " ++ prefix ++ "city ILIKE $") " ESCAPE '\\'"
        (like_pattern (truthy_text dto.city)) f6 in
    let f8 =
      push_text base ("AND " ++ prefix ++ "address_text ILIKE $") " ESCAPE '\\'"
        (like_pattern (truthy_text dto.address_text)) f7 in
    let f9 =
      push_text base
        ("AND to_tsvector('simple', COALESCE(" ++ prefix ++ "name,'') || ' ' || COALESCE(" ++ prefix
          ++ "description,'')) @@ plainto_tsquery('simple', $")
        ")" (truthy_text dto.q) f8 in
    let f10 = push_number base ("AND " ++ prefix ++ "seller_rate >= $") "" dto.min_rate f9 in
    push_text base ("AND " ++ prefix ++ "status = $") "" (status_filter prefix dto.status) f10

-- the placeholders of LIMIT and OFFSET in `listMyProducts` (one leading parameter) and in
-- `searchProducts` (none)
unfoldable pub limit_index : ℕ → List Param → ℕ
limit_index base params = base + length params + 1

unfoldable pub offset_index : ℕ → List Param → ℕ
offset_index base params = base + length params + 2
