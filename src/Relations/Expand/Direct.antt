-- ===== src/Relations/Expand/Direct.antt =====
-- The ids that are collected are enough: the answer is what looking each id up in its whole table
-- gives.
use market_place.Base.{
  ℕ, ◌≡◌, refl, sym, ap, ◌∙◌, String, Bool, true, false, Option, none, some, List, [], ◌∷◌, ◌==◌,
  ==_iff, or_else, arith, any, find_all, Bool-cases, Option-cases, inl, inr,
}
use market_place.Base.Json.{
  Json, null, boolean, number, other_number, text, array, object, Items, nil, cons, Fields, end,
  field, has_key,
}
use market_place.Store.{Db}
use market_place.Relations.Rules.{
  Entity, user, category, product, message, conversation, file, FkRule, applied_rule, id_of,
}
use market_place.Relations.Entities.{rows_of}
use market_place.Relations.Expand.{
  same_entity, Ids, has_id, add_id, note, walk, walk_items, walk_fields, collect_ids, map_get,
  fetch, Lookup, resolve_entities, output, set_new, transform, transform_items, transform_fields,
  expand,
}

-- Every id of the first list is in the second.
abbrev Within : Ids → Ids → Type 0
Within a b = (e : Entity) (id : ℕ) → has_id e id a ≡ true → has_id e id b ≡ true

add_id-Within : (e : Entity) (id : ℕ) (ids : Ids) → Within ids (add_id e id ids)
unfolding has_id add_id any
add_id-Within e id ids e' id' h = ground (arith, h)

same_entity_self : (e : Entity) → same_entity e e ≡ true
same_entity_self user = refl
same_entity_self category = refl
same_entity_self product = refl
same_entity_self message = refl
same_entity_self conversation = refl
same_entity_self file = refl

add_id-has_id : (e : Entity) (id : ℕ) (ids : Ids) → has_id e id (add_id e id ids) ≡ true
unfolding has_id add_id any
add_id-has_id e id ids = ground (arith, same_entity_self e)

note-Within : (r : Option FkRule) (v : Json) (ids : Ids) → Within ids (note r v ids)
note-Within none v ids e id h = h
note-Within (some rule) v ids e id h = elim (Option-cases (id_of v)) [
  | inl missing ↦ rw missing h
  | inr (n, found) ↦ rw found (add_id-Within rule.entity n ids e id h)
]

mutual
  unfolding walk

  walk-Within : (v : Json) (ids : Ids) → Within ids (walk v ids)
  walk-Within null ids e id h = h
  walk-Within (boolean b) ids e id h = h
  walk-Within (number n) ids e id h = h
  walk-Within (other_number s) ids e id h = h
  walk-Within (text s) ids e id h = h
  walk-Within (array vs) ids e id h = walk_items-Within vs ids e id h
  walk-Within (object fs) ids e id h = walk_fields-Within (has_key "owner_type" fs) fs ids e id h

  walk_items-Within : (vs : Items) (ids : Ids) → Within ids (walk_items vs ids)
  walk_items-Within nil ids e id h = h
  walk_items-Within (cons v vs) ids e id h =
      walk_items-Within vs (walk v ids) e id (walk-Within v ids e id h)

  walk_fields-Within :
      (typed : Bool) (fs : Fields) (ids : Ids) → Within ids (walk_fields typed fs ids)
  walk_fields-Within typed end ids e id h = h
  walk_fields-Within typed (field k v fs) ids e id h =
      walk_fields-Within typed fs (walk v (note (applied_rule typed k) v ids)) e id (
        walk-Within v (note (applied_rule typed k) v ids) e id
          (note-Within (applied_rule typed k) v ids e id h))

-- The two give the same for every id of the list.
abbrev Agree : Lookup → Lookup → Ids → Type 0
Agree look look' ids = (e : Entity) (id : ℕ) → has_id e id ids ≡ true → look e id ≡ look' e id

weaken : (look look' : Lookup) (a b : Ids) → Within a b → Agree look look' b → Agree look look' a
weaken look look' a b within agree e id h = agree e id (within e id h)

output-Agree :
    (look look' : Lookup) (r : Option FkRule) (k : String) (v t t' : Json) (ids : Ids)
    → t ≡ t'
    → Agree look look' (note r v ids)
    → output look r k v t ≡ output look' r k v t'
output-Agree look look' none k v t t' ids same agree = ap (λ x. (k, x)) same
output-Agree look look' (some rule) k v t t' ids same agree = elim (Option-cases (id_of v)) [
  | inl missing ↦ rw missing refl
  | inr (n, found) ↦
      let noted = rw found at agree in
      rw (found, noted rule.entity n (add_id-has_id rule.entity n ids)) refl
]

mutual
  unfolding walk transform

  transform-Agree :
      (look look' : Lookup) (v : Json) (ids : Ids)
      → Agree look look' (walk v ids)
      → transform look v ≡ transform look' v
  transform-Agree look look' null ids agree = refl
  transform-Agree look look' (boolean b) ids agree = refl
  transform-Agree look look' (number n) ids agree = refl
  transform-Agree look look' (other_number s) ids agree = refl
  transform-Agree look look' (text s) ids agree = refl
  transform-Agree look look' (array vs) ids agree =
      ap array (transform_items-Agree look look' vs ids agree)
  transform-Agree look look' (object fs) ids agree =
      ap object (transform_fields-Agree look look' (has_key "owner_type" fs) fs end ids agree)

  transform_items-Agree :
      (look look' : Lookup) (vs : Items) (ids : Ids)
      → Agree look look' (walk_items vs ids)
      → transform_items look vs ≡ transform_items look' vs
  transform_items-Agree look look' nil ids agree = refl
  transform_items-Agree look look' (cons v vs) ids agree =
      let here = transform-Agree look look' v ids (
        weaken look look' (walk v ids) (walk_items vs (walk v ids))
          (walk_items-Within vs (walk v ids)) agree) in
      let rest = transform_items-Agree look look' vs (walk v ids) agree in rw (here, rest) refl

  transform_fields-Agree :
      (look look' : Lookup) (typed : Bool) (fs out : Fields) (ids : Ids)
      → Agree look look' (walk_fields typed fs ids)
      → transform_fields look typed fs out ≡ transform_fields look' typed fs out
  transform_fields-Agree look look' typed end out ids agree = refl
  transform_fields-Agree look look' typed (field k v fs) out ids agree =
      let r = applied_rule typed k in
      let noted = note r v ids in
      let after =
        weaken look look' (walk v noted) (walk_fields typed fs (walk v noted))
          (walk_fields-Within typed fs (walk v noted)) agree in
      let here = transform-Agree look look' v noted after in
      let entry =
        output-Agree look look' r k v (transform look v) (transform look' v) ids here
          (weaken look look' noted (walk v noted) (walk-Within v noted) after) in
      rw entry (
        transform_fields-Agree look look' typed fs
          (set_new (output look' r k v (transform look' v)) out) (walk v noted) agree)

or_else-none : (o : Option Json) → or_else o none ≡ o
or_else-none none = refl
or_else-none (some v) = refl

true-false : true ≡ false → ⊥
true-false h = ground arith

-- A row with a listed id is found among the rows of the listed ids.
map_get-fetch :
    (e : Entity) (id : ℕ) (ids : Ids) (rows : List (ℕ × Json))
    → has_id e id ids ≡ true
    → map_get id (find_all (λ (r : ℕ × Json). has_id e r.0 ids) rows) ≡ map_get id rows
unfolding map_get find_all
map_get-fetch e id ids [] h = refl
map_get-fetch e id ids ((k, v) ∷ rows) h = elim (Bool-cases (has_id e k ids)) [
  | inl listed ↦ rw (listed, map_get-fetch e id ids rows h) refl
  | inr out ↦ elim (Bool-cases (k == id)) [
    | inl same ↦
        absurd (true-false (sym h ∙ (ap (λ n. has_id e n ids) (sym ((==_iff k id).0 same)) ∙ out)))
    | inr other ↦
        rw (out, map_get-fetch e id ids rows h, other) (sym (or_else-none (map_get id rows)))
  ]
]

-- the reference: each id is looked up in the whole table
abbrev pub whole_tables : String → Db → Lookup
whole_tables cloud_name d e id = map_get id (rows_of cloud_name e d)

-- Expanding a response, with one query for all the ids of an entity that it holds, gives what
-- looking each id up in the whole table gives: no id that is replaced was missed by the collection.
pub expand-direct :
    (cloud_name : String) (payload : Json) (d : Db)
    → expand cloud_name payload d ≡ transform (whole_tables cloud_name d) payload
unfolding expand resolve_entities fetch collect_ids
expand-direct cloud_name payload d =
    transform-Agree (resolve_entities cloud_name (collect_ids payload) d)
      (whole_tables cloud_name d) payload []
      (λ e id h. map_get-fetch e id (walk payload []) (rows_of cloud_name e d) h)
