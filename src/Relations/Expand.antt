-- ===== src/Relations/Expand.antt =====
-- `expand` of src/common/relations/fk-expansion.service.ts: collect the ids, fetch their rows, and
-- rebuild the value.
pub mod Direct
use market_place.Base.{
  ℕ, String, Bool, true, false, Option, none, some, List, [], ◌∷◌, ◌==◌, ◌&&◌, ◌||◌, any,
  if◌then◌else◌, get_or_else, find_all, or_else,
}
use market_place.Base.Json.{
  Json, null, boolean, number, other_number, text, array, object, Items, nil, cons, Fields, end,
  field, has_key, append_field,
}
use market_place.Store.{Db}
use market_place.Relations.Rules.{
  Entity, user, category, product, message, conversation, file, FkRule, applied_rule, output_key_of,
  id_of,
}
use market_place.Relations.Entities.{rows_of}

abbrev pub same_entity : Entity → Entity → Bool
same_entity user user = true
same_entity category category = true
same_entity product product = true
same_entity message message = true
same_entity conversation conversation = true
same_entity file file = true
same_entity _ _ = false

-- idsByEntity, the ids of all the sets with their entity
abbrev pub Ids : Type 0
Ids = List (Entity × ℕ)

unfoldable pub has_id : Entity → ℕ → Ids → Bool
has_id e id ids = any (λ (x : Entity × ℕ). same_entity x.0 e && x.1 == id) ids

-- Set.add
unfoldable pub add_id : Entity → ℕ → Ids → Ids
add_id e id ids = if has_id e id ids then ids else (e, id) ∷ ids

abbrev note_id : Entity → Option ℕ → Ids → Ids
note_id e none ids = ids
note_id e (some id) ids = add_id e id ids

abbrev pub note : Option FkRule → Json → Ids → Ids
note none v ids = ids
note (some rule) v ids = note_id rule.entity (id_of v) ids

-- the walk of `collectIds`; `typed` is whether the object at hand has an `owner_type`
unfoldable mutual
  pub walk : Json → Ids → Ids
  walk (array vs) ids = walk_items vs ids
  walk (object fs) ids = walk_fields (has_key "owner_type" fs) fs ids
  walk _ ids = ids

  pub walk_items : Items → Ids → Ids
  walk_items nil ids = ids
  walk_items (cons v vs) ids = walk_items vs (walk v ids)

  pub walk_fields : Bool → Fields → Ids → Ids
  walk_fields typed end ids = ids
  walk_fields typed (field k v fs) ids =
      walk_fields typed fs (walk v (note (applied_rule typed k) v ids))

unfoldable pub collect_ids : Json → Ids
collect_ids payload = walk payload []

-- `new Map(records.map((item) => [Number(item.id), item]))`: the last entry of a key counts
unfoldable pub map_get : ℕ → List (ℕ × Json) → Option Json
map_get id [] = none
map_get id ((k, v) ∷ rest) = or_else (map_get id rest) (if k == id then some v else none)

-- `WHERE id = ANY($1)`
unfoldable pub fetch : String → Entity → Ids → Db → List (ℕ × Json)
fetch cloud_name e ids d = find_all (λ (r : ℕ × Json). has_id e r.0 ids) (rows_of cloud_name e d)

-- what an id of an entity is replaced by
abbrev pub Lookup : Type 0
Lookup = Entity → ℕ → Option Json

-- mapsByEntity of `resolveEntities`
unfoldable pub resolve_entities : String → Ids → Db → Lookup
resolve_entities cloud_name ids d e id = map_get id (fetch cloud_name e ids d)

abbrev resolved : Lookup → Entity → Option ℕ → Json
resolved look e none = null
resolved look e (some id) = get_or_else (look e id) null

-- the entry that a field of the object becomes
abbrev pub output : Lookup → Option FkRule → String → Json → Json → String × Json
output look none key v transformed = (key, transformed)
output look (some rule) key v transformed =
    (output_key_of rule key, resolved look rule.entity (id_of v))

-- a key that is already there keeps its value
abbrev pub set_new : String × Json → Fields → Fields
set_new (k, v) out = if has_key k out then out else append_field k v out

unfoldable mutual
  pub transform : Lookup → Json → Json
  transform look (array vs) = array (transform_items look vs)
  transform look (object fs) = object (transform_fields look (has_key "owner_type" fs) fs end)
  transform look null = null
  transform look (boolean b) = boolean b
  transform look (number n) = number n
  transform look (other_number s) = other_number s
  transform look (text s) = text s

  pub transform_items : Lookup → Items → Items
  transform_items look nil = nil
  transform_items look (cons v vs) = cons (transform look v) (transform_items look vs)

  pub transform_fields : Lookup → Bool → Fields → Fields → Fields
  transform_fields look typed end out = out
  transform_fields look typed (field k v fs) out =
      transform_fields look typed fs
        (set_new (output look (applied_rule typed k) k v (transform look v)) out)

unfoldable pub expand : String → Json → Db → Json
expand cloud_name payload d =
    transform (resolve_entities cloud_name (collect_ids payload) d) payload
