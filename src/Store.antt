-- ===== src/Store.antt =====
-- The items that a project's clients keep: the store handlers of
-- services/api-server/internal/server/server.go. Text is by the characters' numbers. A value that
-- came as JSON is what its column gives back.
pub mod Laws
pub mod Apart
use langopen.Prelude.{
  ℕ, Bool, true, false, ◌&&◌, ◌||◌, Option, none, some, List, [], ◌∷◌, ◌++◌, map, keep, take, find,
  any, nat_eq, leb, if◌then◌else◌, not,
}
use langopen.Prelude.Maps.{lookup, insert}
use langopen.Prelude.Text.{Codes, codes, codes_eq, has_prefix, drop_prefix, trim_codes}
use langopen.Json.{Json}

pub record StoreRecord : Type 0 where
  pub id : Codes
  pub namespace : Codes
  pub key : Codes
  pub value : Json
  pub metadata : Json
  pub created_at : ℕ

-- The table `store_items`, with statements that get through or all fail.
pub record ItemTable : Type 0 where
  pub rows : List StoreRecord
  pub reachable : Bool

-- `s.pg`, and the map that stands in for it where there is none.
pub record Items : Type 0 where
  pub table : Option ItemTable
  pub memory : List (Codes × StoreRecord)

pub data StoreResponse : Type 0 where
  item_response : ℕ → StoreRecord → StoreResponse
  items_response : List StoreRecord → StoreResponse
  done_response : StoreResponse
  store_error : ℕ → Codes → StoreResponse

unfoldable pub store_key : Codes → Codes → Codes
store_key namespace key = namespace ++ (0 ∷ key)

unfoldable pub scoped_namespace : Codes → Codes → Codes
scoped_namespace project_id namespace =
    let project = trim_codes project_id in
    if codes_eq project [] then namespace else project ++ (b':' ∷ namespace)

unfoldable pub unscoped_namespace : Codes → Codes → Codes
unscoped_namespace project_id namespace =
    let project = trim_codes project_id in
    let prefix = project ++ (b':' ∷ []) in
    if codes_eq project []
    then namespace
    else if has_prefix namespace prefix
    then drop_prefix namespace prefix
    else namespace

abbrev pub is_item : Codes → Codes → StoreRecord → Bool
is_item namespace key row = codes_eq row.namespace namespace && codes_eq row.key key

abbrev pub set_value : Json → Json → StoreRecord → StoreRecord
set_value value metadata row = record row { value = value; metadata = metadata }

-- INSERT … ON CONFLICT (namespace, key) DO UPDATE.
unfoldable pub upsert : StoreRecord → List StoreRecord → List StoreRecord
upsert new [] = new ∷ []
upsert new (row ∷ rows) =
    let later = upsert new rows in
    if is_item new.namespace new.key row
    then set_value new.value new.metadata row ∷ rows
    else row ∷ later

-- SQL's LIKE; no pattern of the source has the escape character.
abbrev pub any_suffix : (Codes → Bool) → Codes → Bool
any_suffix f [] = f []
any_suffix f (c ∷ s) = f (c ∷ s) || any_suffix f s

abbrev pub at_head : (ℕ → Bool) → (Codes → Bool) → Codes → Bool
at_head p f [] = false
at_head p f (c ∷ s) = p c && f s

unfoldable pub like : Codes → Codes → Bool
like [] [] = true
like [] (c ∷ s) = false
like (p ∷ ps) s =
    if nat_eq p b'%'
    then any_suffix (like ps) s
    else if nat_eq p b'_'
    then at_head (λ c. true) (like ps) s
    else at_head (nat_eq p) (like ps) s

-- ORDER BY created_at DESC.
abbrev pub place : StoreRecord → List StoreRecord → List StoreRecord
place row [] = row ∷ []
place row (r ∷ rs) =
    let later = place row rs in if leb r.created_at row.created_at then row ∷ r ∷ rs else r ∷ later

abbrev pub newest_first : List StoreRecord → List StoreRecord
newest_first [] = []
newest_first (r ∷ rs) = place r (newest_first rs)

-- The WHERE clause of `listStoreItemsFromPostgres`.
unfoldable pub is_listed : Codes → Codes → StoreRecord → Bool
unfolding scoped_namespace like
is_listed project_id filter row =
    if codes_eq project_id []
    then codes_eq filter [] || codes_eq row.namespace filter
    else if codes_eq filter []
    then like (scoped_namespace project_id (codes "%")) row.namespace
    else codes_eq row.namespace (scoped_namespace project_id filter)

abbrev pub as_seen : Codes → StoreRecord → StoreRecord
as_seen project_id row =
    if codes_eq project_id []
    then row
    else record row { namespace = unscoped_namespace project_id row.namespace }

abbrev pub in_memory_listed : Codes → StoreRecord → Bool
in_memory_listed filter row = codes_eq filter [] || codes_eq row.namespace filter

abbrev pub list_table :
    Codes → Codes → Option ItemTable → List (Codes × StoreRecord) → StoreResponse
list_table project_id filter none memory =
    items_response (keep (in_memory_listed filter) (map (λ e. e.1) memory))
list_table project_id filter (some t) memory =
    if t.reachable
    then items_response (
        map (as_seen project_id)
          (take 500 (newest_first (keep (is_listed project_id filter) t.rows))))
    else store_error 500 (codes "db_query_failed")

unfoldable pub list_store_items : Codes → Codes → Items → StoreResponse
unfolding is_listed
list_store_items project_id raw_filter items =
    list_table project_id (trim_codes raw_filter) items.table items.memory

abbrev pub bad_item : StoreResponse
bad_item = store_error 400 (codes "invalid_store_item")

abbrev pub lacks_name : Codes → Codes → Bool
lacks_name namespace key = codes_eq namespace [] || codes_eq key []

-- The item of the map, or a new one.
abbrev pub or_new : StoreRecord → Option StoreRecord → StoreRecord
or_new new none = new
or_new new (some row) = set_value new.value new.metadata row

abbrev pub returned : Codes → StoreRecord → Option StoreRecord → StoreResponse
returned namespace new none = store_error 500 (codes "db_insert_failed")
returned namespace new (some row) = item_response 201 (record row { namespace = namespace })

-- `new` is the item of a request that was decoded, with a new id and the time.
abbrev pub put_item : Codes → StoreRecord → Option ItemTable → Items → StoreResponse × Items
put_item project_id new none items =
    let item = or_new new (lookup (store_key new.namespace new.key) items.memory) in
    (
      item_response 201 item,
      record items { memory = insert (store_key new.namespace new.key) item items.memory },
    )
put_item project_id new (some t) items =
    let scoped = record new { namespace = scoped_namespace project_id new.namespace } in
    let rows = upsert scoped t.rows in
    if t.reachable
    then (
      returned new.namespace new (find (is_item scoped.namespace new.key) rows),
      record items { table = some (record t { rows = rows }) },
    )
    else (store_error 500 (codes "db_insert_failed"), items)

unfoldable pub put_store_item : Codes → StoreRecord → Items → StoreResponse × Items
unfolding store_key scoped_namespace upsert
put_store_item project_id raw items =
    let new = record raw { namespace = trim_codes raw.namespace; key = trim_codes raw.key } in
    if lacks_name new.namespace new.key
    then (bad_item, items)
    else put_item project_id new items.table items

abbrev pub found_item : Codes → Option StoreRecord → StoreResponse
found_item namespace none = store_error 404 (codes "store_item_not_found")
found_item namespace (some row) = item_response 200 (record row { namespace = namespace })

abbrev pub kept_item : Option StoreRecord → StoreResponse
kept_item none = store_error 404 (codes "store_item_not_found")
kept_item (some row) = item_response 200 row

abbrev pub get_item :
    Codes → Codes → Codes → Option ItemTable → List (Codes × StoreRecord) → StoreResponse
get_item project_id namespace key none memory = kept_item (lookup (store_key namespace key) memory)
get_item project_id namespace key (some t) memory =
    if t.reachable
    then found_item namespace (find (is_item (scoped_namespace project_id namespace) key) t.rows)
    else store_error 500 (codes "db_query_failed")

unfoldable pub get_store_item : Codes → Codes → Codes → Items → StoreResponse
unfolding store_key scoped_namespace
get_store_item project_id raw_namespace raw_key items =
    let namespace = trim_codes raw_namespace in
    let key = trim_codes raw_key in
    if lacks_name namespace key
    then bad_item
    else get_item project_id namespace key items.table items.memory

unfoldable pub remove : Codes → List (Codes × StoreRecord) → List (Codes × StoreRecord)
remove key [] = []
remove key ((k, v) ∷ rest) =
    let later = remove key rest in if codes_eq k key then later else (k, v) ∷ later

abbrev pub if_known : Codes → Option StoreRecord → Items → StoreResponse × Items
if_known key none items = (store_error 404 (codes "store_item_not_found"), items)
if_known key (some row) items = (done_response, record items { memory = remove key items.memory })

abbrev pub delete_item : Codes → Codes → Codes → Option ItemTable → Items → StoreResponse × Items
delete_item project_id namespace key none items =
    if_known (store_key namespace key) (lookup (store_key namespace key) items.memory) items
delete_item project_id namespace key (some t) items =
    let hit = is_item (scoped_namespace project_id namespace) key in
    if not t.reachable
    then (store_error 500 (codes "db_delete_failed"), items)
    else if any hit t.rows
    then (
      done_response,
      record items { table = some (record t { rows = keep (λ row. not (hit row)) t.rows }) },
    )
    else (store_error 404 (codes "store_item_not_found"), items)

unfoldable pub delete_store_item : Codes → Codes → Codes → Items → StoreResponse × Items
unfolding store_key scoped_namespace remove
delete_store_item project_id raw_namespace raw_key items =
    let namespace = trim_codes raw_namespace in
    let key = trim_codes raw_key in
    if lacks_name namespace key
    then (bad_item, items)
    else delete_item project_id namespace key items.table items
