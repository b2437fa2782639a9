-- ===== src/Sor/Registry.antt =====
-- packages/fde-sor/src/fde_sor/registry.py: the rows of `sor.adapter`, and what reads and writes them.
pub mod Disabled
pub mod Queues
use fde_agent_platform.Prelude.{
  ℕ, code, String, Bool, true, false, ◌&&◌, ◌||◌, Option, none, some, List, [], ◌∷◌, ◌++◌, elem,
  str_eq, ◌==◌, if◌then◌else◌,
}
use fde_agent_platform.Python.Text.{is_empty, split}
use fde_agent_platform.Python.Value.{Value, Fields, null, get, obj, str}
use fde_agent_platform.Sor.Errors.{
  Result, ok, err, database_error, adapter_not_found, unknown_kind, not_implemented, ◌>>=◌,
}
use fde_agent_platform.Sor.Mapping.Spec.{MappingSpec, parse}
use fde_agent_platform.Sor.State.{AdapterRow, SorAdapter, StoredAdapter}

abbrev pub adapter_kinds : List String
adapter_kinds = "rest_poll" ∷ "webhook" ∷ "event_stream" ∷ "db_cdc" ∷ "warehouse_query" ∷ []

-- `WHERE engagement_id = ... AND adapter_key = ...`
abbrev pub is_adapter : String → String → AdapterRow → Bool
is_adapter engagement key row = str_eq row.engagement_id engagement && str_eq row.adapter_key key

abbrev pub find_adapter : String → String → List StoredAdapter → Option AdapterRow
find_adapter engagement key [] = none
find_adapter engagement key (a ∷ as') =
    let rest = find_adapter engagement key as' in
    if is_adapter engagement key a.row then some a.row else rest

abbrev pub found : String → Option AdapterRow → Result AdapterRow
found key none = err (adapter_not_found key)
found key (some row) = ok row

unfoldable pub load_adapter : String → String → List StoredAdapter → Result AdapterRow
load_adapter engagement key rows = found key (find_adapter engagement key rows)

-- PostgreSQL's LIKE: `%` is any text, `_` any character, and `\` takes the next character as it is.
abbrev pub some_suffix : (String → Bool) → String → Bool
some_suffix test String.[] = test ""
some_suffix test (String.◌∷◌ c s) = test (String.◌∷◌ c s) || some_suffix test s

abbrev pub after_any : (String → Bool) → String → Bool
after_any test String.[] = false
after_any test (String.◌∷◌ c s) = test s

abbrev pub after_char : ℕ → (String → Bool) → String → Bool
after_char k test String.[] = false
after_char k test (String.◌∷◌ c s) = code c == k && test s

unfoldable pub like_from : Bool → String → String → Bool
like_from escaped String.[] s = is_empty s
like_from true (String.◌∷◌ c p) s = after_char (code c) (like_from false p) s
like_from false (String.◌∷◌ c p) s =
    if code c == b'%'
    then some_suffix (like_from false p) s
    else if code c == b'_'
    then after_any (like_from false p) s
    else if code c == b'\\'
    then like_from true p s
    else after_char (code c) (like_from false p) s

abbrev pub last_piece : List String → String
last_piece [] = ""
last_piece (x ∷ []) = x
last_piece (x ∷ y ∷ ys) = last_piece (y ∷ ys)

-- `queue_arn.rsplit(":", 1)[-1]`
unfoldable pub queue_name : String → String
unfolding split
queue_name arn = last_piece (split b':' arn)

-- `mapping #>> '{stream,queue_url}' LIKE '%/' || name`. The JSON text of a value that is no text ends in
-- no queue's name.
abbrev pub url_like : String → Value → Bool
url_like pattern (str url) = like_from false pattern url
url_like pattern _ = false

abbrev pub stream_of : Value → Value
stream_of (obj stream) = get stream "queue_url"
stream_of v = null

abbrev pub name_pattern : String → String
name_pattern queue = String.◌∷◌ "%" (String.◌∷◌ "/" queue)

abbrev pub serves : String → AdapterRow → Bool
serves queue row =
    str_eq row.kind "event_stream"
    && row.is_active
    && url_like (name_pattern queue) (stream_of (get row.mapping "stream"))

unfoldable pub adapters_of_queue : String → List StoredAdapter → List AdapterRow
unfolding like_from
adapters_of_queue queue [] = []
adapters_of_queue queue (a ∷ as') =
    let rest = adapters_of_queue queue as' in if serves queue a.row then a.row ∷ rest else rest

abbrev pub only_one : String → List AdapterRow → Result AdapterRow
only_one queue [] = err (adapter_not_found queue)
only_one queue (row ∷ []) = ok row
only_one queue (row ∷ other ∷ rows) = err (adapter_not_found queue)

unfoldable pub load_adapter_by_queue : String → List StoredAdapter → Result AdapterRow
unfolding adapters_of_queue queue_name
load_adapter_by_queue arn rows = only_one (queue_name arn) (adapters_of_queue (queue_name arn) rows)

-- The constructors of the live adapters, and the replay of an export: parameters.
pub record Builders : Type 0 where
  pub rest_poll : MappingSpec → Option String → SorAdapter
  pub event_stream : Fields → SorAdapter
  pub db_cdc : Fields → Option String → Option String → SorAdapter
  pub replay : String → SorAdapter

abbrev pub build_kind : Builders → AdapterRow → Option String → MappingSpec → Result SorAdapter
build_kind b row dsn spec =
    if str_eq row.kind "rest_poll"
    then ok (b.rest_poll spec row.secret_arn)
    else if str_eq row.kind "event_stream"
    then ok (b.event_stream spec.stream)
    else if str_eq row.kind "db_cdc"
    then ok (b.db_cdc spec.cdc row.secret_arn dsn)
    else err (not_implemented row.kind)

-- `build_adapter`
unfoldable pub build_adapter :
    Builders → AdapterRow → Option String → Option String → Result SorAdapter
unfolding parse
build_adapter b row (some uri) dsn = ok (b.replay uri)
build_adapter b row none dsn = parse row.mapping >>= build_kind b row dsn

-- What an operator registers.
pub record Registration : Type 0 where
  pub engagement_id : String
  pub adapter_key : String
  pub system_node_key : String
  pub kind : String
  pub mapping : Fields
  pub secret_arn : Option String
  pub poll_cron : Option String

-- The row that the INSERT writes under an id that the database gives.
abbrev pub registered : ℕ → Registration → StoredAdapter
registered id r = record {
  row = record {
    adapter_id = id;
    engagement_id = r.engagement_id;
    adapter_key = r.adapter_key;
    system_node_key = r.system_node_key;
    kind = r.kind;
    secret_arn = r.secret_arn;
    mapping = r.mapping;
    last_cursor = none;
    poll_cron = r.poll_cron;
    is_active = true;
  };
  last_synced_at = none;
}

-- The INSERT: the table allows one row for an engagement and a key.
abbrev pub insert_adapter :
    ℕ → Registration → List StoredAdapter → Option AdapterRow → Result (List StoredAdapter)
insert_adapter id r rows (some taken) = err database_error
insert_adapter id r rows none = ok (rows ++ registered id r ∷ [])

-- `register_adapter`
unfoldable pub register_adapter :
    ℕ → Registration → List StoredAdapter → Result (List StoredAdapter)
unfolding parse
register_adapter id r rows =
    if elem r.kind adapter_kinds
    then parse r.mapping
      >>= (λ spec. insert_adapter id r rows (find_adapter r.engagement_id r.adapter_key rows))
    else err (unknown_kind r.kind)

abbrev pub disable_row : String → String → StoredAdapter → StoredAdapter
disable_row engagement key a =
    if is_adapter engagement key a.row
    then record a { row = record a.row { is_active = false } }
    else a

-- `disable_adapter`: the UPDATE.
unfoldable pub disable_adapter : String → String → List StoredAdapter → List StoredAdapter
disable_adapter engagement key [] = []
disable_adapter engagement key (a ∷ as') =
    disable_row engagement key a ∷ disable_adapter engagement key as'
