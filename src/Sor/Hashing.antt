-- ===== src/Sor/Hashing.antt =====
-- packages/fde-sor/src/fde_sor/hashing.py. Secrets Manager is a parameter: the secret text of a name,
-- where `none` is any failure of the call or an answer without a text.
pub mod Closed
use Prim.Native.String.{◌++◌}
use fde_agent_platform.Prelude.{String, Option, none, some, List, [], if◌then◌else◌}
use fde_agent_platform.Python.Text.{is_empty}
use fde_agent_platform.Sor.Errors.{Result, ok, err, salt_unavailable, unicode_error}
use fde_agent_platform.Sor.Stdlib.{Stdlib}
use fde_agent_platform.Sor.Mapping.Spec.{MappingSpec}
use fde_agent_platform.Sor.Mapping.Normalize.{Hasher, lookup, insert}
use fde_agent_platform.Sor.State.{SorSettings}

abbrev pub SaltCache : Type 0
SaltCache = List (String × String)

abbrev pub Secrets : Type 0
Secrets = String → Option String

-- A text that is there and not empty.
abbrev pub non_empty : Option String → Option String
non_empty none = none
non_empty (some s) = if is_empty s then none else some s

unfoldable pub actor_hash : Stdlib → String → String → Result String
actor_hash py salt raw_identifier =
    if py.encodes raw_identifier then ok (py.hmac_sha256 salt raw_identifier) else err unicode_error

unfoldable pub build_hasher : Stdlib → String → Hasher
unfolding actor_hash
build_hasher py salt = λ raw_identifier. actor_hash py salt raw_identifier

unfoldable pub fetch_salt_from_secrets_manager : Secrets → String → Option String
fetch_salt_from_secrets_manager secrets secret_name = non_empty (secrets secret_name)

abbrev remember : String → Option String → SaltCache → Option String × SaltCache
remember engagement_id none cache = (none, cache)
remember engagement_id (some salt) cache = (some salt, insert engagement_id salt cache)

abbrev from_cache :
    SorSettings → Secrets → String → Option String → SaltCache → Option String × SaltCache
from_cache settings secrets engagement_id (some salt) cache = (some salt, cache)
from_cache settings secrets engagement_id none cache =
    remember engagement_id
      (fetch_salt_from_secrets_manager secrets (settings.actor_salt_secret_prefix ++ engagement_id))
      cache

abbrev or_from_cache :
    SorSettings → Secrets → String → Option String → SaltCache → Option String × SaltCache
or_from_cache settings secrets engagement_id (some salt) cache = (some salt, cache)
or_from_cache settings secrets engagement_id none cache =
    from_cache settings secrets engagement_id (lookup engagement_id cache) cache

-- The salt, and the cache as the call leaves it.
unfoldable pub resolve_salt : SorSettings → Secrets → String → SaltCache → Option String × SaltCache
unfolding fetch_salt_from_secrets_manager
resolve_salt settings secrets engagement_id cache =
    or_from_cache settings secrets engagement_id (non_empty settings.actor_hash_salt) cache

abbrev pub clear_salt_cache : SaltCache → SaltCache
clear_salt_cache cache = []

abbrev hasher_of : Stdlib → String → Option String → Result (Option Hasher)
hasher_of py engagement_id none = err (salt_unavailable engagement_id)
hasher_of py engagement_id (some salt) = ok (some (build_hasher py salt))

abbrev hasher_for :
    Stdlib
    → SorSettings
    → Secrets
    → Option String
    → String
    → SaltCache
    → Result (Option Hasher) × SaltCache
hasher_for py settings secrets none engagement_id cache = (ok none, cache)
hasher_for py settings secrets (some path) engagement_id cache = (
  hasher_of py engagement_id (resolve_salt settings secrets engagement_id cache).0,
  (resolve_salt settings secrets engagement_id cache).1,
)

unfoldable pub resolve_actor_hasher :
    Stdlib
    → SorSettings
    → Secrets
    → MappingSpec
    → String
    → SaltCache
    → Result (Option Hasher) × SaltCache
unfolding resolve_salt build_hasher
resolve_actor_hasher py settings secrets spec engagement_id cache =
    hasher_for py settings secrets spec.actor_field engagement_id cache
