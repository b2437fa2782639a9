-- ===== src/Sor/Hashing/Closed.antt =====
-- hashing.py: a salt that cannot be resolved stops the caller and leaves the cache alone; one that was
-- resolved stays.
use text.Mathlib.TextPositions.{eq_refl}
use fde_agent_platform.Prelude.{String, none, some, [], ◌∷◌, ◌≡◌, arith, eq_iff}
use fde_agent_platform.Sor.Mapping.Normalize.{lookup, insert}
use fde_agent_platform.Sor.State.{SorSettings}
use fde_agent_platform.Sor.Hashing.{SaltCache, Secrets, resolve_salt, non_empty}

lookup-insert_self : (k v : String) (m : SaltCache) → lookup k (insert k v m) ≡ some v
lookup-insert_self k v [] = rw eq_refl
lookup-insert_self k v ((j, w) ∷ m) = ground (arith, lookup-insert_self k v m, eq_iff j k)

module _ (settings : SorSettings) (secrets : Secrets) (engagement_id : String)
    (cache : SaltCache) where
  pub resolve_salt-none :
      (resolve_salt settings secrets engagement_id cache).0 ≡ none
      → (resolve_salt settings secrets engagement_id cache).1 ≡ cache
  unfolding resolve_salt
  resolve_salt-none h = ground arith

  -- A salt that was resolved without the environment is resolved again from the cache, with no call of
  -- Secrets Manager and to the same salt, whatever the secrets are by then.
  pub resolve_salt_again :
      (later : Secrets) (salt : String)
      → non_empty settings.actor_hash_salt ≡ none
      → (resolve_salt settings secrets engagement_id cache).0 ≡ some salt
      → resolve_salt settings later engagement_id
          (resolve_salt settings secrets engagement_id cache).1
        ≡ (some salt, (resolve_salt settings secrets engagement_id cache).1)
  unfolding resolve_salt
  resolve_salt_again later salt env h = ground (arith, lookup-insert_self engagement_id salt cache)
