-- ===== src/Cache/Facade.antt =====
-- The cache of backend/internal/system/cache/cache.go that the services use, and its configuration.
-- Sizes and durations are numbers: the code treats a negative size as it treats 0, and a negative
-- TTL of the whole configuration, with which every entry is expired at once, is left out. The
-- `default` of `newCache` is not reached, since `getCacheType` returns one type only.
use Prim.Native.Nat.{◌*◌}
use thunder_fork.Prelude.{
  ℕ, String, ◌==◌, Bool, true, false, not, ◌&&◌, Option, none, some, List, [], ◌∷◌, eqb,
  if◌then◌else◌,
}
use thunder_fork.Cache.{EvictionPolicy, lru, lfu, InMemoryCache, new_in_memory_cache}

pub data CacheType : Type 0 where
  in_memory : CacheType

pub record CacheProperty : Type 0 where
  pub name : String
  pub disabled : Bool
  pub size : ℕ
  pub ttl : ℕ
  pub eviction_policy : String

pub record CacheConfig : Type 0 where
  pub disabled : Bool
  pub type : String
  pub size : ℕ
  pub ttl : ℕ
  pub eviction_policy : String
  pub properties : List CacheProperty

unfoldable pub get_cache_type : CacheConfig → CacheType
get_cache_type config =
    if config.type == ""
    then in_memory
    else if config.type == "inmemory"
    then in_memory
    else in_memory

-- The zero value of the struct.
abbrev pub no_property : CacheProperty
no_property = record { name = ""; disabled = false; size = 0; ttl = 0; eviction_policy = "" }

unfoldable pub find_property : List CacheProperty → String → CacheProperty
find_property [] cache_name = no_property
find_property (p ∷ ps) cache_name = if p.name == cache_name then p else find_property ps cache_name

unfoldable pub get_cache_property : CacheConfig → String → CacheProperty
unfolding find_property
get_cache_property config cache_name = find_property config.properties cache_name

unfoldable pub policy_of : String → EvictionPolicy
policy_of policy =
    if policy == ""
    then lru
    else if policy == "LRU"
    then lru
    else if policy == "LFU"
    then lfu
    else lru

unfoldable pub get_eviction_policy : CacheConfig → CacheProperty → EvictionPolicy
unfolding policy_of
get_eviction_policy config property =
    policy_of
      (if property.eviction_policy == "" then config.eviction_policy else property.eviction_policy)

unfoldable pub get_cache_size : CacheConfig → CacheProperty → ℕ
get_cache_size config property = if eqb property.size 0 then config.size else property.size

unfoldable pub get_cache_ttl : CacheConfig → CacheProperty → ℕ
get_cache_ttl config property = if eqb property.ttl 0 then config.ttl else property.ttl

-- `time.Second`, in nanoseconds.
abbrev pub second : ℕ
second = 1_000_000_000

-- `internal_cache` is none where the code has nil.
pub record Cache {ℓ} (V : Type ℓ) : Type ℓ where
  pub enabled : Bool
  pub cache_name : String
  pub internal_cache : Option (InMemoryCache V)

module _ {ℓ} {V : Type ℓ} where
  unfoldable pub new_cache : CacheConfig → String → Cache V
  new_cache config cache_name =
      let property = get_cache_property config cache_name in
      if config.disabled
      then record { enabled = false; cache_name = cache_name; internal_cache = none }
      else if property.disabled
      then record { enabled = false; cache_name = cache_name; internal_cache = none }
      else record {
        enabled = true;
        cache_name = cache_name;
        internal_cache = some (
            new_in_memory_cache cache_name (not property.disabled) (get_cache_size config property)
              (get_cache_ttl config property * second) (get_eviction_policy config property));
      }

  -- A method that calls the internal cache, if both caches are enabled. (Where `enabled` is set the
  -- internal cache is not nil.)
  unfoldable pub with_internal : (InMemoryCache V → InMemoryCache V) → Cache V → Cache V
  with_internal f c = elim c.internal_cache [
    | none ↦ c
    | some i ↦ if c.enabled && i.enabled then record c { internal_cache = some (f i) } else c
  ]

  unfoldable pub set : String → V → ℕ → Cache V → Cache V
  unfolding with_internal
  set key value now = with_internal (thunder_fork.Cache.set key value now)

  unfoldable pub get : String → ℕ → ℕ → Cache V → Cache V × Option V
  get key now later c = elim c.internal_cache [
    | none ↦ (c, none)
    | some i ↦
        if c.enabled && i.enabled
        then (let (i', found) = thunder_fork.Cache.get key now later i in
            (record c { internal_cache = some i' }, found))
        else (c, none)
  ]

  unfoldable pub delete : String → Cache V → Cache V
  unfolding with_internal
  delete key = with_internal (thunder_fork.Cache.delete key)

  unfoldable pub clear : Cache V → Cache V
  unfolding with_internal
  clear = with_internal thunder_fork.Cache.clear

  unfoldable pub cleanup_expired : ℕ → Cache V → Cache V
  unfolding with_internal
  cleanup_expired now = with_internal (thunder_fork.Cache.cleanup_expired now)
