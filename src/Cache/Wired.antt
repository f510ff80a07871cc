-- ===== src/Cache/Wired.antt =====
-- How the cache of cache.go follows its configuration.
use thunder_fork.Prelude.{
  ℕ, ◌+◌, ◌≤◌, ◌<◌, String, ◌≡◌, ◌==◌, ◌↔◌, ◌⊎◌, true, false, not, none, some, arith, eq_iff, ap,
  ◌∙◌, Bool-cases, inl, inr,
}
use Prim.Native.Nat.{◌*◌}
use thunder_fork.Cache
use thunder_fork.Cache.{EvictionPolicy, lru, lfu, InMemoryCache, new_in_memory_cache}
use thunder_fork.Cache.History.{new-IsValid, set_op}
use thunder_fork.Cache.Writes.{step-settings}
use thunder_fork.Cache.Found.{get-set_self}
use thunder_fork.Cache.Facade.{
  CacheProperty, CacheConfig, get_cache_property, policy_of, get_eviction_policy, get_cache_size,
  get_cache_ttl, second, new_cache, set, get,
}

policy_of-eq-lfu : (s : String) → (policy_of s ≡ lfu) ↔ (s ≡ "LFU")
unfolding policy_of
policy_of-eq-lfu s = (λ h. ground (arith, eq_iff s "LFU"), λ h. rw h)

-- The policy is LFU exactly if the cache's own setting is "LFU", or it has none and the general
-- setting is "LFU". Every other text, known or not, gives LRU.
pub eviction_policy_lfu :
    (config : CacheConfig) (property : CacheProperty)
    → (get_eviction_policy config property ≡ lfu) ↔ (
        (property.eviction_policy ≡ "LFU")
        ⊎ ((property.eviction_policy ≡ "") × (config.eviction_policy ≡ "LFU")))
unfolding get_eviction_policy
eviction_policy_lfu config property = elim (Bool-cases (property.eviction_policy == "")) [
  | inl none_set ↦
      let e : property.eviction_policy ≡ "" = (eq_iff property.eviction_policy "").0 none_set in
      rw none_set (
        λ h. inr (e, (policy_of-eq-lfu config.eviction_policy).0 h),
        elim [
          | inl own ↦ cc (ap (λ s. s == "") own, none_set)
          | inr general ↦ (policy_of-eq-lfu config.eviction_policy).1 general.1
        ],
      )
  | inr own_set ↦ rw own_set (
    λ h. inl ((policy_of-eq-lfu property.eviction_policy).0 h),
    elim [
      | inl own ↦ (policy_of-eq-lfu property.eviction_policy).1 own
      | inr general ↦ cc (own_set, (eq_iff property.eviction_policy "").1 general.0)
    ],
  )
]

module _ {ℓ} {V : Type ℓ} (config : CacheConfig) (name : String) where
  abbrev inner : InMemoryCache V
  inner =
      let property = get_cache_property config name in
      new_in_memory_cache name (not property.disabled) (get_cache_size config property)
        (get_cache_ttl config property * second) (get_eviction_policy config property)

  -- A cache disabled in general or by itself stores nothing.
  pub disabled_cache :
      (key : String) (value : V) (t now later : ℕ)
      → (config.disabled ≡ true) ⊎ ((get_cache_property config name).disabled ≡ true)
      → (get key now later (set key value t (new_cache config name))).1 ≡ none
  unfolding new_cache set get
  disabled_cache key value t now later h = ground arith

  -- A cache that is not disabled, whose policy comes out as LRU and whose size is not 0, returns
  -- what was set until the configured number of seconds has passed.
  pub configured_get-set :
      (key : String) (value : V) (t now later : ℕ)
      → config.disabled ≡ false
      → (get_cache_property config name).disabled ≡ false
      → get_eviction_policy config (get_cache_property config name) ≡ lru
      → 0 < get_cache_size config (get_cache_property config name)
      → now ≤ t + get_cache_ttl config (get_cache_property config name) * second
      → (get key now later (set key value t (new_cache config name))).1 ≡ some value
  unfolding new_cache set get
  configured_get-set key value t now later on on' policy pos h =
      let enabled : inner.enabled ≡ true = unfold new_in_memory_cache in ground arith in
      let is_lru : inner.eviction_policy ≡ lru = unfold new_in_memory_cache in ground arith in
      let pos' : 0 < inner.size = unfold new_in_memory_cache in ground arith in
      let in_time : now ≤ t + inner.ttl = unfold new_in_memory_cache in ground arith in
      let found : (Cache.get key now later (Cache.set key value t inner)).1 ≡ some value =
        get-set_self inner (new-IsValid _ _ _ _ _) key value t now later enabled
          (inr (inr (is_lru, pos'))) in_time in
      let still : (Cache.set key value t inner).enabled ≡ true =
        (step-settings inner (set_op key value t)).0 ∙ enabled in
      ground (arith, found, still)
