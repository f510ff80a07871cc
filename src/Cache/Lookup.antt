-- ===== src/Cache/Lookup.antt =====
-- What the methods of the in-memory cache leave in the map, key by key.
use thunder_fork.Prelude.{
  ℕ, ◌≤◌, String, ◌≡◌, refl, Bool, true, false, Option, none, some, [], ◌∷◌, arith, eq_iff, eq_refl,
  length, last?, if◌then◌else◌, inl, inr, ltb, Bool-cases,
}
use thunder_fork.Prelude.Assoc.{Assoc, lookup, lookup-without, length-without-le, UniqueKeys}
use thunder_fork.Cache.{
  EvictionPolicy, lru, lfu, Stamp, Entry, InMemoryCache, heap_pop, delete_entry, evict_key,
  evict_oldest, evict_least_frequent, evict, shrink, cleanup_loop, cleanup_expired,
}
use thunder_fork.Cache.Synced.{IsSynced, delete_entry-IsSynced}

-- An entry whose expiry lies before `now`.
abbrev pub is_expired {ℓ} : {V : Type ℓ} → ℕ → Option (Entry V) → Bool
is_expired now none = false
is_expired now (some e) = ltb e.expiry_time now

module _ {ℓ} {V : Type ℓ} where
  -- Every entry of the first map stands in the second.
  abbrev pub IsSubmap : Assoc (Entry V) → Assoc (Entry V) → Type ℓ
  IsSubmap m n = (k : String) (e : Entry V) → lookup k m ≡ some e → lookup k n ≡ some e

  evict_key-IsSubmap :
      (key : String) (c : InMemoryCache V) → IsSubmap (evict_key key c).cache c.cache
  unfolding evict_key
  evict_key-IsSubmap key c k e h = ground (arith, lookup-without key k c.cache)

  pub evict-IsSubmap : (c : InMemoryCache V) → IsSubmap (evict c).cache c.cache
  unfolding evict_oldest evict_least_frequent evict
  evict-IsSubmap c k e h = by_policy c.eviction_policy refl
    where
      old :
          (o : Option String)
          → last? c.access_order ≡ o
          → c.eviction_policy ≡ lru
          → lookup k c.cache ≡ some e
      old none p q = ground arith
      old (some key) p q = ground (arith, evict_key-IsSubmap key c k e)

      rare :
          (o : Option (String × Assoc Stamp))
          → heap_pop c.lfu_heap ≡ o
          → c.eviction_policy ≡ lfu
          → lookup k c.cache ≡ some e
      rare none p q = ground arith
      rare (some (key, rest)) p q =
          ground (arith, evict_key-IsSubmap key (record c { lfu_heap = rest }) k e)

      by_policy : (p : EvictionPolicy) → c.eviction_policy ≡ p → lookup k c.cache ≡ some e
      by_policy lru p = old (last? c.access_order) refl p
      by_policy lfu p = rare (heap_pop c.lfu_heap) refl p

  pub shrink-IsSubmap : (c : InMemoryCache V) → IsSubmap (shrink c).cache c.cache
  unfolding shrink
  shrink-IsSubmap c k e h = ground (arith, evict-IsSubmap c k e)

  -- The loop takes out the entries of its list that have expired, and nothing else.
  lookup-cleanup_loop :
      (now : ℕ) (m : Assoc (Entry V)) (c : InMemoryCache V) (k : String)
      → UniqueKeys m
      → lookup k (cleanup_loop now m c).cache
        ≡ (if is_expired now (lookup k m) then none else lookup k c.cache)
  unfolding cleanup_loop lookup
  lookup-cleanup_loop now [] c k u = refl
  lookup-cleanup_loop now ((j, e) ∷ m) c k u = ground (
    arith,
    lookup-cleanup_loop now m (delete_entry j e c) k u.1,
    lookup-cleanup_loop now m c k u.1,
    lookup-without j k c.cache,
    eq_iff j k,
  )

  -- After `CleanupExpired` a key has its entry exactly if it had one that has not expired.
  pub lookup-cleanup_expired :
      (now : ℕ) (c : InMemoryCache V) (k : String)
      → IsSynced c
      → c.enabled ≡ true
      → lookup k (cleanup_expired now c).cache
        ≡ (if is_expired now (lookup k c.cache) then none else lookup k c.cache)
  unfolding cleanup_expired
  lookup-cleanup_expired now c k s h = simp h (lookup-cleanup_loop now c.cache c k s.unique)

  cleanup_loop-IsSynced :
      (now : ℕ) (m : Assoc (Entry V)) (c : InMemoryCache V)
      → UniqueKeys m
      → IsSubmap m c.cache
      → IsSynced c
      → IsSynced (cleanup_loop now m c)
  unfolding cleanup_loop
  cleanup_loop-IsSynced now [] c u sub s = s
  cleanup_loop-IsSynced now ((j, e) ∷ m) c u sub s = elim (Bool-cases (ltb e.expiry_time now)) [
    | inl out ↦ rw out (
        cleanup_loop-IsSynced now m (delete_entry j e c) u.1
          (unfold delete_entry lookup in
            λ k f h. ground (arith, sub k f, lookup-without j k c.cache, eq_iff j k))
          (delete_entry-IsSynced j e c s (sub j e (unfold lookup in ground (arith, eq_refl j)))))
    | inr live ↦ rw live (
        cleanup_loop-IsSynced now m c u.1
          (unfold lookup in λ k f h. ground (arith, sub k f, eq_iff j k)) s)
  ]

  pub cleanup_expired-IsSynced :
      (now : ℕ) (c : InMemoryCache V) → IsSynced c → IsSynced (cleanup_expired now c)
  unfolding cleanup_expired
  cleanup_expired-IsSynced now c s = elim (Bool-cases c.enabled) [
    | inl on ↦ simp on (cleanup_loop-IsSynced now c.cache c s.unique (λ k e h. h) s)
    | inr off ↦ simp off s
  ]

  length-cleanup_loop :
      (now : ℕ) (m : Assoc (Entry V)) (c : InMemoryCache V)
      → length (cleanup_loop now m c).cache ≤ length c.cache
  unfolding cleanup_loop
  length-cleanup_loop now [] c = omega arith
  length-cleanup_loop now ((j, e) ∷ m) c = ground (
    arith,
    length-cleanup_loop now m (delete_entry j e c),
    length-cleanup_loop now m c,
    length-without-le j c.cache,
  )

  pub length-cleanup_expired :
      (now : ℕ) (c : InMemoryCache V) → length (cleanup_expired now c).cache ≤ length c.cache
  unfolding cleanup_expired
  length-cleanup_expired now c = ground (arith, length-cleanup_loop now c.cache c)

  -- The loop touches nothing but the three structures.
  cleanup_loop-settings :
      (now : ℕ) (m : Assoc (Entry V)) (c : InMemoryCache V)
      → ((cleanup_loop now m c).size ≡ c.size)
        × ((cleanup_loop now m c).enabled ≡ c.enabled)
        × ((cleanup_loop now m c).ttl ≡ c.ttl)
        × ((cleanup_loop now m c).eviction_policy ≡ c.eviction_policy)
        × ((cleanup_loop now m c).hit_count ≡ c.hit_count)
        × ((cleanup_loop now m c).miss_count ≡ c.miss_count)
  unfolding cleanup_loop
  cleanup_loop-settings now [] c = (refl, refl, refl, refl, refl, refl)
  cleanup_loop-settings now ((j, e) ∷ m) c =
      ground
        (arith, cleanup_loop-settings now m (delete_entry j e c), cleanup_loop-settings now m c)

  pub cleanup_expired-settings :
      (now : ℕ) (c : InMemoryCache V)
      → ((cleanup_expired now c).size ≡ c.size)
        × ((cleanup_expired now c).enabled ≡ c.enabled)
        × ((cleanup_expired now c).ttl ≡ c.ttl)
        × ((cleanup_expired now c).eviction_policy ≡ c.eviction_policy)
        × ((cleanup_expired now c).hit_count ≡ c.hit_count)
        × ((cleanup_expired now c).miss_count ≡ c.miss_count)
  unfolding cleanup_expired
  cleanup_expired-settings now c = ground (arith, cleanup_loop-settings now c.cache c)
