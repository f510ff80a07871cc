-- ===== src/Cache/Evict.antt =====
-- What `evict` takes out of the in-memory cache, and the size of the cache.
use thunder_fork.Prelude.{
  suc, ◌+◌, ◌≤◌, ◌<◌, String, ◌≡◌, refl, ap, false, Option, none, some, [], arith, eq_refl, length,
  last?, contains-last?, last?-none, Option-cases, inl, inr, ltb, ltb→le, ltb→lt, Bool-cases,
  some_of_is_some,
}
use thunder_fork.Prelude.Assoc.{
  Assoc, lookup, without, length-without, lookup-without, eq_nil_of_lookup,
}
use thunder_fork.Cache.{
  EvictionPolicy, lru, lfu, Stamp, Entry, InMemoryCache, less, heap_pop, delete_entry,
  evict_least_frequent, evict, shrink,
}
use thunder_fork.Cache.Heap.{heap_pop-IsPopped, heap_pop-none}
use thunder_fork.Cache.Synced.{IsSynced, delete_entry-IsSynced, stamp_of}

abbrev popped_key : Option (String × Assoc Stamp) → Option String
popped_key none = none
popped_key (some (k, _)) = some k

pop_none : (o : Option (String × Assoc Stamp)) → popped_key o ≡ none → o ≡ none
pop_none none h = refl
pop_none (some (k, rest)) h = cc

popped :
    (o : Option (String × Assoc Stamp)) (key : String)
    → popped_key o ≡ some key
    → (rest : Assoc Stamp) × (o ≡ some (key, rest))
popped none key p = cc
popped (some (k, rest)) key p = (rest, ground arith)

-- The key that `evict` takes out next.
abbrev pub victim {ℓ} : {V : Type ℓ} → InMemoryCache V → Option String
victim c = elim c.eviction_policy [
  | lru ↦ last? c.access_order
  | lfu ↦ popped_key (heap_pop c.lfu_heap)
]

module _ {ℓ} {V : Type ℓ} where
  -- The result of an eviction of `key`.
  abbrev pub evicted : String → Entry V → InMemoryCache V → InMemoryCache V
  evicted key entry c = record (delete_entry key entry c) { evict_count = c.evict_count + 1 }

  module _ (c : InMemoryCache V) (s : IsSynced c) (key : String) where
    held_lru :
        c.eviction_policy ≡ lru
        → last? c.access_order ≡ some key
        → (entry : Entry V) × (lookup key c.cache ≡ some entry)
    held_lru p q =
        some_of_is_some (lookup key c.cache)
          (ground (arith, s.listed key, contains-last? key c.access_order))

    evict_lru :
        (entry : Entry V)
        → c.eviction_policy ≡ lru
        → last? c.access_order ≡ some key
        → lookup key c.cache ≡ some entry
        → evict c ≡ evicted key entry c
    unfolding evict
    evict_lru entry p q r = ground arith

    held_lfu :
        (t : Stamp)
        → c.eviction_policy ≡ lfu
        → lookup key c.lfu_heap ≡ some t
        → (entry : Entry V) × (lookup key c.cache ≡ some entry)
    held_lfu t p q = some_of_is_some (lookup key c.cache) (ground (arith, s.heaped key))

    evict_lfu :
        (entry : Entry V) (t : Stamp)
        → c.eviction_policy ≡ lfu
        → heap_pop c.lfu_heap ≡ some (key, without key c.lfu_heap)
        → lookup key c.lfu_heap ≡ some t
        → lookup key c.cache ≡ some entry
        → evict c ≡ evicted key entry c
    unfolding evict_least_frequent evict
    evict_lfu entry t p q r u =
        ground (arith, s.pointed key entry u, lookup-without key key c.lfu_heap, eq_refl key)

  -- If the three structures agree and there is a victim, an eviction takes its entry, and nothing
  -- else, out of all three.
  pub evict-victim :
      (c : InMemoryCache V) (key : String)
      → IsSynced c
      → victim c ≡ some key
      → (entry : Entry V) × (lookup key c.cache ≡ some entry) × (evict c ≡ evicted key entry c)
  evict-victim c key s v = by_policy c.eviction_policy refl
    where
      by_policy :
          (p : EvictionPolicy)
          → c.eviction_policy ≡ p
          → (entry : Entry V) × (lookup key c.cache ≡ some entry) × (evict c ≡ evicted key entry c)
      by_policy lru p =
          let q : last? c.access_order ≡ some key = ground arith in
          let (entry, held) = held_lru c s key p q in
          (entry, held, evict_lru c s key entry p q held)
      by_policy lfu p =
          let (rest, q) = popped (heap_pop c.lfu_heap) key (ground arith) in
          let (t, popped) = heap_pop-IsPopped c.lfu_heap key rest s.heap_unique q in
          let (entry, held) = held_lfu c s key t p popped.held in
          (entry, held, evict_lfu c s key entry t p (cc (q, popped.rest_without)) popped.held held)

  -- Under LFU no entry has fewer accesses than the victim, and none with as many was accessed
  -- earlier.
  pub lfu_victim_least :
      (c : InMemoryCache V) (key : String) (e : Entry V) (k : String) (f : Entry V)
      → IsSynced c
      → c.eviction_policy ≡ lfu
      → victim c ≡ some key
      → lookup key c.cache ≡ some e
      → lookup k c.cache ≡ some f
      → less (stamp_of f) (stamp_of e) ≡ false
  lfu_victim_least c key e k f s p v held other =
      let (rest, q) = popped (heap_pop c.lfu_heap) key (ground arith) in
      let (t, out) = heap_pop-IsPopped c.lfu_heap key rest s.heap_unique q in
      let same : t ≡ stamp_of e = ground (arith, out.held, s.heaped key) in
      rw (← same) (out.minimal k (stamp_of f) (ground (arith, s.heaped k)))

  -- A cache that holds an entry has a victim.
  pub victim-exists :
      (c : InMemoryCache V)
      → IsSynced c
      → 0 < length c.cache
      → (key : String) × (victim c ≡ some key)
  victim-exists c s h = elim (Option-cases (victim c)) [
    | inr found ↦ found
    | inl missing ↦ absurd (by_policy c.eviction_policy refl missing)
  ]
    where
      no_entry : c.eviction_policy ≡ lfu → c.lfu_heap ≡ [] → (k : String) → lookup k c.cache ≡ none
      no_entry p e k = unfold lookup in ground (arith, s.heaped k)

      by_policy : (p : EvictionPolicy) → c.eviction_policy ≡ p → victim c ≡ none → ⊥
      by_policy lru p m =
          let e : c.access_order ≡ [] = last?-none c.access_order (ground arith) in
          omega (arith, ap (length {A = String}) e)
      by_policy lfu p m =
          let e : c.lfu_heap ≡ [] =
            heap_pop-none c.lfu_heap (pop_none (heap_pop c.lfu_heap) (ground arith)) in
          let e' : c.cache ≡ [] = eq_nil_of_lookup c.cache (no_entry p e) in
          omega (arith, ap (length {A = String × Entry V}) e')

  evict-IsSynced : (c : InMemoryCache V) → IsSynced c → 0 < length c.cache → IsSynced (evict c)
  evict-IsSynced c s h =
      let (key, v) = victim-exists c s h in
      let (entry, held, e) = evict-victim c key s v in
      let t = delete_entry-IsSynced key entry c s held in
      rw e (record {
        unique = t.unique;
        no_dup = t.no_dup;
        heap_unique = t.heap_unique;
        listed = t.listed;
        measured = t.measured;
        heaped = t.heaped;
        pointed = t.pointed;
      })

  -- An eviction takes one entry out.
  length-evict :
      (c : InMemoryCache V)
      → IsSynced c
      → 0 < length c.cache
      → length c.cache ≡ suc (length (evict c).cache)
  unfolding delete_entry
  length-evict c s h =
      let (key, v) = victim-exists c s h in
      let (entry, held, e) = evict-victim c key s v in
      rw e (ground (arith, length-without key c.cache s.unique))

  -- What the eviction leaves as it was.
  pub evict-settings :
      (c : InMemoryCache V)
      → ((evict c).size ≡ c.size)
        × ((evict c).enabled ≡ c.enabled)
        × ((evict c).ttl ≡ c.ttl)
        × ((evict c).eviction_policy ≡ c.eviction_policy)
        × ((evict c).hit_count ≡ c.hit_count)
        × ((evict c).miss_count ≡ c.miss_count)
  unfolding evict
  evict-settings c = ground arith

  pub shrink-IsSynced : (c : InMemoryCache V) → IsSynced c → IsSynced (shrink c)
  unfolding shrink
  shrink-IsSynced c s = elim (Bool-cases (ltb c.size (length c.cache))) [
    | inl over ↦ rw over (evict-IsSynced c s (omega (arith, ltb→lt c.size (length c.cache) over)))
    | inr fits ↦ rw fits s
  ]

  -- After an insertion that goes past the size by at most one, the cache is within its size.
  pub length-shrink :
      (c : InMemoryCache V)
      → IsSynced c
      → length c.cache ≤ suc c.size
      → length (shrink c).cache ≤ c.size
  unfolding shrink
  length-shrink c s h = elim (Bool-cases (ltb c.size (length c.cache))) [
    | inl over ↦ rw over (omega (arith, ltb→lt c.size (length c.cache) over, length-evict c s))
    | inr fits ↦ rw fits (ltb→le c.size (length c.cache) fits)
  ]

  pub shrink-settings :
      (c : InMemoryCache V)
      → ((shrink c).size ≡ c.size)
        × ((shrink c).enabled ≡ c.enabled)
        × ((shrink c).ttl ≡ c.ttl)
        × ((shrink c).eviction_policy ≡ c.eviction_policy)
        × ((shrink c).hit_count ≡ c.hit_count)
        × ((shrink c).miss_count ≡ c.miss_count)
  unfolding shrink
  shrink-settings c = ground (arith, evict-settings c)
