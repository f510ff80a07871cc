-- ===== src/Cache.antt =====
-- The in-memory cache of backend/internal/system/cache/inmemorycache.go and model.go.
--
-- A `CacheKey` holds one text and is that text. Instants and durations are numbers of nanoseconds;
-- each method takes the instants that its calls of `time.Now` return. The map `cache` is an
-- association list; an element of `accessOrder` and an item of `lfuHeap` are found by their key,
-- where the code keeps pointers to them. `lfuHeap` is the bag of its items: `heap.Pop` takes a
-- least one by `Less`, and of items that are equal by `Less` the first. The counters are int64 and
-- grow by at most 1 with each operation, so they are left unbounded. A lock is held throughout each
-- method, so a method is one step. Logging is left out.
mod Heap
pub mod Synced
pub mod Evict
pub mod Lookup
pub mod Calls
pub mod History
pub mod Writes
pub mod Found
pub mod Facade
pub mod Wired
pub mod Examples
use thunder_fork.Prelude.{
  ℕ, ◌+◌, String, Bool, true, false, ◌&&◌, Option, none, some, List, [], ◌∷◌, ltb, eqb, length,
  remove_first, last?, if◌then◌else◌,
}
use thunder_fork.Prelude.Assoc.{Assoc, lookup, has, insert, without}

pub data EvictionPolicy : Type 0 where
  lru lfu : EvictionPolicy

abbrev pub is_lfu : EvictionPolicy → Bool
is_lfu lru = false
is_lfu lfu = true

-- What `lfuHeapItem` holds beside its key.
pub record Stamp : Type 0 where
  pub access_count : ℕ
  pub last_access : ℕ

-- `heap_item` says whether the pointer `heapItem` is set.
pub record Entry {ℓ} (V : Type ℓ) : Type ℓ where
  pub value : V
  pub expiry_time : ℕ
  pub heap_item : Bool
  pub last_access : ℕ
  pub access_count : ℕ

pub record InMemoryCache {ℓ} (V : Type ℓ) : Type ℓ where
  pub enabled : Bool
  pub name : String
  pub cache : Assoc (Entry V)
  pub access_order : List String
  pub lfu_heap : Assoc Stamp
  pub size : ℕ
  pub ttl : ℕ
  pub eviction_policy : EvictionPolicy
  pub hit_count : ℕ
  pub miss_count : ℕ
  pub evict_count : ℕ

-- `Less` of the heap: fewer accesses first, then the earlier access.
unfoldable pub less : Stamp → Stamp → Bool
less a b =
    if eqb a.access_count b.access_count
    then ltb a.last_access b.last_access
    else ltb a.access_count b.access_count

-- The key of a least item among `k` with `s` and the items of the heap.
unfoldable pub least : String → Stamp → Assoc Stamp → String
least k s [] = k
least k s ((j, t) ∷ h) = least (if less t s then j else k) (if less t s then t else s) h

unfoldable pub heap_pop : Assoc Stamp → Option (String × Assoc Stamp)
unfolding least
heap_pop [] = none
heap_pop ((k, s) ∷ h) = let victim = least k s h in some (victim, without victim ((k, s) ∷ h))

module _ {ℓ} {V : Type ℓ} where
  unfoldable pub new_in_memory_cache : String → Bool → ℕ → ℕ → EvictionPolicy → InMemoryCache V
  new_in_memory_cache name enabled size ttl policy =
      if enabled
      then record {
        enabled = true;
        name = name;
        cache = [];
        access_order = [];
        lfu_heap = [];
        size = size;
        ttl = ttl;
        eviction_policy = policy;
        hit_count = 0;
        miss_count = 0;
        evict_count = 0;
      }
      else record {
        enabled = false;
        name = name;
        cache = [];
        access_order = [];
        lfu_heap = [];
        size = 0;
        ttl = 0;
        eviction_policy = lru;
        hit_count = 0;
        miss_count = 0;
        evict_count = 0;
      }

  -- An item whose index in the heap is -1 is one that the heap does not hold.
  unfoldable pub delete_entry : String → Entry V → InMemoryCache V → InMemoryCache V
  delete_entry key entry c = record c {
    cache = without key c.cache;
    access_order = remove_first key c.access_order;
    lfu_heap =
        if is_lfu c.eviction_policy && entry.heap_item && has key c.lfu_heap
        then without key c.lfu_heap
        else c.lfu_heap;
  }

  -- The eviction of `key`, if the map holds it.
  unfoldable pub evict_key : String → InMemoryCache V → InMemoryCache V
  unfolding delete_entry
  evict_key key c = elim (lookup key c.cache) [
    | none ↦ c
    | some entry ↦ record (delete_entry key entry c) { evict_count = c.evict_count + 1 }
  ]

  unfoldable pub evict_oldest : InMemoryCache V → InMemoryCache V
  unfolding evict_key
  evict_oldest c = elim (last? c.access_order) [ none ↦ c | some key ↦ evict_key key c ]

  unfoldable pub evict_least_frequent : InMemoryCache V → InMemoryCache V
  unfolding evict_key heap_pop
  evict_least_frequent c = elim (heap_pop c.lfu_heap) [
    | none ↦ c
    | some (key, rest) ↦ evict_key key (record c { lfu_heap = rest })
  ]

  unfoldable pub evict : InMemoryCache V → InMemoryCache V
  unfolding evict_oldest evict_least_frequent
  evict c = if is_lfu c.eviction_policy then evict_least_frequent c else evict_oldest c

  -- An access at the instant `now`: what `Set` and `Get` do to an entry that is there.
  unfoldable pub touch : String → Entry V → ℕ → InMemoryCache V → InMemoryCache V
  touch key entry now c = record c {
    cache =
        insert key (record entry { last_access = now; access_count = entry.access_count + 1 })
          c.cache;
    access_order = key ∷ remove_first key c.access_order;
    lfu_heap =
        if is_lfu c.eviction_policy && entry.heap_item
        then insert key (record { access_count = entry.access_count + 1; last_access = now })
            c.lfu_heap
        else c.lfu_heap;
  }

  -- The new entry of `Set`, before the check of the size.
  unfoldable pub add_entry : String → V → ℕ → InMemoryCache V → InMemoryCache V
  add_entry key value now c = record c {
    cache =
        insert key
          (record {
            value = value;
            expiry_time = now + c.ttl;
            heap_item = is_lfu c.eviction_policy;
            last_access = now;
            access_count = 1;
          })
          c.cache;
    access_order = key ∷ c.access_order;
    lfu_heap =
        if is_lfu c.eviction_policy
        then insert key (record { access_count = 1; last_access = now }) c.lfu_heap
        else c.lfu_heap;
  }

  -- `if len(c.cache) > c.size { c.evict() }`
  unfoldable pub shrink : InMemoryCache V → InMemoryCache V
  shrink c = if ltb c.size (length c.cache) then evict c else c

  unfoldable pub set : String → V → ℕ → InMemoryCache V → InMemoryCache V
  set key value now c =
      if c.enabled
      then elim (lookup key c.cache) [
        | none ↦ shrink (add_entry key value now c)
        | some entry ↦ touch key (record entry { value = value; expiry_time = now + c.ttl }) now c
      ]
      else c

  -- `now` is read for the expiry, `later` for the access.
  unfoldable pub get : String → ℕ → ℕ → InMemoryCache V → InMemoryCache V × Option V
  get key now later c =
      if c.enabled
      then elim (lookup key c.cache) [
        | none ↦ (record c { miss_count = c.miss_count + 1 }, none)
        | some entry ↦
            if ltb entry.expiry_time now
            then (record (delete_entry key entry c) { miss_count = c.miss_count + 1 }, none)
            else (
              record (touch key entry later c) { hit_count = c.hit_count + 1 },
              some entry.value,
            )
      ]
      else (c, none)

  unfoldable pub delete : String → InMemoryCache V → InMemoryCache V
  delete key c =
      if c.enabled
      then elim (lookup key c.cache) [ none ↦ c | some entry ↦ delete_entry key entry c ]
      else c

  unfoldable pub clear : InMemoryCache V → InMemoryCache V
  clear c =
      if c.enabled
      then record c {
        cache = [];
        access_order = [];
        lfu_heap = [];
        hit_count = 0;
        miss_count = 0;
        evict_count = 0;
      }
      else c

  -- The loop of `CleanupExpired` over the pairs of the map as it stands at the start.
  unfoldable pub cleanup_loop : ℕ → Assoc (Entry V) → InMemoryCache V → InMemoryCache V
  unfolding delete_entry
  cleanup_loop now [] c = c
  cleanup_loop now ((key, entry) ∷ m) c =
      cleanup_loop now m (if ltb entry.expiry_time now then delete_entry key entry c else c)

  unfoldable pub cleanup_expired : ℕ → InMemoryCache V → InMemoryCache V
  unfolding cleanup_loop
  cleanup_expired now c = if c.enabled then cleanup_loop now c.cache c else c
