-- ===== src/Cache/Synced.antt =====
-- Agreement of the three structures of the in-memory cache: the map, the access order and the heap.
use thunder_fork.Prelude.{
  ℕ, ◌+◌, String, ◌≡◌, refl, Bool, true, false, Option, none, some, arith, eq_iff, length, contains,
  NoDup, contains-remove_first, NoDup-remove_first, length-remove_first, contains-remove_first_self,
}
use thunder_fork.Prelude.Assoc.{
  lookup, has, UniqueKeys, lookup-insert, lookup-without, UniqueKeys-insert, UniqueKeys-without,
  length-without, length-insert,
}
use thunder_fork.Cache.{
  EvictionPolicy, lru, lfu, is_lfu, Stamp, Entry, InMemoryCache, delete_entry, touch, add_entry,
  new_in_memory_cache,
}

abbrev pub stamp_of {ℓ} : {V : Type ℓ} → Entry V → Stamp
stamp_of e = record { access_count = e.access_count; last_access = e.last_access }

-- The stamp that the heap item of an entry has.
abbrev pub stamp {ℓ} : {V : Type ℓ} → Option (Entry V) → Option Stamp
stamp none = none
stamp (some e) = some (stamp_of e)

-- The heap items that the policy asks for.
abbrev pub heap_view {ℓ} : {V : Type ℓ} → EvictionPolicy → Option (Entry V) → Option Stamp
heap_view lru o = none
heap_view lfu o = stamp o

module _ {ℓ} {V : Type ℓ} where
  pub record IsSynced (c : InMemoryCache V) : Type ℓ where
    pub unique : UniqueKeys c.cache
    pub no_dup : NoDup c.access_order
    pub heap_unique : UniqueKeys c.lfu_heap
    pub listed : (k : String) → contains k c.access_order ≡ has k c.cache
    pub measured : length c.access_order ≡ length c.cache
    pub heaped : (k : String) → lookup k c.lfu_heap ≡ heap_view c.eviction_policy (lookup k c.cache)
    pub pointed :
        (k : String) (e : Entry V)
        → lookup k c.cache ≡ some e
        → e.heap_item ≡ is_lfu c.eviction_policy

  module _ (key : String) (entry : Entry V) (c : InMemoryCache V) (s : IsSynced c) where
    pub delete_entry-IsSynced :
        lookup key c.cache ≡ some entry → IsSynced (delete_entry key entry c)
    unfolding delete_entry
    delete_entry-IsSynced p = record {
      unique = UniqueKeys-without key c.cache s.unique;
      no_dup = NoDup-remove_first key c.access_order s.no_dup;
      heap_unique = ground (arith, s.heap_unique, UniqueKeys-without key c.lfu_heap s.heap_unique);
      listed = λ k. ground (
        arith,
        s.listed k,
        contains-remove_first key k c.access_order s.no_dup,
        lookup-without key k c.cache,
      );
      measured = ground (
        arith,
        s.measured,
        s.listed key,
        length-remove_first key c.access_order,
        length-without key c.cache s.unique,
      );
      heaped = λ k. ground (
        arith,
        s.heaped k,
        s.heaped key,
        s.pointed key entry p,
        eq_iff key k,
        lookup-without key k c.cache,
        lookup-without key k c.lfu_heap,
      );
      pointed = λ k e h. ground (arith, s.pointed k e, lookup-without key k c.cache);
    }

    -- `held` is the entry of the map, `entry` what `Set` makes of it.
    pub touch-IsSynced :
        (held : Entry V) (now : ℕ)
        → lookup key c.cache ≡ some held
        → entry.heap_item ≡ held.heap_item
        → IsSynced (touch key entry now c)
    unfolding touch contains
    touch-IsSynced held now p q = record {
      unique = UniqueKeys-insert key _ c.cache s.unique;
      no_dup = (
        contains-remove_first_self key c.access_order s.no_dup,
        NoDup-remove_first key c.access_order s.no_dup,
      );
      heap_unique = ground (
        arith,
        s.heap_unique,
        UniqueKeys-insert key (record { access_count = entry.access_count + 1; last_access = now })
            c.lfu_heap s.heap_unique,
      );
      listed = λ k. ground (
        arith,
        s.listed k,
        contains-remove_first key k c.access_order s.no_dup,
        lookup-insert key k
            (record entry { last_access = now; access_count = entry.access_count + 1 }) c.cache,
      );
      measured = ground (
        arith,
        s.measured,
        s.listed key,
        length-remove_first key c.access_order,
        length-insert key
            (record entry { last_access = now; access_count = entry.access_count + 1 }) c.cache,
      );
      heaped = λ k. ground (
        arith,
        s.heaped k,
        s.pointed key held p,
        lookup-insert key k
            (record entry { last_access = now; access_count = entry.access_count + 1 }) c.cache,
        lookup-insert key k (record { access_count = entry.access_count + 1; last_access = now })
            c.lfu_heap,
      );
      pointed = λ k e h. ground (
        arith,
        s.pointed k e,
        s.pointed key held p,
        lookup-insert key k
            (record entry { last_access = now; access_count = entry.access_count + 1 }) c.cache,
      );
    }

  -- The entry that `Set` makes for a key that the map does not hold.
  abbrev pub fresh : V → ℕ → InMemoryCache V → Entry V
  fresh value now c = record {
    value = value;
    expiry_time = now + c.ttl;
    heap_item = is_lfu c.eviction_policy;
    last_access = now;
    access_count = 1;
  }

  module _ (key : String) (value : V) (now : ℕ) (c : InMemoryCache V) (s : IsSynced c) where
    pub add_entry-IsSynced : lookup key c.cache ≡ none → IsSynced (add_entry key value now c)
    unfolding add_entry contains
    add_entry-IsSynced p = record {
      unique = UniqueKeys-insert key _ c.cache s.unique;
      no_dup = (ground (arith, s.listed key), s.no_dup);
      heap_unique = ground (
        arith,
        s.heap_unique,
        UniqueKeys-insert key (record { access_count = 1; last_access = now }) c.lfu_heap
            s.heap_unique,
      );
      listed = λ k. ground (arith, s.listed k, lookup-insert key k (fresh value now c) c.cache);
      measured = ground (arith, s.measured, length-insert key (fresh value now c) c.cache);
      heaped = λ k. ground (
        arith,
        s.heaped k,
        lookup-insert key k (fresh value now c) c.cache,
        lookup-insert key k (record { access_count = 1; last_access = now }) c.lfu_heap,
      );
      pointed =
          λ k e h. ground (arith, s.pointed k e, lookup-insert key k (fresh value now c) c.cache);
    }

  pub new-IsSynced :
      (name : String) (enabled : Bool) (size ttl : ℕ) (policy : EvictionPolicy)
      → IsSynced (new_in_memory_cache {V = V} name enabled size ttl policy)
  unfolding new_in_memory_cache lookup contains
  new-IsSynced name true size ttl lru = record {
    unique = tt;
    no_dup = tt;
    heap_unique = tt;
    listed = λ k. refl;
    measured = refl;
    heaped = λ k. refl;
    pointed = λ k e h. cc;
  }
  new-IsSynced name true size ttl lfu = record {
    unique = tt;
    no_dup = tt;
    heap_unique = tt;
    listed = λ k. refl;
    measured = refl;
    heaped = λ k. refl;
    pointed = λ k e h. cc;
  }
  new-IsSynced name false size ttl policy = record {
    unique = tt;
    no_dup = tt;
    heap_unique = tt;
    listed = λ k. refl;
    measured = refl;
    heaped = λ k. refl;
    pointed = λ k e h. cc;
  }
