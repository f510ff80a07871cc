-- ===== src/Cache/Examples.antt =====
-- Runs of the caches, and their theorems at concrete inputs.
use thunder_fork.Prelude.{
  ℕ, ◌≤◌, String, ◌≡◌, refl, true, false, Option, none, some, List, [], ◌∷◌, arith, ◌++◌, last?,
  remove_first,
}
use thunder_fork.Prelude.Assoc.{lookup, insert, without}
use thunder_fork.Cache
use thunder_fork.Cache.{
  EvictionPolicy, lru, lfu, Stamp, Entry, InMemoryCache, less, new_in_memory_cache,
}
use thunder_fork.Cache.Calls.{IsValid}
use thunder_fork.Cache.History.{Op, set_op, get_op, run, run-IsValid}
use thunder_fork.Cache.Writes.{writes, nothing, get_last_write}
use thunder_fork.Cache.Found.{lfu_drops_new}
use thunder_fork.Cache.Facade.{CacheConfig, no_property}

abbrev calls : List (Op ℕ)
calls = set_op "a" 1 10 ∷ set_op "b" 2 11 ∷ get_op "b" 12 12 ∷ get_op "a" 13 13 ∷ []

-- A cache for two entries that live 100 nanoseconds, after some calls. Its line opens what a run
-- computes with.
after : EvictionPolicy → List (Op ℕ) → InMemoryCache ℕ
unfolding Cache.get Cache.set Cache.evict Cache.shrink Cache.add_entry Cache.touch
    Cache.delete_entry less new_in_memory_cache run lookup insert without last? remove_first
after policy ops = run (new_in_memory_cache "users" true 2 100 policy) ops

reply : String → ℕ → InMemoryCache ℕ → Option ℕ
unfolding after
reply key now c = (Cache.get key now now c).1

lru_replaces_oldest : reply "b" 15 (after lru (calls ++ set_op "c" 3 14 ∷ [])) ≡ none
unfolding reply
lru_replaces_oldest = refl

lru_keeps_recent : reply "a" 15 (after lru (calls ++ set_op "c" 3 14 ∷ [])) ≡ some 1
unfolding reply
lru_keeps_recent = refl

expired_at_111 : reply "a" 111 (after lru calls) ≡ none
unfolding reply
expired_at_111 = refl

lfu_keeps_both : reply "b" 15 (after lfu (calls ++ set_op "c" 3 14 ∷ [])) ≡ some 2
unfolding reply
lfu_keeps_both = refl

run-IsValid_example : IsValid (run (new_in_memory_cache "users" true 2 100 lfu) calls)
run-IsValid_example = run-IsValid "users" true 2 100 lfu calls

after-IsValid : (policy : EvictionPolicy) → IsValid (after policy calls)
unfolding after
after-IsValid policy = run-IsValid "users" true 2 100 policy calls

get_last_write_example : (t : ℕ) × (writes 100 nothing calls "a" ≡ some (1, t)) × (50 ≤ t)
get_last_write_example = get_last_write "users" 2 100 lru calls "a" 50 51 1 (unfold reply in refl)

busy : (k : String) (e : Entry ℕ) → lookup k (after lfu calls).cache ≡ some e → 2 ≤ e.access_count
unfolding reply
busy k e h = ground arith

lfu_drops_new_example : (Cache.get "c" 15 15 (Cache.set "c" 3 14 (after lfu calls))).1 ≡ none
unfolding reply
lfu_drops_new_example =
    lfu_drops_new (after lfu calls) (after-IsValid lfu) "c" 3 14 15 15 refl refl refl refl busy

entry_of : (o : Option (Entry ℕ)) → Entry ℕ
entry_of none = record {
  value = 0;
  expiry_time = 0;
  heap_item = false;
  last_access = 0;
  access_count = 0;
}
entry_of (some e) = e

abbrev entry_a : Entry ℕ
entry_a = record {
  value = 1;
  expiry_time = 110;
  heap_item = true;
  last_access = 13;
  access_count = 2;
}

abbrev entry_b : Entry ℕ
entry_b = record {
  value = 2;
  expiry_time = 111;
  heap_item = true;
  last_access = 12;
  access_count = 2;
}

abbrev config : CacheConfig
config = record {
  disabled = false;
  type = "inmemory";
  size = 2;
  ttl = 60;
  eviction_policy = "";
  properties = record no_property { name = "off"; disabled = true } ∷ [];
}
