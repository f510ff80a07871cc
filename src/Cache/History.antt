-- ===== src/Cache/History.antt =====
-- Sequences of calls of the in-memory cache, inmemorycache.go.
use thunder_fork.Prelude.{ℕ, String, Bool, List, [], ◌∷◌, arith}
use thunder_fork.Cache.{
  EvictionPolicy, InMemoryCache, set, get, delete, clear, cleanup_expired, new_in_memory_cache,
}
use thunder_fork.Cache.Synced.{new-IsSynced}
use thunder_fork.Cache.Calls.{
  IsValid, set-IsValid, get-IsValid, delete-IsValid, clear-IsValid, cleanup_expired-IsValid,
}

-- One call, with the instants that it reads.
pub data Op {ℓ} (V : Type ℓ) : Type ℓ where
  set_op : String → V → ℕ → Op V
  get_op : String → ℕ → ℕ → Op V
  delete_op : String → Op V
  clear_op : Op V
  cleanup_op : ℕ → Op V

module _ {ℓ} {V : Type ℓ} where
  abbrev pub step : InMemoryCache V → Op V → InMemoryCache V
  step c (set_op k v now) = set k v now c
  step c (get_op k now later) = (get k now later c).0
  step c (delete_op k) = delete k c
  step c clear_op = clear c
  step c (cleanup_op now) = cleanup_expired now c

  unfoldable pub run : InMemoryCache V → List (Op V) → InMemoryCache V
  run c [] = c
  run c (op ∷ ops) = run (step c op) ops

  pub new-IsValid :
      (name : String) (enabled : Bool) (size ttl : ℕ) (policy : EvictionPolicy)
      → IsValid (new_in_memory_cache {V = V} name enabled size ttl policy)
  new-IsValid name enabled size ttl policy = record {
    synced = new-IsSynced name enabled size ttl policy;
    bounded = unfold new_in_memory_cache in ground arith;
  }

  pub step-IsValid : (c : InMemoryCache V) (op : Op V) → IsValid c → IsValid (step c op)
  step-IsValid c (set_op k v now) h = set-IsValid c h k v now
  step-IsValid c (get_op k now later) h = get-IsValid c h k now later
  step-IsValid c (delete_op k) h = delete-IsValid c h k
  step-IsValid c clear_op h = clear-IsValid c h
  step-IsValid c (cleanup_op now) h = cleanup_expired-IsValid c h now

  pub run_keeps : (c : InMemoryCache V) (ops : List (Op V)) → IsValid c → IsValid (run c ops)
  unfolding run
  run_keeps c [] h = h
  run_keeps c (op ∷ ops) h = run_keeps (step c op) ops (step-IsValid c op h)

  -- After any calls with any instants, a cache that started empty has a map, an access order and a
  -- heap that hold the same keys, each once, with the heap items showing the entries' counts (and
  -- no item at all under LRU), and it holds at most `size` entries.
  pub run-IsValid :
      (name : String) (enabled : Bool) (size ttl : ℕ) (policy : EvictionPolicy) (ops : List (Op V))
      → IsValid (run (new_in_memory_cache name enabled size ttl policy) ops)
  run-IsValid name enabled size ttl policy ops =
      run_keeps (new_in_memory_cache name enabled size ttl policy) ops
        (new-IsValid name enabled size ttl policy)
