-- ===== src/Cache/Writes.antt =====
-- The abstract view of the in-memory cache: the last write to each key.
use thunder_fork.Prelude.{
  ℕ, ◌+◌, ◌≤◌, String, ◌≡◌, ◌==◌, refl, ap, ◌∙◌, true, Option, none, some, List, [], ◌∷◌, arith,
  eq_iff, if◌then◌else◌, inl, inr, ltb, ltb→le, Bool-cases, Option-cases,
}
use thunder_fork.Prelude.Assoc.{lookup, lookup-insert, lookup-without}
use thunder_fork.Cache.{
  EvictionPolicy, Entry, InMemoryCache, delete_entry, touch, add_entry, set, get, delete, clear,
  new_in_memory_cache,
}
use thunder_fork.Cache.Synced.{fresh}
use thunder_fork.Cache.Evict.{shrink-settings}
use thunder_fork.Cache.Lookup.{shrink-IsSubmap, lookup-cleanup_expired, cleanup_expired-settings}
use thunder_fork.Cache.Calls.{
  IsValid, set-absent, set-present, get-absent, get-expired, get-live, delete-absent,
  delete-present, clear-enabled, disabled_unchanged,
}
use thunder_fork.Cache.History.{
  Op, set_op, get_op, delete_op, clear_op, cleanup_op, step, run, step-IsValid, new-IsValid,
}

-- For each key the last value written and the instant at which it expires.
abbrev pub Writes {ℓ} : Type ℓ → Type ℓ
Writes V = String → Option (V × ℕ)

module _ {ℓ} {V : Type ℓ} where
  abbrev pub write : ℕ → Writes V → Op V → Writes V
  write ttl w (set_op k v now) j = if k == j then some (v, now + ttl) else w j
  write ttl w (get_op k now later) j = w j
  write ttl w (delete_op k) j = if k == j then none else w j
  write ttl w clear_op j = none
  write ttl w (cleanup_op now) j = w j

  unfoldable pub writes : ℕ → Writes V → List (Op V) → Writes V
  writes ttl w [] = w
  writes ttl w (op ∷ ops) = writes ttl (write ttl w op) ops

  -- Every entry of the cache is the last write to its key.
  abbrev pub Refines : InMemoryCache V → Writes V → Type ℓ
  Refines c w =
      (k : String) (e : Entry V) → lookup k c.cache ≡ some e → w k ≡ some (e.value, e.expiry_time)

  set-Refines :
      (c : InMemoryCache V) (w : Writes V) (key : String) (v : V) (now : ℕ)
      → c.enabled ≡ true
      → Refines c w
      → Refines (set key v now c) (write c.ttl w (set_op key v now))
  set-Refines c w key v now on r = elim (Option-cases (lookup key c.cache)) [
    | inl p ↦ rw (set-absent c on key v now p) (λ k e h.
        unfold add_entry in
        ground (
          arith,
          r k e,
          lookup-insert key k (fresh v now c) c.cache,
          shrink-IsSubmap (add_entry key v now c) k e h,
        ))
    | inr (o, p) ↦ rw (set-present c on key v now o p) (
        unfold touch in
        λ k e h. ground (
          arith,
          r k e,
          lookup-insert key k
              (record o {
                value = v;
                expiry_time = now + c.ttl;
                last_access = now;
                access_count = o.access_count + 1;
              })
              c.cache,
        ))
  ]

  delete_entry-Refines :
      (c : InMemoryCache V) (w : Writes V) (key : String) (e : Entry V)
      → Refines c w
      → Refines (delete_entry key e c) w
  unfolding delete_entry
  delete_entry-Refines c w key e r k f h = ground (arith, r k f, lookup-without key k c.cache)

  touch-Refines :
      (c : InMemoryCache V) (w : Writes V) (key : String) (e : Entry V) (now : ℕ)
      → lookup key c.cache ≡ some e
      → Refines c w
      → Refines (touch key e now c) w
  unfolding touch
  touch-Refines c w key e now p r k f h = ground (
    arith,
    r k f,
    r key e p,
    eq_iff key k,
    lookup-insert key k (record e { last_access = now; access_count = e.access_count + 1 }) c.cache,
  )

  get-Refines :
      (c : InMemoryCache V) (w : Writes V) (key : String) (now later : ℕ)
      → c.enabled ≡ true
      → Refines c w
      → Refines (get key now later c).0 w
  get-Refines c w key now later on r = elim (Option-cases (lookup key c.cache)) [
    | inl p ↦ rw (get-absent c on key now later p) r
    | inr (e, p) ↦ elim (Bool-cases (ltb e.expiry_time now)) [
      | inl q ↦ rw (get-expired c on key now later e p q) (delete_entry-Refines c w key e r)
      | inr q ↦ rw (get-live c on key now later e p q) (touch-Refines c w key e later p r)
    ]
  ]

  delete-Refines :
      (c : InMemoryCache V) (w : Writes V) (key : String)
      → c.enabled ≡ true
      → Refines c w
      → Refines (delete key c) (write c.ttl w (delete_op key))
  delete-Refines c w key on r = elim (Option-cases (lookup key c.cache)) [
    | inl p ↦ rw (delete-absent c on key p) (λ k f h. ground (arith, r k f h, eq_iff key k))
    | inr (e, p) ↦
        rw (delete-present c on key e p)
          (unfold delete_entry in λ k f h. ground (arith, r k f, lookup-without key k c.cache))
  ]

  -- A step keeps the settings that the writes depend on.
  pub step-settings :
      (c : InMemoryCache V) (op : Op V)
      → ((step c op).enabled ≡ c.enabled) × ((step c op).ttl ≡ c.ttl)
  unfolding set get delete clear touch delete_entry
  step-settings c (set_op k v now) =
      ground (arith, shrink-settings (add_entry k v now c), add_entry-settings k v now)
    where
      add_entry-settings :
          (k : String) (v : V) (now : ℕ)
          → ((add_entry k v now c).enabled ≡ c.enabled) × ((add_entry k v now c).ttl ≡ c.ttl)
      add_entry-settings k v now = unfold add_entry in (refl, refl)
  step-settings c (get_op k now later) = ground arith
  step-settings c (delete_op k) = ground arith
  step-settings c clear_op = ground arith
  step-settings c (cleanup_op now) = ground (arith, cleanup_expired-settings now c)

  step-Refines :
      (c : InMemoryCache V) (w : Writes V) (op : Op V)
      → IsValid c
      → c.enabled ≡ true
      → Refines c w
      → Refines (step c op) (write c.ttl w op)
  step-Refines c w (set_op k v now) h on r = set-Refines c w k v now on r
  step-Refines c w (get_op k now later) h on r = get-Refines c w k now later on r
  step-Refines c w (delete_op k) h on r = delete-Refines c w k on r
  step-Refines c w clear_op h on r = rw (clear-enabled c on) (unfold lookup in λ k e p. cc)
  step-Refines c w (cleanup_op now) h on r =
      λ k e p. ground (arith, r k e, lookup-cleanup_expired now c k h.synced on)

  run-Refines :
      (ttl : ℕ) (c : InMemoryCache V) (w : Writes V) (ops : List (Op V))
      → IsValid c
      → c.enabled ≡ true
      → c.ttl ≡ ttl
      → Refines c w
      → Refines (run c ops) (writes ttl w ops)
  unfolding run writes
  run-Refines ttl c w [] h on t r = r
  run-Refines ttl c w (op ∷ ops) h on t r =
      run-Refines ttl (step c op) (write ttl w op) ops (step-IsValid c op h)
        ((step-settings c op).0 ∙ on) ((step-settings c op).1 ∙ t)
        (rw (← t) (step-Refines c w op h on r))

  -- What a hit says of the entry.
  served :
      (c : InMemoryCache V) (key : String) (now later : ℕ) (v : V)
      → (get key now later c).1 ≡ some v
      → (e : Entry V) × (lookup key c.cache ≡ some e) × (e.value ≡ v) × (now ≤ e.expiry_time)
  served c key now later v h = elim (Bool-cases c.enabled) [
    | inl on ↦ elim (Option-cases (lookup key c.cache)) [
      | inl p ↦ cc (ap (λ r. r.1) (get-absent c on key now later p))
      | inr (e, p) ↦ elim (Bool-cases (ltb e.expiry_time now)) [
        | inl q ↦ cc (ap (λ r. r.1) (get-expired c on key now later e p q))
        | inr q ↦ (
          e,
          p,
          ground (arith, ap (λ r. r.1) (get-live c on key now later e p q)),
          ltb→le e.expiry_time now q,
        )
      ]
    ]
    | inr off ↦ cc (ap (λ r. r.1) (disabled_unchanged c key now later off).1)
  ]

  -- Nothing has been written.
  abbrev pub nothing : Writes V
  nothing k = none

  -- Nothing stale is ever served. After any calls of an enabled cache that started empty, a value
  -- that `Get` returns is the last one written to the key (not deleted or cleared since), and its
  -- expiry does not lie before the instant of the call.
  pub get_last_write :
      (name : String) (size ttl : ℕ) (policy : EvictionPolicy) (ops : List (Op V)) (key : String)
      (now later : ℕ) (v : V)
      → (get key now later (run (new_in_memory_cache name true size ttl policy) ops)).1 ≡ some v
      → (t : ℕ) × (writes ttl nothing ops key ≡ some (v, t)) × (now ≤ t)
  get_last_write name size ttl policy ops key now later v h =
      let c = run (new_in_memory_cache name true size ttl policy) ops in
      let r : Refines c (writes ttl nothing ops) =
        run-Refines ttl (new_in_memory_cache name true size ttl policy) nothing ops
          (new-IsValid name true size ttl policy) (unfold new_in_memory_cache in refl)
          (unfold new_in_memory_cache in refl) (unfold new_in_memory_cache lookup in λ k e p. cc) in
      let (e, p, q, live) = served c key now later v h in
      (e.expiry_time, r key e p ∙ ap (λ x. some (x, e.expiry_time)) q, live)
