-- ===== src/Cache/Calls.antt =====
-- The methods of the in-memory cache, inmemorycache.go, branch by branch.
use thunder_fork.Prelude.{
  ℕ, suc, ◌+◌, ◌≤◌, String, ◌≡◌, refl, sym, subst, true, false, none, some, [], arith, length, inl,
  inr, ltb, Bool-cases, Option-cases, contains,
}
use thunder_fork.Prelude.Assoc.{lookup, length-without-le, length-insert}
use thunder_fork.Cache.{
  Entry, InMemoryCache, delete_entry, touch, add_entry, shrink, set, get, delete, clear,
  cleanup_expired,
}
use thunder_fork.Cache.Synced.{
  IsSynced, delete_entry-IsSynced, touch-IsSynced, add_entry-IsSynced, fresh,
}
use thunder_fork.Cache.Evict.{shrink-IsSynced, length-shrink, shrink-settings}
use thunder_fork.Cache.Lookup.{
  cleanup_expired-IsSynced, length-cleanup_expired, cleanup_expired-settings,
}

module _ {ℓ} {V : Type ℓ} where
  -- The structures agree, and the map is within its size.
  pub record IsValid (c : InMemoryCache V) : Type ℓ where
    pub synced : IsSynced c
    pub bounded : length c.cache ≤ c.size

  -- `IsSynced` does not read the counters.
  recount :
      (c : InMemoryCache V) (hits misses : ℕ)
      → IsSynced c
      → IsSynced (record c { hit_count = hits; miss_count = misses })
  recount c hits misses s = record {
    unique = s.unique;
    no_dup = s.no_dup;
    heap_unique = s.heap_unique;
    listed = s.listed;
    measured = s.measured;
    heaped = s.heaped;
    pointed = s.pointed;
  }

  module _ (c : InMemoryCache V) (on : c.enabled ≡ true) where
    pub set-absent :
        (key : String) (value : V) (now : ℕ)
        → lookup key c.cache ≡ none
        → set key value now c ≡ shrink (add_entry key value now c)
    unfolding set
    set-absent key value now p = ground arith

    pub set-present :
        (key : String) (value : V) (now : ℕ) (e : Entry V)
        → lookup key c.cache ≡ some e
        → set key value now c
          ≡ touch key (record e { value = value; expiry_time = now + c.ttl }) now c
    unfolding set
    set-present key value now e p = ground arith

    pub get-absent :
        (key : String) (now later : ℕ)
        → lookup key c.cache ≡ none
        → get key now later c ≡ (record c { miss_count = c.miss_count + 1 }, none)
    unfolding get
    get-absent key now later p = ground arith

    pub get-expired :
        (key : String) (now later : ℕ) (e : Entry V)
        → lookup key c.cache ≡ some e
        → ltb e.expiry_time now ≡ true
        → get key now later c
          ≡ (record (delete_entry key e c) { miss_count = c.miss_count + 1 }, none)
    unfolding get
    get-expired key now later e p q = ground arith

    pub get-live :
        (key : String) (now later : ℕ) (e : Entry V)
        → lookup key c.cache ≡ some e
        → ltb e.expiry_time now ≡ false
        → get key now later c
          ≡ (record (touch key e later c) { hit_count = c.hit_count + 1 }, some e.value)
    unfolding get
    get-live key now later e p q = ground arith

    pub delete-present :
        (key : String) (e : Entry V)
        → lookup key c.cache ≡ some e
        → delete key c ≡ delete_entry key e c
    unfolding delete
    delete-present key e p = ground arith

    pub clear-enabled : clear c ≡ record c {
      cache = [];
      access_order = [];
      lfu_heap = [];
      hit_count = 0;
      miss_count = 0;
      evict_count = 0;
    }
    unfolding clear
    clear-enabled = ground arith

    pub delete-absent : (key : String) → lookup key c.cache ≡ none → delete key c ≡ c
    unfolding delete
    delete-absent key p = ground arith

  -- A disabled cache stores nothing, finds nothing and never changes.
  pub disabled_unchanged :
      (c : InMemoryCache V) (key : String) (now later : ℕ)
      → c.enabled ≡ false
      → ((value : V) → set key value now c ≡ c)
        × (get key now later c ≡ (c, none))
        × (delete key c ≡ c)
        × (clear c ≡ c)
        × (cleanup_expired now c ≡ c)
  unfolding set get delete clear cleanup_expired
  disabled_unchanged c key now later off =
      (λ value. simp off, simp off, simp off, simp off, simp off)

  recount-IsValid :
      (c : InMemoryCache V) (hits misses : ℕ)
      → IsValid c
      → IsValid (record c { hit_count = hits; miss_count = misses })
  recount-IsValid c hits misses v = record {
    synced = recount c hits misses v.synced;
    bounded = v.bounded;
  }

  module _ (c : InMemoryCache V) (v : IsValid c) where
    delete_entry-IsValid :
        (key : String) (e : Entry V) → lookup key c.cache ≡ some e → IsValid (delete_entry key e c)
    delete_entry-IsValid key e p = record {
      synced = delete_entry-IsSynced key e c v.synced p;
      bounded = unfold delete_entry in omega (arith, length-without-le key c.cache, v.bounded);
    }

    touch-IsValid :
        (key : String) (e held : Entry V) (now : ℕ)
        → lookup key c.cache ≡ some held
        → e.heap_item ≡ held.heap_item
        → IsValid (touch key e now c)
    touch-IsValid key e held now p q = record {
      synced = touch-IsSynced key e c v.synced held now p q;
      bounded =
          unfold touch in
          ground (
            arith,
            v.bounded,
            length-insert key (record e { last_access = now; access_count = e.access_count + 1 })
                c.cache,
          );
    }

    add_entry-IsValid :
        (key : String) (value : V) (now : ℕ)
        → lookup key c.cache ≡ none
        → IsValid (shrink (add_entry key value now c))
    add_entry-IsValid key value now p =
        let a = add_entry key value now c in
        let t = add_entry-IsSynced key value now c v.synced p in
        record {
          synced = shrink-IsSynced a t;
          bounded = omega (arith, length-shrink a t (grown key value now p), shrink-settings a);
        }
      where
        grown :
            (key : String) (value : V) (now : ℕ)
            → lookup key c.cache ≡ none
            → length (add_entry key value now c).cache ≤ suc (add_entry key value now c).size
        grown key value now p =
            unfold add_entry in
            ground (arith, v.bounded, length-insert key (fresh value now c) c.cache)

    pub set-IsValid : (key : String) (value : V) (now : ℕ) → IsValid (set key value now c)
    set-IsValid key value now = elim (Bool-cases c.enabled) [
      | inl on ↦ elim (Option-cases (lookup key c.cache)) [
        | inl p ↦ rw (set-absent c on key value now p) (add_entry-IsValid key value now p)
        | inr (e, p) ↦
            rw (set-present c on key value now e p) (
              touch-IsValid key (record e { value = value; expiry_time = now + c.ttl }) e now p
                refl)
      ]
      | inr off ↦ rw ((disabled_unchanged c key now 0 off).0 value) v
    ]

    pub get-IsValid : (key : String) (now later : ℕ) → IsValid (get key now later c).0
    get-IsValid key now later = elim (Bool-cases c.enabled) [
      | inl on ↦ elim (Option-cases (lookup key c.cache)) [
        | inl p ↦
            rw (get-absent c on key now later p)
              (recount-IsValid c c.hit_count (c.miss_count + 1) v)
        | inr (e, p) ↦ elim (Bool-cases (ltb e.expiry_time now)) [
          | inl q ↦ rw (get-expired c on key now later e p q) (
              let d = delete_entry key e c in
              recount-IsValid d d.hit_count (c.miss_count + 1) (delete_entry-IsValid key e p))
          | inr q ↦ rw (get-live c on key now later e p q) (
              let t = touch key e later c in
              recount-IsValid t (c.hit_count + 1) t.miss_count (touch-IsValid key e e later p refl))
        ]
      ]
      | inr off ↦ subst (λ r. IsValid r.0) (sym (disabled_unchanged c key now later off).1) v
    ]

    pub delete-IsValid : (key : String) → IsValid (delete key c)
    delete-IsValid key = elim (Bool-cases c.enabled) [
      | inl on ↦ elim (Option-cases (lookup key c.cache)) [
        | inl p ↦ rw (delete-absent c on key p) v
        | inr (e, p) ↦ rw (delete-present c on key e p) (delete_entry-IsValid key e p)
      ]
      | inr off ↦ rw (disabled_unchanged c key 0 0 off).2 v
    ]

    pub clear-IsValid : IsValid (clear c)
    clear-IsValid = elim (Bool-cases c.enabled) [
      | inl on ↦ rw (clear-enabled c on) (record {
        synced = record {
          unique = tt;
          no_dup = tt;
          heap_unique = tt;
          listed = λ k. unfold lookup contains in refl;
          measured = refl;
          heaped = λ k. unfold lookup in ground arith;
          pointed = unfold lookup in λ k e h. cc;
        };
        bounded = omega arith;
      })
      | inr off ↦ rw (disabled_unchanged c "" 0 0 off).3 v
    ]

    pub cleanup_expired-IsValid : (now : ℕ) → IsValid (cleanup_expired now c)
    cleanup_expired-IsValid now = record {
      synced = cleanup_expired-IsSynced now c v.synced;
      bounded =
          omega (arith, v.bounded, length-cleanup_expired now c, cleanup_expired-settings now c);
    }
