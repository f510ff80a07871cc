-- ===== src/Cache/Found.antt =====
-- When a value that was set in the in-memory cache is found.
use thunder_fork.Prelude.{
  ℕ, suc, ◌+◌, ◌≤◌, ◌<◌, String, ◌≡◌, ◌==◌, ◌⊎◌, refl, sym, ap, ◌∙◌, true, false, none, some, List,
  [], ◌∷◌, arith, eq_iff, eq_refl, length, last?, contains, contains-last?, ltb→lt, inl, inr, ltb,
  Bool-cases, Option-cases,
}
use thunder_fork.Prelude.Assoc.{lookup, has, lookup-insert, lookup-without, length-insert}
use thunder_fork.Cache.{
  lru, lfu, Entry, InMemoryCache, less, delete_entry, touch, add_entry, shrink, evict, set, get,
}
use thunder_fork.Cache.Synced.{IsSynced, add_entry-IsSynced, fresh, stamp_of}
use thunder_fork.Cache.Evict.{victim, evict-victim, lfu_victim_least, victim-exists}
use thunder_fork.Cache.History.{set_op}
use thunder_fork.Cache.Writes.{step-settings}
use thunder_fork.Cache.Calls.{IsValid, set-absent, set-present, get-live, get-absent}

-- Under LRU the victim of a cache with a second entry is not the entry at the front.
not-front :
    (key other : String) (rest : List String)
    → contains key rest ≡ false
    → 0 < length rest
    → last? (key ∷ rest) ≡ some other
    → (other == key) ≡ false
unfolding last?
not-front key other [] h n e = absurd (omega arith)
not-front key other (x ∷ rest) h n e =
    ground (arith, contains-last? other (x ∷ rest), eq_iff other key)

module _ {ℓ} {V : Type ℓ} where
  -- A key that the eviction does not take keeps its entry.
  lookup-evict :
      (c : InMemoryCache V) (key other : String)
      → IsSynced c
      → victim c ≡ some other
      → (other == key) ≡ false
      → lookup key (evict c).cache ≡ lookup key c.cache
  unfolding delete_entry
  lookup-evict c key other s v h =
      let (entry, held, e) = evict-victim c other s v in
      rw e (ground (arith, lookup-without other key c.cache))

  lookup-victim :
      (c : InMemoryCache V) (key : String)
      → IsSynced c
      → victim c ≡ some key
      → lookup key (evict c).cache ≡ none
  unfolding delete_entry
  lookup-victim c key s v =
      let (entry, held, e) = evict-victim c key s v in
      rw e (ground (arith, lookup-without key key c.cache, eq_refl key))

  module _ (c : InMemoryCache V) (v : IsValid c) (key : String) (value : V) (t : ℕ) where
    abbrev added : InMemoryCache V
    added = add_entry key value t c

    lookup-added : lookup key added.cache ≡ some (fresh value t c)
    unfolding add_entry
    lookup-added = ground (arith, lookup-insert key key (fresh value t c) c.cache, eq_refl key)

    length-added : lookup key c.cache ≡ none → length added.cache ≡ suc (length c.cache)
    unfolding add_entry
    length-added p = ground (arith, length-insert key (fresh value t c) c.cache)

    size-added : added.size ≡ c.size
    unfolding add_entry
    size-added = refl

    victim-added :
        (other : String)
        → lookup key c.cache ≡ none
        → c.eviction_policy ≡ lru
        → 0 < length c.cache
        → victim added ≡ some other
        → (other == key) ≡ false
    unfolding add_entry
    victim-added other p policy pos found =
        not-front key other c.access_order (ground (arith, v.synced.listed key))
          (omega (arith, v.synced.measured)) (ground arith)

    victim-added_lfu :
        (other : String) (e : Entry V)
        → lookup key c.cache ≡ none
        → c.eviction_policy ≡ lfu
        → victim added ≡ some other
        → lookup other added.cache ≡ some e
        → ((k : String) (f : Entry V) → lookup k c.cache ≡ some f → 2 ≤ f.access_count)
        → other ≡ key
    victim-added_lfu other e p policy found held busy = elim (Bool-cases (key == other)) [
      | inl same ↦ sym ((eq_iff key other).0 same)
      | inr apart ↦
          let s = add_entry-IsSynced key value t c v.synced p in
          let least : less (stamp_of (fresh value t c)) (stamp_of e) ≡ false =
            lfu_victim_least added other e key (fresh value t c) s (unfold add_entry in policy)
              found held lookup-added in
          let before : lookup other c.cache ≡ some e =
            unfold add_entry in
            ground (arith, held, lookup-insert key other (fresh value t c) c.cache) in
          absurd (unfold less in ground (arith, least, busy other e before))
    ]

    -- A cache with room, or an LRU cache that holds anything at all, keeps the new entry.
    shrink_keeps :
        lookup key c.cache ≡ none
        → (length c.cache < c.size) ⊎ ((c.eviction_policy ≡ lru) × (0 < c.size))
        → lookup key (shrink added).cache ≡ some (fresh value t c)
    unfolding shrink
    shrink_keeps p (inl room) =
        let fits : ltb added.size (length added.cache) ≡ false =
          ground (arith, length-added p, size-added) in
        rw fits lookup-added
    shrink_keeps p (inr (policy, pos)) = elim (Bool-cases (ltb added.size (length added.cache))) [
      | inr fits ↦ rw fits lookup-added
      | inl over ↦
          let s = add_entry-IsSynced key value t c v.synced p in
          let (other, found) = victim-exists added s (omega (arith, length-added p)) in
          let more : 0 < length c.cache =
            omega
              (arith, length-added p, size-added, ltb→lt added.size (length added.cache) over) in
          let apart = victim-added other p policy more found in
          rw over (lookup-evict added key other s found apart ∙ lookup-added)
    ]

    -- `Set` leaves the value under the key, if the key was there, there is room, or the policy is
    -- LRU and the size not 0.
    lookup-set :
        c.enabled ≡ true
        → (has key c.cache ≡ true)
          ⊎ (length c.cache < c.size)
          ⊎ ((c.eviction_policy ≡ lru) × (0 < c.size))
        → (e : Entry V) × (lookup key (set key value t c).cache ≡ some e)
          × (e.value ≡ value)
          × (e.expiry_time ≡ t + c.ttl)
    lookup-set on room = elim (Option-cases (lookup key c.cache)) [
      | inl p ↦ (
        fresh value t c,
        rw (set-absent c on key value t p) (shrink_keeps p (absent p room)),
        refl,
        refl,
      )
      | inr (e, p) ↦ (
        record e {
          value = value;
          expiry_time = t + c.ttl;
          last_access = t;
          access_count = e.access_count + 1;
        },
        rw (set-present c on key value t e p) (unfold touch in rw (lookup-insert, eq_refl) refl),
        refl,
        refl,
      )
    ]
      where
        absent :
            lookup key c.cache ≡ none
            → (has key c.cache ≡ true)
              ⊎ (length c.cache < c.size)
              ⊎ ((c.eviction_policy ≡ lru) × (0 < c.size))
            → (length c.cache < c.size) ⊎ ((c.eviction_policy ≡ lru) × (0 < c.size))
        absent p (inl there) = cc (p, there)
        absent p (inr r) = r

    -- A value that was set is returned until its time is up. An enabled cache in a valid state
    -- gives back the value of the last `Set` at every instant up to the expiry, provided that the
    -- key was there already, or the cache had room, or the policy is LRU and the size at least 1.
    pub get-set_self :
        (now later : ℕ)
        → c.enabled ≡ true
        → (has key c.cache ≡ true)
          ⊎ (length c.cache < c.size)
          ⊎ ((c.eviction_policy ≡ lru) × (0 < c.size))
        → now ≤ t + c.ttl
        → (get key now later (set key value t c)).1 ≡ some value
    get-set_self now later on room h =
        let (e, p, val, exp) = lookup-set on room in
        let still : (set key value t c).enabled ≡ true =
          (step-settings c (set_op key value t)).0 ∙ on in
        let live : ltb e.expiry_time now ≡ false = ground arith in
        ap (λ r. r.1) (get-live (set key value t c) still key now later e p live) ∙ ap some val

    -- Under LFU a full cache whose entries have all been accessed twice drops the new entry at
    -- once: `Set` of a key that it does not hold has no effect that a `Get` could see.
    pub lfu_drops_new :
        (now later : ℕ)
        → c.enabled ≡ true
        → c.eviction_policy ≡ lfu
        → lookup key c.cache ≡ none
        → length c.cache ≡ c.size
        → ((k : String) (e : Entry V) → lookup k c.cache ≡ some e → 2 ≤ e.access_count)
        → (get key now later (set key value t c)).1 ≡ none
    lfu_drops_new now later on policy p full busy =
        let s = add_entry-IsSynced key value t c v.synced p in
        let (other, found) = victim-exists added s (omega (arith, length-added p)) in
        let (e, held, out) = evict-victim added other s found in
        let same : other ≡ key = victim-added_lfu other e p policy found held busy in
        let over : ltb added.size (length added.cache) ≡ true =
          ground (arith, length-added p, size-added) in
        let gone : lookup key (set key value t c).cache ≡ none =
          rw (set-absent c on key value t p)
            (unfold shrink in rw over (lookup-victim added key s (rw same at found))) in
        let still : (set key value t c).enabled ≡ true =
          (step-settings c (set_op key value t)).0 ∙ on in
        ap (λ r. r.1) (get-absent (set key value t c) still key now later gone)
