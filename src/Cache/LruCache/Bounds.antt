-- ===== src/Cache/LruCache/Bounds.antt =====
-- The size of the cache, and what is read after a write.
use quantstack_terminal.Common.{
  ℕ, suc, ◌+◌, ◌≤◌, max, ◌≡◌, ◌∙◌, refl, ap, inl, inr, List, [], ◌∷◌, none, some, Text, text_eq,
  text_beq, text_beq_iff, arith, length, length-append, Bool-cases, Option-cases, if◌then◌else◌,
  leb, ltb, Assoc, put, remove, Distinct, IsFresh, IsFresh-remove, IsFresh-remove_self,
  Distinct-remove, Distinct-put, get-put_self, put_of_IsFresh,
}
use quantstack_terminal.Common.{get as map_get}
use quantstack_terminal.Cache.LruCache.{
  Entry, LruCache, new, is_expired, get, evict, set, has, delete, clear, Use, fetched, stored,
  checked, deleted, cleared, step, run,
}
use quantstack_terminal.Common.{length-remove_le}

module _ {T : Type 0} where
  -- Distinct keys, and no more of them than the capacity; a capacity of 0 holds one entry.
  pub record IsBounded (c : LruCache T) : Type 0 where
    pub distinct : Distinct c.store
    pub bounded : length c.store ≤ max 1 c.capacity

  length-remove_found :
      (k : Text) (m : Assoc Text (Entry T)) {e : Entry T}
      → map_get k m ≡ some e
      → suc (length (remove k m)) ≡ length m
  unfolding map_get remove
  length-remove_found k [] h = cc
  length-remove_found k ((j, w) ∷ m) {e} h = elim (Bool-cases (text_beq j k)) [
    | inl same ↦ rw same refl
    | inr other ↦ rw other (ap suc (length-remove_found k m (rw other at h)))
  ]

  length-put_fresh :
      (k : Text) (e : Entry T) (m : Assoc Text (Entry T))
      → IsFresh k m
      → length (put k e m) ≡ length m + 1
  length-put_fresh k e m h = ap length (put_of_IsFresh k e m h) ∙ length-append m ((k, e) ∷ [])

  evict-lt :
      (n : ℕ) (m : Assoc Text (Entry T)) → length m ≤ max 1 n → length (evict n m) + 1 ≤ max 1 n
  unfolding evict remove
  evict-lt n [] h = omega arith
  evict-lt n ((k, e) ∷ m) h = ground (arith, (text_beq_iff k k).1 refl)

  evict-Distinct : (n : ℕ) (m : Assoc Text (Entry T)) → Distinct m → Distinct (evict n m)
  unfolding evict
  evict-Distinct n [] h = tt
  evict-Distinct n (b ∷ m) h = elim (Bool-cases (leb n (length (b ∷ m)))) [
    | inl full ↦ rw full (Distinct-remove b.0 (b ∷ m) h)
    | inr room ↦ rw room h
  ]

  pub evict-IsFresh :
      (k : Text) (n : ℕ) (m : Assoc Text (Entry T)) → IsFresh k m → IsFresh k (evict n m)
  unfolding evict
  evict-IsFresh k n [] h = tt
  evict-IsFresh k n (b ∷ m) h = elim (Bool-cases (leb n (length (b ∷ m)))) [
    | inl full ↦ rw full (IsFresh-remove k b.0 (b ∷ m) h)
    | inr room ↦ rw room h
  ]

  set-IsBounded :
      (now : ℕ) (k : Text) (v : T) (ttl : ℕ) (c : LruCache T)
      → IsBounded c
      → IsBounded (set now k v ttl c)
  unfolding set
  set-IsBounded now k v ttl c h =
      let m = remove k c.store in
      let fresh = evict-IsFresh k c.capacity m (IsFresh-remove_self k c.store h.distinct) in
      let room = evict-lt c.capacity m (omega (arith, length-remove_le k c.store, h.bounded)) in
      record {
        distinct =
            Distinct-put k _ (evict c.capacity m)
              (evict-Distinct c.capacity m (Distinct-remove k c.store h.distinct));
        bounded = rw (length-put_fresh k _ (evict c.capacity m) fresh) room;
      }

  get-IsBounded : (now : ℕ) (k : Text) (c : LruCache T) → IsBounded c → IsBounded (get now k c).0
  unfolding get
  get-IsBounded now k c h = elim (Option-cases (map_get k c.store)) [
    | inl missing ↦ rw (missing, get) h
    | inr (e, found) ↦ elim (Bool-cases (is_expired now e)) [
      | inl old ↦
          rw (found, old, get)
            (record {
              distinct = Distinct-remove k c.store h.distinct;
              bounded = omega (arith, length-remove_le k c.store, h.bounded);
            })
      | inr live ↦
          let fresh = IsFresh-remove_self k c.store h.distinct in
          rw (found, live, get)
            (record {
              distinct = Distinct-put k e (remove k c.store) (Distinct-remove k c.store h.distinct);
              bounded = omega (
                arith,
                length-put_fresh k e (remove k c.store) fresh,
                length-remove_found k c.store found,
                h.bounded,
              );
            })
    ]
  ]

  step-IsBounded : (u : Use T) (c : LruCache T) → IsBounded c → IsBounded (step u c)
  unfolding step has delete clear
  step-IsBounded (fetched now k) c h = get-IsBounded now k c h
  step-IsBounded (stored now k v ttl) c h = set-IsBounded now k v ttl c h
  step-IsBounded (checked now k) c h = get-IsBounded now k c h
  step-IsBounded (deleted k) c h = record {
    distinct = Distinct-remove k c.store h.distinct;
    bounded = omega (arith, length-remove_le k c.store, h.bounded);
  }
  step-IsBounded cleared c h = record { distinct = tt; bounded = omega arith }

  run_from-IsBounded : (us : List (Use T)) (c : LruCache T) → IsBounded c → IsBounded (run us c)
  unfolding run
  run_from-IsBounded [] c h = h
  run_from-IsBounded (u ∷ us) c h = run_from-IsBounded us (step u c) (step-IsBounded u c h)

  -- After any sequence of uses of a new cache, its keys are distinct and it holds at most as many
  -- entries as its capacity, or one if that is 0.
  pub run-IsBounded : (capacity : ℕ) (us : List (Use T)) → IsBounded (run us (new capacity))
  unfolding new
  run-IsBounded capacity us =
      run_from-IsBounded us _ (record { distinct = tt; bounded = omega arith })

  -- What was stored last under a key is read until its time to live is over, and not after.
  pub get-set :
      (now later : ℕ) (k : Text) (v : T) (ttl : ℕ) (c : LruCache T)
      → (get later k (set now k v ttl c)).1 ≡ (if ltb (now + ttl) later then none else some v)
  unfolding get set
  get-set now later k v ttl c =
      rw
        (
          get-put_self k (record { value = v; at = now; ttl = ttl })
              (evict c.capacity (remove k c.store)),
          get,
        )
        (ground arith)
