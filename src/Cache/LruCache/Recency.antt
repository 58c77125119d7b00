-- ===== src/Cache/LruCache/Recency.antt =====
-- An entry survives while fewer other keys are used than the cache holds.
use quantstack_terminal.Common.{
  ℕ, suc, ◌+◌, ◌≤◌, ◌<◌, ◌≡◌, ◌≢◌, ◌∙◌, refl, sym, ap, inl, inr, false, List, [], ◌∷◌, ◌++◌, some,
  Text, text_eq, text_beq, text_beq_iff, beq_of_ne, arith, All, length, Bool-cases, Option-cases,
  leb, Assoc, put, remove, IsFresh, IsFresh-remove_self, get-append, put_of_IsFresh,
}
use quantstack_terminal.Common.{get as map_get}
use quantstack_terminal.Cache.LruCache.{
  Entry, LruCache, is_expired, get, evict, set, has, delete, Use, fetched, stored, checked, deleted,
  cleared, step, run,
}
use quantstack_terminal.Cache.LruCache.Bounds.{IsBounded, evict-IsFresh}
use quantstack_terminal.Common.{length-remove_le}
use quantstack_terminal.Common.{length-put_le}
use quantstack_terminal.Cache.LruCache.{clear}

-- The use is of another key, and does not clear the cache.
abbrev pub OfOther : {T : Type 0} → Text → Use T → Type 0
OfOther k (fetched now j) = j ≢ k
OfOther k (stored now j v ttl) = j ≢ k
OfOther k (checked now j) = j ≢ k
OfOther k (deleted j) = j ≢ k
OfOther k cleared = ⊥

module _ {T : Type 0} (k : Text) (e : Entry T) where
  -- The entry stands in the map with at most `n` entries behind it.
  record Stands (n : ℕ) (m : Assoc Text (Entry T)) : Type 0 where
    pre : Assoc Text (Entry T)
    post : Assoc Text (Entry T)
    split : m ≡ pre ++ (k, e) ∷ post
    front : IsFresh k pre
    few : length post ≤ n

  remove-Stands' :
      (n : ℕ) (j : Text) (pre post : Assoc Text (Entry T))
      → j ≢ k
      → IsFresh k pre
      → length post ≤ n
      → Stands n (remove j (pre ++ (k, e) ∷ post))
  unfolding remove
  remove-Stands' n j [] post d front few = rw (beq_of_ne k j (λ eq. d (sym eq))) (record {
    pre = [];
    post = remove j post;
    split = refl;
    front = tt;
    few = omega (arith, length-remove_le j post);
  })
  remove-Stands' n j ((i, w) ∷ pre) post d front few = elim (Bool-cases (text_beq i j)) [
    | inl same ↦
        rw same (record { pre = pre; post = post; split = refl; front = front.1; few = few })
    | inr other ↦
        let h = remove-Stands' n j pre post d front.1 few in
        rw other (record {
          pre = (i, w) ∷ h.pre;
          post = h.post;
          split = ap (λ t. (i, w) ∷ t) h.split;
          front = (front.0, h.front);
          few = h.few;
        })
  ]

  put-Stands' :
      (n : ℕ) (j : Text) (v : Entry T) (pre post : Assoc Text (Entry T))
      → j ≢ k
      → IsFresh k pre
      → length post ≤ n
      → Stands (n + 1) (put j v (pre ++ (k, e) ∷ post))
  unfolding put
  put-Stands' n j v [] post d front few = rw (beq_of_ne k j (λ eq. d (sym eq))) (record {
    pre = [];
    post = put j v post;
    split = refl;
    front = tt;
    few = omega (arith, length-put_le j v post);
  })
  put-Stands' n j v ((i, w) ∷ pre) post d front few = elim (Bool-cases (text_beq i j)) [
    | inl same ↦
        rw same (record {
          pre = (i, v) ∷ pre;
          post = post;
          split = refl;
          front = front;
          few = omega arith;
        })
    | inr other ↦
        let h = put-Stands' n j v pre post d front.1 few in
        rw other (record {
          pre = (i, w) ∷ h.pre;
          post = h.post;
          split = ap (λ t. (i, w) ∷ t) h.split;
          front = (front.0, h.front);
          few = h.few;
        })
  ]

  evict-Stands' :
      (n size : ℕ) (pre post : Assoc Text (Entry T))
      → IsFresh k pre
      → length post ≤ n
      → n + 1 < size
      → Stands n (evict size (pre ++ (k, e) ∷ post))
  unfolding evict remove
  evict-Stands' n size [] post front few room =
      let small : leb size (suc (length post)) ≡ false = ground arith in
      rw small (record { pre = []; post = post; split = refl; front = tt; few = few })
  evict-Stands' n size ((i, w) ∷ pre) post front few room =
      elim (Bool-cases (leb size (length ((i, w) ∷ (pre ++ (k, e) ∷ post))))) [
        | inl full ↦
            rw (full, (text_beq_iff i i).1 refl)
              (record { pre = pre; post = post; split = refl; front = front.1; few = few })
        | inr fits ↦
            rw fits
              (record { pre = (i, w) ∷ pre; post = post; split = refl; front = front; few = few })
      ]

  remove-Stands :
      (n : ℕ) (j : Text) (m : Assoc Text (Entry T)) → j ≢ k → Stands n m → Stands n (remove j m)
  remove-Stands n j m d h = rw h.split (remove-Stands' n j h.pre h.post d h.front h.few)

  put-Stands :
      (n : ℕ) (j : Text) (v : Entry T) (m : Assoc Text (Entry T))
      → j ≢ k
      → Stands n m
      → Stands (n + 1) (put j v m)
  put-Stands n j v m d h = rw h.split (put-Stands' n j v h.pre h.post d h.front h.few)

  evict-Stands :
      (n size : ℕ) (m : Assoc Text (Entry T)) → n + 1 < size → Stands n m → Stands n (evict size m)
  evict-Stands n size m room h = rw h.split (evict-Stands' n size h.pre h.post h.front h.few room)

  Stands-grow : (n : ℕ) (m : Assoc Text (Entry T)) → Stands n m → Stands (n + 1) m
  Stands-grow n m h = record {
    pre = h.pre;
    post = h.post;
    split = h.split;
    front = h.front;
    few = omega (arith, h.few);
  }

  get-Stands :
      (n now : ℕ) (j : Text) (c : LruCache T)
      → j ≢ k
      → Stands n c.store
      → Stands (n + 1) (get now j c).0.store
  unfolding get
  get-Stands n now j c d h = elim (Option-cases (map_get j c.store)) [
    | inl missing ↦ rw (missing, get) (Stands-grow n c.store h)
    | inr (v, found) ↦ elim (Bool-cases (is_expired now v)) [
      | inl old ↦ rw (found, old, get) (Stands-grow n _ (remove-Stands n j c.store d h))
      | inr live ↦
          rw (found, live, get)
            (put-Stands n j v (remove j c.store) d (remove-Stands n j c.store d h))
    ]
  ]

  set-Stands :
      (n now : ℕ) (j : Text) (v : T) (ttl : ℕ) (c : LruCache T)
      → j ≢ k
      → n + 1 < c.capacity
      → Stands n c.store
      → Stands (n + 1) (set now j v ttl c).store
  unfolding set
  set-Stands n now j v ttl c d room h =
      put-Stands n j _ _ d (evict-Stands n c.capacity _ room (remove-Stands n j c.store d h))

  step-Stands :
      (n : ℕ) (u : Use T) (c : LruCache T)
      → OfOther k u
      → n + 1 < c.capacity
      → Stands n c.store
      → Stands (n + 1) (step u c).store
  unfolding step has delete
  step-Stands n (fetched now j) c d room h = get-Stands n now j c d h
  step-Stands n (stored now j v ttl) c d room h = set-Stands n now j v ttl c d room h
  step-Stands n (checked now j) c d room h = get-Stands n now j c d h
  step-Stands n (deleted j) c d room h = Stands-grow n _ (remove-Stands n j c.store d h)
  step-Stands n cleared c d room h = absurd d

  get-capacity : (now : ℕ) (j : Text) (c : LruCache T) → (get now j c).0.capacity ≡ c.capacity
  unfolding get
  get-capacity now j c = ground arith

  step-capacity : (u : Use T) (c : LruCache T) → (step u c).capacity ≡ c.capacity
  unfolding step has delete set clear
  step-capacity (fetched now j) c = get-capacity now j c
  step-capacity (stored now j v ttl) c = refl
  step-capacity (checked now j) c = get-capacity now j c
  step-capacity (deleted j) c = refl
  step-capacity cleared c = refl

  run-Stands :
      (us : List (Use T)) (n : ℕ) (c : LruCache T)
      → All (OfOther k) us
      → n + length us < c.capacity
      → Stands n c.store
      → Stands (n + length us) (run us c).store
  unfolding run
  run-Stands [] n c d room h = let same : n + 0 ≡ n = omega arith in rw same h
  run-Stands (u ∷ us) n c d room h =
      let keep = step-capacity u c in
      let room' : (n + 1) + length us < (step u c).capacity = omega (arith, keep) in
      let same : n + suc (length us) ≡ (n + 1) + length us = omega arith in
      rw same (run-Stands us (n + 1) (step u c) d.1 room' (step-Stands n u c d.0 (omega arith) h))

  get_self : (post : Assoc Text (Entry T)) → map_get k ((k, e) ∷ post) ≡ some e
  unfolding map_get
  get_self post = rw ((text_beq_iff k k).1 refl)

  get-Stands_self :
      (n later : ℕ) (c : LruCache T)
      → Stands n c.store
      → is_expired later e ≡ false
      → (get later k c).1 ≡ some e.value
  unfolding get
  get-Stands_self n later c h live =
      let found : map_get k c.store ≡ some e =
        ap (map_get k) h.split ∙ get-append k h.pre ((k, e) ∷ h.post) h.front ∙ get_self h.post in
      rw (found, get) (rw live refl)

-- A value that was stored in a bounded cache is read back until its time to live is over, after any
-- uses of other keys that are fewer than the capacity and do not clear the cache.
pub set-survives :
    {T : Type 0} (now later : ℕ) (k : Text) (v : T) (ttl : ℕ) (us : List (Use T)) (c : LruCache T)
    → IsBounded c
    → All (OfOther k) us
    → length us < c.capacity
    → later ≤ now + ttl
    → (get later k (run us (set now k v ttl c))).1 ≡ some v
unfolding set
set-survives now later k v ttl us c b others room live =
    let e : Entry _ = record { value = v; at = now; ttl = ttl } in
    let m = evict c.capacity (remove k c.store) in
    let fresh = evict-IsFresh k c.capacity _ (IsFresh-remove_self k c.store b.distinct) in
    let first : Stands k e 0 (set now k v ttl c).store = record {
      pre = m;
      post = [];
      split = put_of_IsFresh k e m fresh;
      front = fresh;
      few = omega arith;
    } in
    get-Stands_self k e _ later _
      (run-Stands k e us 0 (set now k v ttl c) others (omega arith) first) (ground arith)
