-- ===== src/Instruments/Store/Disk.antt =====
-- A master that was written to disk comes back whole while it is fresh.
use quantstack_terminal.Common.{
  ℕ, ◌-◌, ◌≤◌, ◌<◌, ◌≡◌, refl, sym, ◌∙◌, ap, true, false, List, [], none, some, Text, text_eq, leb,
  ltb, get, put, get-put_self, arith,
}
use quantstack_terminal.Instruments.Store.{
  InstrumentRow, Entry, InstrumentStore, CacheFile, index, set, load_cache, entry_of, is_fresh,
  cache_version, ttl_ms,
}
use quantstack_terminal.Instruments.Store.Runs.{new}

-- What a process that starts on the disk gets of the master that an earlier one wrote.
pub record ComesBack (at now : ℕ) (broker : Text) (st : InstrumentStore) : Type 0 where
  pub fresh :
      now - at < ttl_ms
      → ((load_cache now broker (new st.disk)).1 ≡ true)
        × (get broker (load_cache now broker (new st.disk)).0.brokers ≡ get broker st.brokers)
        × (is_fresh now broker st ≡ true)
  pub stale :
      ttl_ms ≤ now - at
      → (load_cache now broker (new st.disk) ≡ (new st.disk, false))
        × (is_fresh now broker st ≡ false)

load_cache-found :
    (now : ℕ) (broker : Text) (st : InstrumentStore) (file : CacheFile) (entry : Entry)
    → get broker st.disk ≡ some file
    → entry_of now file ≡ some entry
    → load_cache now broker st ≡ (record st { brokers = put broker entry st.brokers }, true)
unfolding load_cache
load_cache-found now broker st file entry here taken = rw (load_cache, here, taken) refl

load_cache-refused :
    (now : ℕ) (broker : Text) (st : InstrumentStore) (file : CacheFile)
    → get broker st.disk ≡ some file
    → entry_of now file ≡ none
    → load_cache now broker st ≡ (st, false)
unfolding load_cache
load_cache-refused now broker st file here refused = rw (load_cache, here, refused) refl

is_fresh-held :
    (now : ℕ) (broker : Text) (st : InstrumentStore) (entry : Entry)
    → get broker st.brokers ≡ some entry
    → is_fresh now broker st ≡ ltb (now - entry.loaded_at) ttl_ms
unfolding is_fresh
is_fresh-held now broker st entry here = rw (is_fresh, here) refl

module _ (at : ℕ) (broker : Text) (rows : List InstrumentRow) where
  written : CacheFile
  written = record { version = some cache_version; loaded_at = some at; rows = some rows }

  held : Entry
  held = record { rows = rows; indexes = index rows; by_segment = []; loaded_at = at }

  entry_of-fresh : (now : ℕ) → now - at < ttl_ms → entry_of now written ≡ some held
  unfolding written held
  entry_of-fresh now h = let young : leb ttl_ms (now - at) ≡ false = ground arith in rw young refl

  entry_of-stale : (now : ℕ) → ttl_ms ≤ now - at → entry_of now written ≡ none
  unfolding written
  entry_of-stale now h = let old : leb ttl_ms (now - at) ≡ true = ground arith in rw old refl

-- A master that was set while the directory could be written is taken from the disk by a process that
-- starts anew, with the same rows, indexes and age, exactly as long as it is fresh: until 20 hours
-- have passed since it was set, whatever else the store and the disk held.
pub load_cache-set :
    (at now : ℕ) (broker : Text) (rows : List InstrumentRow) (st : InstrumentStore)
    → ComesBack at now broker (set true at broker rows st).0
unfolding set written held get
load_cache-set at now broker rows st =
    let st' = (set true at broker rows st).0 in
    let on_disk = get-put_self broker (written at broker rows) st.disk in
    let in_memory = get-put_self broker (held at broker rows) st.brokers in
    let fresh_ = is_fresh-held now broker st' (held at broker rows) in_memory in
    record {
      fresh = λ h.
          let young : ltb (now - at) ttl_ms ≡ true = ground arith in
          let loaded =
            load_cache-found now broker (new st'.disk) (written at broker rows)
              (held at broker rows) on_disk (entry_of-fresh at broker rows now h) in
          (
            ap (λ r. r.1) loaded,
            ap (λ r. get broker r.0.brokers) loaded
                ∙ get-put_self broker (held at broker rows) []
                ∙ sym in_memory,
            fresh_ ∙ young,
          );
      stale = λ h.
          let old : ltb (now - at) ttl_ms ≡ false = ground arith in
          (
            load_cache-refused now broker (new st'.disk) (written at broker rows) on_disk
                (entry_of-stale at broker rows now h),
            fresh_ ∙ old,
          );
    }
