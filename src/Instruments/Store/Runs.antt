-- ===== src/Instruments/Store/Runs.antt =====
-- Whatever the store has been through, its answers are those of a search of the rows that it holds.
use quantstack_terminal.Common.{
  ℕ, ◌-◌, ◌≡◌, refl, sym, ◌∙◌, Bool, Bool-cases, Option-cases, List, [], ◌∷◌, inl, inr, some, Text,
  text_eq, text_beq, text_beq_iff, filter, get, put, get-put, by_if,
}
use quantstack_terminal.Common.{some_inj}
use quantstack_terminal.Instruments.Symbol.{canonical_exchange}
use quantstack_terminal.Instruments.Store.{
  InstrumentRow, Entry, InstrumentStore, CacheFile, index, set, load_cache, entry_of, segment_rows,
  segment_of_entry, clear, resolve, resolve_broker, resolve_token, rows_of, canonical_key,
  broker_key, token_key, is_version, ttl_ms, or_zero,
}
use quantstack_terminal.Instruments.Store.Lookup.{
  find_last, has_canonical, has_broker, has_token, index-canonical, index-broker, index-token,
}
use quantstack_terminal.Common.{not}
use quantstack_terminal.Common.{Assoc}
use quantstack_terminal.Common.{leb}

pub data Operation : Type 0 where
  set_to : Bool → ℕ → Text → List InstrumentRow → Operation
  load_from_disk : ℕ → Text → Operation
  segment_asked : Text → Text → Operation
  cleared : Operation

unfoldable pub step : Operation → InstrumentStore → InstrumentStore
step (set_to writable now broker rows) st = (set writable now broker rows st).0
step (load_from_disk now broker) st = (load_cache now broker st).0
step (segment_asked broker segment) st = (segment_rows broker segment st).0
step cleared st = clear st

unfoldable pub run : List Operation → InstrumentStore → InstrumentStore
run [] st = st
run (op ∷ ops) st = run ops (step op st)

abbrev pub on_segment : Text → List InstrumentRow → List InstrumentRow
on_segment want rows = filter (λ r. text_beq r.exchange want) rows

pub record IsIndexed (entry : Entry) : Type 0 where
  pub indexed : entry.indexes ≡ index entry.rows
  pub segments :
      (want : Text) (found : List InstrumentRow)
      → get want entry.by_segment ≡ some found
      → found ≡ on_segment want entry.rows

abbrev pub IsSound : InstrumentStore → Type 0
IsSound st = (broker : Text) (entry : Entry) → get broker st.brokers ≡ some entry → IsIndexed entry

put-IsSound :
    (broker : Text) (entry : Entry) (st : InstrumentStore) (disk : Assoc Text CacheFile)
    → IsIndexed entry
    → IsSound st
    → IsSound (record { brokers = put broker entry st.brokers; disk = disk })
put-IsSound broker entry st disk good sound other found h =
    let law = get-put broker other entry st.brokers in
    elim (Bool-cases (text_beq broker other)) [
      | inl same ↦ let eq : entry ≡ found = some_inj (rw same at (sym law ∙ h)) in rw (← eq) good
      | inr else_ ↦ sound other found (rw else_ at (sym law ∙ h))
    ]

new-IsIndexed :
    (rows : List InstrumentRow) (at : ℕ)
    → IsIndexed (record { rows = rows; indexes = index rows; by_segment = []; loaded_at = at })
unfolding get
new-IsIndexed rows at = record { indexed = refl; segments = λ want found h. absurd (cc) }

set-IsSound :
    (writable : Bool) (now : ℕ) (broker : Text) (rows : List InstrumentRow) (st : InstrumentStore)
    → IsSound st
    → IsSound (set writable now broker rows st).0
unfolding set
set-IsSound writable now broker rows st sound =
    put-IsSound broker _ st (set writable now broker rows st).0.disk (new-IsIndexed rows now) sound

entry_of-IsIndexed :
    (now : ℕ) (file : CacheFile) (entry : Entry) → entry_of now file ≡ some entry → IsIndexed entry
entry_of-IsIndexed now file entry h = elim (Option-cases file.rows) [
  | inl gone ↦ let bad = rw gone at h in absurd (cc)
  | inr (rows, here) ↦
      let loaded : Entry = record {
        rows = rows;
        indexes = index rows;
        by_segment = [];
        loaded_at = or_zero file.loaded_at;
      } in
      by_if (λ r. r ≡ some entry → IsIndexed entry) (not (is_version file.version))
        (λ _ bad. absurd (cc))
        (λ _.
          by_if (λ r. r ≡ some entry → IsIndexed entry) (leb ttl_ms (now - or_zero file.loaded_at))
            (λ _ bad. absurd (cc))
            (λ _ e.
              let same : loaded ≡ entry = some_inj e in
              rw (← same) (new-IsIndexed rows (or_zero file.loaded_at))))
        (rw here at h)
]

load_cache-IsSound :
    (now : ℕ) (broker : Text) (st : InstrumentStore)
    → IsSound st
    → IsSound (load_cache now broker st).0
unfolding load_cache
load_cache-IsSound now broker st sound = elim (Option-cases (get broker st.disk)) [
  | inl gone ↦ rw (load_cache, gone) sound
  | inr (file, here) ↦ elim (Option-cases (entry_of now file)) [
    | inl none_ ↦ rw (load_cache, here, none_) sound
    | inr (entry, some_) ↦
        rw (load_cache, here, some_)
          (put-IsSound broker entry st st.disk (entry_of-IsIndexed now file entry some_) sound)
  ]
]

segment_of-IsIndexed :
    (want : Text) (entry : Entry)
    → IsIndexed entry
    → IsIndexed (segment_of_entry want entry).0
      × ((segment_of_entry want entry).1 ≡ on_segment want entry.rows)
segment_of-IsIndexed want entry good = elim (Option-cases (get want entry.by_segment)) [
  | inr (cached, here) ↦ rw (segment_of_entry, here) (good, good.segments want cached here)
  | inl gone ↦
      rw (segment_of_entry, gone)
        (
          record {
            indexed = good.indexed;
            segments = λ other found h.
                let law = get-put want other (on_segment want entry.rows) entry.by_segment in
                elim (Bool-cases (text_beq want other)) [
                  | inl same ↦
                      let e : want ≡ other = (text_beq_iff want other).0 same in
                      let eq : on_segment want entry.rows ≡ found =
                        some_inj (rw same at (sym law ∙ h)) in
                      rw (← e) (sym eq)
                  | inr else_ ↦ good.segments other found (rw else_ at (sym law ∙ h))
                ];
          },
          refl,
        )
]

segment_rows-IsSound :
    (broker segment : Text) (st : InstrumentStore)
    → IsSound st
    → IsSound (segment_rows broker segment st).0
unfolding segment_rows
segment_rows-IsSound broker segment st sound = elim (Option-cases (get broker st.brokers)) [
  | inl gone ↦ rw (segment_rows, gone) sound
  | inr (entry, here) ↦
      let want = canonical_exchange (some segment) in
      rw (segment_rows, here)
        (put-IsSound broker _ st st.disk
          (segment_of-IsIndexed want entry (sound broker entry here)).0 sound)
]

step-IsSound : (op : Operation) (st : InstrumentStore) → IsSound st → IsSound (step op st)
unfolding step clear get
step-IsSound (set_to writable now broker rows) st sound =
    set-IsSound writable now broker rows st sound
step-IsSound (load_from_disk now broker) st sound = load_cache-IsSound now broker st sound
step-IsSound (segment_asked broker segment) st sound = segment_rows-IsSound broker segment st sound
step-IsSound cleared st sound = λ broker entry h. absurd (cc)

pub run-IsSound : (ops : List Operation) (st : InstrumentStore) → IsSound st → IsSound (run ops st)
unfolding run
run-IsSound [] st sound = sound
run-IsSound (op ∷ ops) st sound = run-IsSound ops (step op st) (step-IsSound op st sound)

-- The answers of a store, by its rows alone.
pub record IsAnswered (st : InstrumentStore) (broker : Text) : Type 0 where
  pub canonical :
      (symbol exchange : Text)
      → resolve broker symbol exchange st
        ≡ find_last (has_canonical (canonical_key symbol exchange)) (rows_of broker st)
  pub by_broker :
      (brsymbol brexchange : Text)
      → resolve_broker broker brsymbol brexchange st
        ≡ find_last (has_broker (broker_key brsymbol brexchange)) (rows_of broker st)
  pub by_token :
      (token brexchange : Text)
      → resolve_token broker token brexchange st
        ≡ find_last (has_token (token_key token brexchange)) (rows_of broker st)
  pub segments :
      (segment : Text)
      → (segment_rows broker segment st).1
        ≡ on_segment (canonical_exchange (some segment)) (rows_of broker st)

sound-IsAnswered : (st : InstrumentStore) (broker : Text) → IsSound st → IsAnswered st broker
unfolding resolve resolve_broker resolve_token segment_rows rows_of find_last
sound-IsAnswered st broker sound = elim (Option-cases (get broker st.brokers)) [
  | inl gone ↦ record {
    canonical = λ symbol exchange. rw (resolve, rows_of, gone) refl;
    by_broker = λ brsymbol brexchange. rw (resolve_broker, rows_of, gone) refl;
    by_token = λ token brexchange. rw (resolve_token, rows_of, gone) refl;
    segments = λ segment. rw (segment_rows, rows_of, gone) refl;
  }
  | inr (entry, here) ↦
      let good = sound broker entry here in
      record {
        canonical = λ symbol exchange.
            rw (resolve, rows_of, here, good.indexed) (index-canonical _ entry.rows);
        by_broker = λ brsymbol brexchange.
            rw (resolve_broker, rows_of, here, good.indexed) (index-broker _ entry.rows);
        by_token = λ token brexchange.
            rw (resolve_token, rows_of, here, good.indexed) (index-token _ entry.rows);
        segments =
            λ segment. rw (segment_rows, rows_of, here) (segment_of-IsIndexed _ entry good).1;
      }
]

abbrev pub new : Assoc Text CacheFile → InstrumentStore
new disk = record { brokers = []; disk = disk }

-- Whatever masters a store has been given, has loaded from disk or has forgotten, and whichever
-- segments it has indexed: a lookup by symbol, by a broker's symbol (under the broker's segment or the
-- canonical one) or by token gives the last row of the broker's current master with that key, and the
-- rows of a segment are those of the master on it, in order.
pub run-IsAnswered :
    (ops : List Operation) (disk : Assoc Text CacheFile) (broker : Text)
    → IsAnswered (run ops (new disk)) broker
unfolding get
run-IsAnswered ops disk broker =
    sound-IsAnswered (run ops (new disk)) broker
      (run-IsSound ops (new disk) (λ b entry h. absurd (cc)))
