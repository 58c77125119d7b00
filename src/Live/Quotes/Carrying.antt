-- ===== src/Live/Quotes/Carrying.antt =====
-- The contracts that a connection subscribes to are ones that some broker's master lists.
use quantstack_terminal.Common.{
  ℕ, ◌≡◌, ◌⊎◌, refl, sym, ◌∙◌, Bool, Bool-cases, Option-cases, true, List, [], ◌∷◌, ◌++◌, Option,
  none, some, inl, inr, Text, text_eq, filter, map, length, ltb, ◌==◌, All, Assoc, by_if,
}
use quantstack_terminal.Feeds.Identity.{InstrumentKey}
use quantstack_terminal.Instruments.Symbol.{symbol_of, segment_of}
use quantstack_terminal.Instruments.Store.{
  InstrumentRow, InstrumentStore, Entry, CacheFile, brokers_for, route_key, route, resolve,
  is_found, rows_of, canonical_key,
}
use quantstack_terminal.Instruments.Store.Lookup.{find_last, has_canonical}
use quantstack_terminal.Instruments.Store.Runs.{Operation, run, new, run-IsAnswered}
use quantstack_terminal.Live.Quotes.{subscribe_to, Connection, carried, resubscribe, let_go, Result}

module _ (parse_date : Text → Option Text) where
  -- A contract that some broker's master lists, under its canonical symbol.
  pub record IsListed (st : InstrumentStore) (key : InstrumentKey) : Type 0 where
    pub broker : Text
    pub row : InstrumentRow
    pub last :
        find_last
          (has_canonical
            (canonical_key (symbol_of parse_date key) (segment_of key.exchange key.kind)))
          (rows_of broker st)
        ≡ some row

  found_in :
      (symbol exchange : Text) (st : InstrumentStore) (bs : Assoc Text Entry)
      → ltb 0 (
          length (
            map
              (λ (b : Text × Option InstrumentRow). b.0)
              (filter
                (λ (b : Text × Option InstrumentRow). is_found b.1)
                (map (λ (b : Text × Entry). (b.0, resolve b.0 symbol exchange st)) bs))))
        ≡ true
      → (b : Text) × (row : InstrumentRow) × (resolve b symbol exchange st ≡ some row)
  found_in symbol exchange st [] h = absurd (cc)
  found_in symbol exchange st ((b, entry) ∷ bs) h =
      elim (Option-cases (resolve b symbol exchange st)) [
        | inr (row, here) ↦ (b, row, here)
        | inl gone ↦ found_in symbol exchange st bs (rw gone at h)
      ]

  found_in-IsListed :
      (ops : List Operation) (disk : Assoc Text CacheFile) (key : InstrumentKey)
      → ltb 0 (length (brokers_for parse_date key (run ops (new disk)))) ≡ true
      → IsListed (run ops (new disk)) key
  unfolding brokers_for route_key route
  found_in-IsListed ops disk key h =
      let st = run ops (new disk) in
      let symbol = symbol_of parse_date key in
      let segment = segment_of key.exchange key.kind in
      let found = found_in symbol segment st st.brokers h in
      record {
        broker = found.0;
        row = found.1;
        last = sym ((run-IsAnswered ops disk found.0).canonical symbol segment) ∙ found.2;
      }

  module _ (F : Type 0) where
    carried-IsListed :
        (ops : List Operation) (disk : Assoc Text CacheFile) (keys : List InstrumentKey)
        → All (IsListed (run ops (new disk))) (carried F parse_date (run ops (new disk)) keys)
    carried-IsListed ops disk [] = _
    carried-IsListed ops disk (k ∷ ks) =
        elim (Bool-cases (ltb 0 (length (brokers_for parse_date k (run ops (new disk)))))) [
          | inl some_ ↦ rw some_ (found_in-IsListed ops disk k some_, carried-IsListed ops disk ks)
          | inr none_ ↦ rw none_ (carried-IsListed ops disk ks)
        ]

    -- Whatever the store has been through, a connection that asks for contracts subscribes, if to
    -- anything, to those of them that some broker's master lists, in their order, and gives up the
    -- subscription that it had first.
    pub resubscribe-IsListed :
        (ops : List Operation) (disk : Assoc Text CacheFile) (ready : Bool) (granted : Option ℕ)
        (requested : List InstrumentKey) (c : Connection F)
        → let st = run ops (new disk) in
          let calls = (resubscribe F parse_date st ready granted requested c).calls in
          let keys = carried F parse_date st requested in
          (All (IsListed st) keys)
          × ((calls ≡ let_go c.subscription)
              ⊎ ((handle : ℕ) × (granted ≡ some handle)
                  × (calls ≡ let_go c.subscription ++ subscribe_to handle keys ∷ [])))
    unfolding resubscribe
    resubscribe-IsListed ops disk ready none requested c = (
      carried-IsListed ops disk requested,
      by_if
          (λ (r : Result F).
            (r.calls ≡ let_go c.subscription)
            ⊎ ((handle : ℕ) × (none ≡ some handle)
                × (r.calls
                    ≡ let_go c.subscription
                      ++ subscribe_to handle (carried F parse_date (run ops (new disk)) requested)
                        ∷ [])))
          (length (carried F parse_date (run ops (new disk)) requested) == 0) (λ _. inl refl)
          (λ _. inl refl),
    )
    resubscribe-IsListed ops disk ready (some h) requested c = (
      carried-IsListed ops disk requested,
      by_if
          (λ (r : Result F).
            (r.calls ≡ let_go c.subscription)
            ⊎ ((handle : ℕ) × (some h ≡ some handle)
                × (r.calls
                    ≡ let_go c.subscription
                      ++ subscribe_to handle (carried F parse_date (run ops (new disk)) requested)
                        ∷ [])))
          (length (carried F parse_date (run ops (new disk)) requested) == 0) (λ _. inl refl)
          (λ _. inr (h, refl, refl)),
    )
