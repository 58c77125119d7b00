-- ===== src/Live/Quotes/Handles.antt =====
-- A connection holds at most one subscription of the live router, and none once it is closed.
use quantstack_terminal.Common.{
  ℕ, ◌≡◌, refl, ◌∙◌, ap, Bool, true, not, List, [], ◌∷◌, ◌++◌, Option, none, some, Text, ◌==◌,
  by_if, filter, length, ltb, arith,
}
use quantstack_terminal.Feeds.Identity.{InstrumentKey, is_empty}
use quantstack_terminal.Instruments.Symbol.{symbol_of}
use quantstack_terminal.Instruments.Store.{InstrumentStore}
use quantstack_terminal.Live.Quotes.{
  Call, subscribe_to, unsubscribe, Tick, Connection, Result, new, flush, on_tick, let_go,
  after_subscribe, carried, resubscribe, heartbeat, on_pong, on_close, ping_tolerance,
}

-- What the live router holds for a connection after its calls.
unfoldable pub replay : List Call → List ℕ → List ℕ
replay [] held = held
replay (subscribe_to handle keys ∷ calls) held = replay calls (held ++ handle ∷ [])
replay (unsubscribe handle ∷ calls) held = replay calls (filter (λ h. not (h == handle)) held)

abbrev pub held_by : Option ℕ → List ℕ
held_by none = []
held_by (some handle) = handle ∷ []

replay-append : (a b : List Call) (held : List ℕ) → replay (a ++ b) held ≡ replay b (replay a held)
unfolding replay
replay-append [] b held = refl
replay-append (subscribe_to handle keys ∷ a) b held = replay-append a b (held ++ handle ∷ [])
replay-append (unsubscribe handle ∷ a) b held =
    replay-append a b (filter (λ h. not (h == handle)) held)

replay-let_go : (o : Option ℕ) → replay (let_go o) (held_by o) ≡ []
unfolding replay
replay-let_go none = refl
replay-let_go (some handle) = let same : (handle == handle) ≡ true = ground arith in rw same refl

module _ (F : Type 0) (parse_date : Text → Option Text) where
  pub data Event : Type 0 where
    ticked : Tick F → Event
    flushed : Bool → Event
    asked : InstrumentStore → Bool → Option ℕ → List InstrumentKey → Event
    beat ponged : Event

  abbrev quiet : Connection F → Result F
  quiet c = record { connection = c; sent = []; calls = [] }

  unfoldable pub handle_event : Event → Connection F → Result F
  handle_event (ticked t) c = quiet (on_tick F parse_date t c)
  handle_event (flushed ready) c = flush F ready c
  handle_event (asked store ready granted keys) c =
      resubscribe F parse_date store ready granted keys c
  handle_event beat c = quiet (heartbeat F c).0
  handle_event ponged c = quiet (on_pong F c)

  -- The connection after some events, and all the calls that they made.
  unfoldable pub run : List Event → Connection F → Connection F × List Call
  run [] c = (c, [])
  run (e ∷ es) c =
      let r = handle_event e c in let rest = run es r.connection in (rest.0, r.calls ++ rest.1)

  abbrev IsKept : Connection F → Result F → Type 0
  IsKept c r = replay r.calls (held_by c.subscription) ≡ held_by r.connection.subscription

  after_subscribe-IsKept :
      (ready : Bool) (dropped : ℕ) (keys : List InstrumentKey) (granted : Option ℕ)
      (c cleared : Connection F)
      → cleared.subscription ≡ none
      → IsKept c (after_subscribe F ready dropped keys granted (let_go c.subscription) cleared)
  unfolding replay
  after_subscribe-IsKept ready dropped keys none c cleared e = rw e (replay-let_go c.subscription)
  after_subscribe-IsKept ready dropped keys (some handle) c cleared e =
      replay-append (let_go c.subscription) (subscribe_to handle keys ∷ []) (held_by c.subscription)
      ∙ ap (λ held. held ++ handle ∷ []) (replay-let_go c.subscription)

  handle_event-IsKept : (e : Event) (c : Connection F) → IsKept c (handle_event e c)
  unfolding handle_event on_tick flush resubscribe heartbeat on_pong replay
  handle_event-IsKept (ticked t) c =
      by_if (λ c'. IsKept c (quiet c')) (is_empty (symbol_of parse_date t.key)) (λ _. refl)
        (λ _. refl)
  handle_event-IsKept (flushed ready) c =
      by_if (IsKept c) (length c.pending == 0) (λ _. refl) (λ _. refl)
  handle_event-IsKept (asked store ready granted keys) c =
      by_if (IsKept c) (length (carried F parse_date store keys) == 0)
        (λ _. replay-let_go c.subscription)
        (λ _.
          after_subscribe-IsKept ready _ _ granted c
            (record c { subscription = none; pending = [] }) refl)
  handle_event-IsKept beat c =
      by_if (λ (p : Connection F × Bool). IsKept c (quiet p.0)) (ltb ping_tolerance c.missed_pings)
        (λ _. refl) (λ _. refl)
  handle_event-IsKept ponged c = refl

  run-replay :
      (es : List Event) (c : Connection F)
      → replay (run es c).1 (held_by c.subscription) ≡ held_by (run es c).0.subscription
  unfolding run replay
  run-replay [] c = refl
  run-replay (e ∷ es) c =
      let r = handle_event e c in
      replay-append r.calls (run es r.connection).1 (held_by c.subscription)
      ∙ ap (replay (run es r.connection).1) (handle_event-IsKept e c)
      ∙ run-replay es r.connection

  -- Whatever a connection goes through, the live router holds for it at most one subscription, the
  -- one that the connection knows of; and none once the connection is closed.
  pub run-held :
      (es : List Event)
      → let c = (run es (new F)).0 in
        let calls = (run es (new F)).1 in
        (replay calls [] ≡ held_by c.subscription)
        × (replay (calls ++ (on_close F c).calls) [] ≡ [])
  unfolding on_close
  run-held es =
      let c = (run es (new F)).0 in
      let calls = (run es (new F)).1 in
      let kept = run-replay es (new F) in
      (
        kept,
        replay-append calls (let_go c.subscription) []
            ∙ ap (replay (let_go c.subscription)) kept
            ∙ replay-let_go c.subscription,
      )
