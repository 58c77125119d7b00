-- ===== src/Feeds/LiveRouter/Sockets.antt =====
-- No broker socket is lost by the live router.
use quantstack_terminal.Common.{
  ℕ, ◌+◌, ◌≡◌, inl, inr, refl, ◌&&◌, List, [], ◌∷◌, ◌++◌, Option, none, some, text_eq, leb,
  Option-cases, Bool-cases, put, get, text_beq, length,
}
use mathlib.Core.Path.{subst}
use quantstack_terminal.Feeds.Breaker.{FeedId}
use quantstack_terminal.Feeds.Identity.{InstrumentKey}
use quantstack_terminal.Feeds.LiveRouter.{
  Surroundings, SwitchReason, Active, Pending, Flight, idle, waiting, finishing, Live, new_live,
  begin, reconcile, teardown, teardown_from, accept, give_way, settle, initial, manual, Attempt,
  carried, broke, choose, wanted_keys, wait_for, Choice, is_serving, signature_of, is_nil, is_busy,
  unhealthy, park_ms, settle_flight,
}
use quantstack_terminal.Feeds.LiveRouter.Pinning.{pin-cases}
use quantstack_terminal.Feeds.LiveRouter.Steps.{
  Event, subscribed, unsubscribed, settled, flight_over, timer_fired, ticked, pinned_to, rotated,
  step, run, subscribe, unsubscribe, pin, rotate, dispatch, land, land_from, overlap_over, Tick,
  is_seen, dedupe_key, holds_handle, drop_handle, is_empty_list, or_same, park_active,
}
use quantstack_terminal.Feeds.LiveRouter.Accounts.{
  Accounted, closed_Accounted, opened_Accounted, timer_Accounted, has, IsAccounted,
}

teardown_from-IsAccounted :
    (active : Option Active) (m : Live)
    → Accounted active m.closing m.open_sockets m.next_socket
    → active ≡ m.active
    → IsAccounted (teardown_from active m)
teardown_from-IsAccounted none m h same =
    subst (λ x. Accounted x m.closing m.open_sockets m.next_socket) same h
teardown_from-IsAccounted (some a) m h same =
    closed_Accounted a m.closing m.open_sockets m.next_socket h

teardown-IsAccounted : (m : Live) → IsAccounted m → IsAccounted (teardown m)
unfolding teardown
teardown-IsAccounted m h = teardown_from-IsAccounted m.active m h refl

wait_for-IsAccounted :
    (keys : List InstrumentKey) (reason : SwitchReason) (c : Choice) (m : Live)
    → IsAccounted m
    → IsAccounted (wait_for keys reason c m)
wait_for-IsAccounted keys reason c m h =
    elim (Bool-cases
      (is_serving c.feed m.active && text_beq (signature_of keys) m.active_key_sig)) [
        | inl same ↦ rw same h
        | inr other ↦ rw other h
      ]

begin-IsAccounted :
    (s : Surroundings) (reason : SwitchReason) (m : Live)
    → IsAccounted m
    → IsAccounted (begin s reason m)
unfolding begin
begin-IsAccounted s reason m h = elim (Bool-cases (is_nil (wanted_keys m.subs))) [
  | inl no_keys ↦ rw no_keys (teardown-IsAccounted m h)
  | inr some_keys ↦ elim (Option-cases (choose s m (wanted_keys m.subs))) [
    | inl no_choice ↦ rw (some_keys, no_choice) (teardown-IsAccounted m h)
    | inr (c, chosen) ↦
        rw (some_keys, chosen) (wait_for-IsAccounted (wanted_keys m.subs) reason c m h)
  ]
]

reconcile-IsAccounted :
    (s : Surroundings) (reason : SwitchReason) (m : Live)
    → IsAccounted m
    → IsAccounted (reconcile s reason m)
unfolding reconcile
reconcile-IsAccounted s reason m h = elim (Bool-cases (is_busy m.resubscribing)) [
  | inl busy ↦ rw busy h
  | inr free ↦ rw free (begin-IsAccounted s reason m h)
]

give_way-IsAccounted :
    (s : Surroundings) (p : Pending) (m : Live) → IsAccounted m → IsAccounted (give_way s p m)
unfolding give_way
give_way-IsAccounted s p m h =
    let parked' = put p.choice.feed (s.now + park_ms) m.parked in
    elim (Bool-cases (leb (length s.registered) (length parked'))) [
      | inl full ↦ rw full h
      | inr rest ↦ rw rest (begin-IsAccounted s unhealthy (record m { parked = parked' }) h)
    ]

settle_flight-IsAccounted :
    (s : Surroundings) (attempt : Attempt) (f : Flight) (m : Live)
    → IsAccounted m
    → IsAccounted (settle_flight s attempt f m)
unfolding accept
settle_flight-IsAccounted s carried (waiting p) m h =
    opened_Accounted m.active p.choice.feed p.choice.broker m.closing m.open_sockets m.next_socket h
settle_flight-IsAccounted s broke (waiting p) m h = give_way-IsAccounted s p m h
settle_flight-IsAccounted s carried idle m h = h
settle_flight-IsAccounted s carried finishing m h = h
settle_flight-IsAccounted s broke idle m h = h
settle_flight-IsAccounted s broke finishing m h = h

land-IsAccounted : (f : Flight) (m : Live) → IsAccounted m → IsAccounted (land_from f m)
land-IsAccounted idle m h = h
land-IsAccounted (waiting p) m h = h
land-IsAccounted finishing m h = h

timer-IsAccounted : (socket : ℕ) (m : Live) → IsAccounted m → IsAccounted (overlap_over socket m)
unfolding overlap_over
timer-IsAccounted socket m h = elim (Bool-cases (has socket m.closing)) [
  | inl here ↦
      rw here (timer_Accounted socket m.active m.closing m.open_sockets m.next_socket here h)
  | inr gone ↦ rw gone h
]

dispatch-IsAccounted :
    (s : Surroundings) (t : Tick) (m : Live) → IsAccounted m → IsAccounted (dispatch s t m).0
unfolding dispatch
dispatch-IsAccounted s t m h = elim (Bool-cases (is_seen (get (dedupe_key t) m.recent_ticks))) [
  | inl seen ↦ rw seen h
  | inr new ↦ rw new h
]

unsubscribe-IsAccounted :
    (s : Surroundings) (n : ℕ) (m : Live) → IsAccounted m → IsAccounted (unsubscribe s n m)
unfolding unsubscribe
unsubscribe-IsAccounted s n m h = elim (Bool-cases (holds_handle n m.subs)) [
  | inr done ↦ rw done h
  | inl held ↦
      let m' = record m { subs = drop_handle n m.subs } in
      elim (Bool-cases (is_empty_list m'.subs)) [
        | inl last ↦ rw (held, last) (teardown-IsAccounted m' h)
        | inr others ↦ rw (held, others) (reconcile-IsAccounted s initial m' h)
      ]
]

pin-IsAccounted :
    (s : Surroundings) (id : Option FeedId) (m : Live)
    → IsAccounted m
    → IsAccounted (or_same (pin s id m) m)
pin-IsAccounted s id m h = elim (pin-cases s id m) [
  | inl threw ↦ rw threw h
  | inr moved ↦ rw moved (reconcile-IsAccounted s manual (record m { pinned = id; parked = [] }) h)
]

step-IsAccounted :
    (s : Surroundings) (e : Event) (m : Live) → IsAccounted m → IsAccounted (step s e m)
unfolding step subscribe rotate land settle
step-IsAccounted s (subscribed keys) m h =
    reconcile-IsAccounted s initial
      (record m {
        subs = m.subs ++ record { handle = m.next_id; keys = keys } ∷ [];
        next_id = m.next_id + 1;
      })
      h
step-IsAccounted s (unsubscribed n) m h = unsubscribe-IsAccounted s n m h
step-IsAccounted s (settled attempt) m h = settle_flight-IsAccounted s attempt m.resubscribing m h
step-IsAccounted s flight_over m h = land-IsAccounted m.resubscribing m h
step-IsAccounted s (timer_fired socket) m h = timer-IsAccounted socket m h
step-IsAccounted s (ticked t) m h = dispatch-IsAccounted s t m h
step-IsAccounted s (pinned_to id) m h = pin-IsAccounted s id m h
step-IsAccounted s (rotated reason) m h =
    reconcile-IsAccounted s reason
      (record m { parked = park_active (s.now + park_ms) m.active m.parked }) h

run_from-IsAccounted :
    (es : List (Surroundings × Event)) (m : Live) → IsAccounted m → IsAccounted (run es m)
unfolding run
run_from-IsAccounted [] m h = h
run_from-IsAccounted ((s, e) ∷ es) m h =
    run_from-IsAccounted es (step s e m) (step-IsAccounted s e m h)

-- Whatever happens, every open socket either serves or waits for its timer, the one that serves is
-- open and waits for no timer, and all of them have numbers below the next socket's.
pub run-IsAccounted : (es : List (Surroundings × Event)) → IsAccounted (run es new_live)
run-IsAccounted es =
    run_from-IsAccounted es new_live
      (record { accounted = tt; serving = tt; fresh = tt; apart = tt })
