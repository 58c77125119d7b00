-- ===== src/Feeds/Breaker/Tests.antt =====
-- Runs of the breaker, and the theorems about it at concrete inputs.
use quantstack_terminal.Common.{
  ◌≡◌, ◌≢◌, refl, true, false, List, [], ◌∷◌, some, arith, Text, codes, text_eq, ne_of_beq, Values,
  get, put, remove, min, ◌*◌, ◌+◌, ◌^◌,
}
use quantstack_terminal.Feeds.Breaker.{
  FeedId, opened, half_open, Config, Entry, entry_of, attempt, succeed, fail, can_attempt,
  record_success, record_failure, state_of, status, reset, reset_all, Call, attempted, failed,
  asked, step, run,
}
use quantstack_terminal.Feeds.Breaker.Invariant.{IsUsable, IsSound, run-IsSound}
use quantstack_terminal.Feeds.Breaker.Probe.{single_probe}
use quantstack_terminal.Feeds.Breaker.Ladder.{failed_probe, failed_probes, failed_probes_lem}

breaker : Unit {0}
unfolding run step can_attempt record_success record_failure status reset reset_all state_of attempt
    succeed fail entry_of get put remove
breaker = tt

abbrev defaults : Config
defaults = record { threshold = 3; cooldown_ms = 30000; cooldown_max = 300000 }

abbrev usable : IsUsable defaults
usable = record { some_faults = omega arith; ladder = omega arith }

abbrev nubra : FeedId
nubra = codes "nubra"

abbrev kotak : FeedId
kotak = codes "kotak"

kotak_is_not : kotak ≢ nubra
kotak_is_not = ne_of_beq kotak nubra refl

abbrev bad : Text
bad = codes "timeout"

abbrev three_faults : List Call
three_faults = failed 10 nubra bad ∷ failed 20 nubra bad ∷ failed 30 nubra bad ∷ []

abbrev tripped : Entry
tripped = record {
  state = opened;
  failures = 3;
  cooldown = 30000;
  opened_at = 30;
  last_error = some bad;
  probing = false;
  trips = 1;
  last_state_at = 30;
}

trips_after_three : run defaults three_faults [] ≡ (nubra, tripped) ∷ []
unfolding breaker
trips_after_three = refl

refused_then_probed :
    ((can_attempt defaults 30029 nubra ((nubra, tripped) ∷ [])).1 ≡ false)
    × ((can_attempt defaults 30030 nubra ((nubra, tripped) ∷ [])).1 ≡ true)
    × (state_of 30030 nubra ((nubra, tripped) ∷ []) ≡ half_open)
unfolding breaker
refused_then_probed = (refl, refl, refl)

run-IsSound_example : Values (IsSound defaults) (run defaults three_faults [])
run-IsSound_example = run-IsSound defaults usable three_faults

abbrev others : List Call
others = attempted 40000 nubra ∷ failed 40001 kotak bad ∷ asked 40002 nubra ∷ []

single_probe_example :
    ((can_attempt defaults 30030 nubra ((nubra, tripped) ∷ [])).1 ≡ true)
    × ((can_attempt defaults 99999 nubra
          (run defaults others (can_attempt defaults 30030 nubra ((nubra, tripped) ∷ [])).0)).1
        ≡ false)
unfolding get
single_probe_example =
    single_probe defaults nubra 30030 ((nubra, tripped) ∷ []) tripped others 99999 refl refl
      (omega arith) (tt, (kotak_is_not, (tt, tt)))

failed_probes_lem_example :
    let e' = failed_probes defaults ((30030, 30040, bad) ∷ (90040, 90050, bad) ∷ []) tripped in
    (e'.state ≡ opened) × (e'.cooldown ≡ min (30000 * 2 ^ 2) 300000) × (e'.trips ≡ 1 + 2)
unfolding failed_probe fail attempt
failed_probes_lem_example =
    failed_probes_lem defaults ((30030, 30040, bad) ∷ (90040, 90050, bad) ∷ []) tripped refl
      (omega arith) (omega arith, (omega arith, tt))
