-- ===== src/Cache/RingBuffer/Tests.antt =====
-- A ring of two records over the natural numbers, and the theorems at concrete inputs.
use quantstack_terminal.Common.{
  ℕ, ◌-◌, ◌≡◌, refl, not, List, [], ◌∷◌, none, arith, ltb, ◌==◌, drop, length,
}
use quantstack_terminal.Cache.RingBuffer.{
  Floats, TickRecord, new, write_cols, read_at, push, last, read_from, to_array, since, clear,
  Change, pushed, cleared, run,
}
use quantstack_terminal.Cache.RingBuffer.Window.{history, to_array-run}

ring : Unit {0}
unfolding run new push last to_array since clear write_cols read_at read_from
ring = tt

abbrev numbers : Floats
numbers = record {
  Float = ℕ;
  zero_ = 0;
  one_ = 1;
  is_truthy = λ n. not (n == 0);
  is_above = λ a b. ltb b a;
}

abbrev tick : ℕ → ℕ → TickRecord ℕ
tick time roll = record {
  time = time;
  spot = 2;
  atm_strike = 3;
  synthetic_future = 4;
  call_ltp = 5;
  put_ltp = 6;
  straddle_price = 11;
  is_roll_event = roll;
}

abbrev changes : List (Change ℕ)
changes =
    pushed (tick 9 0) ∷ cleared ∷ pushed (tick 10 0) ∷ pushed (tick 11 7) ∷ pushed (tick 12 0) ∷ []

exports :
    (to_array numbers (run numbers changes (new numbers 2)) ≡ tick 11 1 ∷ tick 12 0 ∷ [])
    × (since numbers 11 (run numbers changes (new numbers 2)) ≡ tick 12 0 ∷ [])
    × (last numbers (run numbers (cleared ∷ []) (new numbers 2)) ≡ none)
unfolding ring
exports = (refl, refl, refl)

to_array-run_example :
    let ss = history numbers changes [] in
    to_array numbers (run numbers changes (new numbers 2)) ≡ drop (length ss - 2) ss
to_array-run_example = to_array-run numbers 2 changes (omega arith)
