-- ===== src/Assistant/Series/Tests.antt =====
-- A series of four places that is offered six samples.
use quantstack_terminal.Common.{
  ℕ, ◌+◌, ◌-◌, ◌*◌, ◌/◌, ◌≡◌, refl, List, [], ◌∷◌, Option, none, some, text_eq, codes, ◌==◌, arith,
  not, if◌then◌else◌,
}
use quantstack_terminal.Assistant.Series.{
  Values, Series, new, push, append, newest, oldest, latest, search, floor_index, at_time,
  interpolated, delta, window, samples_from, drop_chain,
}
use quantstack_terminal.Assistant.Series.Order.{push_all, IsOrdered, run-IsOrdered}
use quantstack_terminal.Assistant.Series.Search.{IsFloor, floor_index-IsFloor}

-- Whole values, interpolated from below; 99 stands for one that is not finite.
abbrev whole : Values
whole = record {
  Value = ℕ;
  zero_ = 0;
  is_finite = λ v. not (v == 99);
  between = λ a b t d. a + (b - a) * t / d;
  minus = λ a b. a - b;
  percent = λ a b. if b == 0 then 0 else (a - b) * 100 / b;
}

abbrev offered : List (ℕ × ℕ)
offered = (10, 1) ∷ (20, 3) ∷ (20, 9) ∷ (30, 99) ∷ (40, 5) ∷ (50, 7) ∷ (60, 8) ∷ []

abbrev held : Series ℕ
held = push_all whole offered (new whole 4)

held_is_full : held.len ≡ 4
unfolding push_all new push append newest
held_is_full = refl

oldest_is_kept : oldest whole held ≡ 20
unfolding push_all new push append newest oldest
oldest_is_kept = refl

halfway : at_time whole 30 held ≡ some 4
unfolding push_all new push append newest oldest at_time floor_index search interpolated latest
halfway = refl

too_early : at_time whole 19 held ≡ none
unfolding push_all new push append newest oldest at_time floor_index search interpolated latest
too_early = refl

last_two : window whole 15 65 held ≡ record { ts = 50; v = 7 } ∷ record { ts = 60; v = 8 } ∷ []
unfolding push_all new push append newest window samples_from
last_two = refl

change : delta whole 30 60 held ≡ some (record { from = 4; to = 8; abs = 4; pct = 100 })
unfolding push_all new push append newest oldest at_time floor_index search interpolated latest
    delta
change = refl

chain_dropped :
    drop_chain whole (codes "N") ((codes "N|1|-|oi", held) ∷ (codes "NI|1|-|oi", held) ∷ [])
    ≡ (codes "NI|1|-|oi", held) ∷ []
unfolding drop_chain
chain_dropped = refl

run-IsOrdered_example : IsOrdered whole held
run-IsOrdered_example = run-IsOrdered whole 4 offered (omega arith)

floor_index-IsFloor_example :
    (r : Option ℕ) × (floor_index whole 45 held ≡ some r) × IsFloor whole held 45 r
floor_index-IsFloor_example = floor_index-IsFloor whole 4 offered 45 (omega arith)
