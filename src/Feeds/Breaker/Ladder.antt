-- ===== src/Feeds/Breaker/Ladder.antt =====
-- How faults trip the breaker, and how failed probes lengthen its cooldown.
use quantstack_terminal.Common.{
  ℕ, ◌+◌, ◌*◌, ◌^◌, ◌≤◌, ◌<◌, min, ◌≡◌, ◌∙◌, ap, List, [], ◌∷◌, arith, Text, length, ltb,
  if◌then◌else◌,
}
use native.Mathlib.Decide.{dec_le}
use native.Mathlib.Nat.{mul_assoc, pow-succ', one-le-pow}
use quantstack_terminal.Feeds.Breaker.{
  BreakerState, closed, opened, Config, Entry, attempt, succeed, fail,
}

min_mul : (a m p : ℕ) → 0 < p → min (min a m * p) m ≡ min (a * p) m
min_mul a m p h = elim (dec_le a m) [
  | yes le ↦ let e : min a m ≡ a = omega arith in rw e
  | no gt ↦
      let e : min a m ≡ m = omega arith in
      let more : m ≤ m * p = grind arith in
      let big : m * p ≤ a * p = grind arith in rw e (omega arith)
]

-- Doubling under a cap, once more.
min_double : (c m p : ℕ) → 0 < p → min (min (c * 2) m * p) m ≡ min (c * (2 * p)) m
min_double c m p h = min_mul (c * 2) m p h ∙ ap (λ (t : ℕ). min t m) (mul_assoc c 2 p)

module _ (cfg : Config) where
  -- Faults recorded one after the other, each at its time and with its reason.
  pub fails : List (ℕ × Text) → Entry → Entry
  fails [] e = e
  fails ((now, reason) ∷ rest) e = fails rest (fail cfg now reason e)

  abbrev by_count : Entry → BreakerState
  by_count e = if ltb e.failures cfg.threshold then closed else opened

  fail-by_count :
      (now : ℕ) (reason : Text) (e : Entry)
      → e.state ≡ by_count e
      → ((fail cfg now reason e).state ≡ by_count (fail cfg now reason e))
        × ((fail cfg now reason e).failures ≡ e.failures + 1)
  unfolding fail
  fail-by_count now reason e h = ground arith

  fails-by_count :
      (rs : List (ℕ × Text)) (e : Entry)
      → e.state ≡ by_count e
      → ((fails rs e).state ≡ by_count (fails rs e))
        × ((fails rs e).failures ≡ e.failures + length rs)
  unfolding fails
  fails-by_count [] e h = (h, omega arith)
  fails-by_count ((now, reason) ∷ rest) e h =
      let (st, n) = fail-by_count now reason e h in
      let (st', n') = fails-by_count rest (fail cfg now reason e) st in (st', omega arith)

  succeed-by_count :
      (now : ℕ) (e : Entry)
      → 0 < cfg.threshold
      → ((succeed cfg now e).state ≡ by_count (succeed cfg now e))
        × ((succeed cfg now e).failures ≡ 0)
  unfolding succeed
  succeed-by_count now e h = ground arith

  -- After a success, whatever came before it, the breaker stays closed for as many consecutive
  -- faults as are below the threshold, and is open once that many have come; the threshold is
  -- positive.
  pub faults_trip :
      (now : ℕ) (e : Entry) (rs : List (ℕ × Text))
      → 0 < cfg.threshold
      → (fails rs (succeed cfg now e)).state
        ≡ (if ltb (length rs) cfg.threshold then closed else opened)
  faults_trip now e rs h =
      let (st, zero_faults) = succeed-by_count now e h in
      let (st', n) = fails-by_count rs (succeed cfg now e) st in
      let n' : (fails rs (succeed cfg now e)).failures ≡ length rs = omega arith in
      st' ∙ ap (λ (k : ℕ). if ltb k cfg.threshold then closed else opened) n'

  -- A failed probe: the attempt at the first time, the failure at the second.
  unfoldable pub failed_probe : ℕ × ℕ × Text → Entry → Entry
  failed_probe (asked_at, now, reason) e = fail cfg now reason (attempt asked_at e).0

  pub failed_probes : List (ℕ × ℕ × Text) → Entry → Entry
  failed_probes [] e = e
  failed_probes (p ∷ ps) e = failed_probes ps (failed_probe p e)

  -- Each attempt comes when the cooldown before it is over.
  abbrev pub Elapsed : List (ℕ × ℕ × Text) → Entry → Type 0
  Elapsed [] e = Unit
  Elapsed (p ∷ ps) e = (e.opened_at + e.cooldown ≤ p.0) × Elapsed ps (failed_probe p e)

  failed_probe-opened :
      (asked_at now : ℕ) (reason : Text) (e : Entry)
      → e.state ≡ opened
      → e.opened_at + e.cooldown ≤ asked_at
      → let e' = failed_probe (asked_at, now, reason) e in
        (e'.state ≡ opened)
        × (e'.cooldown ≡ min (e.cooldown * 2) cfg.cooldown_max)
        × (e'.trips ≡ e.trips + 1)
        × (e'.opened_at ≡ now)
        × (e'.failures ≡ e.failures)
  unfolding failed_probe fail attempt
  failed_probe-opened asked_at now reason e op over = ground arith

  -- An open breaker whose probes fail again and again, each made after its cooldown, stays open:
  -- each failure doubles the cooldown up to the maximum, and counts one trip.
  pub failed_probes_lem :
      (ps : List (ℕ × ℕ × Text)) (e : Entry)
      → e.state ≡ opened
      → e.cooldown ≤ cfg.cooldown_max
      → Elapsed ps e
      → let e' = failed_probes ps e in
        (e'.state ≡ opened)
        × (e'.cooldown ≡ min (e.cooldown * 2 ^ length ps) cfg.cooldown_max)
        × (e'.trips ≡ e.trips + length ps)
  unfolding failed_probes
  failed_probes_lem [] e op le h = (op, omega arith, omega arith)
  failed_probes_lem ((asked_at, now, reason) ∷ ps) e op le h =
      let (op', c, t, _, _) = failed_probe-opened asked_at now reason e op h.0 in
      let (op'', c', t') =
        failed_probes_lem ps (failed_probe (asked_at, now, reason) e) op' (omega arith) h.1 in
      (
        op'',
        c'
            ∙ rw (c, pow-succ')
                (min_double e.cooldown cfg.cooldown_max (2 ^ length ps)
                  (one-le-pow (length ps) 2 (omega arith))),
        omega arith,
      )
