-- ===== src/Assistant/Series.antt =====
-- backend/assistant/monitor/series.ts: the samples of one metric, in a ring ordered by time.
--
-- Times are whole milliseconds, values the `Value` of an interface with the operations that the code
-- uses. In `floor_index` the upper end of the search is held plus one, so that its -1 is 0; `none`
-- stands for -1, and an outer `none` for a search that runs out of fuel.
pub mod Order
pub mod Search
mod Tests
use quantstack_terminal.Common.{
  ℕ, zero, suc, ◌+◌, ◌-◌, ◌*◌, ◌/◌, ◌%◌, Bool, true, false, not, ◌&&◌, List, [], ◌∷◌, ◌++◌, map,
  Option, none, some, Text, text_eq, codes, ltb, leb, ◌==◌, if◌then◌else◌, get_or, replicate,
  filter, show, starts_with, Assoc, get, put,
}
use quantstack_terminal.Common.{set as write}

pub record Values : Type 1 where
  pub Value : Type 0
  pub zero_ : Value
  pub is_finite : Value → Bool
  -- `a + (b - a) * (t / d)`
  pub between : Value → Value → ℕ → ℕ → Value
  -- `to - from`, and the percentage of it in `from`, which is 0 where `from` is
  pub minus : Value → Value → Value
  pub percent : Value → Value → Value

pub record Series (V : Type 0) : Type 0 where
  pub ts : List ℕ
  pub val : List V
  pub cap : ℕ
  pub head : ℕ
  pub len : ℕ

pub record Delta (V : Type 0) : Type 0 where
  pub from : V
  pub to : V
  pub abs : V
  pub pct : V

pub record Sample (V : Type 0) : Type 0 where
  pub ts : ℕ
  pub v : V

module _ (vs : Values) where
  open vs use {Value, zero_, is_finite, between, minus, percent}

  unfoldable pub new : ℕ → Series Value
  new capacity = record {
    ts = replicate capacity 0;
    val = replicate capacity zero_;
    cap = capacity;
    head = 0;
    len = 0;
  }

  abbrev pub index_of : Series Value → ℕ → ℕ
  index_of s i = ((if s.len == s.cap then s.head else 0) + i) % s.cap

  abbrev pub stamp : Series Value → ℕ → ℕ
  stamp s i = get_or s.ts (index_of s i) 0

  abbrev pub value : Series Value → ℕ → Value
  value s i = get_or s.val (index_of s i) zero_

  unfoldable pub oldest : Series Value → ℕ
  oldest s = if s.len == 0 then 0 else stamp s 0

  unfoldable pub newest : Series Value → ℕ
  newest s = if s.len == 0 then 0 else stamp s (s.len - 1)

  unfoldable pub latest : Series Value → Option Value
  latest s = if s.len == 0 then none else some (value s (s.len - 1))

  -- The four assignments of `push`.
  unfoldable pub append : ℕ → Value → Series Value → Series Value
  append t v s = record {
    ts = write s.ts s.head t;
    val = write s.val s.head v;
    cap = s.cap;
    head = (s.head + 1) % s.cap;
    len = if ltb s.len s.cap then s.len + 1 else s.len;
  }

  unfoldable pub push : ℕ → Value → Series Value → Series Value
  push t v s =
      if not (is_finite v)
      then s
      else if not (s.len == 0) && leb t (newest s)
      then s
      else append t v s

  -- The loop of `floorIndex` between `lo` and `hi`, the latter excluded.
  unfoldable pub search : ℕ → Series Value → ℕ → ℕ → ℕ → Option ℕ → Option (Option ℕ)
  search zero s t lo hi hit = none
  search (suc fuel) s t lo hi hit = elim (ltb lo hi) [
    | false ↦ some hit
    | true ↦
        let mid = (lo + hi - 1) / 2 in
        elim (leb (stamp s mid) t) [
          | true ↦ search fuel s t (mid + 1) hi (some mid)
          | false ↦ search fuel s t lo mid hit
        ]
  ]

  unfoldable pub floor_index : ℕ → Series Value → Option (Option ℕ)
  floor_index t s = search (s.len + 1) s t 0 s.len none

  -- The value between sample `i` and the next one.
  unfoldable pub interpolated : ℕ → Series Value → ℕ → Value
  interpolated t s i =
      let ta = stamp s i in
      let tb = stamp s (i + 1) in
      if tb == ta then value s (i + 1) else between (value s i) (value s (i + 1)) (t - ta) (tb - ta)

  unfoldable pub at_time : ℕ → Series Value → Option Value
  at_time t s =
      if s.len == 0
      then none
      else if leb (newest s) t
      then latest s
      else if ltb t (oldest s)
      then none
      else elim (floor_index t s) [
        | some (some i) ↦ if i == s.len - 1 then some (value s i) else some (interpolated t s i)
        | _ ↦ none
      ]

  -- A window that starts before the epoch is older than every sample.
  unfoldable pub delta : ℕ → ℕ → Series Value → Option (Delta Value)
  delta window_ms now s = elim (latest s) [
    | none ↦ none
    | some to ↦ elim (if ltb now window_ms then none else at_time (now - window_ms) s) [
      | none ↦ none
      | some from ↦
          some (record { from = from; to = to; abs = minus to from; pct = percent to from })
    ]
  ]

  -- The loop of `window`, over `n` samples from `i` on.
  unfoldable pub samples_from : ℕ → ℕ → ℕ → Series Value → List (Sample Value)
  samples_from zero i cutoff s = []
  samples_from (suc n) i cutoff s =
      let rest = samples_from n (i + 1) cutoff s in
      if ltb (stamp s i) cutoff then rest else record { ts = stamp s i; v = value s i } ∷ rest

  unfoldable pub window : ℕ → ℕ → Series Value → List (Sample Value)
  window window_ms now s = samples_from s.len 0 (now - window_ms) s

  abbrev pub or_dash : Option Text → Text
  or_dash none = codes "-"
  or_dash (some s) = s

  unfoldable pub key : Text → Option ℕ → Option Text → Text → Text
  key chain_key strike side metric =
      chain_key
      ++ codes "|"
      ++ or_dash (elim strike [ none ↦ none | some n ↦ some (show n) ])
      ++ codes "|"
      ++ or_dash side
      ++ codes "|"
      ++ metric

  unfoldable pub ensure : ℕ → Text → Assoc Text (Series Value) → Series Value
  ensure capacity k store = elim (get k store) [ none ↦ new capacity | some s ↦ s ]

  unfoldable pub push_to :
      ℕ → Text → ℕ → Value → Assoc Text (Series Value) → Assoc Text (Series Value)
  push_to capacity k t v store = put k (push t v (ensure capacity k store)) store

  unfoldable pub drop_chain : Text → Assoc Text (Series Value) → Assoc Text (Series Value)
  drop_chain chain_key store = filter (λ b. not (starts_with (chain_key ++ codes "|") b.0)) store
