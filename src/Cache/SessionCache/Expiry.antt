-- ===== src/Cache/SessionCache/Expiry.antt =====
-- The moment at which a session of the day ends.
use quantstack_terminal.Common.{ℕ, ◌+◌, ◌*◌, ◌%◌, ◌≤◌, ◌<◌, ◌≡◌, ◌↔◌, arith}
use quantstack_terminal.Cache.SessionCache.{next_six_am_ist, ist_offset, day_ms}

-- A six o'clock of India that comes within a day after `now`.
pub record IsNextSix (now six : ℕ) : Type 0 where
  pub later : now < six
  pub within_day : six ≤ now + day_ms
  pub at_six : (six + ist_offset) % day_ms ≡ 6 * 3600000

next_six_am_ist-later : (now : ℕ) → now < next_six_am_ist now
unfolding next_six_am_ist
next_six_am_ist-later now = ground arith

next_six_am_ist-within : (now : ℕ) → next_six_am_ist now ≤ now + day_ms
unfolding next_six_am_ist
next_six_am_ist-within now = ground arith

next_six_am_ist-at_six : (now : ℕ) → (next_six_am_ist now + ist_offset) % day_ms ≡ 6 * 3600000
unfolding next_six_am_ist
next_six_am_ist-at_six now = ground arith

next_six_am_ist-IsNextSix : (now : ℕ) → IsNextSix now (next_six_am_ist now)
next_six_am_ist-IsNextSix now = record {
  later = next_six_am_ist-later now;
  within_day = next_six_am_ist-within now;
  at_six = next_six_am_ist-at_six now;
}

-- Two of them within a day are the same.
IsNextSix-unique : (now s t : ℕ) → IsNextSix now s → IsNextSix now t → s ≡ t
IsNextSix-unique now s t a b =
    let p = a.later in
    let q = a.within_day in
    let r = a.at_six in
    let p' = b.later in let q' = b.within_day in let r' = b.at_six in omega arith

-- The expiry that a session of Zerodha gets is the one moment after now and at most a day later at
-- which it is six o'clock in India.
pub next_six_am_ist_iff : (now t : ℕ) → (t ≡ next_six_am_ist now) ↔ IsNextSix now t
next_six_am_ist_iff now t = (
  λ e. rw e (next_six_am_ist-IsNextSix now),
  λ h. IsNextSix-unique now t (next_six_am_ist now) h (next_six_am_ist-IsNextSix now),
)
