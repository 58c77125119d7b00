-- ===== src/Cache/SessionCache.antt =====
-- backend/lib/sessionCache.ts: the sessions of the brokers that are kept on disk.
--
-- The directory is a map from the files' names to what `JSON.parse` makes of their texts; a session is
-- an object, and a text whose `data` is missing or falsy has none. `writable` is whether a write
-- succeeds; one that fails leaves the directory as it was. A file that is there can be removed. The
-- clock is an argument; log lines are left out.
pub mod Expiry
pub mod Kept
mod Tests
use quantstack_terminal.Common.{
  ℕ, ◌+◌, ◌-◌, ◌*◌, ◌/◌, Bool, ◌||◌, ◌&&◌, ◌++◌, map, Option, none, some, Text, text_eq, codes, ltb,
  leb, ◌==◌, is_digit, if◌then◌else◌, Assoc, get, put, remove,
}

pub record Envelope (T : Type 0) : Type 0 where
  pub saved_at : ℕ
  pub expires_at : Option ℕ
  pub content : Option T

pub data File (T : Type 0) : Type 0 where
  corrupt : File T
  parsed : Envelope T → File T

abbrev pub Directory : Type 0 → Type 0
Directory T = Assoc Text (File T)

-- `[a-z0-9#_-]` with the flag `i`.
abbrev pub is_plain : ℕ → Bool
is_plain c =
    (leb b'a' c && leb c b'z')
    || (leb b'A' c && leb c b'Z')
    || is_digit c
    || c == b'#'
    || c == b'_'
    || c == b'-'

abbrev pub plain : ℕ → ℕ
plain c = if is_plain c then c else b'_'

unfoldable pub file_for : Text → Text
file_for id = map plain id ++ codes ".json"

module _ {T : Type 0} where
  unfoldable pub save_session : Bool → ℕ → Text → T → ℕ → Directory T → Directory T
  save_session writable now id data_ expires_at disk =
      if writable
      then put (file_for id)
          (parsed record { saved_at = now; expires_at = some expires_at; content = some data_ })
          disk
      else disk

  unfoldable pub clear_session : Text → Directory T → Directory T
  clear_session id disk = remove (file_for id) disk

  abbrev pub from_envelope : ℕ → Text → Option T → Option ℕ → Directory T → Directory T × Option T
  from_envelope now id (some data_) (some expires_at) disk =
      if leb expires_at now then (clear_session id disk, none) else (disk, some data_)
  from_envelope now id _ _ disk = (disk, none)

  abbrev pub from_file : ℕ → Text → Option (File T) → Directory T → Directory T × Option T
  from_file now id none disk = (disk, none)
  from_file now id (some corrupt) disk = (clear_session id disk, none)
  from_file now id (some (parsed envelope)) disk =
      from_envelope now id envelope.content envelope.expires_at disk

  unfoldable pub load_session : ℕ → Text → Directory T → Directory T × Option T
  load_session now id disk = from_file now id (get (file_for id) disk) disk

abbrev pub ist_offset : ℕ
ist_offset = 19800000

abbrev pub day_ms : ℕ
day_ms = 86400000

-- `Date.UTC` of the day of India at `now`, at six o'clock, as epoch milliseconds.
abbrev pub six_of_day : ℕ → ℕ
six_of_day now = (now + ist_offset) / day_ms * day_ms + 6 * 3600000 - ist_offset

unfoldable pub next_six_am_ist : ℕ → ℕ
next_six_am_ist now = let six = six_of_day now in if ltb now six then six else six + day_ms
