-- ===== src/Feeds/Angel/Packet/Reads.antt =====
-- Reads of a packet within its bytes.
use quantstack_terminal.Common.{
  ℕ, zero, suc, ◌+◌, ◌*◌, ◌≤◌, ◌<◌, ◌≡◌, refl, List, [], ◌∷◌, some, length, get_elem?, arith, ℤ,
  signed,
}
use quantstack_terminal.Feeds.Angel.Packet.{read_le, read_int16_le, read_bigint64_le}

pub get_elem?_within {ℓ} :
    {A : Type ℓ} (xs : List A) (i : ℕ) → i < length xs → (a : A) × (get_elem? xs i ≡ some a)
get_elem?_within [] i h = absurd (omega arith)
get_elem?_within (x ∷ xs) zero h = (x, refl)
get_elem?_within (x ∷ xs) (suc i) h = get_elem?_within xs i (omega arith)

pub read_le_within :
    (n : ℕ) (buf : List ℕ) (at : ℕ) → at + n ≤ length buf → (w : ℕ) × (read_le n buf at ≡ some w)
unfolding read_le
read_le_within zero buf at h = (0, refl)
read_le_within (suc n) buf at h =
    let low = get_elem?_within buf at (omega arith) in
    let high = read_le_within n buf (at + 1) (omega arith) in
    (low.0 + 256 * high.0, rw (low.1, high.1))

pub read_int16_le_within :
    (buf : List ℕ) (at : ℕ) → at + 2 ≤ length buf → (z : ℤ) × (read_int16_le buf at ≡ some z)
unfolding read_int16_le
read_int16_le_within buf at h = let w = read_le_within 2 buf at h in (signed 16 w.0, rw w.1)

pub read_bigint64_le_within :
    (buf : List ℕ) (at : ℕ) → at + 8 ≤ length buf → (z : ℤ) × (read_bigint64_le buf at ≡ some z)
unfolding read_bigint64_le
read_bigint64_le_within buf at h = let w = read_le_within 8 buf at h in (signed 64 w.0, rw w.1)
