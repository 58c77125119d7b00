-- ===== src/Common/Strings.antt =====
-- The operations of JavaScript's `String` that the program uses, on lists of code units.
use Prim.Native.Nat.{ℕ, zero, suc, ◌+◌, ◌-◌, ◌*◌, ◌/◌, ◌%◌, ◌≤◌, ◌<◌}
use mathlib.Core.Path.{◌≡◌, refl, ap, ◌∙◌}
use mathlib.Core.Logic.{◌≢◌, inl, inr}
use mathlib.Core.Bool.{Bool, true, false, ◌&&◌, ◌||◌}
use mathlib.Core.List.{List, [], ◌∷◌, ◌++◌, reverse}
use native.Mathlib.Omega.{arith}
use quantstack_terminal.Common.Tests.{◌==◌, leb, ltb, if◌then◌else◌, Bool-cases}
use quantstack_terminal.Common.Lists.{all, All}
use quantstack_terminal.Common.Keys.{Text, lower}
use mathlib.Core.List.{reverse-append}
use mathlib.Core.List.{reverse_aux-eq}
use mathlib.Core.List.{reverse-reverse}

-- The white space of `trim`.
abbrev pub is_space : ℕ → Bool
is_space c =
    (leb 9 c && leb c 13)
    || c == 32
    || c == 160
    || c == 5760
    || (leb 8192 c && leb c 8202)
    || c == 8232
    || c == 8233
    || c == 8239
    || c == 8287
    || c == 12288
    || c == 65279

unfoldable pub trim_start : Text → Text
trim_start [] = []
trim_start (c ∷ s) = let rest = trim_start s in if is_space c then rest else c ∷ s

unfoldable pub trim : Text → Text
unfolding trim_start
trim s = reverse (trim_start (reverse (trim_start s)))

abbrev pub starts_with : Text → Text → Bool
starts_with [] s = true
starts_with (p ∷ ps) [] = false
starts_with (p ∷ ps) (c ∷ s) = p == c && starts_with ps s

unfoldable pub contains : Text → Text → Bool
contains p [] = starts_with p []
contains p (c ∷ s) = starts_with p (c ∷ s) || contains p s

-- A regular expression that is one literal with the flag `i`.
unfoldable pub contains_ci : Text → Text → Bool
unfolding contains lower
contains_ci p s = contains (lower p) (lower s)

abbrev pub is_digit : ℕ → Bool
is_digit c = leb b'0' c && leb c b'9'

abbrev pub all_digits : Text → Bool
all_digits s = all is_digit s

-- `s.split(sep)` for a separator of one unit: never the empty list.
abbrev pub cons_head : ℕ → List Text → List Text
cons_head c [] = (c ∷ []) ∷ []
cons_head c (w ∷ ws) = (c ∷ w) ∷ ws

unfoldable pub split_on : ℕ → Text → List Text
split_on sep [] = [] ∷ []
split_on sep (c ∷ s) = let rest = split_on sep s in if c == sep then [] ∷ rest else cons_head c rest

-- `parts.join(sep)`.
unfoldable pub join : Text → List Text → Text
join sep [] = []
join sep (w ∷ []) = w
join sep (w ∷ v ∷ ws) = w ++ (sep ++ join sep (v ∷ ws))

abbrev pub Without : ℕ → Text → Type 0
Without sep s = All (λ c. (c == sep) ≡ false) s

split_on-Without : (sep : ℕ) (s : Text) → Without sep s → split_on sep s ≡ s ∷ []
unfolding split_on
split_on-Without sep [] h = refl
split_on-Without sep (c ∷ s) h = rw (h.0, split_on-Without sep s h.1)

split_on-append :
    (sep : ℕ) (s t : Text) → Without sep s → split_on sep (s ++ sep ∷ t) ≡ s ∷ split_on sep t
unfolding split_on
split_on-append sep [] t h = ground arith
split_on-append sep (c ∷ s) t h = rw (h.0, split_on-append sep s t h.1)

-- Parts that do not hold the separator are split where they were joined.
pub split_on-join :
    (sep : ℕ) (w : Text) (ws : List Text)
    → All (Without sep) (w ∷ ws)
    → split_on sep (join (sep ∷ []) (w ∷ ws)) ≡ w ∷ ws
unfolding join
split_on-join sep w [] h = split_on-Without sep w h.0
split_on-join sep w (v ∷ ws) h =
    split_on-append sep w (join (sep ∷ []) (v ∷ ws)) h.0
    ∙ ap (λ r. w ∷ r) (split_on-join sep v ws h.1)

-- A number in decimal, most significant digit first, with fuel above the number.
show_from : ℕ → ℕ → Text → Text
show_from zero n acc = acc
show_from (suc f) n acc =
    let rest = show_from f (n / 10) ((48 + n % 10) ∷ acc) in
    if ltb n 10 then (48 + n) ∷ acc else rest

unfoldable pub show : ℕ → Text
unfolding show_from
show n = show_from (suc n) n []

unfoldable pub read_from : ℕ → Text → ℕ
read_from n [] = n
read_from n (c ∷ s) = read_from (n * 10 + (c - 48)) s

-- `Number(s)` of a text of digits; of the empty text it is 0.
unfoldable pub read : Text → ℕ
unfolding read_from
read s = read_from 0 s

read_from-show_from :
    (f n : ℕ) (acc : Text) → n < f → read_from 0 (show_from f n acc) ≡ read_from n acc
unfolding read_from show_from
read_from-show_from zero n acc h = elim h [ ]
read_from-show_from (suc f) n acc h = elim (Bool-cases (ltb n 10)) [
  | inl small ↦ rw small (ap (λ (k : ℕ). read_from k acc) (omega arith))
  | inr big ↦ rw big (
      read_from-show_from f (n / 10) ((48 + n % 10) ∷ acc) (ground arith)
      ∙ ap (λ (k : ℕ). read_from k acc) (omega arith))
]

pub read-show : (n : ℕ) → read (show n) ≡ n
unfolding read show
read-show n = read_from-show_from (suc n) n [] (omega arith)

show_from-All :
    (P : ℕ → Type 0) (f n : ℕ) (acc : Text)
    → ((d : ℕ) → d < 10 → P (48 + d))
    → All P acc
    → All P (show_from f n acc)
unfolding show_from
show_from-All P zero n acc p h = h
show_from-All P (suc f) n acc p h = elim (Bool-cases (ltb n 10)) [
  | inl small ↦ rw small (p n (ground arith), h)
  | inr big ↦
      rw big (show_from-All P f (n / 10) ((48 + n % 10) ∷ acc) p (p (n % 10) (omega arith), h))
]

-- What holds of the ten digits holds of every unit of a printed number.
pub show-All : (P : ℕ → Type 0) (n : ℕ) → ((d : ℕ) → d < 10 → P (48 + d)) → All P (show n)
unfolding show
show-All P n p = show_from-All P (suc n) n [] p tt

show_from-ne-nil : (f n c : ℕ) (acc : Text) → show_from f n (c ∷ acc) ≢ []
unfolding show_from
show_from-ne-nil zero n c acc = cc
show_from-ne-nil (suc f) n c acc = elim (Bool-cases (ltb n 10)) [
  | inl small ↦ rw small (cc)
  | inr big ↦ rw big (show_from-ne-nil f (n / 10) (48 + n % 10) (c ∷ acc))
]

pub show-ne-nil : (n : ℕ) → show n ≢ []
unfolding show show_from
show-ne-nil n = elim (Bool-cases (ltb n 10)) [
  | inl small ↦ rw small (cc)
  | inr big ↦ rw big (show_from-ne-nil n (n / 10) (48 + n % 10) [])
]

-- Three digits print as three digits.
pub show-three :
    (n : ℕ)
    → 100 ≤ n
    → n < 1000
    → show n ≡ (48 + n / 10 / 10) ∷ (48 + n / 10 % 10) ∷ (48 + n % 10) ∷ []
unfolding show show_from
show-three (suc (suc n)) lo hi = elim (Bool-cases (ltb (suc (suc n)) 10)) [
  | inl small ↦ absurd (ground arith)
  | inr big ↦ elim (Bool-cases (ltb (suc (suc n) / 10) 10)) [
    | inl small ↦ absurd (ground arith)
    | inr big' ↦ elim (Bool-cases (ltb (suc (suc n) / 10 / 10) 10)) [
      | inl small ↦ rw (big, big', small)
      | inr big'' ↦ absurd (ground arith)
    ]
  ]
]
show-three zero lo hi = absurd (omega arith)
show-three (suc zero) lo hi = absurd (omega arith)

-- A text that neither begins nor ends with white space is not changed.
pub trim_lem :
    (c d : ℕ) (s : Text)
    → is_space c ≡ false
    → is_space d ≡ false
    → trim (c ∷ (s ++ d ∷ [])) ≡ c ∷ (s ++ d ∷ [])
unfolding trim trim_start
trim_lem c d s hc hd = rw hc (
    rw (reverse-append (c ∷ s) (d ∷ [])) (
      rw hd (
        reverse_aux-eq (reverse (c ∷ s)) (d ∷ [])
        ∙ ap (λ t. t ++ d ∷ []) (reverse-reverse (c ∷ s)))))
