-- ===== src/Instruments/Symbol/Months.antt =====
-- The months, by their units.
use quantstack_terminal.Common.{
  ℕ, zero, suc, ◌<◌, ◌≡◌, refl, true, false, [], ◌∷◌, some, arith, All, get_or, is_digit, is_space,
  ◌==◌, read, show, upper_unit,
}
use quantstack_terminal.Instruments.Symbol.{months, is_capital, month_name, pad_two, index_from}

pub digit_facts :
    (c : ℕ) → is_digit c ≡ true → ((c == b'-') ≡ false) × (is_space c ≡ false) × (upper_unit c ≡ c)
digit_facts c h = ground arith

pub capital_facts : (c : ℕ) → is_capital c ≡ true → (upper_unit c ≡ c)
capital_facts c h = ground arith

-- A month's name and number, as their units.
abbrev pub IsMonth : ℕ → ℕ → ℕ → ℕ → ℕ → ℕ → Type 0
IsMonth k l m n p q =
    (get_or months k [] ≡ l ∷ m ∷ n ∷ [])
    × (pad_two (suc k) ≡ p ∷ q ∷ [])
    × All (λ x. is_capital x ≡ true) (l ∷ m ∷ n ∷ [])
    × All (λ x. is_digit x ≡ true) (p ∷ q ∷ [])
    × (month_name (read (p ∷ q ∷ [])) ≡ some (l ∷ m ∷ n ∷ []))
    × (index_from 0 (l ∷ m ∷ n ∷ []) months ≡ some k)

abbrev pub Month : ℕ → Type 0
Month k = (l m n p q : ℕ) × IsMonth k l m n p q

pub months-Month : (k : ℕ) → k < 12 → Month k
unfolding read show index_from
months-Month zero h = (
  b'J',
  b'A',
  b'N',
  b'0',
  b'1',
  (refl, refl, (refl, (refl, (refl, tt))), (refl, (refl, tt)), refl, refl),
)
months-Month (suc zero) h = (
  b'F',
  b'E',
  b'B',
  b'0',
  b'2',
  (refl, refl, (refl, (refl, (refl, tt))), (refl, (refl, tt)), refl, refl),
)
months-Month (suc (suc zero)) h = (
  b'M',
  b'A',
  b'R',
  b'0',
  b'3',
  (refl, refl, (refl, (refl, (refl, tt))), (refl, (refl, tt)), refl, refl),
)
months-Month (suc (suc (suc zero))) h = (
  b'A',
  b'P',
  b'R',
  b'0',
  b'4',
  (refl, refl, (refl, (refl, (refl, tt))), (refl, (refl, tt)), refl, refl),
)
months-Month (suc (suc (suc (suc zero)))) h = (
  b'M',
  b'A',
  b'Y',
  b'0',
  b'5',
  (refl, refl, (refl, (refl, (refl, tt))), (refl, (refl, tt)), refl, refl),
)
months-Month (suc (suc (suc (suc (suc zero))))) h = (
  b'J',
  b'U',
  b'N',
  b'0',
  b'6',
  (refl, refl, (refl, (refl, (refl, tt))), (refl, (refl, tt)), refl, refl),
)
months-Month (suc (suc (suc (suc (suc (suc zero)))))) h = (
  b'J',
  b'U',
  b'L',
  b'0',
  b'7',
  (refl, refl, (refl, (refl, (refl, tt))), (refl, (refl, tt)), refl, refl),
)
months-Month (suc (suc (suc (suc (suc (suc (suc zero))))))) h = (
  b'A',
  b'U',
  b'G',
  b'0',
  b'8',
  (refl, refl, (refl, (refl, (refl, tt))), (refl, (refl, tt)), refl, refl),
)
months-Month (suc (suc (suc (suc (suc (suc (suc (suc zero)))))))) h = (
  b'S',
  b'E',
  b'P',
  b'0',
  b'9',
  (refl, refl, (refl, (refl, (refl, tt))), (refl, (refl, tt)), refl, refl),
)
months-Month (suc (suc (suc (suc (suc (suc (suc (suc (suc zero))))))))) h = (
  b'O',
  b'C',
  b'T',
  b'1',
  b'0',
  (refl, refl, (refl, (refl, (refl, tt))), (refl, (refl, tt)), refl, refl),
)
months-Month (suc (suc (suc (suc (suc (suc (suc (suc (suc (suc zero)))))))))) h = (
  b'N',
  b'O',
  b'V',
  b'1',
  b'1',
  (refl, refl, (refl, (refl, (refl, tt))), (refl, (refl, tt)), refl, refl),
)
months-Month (suc (suc (suc (suc (suc (suc (suc (suc (suc (suc (suc zero))))))))))) h = (
  b'D',
  b'E',
  b'C',
  b'1',
  b'2',
  (refl, refl, (refl, (refl, (refl, tt))), (refl, (refl, tt)), refl, refl),
)
months-Month (suc (suc (suc (suc (suc (suc (suc (suc (suc (suc (suc (suc k)))))))))))) h =
    absurd (omega arith)
