-- ===== src/Instruments/Symbol/Spelling.antt =====
-- The spellings of one expiry.
use quantstack_terminal.Common.{
  ℕ, suc, ◌<◌, ◌≡◌, refl, true, [], ◌∷◌, ◌++◌, Option, some, Text, All, get_or, is_digit, upper,
  trim_lem, read,
}
use quantstack_terminal.Instruments.Symbol.{
  months, day_month_year, iso_date, month_name, expiry_key_of, expiry_key, expiry_key_to_iso,
  iso_of_key, pad_two, iso_key,
}
use quantstack_terminal.Instruments.Symbol.Months.{digit_facts, capital_facts, months-Month}

-- The spelling that every other one comes to.
abbrev pub key_text : ℕ → ℕ → ℕ → ℕ → ℕ → Text
key_text y z k d e = d ∷ e ∷ (get_or months k [] ++ y ∷ z ∷ [])

abbrev pub iso_text : ℕ → ℕ → ℕ → ℕ → ℕ → Text
iso_text y z k d e = b'2' ∷ b'0' ∷ y ∷ z ∷ b'-' ∷ (pad_two (suc k) ++ b'-' ∷ d ∷ e ∷ [])

abbrev pub compact_text : ℕ → ℕ → ℕ → ℕ → ℕ → Text
compact_text y z k d e = b'2' ∷ b'0' ∷ y ∷ z ∷ (pad_two (suc k) ++ d ∷ e ∷ [])

abbrev pub long_text : ℕ → ℕ → ℕ → ℕ → ℕ → Text
long_text y z k d e = d ∷ e ∷ (get_or months k [] ++ b'2' ∷ b'0' ∷ y ∷ z ∷ [])

keyed :
    (year month day name : Text)
    → month_name (read month) ≡ some name
    → iso_key year month day ≡ some (day ++ (name ++ year))
keyed year month day name h = rw (h, iso_key) refl

module _ (day_of : Text → Option Text) (y z d e : ℕ)
    (digits : All (λ x. is_digit x ≡ true) (y ∷ z ∷ d ∷ e ∷ [])) where
  iso_lem : (k : ℕ) → k < 12 → expiry_key day_of (some (iso_text y z k d e)) ≡ key_text y z k d e
  unfolding expiry_key expiry_key_of day_month_year iso_date upper
  iso_lem k h =
      let (l, m, n, p, q, (named, numbered, (cl, (cm, (cn, _))), (dp, (dq, _)), looked_up, found)) =
        months-Month k h in
      let (dy, (dz, (dd, (de, _)))) = digits in
      rw
        (
          named,
          numbered,
          trim_lem b'2' e (b'0' ∷ y ∷ z ∷ b'-' ∷ p ∷ q ∷ b'-' ∷ d ∷ []) refl (digit_facts e de).1,
          (digit_facts y dy).2,
          (digit_facts z dz).2,
          (digit_facts p dp).2,
          (digit_facts q dq).2,
          (digit_facts d dd).2,
          (digit_facts e de).2,
          dy,
          dz,
          dp,
          dq,
          dd,
          de,
          keyed (y ∷ z ∷ []) (p ∷ q ∷ []) (d ∷ e ∷ []) (l ∷ m ∷ n ∷ []) looked_up,
        )
        refl

  compact_lem :
      (k : ℕ) → k < 12 → expiry_key day_of (some (compact_text y z k d e)) ≡ key_text y z k d e
  unfolding expiry_key expiry_key_of day_month_year iso_date upper
  compact_lem k h =
      let (l, m, n, p, q, (named, numbered, (cl, (cm, (cn, _))), (dp, (dq, _)), looked_up, found)) =
        months-Month k h in
      let (dy, (dz, (dd, (de, _)))) = digits in
      rw
        (
          named,
          numbered,
          trim_lem b'2' e (b'0' ∷ y ∷ z ∷ p ∷ q ∷ d ∷ []) refl (digit_facts e de).1,
          (digit_facts y dy).2,
          (digit_facts z dz).2,
          (digit_facts p dp).2,
          (digit_facts q dq).2,
          (digit_facts d dd).2,
          (digit_facts e de).2,
          dy,
          dz,
          dp,
          dq,
          dd,
          de,
          keyed (y ∷ z ∷ []) (p ∷ q ∷ []) (d ∷ e ∷ []) (l ∷ m ∷ n ∷ []) looked_up,
        )
        refl

  long_lem : (k : ℕ) → k < 12 → expiry_key day_of (some (long_text y z k d e)) ≡ key_text y z k d e
  unfolding expiry_key expiry_key_of day_month_year upper
  long_lem k h =
      let (l, m, n, p, q, (named, numbered, (cl, (cm, (cn, _))), (dp, (dq, _)), looked_up, found)) =
        months-Month k h in
      let (dy, (dz, (dd, (de, _)))) = digits in
      rw
        (
          named,
          trim_lem d z (e ∷ l ∷ m ∷ n ∷ b'2' ∷ b'0' ∷ y ∷ []) (digit_facts d dd).1
              (digit_facts z dz).1,
          (digit_facts y dy).2,
          (digit_facts z dz).2,
          (digit_facts d dd).2,
          (digit_facts e de).2,
          (capital_facts l cl),
          (capital_facts m cm),
          (capital_facts n cn),
          dy,
          dz,
          dd,
          de,
          cl,
          cm,
          cn,
        )
        refl

  short_lem : (k : ℕ) → k < 12 → expiry_key day_of (some (key_text y z k d e)) ≡ key_text y z k d e
  unfolding expiry_key expiry_key_of day_month_year upper
  short_lem k h =
      let (l, m, n, p, q, (named, numbered, (cl, (cm, (cn, _))), (dp, (dq, _)), looked_up, found)) =
        months-Month k h in
      let (dy, (dz, (dd, (de, _)))) = digits in
      rw
        (
          named,
          trim_lem d z (e ∷ l ∷ m ∷ n ∷ y ∷ []) (digit_facts d dd).1 (digit_facts z dz).1,
          (digit_facts y dy).2,
          (digit_facts z dz).2,
          (digit_facts d dd).2,
          (digit_facts e de).2,
          (capital_facts l cl),
          (capital_facts m cm),
          (capital_facts n cn),
          dy,
          dz,
          dd,
          de,
          cl,
          cm,
          cn,
        )
        refl

  back_lem :
      (parse_date : Text → Option Text) (k : ℕ)
      → k < 12
      → expiry_key_to_iso parse_date (key_text y z k d e) ≡ some (iso_text y z k d e)
  unfolding expiry_key_to_iso iso_of_key upper
  back_lem parse_date k h =
      let (l, m, n, p, q, (named, numbered, (cl, (cm, (cn, _))), (dp, (dq, _)), looked_up, found)) =
        months-Month k h in
      let (dy, (dz, (dd, (de, _)))) = digits in
      rw
        (
          named,
          trim_lem d z (e ∷ l ∷ m ∷ n ∷ y ∷ []) (digit_facts d dd).1 (digit_facts z dz).1,
          (digit_facts y dy).2,
          (digit_facts z dz).2,
          (digit_facts d dd).2,
          (digit_facts e de).2,
          (capital_facts l cl),
          (capital_facts m cm),
          (capital_facts n cn),
          dy,
          dz,
          dd,
          de,
          cl,
          cm,
          cn,
          found,
          numbered,
        )
        refl

  -- The dashed, the compact, the long and the short spelling of a day of this century have one key,
  -- the short spelling itself, and the key is read back as the dashed spelling.
  pub expiry_key-agree :
      (parse_date : Text → Option Text) (k : ℕ)
      → k < 12
      → (expiry_key day_of (some (iso_text y z k d e)) ≡ key_text y z k d e)
        × (expiry_key day_of (some (compact_text y z k d e)) ≡ key_text y z k d e)
        × (expiry_key day_of (some (long_text y z k d e)) ≡ key_text y z k d e)
        × (expiry_key day_of (some (key_text y z k d e)) ≡ key_text y z k d e)
        × (expiry_key_to_iso parse_date (key_text y z k d e) ≡ some (iso_text y z k d e))
  expiry_key-agree parse_date k h =
      (iso_lem k h, compact_lem k h, long_lem k h, short_lem k h, back_lem parse_date k h)
