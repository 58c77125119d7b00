-- ===== src/Trading/OrderStream/Meanings.antt =====
-- What an order frame's code and its status text stand for, state by state.
use quantstack_terminal.Common.{
  ◌≡◌, ◌≢◌, refl, Bool-cases, Option-cases, true, false, List, [], ◌∷◌, none, some, inl, inr,
  Option, some_inj, Text, text_eq, text_beq, text_beq_iff, codes, any, All, Assoc, get,
}
use quantstack_terminal.Trading.Types.{
  OrderStatus, pending, open_, partial_, complete, cancelled, rejected, trigger_pending, unknown,
  to_status, word, status_map,
}
use quantstack_terminal.Trading.OrderStream.{status_codes, ack_code}

-- Angel's codes of each state.
abbrev pub codes_of : OrderStatus → List Text
codes_of complete = codes "AB05" ∷ []
codes_of rejected = codes "AB03" ∷ []
codes_of cancelled = codes "AB02" ∷ codes "AB07" ∷ []
codes_of trigger_pending = codes "AB10" ∷ []
codes_of open_ =
    codes "AB01" ∷ codes "AB04" ∷ codes "AB06" ∷ codes "AB08" ∷ codes "AB09" ∷ codes "AB11" ∷ []
codes_of pending = []
codes_of partial_ = []
codes_of unknown = []

-- The brokers' words for each state.
abbrev pub words_of : OrderStatus → List Text
words_of complete = codes "complete" ∷ codes "completed" ∷ codes "filled" ∷ codes "executed" ∷ []
words_of rejected = codes "rejected" ∷ []
words_of cancelled = codes "cancelled" ∷ codes "canceled" ∷ []
words_of trigger_pending = codes "trigger pending" ∷ codes "trigger_pending" ∷ []
words_of open_ =
    codes "open" ∷ codes "modified" ∷ codes "new" ∷ codes "ordered" ∷ codes "replaced" ∷ []
words_of pending =
    codes "pending"
    ∷ codes "open pending"
    ∷ codes "put order req received"
    ∷ codes "validation pending"
    ∷ codes "modify pending"
    ∷ codes "cancel pending"
    ∷ []
words_of partial_ = codes "partially filled" ∷ codes "partial" ∷ []
words_of unknown = []

abbrev pub IsOneOf : List Text → Text → Type 0
IsOneOf xs c = any (λ x. text_beq x c) xs ≡ true

listed-get :
    (table : Assoc Text OrderStatus) (st : OrderStatus) (xs : List Text) (c : Text)
    → All (λ x. get x table ≡ some st) xs
    → IsOneOf xs c
    → get c table ≡ some st
listed-get table st [] c h here = absurd (cc)
listed-get table st (x ∷ xs) c h here = elim (Bool-cases (text_beq x c)) [
  | inl same ↦ rw (← (text_beq_iff x c).0 same) h.0
  | inr other ↦ listed-get table st xs c h.1 (rw other at here)
]

get-listed :
    (means : OrderStatus → List Text) (table : Assoc Text OrderStatus) (c : Text) (st : OrderStatus)
    → All (λ row. IsOneOf (means row.1) row.0) table
    → get c table ≡ some st
    → IsOneOf (means st) c
unfolding get
get-listed means [] c st h found = absurd (cc)
get-listed means ((k, v) ∷ table) c st h found = elim (Bool-cases (text_beq k c)) [
  | inl same ↦
      let eq : v ≡ st = some_inj (rw same at found) in rw (← eq, ← (text_beq_iff k c).0 same) h.0
  | inr other ↦ get-listed means table c st h.1 (rw other at found)
]

codes-get : (st : OrderStatus) → All (λ c. get c status_codes ≡ some st) (codes_of st)
unfolding get
codes-get complete = (refl, tt)
codes-get rejected = (refl, tt)
codes-get cancelled = (refl, (refl, tt))
codes-get trigger_pending = (refl, tt)
codes-get open_ = (refl, (refl, (refl, (refl, (refl, (refl, tt))))))
codes-get pending = tt
codes-get partial_ = tt
codes-get unknown = tt

words-get : (st : OrderStatus) → All (λ c. get c status_map ≡ some st) (words_of st)
unfolding get
words-get complete = (refl, (refl, (refl, (refl, tt))))
words-get rejected = (refl, tt)
words-get cancelled = (refl, (refl, tt))
words-get trigger_pending = (refl, (refl, tt))
words-get open_ = (refl, (refl, (refl, (refl, (refl, tt)))))
words-get pending = (refl, (refl, (refl, (refl, (refl, (refl, tt))))))
words-get partial_ = (refl, (refl, tt))
words-get unknown = tt

codes-listed : All (λ row. IsOneOf (codes_of row.1) row.0) status_codes
codes-listed =
    (refl, (refl, (refl, (refl, (refl, (refl, (refl, (refl, (refl, (refl, (refl, tt)))))))))))

pub code-known :
    (st : OrderStatus) (c : Text) → IsOneOf (codes_of st) c → get c status_codes ≡ some st
code-known st c here = listed-get status_codes st (codes_of st) c (codes-get st) here

ack-unknown : get ack_code status_codes ≡ none
unfolding get
ack-unknown = refl

pub code-ne-ack : (st : OrderStatus) (c : Text) → IsOneOf (codes_of st) c → c ≢ ack_code
code-ne-ack st c here e =
    let found = code-known st c here in
    let missing : get c status_codes ≡ none = rw e ack-unknown in cc

pub code-unknown :
    (c : Text)
    → ((st : OrderStatus) → any (λ x. text_beq x c) (codes_of st) ≡ false)
    → get c status_codes ≡ none
code-unknown c none_ = elim (Option-cases (get c status_codes)) [
  | inl missing ↦ missing
  | inr (st, found) ↦
      absurd (cc (get-listed codes_of status_codes c st codes-listed found, none_ st))
]

pub to_status-word :
    (st : OrderStatus) (v : Option Text) → IsOneOf (words_of st) (word v) → to_status v ≡ st
unfolding to_status
to_status-word st v here =
    rw (to_status, listed-get status_map st (words_of st) (word v) (words-get st) here) refl
