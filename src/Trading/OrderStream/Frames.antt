-- ===== src/Trading/OrderStream/Frames.antt =====
-- What an order frame says, and what a refused handshake leads to.
use quantstack_terminal.Common.{
  ℕ, ◌+◌, ◌-◌, max, ◌≡◌, ◌≢◌, ◌⊎◌, ◌∙◌, ◌∷◌, refl, ap, Bool, true, false, Option, Bool-cases, inl,
  inr, none, some, arith, Text, text_eq, text_beq, text_beq_iff, beq_of_ne, get, upper,
}
use quantstack_terminal.Feeds.Identity.{is_empty}
use quantstack_terminal.Trading.Types.{OrderStatus, to_status, word}
use quantstack_terminal.Trading.OrderStream.Meanings.{
  codes_of, words_of, IsOneOf, code-known, code-ne-ack, code-unknown, to_status-word,
}
use quantstack_terminal.Trading.OrderStream.{
  OrderStream, Frame, Order, OrderData, str, status_of, status_codes, ack_code, or_other,
  quantity_of, normalize_order_frame, refused, retry_fired, connect, down, classify_status,
  schedule_reconnect, auth,
}
use quantstack_terminal.Trading.OrderStream.Alive.{Reached, Reached-IsAlive, lone_socket}
use quantstack_terminal.Common.{any, [], if◌then◌else◌}

-- The state that the text of a frame stands for.
abbrev pub by_text : Frame → OrderStatus
by_text f = to_status (or_other f.order_data.orderstatus f.order_data.status)

-- The word of the status text.
abbrev pub text_word : Frame → Text
text_word f = word (or_other f.order_data.orderstatus f.order_data.status)

pub record IsOrderOf (to_number : Option Text → ℕ) (f : Frame) (o : Order) : Type 0 where
  pub named : (str f.order_data.orderid ≢ []) × (o.id ≡ str f.order_data.orderid)
  -- A known code decides the state, the acknowledgement's and an unknown one leave it to the text.
  pub by_code :
      (st : OrderStatus) → IsOneOf (codes_of st) (upper (str f.order_status)) → o.status ≡ st
  pub by_word :
      ((st : OrderStatus)
        → any (λ c. text_beq c (upper (str f.order_status))) (codes_of st) ≡ false)
      → (o.status ≡ by_text f)
        × ((st : OrderStatus) → IsOneOf (words_of st) (text_word f) → o.status ≡ st)
  pub filled : o.filled ≡ to_number f.order_data.filledshares
  pub whole : to_number f.order_data.quantity ≢ 0 → o.quantity ≡ to_number f.order_data.quantity
  pub parts :
      to_number f.order_data.quantity ≡ 0
      → o.quantity ≡ to_number f.order_data.filledshares + to_number f.order_data.unfilledshares
  pub counts : o.filled + o.pending ≡ max o.filled o.quantity

nil_of_empty : (t : Text) → is_empty t ≡ true → t ≡ []
nil_of_empty [] h = refl
nil_of_empty (c ∷ t) h = absurd (cc)

status_of_code :
    (f : Frame) (st : OrderStatus)
    → upper (str f.order_status) ≢ ack_code
    → get (upper (str f.order_status)) status_codes ≡ some st
    → status_of f ≡ st
unfolding status_of
status_of_code f st other known =
    let no_ack : text_beq (upper (str f.order_status)) ack_code ≡ false =
      beq_of_ne (upper (str f.order_status)) ack_code other in
    rw (status_of, no_ack, known) refl

status_of_word :
    (f : Frame)
    → (upper (str f.order_status) ≡ ack_code)
      ⊎ (get (upper (str f.order_status)) status_codes ≡ none)
    → status_of f ≡ by_text f
unfolding status_of
status_of_word f (inl ack) =
    let is_ack = (text_beq_iff (upper (str f.order_status)) ack_code).1 ack in
    rw (status_of, is_ack) refl
status_of_word f (inr strange) =
    elim (Bool-cases (text_beq (upper (str f.order_status)) ack_code)) [
      | inl ack ↦ rw (status_of, ack) refl
      | inr other ↦ rw (status_of, other, strange) refl
    ]

quantity_of_parts :
    (to_number : Option Text → ℕ) (d : OrderData)
    → to_number d.quantity ≡ 0
    → quantity_of to_number d ≡ to_number d.filledshares + to_number d.unfilledshares
unfolding quantity_of
quantity_of_parts to_number d e = rw e refl

quantity_of_whole :
    (to_number : Option Text → ℕ) (d : OrderData)
    → to_number d.quantity ≢ 0
    → quantity_of to_number d ≡ to_number d.quantity
unfolding quantity_of
quantity_of_whole to_number d h = ground arith

-- A state that the code does not decide is that of the text.
by_words :
    (f : Frame)
    → ((st : OrderStatus)
        → any (λ c. text_beq c (upper (str f.order_status))) (codes_of st) ≡ false)
    → (status_of f ≡ by_text f)
      × ((st : OrderStatus) → IsOneOf (words_of st) (text_word f) → status_of f ≡ st)
by_words f none_ =
    let text = status_of_word f (inr (code-unknown (upper (str f.order_status)) none_)) in
    (
      text,
      λ st here.
          text ∙ to_status-word st (or_other f.order_data.orderstatus f.order_data.status) here,
    )

order_of :
    (to_number : Option Text → ℕ) (f : Frame) (o : Order)
    → is_empty (str f.order_data.orderid) ≡ false
    → o.id ≡ str f.order_data.orderid
    → o.status ≡ status_of f
    → o.filled ≡ to_number f.order_data.filledshares
    → o.quantity ≡ quantity_of to_number f.order_data
    → o.pending ≡ quantity_of to_number f.order_data - to_number f.order_data.filledshares
    → IsOrderOf to_number f o
order_of to_number f o named id status filled quantity pending = record {
  named = ((λ blank. let bad = ap is_empty blank in absurd (cc)), id);
  by_code = λ st here.
      let code = upper (str f.order_status) in
      status ∙ status_of_code f st (code-ne-ack st code here) (code-known st code here);
  by_word = λ none_.
      let words = by_words f none_ in (status ∙ words.0, λ st here. status ∙ words.1 st here);
  filled = filled;
  whole = λ h. quantity ∙ quantity_of_whole to_number f.order_data h;
  parts = λ e. quantity ∙ quantity_of_parts to_number f.order_data e;
  counts = rw (filled, quantity, pending) (omega arith);
}

abbrev pub IsReadingOf : (Option Text → ℕ) → Option Frame → Option Order → Type 0
IsReadingOf to_number frame none =
    (frame ≡ none) ⊎ ((f : Frame) × (frame ≡ some f) × (str f.order_data.orderid ≡ []))
IsReadingOf to_number frame (some o) = (f : Frame) × (frame ≡ some f) × IsOrderOf to_number f o

-- A frame that is no JSON, or names no order, gives no order; any other gives one, under its id. One
-- of Angel's eleven codes decides its state; under any other code, the acknowledgement's among them, the
-- state is what the status text says, which for the brokers' words is the state that they stand for. The
-- quantity is the frame's, or the filled and the unfilled shares where the frame's is 0. The filled and
-- the pending shares make up the larger of the filled shares and the quantity.
pub normalize-IsOrderOf :
    (to_number : Option Text → ℕ) (frame : Option Frame)
    → IsReadingOf to_number frame (normalize_order_frame to_number frame)
unfolding normalize_order_frame
normalize-IsOrderOf to_number none = inl refl
normalize-IsOrderOf to_number (some f) = elim (Bool-cases (is_empty (str f.order_data.orderid))) [
  | inl blank ↦ rw blank (inr (f, refl, nil_of_empty (str f.order_data.orderid) blank))
  | inr named ↦ rw named (f, refl, order_of to_number f _ named refl refl refl refl refl)
]

classify-token :
    (http : ℕ)
    → (http ≡ 401) ⊎ (http ≡ 403)
    → classify_status http ≡ record { reason = auth; retry = true }
unfolding classify_status
classify-token http (inl e) = rw e refl
classify-token http (inr e) = rw e refl

-- The state after the first refusal of a token.
abbrev waiting : OrderStream → OrderStream
waiting s = record s {
  ws = none;
  ping_timer = false;
  last_reauth_at = 0;
  retry_timer = some 1_000;
  retries = 1;
}

refused-token :
    (http : ℕ) (s : OrderStream)
    → s.closed ≡ false
    → s.retry_timer ≡ none
    → s.retries ≡ 0
    → classify_status http ≡ record { reason = auth; retry = true }
    → refused http s ≡ waiting s
unfolding refused down schedule_reconnect
refused-token http s active free fresh token = rw (refused, token, active, free, fresh) refl

-- What the retry leaves of a stream whose last socket is `s`'s: no login has been asked for.
pub record Retried (signed_in : Bool) (s s' : OrderStream) : Type 0 where
  pub no_login : s'.in_flight ≡ 0
  pub connects : s'.ws ≡ (if signed_in then some s.sockets else none)
  pub counts : s'.sockets ≡ (if signed_in then s.sockets + 1 else s.sockets)
  pub again : s'.retry_timer ≡ (if signed_in then none else some 2_000)
  pub unasked : s'.last_reauth_at ≡ 0

retried :
    (now : ℕ) (signed_in : Bool) (s : OrderStream)
    → s.closed ≡ false
    → s.in_flight ≡ 0
    → s.retries ≡ 1
    → s.ws ≡ none
    → s.last_reauth_at ≡ 0
    → Retried signed_in s (retry_fired now signed_in s)
unfolding retry_fired connect schedule_reconnect
retried now true s active none_ one gone never =
    rw (retry_fired, active, one)
      (record { no_login = none_; connects = refl; counts = refl; again = refl; unasked = never })
retried now false s active none_ one gone never =
    rw (retry_fired, active, one)
      (record { no_login = none_; connects = gone; counts = refl; again = refl; unasked = never })

-- The first refusal of a socket for its token is not answered by a login: the retry comes after one
-- second and asks for none. If there is a session, it opens one new socket with it as it is; if there
-- is none, it opens none and waits two seconds more.
pub refused-waits :
    (s : OrderStream) (n now http : ℕ) (signed_in : Bool)
    → Reached s
    → s.ws ≡ some n
    → s.retries ≡ 0
    → (http ≡ 401) ⊎ (http ≡ 403)
    → ((refused http s).retry_timer ≡ some 1_000)
      × Retried signed_in s (retry_fired now signed_in (refused http s))
refused-waits s n now http signed_in r here fresh rejected =
    let lone = lone_socket s n (Reached-IsAlive s r) here in
    let after = refused-token http s lone.0 lone.1 fresh (classify-token http rejected) in
    let done = retried now signed_in (waiting s) lone.0 lone.2 refl refl refl in
    rw after (
      refl,
      record {
        no_login = done.no_login;
        connects = done.connects;
        counts = done.counts;
        again = done.again;
        unasked = done.unasked;
      },
    )
