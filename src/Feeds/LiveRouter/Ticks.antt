-- ===== src/Feeds/LiveRouter/Ticks.antt =====
-- Who is given a tick.
use quantstack_terminal.Common.{
  ◌≢◌, ◌⊎◌, ◌++◌, sym, none, show, show-All, read, read-show, get-put_ne, All, get-put_self, ℕ, ◌+◌,
  ◌-◌, ◌≡◌, ◌∙◌, inl, inr, refl, ap, Bool, true, not, ◌&&◌, List, [], ◌∷◌, map, some, Text, text_eq,
  arith, ltb, ◌==◌, Bool-cases, any, filter, length, put, get, text_beq, Assoc,
}
use quantstack_terminal.Feeds.Identity.{InstrumentKey, key_of}
use quantstack_terminal.Feeds.LiveRouter.{Surroundings, Live, Subscription}
use quantstack_terminal.Feeds.LiveRouter.Steps.{
  dispatch, Tick, is_seen, dedupe_key, wants, forget_old,
}

some_inj : {a b : ℕ} → some a ≡ some b → a ≡ b
some_inj h = cc

cons_head_eq : {c d : ℕ} {s t : Text} → c ∷ s ≡ d ∷ t → c ≡ d
cons_head_eq e = cc

cons_tail_eq : {c d : ℕ} {s t : Text} → c ∷ s ≡ d ∷ t → s ≡ t
cons_tail_eq e = cc

called-filter :
    (p : Subscription → Bool) (h : ℕ) (subs : List Subscription)
    → any (λ x. x == h) (map (λ sub. sub.handle) (filter p subs))
      ≡ any (λ sub. (sub.handle == h) && p sub) subs
called-filter p h [] = refl
called-filter p h (sub ∷ subs) = elim (Bool-cases (p sub)) [
  | inl wanted ↦ rw wanted (ground (arith, called-filter p h subs))
  | inr other ↦ rw other (ground (arith, called-filter p h subs))
]

get-filter :
    (p : ℕ → Bool) (k : Text) (m : Assoc Text ℕ) (v : ℕ)
    → get k m ≡ some v
    → p v ≡ true
    → get k (filter (λ b. p b.1) m) ≡ some v
unfolding get
get-filter p k [] v h kept = cc
get-filter p k ((j, w) ∷ m) v h kept = elim (Bool-cases (text_beq j k)) [
  | inl same ↦
      let eq : w ≡ v = some_inj (rw same at h) in
      let kept' : p w ≡ true = ap p eq ∙ kept in rw (kept', same) (ap some eq)
  | inr other ↦
      let rest = get-filter p k m v (rw other at h) kept in
      elim (Bool-cases (p w)) [ inl stays ↦ rw (stays, other) rest | inr goes ↦ rw goes rest ]
]

forget_old-keeps :
    (s : Surroundings) (k : Text) (m : Assoc Text ℕ)
    → get k m ≡ some s.now
    → get k (forget_old s m) ≡ some s.now
unfolding forget_old
forget_old-keeps s k m h = elim (Bool-cases (ltb 4000 (length m))) [
  | inl many ↦
      rw many
        (get-filter (λ at. not (ltb (s.overlap_ms + 2000) (s.now - at))) k m s.now h (ground arith))
  | inr few ↦ rw few h
]

-- A tick that has been dispatched is dropped the next time, however much later that is.
pub dispatch-twice :
    (s s' : Surroundings) (t : Tick) (m : Live) → (dispatch s' t (dispatch s t m).0).1 ≡ []
unfolding dispatch
dispatch-twice s s' t m = elim (Bool-cases (is_seen (get (dedupe_key t) m.recent_ticks))) [
  | inl seen ↦ rw (seen, dispatch) (rw seen refl)
  | inr new ↦
      let again =
        forget_old-keeps s (dedupe_key t) (put (dedupe_key t) s.now m.recent_ticks)
          (get-put_self (dedupe_key t) s.now m.recent_ticks) in
      rw (new, dispatch) (rw again refl)
]

-- Whether the handle is that of a subscription which lists an instrument with the key's text.
abbrev pub lists : InstrumentKey → ℕ → Subscription → Bool
lists key h sub = (sub.handle == h) && any (λ k. text_beq (key_of k) (key_of key)) sub.keys

-- The text of a tick that the router remembers: its instrument's key and its time.
abbrev pub tick_text : Tick → Text
tick_text t = key_of t.key ++ b'@' ∷ show t.ts

dispatch-new :
    (s : Surroundings) (t : Tick) (m : Live) (h : ℕ)
    → get (tick_text t) m.recent_ticks ≡ none
    → any (λ x. x == h) (dispatch s t m).1 ≡ any (λ sub. lists t.key h sub) m.subs
unfolding dispatch
dispatch-new s t m h new = rw (dispatch, new) (called-filter (wants (key_of t.key)) h m.subs)

dispatch-subs : (s : Surroundings) (t : Tick) (m : Live) → (dispatch s t m).0.subs ≡ m.subs
unfolding dispatch
dispatch-subs s t m = elim (Bool-cases (is_seen (get (dedupe_key t) m.recent_ticks))) [
  | inl seen ↦ rw seen refl
  | inr new ↦ rw new refl
]

filter-none :
    (p : ℕ → Bool) (k : Text) (m : Assoc Text ℕ)
    → get k m ≡ none
    → get k (filter (λ b. p b.1) m) ≡ none
unfolding get
filter-none p k [] h = refl
filter-none p k ((j, w) ∷ m) h = elim (Bool-cases (text_beq j k)) [
  | inl same ↦ absurd (let bad = rw same at h in cc)
  | inr other ↦
      let rest = filter-none p k m (rw other at h) in
      elim (Bool-cases (p w)) [ inl stays ↦ rw (stays, other) rest | inr goes ↦ rw goes rest ]
]

forget_old-none :
    (s : Surroundings) (k : Text) (m : Assoc Text ℕ)
    → get k m ≡ none
    → get k (forget_old s m) ≡ none
unfolding forget_old
forget_old-none s k m h = elim (Bool-cases (ltb 4000 (length m))) [
  | inl many ↦ rw many (filter-none (λ at. not (ltb (s.overlap_ms + 2000) (s.now - at))) k m h)
  | inr few ↦ rw few h
]

-- A tick is the only one that its dispatch adds to the remembered ones.
dispatch-remembers :
    (s : Surroundings) (t : Tick) (m : Live) (k : Text)
    → k ≢ tick_text t
    → get k m.recent_ticks ≡ none
    → get k (dispatch s t m).0.recent_ticks ≡ none
unfolding dispatch
dispatch-remembers s t m k other new =
    elim (Bool-cases (is_seen (get (dedupe_key t) m.recent_ticks))) [
      | inl seen ↦ rw seen new
      | inr unseen ↦ rw unseen (
          forget_old-none s k (put (dedupe_key t) s.now m.recent_ticks)
            (get-put_ne (dedupe_key t) k s.now m.recent_ticks (λ e. other (sym e)) ∙ new))
    ]

no_sign_in : (a k b : Text) → All (λ c. c ≢ b'@') a → a ≢ k ++ b'@' ∷ b
no_sign_in [] [] b h e = cc
no_sign_in [] (c ∷ k) b h e = cc
no_sign_in (c ∷ a) [] b h e = h.0 (cons_head_eq e)
no_sign_in (c ∷ a) (d ∷ k) b h e = no_sign_in a k b h.1 (cons_tail_eq e)

-- Texts that are joined by a sign which the last ones do not hold are apart.
split_last :
    (k k' a b : Text)
    → All (λ c. c ≢ b'@') a
    → All (λ c. c ≢ b'@') b
    → k ++ b'@' ∷ a ≡ k' ++ b'@' ∷ b
    → (k ≡ k') × (a ≡ b)
split_last [] [] a b ha hb e = (refl, cons_tail_eq e)
split_last [] (c ∷ k') a b ha hb e = absurd (no_sign_in a k' b ha (cons_tail_eq e))
split_last (c ∷ k) [] a b ha hb e = absurd (no_sign_in b k a hb (sym (cons_tail_eq e)))
split_last (c ∷ k) (d ∷ k') a b ha hb e =
    let rest = split_last k k' a b ha hb (cons_tail_eq e) in
    let head_ = cons_head_eq e in (rw (head_, rest.0) refl, rest.1)

show-no_sign : (n : ℕ) → All (λ c. c ≢ b'@') (show n)
show-no_sign n = show-All (λ c. c ≢ b'@') n (λ d small e. absurd (omega arith))

tick_text-apart :
    (t t' : Tick) → (key_of t'.key ≢ key_of t.key) ⊎ (t'.ts ≢ t.ts) → tick_text t' ≢ tick_text t
tick_text-apart t t' differ e =
    let parts =
      split_last (key_of t'.key) (key_of t.key) (show t'.ts) (show t.ts) (show-no_sign t'.ts)
        (show-no_sign t.ts) e in
    elim differ [
      | inl keys ↦ keys parts.0
      | inr times ↦ times (sym (read-show t'.ts) ∙ ap read parts.1 ∙ read-show t.ts)
    ]

-- A tick that the router has not seen is given to a handle exactly if a subscription of that handle
-- lists an instrument with the text of the tick's. From then on the same tick is given to no one, while
-- a next tick of another instrument or of another time that had not been seen is given to a handle
-- exactly if a subscription of it lists that instrument.
pub dispatch-calls :
    (s s' : Surroundings) (t t' : Tick) (m : Live) (h : ℕ)
    → get (tick_text t) m.recent_ticks ≡ none
    → get (tick_text t') m.recent_ticks ≡ none
    → (key_of t'.key ≢ key_of t.key) ⊎ (t'.ts ≢ t.ts)
    → (any (λ x. x == h) (dispatch s t m).1 ≡ any (λ sub. lists t.key h sub) m.subs)
      × ((dispatch s' t (dispatch s t m).0).1 ≡ [])
      × (any (λ x. x == h) (dispatch s' t' (dispatch s t m).0).1
          ≡ any (λ sub. lists t'.key h sub) m.subs)
dispatch-calls s s' t t' m h new new' differ = (
  dispatch-new s t m h new,
  dispatch-twice s s' t m,
  dispatch-new s' t' (dispatch s t m).0 h
        (dispatch-remembers s t m (tick_text t') (tick_text-apart t t' differ) new')
      ∙ ap (any (λ sub. lists t'.key h sub)) (dispatch-subs s t m),
)
