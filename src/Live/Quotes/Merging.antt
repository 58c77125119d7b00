-- ===== src/Live/Quotes/Merging.antt =====
-- A quote is the merge of the ticks of its own symbol since the last flush.
use quantstack_terminal.Common.{
  ℕ, ◌≡◌, ◌≢◌, refl, sym, ◌∙◌, ap, Bool-cases, false, List, [], ◌∷◌, Option, none, some, inl, inr,
  Text, text_eq, text_beq, text_beq_iff, if◌then◌else◌, filter, get, get-put, by_if,
}
use quantstack_terminal.Feeds.Identity.{is_empty}
use quantstack_terminal.Instruments.Symbol.{symbol_of}
use quantstack_terminal.Live.Quotes.{Quote, Tick, Connection, merged, on_tick, or_else}

module _ (F : Type 0) (parse_date : Text → Option Text) where
  unfoldable pub on_ticks : List (Tick F) → Connection F → Connection F
  on_ticks [] c = c
  on_ticks (t ∷ ts) c = on_ticks ts (on_tick F parse_date t c)

  -- The ticks of a symbol.
  abbrev pub of_symbol : Text → List (Tick F) → List (Tick F)
  of_symbol symbol ts = filter (λ t. text_beq (symbol_of parse_date t.key) symbol) ts

  abbrev pub merge_all : Text → List (Tick F) → Option (Quote F) → Option (Quote F)
  merge_all symbol [] o = o
  merge_all symbol (t ∷ ts) o = merge_all symbol ts (some (merged F symbol t o))

  on_tick-get :
      (symbol : Text) (t : Tick F) (c : Connection F)
      → is_empty symbol ≡ false
      → get symbol (on_tick F parse_date t c).pending ≡ (
          if text_beq (symbol_of parse_date t.key) symbol
          then some (merged F symbol t (get symbol c.pending))
          else get symbol c.pending)
  unfolding on_tick
  on_tick-get symbol t c named =
      let own = symbol_of parse_date t.key in
      by_if
        (λ (c' : Connection F). get symbol c'.pending ≡ (
          if text_beq own symbol
          then some (merged F symbol t (get symbol c.pending))
          else get symbol c.pending))
        (is_empty own)
        (λ blank. elim (Bool-cases (text_beq own symbol)) [
          | inl same ↦ let bad = ap is_empty ((text_beq_iff own symbol).0 same) in absurd (cc)
          | inr other ↦ rw other refl
        ])
        (λ _.
          let law = get-put own symbol (merged F own t (get own c.pending)) c.pending in
          elim (Bool-cases (text_beq own symbol)) [
            | inl same ↦ rw same (
                rw same at law
                ∙ ap (λ k. some (merged F k t (get k c.pending)))
                    ((text_beq_iff own symbol).0 same))
            | inr other ↦ rw other (rw other at law)
          ])

  on_ticks-get :
      (symbol : Text) (ts : List (Tick F)) (c : Connection F)
      → is_empty symbol ≡ false
      → get symbol (on_ticks ts c).pending
        ≡ merge_all symbol (of_symbol symbol ts) (get symbol c.pending)
  unfolding on_ticks
  on_ticks-get symbol [] c named = refl
  on_ticks-get symbol (t ∷ ts) c named =
      let rest = on_ticks-get symbol ts (on_tick F parse_date t c) named in
      let one = on_tick-get symbol t c named in
      elim (Bool-cases (text_beq (symbol_of parse_date t.key) symbol)) [
        | inl same ↦ rw same (rest ∙ ap (merge_all symbol (of_symbol symbol ts)) (rw same at one))
        | inr other ↦
            rw other (rest ∙ ap (merge_all symbol (of_symbol symbol ts)) (rw other at one))
      ]

  -- The newer of two values, where there is one.
  abbrev pub newest : Option F → Option F → Option F
  newest (some a) o = some a
  newest none o = o

  or_else-newest : (a o : Option F) → or_else F a o ≡ newest a o
  or_else-newest none o = refl
  or_else-newest (some a) o = refl

  -- The last value of a field that some ticks have.
  abbrev pub last_known : (Tick F → Option F) → List (Tick F) → Option F → Option F
  last_known field [] o = o
  last_known field (t ∷ ts) o = last_known field ts (newest (field t) o)

  -- The time of the last tick.
  abbrev pub last_time : List (Tick F) → ℕ → ℕ
  last_time [] at = at
  last_time (t ∷ ts) at = last_time ts t.ts

  -- A quote of a symbol after the ticks of it, with the fields and the time of an earlier quote.
  pub record IsLatest (symbol : Text) (ts : List (Tick F)) (ltp bid ask iv : Option F) (at : ℕ)
      (q : Quote F) : Type 0 where
    pub symbol_ : q.symbol ≡ symbol
    pub ltp_ : q.ltp ≡ last_known (λ t. t.ltp) ts ltp
    pub bid_ : q.bid ≡ last_known (λ t. t.bid) ts bid
    pub ask_ : q.ask ≡ last_known (λ t. t.ask) ts ask
    pub iv_ : q.iv ≡ last_known (λ t. t.iv) ts iv
    pub time : q.ts ≡ last_time ts at

  merge_all-IsLatest :
      (symbol : Text) (ts : List (Tick F)) (q : Quote F)
      → q.symbol ≡ symbol
      → (q' : Quote F) × (merge_all symbol ts (some q) ≡ some q')
        × IsLatest symbol ts q.ltp q.bid q.ask q.iv q.ts q'
  merge_all-IsLatest symbol [] q e = (
    q,
    refl,
    record { symbol_ = e; ltp_ = refl; bid_ = refl; ask_ = refl; iv_ = refl; time = refl },
  )
  merge_all-IsLatest symbol (t ∷ ts) q e =
      let rest = merge_all-IsLatest symbol ts (merged F symbol t (some q)) refl in
      (
        rest.0,
        rest.1,
        record {
          symbol_ = rest.2.symbol_;
          ltp_ = rest.2.ltp_ ∙ ap (last_known (λ t. t.ltp) ts) (or_else-newest t.ltp q.ltp);
          bid_ = rest.2.bid_ ∙ ap (last_known (λ t. t.bid) ts) (or_else-newest t.bid q.bid);
          ask_ = rest.2.ask_ ∙ ap (last_known (λ t. t.ask) ts) (or_else-newest t.ask q.ask);
          iv_ = rest.2.iv_ ∙ ap (last_known (λ t. t.iv) ts) (or_else-newest t.iv q.iv);
          time = rest.2.time;
        },
      )

  newest-none : (o : Option F) → newest o none ≡ o
  newest-none none = refl
  newest-none (some a) = refl

  -- The pending quote of a symbol, where nothing was pending before the ticks.
  abbrev pub IsQuoteOf : Text → List (Tick F) → Option (Quote F) → Type 0
  IsQuoteOf symbol ts none = of_symbol symbol ts ≡ []
  IsQuoteOf symbol ts (some q) =
      (of_symbol symbol ts ≢ []) × IsLatest symbol (of_symbol symbol ts) none none none none 0 q

  merge_all-IsQuoteOf :
      (symbol : Text) (ts rel : List (Tick F))
      → of_symbol symbol ts ≡ rel
      → IsQuoteOf symbol ts (merge_all symbol rel none)
  merge_all-IsQuoteOf symbol ts [] e = e
  merge_all-IsQuoteOf symbol ts (t ∷ rel) e =
      let all_ = merge_all-IsLatest symbol rel (merged F symbol t none) refl in
      rw (all_.1) (
        (λ bad. absurd (cc)),
        rw e (record {
          symbol_ = all_.2.symbol_;
          ltp_ = all_.2.ltp_ ∙ ap (last_known (λ t. t.ltp) rel) (sym (newest-none t.ltp));
          bid_ = all_.2.bid_ ∙ ap (last_known (λ t. t.bid) rel) (sym (newest-none t.bid));
          ask_ = all_.2.ask_ ∙ ap (last_known (λ t. t.ask) rel) (sym (newest-none t.ask));
          iv_ = all_.2.iv_ ∙ ap (last_known (λ t. t.iv) rel) (sym (newest-none t.iv));
          time = all_.2.time;
        }),
      )

  -- Where nothing is pending, some ticks leave for every symbol that is not empty one quote if there
  -- was a tick of it, and else none. Each price of it is the last one that a tick of the symbol had, and
  -- absent if none had it, and its time is that of the last tick of the symbol; ticks of other symbols
  -- leave it alone.
  pub on_ticks-IsQuoteOf :
      (symbol : Text) (ts : List (Tick F)) (c : Connection F)
      → is_empty symbol ≡ false
      → c.pending ≡ []
      → IsQuoteOf symbol ts (get symbol (on_ticks ts c).pending)
  unfolding get
  on_ticks-IsQuoteOf symbol ts c named nothing =
      let clear : get symbol c.pending ≡ none = rw nothing refl in
      rw (on_ticks-get symbol ts c named, clear) (merge_all-IsQuoteOf symbol ts _ refl)
