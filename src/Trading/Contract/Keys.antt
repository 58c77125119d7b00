-- ===== src/Trading/Contract/Keys.antt =====
-- The keys that contracts carry.
use mathlib.Core.Path.{subst}
use quantstack_terminal.Common.{
  ℕ, ◌≡◌, ◌∙◌, ◌⊎◌, inl, inr, refl, sym, ap, Bool, true, false, not, ◌&&◌, ◌||◌, [], ◌∷◌, Option,
  none, some, Text, text_eq, if◌then◌else◌, Bool-cases, trim, upper,
}
use quantstack_terminal.Feeds.Identity.{InstrumentKey, or_undefined, is_empty}
use quantstack_terminal.Instruments.Symbol.{
  ContractType, eq_type, fut_type, ce_type, pe_type, contract_type_of, symbol_of, symbol_from,
  canonical_symbol, expiry_key, CanonicalParts,
}
use quantstack_terminal.Trading.Contract.{
  ReportRow, Contract, kind_of, side_of, is_equity, rebuilt, rebuild, unresolved, root_of, type_of,
  exchange_for_key,
}

type-round : (t : ContractType) → contract_type_of (kind_of t) (side_of t) ≡ t
type-round eq_type = refl
type-round fut_type = refl
type-round ce_type = refl
type-round pe_type = refl

some_inj : {a b : InstrumentKey} → some a ≡ some b → a ≡ b
some_inj h = cc

expiry-undefined :
    (day_of : Text → Option Text) (e : Text)
    → expiry_key day_of (or_undefined e) ≡ expiry_key day_of (some e)
unfolding expiry_key
expiry-undefined day_of [] = refl
expiry-undefined day_of (c ∷ s) = refl

symbol_from-expiry :
    (day_of : Text → Option Text) (root : Text) (p q : CanonicalParts) (t : ContractType)
    → expiry_key day_of p.expiry ≡ expiry_key day_of q.expiry
    → p.strike ≡ q.strike
    → symbol_from day_of root p t ≡ symbol_from day_of root q t
symbol_from-expiry day_of root p q eq_type e s = refl
symbol_from-expiry day_of root p q fut_type e s = cc
symbol_from-expiry day_of root p q ce_type e s = cc
symbol_from-expiry day_of root p q pe_type e s = cc

abbrev parts_of : Text → ContractType → Option Text → Option ℕ → CanonicalParts
parts_of root type expiry strike = record {
  name = root;
  type = type;
  expiry = expiry;
  strike = strike;
}

canonical-undefined :
    (day_of : Text → Option Text) (root e : Text) (type : ContractType) (strike : Option ℕ)
    → canonical_symbol day_of (parts_of root type (or_undefined e) strike)
      ≡ canonical_symbol day_of (parts_of root type (some e) strike)
unfolding canonical_symbol
canonical-undefined day_of root e type strike =
    let name = trim (upper root) in
    elim (Bool-cases (is_empty name)) [
      | inl empty ↦ rw empty refl
      | inr named ↦ rw named (
          symbol_from-expiry day_of name (parts_of root type (or_undefined e) strike)
            (parts_of root type (some e) strike) type (expiry-undefined day_of e) refl)
    ]

symbol-round :
    (day_of : Text → Option Text) (exchange root e : Text) (type : ContractType) (strike : Option ℕ)
    → symbol_of day_of (record {
      exchange = exchange;
      asset = root;
      kind = kind_of type;
      expiry = or_undefined e;
      strike = strike;
      side = side_of type;
    })
      ≡ canonical_symbol day_of (parts_of root type (some e) strike)
unfolding symbol_of
symbol-round day_of exchange root e type strike =
    ap (λ t. canonical_symbol day_of (parts_of root t (or_undefined e) strike)) (type-round type)
    ∙ canonical-undefined day_of root e type strike

-- A key that a contract carries is fit for a lookup.
pub record IsUsable (day_of : Text → Option Text) (type : ContractType) (c : Contract)
    (k : InstrumentKey) : Type 0 where
  pub symbol : is_empty c.symbol ≡ false
  pub exchange : is_empty c.exchange ≡ false
  pub expiry : (is_equity type ≡ true) ⊎ (is_empty c.expiry ≡ false)
  pub canonical : symbol_of day_of k ≡ c.symbol

offered :
    (b : Bool) (k k' : InstrumentKey)
    → (if b then some k else none) ≡ some k'
    → (b ≡ true) × (k' ≡ k)
offered true k k' h = (refl, (cc))
offered false k k' h = absurd (cc)

complete :
    (a b c d : Bool)
    → (not a && not b && (c || not d)) ≡ true
    → (a ≡ false) × (b ≡ false) × ((c ≡ true) ⊎ (d ≡ false))
complete true b c d h = absurd (cc)
complete false true c d h = absurd (cc)
complete false false true d h = (refl, refl, inl refl)
complete false false false true h = absurd (cc)
complete false false false false h = (refl, refl, inr refl)

module _ (day_of parse_date : Text → Option Text) where
  rebuilt-IsUsable :
      (row : ReportRow) (type : ContractType) (root : Text) (k : InstrumentKey)
      → (rebuilt day_of parse_date row type root).key ≡ some k
      → IsUsable day_of type (rebuilt day_of parse_date row type root) k
  unfolding rebuilt
  rebuilt-IsUsable row type root k h =
      let c = rebuilt day_of parse_date row type root in
      let (ok, same) =
        offered
          (not (is_empty c.symbol)
            && not (is_empty c.exchange)
            && (is_equity type || not (is_empty c.expiry)))
          (record {
            exchange = exchange_for_key c.exchange;
            asset = root;
            kind = kind_of type;
            expiry = or_undefined c.expiry;
            strike = c.strike;
            side = side_of type;
          })
          k h in
      let (symbol, exchange, expiry) =
        complete (is_empty c.symbol) (is_empty c.exchange) (is_equity type) (is_empty c.expiry)
          ok in
      record {
        symbol = symbol;
        exchange = exchange;
        expiry = expiry;
        canonical =
            ap (symbol_of day_of) same
            ∙ symbol-round day_of (exchange_for_key c.exchange) root c.expiry type c.strike;
      }

  rebuild-rooted :
      (row : ReportRow)
      → is_empty (root_of day_of parse_date row) ≡ false
      → rebuild day_of parse_date row
        ≡ rebuilt day_of parse_date row (type_of row) (root_of day_of parse_date row)
  unfolding rebuild
  rebuild-rooted row rooted = rw rooted refl

  -- A key that is rebuilt from a row is offered only with a symbol, an exchange and, but for a share, an
  -- expiry, and the canonical symbol of the key is the contract's symbol.
  pub rebuild-IsUsable :
      (row : ReportRow) (k : InstrumentKey)
      → (rebuild day_of parse_date row).key ≡ some k
      → IsUsable day_of (type_of row) (rebuild day_of parse_date row) k
  unfolding rebuild unresolved
  rebuild-IsUsable row k h = elim (Bool-cases (is_empty (root_of day_of parse_date row))) [
    | inl no_root ↦ absurd (let bad = rw no_root at h in cc)
    | inr rooted ↦
        let root = root_of day_of parse_date row in
        let eq = rebuild-rooted row rooted in
        subst (λ x. IsUsable day_of (type_of row) x k) (sym eq)
          (rebuilt-IsUsable row (type_of row) root k (ap (λ (x : Contract). x.key) (sym eq) ∙ h))
  ]
