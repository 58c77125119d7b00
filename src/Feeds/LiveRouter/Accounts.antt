-- ===== src/Feeds/LiveRouter/Accounts.antt =====
-- The account of the broker sockets of the live router.
use quantstack_terminal.Common.{
  ℕ, ◌+◌, ◌<◌, ◌≡◌, ◌≢◌, ◌∙◌, inl, inr, refl, ap, Bool, true, false, List, [], ◌∷◌, ◌++◌, Option,
  none, some, Text, text_eq, arith, All, ◌==◌, Bool-cases, any,
}
use quantstack_terminal.Feeds.LiveRouter.{Active, Live, sockets_of, without}

abbrev pub has : ℕ → List ℕ → Bool
has x xs = any (λ y. y == x) xs

-- Of the sockets that serve and close, the open ones, and the next one's number.
pub record Accounted (active : Option Active) (closing open_sockets : List ℕ) (next : ℕ)
    : Type 0 where
  pub accounted : All (λ x. has x (sockets_of active ++ closing) ≡ true) open_sockets
  pub serving : All (λ x. has x open_sockets ≡ true) (sockets_of active)
  pub fresh : All (λ x. x < next) (sockets_of active ++ closing)
  pub apart : All (λ x. has x closing ≡ false) (sockets_of active)

abbrev pub IsAccounted : Live → Type 0
IsAccounted m = Accounted m.active m.closing m.open_sockets m.next_socket

module _ {P Q : ℕ → Type 0} where
  All-imp : (xs : List ℕ) → ((x : ℕ) → P x → Q x) → All P xs → All Q xs
  All-imp [] f h = tt
  All-imp (x ∷ xs) f h = (f x h.0, All-imp xs f h.1)

  All-without :
      (s : ℕ) (xs : List ℕ) → ((x : ℕ) → x ≢ s → P x → Q x) → All P xs → All Q (without s xs)
  All-without s [] f h = tt
  All-without s (x ∷ xs) f h = elim (Bool-cases (x == s)) [
    | inl same ↦ rw same (All-without s xs f h.1)
    | inr other ↦ rw other (f x (ground arith) h.0, All-without s xs f h.1)
  ]

pub has-without : (x s : ℕ) (xs : List ℕ) → x ≢ s → has x (without s xs) ≡ has x xs
has-without x s [] d = refl
has-without x s (y ∷ ys) d = ground (arith, has-without x s ys d)

pub has-without_absent : (x s : ℕ) (xs : List ℕ) → has x xs ≡ false → has x (without s xs) ≡ false
has-without_absent x s [] h = refl
has-without_absent x s (y ∷ ys) h = ground (arith, has-without_absent x s ys)

pub has-fresh : (n : ℕ) (xs : List ℕ) → All (λ x. x < n) xs → has n xs ≡ false
has-fresh n [] h = refl
has-fresh n (x ∷ xs) h = ground (arith, has-fresh n xs h.1)

pub ne_of_has : (x y : ℕ) (xs : List ℕ) → has x xs ≡ false → has y xs ≡ true → x ≢ y
ne_of_has x y xs h k same = cc (ap (λ z. has z xs) same)

pub has-cons_ne : (x s : ℕ) (xs : List ℕ) → x ≢ s → has x (s ∷ xs) ≡ true → has x xs ≡ true
has-cons_ne x s xs d h = ground arith

pub has-cons : (x s : ℕ) (xs : List ℕ) → has x xs ≡ true → has x (s ∷ xs) ≡ true
has-cons x s xs h = ground arith

pub has_self : (x : ℕ) (xs : List ℕ) → has x (x ∷ xs) ≡ true
has_self x xs = ground arith

pub closed_Accounted :
    (a : Active) (closing open_sockets : List ℕ) (next : ℕ)
    → Accounted (some a) closing open_sockets next
    → Accounted none closing (without a.socket open_sockets) next
closed_Accounted a closing open_sockets next h = record {
  accounted =
      All-without a.socket open_sockets (λ x d k. has-cons_ne x a.socket closing d k) h.accounted;
  serving = tt;
  fresh = h.fresh.1;
  apart = tt;
}

pub opened_Accounted :
    (active : Option Active) (feed broker : Text) (closing open_sockets : List ℕ) (next : ℕ)
    → Accounted active closing open_sockets next
    → Accounted
        (some (record { feed = feed; broker = broker; socket = next }))
        (sockets_of active ++ closing)
        (next ∷ open_sockets)
        (next + 1)
opened_Accounted active feed broker closing open_sockets next h =
    let owners = sockets_of active ++ closing in
    record {
      accounted = (
        has_self next owners,
        All-imp open_sockets (λ x k. has-cons x next owners k) h.accounted,
      );
      serving = (has_self next open_sockets, tt);
      fresh = (omega arith, All-imp owners (λ x k. omega arith) h.fresh);
      apart = (has-fresh next owners h.fresh, tt);
    }

pub timer_Accounted :
    (socket : ℕ) (active : Option Active) (closing open_sockets : List ℕ) (next : ℕ)
    → has socket closing ≡ true
    → Accounted active closing open_sockets next
    → Accounted active (without socket closing) (without socket open_sockets) next
timer_Accounted socket none closing open_sockets next here h = record {
  accounted =
      All-without socket open_sockets (λ x d k. has-without x socket closing d ∙ k) h.accounted;
  serving = tt;
  fresh = All-without socket closing (λ x d k. k) h.fresh;
  apart = tt;
}
timer_Accounted socket (some a) closing open_sockets next here h =
    let differ = ne_of_has a.socket socket closing h.apart.0 here in
    record {
      accounted =
          All-without socket open_sockets (λ x d k. ground (arith, has-without x socket closing d))
            h.accounted;
      serving = (has-without a.socket socket open_sockets differ ∙ h.serving.0, tt);
      fresh = (h.fresh.0, All-without socket closing (λ x d k. k) h.fresh.1);
      apart = (has-without_absent a.socket socket closing h.apart.0, tt);
    }
