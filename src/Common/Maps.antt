-- ===== src/Common/Maps.antt =====
-- A JavaScript `Map`: an association list in insertion order, with distinct keys.
use Prim.Native.Nat.{◌≤◌, ◌+◌}
use mathlib.Core.Path.{◌≡◌, refl, ap}
use mathlib.Core.Logic.{◌≢◌, inl, inr}
use mathlib.Core.Bool.{false}
use mathlib.Core.List.{List, [], ◌∷◌, ◌++◌}
use mathlib.Core.Option.{Option, none, some}
use native.Mathlib.Omega.{arith}
use quantstack_terminal.Common.Tests.{if◌then◌else◌, Bool-cases}
use quantstack_terminal.Common.Lists.{length, All}
use quantstack_terminal.Common.Keys.{Eq, beq_refl}

abbrev pub Assoc : Type 0 → Type 0 → Type 0
Assoc K V = List (K × V)

module _ {K V : Type 0} where
  -- A property of every value of the map.
  abbrev pub Values : (V → Type 0) → Assoc K V → Type 0
  Values P m = All (λ b. P b.1) m

module _ {K V : Type 0} ⦃e : Eq K⦄ where
  -- `map.get(k)`.
  unfoldable pub get : K → Assoc K V → Option V
  get k [] = none
  get k ((j, v) ∷ m) = if e.beq j k then some v else get k m

  -- `map.set(k, v)`: an existing key keeps its place.
  unfoldable pub put : K → V → Assoc K V → Assoc K V
  put k v [] = (k, v) ∷ []
  put k v ((j, w) ∷ m) = if e.beq j k then (j, v) ∷ m else (j, w) ∷ put k v m

  -- `map.delete(k)`.
  unfoldable pub remove : K → Assoc K V → Assoc K V
  remove k [] = []
  remove k ((j, w) ∷ m) = if e.beq j k then m else (j, w) ∷ remove k m

  -- No key of the map is `k`.
  abbrev pub IsFresh : K → Assoc K V → Type 0
  IsFresh k [] = Unit
  IsFresh k ((j, w) ∷ m) = (e.beq j k ≡ false) × IsFresh k m

  abbrev pub Distinct : Assoc K V → Type 0
  Distinct [] = Unit
  Distinct ((k, v) ∷ m) = IsFresh k m × Distinct m

  pub get-put :
      (k j : K) (v : V) (m : Assoc K V)
      → get j (put k v m) ≡ (if e.beq k j then some v else get j m)
  unfolding get put
  get-put k j v [] = refl
  get-put k j v ((i, w) ∷ m) =
      ground (arith, e.beq_iff k j, e.beq_iff i k, e.beq_iff i j, get-put k j v m)

  pub get-put_self : (k : K) (v : V) (m : Assoc K V) → get k (put k v m) ≡ some v
  get-put_self k v m = rw (get-put k k v m) (rw (beq_refl k))

  pub get-put_ne : (k j : K) (v : V) (m : Assoc K V) → k ≢ j → get j (put k v m) ≡ get j m
  get-put_ne k j v m h = ground (arith, get-put k j v m, e.beq_iff k j)

  pub get_of_IsFresh : (k : K) (m : Assoc K V) → IsFresh k m → get k m ≡ none
  unfolding get
  get_of_IsFresh k [] h = refl
  get_of_IsFresh k ((j, w) ∷ m) h = rw (h.0) (get_of_IsFresh k m h.1)

  pub get-remove :
      (k j : K) (m : Assoc K V)
      → Distinct m
      → get j (remove k m) ≡ (if e.beq k j then none else get j m)
  unfolding get remove
  get-remove k j [] h = ground arith
  get-remove k j ((i, w) ∷ m) h = ground (
    arith,
    e.beq_iff k j,
    e.beq_iff i k,
    e.beq_iff i j,
    get-remove k j m h.1,
    get_of_IsFresh i m h.0,
  )

  pub get-append : (k : K) (m n : Assoc K V) → IsFresh k m → get k (m ++ n) ≡ get k n
  unfolding get
  get-append k [] n h = refl
  get-append k ((j, w) ∷ m) n h = rw (h.0) (get-append k m n h.1)

  pub put_of_IsFresh : (k : K) (v : V) (m : Assoc K V) → IsFresh k m → put k v m ≡ m ++ (k, v) ∷ []
  unfolding put
  put_of_IsFresh k v [] h = refl
  put_of_IsFresh k v ((j, w) ∷ m) h = rw (h.0) (ap (λ t. (j, w) ∷ t) (put_of_IsFresh k v m h.1))

  pub IsFresh-remove : (k j : K) (m : Assoc K V) → IsFresh k m → IsFresh k (remove j m)
  unfolding remove
  IsFresh-remove k j [] h = tt
  IsFresh-remove k j ((i, w) ∷ m) h = ground (arith, IsFresh-remove k j m h.1)

  pub IsFresh-remove_self : (k : K) (m : Assoc K V) → Distinct m → IsFresh k (remove k m)
  unfolding remove
  IsFresh-remove_self k [] h = tt
  IsFresh-remove_self k ((i, w) ∷ m) h = elim (Bool-cases (e.beq i k)) [
    | inl same ↦ rw same (let eq : i ≡ k = (e.beq_iff i k).0 same in rw (← eq) h.0)
    | inr other ↦ rw other (other, IsFresh-remove_self k m h.1)
  ]

  pub IsFresh-put :
      (k j : K) (v : V) (m : Assoc K V) → e.beq j k ≡ false → IsFresh k m → IsFresh k (put j v m)
  unfolding put
  IsFresh-put k j v [] d h = (d, tt)
  IsFresh-put k j v ((i, w) ∷ m) d h = ground (arith, IsFresh-put k j v m d h.1)

  pub Distinct-remove : (k : K) (m : Assoc K V) → Distinct m → Distinct (remove k m)
  unfolding remove
  Distinct-remove k [] h = tt
  Distinct-remove k ((i, w) ∷ m) h =
      ground (arith, Distinct-remove k m h.1, IsFresh-remove i k m h.0)

  pub Distinct-put : (k : K) (v : V) (m : Assoc K V) → Distinct m → Distinct (put k v m)
  unfolding put
  Distinct-put k v [] h = (tt, tt)
  Distinct-put k v ((i, w) ∷ m) h = elim (Bool-cases (e.beq i k)) [
    | inl same ↦ rw same h
    | inr other ↦
        let other' : e.beq k i ≡ false = ground (arith, e.beq_iff k i, e.beq_iff i k) in
        rw other (IsFresh-put i k v m other' h.0, Distinct-put k v m h.1)
  ]

  pub Values-put :
      (P : V → Type 0) (k : K) (v : V) (m : Assoc K V) → P v → Values P m → Values P (put k v m)
  unfolding put
  Values-put P k v [] p h = (p, tt)
  Values-put P k v ((i, w) ∷ m) p h = elim (Bool-cases (e.beq i k)) [
    | inl same ↦ rw same (p, h.1)
    | inr other ↦ rw other (h.0, Values-put P k v m p h.1)
  ]

  pub Values-remove : (P : V → Type 0) (k : K) (m : Assoc K V) → Values P m → Values P (remove k m)
  unfolding remove
  Values-remove P k [] h = tt
  Values-remove P k ((i, w) ∷ m) h = elim (Bool-cases (e.beq i k)) [
    | inl same ↦ rw same h.1
    | inr other ↦ rw other (h.0, Values-remove P k m h.1)
  ]

  pub Values-get :
      (P : V → Type 0) (k : K) (m : Assoc K V) {v : V} → Values P m → get k m ≡ some v → P v
  unfolding get
  Values-get P k [] h g = cc
  Values-get P k ((i, w) ∷ m) {v} h g = elim (Bool-cases (e.beq i k)) [
    | inl same ↦ let eq : w ≡ v = ground arith in rw (← eq) h.0
    | inr other ↦ Values-get P k m h.1 (rw other at g)
  ]

  pub length-remove_le : (k : K) (m : Assoc K V) → length (remove k m) ≤ length m
  unfolding remove
  length-remove_le k [] = omega arith
  length-remove_le k ((i, w) ∷ m) = ground (arith, length-remove_le k m)

  pub get-remove_ne : (k j : K) (m : Assoc K V) → k ≢ j → get j (remove k m) ≡ get j m
  unfolding get remove
  get-remove_ne k j [] d = refl
  get-remove_ne k j ((i, w) ∷ m) d =
      ground (arith, e.beq_iff i k, e.beq_iff i j, get-remove_ne k j m d)

  pub length-put_le : (k : K) (v : V) (m : Assoc K V) → length (put k v m) ≤ length m + 1
  unfolding put
  length-put_le k v [] = omega arith
  length-put_le k v ((i, w) ∷ m) = ground (arith, length-put_le k v m)
