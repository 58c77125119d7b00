-- ===== src/Cache/RingBuffer/Window.antt =====
-- The buffer holds the latest records: a refinement of the list of all that were pushed.
use mathlib.Core.Path.{ap₂}
use native.Mathlib.Nat.{add-mod_right, mod-lt}
use quantstack_terminal.Common.{
  ℕ, zero, suc, ◌+◌, ◌-◌, ◌*◌, ◌%◌, ◌≤◌, ◌<◌, min, ◌≡◌, ◌≢◌, ◌∙◌, refl, sym, ap, inl, inr, List, [],
  ◌∷◌, ◌++◌, some, arith, length, length-append, length-replicate, get_elem?, drop, ltb, ◌==◌,
  Bool-cases,
}
use quantstack_terminal.Cache.RingBuffer.{
  Floats, TickRecord, RingBuffer, n_cols, new, stored, columns, write_cols, read_at, push, last,
  read_from, to_array, clear, Change, pushed, cleared, run,
}
use quantstack_terminal.Cache.RingBuffer.Layout.{
  length-write_cols, read_at-write_self, read_at-write_ne,
}
use quantstack_terminal.Common.{false}
use quantstack_terminal.Common.{get_elem?-append_left}
use quantstack_terminal.Common.{drop-length}
use quantstack_terminal.Common.{get_elem?-append_last}
use quantstack_terminal.Common.{drop-cons}
use quantstack_terminal.Cache.RingBuffer.Positions.{mod_apart, mod_shift}

module _ (fl : Floats) where
  open fl use {Float, zero_}

  -- The buffer stands for the list `ss` of the records pushed since the last clear, oldest first.
  pub record Refines (b : RingBuffer Float) (ss : List (TickRecord Float)) : Type 0 where
    pub some_room : 0 < b.capacity
    pub room : length b.buf ≡ b.capacity * 8
    pub head : b.head ≡ length ss
    pub size : b.size ≡ min b.capacity (length ss)
    pub content :
        (i : ℕ)
        → i < length ss
        → length ss ≤ i + b.capacity
        → some (read_at fl (i % b.capacity) b) ≡ get_elem? ss i

  new-Refines : (capacity : ℕ) → 0 < capacity → Refines (new fl capacity) []
  unfolding new
  new-Refines capacity pos = record {
    some_room = pos;
    room = length-replicate (capacity * 8) zero_;
    head = refl;
    size = omega arith;
    content = λ i h near. elim h [ ];
  }

  clear-Refines :
      (b : RingBuffer Float) (ss : List (TickRecord Float)) → Refines b ss → Refines (clear fl b) []
  unfolding clear
  clear-Refines b ss h = record {
    some_room = h.some_room;
    room = h.room;
    head = refl;
    size = omega arith;
    content = λ i lt near. elim lt [ ];
  }

  module _ (r : TickRecord Float) (b : RingBuffer Float) where
    abbrev overwritten : RingBuffer Float
    overwritten = record b {
      buf = write_cols fl (b.head % b.capacity * n_cols) (columns fl (stored fl r)) b.buf;
    }

    push-cells : (pos : ℕ) → read_at fl pos (push fl r b) ≡ read_at fl pos overwritten
    unfolding push read_at
    push-cells pos = refl

    push-content :
        (ss : List (TickRecord Float))
        → Refines b ss
        → (i : ℕ) → i < length (ss ++ stored fl r ∷ [])
        → length (ss ++ stored fl r ∷ []) ≤ i + b.capacity
        → some (read_at fl (i % b.capacity) (push fl r b)) ≡ get_elem? (ss ++ stored fl r ∷ []) i
    push-content ss h i lt near = elim (Bool-cases (ltb i (length ss))) [
      | inl old ↦
          let lt' : i < length ss = ground arith in
          let near' : length ss < i + b.capacity =
            omega (arith, length-append ss (stored fl r ∷ [])) in
          let apart : i % b.capacity ≢ b.head % b.capacity = λ e.
            mod_apart (length ss) i b.capacity lt' near'
              (e ∙ ap (λ (k : ℕ). k % b.capacity) h.head) in
          ap some (
            push-cells (i % b.capacity)
            ∙ read_at-write_ne fl b (b.head % b.capacity) (stored fl r) (i % b.capacity) apart)
          ∙ h.content i lt' (omega arith)
          ∙ sym (get_elem?-append_left ss (stored fl r ∷ []) i lt')
      | inr here ↦
          let same : i ≡ length ss = ground (arith, length-append ss (stored fl r ∷ [])) in
          let same' : i % b.capacity ≡ b.head % b.capacity =
            ap (λ (k : ℕ). k % b.capacity) (same ∙ sym h.head) in
          let fits : b.head % b.capacity * 8 + 8 ≤ length b.buf =
            omega (arith, h.room, mod-lt b.head h.some_room) in
          ap some (
            push-cells (i % b.capacity)
            ∙ ap (λ (k : ℕ). read_at fl k overwritten) same'
            ∙ read_at-write_self fl b (b.head % b.capacity) (stored fl r) fits)
          ∙ sym (get_elem?-append_last ss (stored fl r))
          ∙ ap (get_elem? (ss ++ stored fl r ∷ [])) (sym same)
    ]

    pub push-Refines :
        (ss : List (TickRecord Float))
        → Refines b ss
        → Refines (push fl r b) (ss ++ stored fl r ∷ [])
    push-Refines ss h =
        let longer = length-append ss (stored fl r ∷ []) in
        record {
          some_room = unfold push in h.some_room;
          room =
              unfold push in
              length-write_cols fl (b.head % b.capacity * 8) (columns fl (stored fl r)) b.buf
              ∙ h.room;
          head = unfold push in omega (arith, longer, h.head);
          size = unfold push in ground (arith, longer, h.size, h.some_room);
          content = unfold push in push-content ss h;
        }

  -- The loop of `to_array` reads the list from its place on.
  read_from-drop :
      (b : RingBuffer Float) (ss : List (TickRecord Float)) (start skip : ℕ)
      → Refines b ss
      → skip + b.size ≡ length ss
      → ((i : ℕ) → (start + i) % b.capacity ≡ (skip + i) % b.capacity)
      → (rounds i : ℕ) → i + rounds ≡ b.size
      → read_from fl b start i rounds ≡ drop (skip + i) ss
  unfolding read_from
  read_from-drop b ss start skip h whole turn zero i e =
      let at_end : skip + i ≡ length ss = omega arith in rw at_end (sym (drop-length ss))
  read_from-drop b ss start skip h whole turn (suc rounds) i e =
      let here : some (read_at fl ((skip + i) % b.capacity) b) ≡ get_elem? ss (skip + i) =
        h.content (skip + i) (omega arith) (omega (arith, h.size)) in
      let next : skip + (i + 1) ≡ suc (skip + i) = omega arith in
      let tail : read_from fl b start (i + 1) rounds ≡ drop (suc (skip + i)) ss =
        read_from-drop b ss start skip h whole turn rounds (i + 1) (omega arith)
        ∙ ap (λ (k : ℕ). drop k ss) next in
      rw (turn i, tail) (sym (drop-cons ss (skip + i) (sym here)))

  to_array-Refines :
      (b : RingBuffer Float) (ss : List (TickRecord Float))
      → Refines b ss
      → to_array fl b ≡ drop (length ss - b.capacity) ss
  unfolding to_array
  to_array-Refines b ss h = elim (Bool-cases (ltb b.size b.capacity)) [
    | inl part ↦
        let none_gone : length ss - b.capacity ≡ 0 + 0 = ground (arith, h.size) in
        rw (part, none_gone)
          (read_from-drop b ss 0 0 h (ground (arith, h.size)) (λ i. refl) b.size 0 (omega arith))
    | inr full ↦
        let n = length ss in
        let le : b.capacity ≤ n = ground (arith, h.size) in
        let gone : n - b.capacity ≡ (n - b.capacity) + 0 = omega arith in
        rw (full, gone)
          (read_from-drop b ss (b.head % b.capacity) (n - b.capacity) h (omega (arith, h.size))
            (λ i.
              ap (λ (k : ℕ). (k % b.capacity + i) % b.capacity) h.head
              ∙ mod_shift n i b.capacity h.some_room le)
            b.size 0 (omega arith))
  ]

  -- The records since the last clear, as they are stored.
  pub history : List (Change Float) → List (TickRecord Float) → List (TickRecord Float)
  history [] ss = ss
  history (pushed r ∷ cs) ss = history cs (ss ++ stored fl r ∷ [])
  history (cleared ∷ cs) ss = history cs []

  run-Refines :
      (cs : List (Change Float)) (b : RingBuffer Float) (ss : List (TickRecord Float))
      → Refines b ss
      → Refines (run fl cs b) (history cs ss)
  unfolding run history
  run-Refines [] b ss h = h
  run-Refines (pushed r ∷ cs) b ss h = run-Refines cs (push fl r b) _ (push-Refines r b ss h)
  run-Refines (cleared ∷ cs) b ss h = run-Refines cs (clear fl b) [] (clear-Refines b ss h)

  run-capacity :
      (cs : List (Change Float)) (b : RingBuffer Float) → (run fl cs b).capacity ≡ b.capacity
  unfolding run push clear
  run-capacity [] b = refl
  run-capacity (pushed r ∷ cs) b = run-capacity cs (push fl r b)
  run-capacity (cleared ∷ cs) b = run-capacity cs (clear fl b)

  -- After any pushes and clears of a new buffer of positive capacity, the exported array is the list of
  -- the records pushed since the last clear, in order, without the oldest ones beyond the capacity.
  pub to_array-run :
      (capacity : ℕ) (cs : List (Change Float))
      → 0 < capacity
      → let ss = history cs [] in
        to_array fl (run fl cs (new fl capacity)) ≡ drop (length ss - capacity) ss
  to_array-run capacity cs pos =
      let b = run fl cs (new fl capacity) in
      let same : b.capacity ≡ capacity = run-capacity cs (new fl capacity) ∙ (unfold new in refl) in
      to_array-Refines b (history cs [])
        (run-Refines cs (new fl capacity) [] (new-Refines capacity pos))
      ∙ ap (λ (k : ℕ). drop (length (history cs []) - k) (history cs [])) same

  last-push_of_Refines :
      (r : TickRecord Float) (b : RingBuffer Float) (ss : List (TickRecord Float))
      → Refines b ss
      → last fl (push fl r b) ≡ some (stored fl r)
  unfolding last
  last-push_of_Refines r b ss h =
      let h' = push-Refines r b ss h in
      let longer = length-append ss (stored fl r ∷ []) in
      let some_size : ((push fl r b).size == 0) ≡ false =
        ground (arith, h'.size, h'.some_room, longer) in
      let same : (push fl r b).capacity ≡ b.capacity = unfold push in refl in
      let before : ((push fl r b).head + (push fl r b).capacity) - 1 ≡ b.head + b.capacity =
        omega (arith, h'.head, h.head, longer, same) in
      let turn : (((push fl r b).head + (push fl r b).capacity) - 1) % (push fl r b).capacity
          ≡ b.head % b.capacity =
        ap₂ (λ (k c : ℕ). k % c) before same ∙ add-mod_right b.head b.capacity in
      let fits : b.head % b.capacity * 8 + 8 ≤ length b.buf =
        omega (arith, h.room, mod-lt b.head h.some_room) in
      rw (some_size, turn)
        (ap some (
          push-cells r b (b.head % b.capacity)
          ∙ read_at-write_self fl b (b.head % b.capacity) (stored fl r) fits))

  -- After any pushes and clears of a new buffer of positive capacity, the last record is the one that
  -- is pushed next, with its roll mark as 0 or 1.
  pub last-push :
      (capacity : ℕ) (cs : List (Change Float)) (r : TickRecord Float)
      → 0 < capacity
      → last fl (push fl r (run fl cs (new fl capacity))) ≡ some (stored fl r)
  last-push capacity cs r pos =
      last-push_of_Refines r _ (history cs [])
        (run-Refines cs (new fl capacity) [] (new-Refines capacity pos))
