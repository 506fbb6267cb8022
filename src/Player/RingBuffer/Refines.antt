-- ===== src/Player/RingBuffer/Refines.antt =====
-- The queue that a `RingBuffer` stands for, and that its calls answer as the queue does.
use ix_library.Base.{
  ℕ, suc, ◌+◌, ◌≤◌, ◌≡◌, refl, ap, sym, subst, ◌∙◌, Bool, true, false, Bool-cases, inl, inr, ◌⊎◌,
  none, some, List, [], ◌∷◌, ◌++◌, length, length-append, ltb, leb, lt→ltb, ne→==, if◌then◌else◌,
  arith,
}
use ix_library.Player.RingBuffer.{
  RingBuffer, Reply, blocked, returned, create, read, write, stop, clear, Call, reads, writes,
  stops, clears, run,
}
use ix_library.Player.RingBuffer.Laws.{IsValid, pop_all-length, run_fifo}

full-leb : (n cap : ℕ) → ltb n cap ≡ true → leb cap n ≡ false
full-leb n cap e = ground (arith, e)

in_room : (n cap : ℕ) → ltb n cap ≡ true → n + 1 ≤ cap
in_room n cap e = ground (arith, e)

-- What a caller may know: the elements in order, whether the end was told, and the limit.
pub record Queue {ℓ} (A : Type ℓ) : Type ℓ where
  pub items : List A
  pub closed : Bool
  pub limit : ℕ

module _ {ℓ} {A : Type ℓ} where
  -- A reader gets the first element, waits, or is told the end; a writer gets in or waits.
  abbrev pub answer : Call A → Queue A → Reply A × Queue A
  answer reads q = elim q.items [
    | [] ↦ (if q.closed then returned false none else blocked, q)
    | x ∷ rest ↦ (returned true (some x), record q { items = rest })
  ]
  answer (writes d) q =
      if ltb (length q.items) q.limit
      then (returned true none, record q { items = q.items ++ (d ∷ []) })
      else (blocked, q)
  answer stops q = (returned true none, record q { closed = true })
  answer clears q = (returned true none, record q { items = [] })

  -- The calls of the code, with an answer for those that return nothing.
  abbrev pub respond : Call A → RingBuffer A → Reply A × RingBuffer A
  respond reads r = read r
  respond (writes d) r = write r d
  respond stops r = (returned true none, stop r)
  respond clears r = (returned true none, clear r)

  abbrev pub view : RingBuffer A → Queue A
  view r = record { items = r.buf; closed = r.stopped; limit = r.capacity }

  -- A ring with its count right.
  abbrev counted : Bool → List A → ℕ → RingBuffer A
  counted st b cap = record { stopped = st; size_ = length b; buf = b; capacity = cap }

  abbrev pub IsAnswer : Reply A × RingBuffer A → Reply A × Queue A → Type ℓ
  IsAnswer (x, r) (y, q) = (x ≡ y) × ((view r ≡ q) × IsValid r)

  counted-IsAnswer :
      (c : Call A) (st : Bool) (b : List A) (cap : ℕ)
      → length b ≤ cap
      → IsAnswer (respond c (counted st b cap)) (answer c (view (counted st b cap)))
  unfolding read write stop clear
  counted-IsAnswer reads true [] cap h = (refl, (refl, record { counted = refl; bounded = h }))
  counted-IsAnswer reads false [] cap h = (refl, (refl, record { counted = refl; bounded = h }))
  counted-IsAnswer reads st (x ∷ rest) cap h =
      rw
        (
          lt→ltb 0 (suc (length rest)) (omega arith),
          ne→== (suc (length rest)) 0 (λ e. absurd (omega (arith, e))),
        )
        (refl, (refl, record { counted = omega arith; bounded = omega (arith, h) }))
  counted-IsAnswer (writes d) st b cap h = by_room (Bool-cases (ltb (length b) cap))
    where
      by_room :
          (ltb (length b) cap ≡ true) ⊎ (ltb (length b) cap ≡ false)
          → IsAnswer (write (counted st b cap) d) (answer (writes d) (view (counted st b cap)))
      by_room (inl e) =
          rw (e, write, full-leb (length b) cap e)
            (
              refl,
              (
                refl,
                record {
                  counted = omega (arith, length-append b (d ∷ []));
                  bounded = in_room (length b) cap e;
                },
              ),
            )
      by_room (inr e) = rw (e, write) (refl, (refl, record { counted = refl; bounded = h }))
  counted-IsAnswer stops st b cap h = (refl, (refl, record { counted = refl; bounded = h }))
  counted-IsAnswer clears st b cap h = (
    refl,
    (
      refl,
      record {
        counted = rw (pop_all-length b (length b)) (omega arith);
        bounded = rw (pop_all-length b (length b)) (omega arith);
      },
    ),
  )

  respond-IsAnswer :
      (c : Call A) (r : RingBuffer A) → IsValid r → IsAnswer (respond c r) (answer c (view r))
  respond-IsAnswer c r v =
      subst (λ n. IsAnswer (respond c (record r { size_ = n })) (answer c (view r))) (sym v.counted)
        (counted-IsAnswer c r.stopped r.buf r.capacity
          (subst (λ n. n ≤ r.capacity) v.counted v.bounded))

  -- The replies of a run, and the state after it.
  abbrev pub respond_all : List (Call A) → RingBuffer A → List (Reply A) × RingBuffer A
  respond_all [] r = ([], r)
  respond_all (c ∷ cs) r = let (x, s) = respond c r in let (xs, t) = respond_all cs s in (x ∷ xs, t)

  abbrev pub answer_all : List (Call A) → Queue A → List (Reply A) × Queue A
  answer_all [] q = ([], q)
  answer_all (c ∷ cs) q = let (x, s) = answer c q in let (xs, t) = answer_all cs s in (x ∷ xs, t)

  respond_all-answer_all :
      (cs : List (Call A)) (r : RingBuffer A) (q : Queue A)
      → view r ≡ q
      → IsValid r
      → ((respond_all cs r).0 ≡ (answer_all cs q).0)
        × (view (respond_all cs r).1 ≡ (answer_all cs q).1)
  respond_all-answer_all [] r q e v = (refl, e)
  respond_all-answer_all (c ∷ cs) r q e v =
      let (same, (seen, valid)) = respond-IsAnswer c r v in
      let (rest, last) =
        respond_all-answer_all cs (respond c r).1 (answer c q).1 (seen ∙ ap (λ p. (answer c p).1) e)
          valid in
      ((λ i. (same ∙ ap (λ p. (answer c p).0) e) i ∷ rest i), last)

  -- A ring with a capacity, from its making on and whatever is called: every call answers as the bounded
  -- queue does, and what the ring holds is what the queue holds; the elements that were put in are those
  -- that came out and those that are there, in order, as many as are counted, within the capacity.
  pub run_refines_queue :
      (capacity : ℕ) (cs : List (Call A))
      → (((respond_all cs (create capacity)).0
            ≡ (answer_all cs (record { items = []; closed = false; limit = capacity })).0)
          × (view (respond_all cs (create capacity)).1
              ≡ (answer_all cs (record { items = []; closed = false; limit = capacity })).1))
        × (let (out, put, t) = run cs (create capacity) in
            (put ≡ out ++ t.buf) × (t.size_ ≡ length t.buf) × (length t.buf ≤ capacity))
  unfolding create
  run_refines_queue capacity cs = (
    respond_all-answer_all cs (create capacity)
        (record { items = []; closed = false; limit = capacity }) refl
        (record { counted = refl; bounded = omega arith }),
    run_fifo capacity cs,
  )
