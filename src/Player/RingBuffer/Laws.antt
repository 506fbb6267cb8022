-- ===== src/Player/RingBuffer/Laws.antt =====
-- The bounded queue that a `RingBuffer` is, and what `stop` does to its two ends.
use ix_library.Base.{
  ℕ, ◌-◌, ◌≤◌, ◌≡◌, ◌≢◌, refl, ap, sym, ◌∙◌, true, false, Option, none, some, List, [], ◌∷◌, ◌++◌,
  length, length-append, append-nil, append_assoc, arith,
}
use ix_library.Player.RingBuffer.{
  RingBuffer, blocked, returned, create, read, write, stop, pop_all, Call, reads, writes, stops,
  clears, call, accepted, run,
}

module _ {ℓ} {A : Type ℓ} where
  pub record IsValid (r : RingBuffer A) : Type ℓ where
    pub counted : r.size_ ≡ length r.buf
    pub bounded : r.size_ ≤ r.capacity

  pub pop_all-length : (xs : List A) (n : ℕ) → pop_all xs n ≡ n - length xs
  unfolding pop_all
  pop_all-length [] n = omega arith
  pop_all-length (x ∷ xs) n = omega (arith, pop_all-length xs (n - 1))

  -- What one call moves, and what it keeps.
  record Moves (c : Call A) (r : RingBuffer A) : Type ℓ where
    valid : IsValid (call c r).1
    kept : r.buf ++ accepted c r ≡ (call c r).0 ++ (call c r).1.buf
    same : (call c r).1.capacity ≡ r.capacity

  read-Moves : (r : RingBuffer A) → IsValid r → Moves reads r
  unfolding call accepted
  read-Moves r v = by_buffer r.buf refl
    where
      by_buffer : (b : List A) → r.buf ≡ b → Moves reads r
      by_buffer [] e = record {
        valid = ground (arith, v.counted, ap length e);
        kept = ground (arith, v.counted, ap length e, append-nil r.buf);
        same = ground arith;
      }
      by_buffer (x ∷ rest) e = record {
        valid = ground (arith, v.counted, ap length e);
        kept = ground (arith, v.counted, ap length e, append-nil r.buf);
        same = ground arith;
      }

  write-Moves : (d : A) (r : RingBuffer A) → IsValid r → Moves (writes d) r
  unfolding call accepted
  write-Moves d r v = record {
    valid = ground (arith, length-append r.buf (d ∷ []));
    kept = ground (arith, append-nil r.buf);
    same = ground arith;
  }

  call-Moves : (c : Call A) (r : RingBuffer A) → IsValid r → Moves c r
  unfolding call accepted
  call-Moves reads r v = read-Moves r v
  call-Moves (writes d) r v = write-Moves d r v
  call-Moves stops r v = record {
    valid = record { counted = v.counted; bounded = v.bounded };
    kept = append-nil r.buf;
    same = refl;
  }
  call-Moves clears r v = record {
    valid = record {
      counted = omega (arith, pop_all-length r.buf r.size_, v.counted);
      bounded = omega (arith, pop_all-length r.buf r.size_, v.counted);
    };
    kept = refl;
    same = refl;
  }

  record Ran (cs : List (Call A)) (r : RingBuffer A) : Type ℓ where
    valid : IsValid (run cs r).2
    kept : r.buf ++ (run cs r).1 ≡ (run cs r).0 ++ (run cs r).2.buf
    same : (run cs r).2.capacity ≡ r.capacity

  run-Ran : (cs : List (Call A)) (r : RingBuffer A) → IsValid r → Ran cs r
  unfolding run
  run-Ran [] r v = record { valid = v; kept = append-nil r.buf; same = refl }
  run-Ran (c ∷ cs) r v =
      let m = call-Moves c r v in
      let p = run-Ran cs (call c r).1 m.valid in
      record {
        valid = p.valid;
        kept =
            sym (append_assoc r.buf (accepted c r) (run cs (call c r).1).1)
            ∙ ap (λ l. l ++ (run cs (call c r).1).1) m.kept
            ∙ append_assoc (call c r).0 (call c r).1.buf (run cs (call c r).1).1
            ∙ ap (λ l. (call c r).0 ++ l) p.kept
            ∙ sym (append_assoc (call c r).0 (run cs (call c r).1).0 (run cs (call c r).1).2.buf);
        same = p.same ∙ m.same;
      }

  -- In any order of reads, writes, stops and clears on a new ring, the elements that writes put in
  -- are, in order, those that reads and clears took out and those that are left; the count is the
  -- queue's length, and never above the capacity.
  pub run_fifo :
      (capacity : ℕ) (cs : List (Call A))
      → let (out, put, t) = run cs (create capacity) in
        (put ≡ out ++ t.buf) × (t.size_ ≡ length t.buf) × (length t.buf ≤ capacity)
  unfolding create
  run_fifo capacity cs =
      let p = run-Ran cs (create capacity) (record { counted = refl; bounded = omega arith }) in
      (p.kept, p.valid.counted, omega (arith, p.valid.counted, p.valid.bounded, p.same))

  -- A stopped ring never blocks its reader: it hands out what is left, and then answers `false`.
  read_stopped :
      (r : RingBuffer A)
      → IsValid r
      → ((r.buf ≡ []) → read (stop r) ≡ (returned false none, stop r))
        × ((x : A) (rest : List A)
            → r.buf ≡ x ∷ rest
            → read (stop r) ≡ (
              returned true (some x),
              record r { stopped = true; buf = rest; size_ = length rest },
            ))
  unfolding read stop
  read_stopped r v = (
    (λ e. ground (arith, v.counted, ap length e)),
    (λ x rest e. ground (arith, v.counted, ap length e)),
  )

  -- A writer is never told of the end: no write answers `false`, and one that finds the ring full
  -- stays blocked whether the ring is stopped or not.
  write_stopped :
      (r : RingBuffer A) (d : A)
      → ((o : Option A) → (write r d).0 ≢ returned false o)
        × (r.capacity ≤ r.size_
            → (write (stop r) d ≡ (blocked, stop r)) × (write r d ≡ (blocked, r)))
  unfolding write stop
  write_stopped r d = ((λ o e. ground arith), (λ full. (ground arith, ground arith)))

  -- A stopped ring never blocks its reader: it hands out what is left, and then answers `false`. Its
  -- writer is never told of the end: no write answers `false`, and one that finds the ring full stays
  -- blocked whether the ring is stopped or not.
  pub stopped_ends :
      (r : RingBuffer A) (d : A)
      → IsValid r
      → (((r.buf ≡ []) → read (stop r) ≡ (returned false none, stop r))
          × ((x : A) (rest : List A)
              → r.buf ≡ x ∷ rest
              → read (stop r) ≡ (
                returned true (some x),
                record r { stopped = true; buf = rest; size_ = length rest },
              )))
        × (((o : Option A) → (write r d).0 ≢ returned false o)
            × (r.capacity ≤ r.size_
                → (write (stop r) d ≡ (blocked, stop r)) × (write r d ≡ (blocked, r))))
  stopped_ends r d v = (read_stopped r v, write_stopped r d)
