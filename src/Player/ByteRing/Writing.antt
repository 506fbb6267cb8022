-- ===== src/Player/ByteRing/Writing.antt =====
-- What `RingBuffer_size_t::write` writes of its input.
use ix_library.Base.{
  ℕ, zero, suc, ◌+◌, ◌-◌, ◌*◌, ◌%◌, min, ◌≤◌, ◌<◌, ◌≡◌, refl, ap, true, Option, none, List, [], ◌∷◌,
  length, ltb, arith, get_or, set, take, ◌++◌, append-nil, sym, ◌∙◌, lt→ltb, le→ltb, ltb→le,
  Bool-cases, inl, inr,
}
use ix_library.Player.ByteRing.Contents.{
  length-set, place-mod, items, copy_out-items, given, given-take, copy_in-items, copy_in-head,
}
use ix_library.Player.ByteRing.{
  ByteRing, after_reader, copy_out, copy_in, Progress, write_turn, Result, finished, waiting,
  write_loop, write,
}

copy_in-counts :
    (n : ℕ) (d : List ℕ) (written : ℕ) (r : ByteRing)
    → let (w, s) = copy_in n d written r in
      (w ≡ written + n) × (s.size_ ≡ r.size_ + n) × (length s.buf ≡ length r.buf)
unfolding copy_in
copy_in-counts zero d written r = omega arith
copy_in-counts (suc n) d written r = omega (
  arith,
  copy_in-counts n d (written + 1) (record r {
    buf = set r.buf r.tail (get_or d written 0);
    tail = (r.tail + 1) % length r.buf;
    size_ = r.size_ + 1;
  }),
  length-set r.buf r.tail (get_or d written 0),
)

-- `head_` and `tail_` are in the array, `size_` steps apart.
pub record IsSound (r : ByteRing) : Type 0 where
  pub head_in : r.head < length r.buf
  pub tail_is : r.tail ≡ (r.head + r.size_) % length r.buf

-- The bytes that the loop of `read` takes out of a ring, when it takes all.
abbrev pub stored : ByteRing → List ℕ
stored r = (copy_out r.size_ r).0

-- A call that returned `n`, and put the first `n` bytes of `d` behind those of `r`.
abbrev pub Stores : Result → ℕ → List ℕ → ByteRing → Type 0
Stores (finished k s) n d r = (k ≡ n) × (stored s ≡ stored r ++ take n d)
Stores (waiting p) n d r = ⊥

stored-items :
    (h : ℕ) (r : ByteRing)
    → h < length r.buf
    → r.size_ ≤ length r.buf
    → r.head ≡ h
    → stored r ≡ items r.buf h 0 r.size_
stored-items h r a b e = copy_out-items r.size_ 0 h r a (omega arith) (e ∙ ground arith)

-- A loop whose test fails is over, whatever would come next.
loop_over :
    (schedule : List (Option ℕ)) (d : List ℕ) (p : Progress)
    → p.left ≤ p.written
    → write_loop schedule d p ≡ finished p.written p.ring
unfolding write_loop
loop_over [] d p h = rw (le→ltb p.written p.left h)
loop_over (k ∷ ks) d p h = rw (le→ltb p.written p.left h)

turn-counts :
    (d : List ℕ) (p : Progress)
    → let now = min (length p.ring.buf - p.ring.size_) (p.left - p.written) in
      let q = write_turn d p in (q.written ≡ p.written + now) × (q.left ≡ p.left - now)
unfolding write_turn
turn-counts d p = omega (
  arith,
  copy_in-counts (min (length p.ring.buf - p.ring.size_) (p.left - p.written)) d p.written p.ring,
)

abbrev begin : List ℕ → ByteRing → Progress
begin d r = record { written = 0; left = length d; ring = r }

first_turn :
    (schedule : List (Option ℕ)) (d : List ℕ) (r : ByteRing)
    → r.size_ < length r.buf
    → ltb 0 (length d) ≡ true
    → write_loop (none ∷ schedule) d (begin d r) ≡ write_loop schedule d (write_turn d (begin d r))
unfolding write_loop after_reader
first_turn schedule d r room h = rw (h, lt→ltb r.size_ (length r.buf) room)

turn-stores :
    (d : List ℕ) (r : ByteRing)
    → IsSound r
    → r.size_ < length r.buf
    → let n = min (length r.buf - r.size_) (length d) in
      stored (write_turn d (begin d r)).ring ≡ stored r ++ take n d
unfolding write_turn
turn-stores d r v room =
    let n = min (length r.buf - r.size_) (length d) in
    let counts = copy_in-counts n d 0 r in
    ap (λ k. stored (copy_in (min (length r.buf - r.size_) k) d 0 r).1) {x = length d - 0}
      {y = length d} (omega arith)
    ∙ stored-items r.head (copy_in n d 0 r).1 (omega (arith, counts, v.head_in))
        (omega (arith, counts)) (copy_in-head n d 0 r)
    ∙ copy_in-items n d 0 r.head r v.head_in (omega arith)
        (v.tail_is ∙ place-mod (length r.buf) r.head r.size_ v.head_in (omega arith))
    ∙ ap (λ l. l ++ given d 0 n) (sym (stored-items r.head r v.head_in (omega arith) refl))
    ∙ ap (λ l. stored r ++ l) (given-take n d (omega arith))

nothing_taken : (d : List ℕ) (n : ℕ) → n ≡ 0 → take n d ≡ []
nothing_taken d n e = ap (λ k. take k d) e

-- A ring with its tail `size_` places after its head, with free space and no reader before the first
-- turn. A call with at most twice as many bytes as there is space returns, whatever readers come
-- later: it stores as many as fit, returns their number, and does not wait for room for the rest.
-- A reader that takes all then finds what was in the ring, followed by these first bytes.
pub write_count :
    (schedule : List (Option ℕ)) (d : List ℕ) (r : ByteRing)
    → IsSound r
    → r.size_ < length r.buf
    → length d ≤ 2 * (length r.buf - r.size_)
    → Stores (write (none ∷ schedule) d r) (min (length r.buf - r.size_) (length d)) d r
unfolding write
write_count schedule d r v room h = elim (Bool-cases (ltb 0 (length d))) [
  | inl some_left ↦
      rw
        (
          first_turn schedule d r room some_left,
          loop_over schedule d (write_turn d (begin d r))
              (omega (arith, turn-counts d (begin d r))),
        )
        (omega (arith, turn-counts d (begin d r)), turn-stores d r v room)
  | inr nothing ↦ rw (loop_over (none ∷ schedule) d (begin d r) (ltb→le _ _ nothing)) (
    omega (arith, ltb→le _ _ nothing),
    sym (
        ap (λ l. stored r ++ l)
          (nothing_taken d (min (length r.buf - r.size_) (length d))
            (omega (arith, ltb→le _ _ nothing)))
        ∙ append-nil (stored r)),
  )
]
