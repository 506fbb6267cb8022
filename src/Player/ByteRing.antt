-- ===== src/Player/ByteRing.antt =====
-- `RingBuffer_size_t` of projects/龙卷风播放器/src/utils/RingBuffer/RingBuffer.cpp: bytes in a circular
-- array. One turn of the loop of `write` runs under the mutex; between turns another thread may
-- read, as a schedule says. Indices stay below `buf_.size()`, so `size_t` does not wrap.
pub mod Contents
pub mod Writing
use ix_library.Base.{
  ℕ, zero, suc, ◌+◌, ◌-◌, ◌%◌, min, Bool, true, false, Option, none, some, List, [], ◌∷◌, length,
  get_or, set, replicate, ltb, ◌==◌, if◌then◌else◌,
}

pub record ByteRing : Type 0 where
  pub tail : ℕ
  pub head : ℕ
  pub size_ : ℕ
  pub buf : List ℕ

unfoldable pub construct : ℕ → ByteRing
construct size = record { tail = 0; head = 0; size_ = 0; buf = replicate size 0 }

-- The `for` loop of `read`, with the rounds left.
unfoldable pub copy_out : ℕ → ByteRing → List ℕ × ByteRing
copy_out zero r = ([], r)
copy_out (suc n) r =
    let (out, s) = copy_out n (record r { head = (r.head + 1) % length r.buf }) in
    (get_or r.buf r.head 0 ∷ out, s)

-- `none`: the wait for `size_ > 0` goes on.
unfoldable pub read : ByteRing → ℕ → Option (List ℕ × ByteRing)
unfolding copy_out
read r requested =
    let to_read = min requested r.size_ in
    let (out, s) = copy_out to_read r in
    if r.size_ == 0 then none else some (out, record s { size_ = s.size_ - to_read })

-- The `for` loop of `write`: it moves `written` too.
unfoldable pub copy_in : ℕ → List ℕ → ℕ → ByteRing → ℕ × ByteRing
copy_in zero d written r = (written, r)
copy_in (suc n) d written r = copy_in n d (written + 1) (record r {
  buf = set r.buf r.tail (get_or d written 0);
  tail = (r.tail + 1) % length r.buf;
  size_ = r.size_ + 1;
})

-- The two variables of `write`.
pub record Progress : Type 0 where
  pub written : ℕ
  pub left : ℕ
  pub ring : ByteRing

-- One turn of the `while` loop, once its wait is over.
unfoldable pub write_turn : List ℕ → Progress → Progress
unfolding copy_in
write_turn d p =
    let now = min (length p.ring.buf - p.ring.size_) (p.left - p.written) in
    let (w, r) = copy_in now d p.written p.ring in
    record { written = w; left = p.left - now; ring = r }

-- How `write` stands when the schedule is over.
pub data Result : Type 0 where
  finished : ℕ → ByteRing → Result
  waiting : Progress → Result

-- The ring after a reader has asked for so many bytes, or after none came.
unfoldable pub after_reader : Option ℕ → ByteRing → ByteRing
unfolding read
after_reader none r = r
after_reader (some k) r = let found = read r k in elim found [ none ↦ r | some (out, s) ↦ s ]

-- Each entry of the schedule is what happens before the writer looks at the ring again.
unfoldable pub write_loop : List (Option ℕ) → List ℕ → Progress → Result
write_loop [] d p = if ltb p.written p.left then waiting p else finished p.written p.ring
write_loop (k ∷ ks) d p =
    let r = after_reader k p.ring in
    let seen : Progress = record p { ring = r } in
    let more = write_loop ks d (write_turn d seen) in
    let later = write_loop ks d seen in
    if ltb p.written p.left
    then (if ltb r.size_ (length r.buf) then more else later)
    else finished p.written p.ring

unfoldable pub write : List (Option ℕ) → List ℕ → ByteRing → Result
write schedule d r = write_loop schedule d (record { written = 0; left = length d; ring = r })
