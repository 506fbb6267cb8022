-- ===== src/Player/AudioThread/Filling.antt =====
-- What the callback copies into the stream.
use ix_library.Base.{
  ℕ, zero, suc, ◌+◌, ◌-◌, ◌≤◌, ◌<◌, ◌≢◌, ◌≡◌, refl, sym, ap, subst, ◌∙◌, min, Bool, true, false,
  Bool-cases, Option, none, some, List, [], ◌∷◌, ◌++◌, append_assoc, length, length-append, ne→==,
  lt→ltb, leb, length-take, length-drop, take, drop, take-append-drop, inl, inr, ◌⊎◌, arith,
}
use ix_library.Wire.{Bytes}
use ix_library.Player.RingBuffer.{RingBuffer, returned, read}
use ix_library.Player.RingBuffer.Laws.{IsValid}
use ix_library.Player.AudioThread.{
  AudioData, AudioThread, Ending, filled, silent, waiting, undefined, out_of_fuel, Fetched, playing,
  stopped, taken, fetch, Filled, copied, fill, audio_call_back,
}

-- The bytes of a buffer that are still to be played, and those of all buffers in order.
abbrev pub unplayed : AudioData → Bytes
unplayed d = drop d.pos d.data_

unfoldable pub queued : List AudioData → Bytes
queued [] = []
queued (d ∷ ds) = unplayed d ++ queued ds

abbrev pub at_hand : Option AudioData → Bytes
at_hand none = []
at_hand (some d) = unplayed d

abbrev pub remaining : AudioThread → Bytes
remaining t = at_hand t.audio_read_buf ++ queued t.ring.buf

drop_none : (a : ℕ) → drop {A = ℕ} a [] ≡ []
drop_none zero = refl
drop_none (suc a) = refl

drop_more : (a b : ℕ) (xs : Bytes) → drop (a + b) xs ≡ drop b (drop a xs)
drop_more zero b xs = ap (λ n. drop n xs) (omega arith)
drop_more (suc a) zero [] = ap (λ n. drop n []) {y = suc a} (omega arith) ∙ drop_none (suc a)
drop_more (suc a) (suc b) [] = ap (λ n. drop n []) {y = suc (a + suc b)} (omega arith)
drop_more (suc a) b (x ∷ xs) =
    ap (λ n. drop n (x ∷ xs)) {y = suc (a + b)} (omega arith) ∙ drop_more a b xs

drop_all : (a : ℕ) (xs : Bytes) → length xs ≤ a → drop a xs ≡ []
drop_all zero [] h = refl
drop_all zero (x ∷ xs) h = absurd (omega (arith, h))
drop_all (suc a) [] h = refl
drop_all (suc a) (x ∷ xs) h = drop_all a xs (omega (arith, h))

-- Where a call may stop: neither on the front of an empty queue nor for want of fuel.
abbrev IsWaiting : Ending → Type 0
IsWaiting filled = ⊥
IsWaiting silent = Unit {0}
IsWaiting waiting = Unit {0}
IsWaiting undefined = ⊥
IsWaiting out_of_fuel = ⊥

-- What a fetched buffer is, of a ring `q` and with `front` at hand: the bytes are kept, and the ring
-- loses a buffer where the one at hand has no byte left.
abbrev IsFetched : Bytes → RingBuffer AudioData → Fetched → Type 0
IsFetched front q (playing d r) =
    (front ++ queued q.buf ≡ unplayed d ++ queued r.buf)
    × (IsValid r × (length r.buf + 1 ≤ length q.buf + min 1 (length d.data_ - d.pos)))
IsFetched front q (stopped e r) = (r ≡ q) × ((front ++ queued q.buf ≡ []) × IsWaiting e)

-- A ring with its count right.
abbrev counted_ring : Bool → List AudioData → ℕ → RingBuffer AudioData
counted_ring st b cap = record { stopped = st; size_ = length b; buf = b; capacity = cap }

read-cons :
    (st : Bool) (d : AudioData) (ds : List AudioData) (cap : ℕ)
    → read (counted_ring st (d ∷ ds) cap) ≡ (returned true (some d), counted_ring st ds cap)
unfolding read
read-cons st d ds cap =
    rw
      (
        lt→ltb 0 (suc (length ds)) (omega arith),
        ne→== (suc (length ds)) 0 (λ e. absurd (omega (arith, e))),
      )
      (ap
        (λ n.
          (returned true (some d), record { stopped = st; size_ = n; buf = ds; capacity = cap }))
        (omega arith))

taken_counted :
    (st : Bool) (b : List AudioData) (cap : ℕ)
    → length b ≤ cap
    → IsFetched [] (counted_ring st b cap) (taken (read (counted_ring st b cap)))
unfolding taken read queued
taken_counted true [] cap h = (refl, (refl, tt))
taken_counted false [] cap h = (refl, (refl, tt))
taken_counted st (d ∷ ds) cap h =
    rw (read-cons st d ds cap)
      (refl, (record { counted = refl; bounded = omega (arith, h) }, omega arith))

taken-IsFetched : (q : RingBuffer AudioData) → IsValid q → IsFetched [] q (taken (read q))
taken-IsFetched q v =
    subst (λ n. IsFetched [] (record q { size_ = n }) (taken (read (record q { size_ = n }))))
      (sym v.counted)
      (taken_counted q.stopped q.buf q.capacity (subst (λ n. n ≤ q.capacity) v.counted v.bounded))

fetch-IsFetched :
    (t : AudioThread) → IsValid t.ring → IsFetched (at_hand t.audio_read_buf) t.ring (fetch t)
unfolding fetch
fetch-IsFetched t v = by_buffer t.audio_read_buf refl
  where
    by_buffer :
        (o : Option AudioData)
        → t.audio_read_buf ≡ o
        → IsFetched (at_hand t.audio_read_buf) t.ring (fetch t)
    by_buffer none e = rw e (taken-IsFetched t.ring v)
    by_buffer (some d) e = by_left (Bool-cases (leb (length d.data_) d.pos))
      where
        by_left :
            (leb (length d.data_) d.pos ≡ true) ⊎ (leb (length d.data_) d.pos ≡ false)
            → IsFetched (at_hand t.audio_read_buf) t.ring (fetch t)
        by_left (inl l) =
            rw (e, l, drop_all d.pos d.data_ (ground arith)) (taken-IsFetched t.ring v)
        by_left (inr l) = rw (e, l) (refl, (v, ground arith))

-- What a call has done when it ends, from `t` with `room` bytes to fill.
pub record Fills (room : ℕ) (t : AudioThread) (f : Filled) : Type 0 where
  pub kept : f.stream ++ remaining f.after ≡ remaining t
  pub fits : length f.stream ≤ room
  pub full : f.ending ≡ filled → length f.stream ≡ room
  pub short : f.ending ≢ filled → (remaining f.after ≡ []) × IsWaiting f.ending

-- The bytes of one round in front of what the rest of the loop does.
one_more :
    (room k : ℕ) (bytes others : Bytes) (t next : AudioThread) (rest : Filled)
    → k ≤ room
    → k ≤ length bytes
    → remaining t ≡ bytes ++ others
    → remaining next ≡ drop k bytes ++ others
    → Fills (room - k) next rest
    → Fills room t (record rest { stream = take k bytes ++ rest.stream })
one_more room k bytes others t next rest in_room in_bytes before after f = record {
  kept =
      append_assoc (take k bytes) rest.stream (remaining rest.after)
      ∙ ap (λ l. take k bytes ++ l) (f.kept ∙ after)
      ∙ sym (append_assoc (take k bytes) (drop k bytes) others)
      ∙ ap (λ l. l ++ others) (take-append-drop k bytes)
      ∙ sym before;
  fits = omega (
    arith,
    length-append (take k bytes) rest.stream,
    length-take k bytes,
    f.fits,
    in_room,
    in_bytes,
  );
  full = λ e. omega (
    arith,
    length-append (take k bytes) rest.stream,
    length-take k bytes,
    f.full e,
    in_room,
    in_bytes,
  );
  short = f.short;
}

Fills-stopped :
    (room : ℕ) (t : AudioThread) (e : Ending)
    → remaining t ≡ []
    → IsWaiting e
    → Fills room t (record { stream = []; ending = e; after = t })
Fills-stopped room t e none_left w = record {
  kept = refl;
  fits = omega arith;
  full = λ h. absurd (subst IsWaiting h w);
  short = λ h. (none_left, w);
}

fill-Fills :
    (fuel frame room : ℕ) (t : AudioThread)
    → IsValid t.ring
    → room + length t.ring.buf < fuel
    → Fills room t (fill fuel frame room t)
unfolding fill
fill-Fills zero frame room t v h = absurd (omega (arith, h))
fill-Fills (suc fuel) frame zero t v h = record {
  kept = refl;
  fits = omega arith;
  full = λ e. refl;
  short = λ e. absurd (e refl);
}
fill-Fills (suc fuel) frame (suc space) t v h =
    by_fetch (λ room u w l. fill-Fills fuel frame room u w l) (fetch t) refl (fetch-IsFetched t v)
  where
    by_fetch :
        ((room : ℕ) (u : AudioThread)
          → IsValid u.ring
          → room + length u.ring.buf < fuel
          → Fills room u (fill fuel frame room u))
        → (o : Fetched) → fetch t ≡ o
        → IsFetched (at_hand t.audio_read_buf) t.ring o
        → Fills (suc space) t (fill (suc fuel) frame (suc space) t)
    by_fetch again (stopped e r) q (same, (none_left, w)) =
        rw (q, fill, same) (Fills-stopped (suc space) t e none_left w)
    by_fetch again (playing d r) q (same, (valid, less)) =
        let k = min (suc space) (length d.data_ - d.pos) in
        let next : AudioThread = copied frame k d r t.played_samples in
        rw (q, fill)
          (one_more (suc space) k (unplayed d) (queued r.buf) t next
            (fill fuel frame (suc space - k) next) (omega arith)
            (omega (arith, length-drop d.pos d.data_)) same
            (ap (λ l. l ++ queued r.buf) (drop_more d.pos k d.data_))
            (again (suc space - k) next valid (omega (arith, h, less))))

-- Whatever the decoder has queued, a call copies at most `len` bytes; what it copies and what is left
-- to play after it are, in this order, what was left before it. It stops short of `len` only when no
-- byte is left, and then because the ring was stopped or its `read` waits.
pub audio_call_back_fits :
    (frame len : ℕ) (t : AudioThread) → IsValid t.ring → Fills len t (audio_call_back frame len t)
unfolding audio_call_back
audio_call_back_fits frame len t v =
    fill-Fills (suc (len + length t.ring.buf)) frame len t v (omega arith)
