-- ===== src/Socket/Packets/Pieces.antt =====
-- The client reads the same messages whatever pieces the bytes come in.
use ix_library.Base.{
  ℕ, zero, suc, ◌+◌, ◌<◌, ◌≤◌, ◌≡◌, refl, ap, sym, ◌∙◌, true, false, List, [], ◌∷◌, ◌++◌, length,
  take, drop, ltb, arith, length-append, length-drop, take-append, drop-append, le→ltb, ltb→le,
  Bool-cases, append-nil, append_assoc, ◌⊎◌, inl, inr,
}
use ix_library.Wire.{Bytes, header_size, load}
use ix_library.Session.Reading.{load-append}
use ix_library.Session.Stream.{concat}
use ix_library.Socket.Packets.{
  from_layout, Client, Delivery, DataStores, wait, packet, got, handle_packet, receive_round,
  prepend, drain, receive, receive_all,
}

-- More bytes at the end of the buffer.
abbrev pub more : Client → Bytes → Client
more c xs = record c { recv_buffer = c.recv_buffer ++ xs }

abbrev drain_all : Client → Client × List Delivery
drain_all c = drain (length c.recv_buffer) c

abbrev announced_size : Client → ℕ
announced_size c = (from_layout (load c.recv_buffer)).residual_byte

abbrev handled : Client → DataStores × List Delivery
handled c =
    handle_packet (from_layout (load c.recv_buffer))
      (take (announced_size c) (drop header_size c.recv_buffer)) c.data_stores

abbrev IsReady : Client → Type 0
IsReady c =
    (header_size ≤ length c.recv_buffer) × (header_size + announced_size c ≤ length c.recv_buffer)

abbrev after : Client → Client
after c = record {
  recv_buffer = drop (header_size + announced_size c) c.recv_buffer;
  data_stores = (handled c).0;
}

pub round_ready : (c : Client) → IsReady c → receive_round c ≡ packet (after c) (handled c).1
unfolding receive_round
round_ready c (h, t) =
    rw
      (
        le→ltb (length c.recv_buffer) header_size h,
        le→ltb (length c.recv_buffer) (header_size + announced_size c) t,
      )
      refl

IsReady-cases : (c : Client) → (receive_round c ≡ wait) ⊎ IsReady c
unfolding receive_round
IsReady-cases c = by_header (Bool-cases (ltb (length c.recv_buffer) header_size))
  where
    by_total :
        header_size ≤ length c.recv_buffer
        → (ltb (length c.recv_buffer) (header_size + announced_size c) ≡ true)
          ⊎ (ltb (length c.recv_buffer) (header_size + announced_size c) ≡ false)
        → (receive_round c ≡ wait) ⊎ IsReady c
    by_total h (inl e) = inl (rw (le→ltb (length c.recv_buffer) header_size h, e) refl)
    by_total h (inr e) = inr (h, ltb→le (length c.recv_buffer) (header_size + announced_size c) e)

    by_header :
        (ltb (length c.recv_buffer) header_size ≡ true)
          ⊎ (ltb (length c.recv_buffer) header_size ≡ false)
        → (receive_round c ≡ wait) ⊎ IsReady c
    by_header (inl e) = inl (rw e refl)
    by_header (inr e) =
        by_total (ltb→le (length c.recv_buffer) header_size e)
          (Bool-cases (ltb (length c.recv_buffer) (header_size + announced_size c)))

-- A packet that is there is handled the same when more bytes follow.
round-more :
    (c : Client) (xs : Bytes)
    → IsReady c
    → receive_round (more c xs) ≡ packet (more (after c) xs) (handled c).1
round-more c xs r =
    let same = load-append c.recv_buffer xs r.0 in
    let ready : IsReady (more c xs) = (
      omega (arith, length-append c.recv_buffer xs, r.0),
      rw (same, announced_size) (omega (arith, length-append c.recv_buffer xs, r.1)),
    ) in
    let body : take (announced_size c) (drop header_size (c.recv_buffer ++ xs))
        ≡ take (announced_size c) (drop header_size c.recv_buffer) =
      ap (take (announced_size c)) (drop-append header_size c.recv_buffer xs r.0)
      ∙ take-append (announced_size c) (drop header_size c.recv_buffer) xs
          (omega (arith, length-drop header_size c.recv_buffer, r.1)) in
    let rest = drop-append (header_size + announced_size c) c.recv_buffer xs r.1 in
    round_ready (more c xs) ready
    ∙ (λ i.
        let header = from_layout (same i) in
        let result =
          handle_packet header (take header.residual_byte (drop header_size (c.recv_buffer ++ xs)))
            c.data_stores in
        packet
          (record {
            recv_buffer = drop (header_size + header.residual_byte) (c.recv_buffer ++ xs);
            data_stores = result.0;
          })
          result.1)
    ∙ (λ i.
        let result = handle_packet (from_layout (load c.recv_buffer)) (body i) c.data_stores in
        packet (record { recv_buffer = rest i; data_stores = result.0 }) result.1)

shorter : (c : Client) → IsReady c → length (after c).recv_buffer < length c.recv_buffer
shorter c r = omega (arith, length-drop (header_size + announced_size c) c.recv_buffer, r.0, r.1)

pub drain-wait : (n : ℕ) (c : Client) → receive_round c ≡ wait → drain n c ≡ (c, [])
unfolding drain
drain-wait zero c e = refl
drain-wait (suc n) c e = rw (e, drain) refl

-- More fuel than the buffer has bytes changes nothing.
pub drain-fuel :
    (n m : ℕ) (c : Client)
    → length c.recv_buffer ≤ n
    → length c.recv_buffer ≤ m
    → drain n c ≡ drain m c
unfolding drain
drain-fuel zero zero c p q = refl
drain-fuel zero (suc m) c p q = by_round (IsReady-cases c)
  where
    by_round : (receive_round c ≡ wait) ⊎ IsReady c → drain zero c ≡ drain (suc m) c
    by_round (inl e) = sym (drain-wait (suc m) c e)
    by_round (inr r) = absurd (omega (arith, r.0))
drain-fuel (suc n) zero c p q = by_round (IsReady-cases c)
  where
    by_round : (receive_round c ≡ wait) ⊎ IsReady c → drain (suc n) c ≡ drain zero c
    by_round (inl e) = drain-wait (suc n) c e
    by_round (inr r) = absurd (omega (arith, r.0))
drain-fuel (suc n) (suc m) c p q = by_round (drain-fuel n m (after c)) (IsReady-cases c)
  where
    by_round :
        (length (after c).recv_buffer ≤ n
          → length (after c).recv_buffer ≤ m
          → drain n (after c) ≡ drain m (after c))
        → (receive_round c ≡ wait) ⊎ IsReady c
        → drain (suc n) c ≡ drain (suc m) c
    by_round ih (inl e) = rw (e, drain) refl
    by_round ih (inr r) =
        rw (round_ready c r, drain)
          (ap (prepend (handled c).1)
            (ih (omega (arith, shorter c r)) (omega (arith, shorter c r))))

-- One packet is taken off, and the rest is read.
pub drain-packet :
    (n : ℕ) (c d : Client) (out : List Delivery)
    → receive_round c ≡ packet d out
    → drain (suc n) c ≡ prepend out (drain n d)
unfolding drain
drain-packet n c d out e = rw (e, drain) refl

drain_all-packet :
    (c : Client) (xs : Bytes)
    → IsReady c
    → drain_all (more c xs) ≡ prepend (handled c).1 (drain_all (more (after c) xs))
drain_all-packet c xs r =
    let size = length (c.recv_buffer ++ xs) in
    let fewer : length ((after c).recv_buffer ++ xs) ≤ size = omega (
      arith,
      length-append c.recv_buffer xs,
      length-append (after c).recv_buffer xs,
      shorter c r,
    ) in
    drain-fuel size (suc size) (more c xs) (omega arith) (omega arith)
    ∙ drain-packet size (more c xs) (more (after c) xs) (handled c).1 (round-more c xs r)
    ∙ ap (prepend (handled c).1) (
        drain-fuel size (length ((after c).recv_buffer ++ xs)) (more (after c) xs) fewer
          (omega arith))

pub prepend-prepend :
    (us vs : List Delivery) (r : Client × List Delivery)
    → prepend us (prepend vs r) ≡ prepend (us ++ vs) r
prepend-prepend us vs r = ap (λ ws. (r.0, ws)) (sym (append_assoc us vs r.1))

drain-more :
    (n : ℕ) (c : Client) (xs : Bytes)
    → length c.recv_buffer ≤ n
    → drain_all (more c xs) ≡ prepend (drain n c).1 (drain_all (more (drain n c).0 xs))
unfolding drain
drain-more zero c xs p = refl
drain-more (suc n) c xs p = by_round (drain-more n (after c) xs) (IsReady-cases c)
  where
    by_round :
        (length (after c).recv_buffer ≤ n
          → drain_all (more (after c) xs)
            ≡ prepend (drain n (after c)).1 (drain_all (more (drain n (after c)).0 xs)))
        → (receive_round c ≡ wait) ⊎ IsReady c
        → drain_all (more c xs)
          ≡ prepend (drain (suc n) c).1 (drain_all (more (drain (suc n) c).0 xs))
    by_round ih (inl e) = rw (drain-wait (suc n) c e) refl
    by_round ih (inr r) = rw (drain-packet n c (after c) (handled c).1 (round_ready c r)) (
        drain_all-packet c xs r
        ∙ ap (prepend (handled c).1) (ih (omega (arith, shorter c r)))
        ∙ prepend-prepend (handled c).1 (drain n (after c)).1
            (drain_all (more (drain n (after c)).0 xs)))

drain-waits : (n : ℕ) (c : Client) → length c.recv_buffer ≤ n → receive_round (drain n c).0 ≡ wait
unfolding drain
drain-waits zero c p = by_round (IsReady-cases c)
  where
    by_round : (receive_round c ≡ wait) ⊎ IsReady c → receive_round c ≡ wait
    by_round (inl e) = e
    by_round (inr r) = absurd (omega (arith, r.0))
drain-waits (suc n) c p = by_round (drain-waits n (after c)) (IsReady-cases c)
  where
    by_round :
        (length (after c).recv_buffer ≤ n → receive_round (drain n (after c)).0 ≡ wait)
        → (receive_round c ≡ wait) ⊎ IsReady c
        → receive_round (drain (suc n) c).0 ≡ wait
    by_round ih (inl e) = rw (drain-wait (suc n) c e) e
    by_round ih (inr r) =
        rw (drain-packet n c (after c) (handled c).1 (round_ready c r))
          (ih (omega (arith, shorter c r)))

-- A client that has handled every whole packet in its buffer makes the same deliveries, and ends in
-- the same state, when the bytes come in pieces as when they come at once.
pub receive_all-concat :
    (c : Client) (pieces : List Bytes)
    → receive_round c ≡ wait
    → receive_all c pieces ≡ receive c (got (concat pieces))
unfolding receive receive_all
receive_all-concat c [] w =
    let all = append-nil c.recv_buffer in
    sym (drain-wait (length (c.recv_buffer ++ [])) (more c []) (rw all w) ∙ rw all refl)
receive_all-concat c (p ∷ ps) w =
    let first = drain_all (more c p) in
    let ih =
      receive_all-concat first.0 ps
        (drain-waits (length (c.recv_buffer ++ p)) (more c p) (omega arith)) in
    ap (prepend first.1) ih
    ∙ sym (drain-more (length (c.recv_buffer ++ p)) (more c p) (concat ps) (omega arith))
    ∙ ap (λ b. drain_all (record c { recv_buffer = b })) (append_assoc c.recv_buffer p (concat ps))
