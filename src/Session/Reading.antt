-- ===== src/Session/Reading.antt =====
-- Lemmas on single rounds of `process_data`.
use ix_library.Base.{
  ℕ, zero, suc, ◌+◌, ◌%◌, ◌≤◌, ◌<◌, ◌≡◌, inl, inr, refl, none, some, [], ◌∷◌, ◌++◌, length, drop,
  get_or, ltb, arith, length-append, length-drop, drop-append, Bool-cases, take_prefix, drop_prefix,
  lt→ltb, le→ltb,
}
use ix_library.Wire.{Bytes, Agreement, header_size, handle_ntohl, load, load_word}
use ix_library.Session.{
  Session, Segments, packet, emplace, fragments_of, touch, erase_segment, trim_and_get_header,
  process_packet,
}

get_or-append : (xs ys : Bytes) (i d : ℕ) → i < length xs → get_or (xs ++ ys) i d ≡ get_or xs i d
get_or-append [] ys i d h = absurd (omega arith)
get_or-append (x ∷ xs) ys zero d h = refl
get_or-append (x ∷ xs) ys (suc i) d h = get_or-append xs ys i d (omega arith)

load_word-append : (xs ys : Bytes) → 4 ≤ length xs → load_word (xs ++ ys) ≡ load_word xs
unfolding load_word
load_word-append xs ys h =
    rw
      (
        get_or-append xs ys 0 0 (omega arith),
        get_or-append xs ys 1 0 (omega arith),
        get_or-append xs ys 2 0 (omega arith),
        get_or-append xs ys 3 0 (omega arith),
      )
      refl

word_at :
    (k : ℕ) (xs ys : Bytes)
    → k + 4 ≤ length xs
    → load_word (drop k (xs ++ ys)) ≡ load_word (drop k xs)
word_at k xs ys h =
    rw (drop-append k xs ys (omega arith))
      (load_word-append (drop k xs) ys (omega (arith, length-drop k xs)))

-- Only the first twenty bytes are read as a header.
pub load-append : (xs ys : Bytes) → header_size ≤ length xs → load (xs ++ ys) ≡ load xs
unfolding load
load-append xs ys h = λ i. record {
  message_id = load_word-append xs ys (omega arith) i;
  fragment_id = word_at 4 xs ys (omega arith) i;
  this_size = word_at 8 xs ys (omega arith) i;
  fragments_count = word_at 12 xs ys (omega arith) i;
  json_size = word_at 16 xs ys (omega arith) i;
}

-- No fragment is stored: every buffer of `segments` is empty.
abbrev pub IsFresh : Segments → Type 0
IsFresh [] = Unit {0}
IsFresh ((k, m) ∷ s) = (m ≡ []) × IsFresh s

pub fragments_of-IsFresh : (k : ℕ) (s : Segments) → IsFresh s → fragments_of k s ≡ []
unfolding fragments_of
fragments_of-IsFresh k [] h = refl
fragments_of-IsFresh k ((j, m) ∷ s) h = ground (arith, fragments_of-IsFresh k s h.1)

pub touch-IsFresh : (k : ℕ) (s : Segments) → IsFresh s → IsFresh (touch k s)
unfolding touch
touch-IsFresh k [] h = (refl, tt)
touch-IsFresh k ((j, m) ∷ s) h = ground (arith, touch-IsFresh k s h.1)

pub erase_segment-IsFresh : (k : ℕ) (s : Segments) → IsFresh s → IsFresh (erase_segment k s)
unfolding erase_segment
erase_segment-IsFresh k [] h = tt
erase_segment-IsFresh k ((j, m) ∷ s) h = ground (arith, erase_segment-IsFresh k s h.1)

-- The header check, when it passes.
pub trim_ready :
    (buf : Bytes) (h : Agreement)
    → header_size ≤ length buf
    → handle_ntohl (load buf) ≡ h
    → (h.this_size + header_size) % 4294967296 ≤ length buf
    → trim_and_get_header buf ≡ some (h, drop header_size buf)
unfolding trim_and_get_header
trim_ready buf h size e fits =
    rw (le→ltb (length buf) header_size size, e, le→ltb (length buf) _ fits) refl

-- The buffer ends inside the header, or inside the body that the header announces.
pub trim_short :
    (buf : Bytes) (h : Agreement)
    → (header_size ≤ length buf → handle_ntohl (load buf) ≡ h)
    → h.this_size + header_size < 4294967296
    → length buf < h.this_size + header_size
    → trim_and_get_header buf ≡ none
unfolding trim_and_get_header
trim_short buf h e small short = elim (Bool-cases (ltb (length buf) header_size)) [
  | inl cut ↦ rw cut refl
  | inr there ↦
      rw
        (
          there,
          e (ground arith),
          lt→ltb (length buf) ((h.this_size + header_size) % 4294967296) (omega arith),
        )
        refl
]

-- A whole body of the only fragment of a message, with `segments` still fresh: the message is
-- posted, and the bytes behind it stay.
pub packet_single :
    (s : Session) (h : Agreement) (body rest : Bytes)
    → IsFresh s.segments
    → h.this_size ≡ length body
    → h.fragments_count ≡ 1
    → process_packet s h (body ++ rest)
      ≡ packet
          (record {
            recv_buffer = rest;
            segments = erase_segment h.message_id (touch h.message_id s.segments);
          })
          (some (record { fragments = (h.fragment_id, body) ∷ []; json_size = h.json_size }))
unfolding process_packet emplace
packet_single s h body rest fresh size one =
    rw
      (
        size,
        one,
        fragments_of-IsFresh h.message_id s.segments fresh,
        take_prefix body rest,
        drop_prefix body rest,
        le→ltb (length (body ++ rest)) (length body) (omega (arith, length-append body rest)),
      )
      refl
