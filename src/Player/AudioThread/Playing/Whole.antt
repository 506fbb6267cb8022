-- ===== src/Player/AudioThread/Playing/Whole.antt =====
-- What the audio thread of the player hands to the sound card, and what becomes of the other frames.
use ix_library.Base.{
  ℕ, ◌-◌, ◌≡◌, ◌⊎◌, inl, inr, refl, ap, sym, ◌∙◌, Bool, true, false, none, some, List, [], ◌∷◌,
  ◌++◌, ltb, lt→leb, ltb→lt, if◌then◌else◌, Bool-cases, List-cases, append_assoc, append-nil,
  length, length-append, map, arith,
}
use ix_library.Wire.{Bytes}
use ix_library.Player.RingBuffer.Laws.{IsValid}
use ix_library.Player.RingBuffer.{RingBuffer, blocked, returned, read, write, stop, clear, pop_all}
use ix_library.Player.AudioThread.Playing.{
  Frame, Other, adds, ends, clears_ring, Leaving, read_out, thrown_away, Event, pauses, resumes,
  clears, queues, Tick, Player, Turn, next, last, reading, filling, undefined, other, others, heard,
  fill_card, play_frame, after_read, turn, turns,
}

-- The samples that the sound card was given.
abbrev pub played : List Event → List Bytes
played [] = []
played (queues b ∷ es) = b ∷ played es
played (pauses ∷ es) = played es
played (resumes ∷ es) = played es
played (clears ∷ es) = played es

-- The frames that left the ring, and the samples of those that were read out of it.
abbrev pub frames_of : {T : Type 0} → List (Leaving T) → List (Frame T)
frames_of [] = []
frames_of (read_out f ∷ gs) = f ∷ frames_of gs
frames_of (thrown_away f ∷ gs) = f ∷ frames_of gs

abbrev pub read_samples : {T : Type 0} → List (Leaving T) → List Bytes
read_samples [] = []
read_samples (read_out f ∷ gs) = f.samples ∷ read_samples gs
read_samples (thrown_away f ∷ gs) = read_samples gs

-- The frames that left the ring, then those in it, are those that were added; the sound card was
-- given those that left it by `read`.
pub record IsWhole {T : Type 0} (p : Player T) : Type 0 where
  pub valid : IsValid p.ring
  pub kept : frames_of p.gone ++ p.ring.buf ≡ p.added
  pub given : played p.events ≡ read_samples p.gone

-- At the end of the loop all that was added has left the ring.
pub record IsOver {T : Type 0} (p : Player T) : Type 0 where
  pub stopped : p.ring.stopped ≡ true
  pub all_gone : frames_of p.gone ≡ p.added
  pub all_given : played p.events ≡ read_samples p.gone

abbrev pub EndsWhole : {T : Type 0} → Turn T → Type 0
EndsWhole (next p) = IsWhole p
EndsWhole (last p) = IsOver p
EndsWhole (reading p) = IsWhole p
EndsWhole (filling p) = IsWhole p
EndsWhole undefined = ⊥

played-append : (xs ys : List Event) → played (xs ++ ys) ≡ played xs ++ played ys
played-append [] ys = refl
played-append (pauses ∷ xs) ys = played-append xs ys
played-append (resumes ∷ xs) ys = played-append xs ys
played-append (clears ∷ xs) ys = played-append xs ys
played-append (queues b ∷ xs) ys = ap (λ l. b ∷ l) (played-append xs ys)

frames_of-append :
    {T : Type 0} (xs ys : List (Leaving T)) → frames_of (xs ++ ys) ≡ frames_of xs ++ frames_of ys
frames_of-append [] ys = refl
frames_of-append (read_out x ∷ xs) ys = ap (λ l. x ∷ l) (frames_of-append xs ys)
frames_of-append (thrown_away x ∷ xs) ys = ap (λ l. x ∷ l) (frames_of-append xs ys)

read_samples-append :
    {T : Type 0} (xs ys : List (Leaving T))
    → read_samples (xs ++ ys) ≡ read_samples xs ++ read_samples ys
read_samples-append [] ys = refl
read_samples-append (read_out x ∷ xs) ys = ap (λ l. x.samples ∷ l) (read_samples-append xs ys)
read_samples-append (thrown_away x ∷ xs) ys = read_samples-append xs ys

frames_of-thrown : {T : Type 0} (fs : List (Frame T)) → frames_of (map thrown_away fs) ≡ fs
frames_of-thrown [] = refl
frames_of-thrown (f ∷ fs) = ap (λ l. f ∷ l) (frames_of-thrown fs)

read_samples-thrown : {T : Type 0} (fs : List (Frame T)) → read_samples (map thrown_away fs) ≡ []
read_samples-thrown [] = refl
read_samples-thrown (f ∷ fs) = read_samples-thrown fs

pop_all-none : {T : Type 0} (fs : List (Frame T)) (n : ℕ) → length fs ≡ n → pop_all fs n ≡ 0
unfolding pop_all
pop_all-none [] n e = omega (arith, e)
pop_all-none (f ∷ fs) n e = pop_all-none fs (n - 1) (omega (arith, e))

other-IsWhole : {T : Type 0} (o : Other T) (p : Player T) → IsWhole p → IsWhole (other o p)
unfolding other write stop clear
other-IsWhole ends p h = record {
  valid = record { counted = h.valid.counted; bounded = h.valid.bounded };
  kept = h.kept;
  given = h.given;
}
other-IsWhole clears_ring p h = record {
  valid = record {
    counted = pop_all-none p.ring.buf p.ring.size_ (sym h.valid.counted);
    bounded = omega (arith, pop_all-none p.ring.buf p.ring.size_ (sym h.valid.counted));
  };
  kept =
      append-nil (frames_of (p.gone ++ map thrown_away p.ring.buf))
      ∙ frames_of-append p.gone (map thrown_away p.ring.buf)
      ∙ ap (λ l. frames_of p.gone ++ l) (frames_of-thrown p.ring.buf)
      ∙ h.kept;
  given =
      h.given
      ∙ sym (
          read_samples-append p.gone (map thrown_away p.ring.buf)
          ∙ ap (λ l. read_samples p.gone ++ l) (read_samples-thrown p.ring.buf)
          ∙ append-nil (read_samples p.gone));
}
other-IsWhole (adds f) p h = elim (Bool-cases (ltb p.ring.size_ p.ring.capacity)) [
  | inl e ↦
      let room = ltb→lt p.ring.size_ p.ring.capacity e in
      rw (e, lt→leb p.ring.capacity p.ring.size_ room)
        (record {
          valid = record {
            counted = omega (arith, h.valid.counted, length-append p.ring.buf (f ∷ []));
            bounded = omega (arith, room);
          };
          kept =
              sym (append_assoc (frames_of p.gone) p.ring.buf (f ∷ []))
              ∙ ap (λ l. l ++ (f ∷ [])) h.kept;
          given = h.given;
        })
  | inr e ↦ rw e (record { valid = h.valid; kept = h.kept; given = h.given })
]

others-IsWhole :
    {T : Type 0} (os : List (Other T)) (p : Player T) → IsWhole p → IsWhole (others os p)
unfolding others
others-IsWhole [] p h = h
others-IsWhole (o ∷ os) p h = others-IsWhole os (other o p) (other-IsWhole o p h)

nothing_played :
    (b c : Bool)
    → played ((if b then pauses ∷ resumes ∷ [] else []) ++ (if c then clears ∷ [] else [])) ≡ []
nothing_played true true = refl
nothing_played true false = refl
nothing_played false true = refl
nothing_played false false = refl

heard-IsWhole : {T : Type 0} (t : Tick T) (p : Player T) → IsWhole p → IsWhole (heard t p)
unfolding heard
heard-IsWhole t p h = record {
  valid = h.valid;
  kept = h.kept;
  given =
      played-append p.events (
        (if t.is_paused then pauses ∷ resumes ∷ [] else [])
        ++ (if t.clear_asked then clears ∷ [] else []))
      ∙ ap (λ l. played p.events ++ l) (nothing_played t.is_paused t.clear_asked)
      ∙ append-nil (played p.events)
      ∙ h.given;
}

-- What `read` answers of a valid ring.
data Answer {A : Type 0} (r : RingBuffer A) : Type 0 where
  waits : read r ≡ (blocked, r) → Answer r
  over : read r ≡ (returned false none, r) → r.buf ≡ [] → r.stopped ≡ true → Answer r
  gives :
      (x : A) (rest : List A)
      → r.buf ≡ x ∷ rest
      → read r ≡ (returned true (some x), record r { buf = rest; size_ = r.size_ - 1 })
      → Answer r

read-Answer : {A : Type 0} (r : RingBuffer A) → IsValid r → Answer r
unfolding read
read-Answer {A} r v = by_buf (List-cases r.buf) (Bool-cases r.stopped)
  where
    by_buf :
        (r.buf ≡ []) ⊎ ((x : A) × (rest : List A) × (r.buf ≡ x ∷ rest))
        → ((r.stopped ≡ true) ⊎ (r.stopped ≡ false))
        → Answer r
    by_buf (inl e) (inl s) = over (ground (arith, v.counted, ap length e)) e s
    by_buf (inl e) (inr s) = waits (ground (arith, v.counted, ap length e))
    by_buf (inr (x, rest, e)) s = gives x rest e (ground (arith, v.counted, ap length e))

module _ {T : Type 0} (clock_of : T → ℕ → T) where
  fill_card-EndsWhole :
      (pts : T) (n : ℕ) (later : List (ℕ × ℕ)) (p : Player T)
      → IsWhole p
      → EndsWhole (fill_card clock_of pts n later p)
  unfolding fill_card
  fill_card-EndsWhole pts n [] p h = elim (Bool-cases (ltb 192000 n)) [
    | inl e ↦ rw e h
    | inr e ↦ rw e h
  ]
  fill_card-EndsWhole pts n ((k, m) ∷ later) p h = elim (Bool-cases (ltb 192000 n)) [
    | inl e ↦ rw e (
        fill_card-EndsWhole pts k later (record p { audio_clock = clock_of pts m })
          (record { valid = h.valid; kept = h.kept; given = h.given }))
    | inr e ↦ rw e h
  ]

  after_read-EndsWhole :
      (t : Tick T) (p : Player T) → IsWhole p → EndsWhole (after_read clock_of t (read p.ring) p)
  unfolding after_read play_frame
  after_read-EndsWhole t p h = elim (read-Answer p.ring h.valid) [
    | waits e ↦ rw e (record { valid = h.valid; kept = h.kept; given = h.given })
    | over e empty s ↦ rw e (record {
      stopped = s;
      all_gone =
          sym (append-nil (frames_of p.gone))
          ∙ ap (λ b. frames_of p.gone ++ b) (sym empty)
          ∙ h.kept;
      all_given =
          played-append p.events (if t.clear_at_end then clears ∷ [] else [])
          ∙ ap (λ l. played p.events ++ l) (nothing_played false t.clear_at_end)
          ∙ append-nil (played p.events)
          ∙ h.given;
    })
    | gives f rest e q ↦ rw q (
        fill_card-EndsWhole f.pts t.queued_after t.queued_later _ (record {
          valid = record {
            counted = omega (arith, h.valid.counted, ap length e);
            bounded = omega (arith, h.valid.bounded);
          };
          kept =
              ap (λ l. l ++ rest) (frames_of-append p.gone (read_out f ∷ []))
              ∙ append_assoc (frames_of p.gone) (f ∷ []) rest
              ∙ ap (λ b. frames_of p.gone ++ b) (sym e)
              ∙ h.kept;
          given =
              played-append p.events (queues f.samples ∷ [])
              ∙ ap (λ l. l ++ (f.samples ∷ [])) h.given
              ∙ sym (read_samples-append p.gone (read_out f ∷ []));
        }))
  ]

  -- From a player in which the frames that left the ring, then those in it, are those that were added,
  -- and the sound card was given those that were read: through all the turns that stays so, whatever
  -- the sound card answers and the decoder's thread calls, `clear_buffer` too, and `front` is never
  -- called on an empty queue. When the loop ends, the ring was stopped and every frame that was added
  -- has left it, once and in order: to the sound card, or thrown away by a `clear_buffer`.
  pub turns-EndsWhole :
      (ts : List (Tick T)) (p : Player T) → IsWhole p → EndsWhole (turns clock_of ts p)
  unfolding turns turn
  turns-EndsWhole [] p h = h
  turns-EndsWhole (t ∷ ts) p h =
      let q = others t.meanwhile (heard t p) in
      by_turn (λ v w. turns-EndsWhole ts v w) (turn clock_of t p)
        (after_read-EndsWhole t q (others-IsWhole t.meanwhile (heard t p) (heard-IsWhole t p h)))
    where
      go : Turn T → Turn T
      go (next v) = turns clock_of ts v
      go (last v) = last v
      go (reading v) = reading v
      go (filling v) = filling v
      go undefined = undefined

      by_turn :
          ((v : Player T) → IsWhole v → EndsWhole (turns clock_of ts v))
          → (r : Turn T) → EndsWhole r
          → EndsWhole (go r)
      by_turn ih (next v) w = ih v w
      by_turn ih (last v) w = w
      by_turn ih (reading v) w = w
      by_turn ih (filling v) w = w
      by_turn ih undefined w = w
