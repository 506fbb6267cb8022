-- ===== src/Player/AudioThread/Playing.antt =====
-- `AudioThread::run` of projects/龙卷风播放器/src/AudioThread/AudioThread.cpp: the loop that hands the frames
-- of the ring to the sound card. What SDL answers, and what the other threads do meanwhile, are
-- inputs of each turn; `added` records the frames that a write has put into the ring, `gone` those
-- that left it. `clock_of pts
-- queued` is calc_audio_clock, on `double`s; all frames have one `format`.
pub mod Whole
use ix_library.Base.{
  ℕ, zero, suc, ◌+◌, ◌<◌, ◌≡◌, refl, ap, sym, ◌∙◌, Bool, true, false, Option, none, some, List, [],
  ◌∷◌, ◌++◌, ltb, ◌==◌, ◌&&◌, ◌||◌, if◌then◌else◌, append_assoc, append-nil, length, map, arith,
}
use ix_library.Wire.{Bytes}
use ix_library.Player.RingBuffer.{RingBuffer, Reply, blocked, returned, read, write, stop, clear}

pub record Frame (T : Type 0) : Type 0 where
  pub pts : T
  pub samples : Bytes

-- What the decoder's thread calls: `add_audio_frame`, with a frame or with null, and `clear_buffer`.
pub data Other (T : Type 0) : Type 0 where
  adds : Frame T → Other T
  ends clears_ring : Other T

pub data Event : Type 0 where
  pauses resumes clears : Event
  queues : Bytes → Event

-- What a turn reads: `isPaused` and `clear_SDL_QueueAudio` at their tests, what is called before `read`
-- returns, the answers of SDL_GetQueuedAudioSize for the clock and after SDL_QueueAudio, those of each
-- round of the inner loop, for its test and for the clock, and `clear_SDL_QueueAudio` when the ring is
-- at its end.
pub record Tick (T : Type 0) : Type 0 where
  pub is_paused : Bool
  pub clear_asked : Bool
  pub meanwhile : List (Other T)
  pub queued_before : ℕ
  pub queued_after : ℕ
  pub queued_later : List (ℕ × ℕ)
  pub clear_at_end : Bool

-- How a frame left the ring: the loop read it, or `clear` threw it away.
pub data Leaving (T : Type 0) : Type 0 where
  read_out thrown_away : Frame T → Leaving T

pub record Player (T : Type 0) : Type 0 where
  pub ring : RingBuffer (Frame T)
  pub at_hand : Option (Frame T)
  pub audio_clock : T
  pub events : List Event
  pub added : List (Frame T)
  pub gone : List (Leaving T)

-- How a turn ends: the next turn, the last one, a `read` that still waits, a sound card that still
-- has too much, or `front` of an empty queue.
pub data Turn (T : Type 0) : Type 0 where
  next : Player T → Turn T
  last : Player T → Turn T
  reading : Player T → Turn T
  filling : Player T → Turn T
  undefined : Turn T

module _ {T : Type 0} where
  abbrev pub if_written : Frame T → Reply (Frame T) → List (Frame T) → List (Frame T)
  if_written f (returned true x) fs = fs ++ (f ∷ [])
  if_written f (returned false x) fs = fs
  if_written f blocked fs = fs

  unfoldable pub other : Other T → Player T → Player T
  other (adds f) p =
      let (reply, r) = write p.ring f in record p { ring = r; added = if_written f reply p.added }
  other ends p = record p { ring = stop p.ring }
  other clears_ring p = record p {
    ring = clear p.ring;
    gone = p.gone ++ map thrown_away p.ring.buf;
  }

  unfoldable pub others : List (Other T) → Player T → Player T
  unfolding other
  others [] p = p
  others (o ∷ os) p = others os (other o p)

  -- The waiting on `pause_cv` and the clearing of SDL's queue.
  unfoldable pub heard : Tick T → Player T → Player T
  heard t p =
      let paused = if t.is_paused then pauses ∷ resumes ∷ [] else [] in
      let cleared = if t.clear_asked then clears ∷ [] else [] in
      record p { events = p.events ++ (paused ++ cleared) }

module _ {T : Type 0} (clock_of : T → ℕ → T) where
  -- The inner loop: `queued_bytes`, and the answers of the rounds.
  unfoldable pub fill_card : T → ℕ → List (ℕ × ℕ) → Player T → Turn T
  fill_card pts queued_bytes [] p = if ltb 192000 queued_bytes then filling p else next p
  fill_card pts queued_bytes ((n, m) ∷ later) p =
      let more = fill_card pts n later (record p { audio_clock = clock_of pts m }) in
      if ltb 192000 queued_bytes then more else next p

  unfoldable pub play_frame : Tick T → Frame T → Player T → Turn T
  unfolding fill_card
  play_frame t f p = fill_card f.pts t.queued_after t.queued_later (record p {
    at_hand = some f;
    gone = p.gone ++ (read_out f ∷ []);
    audio_clock = clock_of f.pts t.queued_before;
    events = p.events ++ (queues f.samples ∷ []);
  })

  unfoldable pub after_read : Tick T → Reply (Frame T) × RingBuffer (Frame T) → Player T → Turn T
  unfolding play_frame
  after_read t (blocked, r) p = reading (record p { ring = r })
  after_read t (returned false x, r) p =
      last
        (record p { ring = r; events = p.events ++ (if t.clear_at_end then clears ∷ [] else []) })
  after_read t (returned true none, r) p = undefined
  after_read t (returned true (some f), r) p = play_frame t f (record p { ring = r })

  -- A turn of the loop.
  unfoldable pub turn : Tick T → Player T → Turn T
  unfolding after_read
  turn t p = let q = others t.meanwhile (heard t p) in after_read t (read q.ring) q

  -- The turns, until one is not followed by another.
  unfoldable pub turns : List (Tick T) → Player T → Turn T
  unfolding turn
  turns [] p = next p
  turns (t ∷ ts) p = elim (turn t p) [
    | next q ↦ turns ts q
    | last q ↦ last q
    | reading q ↦ reading q
    | filling q ↦ filling q
    | undefined ↦ undefined
  ]

-- After the loop: `crashed` where the code reads `pts` of a frame that is not there.
pub data Drained (T : Type 0) : Type 0 where
  finished draining : Player T → Drained T
  crashed : Drained T

unfoldable pub drain_card : {T : Type 0} → (T → ℕ → T) → ℕ → List (ℕ × ℕ) → Player T → Drained T
drain_card {T} clock_of queued_bytes [] p = if queued_bytes == 0 then finished p else draining p
drain_card {T} clock_of queued_bytes ((n, m) ∷ later) p =
    let more : Frame T → Drained T =
      λ f. drain_card clock_of n later (record p { audio_clock = clock_of f.pts m }) in
    if queued_bytes == 0 then finished p else elim p.at_hand [ none ↦ crashed | some f ↦ more f ]
