-- ===== src/Player/AudioThread.antt =====
-- The callback that fills the sound card's buffer, audio_call_back of
-- projects/龙卷风播放器/src/AudioThread/AudioThread.cpp, over the ring that the decoder writes to.
pub mod Filling
pub mod Playing
use ix_library.Base.{
  ℕ, zero, suc, ◌+◌, ◌-◌, ◌/◌, min, Bool, true, false, Option, none, some, List, [], ◌∷◌, ◌++◌,
  length, take, drop, leb, ◌==◌, if◌then◌else◌,
}
use ix_library.Wire.{Bytes}
use ix_library.Player.RingBuffer.{RingBuffer, Reply, blocked, returned, read, write, stop}

-- `size` is the length of the data.
pub record AudioData : Type 0 where
  pub data_ : Bytes
  pub pos : ℕ

pub record AudioThread : Type 0 where
  pub audio_read_buf : Option AudioData
  pub ring : RingBuffer AudioData
  pub played_samples : ℕ

-- How a call ends: the buffer is full, the ring is at its end, or `read` waits; `undefined` is `front`
-- of an empty queue, and `out_of_fuel` no behaviour of the code.
pub data Ending : Type 0 where
  filled silent waiting undefined out_of_fuel : Ending

pub data Fetched : Type 0 where
  playing : AudioData → RingBuffer AudioData → Fetched
  stopped : Ending → RingBuffer AudioData → Fetched

unfoldable pub taken : Reply AudioData × RingBuffer AudioData → Fetched
taken (blocked, r) = stopped waiting r
taken (returned false x, r) = stopped silent r
taken (returned true none, r) = stopped undefined r
taken (returned true (some d), r) = playing d r

-- The buffer to copy from: the one at hand if it has bytes left, else the next of the ring.
unfoldable pub fetch : AudioThread → Fetched
unfolding taken read
fetch t = elim t.audio_read_buf [
  | none ↦ taken (read t.ring)
  | some d ↦ if leb (length d.data_) d.pos then taken (read t.ring) else playing d t.ring
]

pub record Filled : Type 0 where
  pub stream : Bytes
  pub ending : Ending
  pub after : AudioThread

abbrev pub copied : ℕ → ℕ → AudioData → RingBuffer AudioData → ℕ → AudioThread
copied frame k d r played = record {
  audio_read_buf = some (record d { pos = d.pos + k });
  ring = r;
  played_samples = played + k / frame;
}

-- The `while` loop, with the room that is left in the stream; `frame` is the bytes of a sample on all
-- channels. The stream is what the loop copies; the rest of it is silence.
unfoldable pub fill : ℕ → ℕ → ℕ → AudioThread → Filled
unfolding fetch
fill zero frame room t = record { stream = []; ending = out_of_fuel; after = t }
fill (suc fuel) frame zero t = record { stream = []; ending = filled; after = t }
fill (suc fuel) frame (suc space) t = elim (fetch t) [
  | stopped e r ↦ record { stream = []; ending = e; after = record t { ring = r } }
  | playing d r ↦
      (let k = min (suc space) (length d.data_ - d.pos) in
        let rest = fill fuel frame (suc space - k) (copied frame k d r t.played_samples) in
        record rest { stream = take k (drop d.pos d.data_) ++ rest.stream })
]

-- A round copies a byte or takes a buffer from the ring.
unfoldable pub audio_call_back : ℕ → ℕ → AudioThread → Filled
unfolding fill
audio_call_back frame len t = fill (suc (len + length t.ring.buf)) frame len t

-- What it is given: a frame, or the end.
unfoldable pub add_audio_frame : Option AudioData → AudioThread → AudioThread
unfolding write stop
add_audio_frame none t = record t { ring = stop t.ring }
add_audio_frame (some d) t = record t { ring = (write t.ring d).1 }
