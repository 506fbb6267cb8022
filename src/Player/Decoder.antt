-- ===== src/Player/Decoder.antt =====
-- projects/龙卷风播放器/src/ffmpeg/DecoderWorker.cpp and .h: the decoder thread's data. What FFmpeg
-- answers, and what other threads have stored in the atomics, are inputs; what the worker does to
-- the audio and render threads and to FFmpeg is a list of effects, in order.
pub mod Open
pub mod Steps
pub mod Loops
pub mod Quiet
pub mod Announce
pub mod Ends
pub mod NoStream
use ix_library.Base.{ℕ, Bool, Option, List, [], ◌∷◌}

pub data DecodeType : Type 0 where
  video_with_audio video audio unknown : DecodeType

pub data DecodeState : Type 0 where
  running seeking flushing finished_audio_only finished_video_only : DecodeState
  finished_both finished stopped : DecodeState

-- `double` seconds and the `int64_t` stamps of FFmpeg, with the operations on them that are used:
-- `in_seconds p` is `p * av_q2d(time_base)`.
pub record Seconds : Type 1 where
  pub T : Type 0
  pub Pts : Type 0
  pub zero : T
  pub minus_one : T
  pub add : T → T → T
  pub less : T → T → Bool
  pub of_int : ℕ → T
  pub in_seconds : Pts → T

-- A decoded frame: its stamp, `none` for AV_NOPTS_VALUE, and whether its conversion gives an object.
-- `audio_change` may give `nullptr`; `change` never does.
pub record Frame (Pts : Type 0) : Type 0 where
  pub pts : Option Pts
  pub converts : Bool

-- A packet with the frames that `avcodec_receive_frame` gives after it was sent.
pub record Packet (Pts : Type 0) : Type 0 where
  pub stream_index : ℕ
  pub pts : Option Pts
  pub frames : List (Frame Pts)

-- What `avcodec_receive_frame` answers while the decoder is flushed.
pub data Flushed (Pts : Type 0) : Type 0 where
  frame : Frame Pts → Flushed Pts
  at_end : Flushed Pts
  failure : Flushed Pts

pub data Effect (T : Type 0) : Type 0 where
  add_video : Option T → Effect T
  add_audio : Option T → Effect T
  set_decode_clock : T → Effect T
  seek_file : T → Effect T
  flush_video_codec flush_audio_codec : Effect T
  clear_video clear_audio clear_sdl_queue : Effect T
  wait_audio_finished wait_render_finished : Effect T
  notify_wait_to_clear emit_finished : Effect T

-- The members that the loops read and write.
pub record Worker (T : Type 0) : Type 0 where
  pub state : DecodeState
  pub is_decoding : Bool
  pub decode_clock : T
  pub fmt_type : DecodeType
  pub duration : ℕ
  pub video_stream_idx : ℕ
  pub audio_stream_idx : ℕ
