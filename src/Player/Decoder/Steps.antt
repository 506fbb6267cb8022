-- ===== src/Player/Decoder/Steps.antt =====
-- One state each of the decoder: `decode_running`, `decode_seeking`, `decode_flushing`,
-- `handle_finished`, `decode_finished`, `decode_stopped`, and what they call.
use ix_library.Base.{false, Option, none, some, List, [], ◌∷◌, ◌++◌, ◌==◌, if◌then◌else◌}
use ix_library.Player.Decoder.{
  DecodeType, video_with_audio, video, audio, unknown, running, flushing, finished, stopped,
  Seconds, Frame, Packet, Flushed, frame, at_end, failure, Effect, add_video, add_audio,
  set_decode_clock, seek_file, flush_video_codec, flush_audio_codec, clear_video, clear_audio,
  clear_sdl_queue, wait_audio_finished, wait_render_finished, notify_wait_to_clear, emit_finished,
  Worker,
}

module _ (s : Seconds) where
  open s use {T, Pts}

  unfoldable pub get_timestamp : Option Pts → Frame Pts → T
  get_timestamp packet_pts f = elim f.pts [
    | some p ↦ s.in_seconds p
    | none ↦ elim packet_pts [ some p ↦ s.in_seconds p | none ↦ s.minus_one ]
  ]

  -- `add_audio_frame` of what `audio_change` gave: no frame, which stops the queue, if it failed.
  abbrev pub converted : Frame Pts → T → Option T
  converted f t = if f.converts then some t else none

  unfoldable pub audio_frames : Option Pts → List (Frame Pts) → List (Effect T)
  unfolding get_timestamp
  audio_frames p [] = []
  audio_frames p (f ∷ fs) =
      let t = get_timestamp p f in
      add_audio (converted f t) ∷ set_decode_clock t ∷ audio_frames p fs

  unfoldable pub video_frames : Option Pts → List (Frame Pts) → List (Effect T)
  unfolding get_timestamp
  video_frames p [] = []
  video_frames p (f ∷ fs) = add_video (some (get_timestamp p f)) ∷ video_frames p fs

  -- `decode_clock` after the frames of a video packet.
  unfoldable pub last_clock : Option Pts → List (Frame Pts) → T → T
  unfolding get_timestamp
  last_clock p [] t = t
  last_clock p (f ∷ fs) t = last_clock p fs (get_timestamp p f)

  -- `none`: `av_read_frame` failed or came to the end.
  unfoldable pub decode_running : Worker T → Option (Packet Pts) → Worker T × List (Effect T)
  unfolding audio_frames video_frames last_clock
  decode_running w none = (record w { state = flushing }, [])
  decode_running w (some p) =
      if p.stream_index == w.audio_stream_idx
      then (w, audio_frames p.pts p.frames)
      else if p.stream_index == w.video_stream_idx
      then (
        record w { decode_clock = last_clock p.pts p.frames w.decode_clock },
        video_frames p.pts p.frames,
      )
      else (w, [])

  unfoldable pub clamp : T → T → T → T
  clamp x lo hi = if s.less x lo then lo else if s.less hi x then hi else x

  -- `seek_by_offset`; an audio file is not sought.
  unfoldable pub seek_by_offset : Worker T → T → T → List (Effect T)
  unfolding clamp
  seek_by_offset w current offset = elim w.fmt_type [
    | audio ↦ []
    | _ ↦
        seek_file (clamp (s.add current offset) s.zero (s.of_int w.duration))
        ∷ flush_video_codec
        ∷ flush_audio_codec
        ∷ clear_video
        ∷ clear_audio
        ∷ clear_sdl_queue
        ∷ []
  ]

  unfoldable pub seek_by_offset_video_only : Worker T → T → T → List (Effect T)
  unfolding clamp
  seek_by_offset_video_only w current offset =
      seek_file (clamp (s.add current offset) s.zero (s.of_int w.duration))
      ∷ flush_video_codec
      ∷ clear_video
      ∷ []

  unfoldable pub decode_seeking : Worker T → T → T → Worker T × List (Effect T)
  unfolding seek_by_offset
  decode_seeking w current offset = (record w { state = running }, seek_by_offset w current offset)

  -- The two `while` loops of `decode_flushing`: `none` while the answers have brought no end.
  unfoldable pub flush_video : Option Pts → List (Flushed Pts) → Option (List (Effect T))
  unfolding get_timestamp
  flush_video p [] = none
  flush_video p (at_end ∷ rs) = some []
  flush_video p (failure ∷ rs) = flush_video p rs
  flush_video p (frame f ∷ rs) = elim (flush_video p rs) [
    | none ↦ none
    | some es ↦ some (add_video (some (get_timestamp p f)) ∷ es)
  ]

  unfoldable pub flush_audio : Option Pts → List (Flushed Pts) → Option (List (Effect T))
  unfolding get_timestamp
  flush_audio p [] = none
  flush_audio p (at_end ∷ rs) = some []
  flush_audio p (failure ∷ rs) = flush_audio p rs
  flush_audio p (frame f ∷ rs) = elim (flush_audio p rs) [
    | none ↦ none
    | some es ↦ some (add_audio (converted f (get_timestamp p f)) ∷ es)
  ]

  -- `none`: the call has not come back.
  unfoldable pub decode_flushing :
      Worker T
      → Option Pts
      → List (Flushed Pts)
      → List (Flushed Pts)
      → Option (Worker T × List (Effect T))
  unfolding flush_video flush_audio
  decode_flushing w p videos audios = elim (flush_video p videos) [
    | none ↦ none
    | some vs ↦ elim (flush_audio p audios) [
      | none ↦ none
      | some as' ↦
          some
            (record w { state = finished }, vs ++ (as' ++ (add_audio none ∷ add_video none ∷ [])))
    ]
  ]

  unfoldable pub decode_finished : Worker T → Worker T × List (Effect T)
  decode_finished w =
      (record w { state = stopped }, wait_audio_finished ∷ clear_video ∷ wait_render_finished ∷ [])

  abbrev pub ending : List (Effect T)
  ending = notify_wait_to_clear ∷ emit_finished ∷ []

  unfoldable pub decode_stopped : Worker T → Worker T × List (Effect T)
  decode_stopped w = (record w { is_decoding = false }, ending)

  unfoldable pub finishing : DecodeType → List (Effect T)
  finishing video_with_audio =
      add_audio none
      ∷ wait_audio_finished
      ∷ clear_video
      ∷ add_video none
      ∷ wait_render_finished
      ∷ []
  finishing audio = add_audio none ∷ wait_audio_finished ∷ []
  finishing video = add_video none ∷ wait_render_finished ∷ ending
  finishing unknown = []

  unfoldable pub handle_finished : Worker T → Worker T × List (Effect T)
  unfolding finishing
  handle_finished w = (record w { is_decoding = false }, finishing w.fmt_type ++ ending)
