-- ===== src/Player/Decoder/Loops.antt =====
-- The loops `decode_video_with_audio`, `decode_video_only` and `decode_audio_only`, and `decode`, which
-- chooses between them. A round's inputs are a `Tick`.
use ix_library.Base.{Bool, true, Option, none, some, List, [], ◌∷◌, ◌++◌, ◌==◌, if◌then◌else◌}
use ix_library.Player.Decoder.{
  video_with_audio, video, audio, unknown, DecodeState, running, seeking, flushing,
  finished_audio_only, finished_video_only, finished_both, finished, stopped, Seconds, Frame,
  Packet, Flushed, Effect, add_video, add_audio, clear_video, clear_audio, clear_sdl_queue, Worker,
}
use ix_library.Player.Decoder.Steps.{
  decode_running, decode_seeking, decode_flushing, handle_finished, seek_by_offset,
  seek_by_offset_video_only, video_frames, audio_frames, last_clock,
}

-- What one round of a loop reads: `*isStoped`, `seek_offset` (`none` if it is zero), the time of the
-- clock that a seek starts from, and the answers of FFmpeg.
pub record Tick (T Pts : Type 0) : Type 0 where
  pub is_stopped : Bool
  pub seek_offset : Option T
  pub current : T
  pub packet : Option (Packet Pts)
  pub last_pts : Option Pts
  pub flushed_video : List (Flushed Pts)
  pub flushed_audio : List (Flushed Pts)

-- How a loop stands when the inputs are over, with all its effects.
pub data Progress (T : Type 0) : Type 0 where
  done : Worker T → List (Effect T) → Progress T
  going : Worker T → List (Effect T) → Progress T
  hung : Progress T

abbrev pub after : {T : Type 0} → List (Effect T) → Progress T → Progress T
after es (done w fs) = done w (es ++ fs)
after es (going w fs) = going w (es ++ fs)
after es hung = hung

-- The frames up to the first answer that is none.
unfoldable pub until_end : {P : Type 0} → List (Flushed P) → List (Frame P)
until_end [] = []
until_end (Flushed.frame f ∷ rs) = f ∷ until_end rs
until_end (Flushed.at_end ∷ rs) = []
until_end (Flushed.failure ∷ rs) = []

-- What one round of a loop did.
pub data Round (T : Type 0) : Type 0 where
  on : Worker T → List (Effect T) → Round T
  last : Worker T → List (Effect T) → Round T
  stuck : Round T

module _ (s : Seconds) where
  open s use {T, Pts}

  -- The two tests at the head of a round of `decode_video_with_audio`.
  unfoldable pub on_stop : Bool → Worker T → Worker T × List (Effect T)
  on_stop stop w =
      if stop
      then (
        record w { state = finished },
        clear_video ∷ add_video none ∷ clear_audio ∷ add_audio none ∷ clear_sdl_queue ∷ [],
      )
      else (w, [])

  unfoldable pub on_seek : Option T → Worker T → Worker T
  on_seek none w = w
  on_seek (some t) w = record w { state = seeking }

  abbrev pub offset_or_zero : Option T → T
  offset_or_zero none = s.zero
  offset_or_zero (some t) = t

  -- The `switch` on the state.
  unfoldable pub by_state : DecodeState → Tick T Pts → Worker T → Round T
  by_state running t w = let (v, es) = decode_running s w t.packet in on v es
  by_state seeking t w =
      let (v, es) = decode_seeking s w t.current (offset_or_zero t.seek_offset) in on v es
  by_state flushing t w = elim (decode_flushing s w t.last_pts t.flushed_video t.flushed_audio) [
    | none ↦ stuck
    | some (v, es) ↦ on v es
  ]
  by_state finished t w = let (v, es) = handle_finished s w in last v es
  by_state finished_audio_only t w = on w []
  by_state finished_video_only t w = on w []
  by_state finished_both t w = on w []
  by_state stopped t w = on w []

  abbrev pub prefix : List (Effect T) → Round T → Round T
  prefix es (on w fs) = on w (es ++ fs)
  prefix es (last w fs) = last w (es ++ fs)
  prefix es stuck = stuck

  unfoldable pub both_round : Tick T Pts → Worker T → Round T
  unfolding on_stop on_seek by_state
  both_round t w =
      let (v, es) = on_stop t.is_stopped w in
      let u = on_seek t.seek_offset v in prefix es (by_state u.state t u)

  -- A packet that `decode_video_only` read, when it was not asked to stop.
  unfoldable pub video_packet : Option T → Packet Pts → Tick T Pts → Worker T → Round T
  video_packet (some o) p t w = on w (seek_by_offset_video_only s w t.current o)
  video_packet none p t w =
      if p.stream_index == w.video_stream_idx
      then on (record w { decode_clock = last_clock s p.pts p.frames w.decode_clock })
          (video_frames s p.pts p.frames)
      else on w []

  -- What `av_read_frame` gave; at the end of the file the codec is flushed.
  unfoldable pub video_read : Option (Packet Pts) → Tick T Pts → Worker T → Round T
  unfolding until_end video_packet
  video_read none t w =
      let (v, es) = handle_finished s w in
      last v (video_frames s t.last_pts (until_end t.flushed_video) ++ es)
  video_read (some p) t w =
      let (v, es) = handle_finished s w in
      if t.is_stopped then last v (clear_video ∷ es) else video_packet t.seek_offset p t w

  unfoldable pub video_round : Tick T Pts → Worker T → Round T
  unfolding video_read
  video_round t w = video_read t.packet t w

  -- The same of `decode_audio_only`.
  unfoldable pub audio_packet : Option T → Packet Pts → Tick T Pts → Worker T → Round T
  audio_packet (some o) p t w = on w (seek_by_offset s w t.current o)
  audio_packet none p t w =
      if p.stream_index == w.audio_stream_idx then on w (audio_frames s p.pts p.frames) else on w []

  unfoldable pub audio_read : Option (Packet Pts) → Tick T Pts → Worker T → Round T
  unfolding until_end audio_packet
  audio_read none t w =
      let (v, es) = handle_finished s w in
      last v (audio_frames s t.last_pts (until_end t.flushed_audio) ++ es)
  audio_read (some p) t w =
      let (v, es) = handle_finished s w in
      if t.is_stopped then last v (clear_audio ∷ es) else audio_packet t.seek_offset p t w

  unfoldable pub audio_round : Tick T Pts → Worker T → Round T
  unfolding audio_read
  audio_round t w = audio_read t.packet t w

  -- Rounds until the loop ends or the inputs are over.
  unfoldable pub loop :
      (Tick T Pts → Worker T → Round T) → List (Tick T Pts) → Worker T → Progress T
  loop round [] w = going w []
  loop round (t ∷ ts) w = elim (round t w) [
    | on v es ↦ after es (loop round ts v)
    | last v es ↦ done v es
    | stuck ↦ hung
  ]

  unfoldable pub decode_video_with_audio : List (Tick T Pts) → Worker T → Progress T
  unfolding loop both_round
  decode_video_with_audio = loop both_round

  unfoldable pub decode_video_only : List (Tick T Pts) → Worker T → Progress T
  unfolding loop video_round
  decode_video_only ts w = loop video_round ts (record w { is_decoding = true })

  unfoldable pub decode_audio_only : List (Tick T Pts) → Worker T → Progress T
  unfolding loop audio_round
  decode_audio_only ts w = loop audio_round ts (record w { is_decoding = true })

  unfoldable pub decode : List (Tick T Pts) → Worker T → Progress T
  unfolding decode_video_with_audio decode_video_only decode_audio_only
  decode ts w =
      let v : Worker T = record w { is_decoding = true; state = running } in
      elim w.fmt_type [
        | video_with_audio ↦ decode_video_with_audio ts v
        | video ↦ decode_video_only ts v
        | audio ↦ decode_audio_only ts v
        | unknown ↦ done v []
      ]
