-- ===== src/Player/Decoder/Ends.antt =====
-- When the decoder's loops end, and what a file that is played to its end gives.
use ix_library.Base.{
  ◌≡◌, ◌≢◌, refl, Bool, true, false, Option, none, some, List, [], ◌∷◌, ◌++◌, ◌==◌, if◌then◌else◌,
}
use ix_library.Player.Decoder.{
  DecodeType, video_with_audio, video, audio, unknown, DecodeState, running, seeking, flushing,
  finished_audio_only, finished_video_only, finished_both, finished, stopped, Seconds, Packet,
  Effect, Worker, add_audio, add_video,
}
use ix_library.Player.Decoder.Steps.{
  decode_flushing, video_frames, audio_frames, last_clock, flush_video, flush_audio,
}
use ix_library.Player.Decoder.Loops.{
  Tick, Progress, done, going, hung, after, Round, on, last, stuck, prefix, on_stop, on_seek,
  by_state, both_round, video_round, video_read, video_packet, audio_packet, audio_round,
  audio_read, loop, decode_video_with_audio, decode_video_only, decode_audio_only, decode,
}

module _ (s : Seconds) where
  open s use {T, Pts}

  -- The codecs would come to an end if they were flushed in this round.
  abbrev pub CanFlush : Tick T Pts → Type 0
  CanFlush t =
      (flush_video s t.last_pts t.flushed_video ≢ none)
      × (flush_audio s t.last_pts t.flushed_audio ≢ none)

  abbrev pub AllCanFlush : List (Tick T Pts) → Type 0
  AllCanFlush [] = Unit {0}
  AllCanFlush (t ∷ ts) = CanFlush t × AllCanFlush ts

  abbrev pub IsDone : Progress T → Type 0
  IsDone (done v es) = Unit {0}
  IsDone (going v es) = ⊥
  IsDone hung = ⊥

  abbrev NotStuck : Round T → Type 0
  NotStuck (on v es) = Unit {0}
  NotStuck (last v es) = Unit {0}
  NotStuck stuck = ⊥

  abbrev IsLast : Round T → Type 0
  IsLast (on v es) = ⊥
  IsLast (last v es) = Unit {0}
  IsLast stuck = ⊥

  after-IsDone : (es : List (Effect T)) (p : Progress T) → IsDone p → IsDone (after es p)
  after-IsDone es (done v fs) h = tt
  after-IsDone es (going v fs) h = h
  after-IsDone es hung h = h

  -- A loop whose rounds do not hang ends at the latest with a round that is a last one.
  loop_ends :
      (round : Tick T Pts → Worker T → Round T)
      → ((u : Tick T Pts) (w : Worker T) → CanFlush u → NotStuck (round u w))
      → (t : Tick T Pts) (us : List (Tick T Pts)) → ((w : Worker T) → IsLast (round t w))
      → (ts : List (Tick T Pts)) (w : Worker T) → AllCanFlush ts
      → IsDone (loop s round (ts ++ (t ∷ us)) w)
  unfolding loop
  loop_ends round free t us ends [] w h = by_round (round t w) (ends w)
    where
      by_round :
          (r : Round T)
          → IsLast r
          → IsDone (
              let q : Progress T = elim r [
                | on v es ↦ after es (loop s round us v)
                | last v es ↦ done v es
                | stuck ↦ hung
              ] in
              q)
      by_round (on v es) k = absurd k
      by_round (last v es) k = tt
      by_round stuck k = k
  loop_ends round free t us ends (u ∷ ts) w h =
      by_round (round u w) (free u w h.0) (λ v. loop_ends round free t us ends ts v h.1)
    where
      by_round :
          (r : Round T)
          → NotStuck r
          → ((v : Worker T) → IsDone (loop s round (ts ++ (t ∷ us)) v))
          → IsDone (
              let q : Progress T = elim r [
                | on v es ↦ after es (loop s round (ts ++ (t ∷ us)) v)
                | last v es ↦ done v es
                | stuck ↦ hung
              ] in
              q)
      by_round (on v es) k next = after-IsDone es (loop s round (ts ++ (t ∷ us)) v) (next v)
      by_round (last v es) k next = tt
      by_round stuck k next = k

  NotStuck-if : (b : Bool) (q r : Round T) → NotStuck q → NotStuck r → NotStuck (if b then q else r)
  NotStuck-if true q r h k = h
  NotStuck-if false q r h k = k

  flushing-NotStuck :
      (t : Tick T Pts) (w : Worker T) → CanFlush t → NotStuck (by_state s flushing t w)
  unfolding by_state decode_flushing
  flushing-NotStuck t w h =
      both (flush_video s t.last_pts t.flushed_video) (flush_audio s t.last_pts t.flushed_audio) h.0
        h.1
    where
      both :
          (o q : Option (List (Effect T)))
          → o ≢ none
          → q ≢ none
          → NotStuck (
              let r : Round T =
                elim (let d : Option (Worker T × List (Effect T)) = elim o [
                  | none ↦ none
                  | some vs ↦ elim q [
                    | none ↦ none
                    | some as' ↦ some (
                      record w { state = finished },
                      vs ++ (as' ++ (add_audio none ∷ add_video none ∷ [])),
                    )
                  ]
                ] in
                  d) [ none ↦ stuck | some (v, es) ↦ on v es ] in
              r)
      both none q h k = h refl
      both (some vs) none h k = k refl
      both (some vs) (some as') h k = tt

  by_state-NotStuck :
      (d : DecodeState) (t : Tick T Pts) (w : Worker T) → CanFlush t → NotStuck (by_state s d t w)
  unfolding by_state
  by_state-NotStuck running t w h = tt
  by_state-NotStuck seeking t w h = tt
  by_state-NotStuck flushing t w h = flushing-NotStuck t w h
  by_state-NotStuck finished t w h = tt
  by_state-NotStuck finished_audio_only t w h = tt
  by_state-NotStuck finished_video_only t w h = tt
  by_state-NotStuck finished_both t w h = tt
  by_state-NotStuck stopped t w h = tt

  prefix-NotStuck : (es : List (Effect T)) (r : Round T) → NotStuck r → NotStuck (prefix s es r)
  prefix-NotStuck es (on v fs) h = tt
  prefix-NotStuck es (last v fs) h = tt
  prefix-NotStuck es stuck h = h

  both_round-NotStuck : (t : Tick T Pts) (w : Worker T) → CanFlush t → NotStuck (both_round s t w)
  unfolding both_round
  both_round-NotStuck t w h =
      let u = on_seek s t.seek_offset (on_stop s t.is_stopped w).0 in
      prefix-NotStuck (on_stop s t.is_stopped w).1 (by_state s u.state t u)
        (by_state-NotStuck u.state t u h)

  video_read-NotStuck :
      (o : Option (Packet Pts)) (t : Tick T Pts) (w : Worker T) → NotStuck (video_read s o t w)
  unfolding video_read
  video_read-NotStuck none t w = tt
  video_read-NotStuck (some p) t w =
      NotStuck-if t.is_stopped _ _ tt (video_packet-NotStuck t.seek_offset)
    where
      video_packet-NotStuck : (o : Option T) → NotStuck (video_packet s o p t w)
      video_packet-NotStuck (some o) = tt
      video_packet-NotStuck none =
          NotStuck-if (p.stream_index == w.video_stream_idx)
            (on (record w { decode_clock = last_clock s p.pts p.frames w.decode_clock })
              (video_frames s p.pts p.frames))
            (on w []) tt tt

  audio_read-NotStuck :
      (o : Option (Packet Pts)) (t : Tick T Pts) (w : Worker T) → NotStuck (audio_read s o t w)
  unfolding audio_read
  audio_read-NotStuck none t w = tt
  audio_read-NotStuck (some p) t w =
      NotStuck-if t.is_stopped _ _ tt (audio_packet-NotStuck t.seek_offset)
    where
      audio_packet-NotStuck : (o : Option T) → NotStuck (audio_packet s o p t w)
      audio_packet-NotStuck (some o) = tt
      audio_packet-NotStuck none =
          NotStuck-if (p.stream_index == w.audio_stream_idx) (on w (audio_frames s p.pts p.frames))
            (on w []) tt tt

  module _ (t : Tick T Pts) (stop : t.is_stopped ≡ true) (calm : t.seek_offset ≡ none) where
    both_round-IsLast : (w : Worker T) → IsLast (both_round s t w)
    unfolding both_round by_state
    both_round-IsLast w = rw (stop, calm, both_round) tt

    video_read-IsLast : (o : Option (Packet Pts)) (w : Worker T) → IsLast (video_read s o t w)
    unfolding video_read
    video_read-IsLast none w = tt
    video_read-IsLast (some p) w = rw stop tt

    audio_read-IsLast : (o : Option (Packet Pts)) (w : Worker T) → IsLast (audio_read s o t w)
    unfolding audio_read
    audio_read-IsLast none w = tt
    audio_read-IsLast (some p) w = rw stop tt

    -- Whatever state the worker is in and whatever came before, as long as flushing a codec came to an
    -- end: a round that sees the stop flag, and no seek at the same time, is the last at the latest,
    -- whichever of the loops runs.
    pub stop_ends :
        (ts us : List (Tick T Pts)) (w : Worker T)
        → AllCanFlush ts
        → IsDone (decode s (ts ++ (t ∷ us)) w)
    unfolding decode video_round audio_round
    stop_ends ts us w h = by_type w.fmt_type
      where
        v : Worker T
        v = record w { is_decoding = true; state = running }

        by_type :
            (ty : DecodeType)
            → IsDone (
                let p : Progress T = elim ty [
                  | video_with_audio ↦ decode_video_with_audio s (ts ++ (t ∷ us)) v
                  | video ↦ decode_video_only s (ts ++ (t ∷ us)) v
                  | audio ↦ decode_audio_only s (ts ++ (t ∷ us)) v
                  | unknown ↦ done v []
                ] in
                p)
        by_type video_with_audio =
            loop_ends (both_round s) both_round-NotStuck t us both_round-IsLast ts v h
        by_type video =
            loop_ends (video_round s) (λ u x _. video_read-NotStuck u.packet u x) t us
              (λ x. video_read-IsLast t.packet x) ts v h
        by_type audio =
            loop_ends (audio_round s) (λ u x _. audio_read-NotStuck u.packet u x) t us
              (λ x. audio_read-IsLast t.packet x) ts v h
        by_type unknown = tt
