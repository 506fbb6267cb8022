-- ===== src/Player/Decoder/Announce.antt =====
-- What the decoder's loops promise their listeners.
use ix_library.Base.{
  ◌≡◌, ◌≢◌, refl, subst, Bool, true, false, Option, none, some, List, [], ◌∷◌, ◌++◌, ◌==◌,
  if◌then◌else◌, arith,
}
use ix_library.Player.Decoder.{
  DecodeType, video_with_audio, video, audio, unknown, DecodeState, running, seeking, flushing,
  finished_audio_only, finished_video_only, finished_both, finished, stopped, Seconds, Packet,
  Effect, add_video, add_audio, clear_video, clear_audio, clear_sdl_queue, Worker,
}
use ix_library.Player.Decoder.Steps.{
  decode_running, decode_seeking, decode_flushing, handle_finished, seek_by_offset_video_only,
  video_frames, audio_frames, flush_video, flush_audio,
}
use ix_library.Player.Decoder.Loops.{
  Tick, Progress, done, going, hung, after, Round, on, last, stuck, prefix, on_stop, on_seek,
  by_state, both_round, video_round, audio_round, video_packet, video_read, audio_packet,
  audio_read, until_end, loop, decode_video_with_audio, decode_video_only, decode_audio_only,
  decode,
}
use ix_library.Player.Decoder.Quiet.{
  finished_count, finished_count-append, announcements, Silent, audio_frames-silent,
  video_frames-silent, handle_finished-count, seek_by_offset-silent, flush_video-Silent,
  flush_audio-Silent,
}

module _ (s : Seconds) where
  open s use {T, Pts}

  -- A round says nothing while the loop goes on; at its end it says `finished` so often.
  abbrev Says : DecodeType → Round T → Type 0
  Says ty (on v es) = (finished_count es ≡ 0) × (v.fmt_type ≡ ty)
  Says ty (last v es) = (finished_count es ≡ announcements ty) × (v.is_decoding ≡ false)
  Says ty stuck = Unit {0}

  abbrev Said : DecodeType → Progress T → Type 0
  Said ty (done v es) = (finished_count es ≡ announcements ty) × (v.is_decoding ≡ false)
  Said ty (going v es) = finished_count es ≡ 0
  Said ty hung = Unit {0}

  after-Said :
      (ty : DecodeType) (es : List (Effect T)) (p : Progress T)
      → finished_count es ≡ 0
      → Said ty p
      → Said ty (after es p)
  after-Said ty es (done v fs) h q = (omega (arith, finished_count-append es fs, q.0), q.1)
  after-Said ty es (going v fs) h q = omega (arith, finished_count-append es fs)
  after-Said ty es hung h q = tt

  loop-Said :
      (ty : DecodeType) (round : Tick T Pts → Worker T → Round T)
      → ((t : Tick T Pts) (w : Worker T) → w.fmt_type ≡ ty → Says ty (round t w))
      → (ts : List (Tick T Pts)) (w : Worker T) → w.fmt_type ≡ ty
      → Said ty (loop s round ts w)
  unfolding loop
  loop-Said ty round says [] w e = refl
  loop-Said ty round says (t ∷ ts) w e =
      by_round (round t w) (says t w e) (loop-Said ty round says ts)
    where
      by_round :
          (r : Round T)
          → Says ty r
          → ((v : Worker T) → v.fmt_type ≡ ty → Said ty (loop s round ts v))
          → Said ty (
              let q : Progress T = elim r [
                | on v es ↦ after es (loop s round ts v)
                | last v es ↦ done v es
                | stuck ↦ hung
              ] in
              q)
      by_round (on v es) h next = after-Said ty es (loop s round ts v) h.0 (next v h.1)
      by_round (last v es) h next = h
      by_round stuck h next = tt

  Says-if :
      (ty : DecodeType) (b : Bool) (q r : Round T)
      → Says ty q
      → Says ty r
      → Says ty (if b then q else r)
  Says-if ty true q r h k = h
  Says-if ty false q r h k = k

  handle_finished-stops : (w : Worker T) → (handle_finished s w).0.is_decoding ≡ false
  unfolding handle_finished
  handle_finished-stops w = refl

  -- The end of a loop, after effects that do not say `finished`.
  last-Says :
      (es : List (Effect T)) (w : Worker T)
      → finished_count es ≡ 0
      → Says w.fmt_type (let (v, fs) = handle_finished s w in last v (es ++ fs))
  last-Says es w h = (
    omega (arith, finished_count-append es (handle_finished s w).1, handle_finished-count s w),
    handle_finished-stops w,
  )

  video_packet-Says :
      (o : Option T) (p : Packet Pts) (t : Tick T Pts) (w : Worker T)
      → Says w.fmt_type (video_packet s o p t w)
  unfolding video_packet seek_by_offset_video_only
  video_packet-Says (some o) p t w = (refl, refl)
  video_packet-Says none p t w =
      Says-if w.fmt_type (p.stream_index == w.video_stream_idx) _ _
        (video_frames-silent s p.pts p.frames, refl) (refl, refl)

  video_read-Says :
      (o : Option (Packet Pts)) (t : Tick T Pts) (w : Worker T)
      → Says w.fmt_type (video_read s o t w)
  unfolding video_read
  video_read-Says none t w =
      last-Says (video_frames s t.last_pts (until_end t.flushed_video)) w
        (video_frames-silent s t.last_pts (until_end t.flushed_video))
  video_read-Says (some p) t w =
      Says-if w.fmt_type t.is_stopped _ _ (last-Says (clear_video ∷ []) w refl)
        (video_packet-Says t.seek_offset p t w)

  audio_packet-Says :
      (o : Option T) (p : Packet Pts) (t : Tick T Pts) (w : Worker T)
      → Says w.fmt_type (audio_packet s o p t w)
  unfolding audio_packet
  audio_packet-Says (some o) p t w = (seek_by_offset-silent s w t.current o, refl)
  audio_packet-Says none p t w =
      Says-if w.fmt_type (p.stream_index == w.audio_stream_idx) _ _
        (audio_frames-silent s p.pts p.frames, refl) (refl, refl)

  audio_read-Says :
      (o : Option (Packet Pts)) (t : Tick T Pts) (w : Worker T)
      → Says w.fmt_type (audio_read s o t w)
  unfolding audio_read
  audio_read-Says none t w =
      last-Says (audio_frames s t.last_pts (until_end t.flushed_audio)) w
        (audio_frames-silent s t.last_pts (until_end t.flushed_audio))
  audio_read-Says (some p) t w =
      Says-if w.fmt_type t.is_stopped _ _ (last-Says (clear_audio ∷ []) w refl)
        (audio_packet-Says t.seek_offset p t w)

  decode_running-Says :
      (o : Option (Packet Pts)) (w : Worker T)
      → Says w.fmt_type (let (v, es) = decode_running s w o in on v es)
  unfolding decode_running
  decode_running-Says none w = (refl, refl)
  decode_running-Says (some p) w =
      ground (arith, audio_frames-silent s p.pts p.frames, video_frames-silent s p.pts p.frames)

  decode_flushing-Says :
      (t : Tick T Pts) (w : Worker T)
      → Says w.fmt_type (
          let r : Round T = elim (decode_flushing s w t.last_pts t.flushed_video t.flushed_audio) [
            | none ↦ stuck
            | some (v, es) ↦ on v es
          ] in
          r)
  unfolding decode_flushing
  decode_flushing-Says t w =
      both (flush_video s t.last_pts t.flushed_video) (flush_audio s t.last_pts t.flushed_audio)
        (flush_video-Silent s t.last_pts t.flushed_video)
        (flush_audio-Silent s t.last_pts t.flushed_audio)
    where
      both :
          (o q : Option (List (Effect T)))
          → Silent s o
          → Silent s q
          → Says w.fmt_type (
              let r : Round T =
                elim (let d : Option (Worker T × List (Effect T)) = elim o [
                  | none ↦ none
                  | some vs ↦ elim q [
                    | none ↦ none
                    | some as' ↦ some (
                      record w { state = finished },
                      vs ++ (as' ++ (add_audio none ∷ add_video none ∷ [])),
                    )
                  ]
                ] in
                  d) [ none ↦ stuck | some (v, es) ↦ on v es ] in
              r)
      both none q h k = tt
      both (some vs) none h k = tt
      both (some vs) (some as') h k = (
        omega (
          arith,
          finished_count-append vs (as' ++ (add_audio none ∷ add_video none ∷ [])),
          finished_count-append as' (add_audio none ∷ add_video none ∷ []),
        ),
        refl,
      )

  by_state-Says :
      (d : DecodeState) (t : Tick T Pts) (w : Worker T) → Says w.fmt_type (by_state s d t w)
  unfolding by_state decode_seeking
  by_state-Says running t w = decode_running-Says t.packet w
  by_state-Says seeking t w = (seek_by_offset-silent s w t.current _, refl)
  by_state-Says flushing t w = decode_flushing-Says t w
  by_state-Says finished t w = last-Says [] w refl
  by_state-Says finished_audio_only t w = (refl, refl)
  by_state-Says finished_video_only t w = (refl, refl)
  by_state-Says finished_both t w = (refl, refl)
  by_state-Says stopped t w = (refl, refl)

  prefix-Says :
      (ty : DecodeType) (es : List (Effect T)) (r : Round T)
      → finished_count es ≡ 0
      → Says ty r
      → Says ty (prefix s es r)
  prefix-Says ty es (on v fs) h k = (omega (arith, finished_count-append es fs, k.0), k.1)
  prefix-Says ty es (last v fs) h k = (omega (arith, finished_count-append es fs, k.0), k.1)
  prefix-Says ty es stuck h k = tt

  both_round-Says : (t : Tick T Pts) (w : Worker T) → Says w.fmt_type (both_round s t w)
  unfolding both_round
  both_round-Says t w = by_input t.is_stopped t.seek_offset
    where
      stop_effects : List (Effect T)
      stop_effects =
          clear_video ∷ add_video none ∷ clear_audio ∷ add_audio none ∷ clear_sdl_queue ∷ []

      by_input :
          (b : Bool) (o : Option T)
          → Says w.fmt_type (
              prefix s (on_stop s b w).1 (
                by_state s (on_seek s o (on_stop s b w).0).state t (on_seek s o (on_stop s b w).0)))
      by_input true none =
          prefix-Says w.fmt_type stop_effects
            (by_state s finished t (record w { state = finished })) refl
            (by_state-Says finished t (record w { state = finished }))
      by_input true (some o) =
          prefix-Says w.fmt_type stop_effects (by_state s seeking t (record w { state = seeking }))
            refl (by_state-Says seeking t (record w { state = seeking }))
      by_input false none =
          prefix-Says w.fmt_type [] (by_state s w.state t w) refl (by_state-Says w.state t w)
      by_input false (some o) =
          prefix-Says w.fmt_type [] (by_state s seeking t (record w { state = seeking })) refl
            (by_state-Says seeking t (record w { state = seeking }))

  round-Says :
      (ty : DecodeType) (round : Tick T Pts → Worker T → Round T)
      → ((t : Tick T Pts) (w : Worker T) → Says w.fmt_type (round t w))
      → (t : Tick T Pts) (w : Worker T) → w.fmt_type ≡ ty
      → Says ty (round t w)
  round-Says ty round h t w e = subst (λ x. Says x (round t w)) e (h t w)

  decode-Said :
      (ts : List (Tick T Pts)) (w : Worker T)
      → w.fmt_type ≢ unknown
      → Said w.fmt_type (decode s ts w)
  unfolding decode video_round audio_round
  decode-Said ts w proper = by_type w.fmt_type refl
    where
      v : Worker T
      v = record w { is_decoding = true; state = running }

      by_type :
          (ty : DecodeType)
          → w.fmt_type ≡ ty
          → Said ty (
              let p : Progress T = elim ty [
                | video_with_audio ↦ decode_video_with_audio s ts v
                | video ↦ decode_video_only s ts v
                | audio ↦ decode_audio_only s ts v
                | unknown ↦ done v []
              ] in
              p)
      by_type video_with_audio e =
          loop-Said video_with_audio (both_round s)
            (round-Says video_with_audio (both_round s) both_round-Says) ts v e
      by_type video e =
          loop-Said video (video_round s)
            (round-Says video (video_round s) (λ t u. video_read-Says t.packet t u)) ts v e
      by_type audio e =
          loop-Said audio (audio_round s)
            (round-Says audio (audio_round s) (λ t u. audio_read-Says t.packet t u)) ts v e
      by_type unknown e = absurd (proper e)

  -- A decoder that was started on a file of a known type: while its loop goes on it does not emit
  -- `finished`; when the loop has ended, `isDecoding` is false and `finished` was emitted once for a
  -- file with audio, and twice for a file with video only.
  pub decode_announces :
      (ts : List (Tick T Pts)) (w v : Worker T) (es : List (Effect T))
      → w.fmt_type ≢ unknown
      → (decode s ts w ≡ done v es
          → (finished_count es ≡ announcements w.fmt_type) × (v.is_decoding ≡ false))
        × (decode s ts w ≡ going v es → finished_count es ≡ 0)
  decode_announces ts w v es proper = (
    (λ e. subst (Said w.fmt_type) e (decode-Said ts w proper)),
    (λ e. subst (Said w.fmt_type) e (decode-Said ts w proper)),
  )
