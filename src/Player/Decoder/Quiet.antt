-- ===== src/Player/Decoder/Quiet.antt =====
-- What does not emit `finished`, and how often `handle_finished` does.
use ix_library.Base.{ℕ, suc, ◌+◌, ◌≡◌, refl, Option, none, some, List, [], ◌∷◌, ◌++◌, arith}
use ix_library.Player.Decoder.{
  DecodeType, video_with_audio, video, audio, unknown, Seconds, Frame, Flushed, Effect, add_video,
  add_audio, clear_video, clear_audio, clear_sdl_queue, seek_file, flush_video_codec,
  flush_audio_codec, notify_wait_to_clear, emit_finished, Worker,
}
use ix_library.Player.Decoder.Steps
use ix_library.Player.Decoder.Steps.{
  get_timestamp, decode_running, decode_seeking, decode_flushing, handle_finished, finishing,
  seek_by_offset, seek_by_offset_video_only, video_frames, audio_frames, last_clock, flush_video,
  flush_audio,
}

-- How often `finished` is emitted.
abbrev pub finished_count : {T : Type 0} → List (Effect T) → ℕ
finished_count [] = 0
finished_count (emit_finished ∷ es) = suc (finished_count es)
finished_count (e ∷ es) = finished_count es

pub finished_count-append :
    {T : Type 0} (es fs : List (Effect T))
    → finished_count (es ++ fs) ≡ finished_count es + finished_count fs
finished_count-append [] fs = omega arith
finished_count-append (emit_finished ∷ es) fs = omega (arith, finished_count-append es fs)
finished_count-append (e ∷ es) fs = finished_count-append es fs

-- How often `handle_finished` emits `finished`.
abbrev pub announcements : DecodeType → ℕ
announcements video_with_audio = 1
announcements video = 2
announcements audio = 1
announcements unknown = 1

module _ (s : Seconds) where
  open s use {T, Pts}

  pub audio_frames-silent :
      (p : Option Pts) (fs : List (Frame Pts)) → finished_count (audio_frames s p fs) ≡ 0
  unfolding audio_frames
  audio_frames-silent p [] = refl
  audio_frames-silent p (f ∷ fs) = audio_frames-silent p fs

  pub video_frames-silent :
      (p : Option Pts) (fs : List (Frame Pts)) → finished_count (video_frames s p fs) ≡ 0
  unfolding video_frames
  video_frames-silent p [] = refl
  video_frames-silent p (f ∷ fs) = video_frames-silent p fs

  pub handle_finished-count :
      (w : Worker T) → finished_count (handle_finished s w).1 ≡ announcements w.fmt_type
  unfolding handle_finished
  handle_finished-count w = by_type w.fmt_type
    where
      by_type :
          (t : DecodeType)
          → finished_count (finishing s t ++ (notify_wait_to_clear ∷ emit_finished ∷ []))
            ≡ announcements t
      by_type video_with_audio = refl
      by_type video = refl
      by_type audio = refl
      by_type unknown = refl

  pub seek_by_offset-silent : (w : Worker T) (a b : T) → finished_count (seek_by_offset s w a b) ≡ 0
  unfolding seek_by_offset
  seek_by_offset-silent w a b = by_type w.fmt_type
    where
      by_type :
          (t : DecodeType)
          → finished_count (
              let es : List (Effect T) = elim t [
                | audio ↦ []
                | _ ↦
                    seek_file (Steps.clamp s (s.add a b) s.zero (s.of_int w.duration))
                    ∷ flush_video_codec
                    ∷ flush_audio_codec
                    ∷ clear_video
                    ∷ clear_audio
                    ∷ clear_sdl_queue
                    ∷ []
              ] in
              es)
            ≡ 0
      by_type video_with_audio = refl
      by_type video = refl
      by_type audio = refl
      by_type unknown = refl

  abbrev pub Silent : Option (List (Effect T)) → Type 0
  Silent none = Unit {0}
  Silent (some es) = finished_count es ≡ 0

  pub flush_video-Silent : (p : Option Pts) (rs : List (Flushed Pts)) → Silent (flush_video s p rs)
  unfolding flush_video
  flush_video-Silent p [] = tt
  flush_video-Silent p (Flushed.at_end ∷ rs) = refl
  flush_video-Silent p (Flushed.failure ∷ rs) = flush_video-Silent p rs
  flush_video-Silent p (Flushed.frame f ∷ rs) = onto (flush_video s p rs) (flush_video-Silent p rs)
    where
      onto :
          (o : Option (List (Effect T)))
          → Silent o
          → Silent (
              let r : Option (List (Effect T)) = elim o [
                | none ↦ none
                | some es ↦ some (add_video (some (get_timestamp s p f)) ∷ es)
              ] in
              r)
      onto none h = tt
      onto (some es) h = h

  pub flush_audio-Silent : (p : Option Pts) (rs : List (Flushed Pts)) → Silent (flush_audio s p rs)
  unfolding flush_audio
  flush_audio-Silent p [] = tt
  flush_audio-Silent p (Flushed.at_end ∷ rs) = refl
  flush_audio-Silent p (Flushed.failure ∷ rs) = flush_audio-Silent p rs
  flush_audio-Silent p (Flushed.frame f ∷ rs) = onto (flush_audio s p rs) (flush_audio-Silent p rs)
    where
      onto :
          (o : Option (List (Effect T)))
          → Silent o
          → Silent (
              let r : Option (List (Effect T)) = elim o [
                | none ↦ none
                | some es ↦ some (add_audio (Steps.converted s f (get_timestamp s p f)) ∷ es)
              ] in
              r)
      onto none h = tt
      onto (some es) h = h
