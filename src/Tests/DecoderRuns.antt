-- ===== src/Tests/DecoderRuns.antt =====
-- The decoder with whole numbers of seconds and a file of two packets.
use ix_library.Base.{ℕ, ◌+◌, ◌≡◌, ◌≢◌, refl, true, false, none, some, List, [], ◌∷◌, ltb}
use ix_library.Player.Decoder.{
  video, running, Seconds, Packet, Effect, Worker, at_end, add_video, clear_video,
  wait_render_finished, notify_wait_to_clear, emit_finished,
}
use ix_library.Player.Decoder.Steps.{
  handle_finished, video_frames, last_clock, flush_video, flush_audio,
}
use ix_library.Player.Decoder.Loops.{Tick, done, going, decode, video_round}
use ix_library.Player.Decoder.Announce.{decode_announces}
use ix_library.Player.Decoder.Quiet.{finished_count}
use ix_library.Player.Decoder.Ends.{IsDone, stop_ends}

abbrev pub whole : Seconds
whole = record {
  T = ℕ;
  Pts = ℕ;
  zero = 0;
  minus_one = 0;
  add = λ a b. a + b;
  less = ltb;
  of_int = λ n. n;
  in_seconds = λ p. p;
}

abbrev worker : Worker ℕ
worker = record {
  state = running;
  is_decoding = false;
  decode_clock = 0;
  fmt_type = video;
  duration = 10;
  video_stream_idx = 0;
  audio_stream_idx = 1;
}

abbrev frames_of : ℕ → Packet ℕ
frames_of n = record {
  stream_index = 0;
  pts = some n;
  frames = (record { pts = some n; converts = true }) ∷ [];
}

abbrev playing : Tick ℕ ℕ
playing = record {
  is_stopped = false;
  seek_offset = none;
  current = 0;
  packet = some (frames_of 3);
  last_pts = none;
  flushed_video = at_end ∷ [];
  flushed_audio = at_end ∷ [];
}

abbrev stopping : Tick ℕ ℕ
stopping = record playing { is_stopped = true }

abbrev ended : Worker ℕ
ended = record worker { decode_clock = 3 }

abbrev effects : List (Effect ℕ)
effects =
    add_video (some 3)
    ∷ clear_video
    ∷ add_video none
    ∷ wait_render_finished
    ∷ notify_wait_to_clear
    ∷ emit_finished
    ∷ notify_wait_to_clear
    ∷ emit_finished
    ∷ []

run_to_stop : decode whole (playing ∷ stopping ∷ []) worker ≡ done ended effects
unfolding decode video_round handle_finished video_frames last_clock
run_to_stop = refl

decode_announces_example :
    (decode whole (playing ∷ stopping ∷ []) worker ≡ done ended effects
      → (finished_count effects ≡ 2) × (ended.is_decoding ≡ false))
    × (decode whole (playing ∷ stopping ∷ []) worker ≡ going ended effects
        → finished_count effects ≡ 0)
decode_announces_example =
    decode_announces whole (playing ∷ stopping ∷ []) worker ended effects (λ e. cc)

can_flush :
    (flush_video whole none (at_end ∷ []) ≢ none) × (flush_audio whole none (at_end ∷ []) ≢ none)
unfolding flush_video flush_audio
can_flush = ((λ e. cc), (λ e. cc))

stop_ends_example : IsDone whole (decode whole (playing ∷ stopping ∷ []) worker)
stop_ends_example = stop_ends whole stopping refl refl (playing ∷ []) [] worker (can_flush, tt)
