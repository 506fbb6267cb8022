-- ===== src/Tests/Windows.antt =====
-- The player's window on small inputs.
use ix_library.Base.{ℕ, List, ◌≡◌, refl, true, false, none, [], ◌∷◌, ◌++◌, utf8, same}
use ix_library.Player.Decoder.{video_with_audio, audio}
use ix_library.Player.Window.{Window, start_pretreatment, type_of, double_clicked, no_clock}
use ix_library.Player.Window.Keys.{left}
use ix_library.Player.Window.Opening.{
  plays, opens, gets_ready, finishes, presses, worker_sets, calls, Call, Holds, calls-Holds,
}
use ix_library.Player.Window.Twice.{Crossed, opened_twice}
use ix_library.Tests.DecoderRuns.{whole}

abbrev idle : Window ℕ
idle = record {
  is_decoding = false;
  seek_offset = 0;
  seek_pos = 0;
  is_paused = false;
  is_stopped = false;
  play_checked = false;
  says_stop = false;
  timer_runs = false;
  slider_busy = false;
  audio_thread = none;
  render_thread = none;
  current_time = no_clock;
  alive = [];
  made = 0;
  signals = [];
}

idle-Holds : Holds idle
idle-Holds = record { below = tt; sound = tt; picture = tt; apart = tt }

abbrev evening : List (Call ℕ)
evening =
    opens (utf8 "a") (utf8 "mp4")
    ∷ gets_ready video_with_audio
    ∷ worker_sets true
    ∷ presses left
    ∷ plays false
    ∷ finishes
    ∷ gets_ready audio
    ∷ []

calls-Holds_example : Holds (calls whole evening idle)
calls-Holds_example = calls-Holds whole evening idle idle-Holds

opened_twice_example :
    let v = double_clicked (utf8 "b") (utf8 "mp4") (double_clicked (utf8 "a") (utf8 "mp4") idle) in
    (v.signals
      ≡ (idle.signals ++ (start_pretreatment (type_of (utf8 "mp4")) (utf8 "a") ∷ []))
        ++ (start_pretreatment (type_of (utf8 "mp4")) (utf8 "b") ∷ []))
    × Crossed video_with_audio v
unfolding same utf8
opened_twice_example =
    opened_twice video_with_audio (utf8 "a") (utf8 "mp4") (utf8 "b") (utf8 "mp4") idle refl refl
      refl refl refl refl
