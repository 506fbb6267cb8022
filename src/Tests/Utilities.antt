-- ===== src/Tests/Utilities.antt =====
-- The player's callback and clock, the thread pool and the logger on small inputs.
use ix_library.Base.{
  ℕ, ◌<◌, ◌≢◌, List, ◌+◌, ◌-◌, ◌≤◌, ◌≡◌, refl, true, false, none, some, [], ◌∷◌, ◌++◌, length, utf8,
  same, arith,
}
use ix_library.Actions.{ok}
use ix_library.Player.RingBuffer.Laws.{IsValid}
use ix_library.Player.AudioThread.{AudioThread, audio_call_back}
use ix_library.Player.AudioThread.Filling.{Fills, audio_call_back_fits}
use ix_library.Player.AudioThread.Playing
use ix_library.Player.AudioThread.Playing.{turns}
use ix_library.Player.AudioThread.Playing.Whole.{IsWhole, EndsWhole, turns-EndsWhole}
use ix_library.Player.PauseElapsedTimer.{
  PauseElapsedTimer, start, elapsed, press_all, pauses, resumes, running, elapsed-running,
}
use ix_library.Player.RenderThread
use ix_library.Player.RenderThread.{Tick, adds}
use ix_library.Player.RenderThread.Drawing.{AllOnTime, frames_of, run_draws_on_time}
use ix_library.SqlConnectionPool.{
  SqlConnectionPool, connections, acquire, acquires, step, Reached, first, next,
}
use ix_library.SqlConnectionPool.Conservation.{count, connections_kept}
use ix_library.ThreadPool.{ThreadPool, create, run, shut_down, submits, steps}
use ix_library.ThreadPool.Stopping.{stopped_pool_leaves_tasks}
use ix_library.Logger.{Logger, System, at_file, heading, log, split_last_dot}
use ix_library.Logger.Rotation.{Logged, log_keeps_lines}

abbrev two_frames : AudioThread
two_frames = record {
  audio_read_buf = some (record { data_ = 1 ∷ 2 ∷ 3 ∷ []; pos = 1 });
  ring = record {
    stopped = true;
    size_ = 1;
    buf = record { data_ = 4 ∷ 5 ∷ []; pos = 0 } ∷ [];
    capacity = 2;
  };
  played_samples = 0;
}

two_frames-IsValid : IsValid two_frames.ring
two_frames-IsValid = record { counted = refl; bounded = omega arith }

audio_call_back_fits_example : Fills 3 two_frames (audio_call_back 2 3 two_frames)
audio_call_back_fits_example = audio_call_back_fits 2 3 two_frames two_frames-IsValid

abbrev idle_timer : PauseElapsedTimer
idle_timer = record { started_at = 0; elapsed_before_pause = 9; is_paused = true }

elapsed-running_example :
    elapsed 27 (press_all (pauses 15 ∷ resumes 20 ∷ []) (start 10 idle_timer))
    ≡ running false 10 (pauses 15 ∷ resumes 20 ∷ []) 27
elapsed-running_example =
    elapsed-running 10 (pauses 15 ∷ resumes 20 ∷ []) 27 idle_timer
      (omega arith, (omega arith, omega arith))

-- One worker that waits, and three tasks.
abbrev busy : ThreadPool
busy = run (steps 0 ∷ submits 7 ∷ submits 8 ∷ submits 9 ∷ []) (create 1)

abbrev done : ThreadPool
done = run (steps 0 ∷ steps 0 ∷ steps 0 ∷ []) (shut_down busy)

two_left : done.tasks ≡ 8 ∷ 9 ∷ []
unfolding run create shut_down
two_left = refl

stopped_pool_leaves_tasks_example :
    (done.started ++ done.tasks ≡ done.submitted)
    × ((done.submitted ≡ busy.submitted) × (length busy.tasks ≤ length done.tasks + 1))
stopped_pool_leaves_tasks_example =
    stopped_pool_leaves_tasks 1 (steps 0 ∷ submits 7 ∷ submits 8 ∷ submits 9 ∷ [])
      (steps 0 ∷ steps 0 ∷ steps 0 ∷ []) busy done refl refl

abbrev working : System
working = record {
  log_time = some (utf8 "12:00");
  rotate_time = some (utf8 ".12_00");
  renames = true;
  opens = true;
}

-- Its file has three bytes, its limit is ten.
abbrev small_log : Logger
small_log = record {
  level = 1;
  len = 3;
  max_size = 10;
  filename = utf8 "a.log";
  is_open = true;
  failed = false;
  files = at_file (utf8 "a.log") (some (1 ∷ 2 ∷ 3 ∷ [])) (λ n. none);
}

dot_found : split_last_dot (utf8 "a.log") ≡ some (utf8 "a", utf8 ".log")
unfolding split_last_dot utf8
dot_found = refl

other_name : same (utf8 "a" ++ (utf8 ".12_00" ++ utf8 ".log")) (utf8 "a.log") ≡ false
unfolding same utf8
other_name = refl

other_file : small_log.files (utf8 "a" ++ (utf8 ".12_00" ++ utf8 ".log")) ≡ none
other_file = rw other_name refl

log_keeps_lines_example :
    ((log working 2 (utf8 "x.cpp") (utf8 "5") (utf8 "hello") small_log).0 ≡ ok tt)
    × Logged
        (utf8 "a" ++ (utf8 ".12_00" ++ utf8 ".log"))
        (heading (utf8 "12:00") 2 (utf8 "x.cpp") (utf8 "5") ++ (utf8 "hello" ++ utf8 "\n"))
        small_log
        (log working 2 (utf8 "x.cpp") (utf8 "5") (utf8 "hello") small_log).1
log_keeps_lines_example =
    log_keeps_lines working 2 (utf8 "x.cpp") (utf8 "5") (utf8 "hello") (utf8 "12:00")
      (utf8 ".12_00") (utf8 "a") (utf8 ".log") small_log refl refl refl refl refl refl refl
      dot_found other_name other_file

-- One frame is drawn, one is too late.
abbrev film : List Tick
film =
    record {
      now = 5;
      audio_clock = 0;
      is_paused = false;
      resumed = 0;
      before =
          adds (some (record { pts = 0; picture = 1 }))
          ∷ adds (some (record { pts = 40; picture = 2 }))
          ∷ [];
      meanwhile = [];
    }
    ∷ record {
      now = 300;
      audio_clock = 0;
      is_paused = false;
      resumed = 0;
      before = [];
      meanwhile = [];
    }
    ∷ []

film_played : (RenderThread.run 0 film (RenderThread.create (some idle_timer))).video_frames ≡ []
unfolding RenderThread.run start
film_played = refl

run_draws_on_time_example :
    (frames_of (RenderThread.run 0 film (RenderThread.create (some idle_timer))).gone
        ++ (RenderThread.run 0 film (RenderThread.create (some idle_timer))).video_frames
      ≡ (RenderThread.run 0 film (RenderThread.create (some idle_timer))).added)
    × AllOnTime (RenderThread.run 0 film (RenderThread.create (some idle_timer))).gone
run_draws_on_time_example = run_draws_on_time 0 film (some idle_timer)

abbrev one_out : SqlConnectionPool
one_out = record { pool = 1 ∷ 2 ∷ 3 ∷ 4 ∷ 5 ∷ 6 ∷ 7 ∷ 8 ∷ 9 ∷ []; held = 0 ∷ [] }

one_out_reached : Reached one_out
unfolding step
one_out_reached = next acquires first refl

connections_kept_example :
    ((c : ℕ) → count c one_out.pool + count c one_out.held ≡ count c connections)
    × ((length one_out.held < 10 → acquire one_out ≢ none)
        × (length one_out.held ≡ 10 → acquire one_out ≡ none))
connections_kept_example = connections_kept one_out one_out_reached

-- A frame that is thrown away, one that is played, and the end.
abbrev beep : Playing.Frame ℕ
beep = record { pts = 4; samples = 1 ∷ 2 ∷ [] }

abbrev quiet_player : Playing.Player ℕ
quiet_player = record {
  ring = record { stopped = false; size_ = 0; buf = []; capacity = 2 };
  at_hand = none;
  audio_clock = 0;
  events = [];
  added = [];
  gone = [];
}

quiet_player-IsWhole : IsWhole quiet_player
quiet_player-IsWhole = record {
  valid = record { counted = refl; bounded = omega arith };
  kept = refl;
  given = refl;
}

abbrev one_frame : List (Playing.Tick ℕ)
one_frame =
    record {
      is_paused = true;
      clear_asked = false;
      meanwhile = Playing.adds beep ∷ Playing.clears_ring ∷ Playing.adds beep ∷ Playing.ends ∷ [];
      queued_before = 0;
      queued_after = 200000;
      queued_later = (2, 2) ∷ [];
      clear_at_end = false;
    }
    ∷ record {
      is_paused = false;
      clear_asked = false;
      meanwhile = [];
      queued_before = 2;
      queued_after = 2;
      queued_later = [];
      clear_at_end = false;
    }
    ∷ []

turns-EndsWhole_example : EndsWhole (turns (λ pts n. pts - n) one_frame quiet_player)
turns-EndsWhole_example =
    turns-EndsWhole (λ pts n. pts - n) one_frame quiet_player quiet_player-IsWhole
