-- ===== src/Player/RenderThread.antt =====
-- The thread that draws the frames, projects/龙卷风播放器/src/RenderThread/RenderThread.cpp. Times are in
-- milliseconds, the arithmetic on them exact; what SDL draws is not modelled. `added` records what was
-- put into the queue, `gone` what left it, and why.
pub mod Drawing
use ix_library.Base.{
  ℕ, ◌+◌, Bool, true, false, Option, none, some, List, [], ◌∷◌, ◌++◌, ltb, if◌then◌else◌,
}
use ix_library.Player.PauseElapsedTimer.{PauseElapsedTimer, start, pause, resume, elapsed}

pub record VideoData : Type 0 where
  pub pts : ℕ
  pub picture : ℕ

-- A null pointer, `none`, tells the end. A frame is drawn or dropped at a time of the clock.
pub data Fate : Type 0 where
  drawn dropped : ℕ → Fate
  cleared : Fate

pub record RenderThread : Type 0 where
  pub local_timer : Option PauseElapsedTimer
  pub video_frames : List (Option VideoData)
  pub render_clock : ℕ
  pub localtime : ℕ
  pub dst_w : ℕ
  pub dst_h : ℕ
  pub is_window_resize : Bool
  pub window : ℕ × ℕ
  pub is_finished : Bool
  pub added : List (Option VideoData)
  pub gone : List (Option VideoData × Fate)

-- `isPaused`, and the times that a turn reads: at its start, of the audio thread's clock, and when the
-- wait is over; with what the other threads call while it waits.
pub data Change : Type 0 where
  adds : Option VideoData → Change
  clears : Change
  sets_dst : ℕ → ℕ → Change
  sets_resize : Bool → Change

pub record Tick : Type 0 where
  pub now : ℕ
  pub audio_clock : ℕ
  pub is_paused : Bool
  pub resumed : ℕ
  pub before : List Change
  pub meanwhile : List Change

unfoldable pub add_video_frame : Option VideoData → RenderThread → RenderThread
add_video_frame v r = record r {
  video_frames = r.video_frames ++ (v ∷ []);
  added = r.added ++ (v ∷ []);
}

abbrev pub all_cleared : List (Option VideoData) → List (Option VideoData × Fate)
all_cleared [] = []
all_cleared (v ∷ vs) = (v, cleared) ∷ all_cleared vs

unfoldable pub clear_buffer : RenderThread → RenderThread
clear_buffer r = record r { video_frames = []; gone = r.gone ++ all_cleared r.video_frames }

unfoldable pub change : Change → RenderThread → RenderThread
unfolding add_video_frame clear_buffer
change (adds v) r = add_video_frame v r
change clears r = clear_buffer r
change (sets_dst w h) r = record r { dst_w = w; dst_h = h }
change (sets_resize b) r = record r { is_window_resize = b }

unfoldable pub change_all : List Change → RenderThread → RenderThread
unfolding change
change_all [] r = r
change_all (c ∷ cs) r = change_all cs (change c r)

unfoldable pub clock : Tick → RenderThread → ℕ
unfolding elapsed
clock tick r = elim r.local_timer [ none ↦ tick.audio_clock | some t ↦ elapsed tick.now t ]

-- The wait, with the timer stopped.
unfoldable pub hold : Tick → RenderThread → RenderThread
unfolding change_all pause resume
hold tick r =
    let timer : Option PauseElapsedTimer = elim r.local_timer [
      | none ↦ none
      | some t ↦ some (resume tick.resumed (pause tick.now t))
    ] in
    record (change_all tick.meanwhile r) { local_timer = timer }

abbrev pub taken : List (Option VideoData) → VideoData → Fate → RenderThread → RenderThread
taken rest v fate r = record r { video_frames = rest; gone = r.gone ++ ((some v, fate) ∷ []) }

-- A window that was stretched gets its size when a frame is drawn.
abbrev pub resized : RenderThread → RenderThread
resized r =
    if r.is_window_resize
    then record r { window = (r.dst_w, r.dst_h); is_window_resize = false }
    else r

-- The part under the lock, at a time of the clock: whether the loop goes on.
unfoldable pub present : ℕ → List (Option VideoData) → RenderThread → Bool × RenderThread
present now [] r = (true, r)
present now (none ∷ rest) r = (false, record r { is_finished = true })
present now (some v ∷ rest) r =
    let s = record r { render_clock = v.pts } in
    if ltb (now + 10) v.pts
    then (true, s)
    else if ltb (v.pts + 100) now
    then (true, taken rest v (dropped now) s)
    else (true, resized (taken rest v (drawn now) s))

abbrev pub is_empty : List (Option VideoData) → Bool
is_empty [] = true
is_empty (v ∷ vs) = false

unfoldable pub turn : Tick → RenderThread → Bool × RenderThread
unfolding clock hold present
turn tick r =
    let now = clock tick r in
    let s = record r { localtime = now } in
    let held = if tick.is_paused then hold tick s else s in
    if is_empty s.video_frames then (true, s) else present now held.video_frames held

-- The loop over its turns, with what the other threads call before each.
unfoldable pub turns : List Tick → RenderThread → RenderThread
unfolding turn change_all
turns [] r = r
turns (t ∷ ts) r =
    let (goes_on, s) = turn t (change_all t.before r) in
    let rest = turns ts s in if goes_on then rest else s

abbrev pub started : ℕ → Option PauseElapsedTimer → Option PauseElapsedTimer
started now none = none
started now (some t) = some (start now t)

unfoldable pub run : ℕ → List Tick → RenderThread → RenderThread
unfolding turns
run now ticks r = turns ticks (record r { local_timer = started now r.local_timer })

-- The constructor; there is a timer where there is no audio thread.
abbrev pub create : Option PauseElapsedTimer → RenderThread
create timer = record {
  local_timer = timer;
  video_frames = [];
  render_clock = 0;
  localtime = 0;
  dst_w = 0;
  dst_h = 0;
  is_window_resize = false;
  window = (0, 0);
  is_finished = false;
  added = [];
  gone = [];
}
