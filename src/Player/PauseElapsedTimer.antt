-- ===== src/Player/PauseElapsedTimer.antt =====
-- The clock of a film without sound, projects/龙卷风播放器/src/utils/PauseElapsedTimer/PauseElpasedTimer.h.
-- Each call is given the time at which it is made; `QElapsedTimer` is the time of its last start.
use ix_library.Base.{
  ℕ, ◌+◌, ◌-◌, ◌≤◌, ◌≡◌, ap, ◌∙◌, Bool, true, false, List, [], ◌∷◌, if◌then◌else◌, arith,
}

pub record PauseElapsedTimer : Type 0 where
  pub started_at : ℕ
  pub elapsed_before_pause : ℕ
  pub is_paused : Bool

unfoldable pub start : ℕ → PauseElapsedTimer → PauseElapsedTimer
start now t = record { started_at = now; elapsed_before_pause = 0; is_paused = false }

unfoldable pub pause : ℕ → PauseElapsedTimer → PauseElapsedTimer
pause now t = if t.is_paused then t else record t {
  elapsed_before_pause = t.elapsed_before_pause + (now - t.started_at);
  is_paused = true;
}

unfoldable pub resume : ℕ → PauseElapsedTimer → PauseElapsedTimer
resume now t = if t.is_paused then record t { started_at = now; is_paused = false } else t

unfoldable pub elapsed : ℕ → PauseElapsedTimer → ℕ
elapsed now t =
    if t.is_paused then t.elapsed_before_pause else t.elapsed_before_pause + (now - t.started_at)

-- What is called after the start.
pub data Press : Type 0 where
  pauses resumes : ℕ → Press

unfoldable pub press : Press → PauseElapsedTimer → PauseElapsedTimer
unfolding pause resume
press (pauses now) t = pause now t
press (resumes now) t = resume now t

unfoldable pub press_all : List Press → PauseElapsedTimer → PauseElapsedTimer
unfolding press
press_all [] t = t
press_all (p ∷ ps) t = press_all ps (press p t)

abbrev pub time_of : Press → ℕ
time_of (pauses now) = now
time_of (resumes now) = now

abbrev pub pauses_at : Press → Bool
pauses_at (pauses now) = true
pauses_at (resumes now) = false

-- The times never go back, from `last` to `now`.
abbrev pub IsForward : ℕ → List Press → ℕ → Type 0
IsForward last [] now = last ≤ now
IsForward last (p ∷ ps) now = (last ≤ time_of p) × IsForward (time_of p) ps now

-- The time in which a clock ran: the sum of the stretches between two calls that came after a resume.
abbrev pub running : Bool → ℕ → List Press → ℕ → ℕ
running paused last [] now = if paused then 0 else now - last
running paused last (p ∷ ps) now =
    (if paused then 0 else time_of p - last) + running (pauses_at p) (time_of p) ps now

-- The running clock was started no later than the last call.
abbrev IsStarted : ℕ → PauseElapsedTimer → Type 0
IsStarted last t = t.is_paused ≡ false → t.started_at ≤ last

record Pressed (last : ℕ) (p : Press) (t : PauseElapsedTimer) : Type 0 where
  state : (press p t).is_paused ≡ pauses_at p
  started : IsStarted (time_of p) (press p t)
  counted :
      elapsed (time_of p) (press p t)
      ≡ elapsed last t + (if t.is_paused then 0 else time_of p - last)

press-Pressed :
    (last : ℕ) (p : Press) (t : PauseElapsedTimer)
    → IsStarted last t
    → last ≤ time_of p
    → Pressed last p t
unfolding press pause resume elapsed
press-Pressed last (pauses now) t s h = record {
  state = ground arith;
  started = ground arith;
  counted = ground arith;
}
press-Pressed last (resumes now) t s h = record {
  state = ground arith;
  started = ground arith;
  counted = ground arith;
}

elapsed-press_all :
    (last : ℕ) (ps : List Press) (now : ℕ) (t : PauseElapsedTimer)
    → IsStarted last t
    → IsForward last ps now
    → elapsed now (press_all ps t) ≡ elapsed last t + running t.is_paused last ps now
unfolding press_all elapsed
elapsed-press_all last [] now t s h = ground arith
elapsed-press_all last (p ∷ ps) now t s (h, hs) =
    let d = press-Pressed last p t s h in
    elapsed-press_all (time_of p) ps now (press p t) d.started hs
    ∙ ap (λ b. elapsed (time_of p) (press p t) + running b (time_of p) ps now) d.state
    ∙ ap (λ n. n + running (pauses_at p) (time_of p) ps now) d.counted
    ∙ omega arith

-- After a start and whatever calls of `pause` and `resume`, at times that do not go back, `elapsed` is
-- the time since the start less all the stretches in which the timer was paused; a call that repeats
-- the one before it changes nothing.
pub elapsed-running :
    (first : ℕ) (ps : List Press) (now : ℕ) (t : PauseElapsedTimer)
    → IsForward first ps now
    → elapsed now (press_all ps (start first t)) ≡ running false first ps now
unfolding start elapsed
elapsed-running first ps now t h =
    elapsed-press_all first ps now (start first t) (λ e. omega arith) h ∙ omega arith
