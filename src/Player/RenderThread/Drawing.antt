-- ===== src/Player/RenderThread/Drawing.antt =====
-- Which frames are drawn, and in which order.
use ix_library.Base.{
  ℕ, ◌+◌, ◌≤◌, ◌<◌, ◌≡◌, refl, sym, ap, ◌∙◌, Bool, true, false, Bool-cases, inl, inr, ◌⊎◌, Option,
  none, some, List, [], ◌∷◌, ◌++◌, append-nil, append_assoc, ltb, ltb→lt, ltb→le, if◌then◌else◌,
}
use ix_library.Player.PauseElapsedTimer.{PauseElapsedTimer}
use ix_library.Player.RenderThread.{
  VideoData, Fate, drawn, dropped, cleared, RenderThread, Change, adds, clears, sets_dst,
  sets_resize, Tick, add_video_frame, all_cleared, clear_buffer, change, change_all, clock, hold,
  taken, resized, present, is_empty, turn, turns, run, create, started,
}

-- A frame is drawn from 10 ms before its time to 100 ms after it, and dropped when it is later.
abbrev pub IsOnTime : Option VideoData × Fate → Type 0
IsOnTime (v, cleared) = Unit {0}
IsOnTime (none, drawn now) = ⊥
IsOnTime (some v, drawn now) = (v.pts ≤ now + 10) × (now ≤ v.pts + 100)
IsOnTime (none, dropped now) = ⊥
IsOnTime (some v, dropped now) = v.pts + 100 < now

abbrev pub AllOnTime : List (Option VideoData × Fate) → Type 0
AllOnTime [] = Unit {0}
AllOnTime (e ∷ es) = IsOnTime e × AllOnTime es

abbrev pub frames_of : List (Option VideoData × Fate) → List (Option VideoData)
frames_of [] = []
frames_of ((v, f) ∷ es) = v ∷ frames_of es

AllOnTime-append :
    (xs ys : List (Option VideoData × Fate)) → AllOnTime xs → AllOnTime ys → AllOnTime (xs ++ ys)
AllOnTime-append [] ys a b = b
AllOnTime-append (x ∷ xs) ys (h, a) b = (h, AllOnTime-append xs ys a b)

frames_of-append :
    (xs ys : List (Option VideoData × Fate)) → frames_of (xs ++ ys) ≡ frames_of xs ++ frames_of ys
frames_of-append [] ys = refl
frames_of-append ((v, f) ∷ xs) ys = ap (λ l. v ∷ l) (frames_of-append xs ys)

frames_of-all_cleared : (vs : List (Option VideoData)) → frames_of (all_cleared vs) ≡ vs
frames_of-all_cleared [] = refl
frames_of-all_cleared (v ∷ vs) = ap (λ l. v ∷ l) (frames_of-all_cleared vs)

all_cleared-AllOnTime : (vs : List (Option VideoData)) → AllOnTime (all_cleared vs)
all_cleared-AllOnTime [] = tt
all_cleared-AllOnTime (v ∷ vs) = (tt, all_cleared-AllOnTime vs)

-- Every frame that was added has left or is queued, in order, and has left for its reason.
record Accounts (added queued : List (Option VideoData)) (gone : List (Option VideoData × Fate))
    : Type 0 where
  kept : frames_of gone ++ queued ≡ added
  timely : AllOnTime gone

abbrev IsAccounted : RenderThread → Type 0
IsAccounted r = Accounts r.added r.video_frames r.gone

change-IsAccounted : (c : Change) (r : RenderThread) → IsAccounted r → IsAccounted (change c r)
unfolding change add_video_frame clear_buffer
change-IsAccounted (adds v) r a = record {
  kept =
      sym (append_assoc (frames_of r.gone) r.video_frames (v ∷ []))
      ∙ ap (λ l. l ++ (v ∷ [])) a.kept;
  timely = a.timely;
}
change-IsAccounted clears r a = record {
  kept =
      append-nil (frames_of (r.gone ++ all_cleared r.video_frames))
      ∙ frames_of-append r.gone (all_cleared r.video_frames)
      ∙ ap (λ l. frames_of r.gone ++ l) (frames_of-all_cleared r.video_frames)
      ∙ a.kept;
  timely =
      AllOnTime-append r.gone (all_cleared r.video_frames) a.timely
        (all_cleared-AllOnTime r.video_frames);
}
change-IsAccounted (sets_dst w h) r a = a
change-IsAccounted (sets_resize b) r a = a

change_all-IsAccounted :
    (cs : List Change) (r : RenderThread) → IsAccounted r → IsAccounted (change_all cs r)
unfolding change_all
change_all-IsAccounted [] r a = a
change_all-IsAccounted (c ∷ cs) r a =
    change_all-IsAccounted cs (change c r) (change-IsAccounted c r a)

taken-Accounts :
    (added rest : List (Option VideoData)) (v : VideoData) (gone : List (Option VideoData × Fate))
    (fate : Fate)
    → Accounts added (some v ∷ rest) gone
    → IsOnTime (some v, fate)
    → Accounts added rest (gone ++ ((some v, fate) ∷ []))
taken-Accounts added rest v gone fate a h = record {
  kept =
      ap (λ l. l ++ rest) (frames_of-append gone ((some v, fate) ∷ []))
      ∙ append_assoc (frames_of gone) (some v ∷ []) rest
      ∙ a.kept;
  timely = AllOnTime-append gone ((some v, fate) ∷ []) a.timely (h, tt);
}

resized-IsAccounted : (r : RenderThread) → IsAccounted r → IsAccounted (resized r)
resized-IsAccounted r a = by_flag (Bool-cases r.is_window_resize)
  where
    by_flag : (r.is_window_resize ≡ true) ⊎ (r.is_window_resize ≡ false) → IsAccounted (resized r)
    by_flag (inl f) = rw f a
    by_flag (inr f) = rw f a

present-IsAccounted :
    (now : ℕ) (queue : List (Option VideoData)) (r : RenderThread)
    → Accounts r.added queue r.gone
    → r.video_frames ≡ queue
    → IsAccounted (present now queue r).1
unfolding present
present-IsAccounted now [] r a e = rw e a
present-IsAccounted now (none ∷ rest) r a e = rw e a
present-IsAccounted now (some v ∷ rest) r a e =
    by_time (Bool-cases (ltb (now + 10) v.pts)) (Bool-cases (ltb (v.pts + 100) now))
  where
    s : RenderThread
    s = record r { render_clock = v.pts }

    by_time :
        (ltb (now + 10) v.pts ≡ true) ⊎ (ltb (now + 10) v.pts ≡ false)
        → (ltb (v.pts + 100) now ≡ true) ⊎ (ltb (v.pts + 100) now ≡ false)
        → IsAccounted (present now (some v ∷ rest) r).1
    by_time (inl early) l = rw (early, present, e) a
    by_time (inr early) (inl late) =
        rw (early, late, present)
          (taken-Accounts r.added rest v r.gone (dropped now) a (ltb→lt (v.pts + 100) now late))
    by_time (inr early) (inr late) =
        rw (early, late, present)
          (resized-IsAccounted (taken rest v (drawn now) s) (
            taken-Accounts r.added rest v r.gone (drawn now) a
              (ltb→le (now + 10) v.pts early, ltb→le (v.pts + 100) now late)))

hold-IsAccounted : (tick : Tick) (r : RenderThread) → IsAccounted r → IsAccounted (hold tick r)
unfolding hold
hold-IsAccounted tick r a = change_all-IsAccounted tick.meanwhile r a

turn-IsAccounted : (tick : Tick) (r : RenderThread) → IsAccounted r → IsAccounted (turn tick r).1
unfolding turn
turn-IsAccounted tick r a =
    by_turn (Bool-cases (is_empty r.video_frames)) (Bool-cases tick.is_paused)
  where
    s : RenderThread
    s = record r { localtime = clock tick r }

    by_turn :
        (is_empty r.video_frames ≡ true) ⊎ (is_empty r.video_frames ≡ false)
        → (tick.is_paused ≡ true) ⊎ (tick.is_paused ≡ false)
        → IsAccounted (turn tick r).1
    by_turn (inl none_there) p = rw (none_there, turn) a
    by_turn (inr there) (inl p) =
        rw (there, p, turn)
          (present-IsAccounted (clock tick r) (hold tick s).video_frames (hold tick s)
            (hold-IsAccounted tick s a) refl)
    by_turn (inr there) (inr p) =
        rw (there, p, turn) (present-IsAccounted (clock tick r) s.video_frames s a refl)

turns-IsAccounted : (ts : List Tick) (r : RenderThread) → IsAccounted r → IsAccounted (turns ts r)
unfolding turns
turns-IsAccounted [] r a = a
turns-IsAccounted (t ∷ ts) r a =
    let b = turn-IsAccounted t (change_all t.before r) (change_all-IsAccounted t.before r a) in
    by_end (turn t (change_all t.before r)).0 b
      (turns-IsAccounted ts (turn t (change_all t.before r)).1 b)
  where
    by_end :
        (goes_on : Bool)
        → IsAccounted (turn t (change_all t.before r)).1
        → IsAccounted (turns ts (turn t (change_all t.before r)).1)
        → IsAccounted (
            if goes_on
            then turns ts (turn t (change_all t.before r)).1
            else (turn t (change_all t.before r)).1)
    by_end true b c = c
    by_end false b c = b

-- Whatever frames are added and cleared, and however the thread is paused: the frames that left the
-- queue and those still in it are those that were added, in order, each once; a frame that was drawn
-- was drawn from 10 ms before its time to 100 ms after it, by the clock that its turn read, and one
-- that was dropped was later than that.
pub run_draws_on_time :
    (now : ℕ) (ticks : List Tick) (timer : Option PauseElapsedTimer)
    → (frames_of (run now ticks (create timer)).gone ++ (run now ticks (create timer)).video_frames
        ≡ (run now ticks (create timer)).added)
      × AllOnTime (run now ticks (create timer)).gone
unfolding run
run_draws_on_time now ticks timer =
    let a =
      turns-IsAccounted ticks (record (create timer) { local_timer = started now timer })
        (record { kept = refl; timely = tt }) in
    (a.kept, a.timely)
