-- ===== src/Player/Window/Opening.antt =====
-- The thread objects of projects/龙卷风播放器/app/MainWindow.cpp: which the window holds, which the decoder
-- was given, and which are deleted.
use ix_library.Base.{
  ℕ, suc, ◌<◌, ◌≡◌, refl, sym, Bool, true, false, Option, none, some, List, [], ◌∷◌, ◌==◌, ◌||◌,
  ◌≢◌, eq→==, Bool-cases, inl, inr, arith,
}
use ix_library.Wire.{Bytes}
use ix_library.Player.Decoder.{DecodeType, video_with_audio, video, audio, unknown, Seconds}
use ix_library.Player.Window.{
  Window, play_clicked, double_clicked, remove, make_audio, make_render, init_start_video,
  format_ready, delete, video_finished, slider_moved, slider_released,
}
use ix_library.Player.Window.Keys.{
  Key, key_pressed, left, right, space, other, event_filter, key_press_event,
}

abbrev pub lives : ℕ → List ℕ → Bool
lives n [] = false
lives n (m ∷ ms) = (m == n) || lives n ms

-- A pointer that is null or to an object that exists.
abbrev pub IsLive : Option ℕ → List ℕ → Type 0
IsLive none ms = Unit
IsLive (some n) ms = lives n ms ≡ true

abbrev pub AreBelow : ℕ → List ℕ → Type 0
AreBelow n [] = Unit
AreBelow n (m ∷ ms) = (m < n) × AreBelow n ms

abbrev pub Differ : Option ℕ → Option ℕ → Type 0
Differ (some m) (some n) = m ≢ n
Differ _ _ = Unit

-- What happens to the window: its slots, in any order, and the worker's flag set.
pub data Call (T : Type 0) : Type 0 where
  plays : Bool → Call T
  opens : Bytes → Bytes → Call T
  gets_ready : DecodeType → Call T
  finishes : Call T
  moves : Call T
  releases : T → Call T
  presses : Key → Call T
  worker_sets : Bool → Call T

module _ (s : Seconds) where
  open s use {T}

  unfoldable pub call : Call T → Window T → Window T
  call (plays value) w = play_clicked value w
  call (opens path suffix) w = double_clicked path suffix w
  call (gets_ready t) w = format_ready t w
  call finishes w = video_finished w
  call moves w = slider_moved w
  call (releases offset) w = slider_released offset w
  call (presses key) w = key_pressed s key w
  call (worker_sets b) w = record w { is_decoding = b }

  unfoldable pub calls : List (Call T) → Window T → Window T
  unfolding call
  calls [] w = w
  calls (c ∷ cs) w = calls cs (call c w)

-- The threads of a window.
pub record Holds {T : Type 0} (w : Window T) : Type 0 where
  pub below : AreBelow w.made w.alive
  pub sound : IsLive w.audio_thread w.alive
  pub picture : IsLive w.render_thread w.alive
  pub apart : Differ w.audio_thread w.render_thread

record SameThreads {T : Type 0} (w v : Window T) : Type 0 where
  sound : v.audio_thread ≡ w.audio_thread
  picture : v.render_thread ≡ w.render_thread
  alive : v.alive ≡ w.alive
  made : v.made ≡ w.made

SameThreads-Holds : {T : Type 0} (w v : Window T) → SameThreads w v → Holds w → Holds v
SameThreads-Holds w v e h = record {
  below = rw (e.made, e.alive) h.below;
  sound = rw (e.sound, e.alive) h.sound;
  picture = rw (e.picture, e.alive) h.picture;
  apart = rw (e.sound, e.picture) h.apart;
}

play_clicked-SameThreads :
    {T : Type 0} (value : Bool) (w : Window T) → SameThreads w (play_clicked value w)
unfolding play_clicked
play_clicked-SameThreads value w = ground arith

double_clicked-SameThreads :
    {T : Type 0} (path suffix : Bytes) (w : Window T) → SameThreads w (double_clicked path suffix w)
unfolding double_clicked
double_clicked-SameThreads path suffix w = ground arith

key_pressed-SameThreads :
    (s : Seconds) (key : Key) (w : Window s.T) → SameThreads w (key_pressed s key w)
unfolding key_pressed event_filter key_press_event play_clicked
key_pressed-SameThreads s left w = ground arith
key_pressed-SameThreads s right w = ground arith
key_pressed-SameThreads s space w = ground arith
key_pressed-SameThreads s other w = ground arith

lives-cons : (n m : ℕ) (ms : List ℕ) → lives n ms ≡ true → lives n (m ∷ ms) ≡ true
lives-cons n m ms h = ground arith

IsLive-cons : (o : Option ℕ) (m : ℕ) (ms : List ℕ) → IsLive o ms → IsLive o (m ∷ ms)
IsLive-cons none m ms h = tt
IsLive-cons (some n) m ms h = lives-cons n m ms h

AreBelow-suc : (n : ℕ) (ms : List ℕ) → AreBelow n ms → AreBelow (suc n) ms
AreBelow-suc n [] h = tt
AreBelow-suc n (m ∷ ms) (h, hs) = (omega arith, AreBelow-suc n ms hs)

lives-below : (n k : ℕ) (ms : List ℕ) → AreBelow k ms → lives n ms ≡ true → n < k
lives-below n k [] b h = absurd (cc)
lives-below n k (m ∷ ms) (b, bs) h = elim (Bool-cases (m == n)) [
  | inl e ↦ ground arith
  | inr e ↦ lives-below n k ms bs (rw e at h)
]

IsLive-new : (o : Option ℕ) (k : ℕ) (ms : List ℕ) → AreBelow k ms → IsLive o ms → Differ (some k) o
IsLive-new none k ms b h = tt
IsLive-new (some n) k ms b h = λ e. absurd (omega (arith, e, lives-below n k ms b h))

Differ-sym : (o p : Option ℕ) → Differ o p → Differ p o
Differ-sym none none h = tt
Differ-sym none (some n) h = tt
Differ-sym (some m) none h = tt
Differ-sym (some m) (some n) h = λ e. h (sym e)

make_audio-Holds : {T : Type 0} (w : Window T) → Holds w → Holds (make_audio w)
unfolding make_audio
make_audio-Holds w h = record {
  below = (omega arith, AreBelow-suc w.made w.alive h.below);
  sound = rw (eq→== w.made w.made refl) refl;
  picture = IsLive-cons w.render_thread w.made w.alive h.picture;
  apart = IsLive-new w.render_thread w.made w.alive h.below h.picture;
}

make_render-Holds : {T : Type 0} (w : Window T) → Holds w → Holds (make_render w)
unfolding make_render
make_render-Holds w h = record {
  below = (omega arith, AreBelow-suc w.made w.alive h.below);
  sound = IsLive-cons w.audio_thread w.made w.alive h.sound;
  picture = rw (eq→== w.made w.made refl) refl;
  apart =
      Differ-sym (some w.made) w.audio_thread
        (IsLive-new w.audio_thread w.made w.alive h.below h.sound);
}

format_ready-Holds :
    {T : Type 0} (t : DecodeType) (w : Window T) → Holds w → Holds (format_ready t w)
unfolding format_ready init_start_video
format_ready-Holds {T} t w h = by_type t
  where
    started : Window T
    started = record w { timer_runs = true; is_stopped = false }

    begun : Holds started
    begun = record { below = h.below; sound = h.sound; picture = h.picture; apart = h.apart }

    by_type : (t : DecodeType) → Holds (format_ready t w)
    by_type video_with_audio =
        let k = make_render-Holds _ (make_audio-Holds _ begun) in
        record { below = k.below; sound = k.sound; picture = k.picture; apart = k.apart }
    by_type audio =
        let k = make_audio-Holds _ begun in
        record { below = k.below; sound = k.sound; picture = k.picture; apart = k.apart }
    by_type video =
        let k = make_render-Holds _ begun in
        record { below = k.below; sound = k.sound; picture = k.picture; apart = k.apart }
    by_type unknown =
        let k = make_render-Holds _ (make_audio-Holds _ begun) in
        record { below = k.below; sound = k.sound; picture = k.picture; apart = k.apart }

AreBelow-remove : (n k : ℕ) (ms : List ℕ) → AreBelow k ms → AreBelow k (remove n ms)
AreBelow-remove n k [] b = tt
AreBelow-remove n k (m ∷ ms) (b, bs) = elim (Bool-cases (m == n)) [
  | inl e ↦ rw e (AreBelow-remove n k ms bs)
  | inr e ↦ rw e (b, AreBelow-remove n k ms bs)
]

AreBelow-delete : (o : Option ℕ) (k : ℕ) (ms : List ℕ) → AreBelow k ms → AreBelow k (delete o ms)
unfolding delete
AreBelow-delete none k ms b = b
AreBelow-delete (some n) k ms b = AreBelow-remove n k ms b

video_finished-Holds : {T : Type 0} (w : Window T) → Holds w → Holds (video_finished w)
unfolding video_finished
video_finished-Holds w h =
    let p = play_clicked false w in
    let v = SameThreads-Holds w p (play_clicked-SameThreads false w) h in
    record {
      below =
          AreBelow-delete p.audio_thread p.made (delete p.render_thread p.alive)
            (AreBelow-delete p.render_thread p.made p.alive v.below);
      sound = tt;
      picture = tt;
      apart = tt;
    }

module _ (s : Seconds) where
  open s use {T}

  call-Holds : (c : Call T) (w : Window T) → Holds w → Holds (call s c w)
  unfolding call slider_moved slider_released
  call-Holds (plays value) w h = SameThreads-Holds w _ (play_clicked-SameThreads value w) h
  call-Holds (opens path suffix) w h =
      SameThreads-Holds w _ (double_clicked-SameThreads path suffix w) h
  call-Holds (gets_ready t) w h = format_ready-Holds t w h
  call-Holds finishes w h = video_finished-Holds w h
  call-Holds moves w h = record {
    below = h.below;
    sound = h.sound;
    picture = h.picture;
    apart = h.apart;
  }
  call-Holds (releases offset) w h = record {
    below = h.below;
    sound = h.sound;
    picture = h.picture;
    apart = h.apart;
  }
  call-Holds (presses key) w h = SameThreads-Holds w _ (key_pressed-SameThreads s key w) h
  call-Holds (worker_sets b) w h = record {
    below = h.below;
    sound = h.sound;
    picture = h.picture;
    apart = h.apart;
  }

  -- Whatever is called, in whatever order: from a window whose pointers are null or to different
  -- objects that exist, the window comes to such a window again, so it never deletes an object twice.
  pub calls-Holds : (cs : List (Call T)) (w : Window T) → Holds w → Holds (calls s cs w)
  unfolding calls
  calls-Holds [] w h = h
  calls-Holds (c ∷ cs) w h = calls-Holds cs (call s c w) (call-Holds c w h)
