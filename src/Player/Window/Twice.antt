-- ===== src/Player/Window/Twice.antt =====
-- Two files opened one after the other before the first one plays, projects/龙卷风播放器/app/MainWindow.cpp.
use ix_library.Base.{
  ℕ, suc, ◌<◌, ◌≡◌, refl, ap, sym, subst, ◌∙◌, true, false, Option, none, some, List, [], ◌∷◌, ◌++◌,
  ◌≢◌, eq→==, same, Bool-cases, inl, inr, arith,
}
use ix_library.Wire.{Bytes}
use ix_library.Player.Decoder.{DecodeType, video_with_audio, video, audio, unknown}
use ix_library.Player.Window.{
  Window, Request, start_pretreatment, decode_ready, play_clicked, type_of, double_clicked, remove,
  make_audio, make_render, init_start_video, is_known, format_ready, delete, video_finished, emit,
}
use ix_library.Player.Window.Opening.{lives, IsLive}

-- A pointer to an object that no longer exists.
abbrev pub IsGone : Option ℕ → List ℕ → Type 0
IsGone none ms = Unit
IsGone (some n) ms = lives n ms ≡ false

abbrev pub request : {T : Type 0} → DecodeType → Window T → Request
request t w = record { of_type = t; with_audio = w.audio_thread; with_render = w.render_thread }

lives-remove : (n : ℕ) (ms : List ℕ) → lives n (remove n ms) ≡ false
lives-remove n [] = refl
lives-remove n (m ∷ ms) = ground (arith, lives-remove n ms)

lives-remove_other : (n k : ℕ) (ms : List ℕ) → n ≢ k → lives n (remove k ms) ≡ lives n ms
lives-remove_other n k [] d = refl
lives-remove_other n k (m ∷ ms) d = ground (arith, lives-remove_other n k ms d)

-- What comes of the two announcements and the end of the first file.
pub record Crossed {T : Type 0} (t : DecodeType) (w : Window T) : Type 0 where
  pub emitted :
      (format_ready t (format_ready t w)).signals
      ≡ (w.signals ++ (decode_ready (request t (format_ready t w)) ∷ []))
        ++ (decode_ready (request t (format_ready t (format_ready t w))) ∷ [])
  pub sound_gone :
      IsGone
        (format_ready t (format_ready t w)).audio_thread
        (video_finished (format_ready t (format_ready t w))).alive
  pub picture_gone :
      IsGone
        (format_ready t (format_ready t w)).render_thread
        (video_finished (format_ready t (format_ready t w))).alive
  pub no_sound : (video_finished (format_ready t (format_ready t w))).audio_thread ≡ none
  pub no_picture : (video_finished (format_ready t (format_ready t w))).render_thread ≡ none
  pub sound_left :
      IsLive
        (format_ready t w).audio_thread
        (video_finished (format_ready t (format_ready t w))).alive
  pub picture_left :
      IsLive
        (format_ready t w).render_thread
        (video_finished (format_ready t (format_ready t w))).alive

lives-remove_gone : (n k : ℕ) (ms : List ℕ) → lives n ms ≡ false → lives n (remove k ms) ≡ false
lives-remove_gone n k [] g = refl
lives-remove_gone n k (m ∷ ms) g = ground (arith, lives-remove_gone n k ms)

IsGone-delete : (o : Option ℕ) (ms : List ℕ) → IsGone o (delete o ms)
unfolding delete
IsGone-delete none ms = tt
IsGone-delete (some n) ms = lives-remove n ms

IsGone-delete_after : (o p : Option ℕ) (ms : List ℕ) → IsGone o ms → IsGone o (delete p ms)
unfolding delete
IsGone-delete_after o none ms g = g
IsGone-delete_after none (some k) ms g = tt
IsGone-delete_after (some n) (some k) ms g = lives-remove_gone n k ms g

abbrev IsOther : ℕ → Option ℕ → Type 0
IsOther n none = Unit
IsOther n (some k) = n ≢ k

IsLive-delete :
    (n : ℕ) (o : Option ℕ) (ms : List ℕ)
    → IsOther n o
    → lives n ms ≡ true
    → lives n (delete o ms) ≡ true
unfolding delete
IsLive-delete n none ms d h = h
IsLive-delete n (some k) ms d h = lives-remove_other n k ms d ∙ h

finished_alive :
    {T : Type 0} (w : Window T)
    → (video_finished w).alive ≡ delete w.audio_thread (delete w.render_thread w.alive)
unfolding video_finished play_clicked
finished_alive w = elim (Bool-cases w.is_decoding) [ inl e ↦ rw e refl | inr e ↦ rw e refl ]

sound_deleted : {T : Type 0} (w : Window T) → IsGone w.audio_thread (video_finished w).alive
sound_deleted w =
    subst (IsGone w.audio_thread) (sym (finished_alive w)) (IsGone-delete w.audio_thread _)

picture_deleted : {T : Type 0} (w : Window T) → IsGone w.render_thread (video_finished w).alive
picture_deleted w = subst (IsGone w.render_thread) (sym (finished_alive w)) (
    IsGone-delete_after w.render_thread w.audio_thread (delete w.render_thread w.alive)
      (IsGone-delete w.render_thread w.alive))

thread_left :
    {T : Type 0} (n : ℕ) (w : Window T)
    → IsOther n w.audio_thread
    → IsOther n w.render_thread
    → lives n w.alive ≡ true
    → lives n (video_finished w).alive ≡ true
thread_left n w a r h =
    ap (lives n) (finished_alive w)
    ∙ IsLive-delete n w.audio_thread _ a (IsLive-delete n w.render_thread w.alive r h)

made_lives : (n : ℕ) (newer older : List ℕ) → lives n (newer ++ (n ∷ older)) ≡ true
made_lives n [] older = rw (eq→== n n refl) refl
made_lives n (m ∷ newer) older = ground (arith, made_lives n newer older)

differs : (n k : ℕ) → n < k → n ≢ k
differs n k h e = omega (arith, e)

no_pointers :
    {T : Type 0} (w : Window T)
    → ((video_finished w).audio_thread ≡ none) × ((video_finished w).render_thread ≡ none)
unfolding video_finished
no_pointers w = (refl, refl)

format_ready-Crossed :
    {T : Type 0} (t : DecodeType) (w : Window T)
    → is_known t ≡ true
    → w.audio_thread ≡ none
    → w.render_thread ≡ none
    → Crossed t w
unfolding format_ready init_start_video make_audio make_render
format_ready-Crossed video_with_audio w k a r = record {
  emitted = refl;
  sound_gone = sound_deleted (format_ready video_with_audio (format_ready video_with_audio w));
  picture_gone = picture_deleted (format_ready video_with_audio (format_ready video_with_audio w));
  no_sound = (no_pointers (format_ready video_with_audio (format_ready video_with_audio w))).0;
  no_picture = (no_pointers (format_ready video_with_audio (format_ready video_with_audio w))).1;
  sound_left =
      thread_left w.made (format_ready video_with_audio (format_ready video_with_audio w))
        (differs _ _ (omega arith)) (differs _ _ (omega arith))
        (made_lives w.made (suc (suc (suc w.made)) ∷ suc (suc w.made) ∷ suc w.made ∷ []) w.alive);
  picture_left =
      thread_left (suc w.made) (format_ready video_with_audio (format_ready video_with_audio w))
        (differs _ _ (omega arith)) (differs _ _ (omega arith))
        (made_lives (suc w.made) (suc (suc (suc w.made)) ∷ suc (suc w.made) ∷ [])
          (w.made ∷ w.alive));
}
format_ready-Crossed video w k a r = record {
  emitted = refl;
  sound_gone = rw a tt;
  picture_gone = picture_deleted (format_ready video (format_ready video w));
  no_sound = (no_pointers (format_ready video (format_ready video w))).0;
  no_picture = (no_pointers (format_ready video (format_ready video w))).1;
  sound_left = rw a tt;
  picture_left =
      thread_left w.made (format_ready video (format_ready video w)) (rw a tt)
        (differs _ _ (omega arith)) (made_lives w.made (suc w.made ∷ []) w.alive);
}
format_ready-Crossed audio w k a r = record {
  emitted = refl;
  sound_gone = sound_deleted (format_ready audio (format_ready audio w));
  picture_gone = rw r tt;
  no_sound = (no_pointers (format_ready audio (format_ready audio w))).0;
  no_picture = (no_pointers (format_ready audio (format_ready audio w))).1;
  sound_left =
      thread_left w.made (format_ready audio (format_ready audio w)) (differs _ _ (omega arith))
        (rw r tt) (made_lives w.made (suc w.made ∷ []) w.alive);
  picture_left = rw r tt;
}
format_ready-Crossed unknown w k a r = absurd (cc)

abbrev starting : {T : Type 0} → Bytes → Bytes → Window T → Window T
starting path suffix w = emit (start_pretreatment (type_of suffix) path ∷ []) w

double_clicked-starting :
    {T : Type 0} (path suffix : Bytes) (w : Window T)
    → same suffix [] ≡ false
    → w.is_decoding ≡ false
    → double_clicked path suffix w ≡ starting path suffix w
unfolding double_clicked
double_clicked-starting path suffix w f d = simp (f, d) refl

-- Two files are opened while nothing plays. The window does not wait: both are announced to it, of the
-- same known type, before the first has come to its end. The decoder is given two sets of threads;
-- when the first file ends, the window deletes the objects that the decoder was given for the second
-- file, and holds no pointer any more; the objects of the first file stay, not deleted.
pub opened_twice :
    {T : Type 0} (t : DecodeType) (path suffix other other_suffix : Bytes) (w : Window T)
    → is_known t ≡ true
    → same suffix [] ≡ false
    → same other_suffix [] ≡ false
    → w.is_decoding ≡ false
    → w.audio_thread ≡ none
    → w.render_thread ≡ none
    → (let v = double_clicked other other_suffix (double_clicked path suffix w) in
        (v.signals
          ≡ (w.signals ++ (start_pretreatment (type_of suffix) path ∷ []))
            ++ (start_pretreatment (type_of other_suffix) other ∷ []))
        × Crossed t v)
opened_twice t path suffix other other_suffix w k f g d a r =
    let first = starting path suffix w in
    let e =
      ap (double_clicked other other_suffix) (double_clicked-starting path suffix w f d)
      ∙ double_clicked-starting other other_suffix first g d in
    (
      ap (λ v. v.signals) e,
      subst (Crossed t) (sym e) (format_ready-Crossed t (starting other other_suffix first) k a r),
    )
