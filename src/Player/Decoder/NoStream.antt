-- ===== src/Player/Decoder/NoStream.antt =====
-- What `pretreatment` announces of a file with nothing to play.
use ix_library.Base.{ℕ, ◌+◌, ◌≡◌, refl, ap, ◌∙◌, true, false, none, some, List, [], ◌∷◌}
use ix_library.Player.Decoder.{DecodeType, video_with_audio, video, audio, unknown}
use ix_library.Player.Decoder.Open.{
  MediaType, is_video, is_audio, is_other, Media, Opened, find_stream, pretreatment_video,
  pretreatment_audio, choose, known, closed, announce, pretreatment,
}

-- No stream is video or audio.
abbrev pub AllOther : List MediaType → Type 0
AllOther [] = Unit {0}
AllOther (t ∷ ts) = (t ≡ is_other) × AllOther ts

find_video : (i : ℕ) (ts : List MediaType) → AllOther ts → find_stream is_video i ts ≡ none
unfolding find_stream
find_video i [] h = refl
find_video i (t ∷ ts) h = rw h.0 (find_video (i + 1) ts h.1)

find_audio : (i : ℕ) (ts : List MediaType) → AllOther ts → find_stream is_audio i ts ≡ none
unfolding find_stream
find_audio i [] h = refl
find_audio i (t ∷ ts) h = rw h.0 (find_audio (i + 1) ts h.1)

no_audio : (m : Media) (o : Opened) → AllOther m.streams → pretreatment_audio m o ≡ (false, o)
unfolding pretreatment_audio
no_audio m o h = rw (find_audio 0 m.streams h, pretreatment_audio) refl

no_video : (m : Media) (o : Opened) → AllOther m.streams → pretreatment_video m o ≡ (false, o)
unfolding pretreatment_video
no_video m o h = rw (find_video 0 m.streams h, pretreatment_video) refl

opens :
    (t : DecodeType) (m : Media)
    → m.open_input_ok ≡ true
    → m.stream_info_ok ≡ true
    → pretreatment t m ≡ choose (known t) m
unfolding pretreatment
opens t m o i = simp (o, i) refl

chosen :
    (m : Media)
    → AllOther m.streams
    → (choose video_with_audio m ≡ announce closed video)
      × ((choose video m).announced ≡ none)
      × ((choose audio m).announced ≡ none)
unfolding choose
chosen m h =
    let a = no_audio m closed h in
    let v = no_video m closed h in (rw (a, v) refl, rw v refl, rw a refl)

-- A file that opens and has no video and no audio stream: asked for both, or for an unknown type,
-- `pretreatment` announces a video, without a stream's index; asked for one of the two it announces
-- nothing.
pub pretreatment_announces_video :
    (m : Media)
    → m.open_input_ok ≡ true
    → m.stream_info_ok ≡ true
    → AllOther m.streams
    → ((pretreatment video_with_audio m).announced ≡ some video)
      × ((pretreatment unknown m).announced ≡ some video)
      × ((pretreatment video_with_audio m).video_stream_idx ≡ none)
      × ((pretreatment video m).announced ≡ none)
      × ((pretreatment audio m).announced ≡ none)
pretreatment_announces_video m o i h =
    let c = chosen m h in
    let both = opens video_with_audio m o i ∙ c.0 in
    let any = opens unknown m o i ∙ c.0 in
    (
      ap (λ r. r.announced) both,
      ap (λ r. r.announced) any,
      ap (λ r. r.video_stream_idx) both,
      ap (λ r. r.announced) (opens video m o i) ∙ c.1,
      ap (λ r. r.announced) (opens audio m o i) ∙ c.2,
    )
