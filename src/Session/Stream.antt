-- ===== src/Session/Stream.antt =====
-- A connection's byte stream: what `transmitMessage` writes for short messages, read by
-- `process_data` in whatever pieces the socket gives it.
use ix_library.Base.{
  ℕ, zero, suc, ◌≤◌, ◌<◌, ◌≡◌, inl, inr, refl, sym, ap, ◌∙◌, none, some, List, [], ◌∷◌, ◌++◌, map,
  length, take, drop, ltb, arith, length-append, length-drop, take-append, drop-append,
  take-append-drop, Bool-cases, take_prefix, drop_prefix, append-nil, append_assoc, map-append,
  ltb→lt, ltb→le,
}
use ix_library.Wire.{Bytes}
use ix_library.Transmit.{transmit}
use ix_library.Session.{
  Session, wait, touch, erase_segment, trim_and_get_header, process_round, Outcome, idle, post,
  drain, receive, receive_all, message, run_job,
}
use ix_library.Session.Reading.{IsFresh, touch-IsFresh, erase_segment-IsFresh, trim_short}
pub use ix_library.Session.Messages.{Message, IsShort, AllShort, concat, stream}
use ix_library.Session.Messages.{
  packet_of, job_of, transmit-packet_of, length-packet_of, run_job-job_of, round_whole, round_part,
}

-- How far the loop got into the stream: the messages that it has read, those that it has not, and
-- the incomplete packet that it keeps.
abbrev IsPartial : Bytes → List Message → Type 0
IsPartial buf [] = Unit {0}
IsPartial buf (m ∷ ms) = length buf < length (packet_of m)

record Progress (future : Bytes) (ms : List Message) (o : Outcome) : Type 0 where
  read : List Message
  left : List Message
  split : ms ≡ read ++ left
  short : AllShort left
  jobs : o.jobs ≡ map job_of read
  ending : o.ending ≡ idle
  fresh : IsFresh o.session.segments
  rest : o.session.recv_buffer ++ future ≡ stream left
  partial : IsPartial o.session.recv_buffer left

-- The loop stops where the next packet is incomplete.
waiting :
    (s : Session) (future : Bytes) (ms : List Message)
    → IsFresh s.segments
    → AllShort ms
    → s.recv_buffer ++ future ≡ stream ms
    → IsPartial s.recv_buffer ms
    → Progress future ms (record { session = s; jobs = []; ending = idle })
waiting s future ms fresh short e part = record {
  read = [];
  left = ms;
  split = refl;
  short = short;
  jobs = refl;
  ending = refl;
  fresh = fresh;
  rest = e;
  partial = part;
}

-- A message more, in front.
posted :
    (future : Bytes) (m : Message) (ms : List Message) (o : Outcome)
    → Progress future ms o
    → Progress future (m ∷ ms) (post (some (job_of m)) o)
posted future m ms o p = record {
  read = m ∷ p.read;
  left = p.left;
  split = ap (◌∷◌ m) p.split;
  short = p.short;
  jobs = ap (◌∷◌ (job_of m)) p.jobs;
  ending = p.ending;
  fresh = p.fresh;
  rest = p.rest;
  partial = p.partial;
}

-- A buffer that holds the packet at the head of the stream, taken apart.
module _ (p buf future rest : Bytes) (e : buf ++ future ≡ p ++ rest)
    (long : length p ≤ length buf) where
  buffer_head : buf ≡ p ++ drop (length p) buf
  buffer_head =
      sym (take-append-drop (length p) buf)
      ∙ ap (λ b. b ++ drop (length p) buf)
          (sym (take-append (length p) buf future long)
            ∙ ap (take (length p)) e
            ∙ take_prefix p rest)

  buffer_tail : drop (length p) buf ++ future ≡ rest
  buffer_tail =
      sym (drop-append (length p) buf future long) ∙ ap (drop (length p)) e ∙ drop_prefix p rest

round_empty : (s : Session) → length s.recv_buffer ≡ 0 → process_round s ≡ wait
unfolding process_round
round_empty s e = rw (trimmed, process_round)
  where
    trimmed : trim_and_get_header s.recv_buffer ≡ none
    trimmed =
        trim_short s.recv_buffer
          (record {
            message_id = 0;
            fragment_id = 0;
            this_size = 0;
            fragments_count = 0;
            json_size = 0;
          })
          (λ h. absurd (omega arith)) (omega arith) (omega arith)

drain-Progress :
    (fuel : ℕ) (s : Session) (future : Bytes) (ms : List Message)
    → length s.recv_buffer < fuel
    → IsFresh s.segments
    → AllShort ms
    → s.recv_buffer ++ future ≡ stream ms
    → Progress future ms (drain fuel s)
unfolding drain
drain-Progress zero s future ms enough fresh short e = absurd (omega arith)
drain-Progress (suc fuel) s future [] enough fresh short e =
    rw (round_empty s (omega (arith, ap length e, length-append s.recv_buffer future)), drain)
      (waiting s future [] fresh short e tt)
drain-Progress (suc fuel) s future (m ∷ ms) enough fresh short e =
    elim (Bool-cases (ltb (length s.recv_buffer) (length (packet_of m)))) [
      | inl part ↦
          rw (round_part m short.0 s future (stream ms) head (ltb→lt _ _ part), drain)
            (waiting s future (m ∷ ms) fresh short e (ltb→lt _ _ part))
      | inr whole ↦
          let long = ltb→le (length s.recv_buffer) (length (packet_of m)) whole in
          let rest = drop (length (packet_of m)) s.recv_buffer in
          let t : Session = record {
            recv_buffer = rest;
            segments = erase_segment m.id (touch m.id s.segments);
          } in
          let kept =
            erase_segment-IsFresh m.id (touch m.id s.segments)
              (touch-IsFresh m.id s.segments fresh) in
          let less : length rest < fuel =
            omega (arith, length-drop (length (packet_of m)) s.recv_buffer, length-packet_of m) in
          rw
            (
              round_whole m short.0 s rest fresh
                  (buffer_head (packet_of m) s.recv_buffer future (stream ms) head long),
              drain,
            )
            (posted future m ms (drain fuel t) (
              drain-Progress fuel t future ms less kept short.1
                (buffer_tail (packet_of m) s.recv_buffer future (stream ms) head long)))
    ]
  where
    head : s.recv_buffer ++ future ≡ packet_of m ++ stream ms
    head = e ∙ ap (λ b. b ++ stream ms) (transmit-packet_of m short.0)

-- One read into the buffer.
receive-Progress :
    (s : Session) (c future : Bytes) (ms : List Message)
    → IsFresh s.segments
    → AllShort ms
    → s.recv_buffer ++ (c ++ future) ≡ stream ms
    → Progress future ms (receive s c)
unfolding receive
receive-Progress s c future ms fresh short e =
    drain-Progress (suc (length (s.recv_buffer ++ c)))
      (record s { recv_buffer = s.recv_buffer ++ c }) future ms (omega arith) fresh short
      (append_assoc s.recv_buffer c future ∙ e)

continue-idle :
    (o later : Outcome)
    → o.ending ≡ idle
    → (let r : Outcome = elim o.ending [
      | idle ↦ record later { jobs = o.jobs ++ later.jobs }
      | _ ↦ o
    ] in
        r)
      ≡ record later { jobs = o.jobs ++ later.jobs }
continue-idle o later e = ground arith

receive_all-Progress :
    (cs : List Bytes) (s : Session) (ms : List Message)
    → IsFresh s.segments
    → AllShort ms
    → s.recv_buffer ++ concat cs ≡ stream ms
    → IsPartial s.recv_buffer ms
    → Progress [] ms (receive_all s cs)
unfolding receive_all
receive_all-Progress [] s ms fresh short e part = waiting s [] ms fresh short e part
receive_all-Progress (c ∷ cs) s ms fresh short e part =
    let o = receive s c in
    let p = receive-Progress s c (concat cs) ms fresh short e in
    let q = receive_all-Progress cs o.session p.left p.fresh p.short p.rest p.partial in
    rw (continue-idle o (receive_all o.session cs) p.ending) (record {
      read = p.read ++ q.read;
      left = q.left;
      split = p.split ∙ ap (λ l. p.read ++ l) q.split ∙ sym (append_assoc p.read q.read q.left);
      short = q.short;
      jobs = (λ i. p.jobs i ++ q.jobs i) ∙ sym (map-append job_of p.read q.read);
      ending = q.ending;
      fresh = q.fresh;
      rest = q.rest;
      partial = q.partial;
    })

abbrev pub start : Session
start = record { recv_buffer = []; segments = [] }

nothing_left :
    (buf : Bytes) (left : List Message)
    → AllShort left
    → buf ++ [] ≡ stream left
    → IsPartial buf left
    → left ≡ []
nothing_left buf [] short e part = refl
nothing_left buf (m ∷ ms) short e part = absurd (
    omega (
      arith,
      part,
      ap length e,
      length-append buf [],
      length-append (concat (transmit m.id m.text m.context)) (stream ms),
      ap length (transmit-packet_of m short.0),
    ))

start-IsPartial : (ms : List Message) → IsPartial [] ms
start-IsPartial [] = tt
start-IsPartial (m ∷ ms) = omega (arith, length-packet_of m)

run_jobs-job_of :
    (ms : List Message) → map run_job (map job_of ms) ≡ map (λ m. message m.text m.context) ms
run_jobs-job_of [] = refl
run_jobs-job_of (m ∷ ms) = λ i. run_job-job_of m i ∷ run_jobs-job_of ms i

-- Messages that each have a number below 2 ^ 32 and fewer than 4096 bytes of text and data are
-- written one after the other by `transmitMessage`, and a new session reads the stream in any
-- pieces: the jobs it posts give back each text and data in order, no round faults, and the buffer
-- ends empty.
pub stream_round_trip :
    (ms : List Message) (cs : List Bytes)
    → AllShort ms
    → concat cs ≡ stream ms
    → (map run_job (receive_all start cs).jobs ≡ map (λ m. message m.text m.context) ms)
      × ((receive_all start cs).ending ≡ idle)
      × ((receive_all start cs).session.recv_buffer ≡ [])
stream_round_trip ms cs short e =
    let p = receive_all-Progress cs start ms tt short e (start-IsPartial ms) in
    let none_left =
      nothing_left (receive_all start cs).session.recv_buffer p.left p.short p.rest p.partial in
    let all_read : p.read ≡ ms =
      sym (p.split ∙ ap (λ l. p.read ++ l) none_left ∙ append-nil p.read) in
    (
      ap (map run_job) (p.jobs ∙ ap (map job_of) all_read) ∙ run_jobs-job_of ms,
      p.ending,
      sym (append-nil (receive_all start cs).session.recv_buffer) ∙ p.rest ∙ ap stream none_left,
    )
