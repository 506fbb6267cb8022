-- ===== src/Session/Fragments.antt =====
-- Messages of more than one fragment: what `process_data` keeps of them, and the order in which
-- `merge_fragments` would put them together.
use ix_library.Base.{
  ℕ, zero, suc, ◌+◌, ◌%◌, ◌<◌, ◌≡◌, ◌≢◌, inl, inr, refl, sym, ap, ◌↔◌, ◌∙◌, Option, none, some,
  List, [], ◌∷◌, ◌++◌, length, drop, ltb, arith, length-drop, Bool-cases, eq→==, append-nil,
  append_assoc, ltb→le,
}
use ix_library.Wire.{Bytes, Agreement, header_size, handle_ntohl, load}
use ix_library.Session.{
  Session, FragmentMap, Job, Round, wait, fault, packet, emplace, touch, trim_and_get_header,
  process_packet, process_round, Outcome, Ending, idle, faulted, starved, post, drain, process_data,
  receive, receive_all, merge_from, merge_fragments,
}
use ix_library.Session.Reading.{IsFresh, fragments_of-IsFresh, touch-IsFresh, erase_segment-IsFresh}

-- Fragments numbered from `n` on, and the pieces put together last one first.
abbrev pub number : ℕ → List Bytes → FragmentMap
number n [] = []
number n (d ∷ ds) = (n, d) ∷ number (n + 1) ds

abbrev pub concat_reversed : List Bytes → Bytes
concat_reversed [] = []
concat_reversed (d ∷ ds) = concat_reversed ds ++ d

abbrev pub bodies : FragmentMap → List Bytes
bodies [] = []
bodies ((k, d) ∷ m) = d ∷ bodies m

merge_from-number :
    (n : ℕ) (full : Bytes) (ds : List Bytes)
    → merge_from n full (number n ds) ≡ some (concat_reversed ds ++ full)
unfolding merge_from
merge_from-number n full [] = refl
merge_from-number n full (d ∷ ds) = rw (eq→== n n refl) (
    merge_from-number (n + 1) (d ++ full) ds
    ∙ ap some (sym (append_assoc (concat_reversed ds) d full)))

merge_from-some :
    (n : ℕ) (full : Bytes) (m : FragmentMap) (r : Bytes)
    → merge_from n full m ≡ some r
    → m ≡ number n (bodies m)
unfolding merge_from
merge_from-some n full [] r h = refl
merge_from-some n full ((k, d) ∷ m) r h = ground (arith, merge_from-some (n + 1) (d ++ full) m r)

-- `merge_fragments` succeeds exactly when the fragments are numbered 0, 1, 2 and so on without a
-- gap, and then the whole message holds their bodies in the reverse order, the last one first.
pub merge_fragments-number :
    (m : FragmentMap) (full : Bytes)
    → (merge_fragments m ≡ some full)
      ↔ ((m ≡ number 0 (bodies m)) × (full ≡ concat_reversed (bodies m)))
unfolding merge_fragments
merge_fragments-number m full = (forth, back)
  where
    forth :
        merge_from 0 [] m ≡ some full
        → (m ≡ number 0 (bodies m)) × (full ≡ concat_reversed (bodies m))
    forth h =
        let e = merge_from-some 0 [] m full h in
        (
          e,
          cc (
            ap (merge_from 0 []) e,
            merge_from-number 0 [] (bodies m),
            append-nil (concat_reversed (bodies m)),
          ),
        )

    back :
        (m ≡ number 0 (bodies m)) × (full ≡ concat_reversed (bodies m))
        → merge_from 0 [] m ≡ some full
    back (e, f) =
        ap (merge_from 0 []) e
        ∙ merge_from-number 0 [] (bodies m)
        ∙ ap some (append-nil (concat_reversed (bodies m)) ∙ sym f)

abbrev pub IsSingle : Job → Type 0
IsSingle j = length j.fragments ≡ 1

abbrev pub AllSingle : List Job → Type 0
AllSingle [] = Unit {0}
AllSingle (j ∷ js) = IsSingle j × AllSingle js

abbrev Posted : Option Job → Type 0
Posted none = Unit {0}
Posted (some j) = IsSingle j

-- One round leaves every stored buffer empty, takes at least a header off the input, and posts a
-- job only for a fragment that is the only one of its message.
abbrev Takes : ℕ → Round → Type 0
Takes size wait = Unit {0}
Takes size fault = Unit {0}
Takes size (packet t job) = IsFresh t.segments × (length t.recv_buffer < size) × Posted job

process_packet-Takes :
    (size : ℕ) (s : Session) (h : Agreement) (buf : Bytes)
    → IsFresh s.segments
    → length buf < size
    → Takes size (process_packet s h buf)
unfolding process_packet emplace
process_packet-Takes size s h buf fresh less = ground (
  arith,
  fragments_of-IsFresh h.message_id s.segments fresh,
  touch-IsFresh h.message_id s.segments fresh,
  erase_segment-IsFresh h.message_id (touch h.message_id s.segments)
      (touch-IsFresh h.message_id s.segments fresh),
  length-drop h.this_size buf,
)

process_round-Takes :
    (s : Session) → IsFresh s.segments → Takes (length s.recv_buffer) (process_round s)
unfolding process_round trim_and_get_header
process_round-Takes s fresh =
    let buf = s.recv_buffer in
    let h = handle_ntohl (load buf) in
    elim (Bool-cases (ltb (length buf) header_size)) [
      | inl cut ↦ rw (cut, process_round) tt
      | inr there ↦
          elim (Bool-cases (ltb (length buf) ((h.this_size + header_size) % 4294967296))) [
            | inl part ↦ rw (there, part, process_round) tt
            | inr whole ↦
                rw (there, whole, process_round)
                  (process_packet-Takes (length buf) s h (drop header_size buf) fresh (
                    omega
                      (arith, length-drop header_size buf, ltb→le (length buf) header_size there)))
          ]
    ]

abbrev Kept : Outcome → Type 0
Kept o = AllSingle o.jobs × IsFresh o.session.segments × (o.ending ≢ starved)

post-Kept : (job : Option Job) (o : Outcome) → Posted job → Kept o → Kept (post job o)
post-Kept none o p k = k
post-Kept (some j) o p k = ((p, k.0), k.1, k.2)

drain-Kept :
    (fuel : ℕ) (s : Session)
    → length s.recv_buffer < fuel
    → IsFresh s.segments
    → Kept (drain fuel s)
unfolding drain
drain-Kept zero s enough fresh = absurd (omega arith)
drain-Kept (suc fuel) s enough fresh =
    step (process_round s) (process_round-Takes s fresh) (drain-Kept fuel)
  where
    step :
        (r : Round)
        → Takes (length s.recv_buffer) r
        → ((t : Session) → length t.recv_buffer < fuel → IsFresh t.segments → Kept (drain fuel t))
        → Kept (
            let o : Outcome = elim r [
              | wait ↦ record { session = s; jobs = []; ending = idle }
              | fault ↦ record { session = s; jobs = []; ending = faulted }
              | packet t job ↦ post job (drain fuel t)
            ] in
            o)
    step wait h next = (tt, fresh, λ e. cc)
    step fault h next = (tt, fresh, λ e. cc)
    step (packet t job) h next = post-Kept job (drain fuel t) h.2 (next t (omega (arith, h.1)) h.0)

AllSingle-append : (xs ys : List Job) → AllSingle xs → AllSingle ys → AllSingle (xs ++ ys)
AllSingle-append [] ys hx hy = hy
AllSingle-append (x ∷ xs) ys hx hy = (hx.0, AllSingle-append xs ys hx.1 hy)

receive-Kept : (s : Session) (c : Bytes) → IsFresh s.segments → Kept (receive s c)
unfolding receive process_data
receive-Kept s c fresh =
    drain-Kept (suc (length (s.recv_buffer ++ c))) (record s { recv_buffer = s.recv_buffer ++ c })
      (omega arith) fresh

-- Whatever bytes arrive, in whatever pieces: the loop never runs out of fuel, `segments` never holds a
-- fragment, and each job that is posted holds a single fragment. So no message of two or more
-- fragments is ever put together.
pub receive_all-single :
    (cs : List Bytes) (s : Session)
    → IsFresh s.segments
    → AllSingle (receive_all s cs).jobs
      × IsFresh (receive_all s cs).session.segments
      × ((receive_all s cs).ending ≢ starved)
unfolding receive_all
receive_all-single [] s fresh = (tt, fresh, λ e. cc)
receive_all-single (c ∷ cs) s fresh =
    let k = receive-Kept s c fresh in
    let later = receive_all-single cs (receive s c).session k.1 in
    step (receive s c).ending refl k later
  where
    step :
        (e : Ending)
        → (receive s c).ending ≡ e
        → Kept (receive s c)
        → Kept (receive_all (receive s c).session cs)
        → Kept (
            let o : Outcome = elim e [
              | idle ↦ record (receive_all (receive s c).session cs) {
                jobs = (receive s c).jobs ++ (receive_all (receive s c).session cs).jobs;
              }
              | _ ↦ receive s c
            ] in
            o)
    step idle e k later = (
      AllSingle-append (receive s c).jobs (receive_all (receive s c).session cs).jobs k.0 later.0,
      later.1,
      later.2,
    )
    step faulted e k later = k
    step starved e k later = k
