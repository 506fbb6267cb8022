-- ===== src/Transmit/Long.antt =====
-- Messages of 4096 bytes and more: what the second fragment holds.
use ix_library.Base.{
  ℕ, suc, ◌+◌, ◌-◌, min, ◌≤◌, ◌<◌, ◌≡◌, refl, ap, ◌∙◌, List, ◌∷◌, ◌++◌, length, take, drop, arith,
  drop_prefix, length-append,
}
use ix_library.Wire.{Bytes, Agreement, header_size, handle_htonl, store}
use ix_library.Wire.Laws.{length-store}
use ix_library.Transmit.{
  max_fragment_size, fragments_count, fragment, transmit_loop, transmit, send_loop, send_to,
  first_header, remaining_after,
}

pub payload-fragment :
    (a : Agreement) (total : Bytes) → drop header_size (fragment a total) ≡ take a.this_size total
unfolding fragment
payload-fragment a total =
    rw (← length-store (handle_htonl a))
      (drop_prefix (store (handle_htonl a)) (take a.this_size total))

-- Two rounds or more are left.
count_two :
    (total : ℕ)
    → max_fragment_size ≤ total
    → total < 17592186040320
    → fragments_count total ≡ suc (suc (fragments_count total - 2))
count_two total long fits = omega arith

-- The first two fragments of a list, with their bodies.
abbrev pub StartsWith : List Bytes → Bytes → Bytes → Type 0
StartsWith fragments first second =
    (f : Bytes) × (g : Bytes) × (rest : List Bytes) × (fragments ≡ f ∷ g ∷ rest)
    × (drop header_size f ≡ first)
    × (drop header_size g ≡ second)

StartsWith-of_eq :
    {xs ys : List Bytes} {p p' q q' : Bytes}
    → xs ≡ ys
    → p' ≡ p
    → q' ≡ q
    → StartsWith ys p' q'
    → StartsWith xs p q
StartsWith-of_eq e d c (f, g, rest, h, k, l) = (f, g, rest, e ∙ h, k ∙ d, l ∙ c)

transmit_loop_two :
    (n : ℕ) (a : Agreement) (remaining : ℕ) (msg : Bytes)
    → StartsWith
        (transmit_loop (suc (suc n)) a remaining msg)
        (take (min remaining max_fragment_size) msg)
        (take
          (min (remaining_after remaining (min remaining max_fragment_size)) max_fragment_size)
          msg)
unfolding transmit_loop
transmit_loop_two n a remaining msg =
    (_, _, _, refl, payload-fragment _ msg, payload-fragment _ msg)

send_loop_two :
    (n : ℕ) (a : Agreement) (remaining : ℕ) (msg : Bytes)
    → StartsWith
        (send_loop (suc (suc n)) a remaining msg)
        (take (min remaining max_fragment_size) msg)
        (take (min (remaining - min remaining max_fragment_size) max_fragment_size) msg)
unfolding send_loop
send_loop_two n a remaining msg = (_, _, _, refl, payload-fragment _ msg, payload-fragment _ msg)

remaining_after_first :
    (total : ℕ)
    → max_fragment_size ≤ total
    → total < 17592186040320
    → remaining_after total (min total max_fragment_size) ≡ total - 4076
unfolding remaining_after
remaining_after_first total long fits = omega arith

-- For a message of 4096 bytes or more, below 2 ^ 44 - 4096, `transmitMessage` makes two fragments or
-- more, and the second one holds bytes from the start of the message again, like the first,
-- instead of those that follow; it is up to 4096 of the size less 4076.
transmit_repeats :
    (id : ℕ) (text context : Bytes)
    → max_fragment_size ≤ length text + length context
    → length text + length context < 17592186040320
    → StartsWith
        (transmit id text context)
        (take max_fragment_size (text ++ context))
        (take (min (length text + length context - 4076) max_fragment_size) (text ++ context))
unfolding transmit
transmit_repeats id text context long fits =
    let total = length text + length context in
    let m : min total max_fragment_size ≡ max_fragment_size = omega arith in
    let msg = text ++ context in
    StartsWith-of_eq
      (ap (λ n. transmit_loop n (first_header id (length text) total) total msg)
        (count_two total long fits))
      (ap (λ n. take n msg) m)
      (ap (λ n. take (min n max_fragment_size) msg) (remaining_after_first total long fits))
      (transmit_loop_two (fragments_count total - 2) (first_header id (length text) total) total
        msg)

-- The same of `send_to`, whose second fragment is up to 4096 of the size less 4096.
send_to_repeats :
    (id json_size : ℕ) (msg : Bytes)
    → max_fragment_size ≤ length msg
    → length msg < 17592186040320
    → StartsWith
        (send_to id json_size msg)
        (take max_fragment_size msg)
        (take (min (length msg - max_fragment_size) max_fragment_size) msg)
unfolding send_to
send_to_repeats id json_size msg long fits =
    let m : min (length msg) max_fragment_size ≡ max_fragment_size = omega arith in
    StartsWith-of_eq
      (ap (λ n. send_loop n (first_header id json_size (length msg)) (length msg) msg)
        (count_two (length msg) long fits))
      (ap (λ n. take n msg) m) (ap (λ n. take (min (length msg - n) max_fragment_size) msg) m)
      (send_loop_two (fragments_count (length msg) - 2) (first_header id json_size (length msg))
        (length msg) msg)

-- For a message of 4096 bytes or more, below 2 ^ 44 - 4096, `transmitMessage` and `send_to` make two
-- fragments or more, and the second one holds bytes from the start of the message again, like the
-- first, instead of those that follow: up to 4096 of the size less 4076, and of the size less 4096.
pub second_fragment_repeats :
    (id : ℕ) (text context : Bytes)
    → max_fragment_size ≤ length text + length context
    → length text + length context < 17592186040320
    → StartsWith
        (transmit id text context)
        (take max_fragment_size (text ++ context))
        (take (min (length text + length context - 4076) max_fragment_size) (text ++ context))
      × StartsWith
          (send_to id (length text) (text ++ context))
          (take max_fragment_size (text ++ context))
          (take
            (min (length (text ++ context) - max_fragment_size) max_fragment_size)
            (text ++ context))
second_fragment_repeats id text context long fits = (
  transmit_repeats id text context long fits,
  send_to_repeats id (length text) (text ++ context)
      (omega (arith, length-append text context, long))
      (omega (arith, length-append text context, fits)),
)
