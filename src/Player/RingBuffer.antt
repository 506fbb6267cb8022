-- ===== src/Player/RingBuffer.antt =====
-- `RingBuffer<T>` of projects/龙卷风播放器/src/utils/RingBuffer/RingBuffer.h: a bounded queue between
-- the decoder and the audio thread. Each call holds the mutex from its wait to its end, so calls
-- are atomic: a call whose wait condition is false at the time is `blocked` and changes nothing.
-- Wake-ups are not modelled; a blocked call may be tried again in any later state.
pub mod Laws
pub mod Refines
use ix_library.Base.{
  ℕ, suc, ◌+◌, ◌-◌, Bool, true, false, Option, none, some, List, [], ◌∷◌, ◌++◌, ltb, leb, ◌==◌,
  ◌&&◌, ◌||◌, if◌then◌else◌,
}

pub record RingBuffer {ℓ} (A : Type ℓ) : Type ℓ where
  pub stopped : Bool
  pub size_ : ℕ
  pub buf : List A
  pub capacity : ℕ

-- What a call did: nothing yet, or it returned a flag, with the element that `read` moved out.
pub data Reply {ℓ} (A : Type ℓ) : Type ℓ where
  blocked : Reply A
  returned : Bool → Option A → Reply A

pub data Call {ℓ} (A : Type ℓ) : Type ℓ where
  reads : Call A
  writes : A → Call A
  stops : Call A
  clears : Call A

module _ {ℓ} {A : Type ℓ} where
  unfoldable pub create : ℕ → RingBuffer A
  create capacity = record { stopped = false; size_ = 0; buf = []; capacity = capacity }

  -- `front` on an empty queue is not defined; the case is kept apart by `none`.
  unfoldable pub read : RingBuffer A → Reply A × RingBuffer A
  read r =
      let taken : Reply A × RingBuffer A = elim r.buf [
        | [] ↦ (returned true none, record r { size_ = r.size_ - 1 })
        | x ∷ rest ↦ (returned true (some x), record r { buf = rest; size_ = r.size_ - 1 })
      ] in
      if ltb 0 r.size_ || r.stopped
      then (if (r.size_ == 0) && r.stopped then (returned false none, r) else taken)
      else (blocked, r)

  unfoldable pub write : RingBuffer A → A → Reply A × RingBuffer A
  write r d =
      if ltb r.size_ r.capacity
      then (if leb r.capacity r.size_ && r.stopped
          then (returned false none, r)
          else (returned true none, record r { buf = r.buf ++ (d ∷ []); size_ = r.size_ + 1 }))
      else (blocked, r)

  unfoldable pub stop : RingBuffer A → RingBuffer A
  stop r = record r { stopped = true }

  -- The loop of `clear`, over the queue.
  unfoldable pub pop_all : List A → ℕ → ℕ
  pop_all [] n = n
  pop_all (x ∷ xs) n = pop_all xs (n - 1)

  unfoldable pub clear : RingBuffer A → RingBuffer A
  unfolding pop_all
  clear r = record r { buf = []; size_ = pop_all r.buf r.size_ }

  -- One call, with the elements that it handed out and that it threw away, in order.
  unfoldable pub call : Call A → RingBuffer A → List A × RingBuffer A
  unfolding read write stop clear
  call reads r =
      let (reply, s) = read r in
      (elim reply [ blocked ↦ [] | returned ok x ↦ elim x [ none ↦ [] | some a ↦ a ∷ [] ] ], s)
  call (writes d) r = let (reply, s) = write r d in ([], s)
  call stops r = ([], stop r)
  call clears r = (r.buf, clear r)

  -- The element that a call put in, if it did.
  unfoldable pub accepted : Call A → RingBuffer A → List A
  accepted (writes d) r = elim (write r d).0 [
    | blocked ↦ []
    | returned ok x ↦ if ok then d ∷ [] else []
  ]
  accepted c r = []

  -- A schedule of calls: the elements that went out, those that went in, and the last state.
  unfoldable pub run : List (Call A) → RingBuffer A → List A × List A × RingBuffer A
  unfolding call accepted
  run [] r = ([], [], r)
  run (c ∷ cs) r =
      let (gone, s) = call c r in
      let (out, put, t) = run cs s in (gone ++ out, accepted c r ++ put, t)
