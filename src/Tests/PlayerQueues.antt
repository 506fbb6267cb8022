-- ===== src/Tests/PlayerQueues.antt =====
-- The player's queues and pools on small inputs.
use ix_library.Base.{
  ℕ, ◌+◌, ◌/◌, ◌≤◌, ◌<◌, ◌≡◌, ◌≢◌, refl, true, false, Option, none, some, List, [], ◌∷◌, ◌++◌,
  length, ltb, if◌then◌else◌, arith,
}
use ix_library.Player.MemoryPool
use ix_library.Player.MemoryPool.{
  make, lose, run, begin, release_memo, step, construct, allocate_memo, fresh, get, return_obj,
  take_out,
}
use ix_library.Player.MemoryPool.Accounts.{count, storage_owned_once, release_memo_underflows}
use ix_library.Player.RingBuffer
use ix_library.Player.RingBuffer.{
  RingBuffer, Reply, blocked, returned, reads, writes, stops, clears,
}
use ix_library.Player.RingBuffer.Refines.{respond_all, answer_all, view, run_refines_queue}
use ix_library.Player.RingBuffer.Laws.{stopped_ends}
use ix_library.Player.ByteRing.{ByteRing, write}
use ix_library.Player.ByteRing.Writing.{Stores, write_count}

storage_owned_once_example :
    count 3 (run (begin 2) (make ∷ lose 0 ∷ [])).pool.storage
      + count 3 (run (begin 2) (make ∷ lose 0 ∷ [])).live
    ≡ (if ltb 3 (run (begin 2) (make ∷ lose 0 ∷ [])).pool.next_address then 1 else 0)
storage_owned_once_example = storage_owned_once 2 (make ∷ lose 0 ∷ []) 3

-- Two objects more than the first allocation, all dropped again: six addresses are queued, eight
-- would be popped.
abbrev churn : List MemoryPool.Call
churn = make ∷ make ∷ make ∷ lose 0 ∷ lose 0 ∷ lose 0 ∷ []

churn_size : (length (run (begin 2) churn).pool.storage ≡ 6) × ((run (begin 2) churn).pool.size ≡ 8)
unfolding run step construct allocate_memo fresh get return_obj take_out
churn_size = (refl, refl)

release_memo_underflows_example :
    (length (run (begin 2) churn).pool.storage ≤ (run (begin 2) churn).pool.size / 2
      → release_memo (run (begin 2) churn).pool ≡ some (run (begin 2) churn).pool)
    × ((run (begin 2) churn).pool.size / 2 < length (run (begin 2) churn).pool.storage
        → release_memo (run (begin 2) churn).pool ≡ none)
release_memo_underflows_example = release_memo_underflows 2 churn (omega arith)

abbrev two_of_two : RingBuffer ℕ
two_of_two = record { stopped = false; size_ = 2; buf = 4 ∷ 5 ∷ []; capacity = 2 }

abbrev schedule : List (RingBuffer.Call ℕ)
schedule = writes 4 ∷ writes 5 ∷ writes 6 ∷ reads ∷ writes 6 ∷ clears ∷ stops ∷ []

run_refines_queue_example :
    (((respond_all schedule (RingBuffer.create 2)).0
        ≡ (answer_all schedule (record { items = []; closed = false; limit = 2 })).0)
      × (view (respond_all schedule (RingBuffer.create 2)).1
          ≡ (answer_all schedule (record { items = []; closed = false; limit = 2 })).1))
    × (let (out, put, t) = RingBuffer.run schedule (RingBuffer.create 2) in
        (put ≡ out ++ t.buf) × (t.size_ ≡ length t.buf) × (length t.buf ≤ 2))
run_refines_queue_example = run_refines_queue 2 schedule

stopped_ends_example :
    (((two_of_two.buf ≡ [])
        → RingBuffer.read (RingBuffer.stop two_of_two)
          ≡ (returned false none, RingBuffer.stop two_of_two))
      × ((x : ℕ) (rest : List ℕ)
          → two_of_two.buf ≡ x ∷ rest
          → RingBuffer.read (RingBuffer.stop two_of_two) ≡ (
            returned true (some x),
            record two_of_two { stopped = true; buf = rest; size_ = length rest },
          )))
    × (((o : Option ℕ) → (RingBuffer.write two_of_two 6).0 ≢ returned false o)
        × (2 ≤ 2
            → (RingBuffer.write (RingBuffer.stop two_of_two) 6
                ≡ (blocked, RingBuffer.stop two_of_two))
              × (RingBuffer.write two_of_two 6 ≡ (blocked, two_of_two))))
stopped_ends_example = stopped_ends two_of_two 6 (record { counted = refl; bounded = omega arith })

-- Four places, one taken.
abbrev three_free : ByteRing
three_free = record { tail = 1; head = 0; size_ = 1; buf = 9 ∷ 0 ∷ 0 ∷ 0 ∷ [] }

write_count_example :
    Stores
      (write (none ∷ some 4 ∷ []) (1 ∷ 2 ∷ 3 ∷ 4 ∷ 5 ∷ []) three_free)
      3
      (1 ∷ 2 ∷ 3 ∷ 4 ∷ 5 ∷ [])
      three_free
write_count_example =
    write_count (some 4 ∷ []) (1 ∷ 2 ∷ 3 ∷ 4 ∷ 5 ∷ []) three_free
      (record { head_in = omega arith; tail_is = refl }) (omega arith) (omega arith)
