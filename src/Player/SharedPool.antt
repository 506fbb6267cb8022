-- ===== src/Player/SharedPool.antt =====
-- `MemoryPool_shared<T>` of projects/龙卷风播放器/src/utils/MemoryPool/MemoryPool.h: a queue of slots, each
-- raw storage and a flag. `::operator new` gives the next address and runs no initialiser, so that
-- the flag of a new slot is what the memory holds, a parameter. `none`: the code calls `front` on an
-- empty queue. `given`, `destroyed` and `freed` record the addresses at which an object was built,
-- of which the pool itself ran the destructor, and which went back to `::operator delete`.
pub mod Kept
pub mod Places
use ix_library.Base.{
  ℕ, zero, suc, ◌+◌, ◌*◌, ◌-◌, ◌/◌, Bool, true, false, Option, none, some, List, [], ◌∷◌, ◌++◌,
  length, if◌then◌else◌,
}

pub record Slot : Type 0 where
  pub address : ℕ
  pub constructed : Bool

pub record World : Type 0 where
  pub pool : List Slot
  pub size : ℕ
  pub next_address : ℕ
  pub live : List Slot
  pub given : List ℕ
  pub destroyed : List ℕ
  pub freed : List ℕ

-- `pool_.front` and `pool_.pop`.
abbrev pub pop_front : World → Option (Slot × World)
pop_front w = elim w.pool [ [] ↦ none | slot ∷ rest ↦ some (slot, record w { pool = rest }) ]

-- The object is built, and the flag set.
unfoldable pub built : Option (Slot × World) → Option World
built none = none
built (some (slot, w)) = some (record w {
  live = record slot { constructed = true } ∷ w.live;
  given = slot.address ∷ w.given;
})

-- The constructor throws.
unfoldable pub put_back : Option (Slot × World) → Option World
put_back none = none
put_back (some (slot, w)) = some (record w { pool = w.pool ++ (slot ∷ []) })

-- The deleter of the `shared_ptr`, and `return_obj`: the slot of the live object at a position.
unfoldable pub take_out : ℕ → List Slot → Option (Slot × List Slot)
take_out n [] = none
take_out zero (x ∷ xs) = some (x, xs)
take_out (suc n) (x ∷ xs) = elim (take_out n xs) [ none ↦ none | some (y, ys) ↦ some (y, x ∷ ys) ]

unfoldable pub return_obj : World → Option (Slot × List Slot) → World
return_obj w none = w
return_obj w (some (slot, rest)) = record w {
  live = rest;
  pool = w.pool ++ (record slot { constructed = false } ∷ []);
}

-- A slot is deleted, with the object that its flag says is there.
unfoldable pub free : Slot → World → World
free slot w = record w {
  destroyed = if slot.constructed then slot.address ∷ w.destroyed else w.destroyed;
  freed = slot.address ∷ w.freed;
}

-- The loop of `release_memo`.
unfoldable pub release_loop : ℕ → List Slot → World → World
release_loop zero pool w = record w { pool = pool }
release_loop (suc n) [] w = record w { pool = [] }
release_loop (suc n) (slot ∷ rest) w = release_loop n rest (free slot w)

-- A negative `count` runs no turn, like 0.
unfoldable pub release_memo : World → World
release_memo w = release_loop (length w.pool - w.size / 2) w.pool w

-- The destructor.
unfoldable pub close : World → World
close w = release_loop (length w.pool) w.pool w

-- What a client does: make an object, with a constructor that returns or throws; drop the live
-- object at a position; ask the pool to release memory.
pub data Call : Type 0 where
  make throw release : Call
  lose : ℕ → Call

module _ (memory : ℕ → Bool) where
  unfoldable pub fresh : ℕ → ℕ → List Slot
  fresh zero a = []
  fresh (suc n) a = record { address = a; constructed = memory a } ∷ fresh n (a + 1)

  unfoldable pub allocate_memo : World → World
  unfolding fresh
  allocate_memo w = record w {
    pool = w.pool ++ fresh w.size w.next_address;
    size = w.size * 2;
    next_address = w.next_address + w.size;
  }

  unfoldable pub construct : ℕ → World
  unfolding allocate_memo
  construct size = allocate_memo (record {
    pool = [];
    size = size;
    next_address = 0;
    live = [];
    given = [];
    destroyed = [];
    freed = [];
  })

  -- The slot that `get` takes.
  unfoldable pub get_slot : World → Option (Slot × World)
  unfolding allocate_memo
  get_slot w = elim w.pool [ [] ↦ pop_front (allocate_memo w) | slot ∷ rest ↦ pop_front w ]

  unfoldable pub step : Call → World → Option World
  unfolding get_slot built put_back take_out return_obj release_memo
  step make w = built (get_slot w)
  step throw w = put_back (get_slot w)
  step (lose i) w = some (return_obj w (take_out i w.live))
  step release w = some (release_memo w)

  unfoldable pub run : List Call → World → Option World
  unfolding step
  run [] w = some w
  run (c ∷ cs) w = elim (step c w) [ none ↦ none | some v ↦ run cs v ]
