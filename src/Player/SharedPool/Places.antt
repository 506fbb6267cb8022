-- ===== src/Player/SharedPool/Places.antt =====
-- Where the slots of a `MemoryPool_shared` are, and whose objects the pool destroys.
use ix_library.Base.{
  ℕ, zero, suc, ◌+◌, ◌≤◌, ◌<◌, ◌≡◌, ◌⊎◌, inl, refl, Bool, true, false, Option, none, some, List, [],
  ◌∷◌, ◌++◌, ltb, leb, ◌==◌, ◌&&◌, if◌then◌else◌, arith,
}
use ix_library.Player.MemoryPool.Accounts.{count}
use ix_library.Player.SharedPool.{
  Slot, World, take_out, return_obj, free, release_loop, fresh, allocate_memo, construct,
}

-- The slots of an address, and those of them with the flag set.
abbrev pub slots : ℕ → List Slot → ℕ
slots a [] = 0
slots a (s ∷ ss) = (if s.address == a then 1 else 0) + slots a ss

abbrev pub flagged : ℕ → List Slot → ℕ
flagged a [] = 0
flagged a (s ∷ ss) = (if s.constructed && (s.address == a) then 1 else 0) + flagged a ss

-- Each address that `::operator new` gave is in one place: queued, live or freed. Where an object
-- was built, the pool runs no destructor, now or by a flag that is set in the queue.
pub record IsSound (w : World) : Type 0 where
  pub once :
      (a : ℕ)
      → slots a w.pool + slots a w.live + count a w.freed ≡ (if ltb a w.next_address then 1 else 0)
  pub spared : (a : ℕ) → (count a w.given ≡ 0) ⊎ (flagged a w.pool + count a w.destroyed ≡ 0)
  pub dead : (a : ℕ) → count a w.destroyed ≤ count a w.freed
  pub known : (a : ℕ) → (count a w.given ≡ 0) ⊎ (a < w.next_address)
  pub positive : 0 < w.size

pub slots-append : (a : ℕ) (us vs : List Slot) → slots a (us ++ vs) ≡ slots a us + slots a vs
slots-append a [] vs = omega arith
slots-append a (u ∷ us) vs = omega (arith, slots-append a us vs)

pub flagged-append :
    (a : ℕ) (us vs : List Slot) → flagged a (us ++ vs) ≡ flagged a us + flagged a vs
flagged-append a [] vs = omega arith
flagged-append a (u ∷ us) vs = omega (arith, flagged-append a us vs)

pub flagged_le_slots : (a : ℕ) (ss : List Slot) → flagged a ss ≤ slots a ss
flagged_le_slots a [] = omega arith
flagged_le_slots a (s ∷ ss) = ground (arith, flagged_le_slots a ss)

-- A slot is queued once its object was destroyed.
returned-IsSound :
    (w : World) (s : Slot) (rest : List Slot)
    → IsSound w
    → ((a : ℕ) → slots a w.live ≡ (if s.address == a then 1 else 0) + slots a rest)
    → IsSound (return_obj w (some (s, rest)))
unfolding return_obj
returned-IsSound w s rest v parts =
    let back = record s { constructed = false } ∷ [] in
    record {
      once = λ a. omega (arith, v.once a, parts a, slots-append a w.pool back);
      spared = λ a. ground (arith, v.spared a, flagged-append a w.pool back);
      dead = v.dead;
      known = v.known;
      positive = v.positive;
    }

-- The front of the queue is freed.
free-IsSound :
    (w : World) (s : Slot) (rest : List Slot)
    → IsSound (record w { pool = s ∷ rest })
    → IsSound (record (free s w) { pool = rest })
unfolding free
free-IsSound w s rest v = by_flag s.constructed (λ a. v.spared a) (λ a. v.dead a)
  where
    by_flag :
        (b : Bool)
        → ((a : ℕ)
            → (count a w.given ≡ 0)
              ⊎ ((if b && (s.address == a) then 1 else 0) + flagged a rest + count a w.destroyed
                  ≡ 0))
        → ((a : ℕ) → count a w.destroyed ≤ count a w.freed)
        → IsSound (record w {
          pool = rest;
          destroyed = if b then s.address ∷ w.destroyed else w.destroyed;
          freed = s.address ∷ w.freed;
        })
    by_flag true spared dead = record {
      once = λ a. omega (arith, v.once a);
      spared = λ a. ground (arith, spared a);
      dead = λ a. omega (arith, dead a);
      known = v.known;
      positive = v.positive;
    }
    by_flag false spared dead = record {
      once = λ a. omega (arith, v.once a);
      spared = λ a. ground (arith, spared a);
      dead = λ a. ground (arith, dead a);
      known = v.known;
      positive = v.positive;
    }

pub release_loop-IsSound :
    (n : ℕ) (xs : List Slot) (w : World)
    → IsSound (record w { pool = xs })
    → IsSound (release_loop n xs w)
unfolding release_loop
release_loop-IsSound zero xs w v = v
release_loop-IsSound (suc n) [] w v = v
release_loop-IsSound (suc n) (s ∷ rest) w v =
    release_loop-IsSound n rest (free s w) (free-IsSound w s rest v)

-- The object at a position, and the others.
abbrev pub Parts : List Slot → Option (Slot × List Slot) → Type 0
Parts xs none = Unit {0}
Parts xs (some (s, ys)) = (a : ℕ) → slots a xs ≡ (if s.address == a then 1 else 0) + slots a ys

pub take_out-Parts : (i : ℕ) (xs : List Slot) → Parts xs (take_out i xs)
unfolding take_out
take_out-Parts i [] = tt
take_out-Parts zero (z ∷ zs) = λ a. refl
take_out-Parts (suc i) (z ∷ zs) = onto (take_out i zs) (take_out-Parts i zs)
  where
    onto :
        (o : Option (Slot × List Slot))
        → Parts zs o
        → Parts (z ∷ zs) (
            let r : Option (Slot × List Slot) = elim o [
              | none ↦ none
              | some (y, ys) ↦ some (y, z ∷ ys)
            ] in
            r)
    onto none p = tt
    onto (some (y, ys)) p = λ a. omega (arith, p a)

pub lost-IsSound :
    (w : World) (o : Option (Slot × List Slot))
    → IsSound w
    → Parts w.live o
    → IsSound (return_obj w o)
unfolding return_obj
lost-IsSound w none v p = v
lost-IsSound w (some (s, rest)) v p = returned-IsSound w s rest v p

module _ (memory : ℕ → Bool) where
  slots-fresh :
      (n b a : ℕ) → slots a (fresh memory n b) ≡ (if leb b a && ltb a (b + n) then 1 else 0)
  unfolding fresh
  slots-fresh zero b a = ground arith
  slots-fresh (suc n) b a = ground (arith, slots-fresh n (b + 1) a)

  slots_first : (n b : ℕ) → 0 < n → 0 < slots b (fresh memory n b)
  slots_first n b positive = ground (arith, slots-fresh n b b)

  pub allocate_memo-IsSound : (w : World) → IsSound w → IsSound (allocate_memo memory w)
  unfolding allocate_memo
  allocate_memo-IsSound w v =
      let more = fresh memory w.size w.next_address in
      record {
        once = λ a.
            ground
              (arith, v.once a, slots-append a w.pool more, slots-fresh w.size w.next_address a);
        spared = λ a. ground (
          arith,
          v.spared a,
          v.known a,
          flagged-append a w.pool more,
          flagged_le_slots a more,
          slots-fresh w.size w.next_address a,
        );
        dead = v.dead;
        known = λ a. ground (arith, v.known a);
        positive = omega (arith, v.positive);
      }

  pub allocated_first :
      (w : World) → IsSound w → 0 < slots w.next_address (allocate_memo memory w).pool
  unfolding allocate_memo
  allocated_first w v = omega (
    arith,
    v.positive,
    slots-append w.next_address w.pool (fresh memory w.size w.next_address),
    slots_first w.size w.next_address v.positive,
  )

  pub construct-IsSound : (size : ℕ) → 0 < size → IsSound (construct memory size)
  unfolding construct
  construct-IsSound size positive =
      allocate_memo-IsSound
        (record {
          pool = [];
          size = size;
          next_address = 0;
          live = [];
          given = [];
          destroyed = [];
          freed = [];
        })
        (record {
          once = λ a. ground arith;
          spared = λ a. inl refl;
          dead = λ a. omega arith;
          known = λ a. inl refl;
          positive = positive;
        })
