-- ===== src/Player/SharedPool/Kept.antt =====
-- The calls of a `MemoryPool_shared`, one after another.
use ix_library.Base.{
  ℕ, ◌-◌, ◌/◌, ◌<◌, ◌≡◌, refl, Bool, Option, none, some, List, [], ◌∷◌, length, subst, arith,
}
use ix_library.Player.SharedPool.Places.{
  slots, slots-append, flagged-append, flagged_le_slots, IsSound, release_loop-IsSound,
  take_out-Parts, lost-IsSound, allocate_memo-IsSound, allocated_first, construct-IsSound,
}
use ix_library.Player.SharedPool.{
  Slot, World, pop_front, built, put_back, take_out, release_memo, close, Call, make, throw,
  release, lose, allocate_memo, construct, get_slot, step, run,
}

-- A slot off the queue that is still accounted for.
abbrev Taken : Option (Slot × World) → Type 0
Taken none = ⊥
Taken (some (s, w)) = IsSound (record w { pool = s ∷ w.pool })

abbrev pub SoundIf : Option World → Type 0
SoundIf none = ⊥
SoundIf (some w) = IsSound w × IsSound (close w)

abbrev Some : Option World → Type 0
Some none = ⊥
Some (some w) = IsSound w

pop_front-Taken : (w : World) → IsSound w → (a : ℕ) → 0 < slots a w.pool → Taken (pop_front w)
pop_front-Taken w v a n = by_pool w.pool refl n
  where
    by_pool :
        (xs : List Slot)
        → w.pool ≡ xs
        → 0 < slots a xs
        → Taken (
            let r : Option (Slot × World) = elim xs [
              | [] ↦ none
              | slot ∷ rest ↦ some (slot, record w { pool = rest })
            ] in
            r)
    by_pool [] e m = omega (arith, m)
    by_pool (x ∷ rest) e m = subst (λ l. IsSound (record w { pool = l })) e v

built-Some : (o : Option (Slot × World)) → Taken o → Some (built o)
unfolding built
built-Some none v = elim v [ ]
built-Some (some (s, w)) v = record {
  once = λ a. omega (arith, v.once a);
  spared = λ a. ground (arith, v.once a, v.spared a, v.dead a, flagged_le_slots a w.pool);
  dead = v.dead;
  known = λ a. ground (arith, v.once a, v.known a);
  positive = v.positive;
}

put_back-Some : (o : Option (Slot × World)) → Taken o → Some (put_back o)
unfolding put_back
put_back-Some none v = elim v [ ]
put_back-Some (some (s, w)) v = record {
  once = λ a. omega (arith, v.once a, slots-append a w.pool (s ∷ []));
  spared = λ a. rw (flagged-append a w.pool (s ∷ [])) (ground (arith, v.spared a));
  dead = v.dead;
  known = v.known;
  positive = v.positive;
}

module _ (memory : ℕ → Bool) where
  get_slot-Taken : (w : World) → IsSound w → Taken (get_slot memory w)
  unfolding get_slot
  get_slot-Taken w v = by_pool w.pool refl
    where
      grown : Taken (pop_front (allocate_memo memory w))
      grown =
          pop_front-Taken (allocate_memo memory w) (allocate_memo-IsSound memory w v) w.next_address
            (allocated_first memory w v)

      by_pool :
          (xs : List Slot)
          → w.pool ≡ xs
          → Taken (
              let r : Option (Slot × World) = elim xs [
                | [] ↦ pop_front (allocate_memo memory w)
                | slot ∷ rest ↦ pop_front w
              ] in
              r)
      by_pool [] e = grown
      by_pool (x ∷ rest) e = pop_front-Taken w v x.address (rw e (ground arith))

  step-Some : (c : Call) (w : World) → IsSound w → Some (step memory c w)
  unfolding step release_memo
  step-Some make w v = built-Some (get_slot memory w) (get_slot-Taken w v)
  step-Some throw w v = put_back-Some (get_slot memory w) (get_slot-Taken w v)
  step-Some (lose i) w v = lost-IsSound w (take_out i w.live) v (take_out-Parts i w.live)
  step-Some release w v = release_loop-IsSound (length w.pool - w.size / 2) w.pool w v

  run-SoundIf : (cs : List Call) (w : World) → IsSound w → SoundIf (run memory cs w)
  unfolding run close
  run-SoundIf [] w v = (v, release_loop-IsSound (length w.pool) w.pool w v)
  run-SoundIf (c ∷ cs) w v = by_step (λ u k. run-SoundIf cs u k) (step memory c w) (step-Some c w v)
    where
      by_step :
          ((u : World) → IsSound u → SoundIf (run memory cs u))
          → (o : Option World) → Some o
          → SoundIf (let r : Option World = elim o [ none ↦ none | some u ↦ run memory cs u ] in r)
      by_step ih none k = elim k [ ]
      by_step ih (some u) k = ih u k

  -- From a pool of a positive size, whatever the memory holds that `::operator new` hands out:
  -- after any sequence of objects made or failed, dropped, and memory released, `front` was never
  -- called on an empty queue; each address is queued, live or freed, once; and the pool itself, in
  -- `release_memo` or in its destructor, ran the destructor of `T` on no slot where an object had been
  -- built. The same holds once the pool is destroyed.
  pub shared_slots_kept :
      (size : ℕ) (cs : List Call) → 0 < size → SoundIf (run memory cs (construct memory size))
  shared_slots_kept size cs positive =
      run-SoundIf cs (construct memory size) (construct-IsSound memory size positive)
