-- ===== src/Tests/Pools.antt =====
-- A MemoryPool_shared on concrete calls.
use ix_library.Base.{ℕ, ◌≡◌, refl, Bool, true, List, [], ◌∷◌, ltb, arith}
use ix_library.Player.SharedPool
use ix_library.Player.SharedPool.{
  Call, make, throw, release, lose, close, construct, release_loop, free,
}
use ix_library.Player.SharedPool.Kept.{SoundIf, shared_slots_kept}

-- The flags that lie in the memory are clear below the address 3.
abbrev dirty : ℕ → Bool
dirty a = ltb 2 a

abbrev pool_calls : List Call
pool_calls = make ∷ throw ∷ make ∷ lose 0 ∷ make ∷ make ∷ release ∷ lose 1 ∷ release ∷ []

shared_slots_kept_example : SoundIf (SharedPool.run dirty pool_calls (construct dirty 2))
shared_slots_kept_example = shared_slots_kept dirty 2 pool_calls (omega arith)

-- The destructor of a pool of two slots whose flags lie set in the memory destroys two objects that
-- were never built.
never_built : (close (construct (λ a. true) 2)).destroyed ≡ 1 ∷ 0 ∷ []
unfolding close construct release_loop free
never_built = refl
