-- ===== src/Pool/Atomic.antt =====
-- The loops implement atomic operations: the functions of `Pool.Words`.
use server.Prelude.{ℕ, ◌≡◌, ◌⊎◌, Option, none, some, arith}
use server.Pool.Words.{
  CacheCapacityPool, CacheCapacityReservation, new, reserve, reserve_up_to, return_to_pool,
}
use server.Pool.Threads.{
  Thread, idle, reserve_load, reserve_swap, up_to_load, up_to_swap, refused, holding, return_load,
  return_swap, panicked, enter_reserve, enter_reserve_up_to, enter_return_to_pool, step,
}
use server.Pool.Conserve.{IsSound}

pub data Call : Type 0 where
  reserves : ℕ → Call
  reserves_up_to : ℕ → Call
  returns : ℕ → Call

-- The call that a thread is inside.
abbrev pub pending : Thread → Option Call
pending (reserve_load size) = some (reserves size)
pending (reserve_swap size _ _) = some (reserves size)
pending (up_to_load size) = some (reserves_up_to size)
pending (up_to_swap size _ _) = some (reserves_up_to size)
pending (return_load reserved) = some (returns reserved)
pending (return_swap reserved _ _) = some (returns reserved)
pending _ = none

abbrev pub enter : Call → Thread
enter (reserves size) = enter_reserve size
enter (reserves_up_to size) = enter_reserve_up_to size
enter (returns reserved) = enter_return_to_pool reserved

after_reserve : Option CacheCapacityReservation × CacheCapacityPool → Thread × ℕ
after_reserve (none, pool) = (refused, pool.available_capacity)
after_reserve (some r, pool) = (holding r.reserved, pool.available_capacity)

after_return : ℕ → Option CacheCapacityPool → Thread × ℕ
after_return a none = (panicked, a)
after_return a (some pool) = (idle, pool.available_capacity)

-- The whole call as one atomic operation on a counter that holds `a`.
unfoldable pub apply : Call → ℕ → Thread × ℕ
unfolding after_reserve after_return new reserve reserve_up_to return_to_pool
apply (reserves size) a = after_reserve (reserve (new a) size)
apply (reserves_up_to size) a =
    let (r, pool) = reserve_up_to (new a) size in (holding r.reserved, pool.available_capacity)
apply (returns reserved) a =
    after_return a (return_to_pool (record { reserved = reserved }) (new a))

-- Whatever the other threads do between two accesses: each access of a thread inside a call either
-- leaves the counter alone and the thread inside the call, or ends the call with the result and
-- the effect of the atomic operation at the value that the counter has at that moment.
pub step-linearizes :
    (p : Thread) (a : ℕ) (call : Call)
    → IsSound p
    → pending p ≡ some call
    → ((pending (step p a).0 ≡ some call) × ((step p a).1 ≡ a)) ⊎ (step p a ≡ apply call a)
unfolding step apply
step-linearizes (reserve_load size) a call s e = ground arith
step-linearizes p a call s e = ground arith

-- A call whose two accesses no other thread separates is the atomic operation.
pub call_alone :
    (call : Call) (a : ℕ) → step (step (enter call) a).0 (step (enter call) a).1 ≡ apply call a
unfolding step apply enter_reserve enter_reserve_up_to enter_return_to_pool
call_alone (reserves size) a = ground arith
call_alone (reserves_up_to size) a = ground arith
call_alone (returns reserved) a = ground arith
