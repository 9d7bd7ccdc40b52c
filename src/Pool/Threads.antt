-- ===== src/Pool/Threads.antt =====
-- src/cache.rs: the loops of `reserve`, `reserve_up_to` and `return_to_pool`, one atomic access to
-- the counter at a time, run by any number of threads in any order.
use server.Prelude.{ℕ, zero, suc, none, some, List, [], ◌∷◌, ◌==◌, if◌then◌else◌}
use server.Pool.Words.{checked_sub, saturating_sub, checked_add, compare_exchange}

-- Where a thread is. A number is a local of the function: the size or the reserved amount first,
-- then what the thread loaded and what it wants to store.
pub data Thread : Type 0 where
  idle : Thread
  reserve_load : ℕ → Thread
  reserve_swap : ℕ → ℕ → ℕ → Thread
  up_to_load : ℕ → Thread
  up_to_swap : ℕ → ℕ → ℕ → Thread
  refused : Thread
  holding : ℕ → Thread
  return_load : ℕ → Thread
  return_swap : ℕ → ℕ → ℕ → Thread
  panicked : Thread

-- What a thread may do next: begin a call, drop its reservation, or take one step of its loop.
pub data Action : Type 0 where
  call_reserve : ℕ → Action
  call_reserve_up_to : ℕ → Action
  drop_reservation : Action
  work : Action

-- The lines of the three functions above their loops.
unfoldable pub enter_reserve : ℕ → Thread
enter_reserve size = if size == 0 then holding 0 else reserve_load size

unfoldable pub enter_reserve_up_to : ℕ → Thread
enter_reserve_up_to size = if size == 0 then holding size else up_to_load size

unfoldable pub enter_return_to_pool : ℕ → Thread
enter_return_to_pool reserved = if reserved == 0 then idle else return_load reserved

-- One atomic access of thread `p` to a counter that holds `a`.
unfoldable pub step : Thread → ℕ → Thread × ℕ
step (reserve_load size) a = elim (checked_sub a size) [
  | none ↦ (refused, a)
  | some remaining_capacity ↦ (reserve_swap size a remaining_capacity, a)
]
step (reserve_swap size available_capacity remaining_capacity) a =
    let (is_ok, a') = compare_exchange a available_capacity remaining_capacity in
    if is_ok then (holding size, a') else (reserve_load size, a')
step (up_to_load size) a = (up_to_swap size a (saturating_sub a size), a)
step (up_to_swap size available_capacity remaining_capacity) a =
    let (is_ok, a') = compare_exchange a available_capacity remaining_capacity in
    if is_ok
    then (elim (checked_sub available_capacity remaining_capacity) [
      | none ↦ (panicked, a')
      | some reserved ↦ (holding reserved, a')
    ])
    else (up_to_load size, a')
step (return_load reserved) a = elim (checked_add a reserved) [
  | none ↦ (panicked, a)
  | some new_capacity ↦ (return_swap reserved a new_capacity, a)
]
step (return_swap reserved current_capacity new_capacity) a =
    let (is_ok, a') = compare_exchange a current_capacity new_capacity in
    if is_ok then (idle, a') else (return_load reserved, a')
step idle a = (idle, a)
step refused a = (refused, a)
step (holding reserved) a = (holding reserved, a)
step panicked a = (panicked, a)

-- An action that does not fit where the thread is does nothing. A refused thread may call again.
unfoldable pub act : Action → Thread → ℕ → Thread × ℕ
unfolding step enter_reserve enter_reserve_up_to enter_return_to_pool
act work p a = step p a
act (call_reserve size) idle a = (enter_reserve size, a)
act (call_reserve size) refused a = (enter_reserve size, a)
act (call_reserve_up_to size) idle a = (enter_reserve_up_to size, a)
act (call_reserve_up_to size) refused a = (enter_reserve_up_to size, a)
act drop_reservation (holding reserved) a = (enter_return_to_pool reserved, a)
act _ p a = (p, a)

-- The counter and the threads.
pub record System : Type 0 where
  pub counter : ℕ
  pub threads : List Thread

-- Thread number `i` acts; there may be no such thread.
unfoldable pub act_at : Action → ℕ → List Thread → ℕ → List Thread × ℕ
act_at action i [] a = ([], a)
act_at action zero (p ∷ ps) a = let (p', a') = act action p a in (p' ∷ ps, a')
act_at action (suc i) (p ∷ ps) a = let (ps', a') = act_at action i ps a in (p ∷ ps', a')

-- A schedule says which thread acts next, and how.
unfoldable pub run : List (ℕ × Action) → System → System
run [] s = s
run ((i, action) ∷ schedule) s =
    let (threads, counter) = act_at action i s.threads s.counter in
    run schedule (record { counter = counter; threads = threads })

unfoldable pub start : ℕ → ℕ → System
start capacity zero = record { counter = capacity; threads = [] }
start capacity (suc n) = record (start capacity n) { threads = idle ∷ (start capacity n).threads }
