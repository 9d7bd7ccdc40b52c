-- ===== src/Pool/Words.antt =====
-- src/cache.rs: the pool's counter, and what one uncontended call does to it.
use server.Prelude.{
  ℕ, ◌+◌, ◌-◌, ◌^◌, Bool, true, false, Option, none, some, ltb, leb, ◌==◌, if◌then◌else◌,
}

abbrev pub u64_mod : ℕ
u64_mod = 2 ^ 64

-- `u64::checked_sub`, `u64::saturating_sub` and `u64::checked_add`.
abbrev pub checked_sub : ℕ → ℕ → Option ℕ
checked_sub a b = if leb b a then some (a - b) else none

abbrev pub saturating_sub : ℕ → ℕ → ℕ
saturating_sub a b = a - b

abbrev pub checked_add : ℕ → ℕ → Option ℕ
checked_add a b = if ltb (a + b) u64_mod then some (a + b) else none

-- `compare_exchange(expected, new)` on a counter that holds `a`: whether it succeeds, and what the
-- counter holds then.
abbrev pub compare_exchange : ℕ → ℕ → ℕ → Bool × ℕ
compare_exchange a expected new = if a == expected then (true, new) else (false, a)

-- `CacheCapacityPool`: the capacity that no reservation holds.
pub record CacheCapacityPool : Type 0 where
  pub available_capacity : ℕ

-- `CacheCapacityReservation`; its pool is the one pool of the storage.
pub record CacheCapacityReservation : Type 0 where
  pub reserved : ℕ

unfoldable pub new : ℕ → CacheCapacityPool
new capacity = record { available_capacity = capacity }

-- `None` leaves the pool as it is.
unfoldable pub reserve : CacheCapacityPool → ℕ → Option CacheCapacityReservation × CacheCapacityPool
reserve pool size =
    if size == 0
    then (some (record { reserved = 0 }), pool)
    else elim (checked_sub pool.available_capacity size) [
      | none ↦ (none, pool)
      | some remaining_capacity ↦
          (some (record { reserved = size }), record { available_capacity = remaining_capacity })
    ]

unfoldable pub reserve_up_to : CacheCapacityPool → ℕ → CacheCapacityReservation × CacheCapacityPool
reserve_up_to pool size =
    if size == 0
    then (record { reserved = size }, pool)
    else let remaining_capacity = saturating_sub pool.available_capacity size in
      (
        record { reserved = pool.available_capacity - remaining_capacity },
        record { available_capacity = remaining_capacity },
      )

-- `none` is the panic "disk pool capacity overflowed".
unfoldable pub return_to_pool :
    CacheCapacityReservation → CacheCapacityPool → Option CacheCapacityPool
return_to_pool reservation pool =
    if reservation.reserved == 0
    then some pool
    else elim (checked_add pool.available_capacity reservation.reserved) [
      | none ↦ none
      | some new_capacity ↦ some (record { available_capacity = new_capacity })
    ]
