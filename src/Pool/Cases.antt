-- ===== src/Pool/Cases.antt =====
-- The two outcomes of a reservation.
use server.Pool.Words.{CacheCapacityPool, reserve, reserve_up_to}
use server.Prelude.{ℕ, ◌+◌, ◌-◌, ◌<◌, ◌≤◌, ◌≡◌, ◌⊎◌, inl, inr, none, some, arith, dec_lt}

pub reserve-cases :
    (pool : CacheCapacityPool) (size : ℕ)
    → ((size ≤ pool.available_capacity)
        × (reserve pool size ≡ (
          some (record { reserved = size }),
          record { available_capacity = pool.available_capacity - size },
        )))
      ⊎ ((pool.available_capacity < size) × (reserve pool size ≡ (none, pool)))
unfolding reserve
reserve-cases pool size = elim (dec_lt pool.available_capacity size) [
  | yes p ↦ inr (p, ground arith)
  | no p ↦ inl (omega arith, ground arith)
]

-- Where the whole size does not fit, all that is left is taken.
pub reserve_up_to-all :
    (pool : CacheCapacityPool) (size : ℕ)
    → pool.available_capacity < size
    → reserve_up_to pool size
      ≡ (record { reserved = pool.available_capacity }, record { available_capacity = 0 })
unfolding reserve_up_to
reserve_up_to-all pool size h = ground arith

-- What is taken and what is left make up what there was.
pub reserve_up_to-conserves :
    (pool : CacheCapacityPool) (size : ℕ)
    → (reserve_up_to pool size).1.available_capacity + (reserve_up_to pool size).0.reserved
      ≡ pool.available_capacity
unfolding reserve_up_to
reserve_up_to-conserves pool size = ground arith
