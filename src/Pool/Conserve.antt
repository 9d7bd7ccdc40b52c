-- ===== src/Pool/Conserve.antt =====
-- No capacity is lost or made up by the pool, whatever the interleaving.
use server.Prelude.{ℕ, zero, suc, ◌+◌, ◌-◌, ◌<◌, ◌≡◌, ◌≢◌, List, [], ◌∷◌, arith, All, All-map}
use server.Pool.Words.{u64_mod}
use server.Pool.Threads.{
  Thread, reserve_swap, up_to_swap, holding, return_load, return_swap, panicked, Action, work,
  call_reserve, act, act_at, System, run, start,
}

-- The capacity that the thread has taken and not given back.
abbrev pub held : Thread → ℕ
held (holding reserved) = reserved
held (return_load reserved) = reserved
held (return_swap reserved _ _) = reserved
held _ = 0

pub total_held : List Thread → ℕ
total_held [] = 0
total_held (p ∷ ps) = held p + total_held ps

-- The locals of a thread fit together, and it has not panicked.
abbrev pub IsSound : Thread → Type 0
IsSound (reserve_swap size old new) = old ≡ new + size
IsSound (up_to_swap size old new) = new ≡ old - size
IsSound (return_load reserved) = reserved ≢ 0
IsSound (return_swap reserved old new) = (new ≡ old + reserved) × (reserved ≢ 0) × (new < u64_mod)
IsSound panicked = ⊥
IsSound _ = Unit

-- One action of a thread, while the others hold `rest`.
act_keeps :
    (capacity rest : ℕ) (action : Action) (p : Thread) (a : ℕ)
    → capacity < u64_mod
    → IsSound p
    → a + held p + rest ≡ capacity
    → IsSound (act action p a).0 × ((act action p a).1 + held (act action p a).0 + rest ≡ capacity)
unfolding act
act_keeps c rest (call_reserve n) p a lt s e = ground arith
act_keeps c rest work p a lt s e = ground arith
act_keeps c rest action p a lt s e = ground arith

act_at_keeps :
    (capacity rest : ℕ) (action : Action) (i : ℕ) (ps : List Thread) (a : ℕ)
    → capacity < u64_mod
    → All IsSound ps
    → a + total_held ps + rest ≡ capacity
    → All IsSound (act_at action i ps a).0
      × ((act_at action i ps a).1 + total_held (act_at action i ps a).0 + rest ≡ capacity)
unfolding act_at total_held
act_at_keeps c rest action i [] a lt s e = (tt, e)
act_at_keeps c rest action zero (p ∷ ps) a lt s e =
    let (sound, kept) = act_keeps c (total_held ps + rest) action p a lt s.0 (omega arith) in
    ((sound, s.1), omega arith)
act_at_keeps c rest action (suc i) (p ∷ ps) a lt s e =
    let (sound, kept) = act_at_keeps c (held p + rest) action i ps a lt s.1 (omega arith) in
    ((s.0, sound), omega arith)

pub record IsConserved (capacity : ℕ) (s : System) : Type 0 where
  pub sound : All IsSound s.threads
  pub kept : s.counter + total_held s.threads ≡ capacity

run_keeps :
    (capacity : ℕ) (schedule : List (ℕ × Action)) (s : System)
    → capacity < u64_mod
    → IsConserved capacity s
    → IsConserved capacity (run schedule s)
unfolding run
run_keeps c [] s lt h = h
run_keeps c ((i, action) ∷ schedule) s lt h =
    let (sound, kept) =
      act_at_keeps c 0 action i s.threads s.counter lt h.sound (omega (arith, h.kept)) in
    run_keeps c schedule _ lt (record { sound = sound; kept = omega arith })

start_keeps : (capacity n : ℕ) → IsConserved capacity (start capacity n)
unfolding start total_held
start_keeps c zero = record { sound = tt; kept = omega arith }
start_keeps c (suc n) =
    let ih = start_keeps c n in record { sound = (tt, ih.sound); kept = omega (arith, ih.kept) }

not_panicked : (p : Thread) → IsSound p → p ≢ panicked
not_panicked panicked h = absurd h
not_panicked p h = ground arith

-- A pool of capacity below 2^64 is created, and any number of threads reserve, reserve up to a
-- size and drop reservations on it, their atomic accesses in any order. Then the counter and the
-- reservations held always add up to the capacity, and no thread has panicked: neither the
-- `unwrap` of `reserve_up_to` nor the overflow check of `return_to_pool` ever fails.
pub run-conserves :
    (capacity n : ℕ) (schedule : List (ℕ × Action))
    → capacity < u64_mod
    → ((run schedule (start capacity n)).counter
          + total_held (run schedule (start capacity n)).threads
        ≡ capacity)
      × All (λ p. p ≢ panicked) (run schedule (start capacity n)).threads
run-conserves c n schedule lt =
    let h = run_keeps c schedule (start c n) lt (start_keeps c n) in
    (h.kept, All-map IsSound (λ p. p ≢ panicked) not_panicked _ h.sound)
