-- ===== src/Sys/Counter.antt =====
-- include/base/atomic_int.h: `AtomicIntegerT` for words of `w` bits, and the threads that use one.
use tit_co.Base.{ℕ, ◌+◌, ◌-◌, ◌%◌, ◌<◌, ◌≡◌, List, [], ◌∷◌, arith}
use tit_co.Base.Word.{u32}

-- `value_`, as the number that its bits are: `AtomicInt32`, of which -1 is 2 ^ 32 - 1. Each
-- operation is one atomic step, and returns the value and what the call returns.
unfoldable pub get : ℕ → ℕ × ℕ
get value = (value, value)

unfoldable pub get_and_add : ℕ → ℕ → ℕ × ℕ
get_and_add value x = ((value + x) % u32, value)

-- The sum is computed after the step, on what it returned.
unfoldable pub add_and_get : ℕ → ℕ → ℕ × ℕ
unfolding get_and_add
add_and_get value x = let (next, old) = get_and_add value x in (next, (old + x) % u32)

unfoldable pub increment_and_get : ℕ → ℕ × ℕ
unfolding add_and_get
increment_and_get value = add_and_get value 1

unfoldable pub decrement_and_get : ℕ → ℕ × ℕ
unfolding add_and_get
decrement_and_get value = add_and_get value (u32 - 1)

-- `Add`, `Increment` and `Decrement` drop the result.
unfoldable pub add : ℕ → ℕ → ℕ
unfolding get_and_add
add value x = (get_and_add value x).0

unfoldable pub increment : ℕ → ℕ
unfolding increment_and_get
increment value = (increment_and_get value).0

unfoldable pub decrement : ℕ → ℕ
unfolding decrement_and_get
decrement value = (decrement_and_get value).0

unfoldable pub get_and_set : ℕ → ℕ → ℕ × ℕ
get_and_set value x = (x, value)

-- What threads do to a counter and use the result of, in the order of the atomic steps.
pub data Op : Type 0 where
  gets increments decrements : Op
  adds : ℕ → Op

unfoldable pub step : ℕ → Op → ℕ × ℕ
unfolding get increment_and_get decrement_and_get add_and_get
step value gets = get value
step value increments = increment_and_get value
step value decrements = decrement_and_get value
step value (adds x) = add_and_get value x

abbrev pub amount : Op → ℕ
amount gets = 0
amount increments = 1
amount decrements = u32 - 1
amount (adds x) = x

abbrev pub total : List Op → ℕ
total [] = 0
total (op ∷ ops) = amount op + total ops

-- The value after the calls.
unfoldable pub run : ℕ → List Op → ℕ
unfolding step
run value [] = value
run value (op ∷ ops) = run (step value op).0 ops

step_lem :
    (value : ℕ) (op : Op)
    → value < u32
    → ((step value op).0 ≡ (value + amount op) % u32) × ((step value op).1 ≡ (step value op).0)
unfolding step
step_lem value gets h = omega arith
step_lem value increments h = omega arith
step_lem value decrements h = omega arith
step_lem value (adds x) h = omega arith

step_small : (value : ℕ) (op : Op) → value < u32 → (step value op).0 < u32
unfolding step
step_small value gets h = h
step_small value increments h = omega arith
step_small value decrements h = omega arith
step_small value (adds x) h = omega arith

run-total :
    (ops : List Op) (value : ℕ)
    → value < u32
    → (run value ops ≡ (value + total ops) % u32) × (run value ops < u32)
unfolding run
run-total [] value h = omega arith
run-total (op ∷ ops) value h =
    omega (arith, (step_lem value op h).0, run-total ops (step value op).0 (step_small value op h))

-- However the calls of several threads interleave, each `IncrementAndGet`, `DecrementAndGet` and
-- `AddAndGet` returns, modulo 2 ^ 32, the value at the start with all amounts up to and including
-- its own, and leaves that value, although it adds its amount a second time outside the atomic step;
-- a `Get` returns the sum so far.
pub run_lem :
    (ops : List Op) (op : Op) (value : ℕ)
    → value < u32
    → let before = run value ops in
      ((step before op).1 ≡ (value + total ops + amount op) % u32)
      × ((step before op).0 ≡ (value + total ops + amount op) % u32)
run_lem ops op value h =
    let (sum, small) = run-total ops value h in
    let (leaves, result) = step_lem (run value ops) op small in omega (arith, sum, leaves, result)
