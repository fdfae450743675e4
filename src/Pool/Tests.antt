-- ===== src/Pool/Tests.antt =====
-- The pool's theorems at concrete histories.
use mathlib.Core.Option
use tit_co.Base.{◌≡◌, refl, some, List, [], ◌∷◌, replicate}
use tit_co.Pool.{new, create, number, pop, push, Call, pops, pushes, runs, Ledger, step, run}
use tit_co.Pool.Ids.{IsValid, initial, run-IsValid}

-- Two are taken, the first is run and given back, and taken again.
abbrev history : List Call
history = pops ∷ pops ∷ runs 0 (record new { state = 2; id = 9 }) ∷ pushes 0 ∷ pops ∷ []

abbrev used : Ledger
used = record {
  copoll = record { id = 2; idle = []; pool = number 0 new ∷ number 1 new ∷ replicate 254 new };
  live = 0 ∷ 1 ∷ [];
}

used-run : run initial history ≡ some used
unfolding run step pop push create Option.bind
used-run = refl

run-IsValid_example : IsValid used
run-IsValid_example = run-IsValid history used used-run

abbrev used_again : Ledger
used_again = record {
  copoll = record {
    id = 3;
    idle = [];
    pool = number 0 new ∷ number 1 new ∷ number 2 new ∷ replicate 253 new;
  };
  live = 2 ∷ 0 ∷ 1 ∷ [];
}
