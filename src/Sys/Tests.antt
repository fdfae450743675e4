-- ===== src/Sys/Tests.antt =====
-- The theorems on locks and sleep at concrete inputs.
use tit_co.Base.{◌≡◌, ◌≢◌, ◌↔◌, refl, true, false, some, [], ◌∷◌, arith}
use tit_co.Sys.Lock.{
  create, locks, System, go, step, Reach, fresh, next, is_locked_by, inside, outside, set_phase,
  Reach-holds,
}
use tit_co.Sys.ThreadLocal
use tit_co.Sys.ThreadLocal.{asks, ends, run, instance_of, own_object}

-- Thread 4 has locked and unlocked, thread 9 has locked.
abbrev start : System
start = record { lock = create; phase = λ t. outside }

abbrev one_in : System
one_in = record {
  lock = record { owner = some 4; depth = 1; holder = 4 };
  phase = set_phase start.phase 4 inside;
}

one_in-Reach : Reach one_in
unfolding go step
one_in-Reach = next locks 4 (omega arith) refl fresh

Reach-holds_example : is_locked_by one_in.lock 4 ≡ true ↔ one_in.phase 4 ≡ inside
Reach-holds_example = Reach-holds 4 one_in-Reach (omega arith)

-- Thread 1 has asked and ended before threads 2 and 3 ask.
own_object_example :
    let (i, first) = instance_of 2 (run ThreadLocal.start (asks 1 ∷ ends 1 ∷ [])) in
    let (j, second) = instance_of 3 first in
    (i ≢ j) × (instance_of 2 second ≡ (i, second)) × (second.failed ≡ false)
own_object_example = own_object (asks 1 ∷ ends 1 ∷ []) 2 3 (omega arith)
