-- ===== src/Io/Tests.antt =====
-- The theorems of the I/O side at concrete inputs, over a kernel that never runs out of memory.
use tit_co.Base.{
  ℕ, ◌<◌, ◌≡◌, refl, ◌⊎◌, Bool, true, false, ◌==◌, if◌then◌else◌, Option, none, some, List, [], ◌∷◌,
  arith,
}
use tit_co.Io.SockCtx.{SockCtx, fresh}
use tit_co.Io.Epoll.{
  Kernel, Mask, Ctl, add, mod_, del, out_only, Epoll, Call, adds_read, adds_write, dels_read, run,
}
use tit_co.Io.Epoll.Sync.{IsSynced, run-IsSynced}
use tit_co.Io.Epoll.Wakeup.{
  Bell, start, push, swap_won, Reach, here, next, Some, pushed, ringing, update, no_lost_wakeup,
}
use tit_co.Io.Event.{Events}

abbrev put : (ℕ → Option Mask) → ℕ → Option Mask → ℕ → Option Mask
put s fd m j = if fd == j then m else s j

-- The interest list as a function of the descriptor.
abbrev ctl : (ℕ → Option Mask) → Ctl → ℕ → Mask → (ℕ → Option Mask) × Bool
ctl s add fd m = elim (s fd) [ none ↦ (put s fd (some m), true) | some _ ↦ (s, false) ]
ctl s mod_ fd m = elim (s fd) [ none ↦ (s, false) | some _ ↦ (put s fd (some m), true) ]
ctl s del fd m = elim (s fd) [ none ↦ (s, false) | some _ ↦ (put s fd none, true) ]

added :
    (s : ℕ → Option Mask) (fd : ℕ) (m : Mask)
    → (ctl s add fd m).1 ≡ true
    → (ctl s add fd m).0 fd ≡ some m
added s fd m h = ground arith

modified :
    (s : ℕ → Option Mask) (fd : ℕ) (m : Mask)
    → (ctl s mod_ fd m).1 ≡ true
    → (ctl s mod_ fd m).0 fd ≡ some m
modified s fd m h = ground arith

deleted :
    (s : ℕ → Option Mask) (fd : ℕ) (m : Mask)
    → (ctl s del fd m).1 ≡ true
    → (ctl s del fd m).0 fd ≡ none
deleted s fd m h = ground arith

failed :
    (s : ℕ → Option Mask) (op : Ctl) (fd : ℕ) (m : Mask)
    → (ctl s op fd m).1 ≡ false
    → (ctl s op fd m).0 ≡ s
failed s add fd m h = ground arith
failed s mod_ fd m h = ground arith
failed s del fd m h = ground arith

others :
    (s : ℕ → Option Mask) (op : Ctl) (fd j : ℕ) (m : Mask)
    → (fd == j) ≡ false
    → (ctl s op fd m).0 j ≡ s j
others s add fd j m h = ground arith
others s mod_ fd j m h = ground arith
others s del fd j m h = ground arith

abbrev table : Kernel
table = record {
  State = ℕ → Option Mask;
  interest = λ s. s;
  epoll_ctl = ctl;
  added = added;
  modified = modified;
  deleted = deleted;
  failed = failed;
  others = others;
}

abbrev empty : Epoll table
empty = record { sched_id = 0; kernel = λ _. none; ctxs = λ _. fresh }

empty-IsSynced : IsSynced table empty
empty-IsSynced = record {
  own = λ fd. record { reader = λ h. absurd (h refl); writer = λ h. absurd (h refl) };
  watched = λ fd. refl;
}

abbrev calls : List (Call table)
calls = adds_read (some 7) 3 ∷ adds_write (some 7) 4 ∷ dels_read (some 7) ∷ adds_read none 3 ∷ []

run-IsSynced_example : IsSynced table (run table empty calls)
unfolding run
run-IsSynced_example =
    run-IsSynced table empty calls ((λ h. cc), ((λ h. cc), (tt, ((λ h. cc), tt))))
      (refl, (refl, (refl, (refl, tt)))) empty-IsSynced

run-calls : (run table empty calls).kernel 7 ≡ some out_only
unfolding run
run-calls = refl

-- One thread has pushed a task and raised the flag, and not yet rung.
abbrev raised : Bell
raised = record start {
  tasks = 1;
  is_wakeup = true;
  producers = update (update start.producers 0 pushed) 0 ringing;
}

raised-Reach : Reach start raised
raised-Reach = next (next here (push 0 refl refl)) (swap_won 0 refl refl refl)

no_lost_wakeup_example : (0 < 0) ⊎ Some pushed raised ⊎ Some ringing raised
no_lost_wakeup_example = no_lost_wakeup raised-Reach (omega arith) refl

abbrev input : Events
input = record { epollin = true; epollout = false; rest = false }

abbrev two_waiters : SockCtx
two_waiters = record {
  read_ev = record { co_id = 3; sched_id = 0 };
  write_ev = record { co_id = 4; sched_id = 0 };
}
