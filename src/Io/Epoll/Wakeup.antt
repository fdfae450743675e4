-- ===== src/Io/Epoll/Wakeup.antt =====
-- How a scheduler in `epoll_wait` learns of a task that another thread has added:
-- `SchedulerImpl::AddNewTask` and `AddReadyTask` (include/scheduler.h), `Epoll::Wakeup` and
-- `Epoll::HandleWakeUpEvent` (src/epoll.cc) and the order of `SchedulerImpl::Loop`
-- (src/scheduler.cc), as steps of any number of threads. A `write` to the eventfd that fails for
-- another reason than a full counter or a signal is not a step here: the code logs it and gives up.
use tit_co.Base.{
  ℕ, suc, ◌<◌, ◌≡◌, ◌≢◌, refl, ◌⊎◌, inl, inr, Bool, true, false, ◌==◌, if◌then◌else◌, arith,
}

-- A thread that adds a task: outside, between the push and the compare-and-swap on `is_wakeup_`,
-- and between a swap that it won and its `write`.
pub data Producer : Type 0 where
  idle pushed ringing : Producer

-- The loop: in `epoll_wait`, about to read the eventfd, about to reset `is_wakeup_`, on the way to
-- `GetAllTasks`, and past it (resuming tasks and timers).
pub data Consumer : Type 0 where
  waiting draining resetting collecting resuming : Consumer

pub record Bell : Type 0 where
  pub tasks : ℕ
  pub is_wakeup : Bool
  pub counter : ℕ
  pub producers : ℕ → Producer
  pub consumer : Consumer

abbrev pub update : (ℕ → Producer) → ℕ → Producer → ℕ → Producer
update f i p j = if i == j then p else f j

pub data Step (s t : Bell) : Type 0 where
  -- `task_mgr_.AddNewTasks(func)` or `AddReadyTasks(co)`
  push :
      (i : ℕ)
      → s.producers i ≡ idle
      → t ≡ record s { tasks = suc s.tasks; producers = update s.producers i pushed }
      → Step s t
  -- `atomic_compare_swap(&is_wakeup_, false, true) == false`, and otherwise
  swap_won :
      (i : ℕ)
      → s.producers i ≡ pushed
      → s.is_wakeup ≡ false
      → t ≡ record s { is_wakeup = true; producers = update s.producers i ringing }
      → Step s t
  swap_lost :
      (i : ℕ)
      → s.producers i ≡ pushed
      → s.is_wakeup ≡ true
      → t ≡ record s { producers = update s.producers i idle }
      → Step s t
  -- `write(wake_up_fd_, &one, 8)`: done, EAGAIN at a full counter, EINTR
  ring :
      (i : ℕ)
      → s.producers i ≡ ringing
      → t ≡ record s { counter = suc s.counter; producers = update s.producers i idle }
      → Step s t
  ring_full :
      (i : ℕ)
      → s.producers i ≡ ringing
      → 0 < s.counter
      → t ≡ record s { producers = update s.producers i idle }
      → Step s t
  ring_interrupted : (i : ℕ) → s.producers i ≡ ringing → t ≡ s → Step s t
  -- `epoll_wait` reports the eventfd, or returns for another event, a timeout or a signal
  wake : s.consumer ≡ waiting → 0 < s.counter → t ≡ record s { consumer = draining } → Step s t
  wake_other : s.consumer ≡ waiting → t ≡ record s { consumer = collecting } → Step s t
  wake_failed : s.consumer ≡ waiting → t ≡ s → Step s t
  -- `HandleWakeUpEvent`: the read, a read that a signal interrupts, and `atomic_swap`
  drain : s.consumer ≡ draining → t ≡ record s { counter = 0; consumer = resetting } → Step s t
  drain_interrupted : s.consumer ≡ draining → t ≡ s → Step s t
  reset :
      s.consumer ≡ resetting → t ≡ record s { is_wakeup = false; consumer = collecting } → Step s t
  -- `GetAllTasks`, and the way back to `epoll_wait`
  collect : s.consumer ≡ collecting → t ≡ record s { tasks = 0; consumer = resuming } → Step s t
  again : s.consumer ≡ resuming → t ≡ record s { consumer = waiting } → Step s t

pub data Reach (s : Bell) : Bell → Type 0 where
  here : Reach s s
  next : {t u : Bell} → Reach s t → Step t u → Reach s u

abbrev pub start : Bell
start = record {
  tasks = 0;
  is_wakeup = false;
  counter = 0;
  producers = λ _. idle;
  consumer = waiting;
}

abbrev pub Some : Producer → Bell → Type 0
Some p s = (i : ℕ) × (s.producers i ≡ p)

-- A raised flag has a ring behind it or on its way, until the loop drains; a task that the loop
-- has not collected has raised the flag or is about to.
pub record IsHeard (s : Bell) : Type 0 where
  pub rung :
      s.is_wakeup ≡ true
      → s.consumer ≢ draining
      → s.consumer ≢ resetting
      → (0 < s.counter) ⊎ Some ringing s
  pub raised :
      0 < s.tasks
      → (s.consumer ≡ waiting) ⊎ (s.consumer ≡ resuming)
      → (s.is_wakeup ≡ true) ⊎ Some pushed s

-- A thread in another place than the one that moves is where it was.
keep :
    {p q : Producer} (r : Producer) (f : ℕ → Producer) (i : ℕ)
    → f i ≡ q
    → p ≢ q
    → (j : ℕ) × (f j ≡ p)
    → (j : ℕ) × (update f i r j ≡ p)
keep r f i h ne (j, e) = (j, ground arith)

or_keep :
    {P : Type 0} {p q : Producer} (r : Producer) (f : ℕ → Producer) (i : ℕ)
    → f i ≡ q
    → p ≢ q
    → P ⊎ ((j : ℕ) × (f j ≡ p))
    → P ⊎ ((j : ℕ) × (update f i r j ≡ p))
or_keep r f i h ne (inl a) = inl a
or_keep r f i h ne (inr b) = inr (keep r f i h ne b)

step-IsHeard : {s t : Bell} → Step s t → IsHeard s → IsHeard t
step-IsHeard {s} (push i h e) v = rw e (record {
  rung = λ f d r. or_keep pushed s.producers i h (λ q. cc) (v.rung f d r);
  raised = λ n c. inr (i, ground arith);
})
step-IsHeard {s} (swap_won i h off e) v =
    rw e (record { rung = λ f d r. inr (i, ground arith); raised = λ n c. inl refl })
step-IsHeard {s} (swap_lost i h on e) v = rw e (record {
  rung = λ f d r. or_keep idle s.producers i h (λ q. cc) (v.rung f d r);
  raised = λ n c. inl on;
})
step-IsHeard {s} (ring i h e) v = rw e (record {
  rung = λ f d r. inl (omega arith);
  raised = λ n c. or_keep idle s.producers i h (λ q. cc) (v.raised n c);
})
step-IsHeard {s} (ring_full i h full e) v = rw e (record {
  rung = λ f d r. inl full;
  raised = λ n c. or_keep idle s.producers i h (λ q. cc) (v.raised n c);
})
step-IsHeard (ring_interrupted i h e) v = rw e v
step-IsHeard (wake h n e) v =
    rw e (record { rung = λ f d r. absurd (d refl); raised = λ n c. ground arith })
step-IsHeard (wake_other h e) v =
    rw e (record { rung = λ f d r. v.rung f (λ q. cc) (λ q. cc); raised = λ n c. ground arith })
step-IsHeard (wake_failed h e) v = rw e v
step-IsHeard (drain h e) v =
    rw e (record { rung = λ f d r. absurd (r refl); raised = λ n c. ground arith })
step-IsHeard (drain_interrupted h e) v = rw e v
step-IsHeard (reset h e) v = rw e (record { rung = λ f d r. cc; raised = λ n c. ground arith })
step-IsHeard (collect h e) v =
    rw e (record {
      rung = λ f d r. v.rung f (λ q. cc) (λ q. cc);
      raised = λ n c. absurd (omega arith);
    })
step-IsHeard (again h e) v =
    rw e
      (record { rung = λ f d r. v.rung f (λ q. cc) (λ q. cc); raised = λ n c. v.raised n (inr h) })

Reach-IsHeard : {s : Bell} → Reach start s → IsHeard s
Reach-IsHeard here = record { rung = λ f d r. cc; raised = λ n c. absurd (omega arith) }
Reach-IsHeard (next r st) = step-IsHeard st (Reach-IsHeard r)

-- No wake-up is lost. In every reachable state where tasks wait and the loop is in `epoll_wait`,
-- the eventfd is readable, so that the wait ends, or some thread is still on its way to ring it.
pub no_lost_wakeup :
    {s : Bell}
    → Reach start s
    → 0 < s.tasks
    → s.consumer ≡ waiting
    → (0 < s.counter) ⊎ Some pushed s ⊎ Some ringing s
no_lost_wakeup {s} r n w = elim (v.raised n (inl w)) [
  | inl f ↦ elim (v.rung f (λ q. cc) (λ q. cc)) [ inl c ↦ inl c | inr a ↦ inr (inr a) ]
  | inr a ↦ inr (inl a)
]
  where
    v : IsHeard s
    v = Reach-IsHeard r
