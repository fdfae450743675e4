-- ===== src/Timer.antt =====
-- include/timer_manager.h and src/timer_manager.cc: the timers of one scheduler, a multimap from
-- deadlines to coroutines with a remembered position, and the collection of those that are due.
pub mod Insert
pub mod Hints
pub mod Bag
pub mod Collect
mod Tests
use tit_co.Base.{
  ℕ, suc, ◌+◌, ◌-◌, ◌%◌, Bool, true, false, ◌||◌, ltb, leb, ◌==◌, if◌then◌else◌, Option, none, some,
  List, [], ◌∷◌, ◌++◌,
}
use tit_co.Base.Word.{u32, minus_one}
use tit_co.CoState.{Store, expire}
use mathlib.Core.Option

-- A node of the multimap; the handle stands for its address, which an iterator holds.
pub record Entry : Type 0 where
  pub handle : ℕ
  pub deadline : ℕ
  pub co : ℕ

-- `it_` is the handle of a node, or `none` for `timer_.end()`. Times are milliseconds since the
-- machine started, far below the range of `int64`.
pub record TimerManager : Type 0 where
  pub timer : List Entry
  pub it : Option ℕ
  pub fresh : ℕ

abbrev pub create : TimerManager
create = record { timer = []; it = none; fresh = 0 }

abbrev pub has : ℕ → List Entry → Bool
has h [] = false
has h (x ∷ xs) = x.handle == h || has h xs

-- `std::multimap::insert(hint, e)` puts `e` as close as the order allows to the place just before
-- the hint. Behind every key that is not larger:
unfoldable pub insert_upper : Entry → List Entry → List Entry
insert_upper e [] = e ∷ []
insert_upper e (x ∷ xs) = if leb x.deadline e.deadline then x ∷ insert_upper e xs else e ∷ x ∷ xs

-- Before every key that is not smaller:
unfoldable pub insert_lower : Entry → List Entry → List Entry
insert_lower e [] = e ∷ []
insert_lower e (x ∷ xs) = if ltb x.deadline e.deadline then x ∷ insert_lower e xs else e ∷ x ∷ xs

-- At a hint that is a node; `none` where no node has its handle (a dangling iterator).
unfoldable pub insert_at : ℕ → Entry → List Entry → Option (List Entry)
unfolding insert_lower
insert_at h e [] = none
insert_at h e (x ∷ xs) =
    if x.handle == h
    then some (if leb e.deadline x.deadline then e ∷ x ∷ xs else x ∷ insert_lower e xs)
    else (if leb x.deadline e.deadline
        then Option.map (λ ys. x ∷ ys) (insert_at h e xs)
        else (if has h xs then some (e ∷ x ∷ xs) else none))

unfoldable pub insert : Option ℕ → Entry → List Entry → Option (List Entry)
unfolding insert_upper insert_at
insert none e xs = some (insert_upper e xs)
insert (some h) e xs = insert_at h e xs

-- `AddTimer`, at the time `now`: the new state and the iterator that it returns.
unfoldable pub add_timer : TimerManager → ℕ → ℕ → ℕ → Option (TimerManager × ℕ)
unfolding insert
add_timer t now ms co =
    let e : Entry = record { handle = t.fresh; deadline = now + ms; co = co } in
    Option.map (λ xs. (record { timer = xs; it = some t.fresh; fresh = suc t.fresh }, t.fresh))
      (insert t.it e t.timer)

abbrev first_handle : List Entry → Option ℕ
first_handle [] = none
first_handle (x ∷ xs) = some x.handle

-- The node behind the node `h`, and the map without `h`.
abbrev after : ℕ → List Entry → Option ℕ
after h [] = none
after h (x ∷ xs) = if x.handle == h then first_handle xs else after h xs

abbrev erase : ℕ → List Entry → List Entry
erase h [] = []
erase h (x ∷ xs) = if x.handle == h then xs else x ∷ erase h xs

abbrev is_at : Option ℕ → ℕ → Bool
is_at none h = false
is_at (some i) h = i == h

-- `DelTimer`; nothing in the program calls it.
unfoldable pub del_timer : TimerManager → ℕ → Option TimerManager
del_timer t h =
    if has h t.timer
    then some
        (record t { it = if is_at t.it h then after h t.timer else t.it; timer = erase h t.timer })
    else none

-- What the loop of `CollectTimeoutTasks` has done when it stops.
pub record Swept : Type 0 where
  pub expired : List Entry
  pub rest : List Entry
  pub tasks : List ℕ
  pub store : Store
  pub reads : ℕ

-- `now i` is the answer of the i-th call of `now::ms()`: the loop reads the clock at every round.
unfoldable pub sweep : (ℕ → ℕ) → ℕ → Store → List Entry → Swept
sweep now i s [] = record { expired = []; rest = []; tasks = []; store = s; reads = i }
sweep now i s (x ∷ xs) =
    let next = sweep now (suc i) (expire s x.co).0 xs in
    if ltb (now i) x.deadline
    then record { expired = []; rest = x ∷ xs; tasks = []; store = s; reads = suc i }
    else record next { expired = x ∷ next.expired; tasks = (expire s x.co).1 ++ next.tasks }

-- `static_cast<int>(deadline - now)` as the `uint32` that the function returns.
unfoldable pub wait_ms : ℕ → ℕ → ℕ
wait_ms deadline now =
    if leb now deadline then (deadline - now) % u32 else (u32 - (now - deadline) % u32) % u32

-- The position that is kept where something expired and the first timer left is due by now: the
-- second test of the code is on `it`, the loop's iterator.
abbrev kept_it : (ℕ → ℕ) → Swept → Option ℕ → Option ℕ × ℕ
kept_it now w it = elim w.expired [
  | [] ↦ (it, w.reads)
  | _ ∷ _ ↦ elim w.rest [
    | [] ↦ (it, w.reads)
    | x ∷ _ ↦ ((if leb x.deadline (now w.reads) then some x.handle else it), suc w.reads)
  ]
]

-- `CollectTimeoutTasks`: the new state, the tasks pushed, the coroutines' states, the result.
pub record Collected : Type 0 where
  pub timers : TimerManager
  pub tasks : List ℕ
  pub store : Store
  pub result : ℕ

unfoldable pub collect : TimerManager → (ℕ → ℕ) → Store → Collected
unfolding sweep wait_ms
collect t now s =
    let w = sweep now 0 s t.timer in
    let (it, reads) = kept_it now w t.it in
    record {
      timers = record t { timer = w.rest; it = it };
      tasks = w.tasks;
      store = w.store;
      result = elim w.rest [ [] ↦ minus_one | x ∷ _ ↦ wait_ms x.deadline (now reads) ];
    }
