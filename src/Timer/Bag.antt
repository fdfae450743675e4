-- ===== src/Timer/Bag.antt =====
-- The timers of src/timer_manager.cc without their order, their iterators and their position: a bag
-- of deadlines with coroutines.
use mathlib.Core.Quot
use mathlib.Core.Quot.{Quot, Quot-set}
use tit_co.Base.{
  ℕ, suc, ◌+◌, ◌<◌, ◌≡◌, refl, sym, ap, subst, ◌∙◌, ◌&&◌, ltb, leb, ◌==◌, if◌then◌else◌, Option,
  none, some, List, [], ◌∷◌, inl, inr, Bool-cases, arith,
}
use tit_co.CoState.{Store, expire}
use tit_co.Timer.{
  Entry, TimerManager, insert_upper, insert_lower, insert_at, insert, add_timer, sweep, collect,
}
use tit_co.Timer.Insert.{Above, Above-mono}
use tit_co.Timer.Hints.{WhenSome, map-WhenSome, add_timer-Above}
use tit_co.Timer.Collect.{collect-Above}

-- How often a coroutine has a timer with this deadline.
abbrev pub tally : ℕ → ℕ → List Entry → ℕ
tally d co [] = 0
tally d co (x ∷ xs) = (if x.deadline == d && x.co == co then 1 else 0) + tally d co xs

abbrev pub SameTimers : List Entry → List Entry → Type 0
SameTimers xs ys = (d co : ℕ) → tally d co xs ≡ tally d co ys

abbrev pub Bag : Type 0
Bag = Quot SameTimers

abbrev timer : ℕ → ℕ → Entry
timer d co = record { handle = 0; deadline = d; co = co }

-- One timer more.
unfoldable pub put : ℕ → ℕ → Bag → Bag
put d co =
    Quot.lift Quot-set (λ xs. Quot.mk (timer d co ∷ xs))
      (λ xs ys same.
        Quot.sound (λ e c. ap (λ k. (if d == e && co == c then 1 else 0) + k) (same e c)))

-- The timers that are not due at `n`.
abbrev pub keep : ℕ → List Entry → List Entry
keep n [] = []
keep n (x ∷ xs) = let rest = keep n xs in if ltb n x.deadline then x ∷ rest else rest

tally-keep :
    (n d co : ℕ) (xs : List Entry) → tally d co (keep n xs) ≡ (if ltb n d then tally d co xs else 0)
tally-keep n d co [] = ground arith
tally-keep n d co (x ∷ xs) = ground (arith, tally-keep n d co xs)

pub keep-SameTimers :
    (n : ℕ) (xs ys : List Entry) → SameTimers xs ys → SameTimers (keep n xs) (keep n ys)
keep-SameTimers n xs ys same d co =
    tally-keep n d co xs
    ∙ ap (λ k. if ltb n d then k else 0) (same d co)
    ∙ sym (tally-keep n d co ys)

unfoldable pub later : ℕ → Bag → Bag
later n =
    Quot.lift Quot-set (λ xs. Quot.mk (keep n xs))
      (λ xs ys same. Quot.sound (keep-SameTimers n xs ys same))

abbrev pub bag : TimerManager → Bag
bag t = Quot.mk t.timer

-- What an insertion at any hint adds.
module _ (e : Entry) (d co : ℕ) where
  abbrev one : ℕ
  one = if e.deadline == d && e.co == co then 1 else 0

  tally-insert_upper : (xs : List Entry) → tally d co (insert_upper e xs) ≡ one + tally d co xs
  unfolding insert_upper
  tally-insert_upper [] = refl
  tally-insert_upper (x ∷ xs) = ground (arith, tally-insert_upper xs)

  tally-insert_lower : (xs : List Entry) → tally d co (insert_lower e xs) ≡ one + tally d co xs
  unfolding insert_lower
  tally-insert_lower [] = refl
  tally-insert_lower (x ∷ xs) = ground (arith, tally-insert_lower xs)

  abbrev Adds : List Entry → List Entry → Type 0
  Adds xs ys = tally d co ys ≡ one + tally d co xs

  insert_at-Adds : (h : ℕ) (xs : List Entry) → WhenSome (Adds xs) (insert_at h e xs)
  unfolding insert_at
  insert_at-Adds h [] = tt
  insert_at-Adds h (x ∷ xs) = elim (Bool-cases (x.handle == h)) [
    | inl hit ↦ rw hit (elim (Bool-cases (leb e.deadline x.deadline)) [
      | inl p ↦ rw p refl
      | inr p ↦ rw p (omega (arith, tally-insert_lower xs))
    ])
    | inr miss ↦ rw miss (elim (Bool-cases (leb x.deadline e.deadline)) [
      | inl p ↦ rw p (
          map-WhenSome (Adds xs) (Adds (x ∷ xs)) (λ ys. x ∷ ys) (λ ys b. omega (arith, b))
            (insert_at h e xs) (insert_at-Adds h xs))
      | inr p ↦ rw p (ground arith)
    ])
  ]

  insert-Adds : (it : Option ℕ) (xs : List Entry) → WhenSome (Adds xs) (insert it e xs)
  unfolding insert
  insert-Adds none xs = tally-insert_upper xs
  insert-Adds (some h) xs = insert_at-Adds h xs

bag-add_timer :
    (t t' : TimerManager) (now ms co h : ℕ)
    → add_timer t now ms co ≡ some (t', h)
    → bag t' ≡ put (now + ms) co (bag t)
unfolding add_timer put
bag-add_timer t t' now ms co h e = Quot.sound (λ d c.
    let added : Entry = record { handle = t.fresh; deadline = now + ms; co = co } in
    let P = λ (p : TimerManager × ℕ). Adds added d c t.timer p.0.timer in
    subst (WhenSome P) e (
      map-WhenSome (Adds added d c t.timer) P
        (λ xs. (record { timer = xs; it = some t.fresh; fresh = suc t.fresh }, t.fresh)) (λ xs b. b)
        (insert t.it added t.timer) (insert-Adds added d c t.it t.timer)))

-- From the first timer on that is not due, none is.
keep_all : (n d : ℕ) (xs : List Entry) → n < d → Above d xs → keep n xs ≡ xs
keep_all n d [] h a = refl
keep_all n d (x ∷ xs) h (le, a) = ground (arith, keep_all n x.deadline xs)

sweep-keep :
    (n i d : ℕ) (s : Store) (xs : List Entry)
    → Above d xs
    → (sweep (λ _. n) i s xs).rest ≡ keep n xs
unfolding sweep
sweep-keep n i d s [] a = refl
sweep-keep n i d s (x ∷ xs) (le, a) = elim (Bool-cases (ltb n x.deadline)) [
  | inl q ↦ rw q (ap (λ ys. x ∷ ys) (sym (keep_all n x.deadline xs (ground (arith, q)) a)))
  | inr q ↦ rw q (sweep-keep n (suc i) x.deadline (expire s x.co).0 xs a)
]

bag-collect :
    (t : TimerManager) (n : ℕ) (s : Store)
    → Above 0 t.timer
    → bag (collect t (λ _. n) s).timers ≡ later n (bag t)
unfolding collect later
bag-collect t n s a = ap Quot.mk (sweep-keep n 0 0 s t.timer a)

-- What the scheduler does to its timers: an addition at a time of the clock, and a collection at
-- one moment.
pub data Op : Type 0 where
  adds : ℕ → ℕ → ℕ → Op
  collects : ℕ → Store → Op

abbrev forget_handle : Option (TimerManager × ℕ) → Option TimerManager
forget_handle none = none
forget_handle (some (t, h)) = some t

-- `none` where an addition goes by a position that dangles.
unfoldable pub step : TimerManager → Op → Option TimerManager
unfolding add_timer collect
step t (adds now ms co) = forget_handle (add_timer t now ms co)
step t (collects n s) = some (collect t (λ _. n) s).timers

unfoldable pub run : TimerManager → List Op → Option TimerManager
unfolding step
run t [] = some t
run t (op ∷ ops) = elim (step t op) [ none ↦ none | some next ↦ run next ops ]

-- The same on bags.
abbrev pub bag_step : Bag → Op → Bag
bag_step b (adds now ms co) = put (now + ms) co b
bag_step b (collects n s) = later n b

abbrev pub bag_run : Bag → List Op → Bag
bag_run b [] = b
bag_run b (op ∷ ops) = bag_run (bag_step b op) ops

abbrev Stepped : TimerManager → Op → TimerManager → Type 0
Stepped t op next = Above 0 next.timer × (bag next ≡ bag_step (bag t) op)

added-Stepped :
    (t : TimerManager) (now ms co : ℕ) (o : Option (TimerManager × ℕ))
    → add_timer t now ms co ≡ o
    → Above 0 t.timer
    → WhenSome (Stepped t (adds now ms co)) (forget_handle o)
added-Stepped t now ms co none e a = tt
added-Stepped t now ms co (some (next, h)) e a =
    (add_timer-Above 0 t next now ms co h (omega arith) a e, bag-add_timer t next now ms co h e)

step-Stepped : (t : TimerManager) (op : Op) → Above 0 t.timer → WhenSome (Stepped t op) (step t op)
unfolding step
step-Stepped t (adds now ms co) a = added-Stepped t now ms co (add_timer t now ms co) refl a
step-Stepped t (collects n s) a = (
  Above-mono 0 (suc n) (collect t (λ _. n) s).timers.timer (omega arith) (collect-Above t n s a),
  bag-collect t n s a,
)

-- However timers are added, at whatever hints, and collected, each collection at one moment: as long
-- as no addition goes by a position that dangles, the timers are, in whatever order and with whatever
-- handles, those of a bag in which an addition at `now` puts the coroutine at `now + ms` and a
-- collection at `n` leaves the timers due after `n`.
pub run_refines :
    (t t' : TimerManager) (ops : List Op)
    → Above 0 t.timer
    → run t ops ≡ some t'
    → bag t' ≡ bag_run (bag t) ops
unfolding run
run_refines t t' [] a e =
    ap (λ (o : Option TimerManager). elim o [ none ↦ bag t | some x ↦ bag x ]) (sym e)
run_refines t t' (op ∷ ops) a e =
    by_step (step t op) (λ next order r. run_refines next t' ops order r) (step-Stepped t op a) e
  where
    by_step :
        (o : Option TimerManager)
        → ((next : TimerManager)
            → Above 0 next.timer
            → run next ops ≡ some t'
            → bag t' ≡ bag_run (bag next) ops)
        → WhenSome (Stepped t op) o
        → elim o as (λ _. Option TimerManager) [ none ↦ none | some next ↦ run next ops ] ≡ some t'
        → bag t' ≡ bag_run (bag t) (op ∷ ops)
    by_step none rest w e = absurd (cc)
    by_step (some next) rest (order, same) e = rest next order e ∙ ap (λ b. bag_run b ops) same
