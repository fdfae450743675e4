-- ===== src/Sys/ThreadLocal.antt =====
-- include/base/thread_local_singleton.h: one object for each thread, such as the scheduler that
-- `TLSScheduler` holds. A key of pthreads keeps the object a second time, for its destructor.
use tit_co.Base.{
  ℕ, suc, ◌<◌, ◌≡◌, ◌≢◌, refl, sym, ap, ◌∙◌, Bool, true, false, ◌||◌, not, ◌==◌, if◌then◌else◌,
  Option, none, some, List, [], ◌∷◌, arith,
}

-- `t_value_` and the value of `pkey_` by thread; objects are numbered; `failed` is set where an
-- assertion fails.
pub record Local : Type 0 where
  pub t_value : ℕ → Option ℕ
  pub pkey : ℕ → Option ℕ
  pub built : ℕ
  pub failed : Bool

abbrev pub start : Local
start = record { t_value = λ t. none; pkey = λ t. none; built = 0; failed = false }

abbrev update : (ℕ → Option ℕ) → ℕ → Option ℕ → ℕ → Option ℕ
update f t v u = if t == u then v else f u

abbrev is_null : Option ℕ → Bool
is_null none = true
is_null (some i) = false

abbrev is_it : ℕ → Option ℕ → Bool
is_it i none = false
is_it i (some j) = i == j

-- `Deleter::set` on a thread.
unfoldable pub set : ℕ → ℕ → Local → Local
set t obj s = record s {
  pkey = update s.pkey t (some obj);
  failed = s.failed || not (is_null (s.pkey t));
}

abbrev new_object : ℕ → Local → ℕ × Local
unfolding set
new_object t s = (
  s.built,
  set t s.built (record s { t_value = update s.t_value t (some s.built); built = suc s.built }),
)

-- `instance`: the object that it returns.
unfoldable pub instance_of : ℕ → Local → ℕ × Local
unfolding new_object
instance_of t s = elim (s.t_value t) [ none ↦ new_object t s | some i ↦ (i, s) ]

-- The end of a thread: the key is reset and, if it had a value, `destructor` runs on that.
unfoldable pub destructor : ℕ → ℕ → Local → Local
destructor t obj s = record s {
  t_value = update s.t_value t none;
  failed = s.failed || not (is_it obj (s.t_value t));
}

unfoldable pub thread_ends : ℕ → Local → Local
unfolding destructor
thread_ends t s = elim (s.pkey t) [
  | none ↦ s
  | some obj ↦ destructor t obj (record s { pkey = update s.pkey t none })
]

pub data Op : Type 0 where
  asks ends : ℕ → Op

unfoldable pub step : Local → Op → Local
unfolding instance_of thread_ends
step s (asks t) = (instance_of t s).1
step s (ends t) = thread_ends t s

unfoldable pub run : Local → List Op → Local
unfolding step
run s [] = s
run s (op ∷ ops) = run (step s op) ops

-- The key agrees with the value, objects are in use once, and no assertion has failed.
pub record IsLocal (s : Local) : Type 0 where
  pub same : (t : ℕ) → s.pkey t ≡ s.t_value t
  pub old : (t i : ℕ) → s.t_value t ≡ some i → i < s.built
  pub apart : (t u i : ℕ) → s.t_value t ≡ some i → s.t_value u ≡ some i → t ≡ u
  pub fine : s.failed ≡ false

step-IsLocal : (s : Local) (op : Op) → IsLocal s → IsLocal (step s op)
unfolding step instance_of thread_ends set destructor
step-IsLocal s (asks t) v = record {
  same = λ u. ground (arith, v.same u);
  old = λ u i e. ground (arith, v.old u i);
  apart = λ u w i e f. ground (arith, v.apart u w i, v.old u i, v.old w i);
  fine = ground (arith, v.fine, v.same t);
}
step-IsLocal s (ends t) v = record {
  same = λ u. ground (arith, v.same u, v.same t);
  old = λ u i e. ground (arith, v.old u i);
  apart = λ u w i e f. ground (arith, v.apart u w i);
  fine = ground (arith, v.fine, v.same t);
}

run-IsLocal : (s : Local) (ops : List Op) → IsLocal s → IsLocal (run s ops)
unfolding run
run-IsLocal s [] v = v
run-IsLocal s (op ∷ ops) v = run-IsLocal (step s op) ops (step-IsLocal s op v)

start-IsLocal : IsLocal start
start-IsLocal = record {
  same = λ t. refl;
  old = λ t i e. absurd (cc);
  apart = λ t u i e f. absurd (cc);
  fine = refl;
}

asks-IsLocal : (s : Local) (t : ℕ) → IsLocal s → IsLocal (instance_of t s).1
unfolding step
asks-IsLocal s t v = step-IsLocal s (asks t) v

asked : (s : Local) (t : ℕ) → (instance_of t s).1.t_value t ≡ some (instance_of t s).0
unfolding instance_of set
asked s t = ground arith

asked_other : (s : Local) (t u : ℕ) → t ≢ u → (instance_of t s).1.t_value u ≡ s.t_value u
unfolding instance_of set
asked_other s t u ne = ground (arith, ne)

known : (s : Local) (t i : ℕ) → s.t_value t ≡ some i → instance_of t s ≡ (i, s)
unfolding instance_of
known s t i e = ground (arith, e)

-- Whatever threads have asked for their objects and ended before: two threads that ask get two
-- objects, the first gets its own again when it asks again, which changes nothing, and no assertion
-- of the class has failed.
pub own_object :
    (ops : List Op) (t u : ℕ)
    → t ≢ u
    → let (i, first) = instance_of t (run start ops) in
      let (j, second) = instance_of u first in
      (i ≢ j) × (instance_of t second ≡ (i, second)) × (second.failed ≡ false)
own_object ops t u ne =
    let s = run start ops in
    let (i, first) = instance_of t s in
    let (j, second) = instance_of u first in
    let held : second.t_value t ≡ some i = asked_other first u t (λ e. ne (sym e)) ∙ asked s t in
    let v = asks-IsLocal first u (asks-IsLocal s t (run-IsLocal start ops start-IsLocal)) in
    (λ e. ne (v.apart t u i held (asked first u ∙ ap some (sym e))), known second t i held, v.fine)
