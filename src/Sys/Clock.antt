-- ===== src/Sys/Clock.antt =====
-- src/t_time.cc and include/t_time.h: the clocks in milliseconds and microseconds, the stop watch,
-- and the sleep that goes on after a signal.
use tit_co.Base.{
  map, ap, ◌∙◌, Bool, true, false, ◌++◌, ℕ, suc, ◌+◌, ◌-◌, ◌*◌, ◌/◌, ◌%◌, ◌<◌, ◌≤◌, ◌≡◌, ◌⊎◌, refl,
  List, [], ◌∷◌, arith,
}
use tit_co.Timer.Collect.{IsClock}

-- `struct timespec` of the monotonic clock, far below the range of `int64`.
pub record Timespec : Type 0 where
  pub tv_sec : ℕ
  pub tv_nsec : ℕ

-- `now::ms` and `now::us`
unfoldable pub now_ms : Timespec → ℕ
now_ms t = t.tv_sec * 1000 + t.tv_nsec / 1000000

unfoldable pub now_us : Timespec → ℕ
now_us t = t.tv_sec * 1000000 + t.tv_nsec / 1000

-- `struct timeval`, for `epoch::ms` and `epoch::us`.
pub record Timeval : Type 0 where
  pub tv_sec : ℕ
  pub tv_usec : ℕ

unfoldable pub epoch_ms : Timeval → ℕ
epoch_ms t = t.tv_sec * 1000 + t.tv_usec / 1000

unfoldable pub epoch_us : Timeval → ℕ
epoch_us t = t.tv_sec * 1000000 + t.tv_usec

-- `Timer`: the constructor and `restart`, then `us` and `ms`.
unfoldable pub restart : Timespec → ℕ
unfolding now_us
restart t = now_us t

unfoldable pub elapsed_us : ℕ → Timespec → ℕ
unfolding now_us
elapsed_us start t = now_us t - start

unfoldable pub elapsed_ms : ℕ → Timespec → ℕ
unfolding elapsed_us
elapsed_ms start t = elapsed_us start t / 1000

-- The order of the readings of a clock.
pub record IsBefore (a b : Timespec) : Type 0 where
  pub normal : (a.tv_nsec < 1000000000) × (b.tv_nsec < 1000000000)
  pub order : (a.tv_sec < b.tv_sec) ⊎ ((a.tv_sec ≡ b.tv_sec) × (a.tv_nsec ≤ b.tv_nsec))

-- Readings that do not go backwards give a clock in milliseconds that does not, which is the clock
-- of the timers; each reading in milliseconds is that in microseconds, divided.
pub now_ms-IsClock :
    (reading : ℕ → Timespec)
    → ((i j : ℕ) → i ≤ j → IsBefore (reading i) (reading j))
    → IsClock (λ i. now_ms (reading i))
unfolding now_ms
now_ms-IsClock reading forward i j h = ground (arith, forward i j h)

pub elapsed_lem :
    (a b : Timespec)
    → IsBefore a b
    → (now_ms b ≡ now_us b / 1000)
      × (elapsed_us (restart a) b + now_us a ≡ now_us b)
      × (elapsed_ms (restart a) b ≤ now_ms b - now_ms a)
      × (now_ms b - now_ms a ≤ suc (elapsed_ms (restart a) b))
unfolding now_ms elapsed_ms elapsed_us restart now_us
elapsed_lem a b h = ground arith

-- What a call of `nanosleep` comes to: the time is over, a signal after so many nanoseconds, or
-- another error.
pub data Nap : Type 0 where
  finished : Nap
  interrupted : ℕ → Nap
  refused : Nap

abbrev pub nanoseconds : Timespec → ℕ
nanoseconds t = t.tv_sec * 1000000000 + t.tv_nsec

-- What `nanosleep` writes back: the time that is left.
abbrev pub left : Timespec → ℕ → Timespec
left t d = record {
  tv_sec = (nanoseconds t - d) / 1000000000;
  tv_nsec = (nanoseconds t - d) % 1000000000;
}

-- `while (nanosleep(&ts, &ts) == -1 && errno == EINTR);`, by the answers: the nanoseconds slept,
-- and whether the loop has ended.
unfoldable pub sleep_loop : Timespec → List Nap → ℕ × Bool
sleep_loop t [] = (0, false)
sleep_loop t (finished ∷ naps) = (nanoseconds t, true)
sleep_loop t (refused ∷ naps) = (0, true)
sleep_loop t (interrupted d ∷ naps) =
    let (more, ended) = sleep_loop (left t d) naps in (d + more, ended)

unfoldable pub sleep_ms : ℕ → List Nap → ℕ × Bool
unfolding sleep_loop
sleep_ms n naps = sleep_loop (record { tv_sec = n / 1000; tv_nsec = n % 1000 * 1000000 }) naps

unfoldable pub sleep_sec : ℕ → List Nap → ℕ × Bool
unfolding sleep_loop
sleep_sec n naps = sleep_loop (record { tv_sec = n; tv_nsec = 0 }) naps

abbrev pub sum : List ℕ → ℕ
sum [] = 0
sum (d ∷ ds) = d + sum ds

sleep_loop_lem :
    (ds : List ℕ) (t : Timespec) (after : List Nap)
    → sum ds ≤ nanoseconds t
    → sleep_loop t (map interrupted ds ++ (finished ∷ after)) ≡ (nanoseconds t, true)
unfolding sleep_loop
sleep_loop_lem [] t after h = refl
sleep_loop_lem (d ∷ ds) t after h =
    let ih = sleep_loop_lem ds (left t d) after (omega arith) in
    let whole : d + nanoseconds (left t d) ≡ nanoseconds t = omega arith in
    rw (ih) (ap (λ (n : ℕ). (n, true)) whole)

-- However often signals break in, `sleep::ms` and `sleep::sec` sleep for the whole time, no more
-- and no less, if `nanosleep` goes on with what is left.
pub sleep_whole :
    (n : ℕ) (ds ds' : List ℕ) (after : List Nap)
    → sum ds ≤ n * 1000000
    → sum ds' ≤ n * 1000000000
    → (sleep_ms n (map interrupted ds ++ (finished ∷ after)) ≡ (n * 1000000, true))
      × (sleep_sec n (map interrupted ds' ++ (finished ∷ after)) ≡ (n * 1000000000, true))
unfolding sleep_ms sleep_sec
sleep_whole n ds ds' after h h' =
    let ts : Timespec = record { tv_sec = n / 1000; tv_nsec = n % 1000 * 1000000 } in
    let ts' : Timespec = record { tv_sec = n; tv_nsec = 0 } in
    let e : nanoseconds ts ≡ n * 1000000 = omega arith in
    let e' : nanoseconds ts' ≡ n * 1000000000 = omega arith in
    (
      sleep_loop_lem ds ts after (omega arith) ∙ ap (λ (k : ℕ). (k, true)) e,
      sleep_loop_lem ds' ts' after (omega arith) ∙ ap (λ (k : ℕ). (k, true)) e',
    )
