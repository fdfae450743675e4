-- ===== src/Sys/Signals.antt =====
-- src/os.cc: the handlers that `FailureHandler` installs, and what becomes of a signal.
use tit_co.Base.{ℕ, ◌==◌, ◌||◌, if◌then◌else◌, Bool, true, ◌≡◌, ◌≢◌, arith}

abbrev pub sigint : ℕ
sigint = 2

abbrev pub sigquit : ℕ
sigquit = 3

abbrev pub sigill : ℕ
sigill = 4

abbrev pub sigabrt : ℕ
sigabrt = 6

abbrev pub sigbus : ℕ
sigbus = 7

abbrev pub sigfpe : ℕ
sigfpe = 8

abbrev pub sigsegv : ℕ
sigsegv = 11

abbrev pub sigpipe : ℕ
sigpipe = 13

abbrev pub sigterm : ℕ
sigterm = 15

-- SIG_DFL, SIG_IGN, `on_signal_`, `on_failure_`, and the handlers of others.
pub data Handler : Type 0 where
  sig_dfl sig_ign on_signal on_failure : Handler
  other : ℕ → Handler

-- The handlers of the process, and `_old_handlers`, in which a missing one is a null pointer, that
-- is SIG_DFL.
pub record Process : Type 0 where
  pub handlers : ℕ → Handler
  pub old_handlers : ℕ → Handler

abbrev pub put : (ℕ → Handler) → ℕ → Handler → ℕ → Handler
put f sig h s = if sig == s then h else f s

-- `signal` for a signal that can be caught.
unfoldable pub signal : Process → ℕ → Handler → Process
signal p sig h = record p { handlers = put p.handlers sig h }

-- `_old_handlers[sig] = signal(sig, handler)`
unfoldable pub replace : Process → ℕ → Handler → Process
replace p sig h = record {
  handlers = put p.handlers sig h;
  old_handlers = put p.old_handlers sig (p.handlers sig);
}

-- The constructor.
unfoldable pub install : (ℕ → Handler) → Process
unfolding replace signal
install handlers =
    let p0 : Process = record { handlers = handlers; old_handlers = λ sig. sig_dfl } in
    let p1 = replace p0 sigint on_signal in
    let p2 = replace p1 sigterm on_signal in
    let p3 = replace p2 sigquit on_signal in
    let p4 = replace p3 sigabrt on_failure in
    let p5 = replace p4 sigsegv on_failure in
    let p6 = replace p5 sigfpe on_failure in
    let p7 = replace p6 sigbus on_failure in
    let p8 = replace p7 sigill on_failure in signal p8 sigpipe sig_ign

-- What `FailureHandler::on_failure` logs, and that of `on_signal`, which is nothing.
pub data Message : Type 0 where
  quiet aborted segmentation_fault floating_point_exception bus_error illegal_instruction
        unexpected :
      Message

unfoldable pub failure_message : ℕ → Message
failure_message sig =
    if sig == sigabrt
    then aborted
    else if sig == sigsegv
    then segmentation_fault
    else if sig == sigfpe
    then floating_point_exception
    else if sig == sigbus
    then bus_error
    else if sig == sigill
    then illegal_instruction
    else unexpected

-- A signal arrives: what is logged, the process, and the handler that it ends at. Both functions of
-- `FailureHandler` put the old handler back and raise the signal again.
unfoldable pub arrives : Process → ℕ → Message × Process × Handler
unfolding signal failure_message
arrives p sig =
    let back = signal p sig (p.old_handlers sig) in
    elim (p.handlers sig) [
      | on_signal ↦ (quiet, back, back.handlers sig)
      | on_failure ↦ (failure_message sig, back, back.handlers sig)
      | sig_dfl ↦ (quiet, p, sig_dfl)
      | sig_ign ↦ (quiet, p, sig_ign)
      | other h ↦ (quiet, p, other h)
    ]

abbrev pub handled : ℕ → Bool
handled sig =
    sig == sigint
    || sig == sigterm
    || sig == sigquit
    || sig == sigabrt
    || sig == sigsegv
    || sig == sigfpe
    || sig == sigbus
    || sig == sigill

-- After the constructor each of the eight signals goes on to the handler that it had before, which
-- is then in place again, and no other handler changes with it; SIGPIPE is ignored, and all other
-- signals are handled as before.
pub arrives_lem :
    (handlers : ℕ → Handler) (sig s : ℕ)
    → handled sig ≡ true
    → s ≢ sig
    → let p = install handlers in
      let (logged, after, ends_at) = arrives p sig in
      (ends_at ≡ handlers sig)
      × (after.handlers sig ≡ handlers sig)
      × (after.handlers s ≡ p.handlers s)
      × (p.handlers sigpipe ≡ sig_ign)
      × ((if handled s || s == sigpipe then handlers s else p.handlers s) ≡ handlers s)
unfolding arrives install
arrives_lem handlers sig s h ne = ground arith
