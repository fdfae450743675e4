-- ===== src/Io/Epoll/Setup.antt =====
-- The constructor and the destructor of `Epoll` in src/epoll.cc, and the test of the loop for the
-- descriptor that wakes it.
use tit_co.Base.{
  ℕ, ◌≡◌, refl, Bool, true, false, ◌==◌, if◌then◌else◌, Option, none, some, List, [], ◌∷◌, arith,
}
use tit_co.Io.SockCtx.{SockCtx, fresh, has_ev_read}
use tit_co.Io.Epoll.{Kernel, Epoll, in_only, add, add_read, adds_read, run}
use tit_co.Io.Epoll.Sync.{IsSynced, run-IsSynced}

module _ (k : Kernel) where
  -- `Epoll` with the members that are set once; `ev` is whether there is an array of events.
  pub record Instance : Type 0 where
    pub epoll : Epoll k
    pub ep : Option ℕ
    pub wake_up_fd : ℕ
    pub ev : Bool

  -- What the constructor comes to: `createEventfd` aborts, a failure of `epoll_create1` or `calloc`
  -- is logged as FATAL and leaves `ev_` without a value, or an instance.
  pub data Setup : Type 0 where
    aborted : Setup
    fatal : Option ℕ → ℕ → Setup
    built : Instance → Setup

  abbrev create_eventfd : Option ℕ → (ℕ → Setup) → Setup
  create_eventfd none then_ = aborted
  create_eventfd (some fd) then_ = then_ fd

  -- `AddEvRead(wake_up_fd_, 0)`, whose result is not looked at.
  unfoldable pub listen : ℕ → k.State → (ℕ → SockCtx) → ℕ → ℕ → Instance
  unfolding add_read
  listen sched_id new ctxs ep wake_up_fd = record {
    epoll =
        (add_read k (record { sched_id = sched_id; kernel = new; ctxs = ctxs }) (some wake_up_fd)
          0).0;
    ep = some ep;
    wake_up_fd = wake_up_fd;
    ev = true;
  }

  abbrev allocate : Bool → ℕ → ℕ → Instance → Setup
  allocate false ep wake_up_fd i = fatal (some ep) wake_up_fd
  allocate true ep wake_up_fd i = built i

  abbrev create_epoll : ℕ → k.State → (ℕ → SockCtx) → Bool → ℕ → Option ℕ → Setup
  unfolding listen
  create_epoll sched_id new ctxs memory wake_up_fd none = fatal none wake_up_fd
  create_epoll sched_id new ctxs memory wake_up_fd (some ep) =
      allocate memory ep wake_up_fd (listen sched_id new ctxs ep wake_up_fd)

  -- The constructor, by what `eventfd`, `epoll_create1` and `calloc` answer; `new` is an instance of
  -- the kernel's as `epoll_create1` makes it, `ctxs` are the contexts as the program has left them.
  unfoldable pub setup : ℕ → k.State → (ℕ → SockCtx) → Option ℕ → Option ℕ → Bool → Setup
  unfolding create_epoll
  setup sched_id new ctxs eventfd ep memory =
      create_eventfd eventfd (λ fd. create_epoll sched_id new ctxs memory fd ep)

  -- `is_wakeup_fd`, by `ev.data.fd`.
  abbrev pub is_wakeup_fd : Instance → ℕ → Bool
  is_wakeup_fd i fd = fd == i.wake_up_fd

  -- The destructor, with the descriptors that `Close` gives back; the contexts stay as they are.
  abbrev pub close : Instance → Instance × List (Option ℕ)
  close i = (record i { ev = false }, some i.wake_up_fd ∷ i.ep ∷ [])

  module _ (new : k.State) (nobody : (fd : ℕ) → k.interest new fd ≡ none) where
    empty-IsSynced :
        (sched_id : ℕ)
        → IsSynced k (record { sched_id = sched_id; kernel = new; ctxs = λ _. fresh })
    empty-IsSynced sched_id = record {
      own = λ fd. record { reader = λ h. absurd (h refl); writer = λ h. absurd (h refl) };
      watched = nobody;
    }

    listened :
        (sched_id ep fd : ℕ)
        → k.interest (listen sched_id new (λ _. fresh) ep fd).epoll.kernel fd
          ≡ (if (k.epoll_ctl new add fd in_only).1 then some in_only else none)
    unfolding listen
    listened sched_id ep fd =
        ground (arith, k.added new fd in_only, k.failed new add fd in_only, nobody fd)

    -- The constructor on descriptors without a context, where the three calls of the system succeed:
    -- the instance watches each descriptor for what its context says, and the one that wakes it for
    -- reading, unless the kernel refuses just that: then nothing will wake the loop, and the
    -- constructor does not notice.
    pub setup_lem :
        (sched_id ep fd : ℕ)
        → (i : Instance) × (setup sched_id new (λ _. fresh) (some fd) (some ep) true ≡ built i)
          × (k.interest i.epoll.kernel fd
              ≡ (if (k.epoll_ctl new add fd in_only).1 then some in_only else none))
          × IsSynced k i.epoll
          × (i.ep ≡ some ep)
    unfolding setup listen run
    setup_lem sched_id ep fd = (
      listen sched_id new (λ _. fresh) ep fd,
      refl,
      listened sched_id ep fd,
      run-IsSynced k _ (adds_read (some fd) 0 ∷ []) ((λ h. omega (arith, h)), tt) (refl, tt)
          (empty-IsSynced sched_id),
      refl,
    )

    -- A descriptor whose context still has a reader, as `Close` leaves the one that woke an instance:
    -- if a new instance gets it for the same purpose, it does not watch it.
    setup_stale :
        (ctxs : ℕ → SockCtx) (sched_id ep fd : ℕ)
        → has_ev_read (ctxs fd) ≡ true
        → (i : Instance) × (setup sched_id new ctxs (some fd) (some ep) true ≡ built i)
          × (k.interest i.epoll.kernel fd ≡ none)
    unfolding setup listen
    setup_stale ctxs sched_id ep fd stale =
        (listen sched_id new ctxs ep fd, refl, ground (arith, stale, nobody fd))
