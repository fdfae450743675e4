-- ===== src/Io/Epoll/Sync.antt =====
-- The kernel's interest list of one epoll instance against the contexts of the descriptors.
use tit_co.Base.{
  Bool, true, false, ◌&&◌, not, ℕ, ◌≡◌, ◌≢◌, refl, if◌then◌else◌, Option, none, some, List, [], ◌∷◌,
  All, arith,
}
use tit_co.Base.Word.{minus_one}
use tit_co.Io.SockCtx.{SockCtx, has_ev_read, has_ev_write, has_event}
use tit_co.Io.Epoll.{
  Kernel, Mask, Epoll, add, mod_, del, in_only, out_only, in_out, Call, adds_read, adds_write,
  dels_read, dels_write, dels_all, step, run, no_mask,
}

-- What the kernel should watch for a descriptor with this context.
abbrev pub expected : SockCtx → Option Mask
expected c =
    if has_ev_read c
    then (if has_ev_write c then some in_out else some in_only)
    else (if has_ev_write c then some out_only else none)

-- The events of a context belong to the scheduler of the instance.
pub record IsOwn (sched_id : ℕ) (c : SockCtx) : Type 0 where
  pub reader : c.read_ev.co_id ≢ minus_one → sched_id ≡ c.read_ev.sched_id
  pub writer : c.write_ev.co_id ≢ minus_one → sched_id ≡ c.write_ev.sched_id

module _ (k : Kernel) where
  -- Every descriptor is watched for exactly the events that some coroutine waits for.
  pub record IsSynced (e : Epoll k) : Type 0 where
    pub own : (fd : ℕ) → IsOwn e.sched_id (e.ctxs fd)
    pub watched : (fd : ℕ) → k.interest e.kernel fd ≡ expected (e.ctxs fd)

  -- A context that every operation leaves alone, or that it changes at `fd` to one of its own.
  step-IsOwn :
      (e : Epoll k) (c : Call k) (j : ℕ)
      → IsOwn e.sched_id (e.ctxs j)
      → IsOwn e.sched_id ((step k e c).ctxs j)
  unfolding step
  step-IsOwn e (adds_read none co_id) j v = v
  step-IsOwn e (adds_read (some fd) co_id) j v = ground arith
  step-IsOwn e (adds_write none co_id) j v = v
  step-IsOwn e (adds_write (some fd) co_id) j v = ground arith
  step-IsOwn e (dels_read none) j v = v
  step-IsOwn e (dels_read (some fd)) j v = ground arith
  step-IsOwn e (dels_write none) j v = v
  step-IsOwn e (dels_write (some fd)) j v = ground arith
  step-IsOwn e (dels_all none) j v = v
  step-IsOwn e (dels_all (some fd)) j v = ground arith

  step-sched_id : (e : Epoll k) (c : Call k) → (step k e c).sched_id ≡ e.sched_id
  unfolding step
  step-sched_id e (adds_read none co_id) = refl
  step-sched_id e (adds_read (some fd) co_id) = ground arith
  step-sched_id e (adds_write none co_id) = refl
  step-sched_id e (adds_write (some fd) co_id) = ground arith
  step-sched_id e (dels_read none) = refl
  step-sched_id e (dels_read (some fd)) = ground arith
  step-sched_id e (dels_write none) = refl
  step-sched_id e (dels_write (some fd)) = ground arith
  step-sched_id e (dels_all none) = refl
  step-sched_id e (dels_all (some fd)) = ground arith

  -- A coroutine's id is never the word that stands for none.
  abbrev pub IsNamed : Call k → Type 0
  IsNamed (adds_read fd co_id) = co_id ≢ minus_one
  IsNamed (adds_write fd co_id) = co_id ≢ minus_one
  IsNamed _ = Unit

  -- Whether the kernel refuses the change or the removal of a registration that the call asks for.
  abbrev pub refused : Epoll k → Call k → Bool
  refused e (dels_read (some fd)) =
      has_ev_read (e.ctxs fd)
      && not (
          if has_ev_write (e.ctxs fd)
          then (k.epoll_ctl e.kernel mod_ fd out_only).1
          else (k.epoll_ctl e.kernel del fd no_mask).1)
  refused e (dels_write (some fd)) =
      has_ev_write (e.ctxs fd)
      && not (
          if has_ev_read (e.ctxs fd)
          then (k.epoll_ctl e.kernel mod_ fd in_only).1
          else (k.epoll_ctl e.kernel del fd no_mask).1)
  refused e (dels_all (some fd)) =
      has_event (e.ctxs fd) && not (k.epoll_ctl e.kernel del fd no_mask).1
  refused e _ = false

  -- No call of a run has a removal refused.
  abbrev pub Granted : Epoll k → List (Call k) → Type 0
  Granted e [] = Unit
  Granted e (c ∷ cs) = (refused e c ≡ false) × Granted (step k e c) cs

  -- Before the call the kernel watches `fd`, and `j`, for what their contexts say.
  add_watched :
      (e : Epoll k) (fd co_id j : ℕ)
      → co_id ≢ minus_one
      → IsOwn e.sched_id (e.ctxs fd)
      → k.interest e.kernel j ≡ expected (e.ctxs j)
      → (k.interest (step k e (adds_read (some fd) co_id)).kernel j
          ≡ expected ((step k e (adds_read (some fd) co_id)).ctxs j))
        × (k.interest (step k e (adds_write (some fd) co_id)).kernel j
            ≡ expected ((step k e (adds_write (some fd) co_id)).ctxs j))
  unfolding step
  add_watched e fd co_id j h v w = (
    ground (
      arith,
      k.added e.kernel fd in_only,
      k.modified e.kernel fd in_out,
      k.failed e.kernel add fd in_only,
      k.failed e.kernel mod_ fd in_out,
      k.others e.kernel add fd j in_only,
      k.others e.kernel mod_ fd j in_out,
    ),
    ground (
      arith,
      k.added e.kernel fd out_only,
      k.modified e.kernel fd in_out,
      k.failed e.kernel add fd out_only,
      k.failed e.kernel mod_ fd in_out,
      k.others e.kernel add fd j out_only,
      k.others e.kernel mod_ fd j in_out,
    ),
  )

  del_read_watched :
      (e : Epoll k) (fd j : ℕ)
      → refused e (dels_read (some fd)) ≡ false
      → k.interest e.kernel fd ≡ expected (e.ctxs fd)
      → k.interest e.kernel j ≡ expected (e.ctxs j)
      → k.interest (step k e (dels_read (some fd))).kernel j
        ≡ expected ((step k e (dels_read (some fd))).ctxs j)
  unfolding step
  del_read_watched e fd j g u w = ground (
    arith,
    g,
    k.deleted e.kernel fd no_mask,
    k.modified e.kernel fd out_only,
    k.others e.kernel del fd j no_mask,
    k.others e.kernel mod_ fd j out_only,
  )

  del_write_watched :
      (e : Epoll k) (fd j : ℕ)
      → refused e (dels_write (some fd)) ≡ false
      → k.interest e.kernel fd ≡ expected (e.ctxs fd)
      → k.interest e.kernel j ≡ expected (e.ctxs j)
      → k.interest (step k e (dels_write (some fd))).kernel j
        ≡ expected ((step k e (dels_write (some fd))).ctxs j)
  unfolding step
  del_write_watched e fd j g u w = ground (
    arith,
    g,
    k.deleted e.kernel fd no_mask,
    k.modified e.kernel fd in_only,
    k.others e.kernel del fd j no_mask,
    k.others e.kernel mod_ fd j in_only,
  )

  del_all_watched :
      (e : Epoll k) (fd j : ℕ)
      → refused e (dels_all (some fd)) ≡ false
      → k.interest e.kernel fd ≡ expected (e.ctxs fd)
      → k.interest e.kernel j ≡ expected (e.ctxs j)
      → k.interest (step k e (dels_all (some fd))).kernel j
        ≡ expected ((step k e (dels_all (some fd))).ctxs j)
  unfolding step
  del_all_watched e fd j g u w =
      ground (arith, g, k.deleted e.kernel fd no_mask, k.others e.kernel del fd j no_mask)

  step_watched :
      (e : Epoll k) (c : Call k)
      → IsNamed c
      → refused e c ≡ false
      → IsSynced e
      → (j : ℕ) → k.interest (step k e c).kernel j ≡ expected ((step k e c).ctxs j)
  step_watched e (adds_read none co_id) n g v j = unfold step in v.watched j
  step_watched e (adds_read (some fd) co_id) n g v j =
      (add_watched e fd co_id j n (v.own fd) (v.watched j)).0
  step_watched e (adds_write none co_id) n g v j = unfold step in v.watched j
  step_watched e (adds_write (some fd) co_id) n g v j =
      (add_watched e fd co_id j n (v.own fd) (v.watched j)).1
  step_watched e (dels_read none) n g v j = unfold step in v.watched j
  step_watched e (dels_read (some fd)) n g v j =
      del_read_watched e fd j g (v.watched fd) (v.watched j)
  step_watched e (dels_write none) n g v j = unfold step in v.watched j
  step_watched e (dels_write (some fd)) n g v j =
      del_write_watched e fd j g (v.watched fd) (v.watched j)
  step_watched e (dels_all none) n g v j = unfold step in v.watched j
  step_watched e (dels_all (some fd)) n g v j =
      del_all_watched e fd j g (v.watched fd) (v.watched j)

  pub step-IsSynced :
      (e : Epoll k) (c : Call k)
      → IsNamed c
      → refused e c ≡ false
      → IsSynced e
      → IsSynced (step k e c)
  step-IsSynced e c n g v = record {
    own = λ fd. rw (step-sched_id e c) (step-IsOwn e c fd (v.own fd));
    watched = step_watched e c n g v;
  }

  -- After any calls with real coroutine ids, on descriptors good or negative and whatever new
  -- registrations the kernel refused, as long as it refused no change and no removal of one that a
  -- `DelEvRead`, `DelEvWrite` or `DelEvent` asked for, the kernel watches every descriptor for
  -- exactly the events whose waiters its context holds, and those waiters belong to the instance's
  -- scheduler, if this was so before the calls.
  pub run-IsSynced :
      (e : Epoll k) (cs : List (Call k))
      → All IsNamed cs
      → Granted e cs
      → IsSynced e
      → IsSynced (run k e cs)
  unfolding run
  run-IsSynced e [] n g v = v
  run-IsSynced e (c ∷ cs) n g v = run-IsSynced (step k e c) cs n.1 g.1 (step-IsSynced e c n.0 g.0 v)

  -- Where the kernel refuses the removal of the only registration, the context has none and the
  -- kernel goes on watching the descriptor.
  pub refused_removal :
      (e : Epoll k) (fd : ℕ)
      → IsSynced e
      → has_ev_read (e.ctxs fd) ≡ true
      → has_ev_write (e.ctxs fd) ≡ false
      → refused e (dels_read (some fd)) ≡ true
      → let e' = step k e (dels_read (some fd)) in
        (k.interest e'.kernel fd ≡ some in_only) × (expected (e'.ctxs fd) ≡ none)
  unfolding step
  refused_removal e fd v reader writer h = (
    ground (arith, v.watched fd, reader, writer, h, k.failed e.kernel del fd no_mask),
    ground (arith, reader, writer, h),
  )
