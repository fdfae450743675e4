-- ===== src/Io/Event/Laws.antt =====
-- What an `IOEvent` of src/io_event.cc does to the registrations of its descriptor.
use tit_co.Base.{refl, ℕ, ◌≡◌, ◌≢◌, Bool, true, false, if◌then◌else◌, some, arith}
use tit_co.Base.Word.{minus_one}
use tit_co.Io.SockCtx.{has_event, SockCtx, has_ev_read, has_ev_write}
use tit_co.Io.Epoll.{
  Kernel, Mask, Epoll, in_only, out_only, in_out, add_read, add_write, del_read, del_write,
  adds_read, adds_write, step,
}
use tit_co.Io.Epoll.Sync.{IsSynced, step-IsSynced}
use tit_co.Io.Event.{IoEventT, ev_read, ev_write, new, destroy, failed, wait}

-- The event that a context holds, and the bit of a mask that stands for it.
abbrev pub holds : IoEventT → SockCtx → Bool
holds ev_read c = has_ev_read c
holds ev_write c = has_ev_write c

abbrev pub bit : IoEventT → Mask → Bool
bit ev_read m = m.epollin
bit ev_write m = m.epollout

abbrev pub mask_of : IoEventT → SockCtx → Mask
mask_of ev_read c = if has_ev_write c then in_out else in_only
mask_of ev_write c = if has_ev_read c then in_out else out_only

module _ (k : Kernel) where
  wait-holds :
      (e : Epoll k) (fd co_id ms : ℕ) (ev : IoEventT)
      → co_id ≢ minus_one
      → let (v, e', w) = wait k (new k (some fd) ev) e co_id ms in
        w ≢ failed → holds ev (e'.ctxs fd) ≡ true
  unfolding wait add_read add_write
  wait-holds e fd co_id ms ev_read h n = ground arith
  wait-holds e fd co_id ms ev_write h n = ground arith

  wait-IsSynced :
      (e : Epoll k) (fd co_id ms : ℕ) (ev : IoEventT)
      → co_id ≢ minus_one
      → IsSynced k e
      → IsSynced k (wait k (new k (some fd) ev) e co_id ms).1
  unfolding wait step
  wait-IsSynced e fd co_id ms ev_read h v = step-IsSynced k e (adds_read (some fd) co_id) h refl v
  wait-IsSynced e fd co_id ms ev_write h v = step-IsSynced k e (adds_write (some fd) co_id) h refl v

  watched_bit :
      (e : Epoll k) (fd : ℕ) (ev : IoEventT)
      → IsSynced k e
      → holds ev (e.ctxs fd) ≡ true
      → (m : Mask) × (k.interest e.kernel fd ≡ some m) × (bit ev m ≡ true)
  watched_bit e fd ev_read v h =
      (mask_of ev_read (e.ctxs fd), ground (arith, v.watched fd), ground arith)
  watched_bit e fd ev_write v h =
      (mask_of ev_write (e.ctxs fd), ground (arith, v.watched fd), ground arith)

  -- If the first `wait` of an event on a descriptor does not fail, then when its coroutine yields
  -- the kernel watches the descriptor for that event, provided that the instance watched what its
  -- contexts held before.
  pub wait_watched :
      (e : Epoll k) (fd co_id ms : ℕ) (ev : IoEventT)
      → co_id ≢ minus_one
      → IsSynced k e
      → (wait k (new k (some fd) ev) e co_id ms).2 ≢ failed
      → (m : Mask) × (k.interest (wait k (new k (some fd) ev) e co_id ms).1.kernel fd ≡ some m)
        × (bit ev m ≡ true)
  wait_watched e fd co_id ms ev h v n =
      watched_bit _ fd ev (wait-IsSynced e fd co_id ms ev h v) (wait-holds e fd co_id ms ev h n)

  -- An event to read that has registered takes, when it is destroyed, both registrations of its
  -- descriptor away, the writer's too; an event to write takes the writer's away and leaves the
  -- reader's; an event that has not registered changes nothing.
  pub destroy_clears :
      (e : Epoll k) (fd : ℕ) (ev : IoEventT)
      → let reader = record (new k (some fd) ev_read) { has_ev = true } in
        let writer = record (new k (some fd) ev_write) { has_ev = true } in
        (has_event ((destroy k reader e).ctxs fd) ≡ false)
        × (has_ev_write ((destroy k writer e).ctxs fd) ≡ false)
        × (((destroy k writer e).ctxs fd).read_ev ≡ (e.ctxs fd).read_ev)
        × (destroy k (new k (some fd) ev) e ≡ e)
  unfolding destroy del_read del_write
  destroy_clears e fd ev = (ground arith, ground arith, ground arith, ground arith)
