-- ===== src/Channel/View.antt =====
-- A channel of src/channel.cc seen as a queue of blocks: those in the buffer, and behind them those
-- of the writers that wait.
use native.Mathlib.Nat.{mod-add-mod, mod-eq_of_lt, mod-eq-sub-mod}
use native.Mathlib.Nat.{add-zero}
use tit_co.Base.{
  ℕ, zero, suc, ◌+◌, ◌-◌, ◌*◌, ◌%◌, ◌≤◌, ◌<◌, ◌≡◌, ◌≢◌, refl, ap, ◌∙◌, ◌||◌, ◌==◌, if◌then◌else◌,
  List, [], ◌++◌, append-nil, length, dec_lt, arith,
}
use tit_co.Base.Word.{u32}
use tit_co.Channel.Waiters.{WaitCtx, live, cells, Within, Sized}
use tit_co.Channel.Ring.{window, next_offset, turn-ne, le_times}
use tit_co.Channel.{Channel, advance, create}

-- How many blocks fit, which is the oldest, and how many there are.
pub record Shape : Type 0 where
  pub cap : ℕ
  pub first : ℕ
  pub count : ℕ

-- The offsets are those of blocks inside the buffer; `full_` tells a full channel from an empty one;
-- nobody waits unless the channel is one of these; writers bring whole blocks.
pub record IsValid (g : Shape) (c : Channel) : Type 0 where
  pub blk : 0 < c.blk_size
  pub size : c.buf_size ≡ g.cap * c.blk_size
  pub fits : g.cap * c.blk_size < u32
  pub room : g.cap * c.blk_size ≤ length c.buf
  pub first : g.first < g.cap
  pub few : g.count ≤ g.cap
  pub rx : c.rx ≡ g.first * c.blk_size
  pub wx : c.wx ≡ ((g.first + g.count) % g.cap) * c.blk_size
  pub full : c.full ≡ (g.count == g.cap)
  pub queue : Within 0 c.fresh c.wait_queue
  pub idle : 0 < g.count → g.count < g.cap → c.wait_queue ≡ []
  pub sized : g.count ≡ g.cap → Sized c.blk_size c.ctxs c.wait_queue

-- A change of the queue alone.
abbrev pub requeue : Channel → List ℕ → (ℕ → WaitCtx) → ℕ → Channel
requeue c q f n = record c { wait_queue = q; ctxs = f; fresh = n }

pub requeue-IsValid :
    (g : Shape) (c : Channel) (q : List ℕ) (f : ℕ → WaitCtx) (n : ℕ)
    → IsValid g c
    → Within 0 n q
    → (0 < g.count → g.count < g.cap → q ≡ [])
    → (g.count ≡ g.cap → Sized c.blk_size f q)
    → IsValid g (requeue c q f n)
requeue-IsValid g c q f n v k i s = record {
  blk = v.blk;
  size = v.size;
  fits = v.fits;
  room = v.room;
  first = v.first;
  few = v.few;
  rx = v.rx;
  wx = v.wx;
  full = v.full;
  queue = k;
  idle = i;
  sized = s;
}

abbrev pub contents : Shape → Channel → List (List ℕ)
contents g c = window c.blk_size g.cap c.buf g.first g.count

-- The blocks of the writers that wait.
abbrev pub pending : Shape → Channel → List (List ℕ)
pending g c = if g.count == g.cap then cells c.ctxs (live c.ctxs c.wait_queue) else []

abbrev pub view : Shape → Channel → List (List ℕ)
view g c = contents g c ++ pending g c

pub pending_nobody : (g : Shape) (c : Channel) → c.wait_queue ≡ [] → pending g c ≡ []
unfolding live
pending_nobody g c e = rw e (ground arith)

pub pending_room : (g : Shape) (c : Channel) → g.count ≢ g.cap → pending g c ≡ []
pending_room g c h = ground arith

pub view_nobody : (g : Shape) (c : Channel) → pending g c ≡ [] → view g c ≡ contents g c
view_nobody g c e = ap (λ p. contents g c ++ p) e ∙ append-nil (contents g c)

-- The readers that wait.
abbrev pub readers : Shape → Channel → List ℕ
readers g c = if g.count == 0 then live c.ctxs c.wait_queue else []

pub times_cancel : (a b c : ℕ) → 0 < c → ((a * c == b * c) ≡ (a == b))
times_cancel a b c h = ground (arith, le_times (suc a) b c, le_times (suc b) a c)

-- Round the ring: back at the start after no step, or all.
pub turn_iff : (cap i n : ℕ) → i < cap → n ≤ cap → (i == (i + n) % cap) ≡ (n == 0 || n == cap)
turn_iff cap i zero h le = ground (arith, add-zero i, mod-eq_of_lt {n = i} {m = cap} h)
turn_iff cap i (suc n) h le = elim (dec_lt (suc n) cap) [
  | yes p ↦ ground (arith, turn-ne 1 cap i n h p)
  | no p ↦ ground (
    arith,
    mod-eq-sub-mod {n = i + suc n} {m = cap} (omega arith),
    mod-eq_of_lt {n = i + suc n - cap} {m = cap} (omega arith),
  )
]

pub same_offset :
    (g : Shape) (c : Channel) → IsValid g c → (c.rx == c.wx) ≡ (g.count == 0 || g.count == g.cap)
same_offset g c v =
    rw (v.rx, v.wx, times_cancel g.first ((g.first + g.count) % g.cap) c.blk_size v.blk)
      (turn_iff g.cap g.first g.count v.first v.few)

pub wx_in_range : (g : Shape) (c : Channel) → IsValid g c → (g.first + g.count) % g.cap < g.cap
wx_in_range g c v = let p = v.first in omega arith

pub step_turn : (cap i n : ℕ) → suc ((i + n) % cap) % cap ≡ (i + suc n) % cap
step_turn cap i n = ground (arith, mod-add-mod (i + n) cap 1)

pub advance_rx :
    (g : Shape) (c : Channel) → IsValid g c → advance c c.rx ≡ (suc g.first % g.cap) * c.blk_size
unfolding advance
advance_rx g c v = rw (v.rx, v.size) (next_offset g.cap c.blk_size g.first v.blk v.first v.fits)

pub advance_wx :
    (g : Shape) (c : Channel)
    → IsValid g c
    → advance c c.wx ≡ ((g.first + suc g.count) % g.cap) * c.blk_size
unfolding advance
advance_wx g c v =
    rw (v.wx, v.size)
      (next_offset g.cap c.blk_size ((g.first + g.count) % g.cap) v.blk (wx_in_range g c v) v.fits
        ∙ ap (λ (t : ℕ). t * c.blk_size) (step_turn g.cap g.first g.count))

-- A new channel for `cap` blocks is valid and empty, whatever its memory held.
pub create-IsValid :
    (cap blk ms : ℕ) (memory : List ℕ)
    → 0 < cap
    → 0 < blk
    → cap * blk < u32
    → length memory ≡ cap * blk
    → let g : Shape = record { cap = cap; first = 0; count = 0 } in
      IsValid g (create (cap * blk) blk ms memory)
      × (view g (create (cap * blk) blk ms memory) ≡ [])
unfolding create
create-IsValid cap blk ms memory hc hb hs hm = (
  record {
    blk = hb;
    size = refl;
    fits = hs;
    room = omega arith;
    first = hc;
    few = omega arith;
    rx = omega arith;
    wx = grind arith;
    full = ground arith;
    queue = omega arith;
    idle = λ p q. refl;
    sized = λ p. tt;
  },
  ground arith,
)
