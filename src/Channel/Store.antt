-- ===== src/Channel/Store.antt =====
-- A block put into the ring of src/channel.cc by `Write` stands behind the others.
use tit_co.Base.{ℕ, suc, ◌+◌, ◌%◌, ◌≡◌, ◌≢◌, refl, sym, subst, List, [], ◌∷◌, ◌++◌, length, arith}
use tit_co.Base.Bytes.{write_block, length-write_block}
use tit_co.Channel.Ring.{window, window-write}
use tit_co.Channel.View.{Shape, IsValid, contents, advance_wx, times_cancel, turn_iff}
use tit_co.Channel.{Channel, store}

abbrev pub grown : Shape → Shape
grown g = record g { count = suc g.count }

-- A block goes into a channel that is not full and where nobody waits.
module _ (g : Shape) (c : Channel) (v : IsValid g c) (block : List ℕ)
    (len : length block ≡ c.blk_size) where
  pub store-IsValid : g.count ≢ g.cap → c.wait_queue ≡ [] → IsValid (grown g) (store c block)
  unfolding store
  store-IsValid ne nobody = record {
    blk = v.blk;
    size = v.size;
    fits = v.fits;
    room = omega (arith, v.room, length-write_block c.buf c.wx block);
    first = v.first;
    few = omega (arith, v.few);
    rx = v.rx;
    wx = advance_wx g c v;
    full = ground (
      arith,
      advance_wx g c v,
      v.rx,
      v.full,
      v.few,
      times_cancel ((g.first + suc g.count) % g.cap) g.first c.blk_size v.blk,
      turn_iff g.cap g.first (suc g.count) v.first,
    );
    queue = v.queue;
    idle = λ p q. nobody;
    sized = λ p. rw nobody tt;
  }

  pub store-contents :
      g.count ≢ g.cap → contents (grown g) (store c block) ≡ contents g c ++ block ∷ []
  unfolding store
  store-contents ne =
      subst
        (λ (off : ℕ).
          window c.blk_size g.cap (write_block c.buf off block) g.first (suc g.count)
          ≡ contents g c ++ block ∷ [])
        (sym v.wx)
        (window-write c.blk_size g.cap c.buf block g.count g.first ((g.first + g.count) % g.cap)
          v.room len v.first (omega (arith, v.few)) refl)
