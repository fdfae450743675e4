-- ===== src/Channel/Waiters.antt =====
-- The wait contexts of include/channel.h, and the queue of those that wait.
use tit_co.Base.{
  ℕ, suc, ◌≤◌, ◌<◌, ◌≡◌, refl, subst, ap, ap₂, All, ◌∙◌, ◌==◌, if◌then◌else◌, Option, none, some,
  List, [], ◌∷◌, ◌++◌, length, Bool-cases, inl, inr, arith,
}
use tit_co.CoState.{k_init}

-- `WaitCtx`: the coroutine, the state, and the block that lies at `buf_`.
pub record WaitCtx : Type 0 where
  pub co : ℕ
  pub state : ℕ
  pub cell : List ℕ

abbrev pub update : (ℕ → WaitCtx) → ℕ → WaitCtx → ℕ → WaitCtx
update f w x j = if w == j then x else f j

pub update_self : (f : ℕ → WaitCtx) (w : ℕ) (x : WaitCtx) → update f w x w ≡ x
update_self f w x = ground arith

-- The first context of the queue whose state is still the initial one, and the queue behind it:
-- those before it are popped and dropped.
unfoldable pub pop_live : (ℕ → WaitCtx) → List ℕ → Option (ℕ × List ℕ)
pop_live f [] = none
pop_live f (w ∷ q) = if (f w).state == k_init then some (w, q) else pop_live f q

-- The contexts of the queue that still wait, in order.
unfoldable pub live : (ℕ → WaitCtx) → List ℕ → List ℕ
live f [] = []
live f (w ∷ q) = if (f w).state == k_init then w ∷ live f q else live f q

abbrev pub cells : (ℕ → WaitCtx) → List ℕ → List (List ℕ)
cells f [] = []
cells f (w ∷ q) = (f w).cell ∷ cells f q

-- The queue holds distinct contexts made between `lo` and `hi`: it grows by the newest.
abbrev pub Within : ℕ → ℕ → List ℕ → Type 0
Within lo hi [] = lo ≤ hi
Within lo hi (w ∷ q) = (lo ≤ w) × Within (suc w) hi q

pub Within-lo : (lo lo' hi : ℕ) (q : List ℕ) → lo' ≤ lo → Within lo hi q → Within lo' hi q
Within-lo lo lo' hi [] h k = omega arith
Within-lo lo lo' hi (w ∷ q) h k = (omega arith, k.1)

pub Within-append : (lo hi : ℕ) (q : List ℕ) → Within lo hi q → Within lo (suc hi) (q ++ hi ∷ [])
Within-append lo hi [] k = (k, omega arith)
Within-append lo hi (w ∷ q) k = (k.0, Within-append (suc w) hi q k.1)

pub Within-le : (lo hi : ℕ) (q : List ℕ) → Within lo hi q → lo ≤ hi
Within-le lo hi [] k = k
Within-le lo hi (w ∷ q) k = omega (arith, Within-le (suc w) hi q k.1)

-- A change at a context below the queue, or above it, leaves what waits there alone.
pub live-below :
    (f : ℕ → WaitCtx) (w : ℕ) (x : WaitCtx) (lo hi : ℕ) (q : List ℕ)
    → Within lo hi q
    → w < lo
    → (live (update f w x) q ≡ live f q) × (cells (update f w x) (live f q) ≡ cells f (live f q))
unfolding live
live-below f w x lo hi [] k h = (refl, refl)
live-below f w x lo hi (v ∷ q) k h = ground (arith, live-below f w x (suc v) hi q)

pub live-above :
    (f : ℕ → WaitCtx) (x : WaitCtx) (lo hi : ℕ) (q : List ℕ)
    → Within lo hi q
    → (live (update f hi x) q ≡ live f q) × (cells (update f hi x) (live f q) ≡ cells f (live f q))
unfolding live
live-above f x lo hi [] k = (refl, refl)
live-above f x lo hi (v ∷ q) k = ground (arith, live-above f x (suc v) hi q, Within-le (suc v) hi q)

pub live-append :
    (f : ℕ → WaitCtx) (q : List ℕ) (w : ℕ)
    → (f w).state ≡ k_init
    → live f (q ++ w ∷ []) ≡ live f q ++ w ∷ []
unfolding live
live-append f [] w h = ground arith
live-append f (v ∷ q) w h = ground (arith, live-append f q w h)

pub cells-append :
    (f : ℕ → WaitCtx) (q : List ℕ) (w : ℕ) → cells f (q ++ w ∷ []) ≡ cells f q ++ (f w).cell ∷ []
cells-append f [] w = refl
cells-append f (v ∷ q) w = ground (arith, cells-append f q w)

-- What `pop_live` found: nobody waits, or the first that does, and the queue behind it.
abbrev pub Popped : (ℕ → WaitCtx) → ℕ → ℕ → List ℕ → Option (ℕ × List ℕ) → Type 0
Popped f lo hi q none = live f q ≡ []
Popped f lo hi q (some (w, rest)) =
    (live f q ≡ w ∷ live f rest)
    × (lo ≤ w)
    × (w < hi)
    × Within (suc w) hi rest
    × ((f w).state ≡ k_init)

Popped-more :
    (f : ℕ → WaitCtx) (lo lo' hi : ℕ) (q q' : List ℕ)
    → lo' ≤ lo
    → live f q' ≡ live f q
    → (r : Option (ℕ × List ℕ)) → Popped f lo hi q r
    → Popped f lo' hi q' r
Popped-more f lo lo' hi q q' h e none p = e ∙ p
Popped-more f lo lo' hi q q' h e (some (w, rest)) p = (e ∙ p.0, omega arith, p.2, p.3, p.4)

pub pop_live-Popped :
    (f : ℕ → WaitCtx) (lo hi : ℕ) (q : List ℕ) → Within lo hi q → Popped f lo hi q (pop_live f q)
unfolding pop_live live
pop_live-Popped f lo hi [] k = refl
pop_live-Popped f lo hi (w ∷ q) k = elim (Bool-cases ((f w).state == k_init)) [
  | inl e ↦ rw e (ground arith, k.0, omega (arith, Within-le (suc w) hi q k.1), k.1, ground arith)
  | inr e ↦ rw e (
      Popped-more f (suc w) lo hi q (w ∷ q) (omega arith) (ground arith) (pop_live f q)
        (pop_live-Popped f (suc w) hi q k.1))
]

-- The blocks of those in the queue have the channel's size.
abbrev pub Sized : ℕ → (ℕ → WaitCtx) → List ℕ → Type 0
Sized blk f q = All (λ w. length (f w).cell ≡ blk) q

pub Sized-update :
    (f : ℕ → WaitCtx) (w : ℕ) (x : WaitCtx) (blk lo hi : ℕ) (q : List ℕ)
    → Within lo hi q
    → w < lo
    → Sized blk f q
    → Sized blk (update f w x) q
Sized-update f w x blk lo hi [] k h s = tt
Sized-update f w x blk lo hi (v ∷ q) k h s =
    (ground (arith, s.0), Sized-update f w x blk (suc v) hi q k.1 (omega arith) s.1)

-- `pop_live` leaves a part of the queue.
pub pop_live-Sized :
    (f : ℕ → WaitCtx) (blk : ℕ) (q : List ℕ)
    → Sized blk f q
    → (w : ℕ) (rest : List ℕ) → pop_live f q ≡ some (w, rest)
    → Sized blk f rest × (length (f w).cell ≡ blk)
unfolding pop_live
pop_live-Sized f blk [] s w rest e = absurd (cc)
pop_live-Sized f blk (v ∷ q) s w rest e = elim (Bool-cases ((f v).state == k_init)) [
  | inl h ↦
      let here : (v ≡ w) × (q ≡ rest) = ground arith in
      (subst (Sized blk f) here.1 s.1, subst (λ (j : ℕ). length (f j).cell ≡ blk) here.0 s.0)
  | inr h ↦ pop_live-Sized f blk q s.1 w rest (ground arith)
]

-- A context that is made and waits at the end of the queue.
module _ (f : ℕ → WaitCtx) (x : WaitCtx) where
  pub parked-live :
      (lo hi : ℕ) (q : List ℕ)
      → Within lo hi q
      → x.state ≡ k_init
      → live (update f hi x) (q ++ hi ∷ []) ≡ live f q ++ hi ∷ []
  parked-live lo hi q k i =
      live-append (update f hi x) q hi (ap (λ (y : WaitCtx). y.state) (update_self f hi x) ∙ i)
      ∙ ap (λ l. l ++ hi ∷ []) (live-above f x lo hi q k).0

  pub parked-cells :
      (lo hi : ℕ) (q : List ℕ)
      → Within lo hi q
      → x.state ≡ k_init
      → cells (update f hi x) (live (update f hi x) (q ++ hi ∷ []))
        ≡ cells f (live f q) ++ x.cell ∷ []
  parked-cells lo hi q k i =
      ap (cells (update f hi x)) (parked-live lo hi q k i)
      ∙ cells-append (update f hi x) (live f q) hi
      ∙ ap₂ (λ (l : List (List ℕ)) (c : List ℕ). l ++ c ∷ []) (live-above f x lo hi q k).1
          (ap (λ (y : WaitCtx). y.cell) (update_self f hi x))

  pub parked-Sized :
      (blk lo hi : ℕ) (q : List ℕ)
      → Within lo hi q
      → Sized blk f q
      → length x.cell ≡ blk
      → Sized blk (update f hi x) (q ++ hi ∷ [])
  parked-Sized blk lo hi [] k a p = (rw (update_self f hi x) p, tt)
  parked-Sized blk lo hi (w ∷ q) k a p =
      (ground (arith, a.0, Within-le (suc w) hi q k.1), parked-Sized blk (suc w) hi q k.1 a.1 p)
