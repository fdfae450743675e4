-- ===== src/Channel/Answers.antt =====
-- What calls of `Read` of src/channel.cc have come to so far: those that have a block, and those that
-- wait at an empty channel.
use tit_co.Base.{
  ℕ, suc, ◌<◌, ◌≡◌, ◌≢◌, ◌⊎◌, refl, sym, ap, ap₂, subst, ◌∙◌, ◌==◌, none, some, List, [], ◌∷◌, ◌++◌,
  map, length, All, Bool-cases, inl, inr, replicate, ℕ_discrete, arith,
}
use tit_co.CoState.{k_init, k_ready}
use tit_co.Channel.Waiters.{WaitCtx, live, Within, Within-le}
use tit_co.Channel.View.{Shape, IsValid, view, readers}
use tit_co.Channel.{Channel, Outcome, done, waits, timer_of, resumed}
use tit_co.Channel.History.{answer, Frame}

-- This call of `Read` has returned, or may, with this block.
abbrev pub Settled : Channel → Outcome → List ℕ → Type 0
Settled c (done b ready) block = b ≡ block
Settled c (waits w timer) block =
    (w < c.fresh) × ((c.ctxs w).state ≡ k_ready) × ((c.ctxs w).cell ≡ block)

abbrev pub Tells : Channel → List Outcome → List (List ℕ) → Type 0
Tells c [] [] = Unit
Tells c [] (b ∷ bs) = ⊥
Tells c (o ∷ os) [] = ⊥
Tells c (o ∷ os) (b ∷ bs) = Settled c o b × Tells c os bs

module _ (c c' : Channel) (f : Frame c c') where
  pub Settled-Frame : (o : Outcome) (b : List ℕ) → Settled c o b → Settled c' o b
  Settled-Frame (done b' ready) b h = h
  Settled-Frame (waits w timer) b (l, s, e) =
      let same = f.kept w l (λ i. ground (arith, s, i)) in
      (
        omega (arith, f.fresh, l),
        ap (λ (x : WaitCtx). x.state) same ∙ s,
        ap (λ (x : WaitCtx). x.cell) same ∙ e,
      )

  pub Tells-Frame : (os : List Outcome) (bs : List (List ℕ)) → Tells c os bs → Tells c' os bs
  Tells-Frame [] [] h = tt
  Tells-Frame [] (b ∷ bs) h = absurd h
  Tells-Frame (o ∷ os) [] h = absurd h
  Tells-Frame (o ∷ os) (b ∷ bs) (h, hs) = (Settled-Frame o b h, Tells-Frame os bs hs)

pub Tells-append :
    (c : Channel) (os : List Outcome) (bs : List (List ℕ)) (o : Outcome) (b : List ℕ)
    → Tells c os bs
    → Settled c o b
    → Tells c (os ++ o ∷ []) (bs ++ b ∷ [])
Tells-append c [] [] o b h k = (k, tt)
Tells-append c [] (b' ∷ bs) o b h k = absurd h
Tells-append c (o' ∷ os) [] o b h k = absurd h
Tells-append c (o' ∷ os) (b' ∷ bs) o b (h, hs) k = (h, Tells-append c os bs o b hs k)

pub Settled-answer : (c : Channel) (o : Outcome) (b : List ℕ) → Settled c o b → answer c o ≡ some b
unfolding answer resumed
Settled-answer c (done b' ready) b h = ap some h
Settled-answer c (waits w timer) b (l, s, e) = ground (arith, s, e)

pub Tells-answers :
    (c : Channel) (os : List Outcome) (bs : List (List ℕ))
    → Tells c os bs
    → map (answer c) os ≡ map some bs
Tells-answers c [] [] h = refl
Tells-answers c [] (b ∷ bs) h = absurd h
Tells-answers c (o ∷ os) [] h = absurd h
Tells-answers c (o ∷ os) (b ∷ bs) (h, hs) =
    ap₂ ◌∷◌ (Settled-answer c o b h) (Tells-answers c os bs hs)

live-All :
    (f : ℕ → WaitCtx) (lo hi : ℕ) (q : List ℕ)
    → Within lo hi q
    → All (λ w. (w < hi) × ((f w).state ≡ k_init)) (live f q)
unfolding live
live-All f lo hi [] k = tt
live-All f lo hi (w ∷ q) k = elim (Bool-cases ((f w).state == k_init)) [
  | inl e ↦ rw e ((Within-le (suc w) hi q k.1, ground (arith, e)), live-All f (suc w) hi q k.1)
  | inr e ↦ rw e (live-All f (suc w) hi q k.1)
]

-- Readers wait at an empty channel only.
pub readers_or : (g : Shape) (c : Channel) → IsValid g c → (readers g c ≡ []) ⊎ (view g c ≡ [])
readers_or g c v = elim (ℕ_discrete g.count 0) [
  | yes e ↦ inr (ground (arith, v.first))
  | no n ↦ inl (ground (arith, n))
]

pub readers-All :
    (g : Shape) (c : Channel)
    → IsValid g c
    → All (λ w. (w < c.fresh) × ((c.ctxs w).state ≡ k_init)) (readers g c)
readers-All g c v = elim (ℕ_discrete g.count 0) [
  | yes e ↦ rw e (live-All c.ctxs 0 c.fresh c.wait_queue v.queue)
  | no n ↦ subst (All _) (sym (nobody n)) tt
]
  where
    nobody : g.count ≢ 0 → readers g c ≡ []
    nobody n = ground (arith, n)

pub some_block : (bs : List (List ℕ)) (b : List ℕ) → bs ++ b ∷ [] ≢ []
some_block [] b e = absurd (cc)
some_block (b' ∷ bs) b e = absurd (cc)

pub no_readers : (g : Shape) (c : Channel) → IsValid g c → view g c ≢ [] → readers g c ≡ []
no_readers g c v h = elim (readers_or g c v) [ inl r ↦ r | inr n ↦ absurd (h n) ]

-- A call of `Read` that waits at `w`.
abbrev pub asleep : ℕ → ℕ → Outcome
asleep ms w = waits w (timer_of ms)

-- The calls that wait have no answer yet.
pub waiting-answers :
    (c : Channel) (ms : ℕ) (ws : List ℕ)
    → All (λ w. (w < c.fresh) × ((c.ctxs w).state ≡ k_init)) ws
    → map (answer c) (map (asleep ms) ws) ≡ replicate (length ws) none
unfolding answer
waiting-answers c ms [] h = refl
waiting-answers c ms (w ∷ ws) (h, hs) = ap₂ ◌∷◌ (ground (arith, h.1)) (waiting-answers c ms ws hs)
