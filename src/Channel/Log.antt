-- ===== src/Channel/Log.antt =====
-- What the calls of `Read` of src/channel.cc have come to, where waits may run out of time: a log.
use tit_co.Base.{
  ℕ, ◌<◌, ◌≡◌, ◌≢◌, ◌⊎◌, refl, sym, ap, ap₂, subst, ◌∙◌, ◌==◌, Option, none, List, [], ◌∷◌, ◌++◌,
  All, Bool-cases, inl, inr, arith,
}
use tit_co.CoState.{k_init, k_ready, k_timeout}
use tit_co.Channel.Waiters.{WaitCtx}
use tit_co.Channel.{Channel, Outcome, done, waits}
use tit_co.Channel.History.{answer, Frame}
use tit_co.Channel.Answers.{Settled, Settled-Frame, Settled-answer}
use tit_co.Channel.Expiry.{without, counted, returned}

-- The wait of this call has ended without a block.
abbrev pub IsExpired : Channel → Outcome → Type 0
IsExpired c (done b ready) = ⊥
IsExpired c (waits w timer) = (w < c.fresh) × ((c.ctxs w).state ≡ k_timeout)

-- The calls `os` have returned the blocks `bs`; of the others, those at `ws` wait, which came after
-- all that have returned, and the rest has expired.
abbrev pub Log : Channel → List Outcome → List (List ℕ) → List ℕ → Type 0
Log c [] bs ws = (bs ≡ []) × (ws ≡ [])
Log c (o ∷ os) bs ws =
    ((b : List ℕ) × (more : List (List ℕ)) × (bs ≡ b ∷ more) × Settled c o b × Log c os more ws)
    ⊎ (IsExpired c o × Log c os bs ws)
    ⊎ ((w : ℕ) × (timer : Option ℕ) × (more : List ℕ) × (o ≡ waits w timer)
        × (bs ≡ [])
        × (ws ≡ w ∷ more)
        × Log c os [] more)

module _ (c c' : Channel) (f : Frame c c') where
  IsExpired-Frame : (o : Outcome) → IsExpired c o → IsExpired c' o
  IsExpired-Frame (done b ready) h = absurd h
  IsExpired-Frame (waits w timer) (l, s) =
      let same = f.kept w l (λ i. ground (arith, s, i)) in
      (ground (arith, f.fresh, l), ap (λ (x : WaitCtx). x.state) same ∙ s)

  pub Log-Frame :
      (os : List Outcome) (bs : List (List ℕ)) (ws : List ℕ) → Log c os bs ws → Log c' os bs ws
  Log-Frame [] bs ws h = h
  Log-Frame (o ∷ os) bs ws (inl (b, more, e, s, h)) =
      inl (b, more, e, Settled-Frame c c' f o b s, Log-Frame os more ws h)
  Log-Frame (o ∷ os) bs ws (inr (inl (x, h))) =
      inr (inl (IsExpired-Frame o x, Log-Frame os bs ws h))
  Log-Frame (o ∷ os) bs ws (inr (inr (w, timer, more, e, n, q, h))) =
      inr (inr (w, timer, more, e, n, q, Log-Frame os [] more h))

module _ (c : Channel) where
  -- A call returns at once, while nobody waits.
  pub Log-settled :
      (os : List Outcome) (bs : List (List ℕ)) (o : Outcome) (b : List ℕ)
      → Log c os bs []
      → Settled c o b
      → Log c (os ++ o ∷ []) (bs ++ b ∷ []) []
  Log-settled [] bs o b (e, n) s = inl (b, [], ap (λ l. l ++ b ∷ []) e, s, (refl, refl))
  Log-settled (o' ∷ os) bs o b (inl (b', more, e, s', h)) s =
      inl (b', more ++ b ∷ [], ap (λ l. l ++ b ∷ []) e, s', Log-settled os more o b h s)
  Log-settled (o' ∷ os) bs o b (inr (inl (x, h))) s = inr (inl (x, Log-settled os bs o b h s))
  Log-settled (o' ∷ os) bs o b (inr (inr (w, timer, more, e, n, q, h))) s = absurd (cc)

  -- A call waits.
  pub Log-waiting :
      (os : List Outcome) (bs : List (List ℕ)) (ws : List ℕ) (w : ℕ) (timer : Option ℕ)
      → Log c os bs ws
      → Log c (os ++ waits w timer ∷ []) bs (ws ++ w ∷ [])
  Log-waiting [] bs ws w timer (e, n) =
      inr (inr (w, timer, [], refl, e, ap (λ l. l ++ w ∷ []) n, (refl, refl)))
  Log-waiting (o ∷ os) bs ws w timer (inl (b, more, e, s, h)) =
      inl (b, more, e, s, Log-waiting os more ws w timer h)
  Log-waiting (o ∷ os) bs ws w timer (inr (inl (x, h))) =
      inr (inl (x, Log-waiting os bs ws w timer h))
  Log-waiting (o ∷ os) bs ws w timer (inr (inr (v, t, more, e, n, q, h))) =
      inr (
        inr (v, t, more ++ w ∷ [], e, n, ap (λ l. l ++ w ∷ []) q, Log-waiting os [] more w timer h))

  -- The call that has waited longest gets its block.
  pub Log-served :
      (os : List Outcome) (bs : List (List ℕ)) (w : ℕ) (ws : List ℕ) (b : List ℕ)
      → Log c os bs (w ∷ ws)
      → ((timer : Option ℕ) → Settled c (waits w timer) b)
      → Log c os (bs ++ b ∷ []) ws
  Log-served [] bs w ws b (e, n) s = absurd (cc)
  Log-served (o ∷ os) bs w ws b (inl (b', more, e, s', h)) s =
      inl (b', more ++ b ∷ [], ap (λ l. l ++ b ∷ []) e, s', Log-served os more w ws b h s)
  Log-served (o ∷ os) bs w ws b (inr (inl (x, h))) s = inr (inl (x, Log-served os bs w ws b h s))
  Log-served (o ∷ os) bs w ws b (inr (inr (v, timer, more, e, n, q, h))) s =
      let (same, rest) : (v ≡ w) × (more ≡ ws) = (cc, cc) in
      inl (
        b,
        [],
        ap (λ l. l ++ b ∷ []) n,
        subst (λ x. Settled c x b) (sym (e ∙ ap (λ x. waits x timer) same)) (s timer),
        subst (Log c os []) rest h,
      )

  -- The call that waits at `w` gives up.
  pub Log-expired :
      (w : ℕ) (os : List Outcome) (bs : List (List ℕ)) (ws : List ℕ)
      → All (λ v. v ≡ w → (timer : Option ℕ) → IsExpired c (waits v timer)) ws
      → Log c os bs ws
      → Log c os bs (without w ws)
  Log-expired w [] bs ws x (e, n) = (e, ap (without w) n)
  Log-expired w (o ∷ os) bs ws x (inl (b, more, e, s, h)) =
      inl (b, more, e, s, Log-expired w os more ws x h)
  Log-expired w (o ∷ os) bs ws x (inr (inl (y, h))) = inr (inl (y, Log-expired w os bs ws x h))
  Log-expired w (o ∷ os) bs ws x (inr (inr (v, timer, more, e, n, q, h))) =
      let (first, others) =
        subst (All (λ v. v ≡ w → (timer : Option ℕ) → IsExpired c (waits v timer))) q x in
      let later = Log-expired w os [] more others h in
      elim (Bool-cases (v == w)) [
        | inl t ↦
            let gone : without w ws ≡ without w more = ap (without w) q ∙ ground (arith, t) in
            inr (
              inl (
                subst (IsExpired c) (sym e) (first (ground (arith, t)) timer),
                subst (λ l. Log c os bs l) (sym gone)
                    (subst (λ l. Log c os l (without w more)) (sym n) later),
              ))
        | inr t ↦
            let stays : without w ws ≡ v ∷ without w more = ap (without w) q ∙ ground (arith, t) in
            inr (inr (v, timer, without w more, e, n, stays, later))
      ]

  no_block :
      (w : ℕ) (timer : Option ℕ) → (c.ctxs w).state ≢ k_ready → answer c (waits w timer) ≡ none
  unfolding answer
  no_block w timer h = ground (arith, h)

  pub Log-returned :
      (os : List Outcome) (bs : List (List ℕ)) (ws : List ℕ)
      → All (λ w. (w < c.fresh) × ((c.ctxs w).state ≡ k_init)) ws
      → Log c os bs ws
      → returned c os ≡ bs
  unfolding returned answer
  Log-returned [] bs ws x (e, n) = sym e
  Log-returned (o ∷ os) bs ws x (inl (b, more, e, s, h)) =
      ap₂ counted (Settled-answer c o b s) (Log-returned os more ws x h) ∙ sym e
  Log-returned (done b ready ∷ os) bs ws x (inr (inl (y, h))) = absurd y
  Log-returned (waits w timer ∷ os) bs ws x (inr (inl (y, h))) =
      ap₂ counted (no_block w timer (ground (arith, y.1))) (Log-returned os bs ws x h)
  Log-returned (o ∷ os) bs ws x (inr (inr (w, timer, more, e, n, q, h))) =
      let (first, others) = subst (All (λ w. (w < c.fresh) × ((c.ctxs w).state ≡ k_init))) q x in
      ap₂ counted (ap (answer c) e ∙ no_block w timer (ground (arith, first.1)))
        (Log-returned os [] more others h)
      ∙ sym n
