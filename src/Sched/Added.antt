-- ===== src/Sched/Added.antt =====
-- What a scheduler of src/scheduler.cc resumes for its events, and what tasks the resumed coroutines
-- add.
use tit_co.Base.{
  map, ℕ, suc, ◌+◌, Bool, ◌≡◌, refl, ap, ◌∙◌, List, [], ◌∷◌, ◌++◌, append_assoc, arith,
}
use tit_co.Sched.{
  Work, Act, adds_new, adds_ready, adds_timer, stops, writes, Script, Ready, due, length,
}

abbrev pub flagged : Bool → List Work → List (Work × Bool)
flagged flag ws = map (λ w. (w, flag)) ws

abbrev pub all_due : ℕ → List Ready → List Work
all_due id [] = []
all_due id (e ∷ es) = due id e ++ all_due id es

-- The new tasks, and the ready coroutines, that a coroutine adds until it switches.
abbrev pub news_of : List Act → List ℕ
news_of [] = []
news_of (adds_new func ∷ more) = func ∷ news_of more
news_of (adds_ready co ∷ more) = news_of more
news_of (adds_timer now ms ∷ more) = news_of more
news_of (stops ∷ more) = news_of more
news_of (writes store ∷ more) = news_of more

abbrev pub readies_of : List Act → List ℕ
readies_of [] = []
readies_of (adds_new func ∷ more) = readies_of more
readies_of (adds_ready co ∷ more) = co ∷ readies_of more
readies_of (adds_timer now ms ∷ more) = readies_of more
readies_of (stops ∷ more) = readies_of more
readies_of (writes store ∷ more) = readies_of more

-- What `ws` add, of which the first is resumed as the `n`-th of the scheduler's life.
abbrev pub added : (List Act → List ℕ) → Script → ℕ → List Work → List ℕ
added pick script n [] = []
added pick script n (w ∷ ws) = pick (script n w).0 ++ added pick script (suc n) ws

pub flagged-append :
    (flag : Bool) (us vs : List Work) → flagged flag (us ++ vs) ≡ flagged flag us ++ flagged flag vs
flagged-append flag [] vs = refl
flagged-append flag (u ∷ us) vs = ap (λ r. (u, flag) ∷ r) (flagged-append flag us vs)

pub length-flagged :
    (l : List (Work × Bool)) (flag : Bool) (ws : List Work)
    → length (l ++ flagged flag ws) ≡ length l + length ws
length-flagged [] flag [] = refl
length-flagged [] flag (w ∷ ws) = omega (arith, length-flagged [] flag ws)
length-flagged (x ∷ l) flag ws = omega (arith, length-flagged l flag ws)

pub added-append :
    (pick : List Act → List ℕ) (script : Script) (n : ℕ) (us vs : List Work)
    → added pick script n us ++ added pick script (n + length us) vs
      ≡ added pick script n (us ++ vs)
added-append pick script n [] vs = ap (λ m. added pick script m vs) (omega arith)
added-append pick script n (u ∷ us) vs =
    append_assoc (pick (script n u).0) (added pick script (suc n) us) _
    ∙ ap (λ r. pick (script n u).0 ++ r)
        (ap (λ m. added pick script (suc n) us ++ added pick script m vs) (omega arith)
          ∙ added-append pick script (suc n) us vs)
