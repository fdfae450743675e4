-- ===== src/Stack/Kept.antt =====
-- What the copying between a shared stack and the coroutines' own buffers keeps.
use tit_co.Base.{
  ℕ, ◌≤◌, ◌<◌, ◌≡◌, refl, sym, ap, ◌∙◌, ◌==◌, true, false, Option, none, some, Bool-cases, inl, inr,
  arith,
}
use tit_co.Stack.{
  moved, resume_at, Fiber, Share, resume, Step, resumes, yields, returns, Reach, here, next, start,
}
use tit_co.Stack.Copies.{Held, IsKept, yielded-IsKept, recycled-IsKept, moved-Parked, moved_same}

-- The bytes of a coroutine that does not run, from its context to the top, are as it left them: in
-- the memory if it owns the stack, in its buffer otherwise.

-- What `Resume` has done, whichever branch it took.
record Resumed (s : Share) (co : ℕ) (t : Share) : Type 0 where
  owner : t.owner ≡ some co
  running : t.running ≡ some co
  made : t.made ≡ true
  top : t.top ≡ s.top
  frame : t.frame ≡ s.frame
  others : (i : ℕ) → (co == i) ≡ false → t.fibers i ≡ (moved s co).fibers i

resume_at-Resumed :
    (s : Share) (co entry : ℕ) (o : Option ℕ) → Resumed s co (resume_at s co entry o)
unfolding resume_at
resume_at-Resumed s co entry none = record {
  owner = refl;
  running = refl;
  made = refl;
  top = (moved_same s co).0;
  frame = (moved_same s co).1;
  others = λ i ne. ground arith;
}
resume_at-Resumed s co entry (some ctx) = record {
  owner = refl;
  running = refl;
  made = refl;
  top = (moved_same s co).0;
  frame = (moved_same s co).1;
  others = λ i ne. refl;
}

Resumed-Held :
    (s t : Share) (co : ℕ)
    → IsKept s
    → s.running ≡ none
    → Resumed s co t
    → (i c : ℕ) → (co == i) ≡ false
    → (t.fibers i).ctx ≡ some c
    → Held t i c
Resumed-Held s t co v r f i c ne e =
    let same = f.others i ne in
    let ctx = sym ((moved_same s co).2 i) ∙ ap (λ (x : Fiber). x.ctx) (sym same) ∙ e in
    let (a, b, h) = moved-Parked s co v r i c ne ctx in
    let top = f.top in
    (
      ground arith,
      ground arith,
      λ j p q. rw (f.owner, f.frame, same) (ground (arith, h j p (ground arith))),
    )

resume-IsKept :
    (s : Share) (co entry : ℕ) → IsKept s → s.running ≡ none → IsKept (resume s co entry)
unfolding resume
resume-IsKept s co entry v r =
    let f = resume_at-Resumed s co entry (s.fibers co).ctx in
    record {
      held = λ i c n e.
          Resumed-Held s (resume_at s co entry (s.fibers co).ctx) co v r f i c
            (ground (arith, f.running)) e;
      owns = λ i e. ground (arith, f.running, f.owner);
      fresh = λ e. absurd (ground (arith, f.made));
      begun = λ i e. f.made;
      unused = λ e. absurd (ground (arith, f.made));
    }

step-IsKept : {s t : Share} → Step s t → IsKept s → IsKept t
step-IsKept {s} (resumes co entry r e) v = rw e (resume-IsKept s co entry v r)
step-IsKept {s} (yields co mem ctx r le small e) v = rw e (yielded-IsKept s co mem ctx r le small v)
step-IsKept {s} (returns co mem r e) v = rw e (recycled-IsKept s co mem r v)

Reach-IsKept :
    (top : ℕ) (mem : ℕ → ℕ) (memory : ℕ → ℕ → ℕ) (s : Share)
    → Reach (start top mem memory) s
    → IsKept s
Reach-IsKept top mem memory s here = record {
  held = λ co c n e. absurd (cc);
  owns = λ co e. absurd (cc);
  fresh = λ e. refl;
  begun = λ co e. absurd (cc);
  unused = λ e co. refl;
}
Reach-IsKept top mem memory s (next {t} r st) = step-IsKept st (Reach-IsKept top mem memory t r)

resume_at-frame :
    (s : Share) (co ctx entry j : ℕ)
    → IsKept s
    → s.running ≡ none
    → (s.fibers co).ctx ≡ some ctx
    → ctx ≤ j
    → j < s.top
    → (resume_at s co entry (some ctx)).mem j ≡ s.frame co j
unfolding resume_at
resume_at-frame s co ctx entry j v r e p q =
    let (a, b, h) = v.held co ctx (ground arith) e in
    elim (Bool-cases s.made) [
      | inl m ↦ ground (arith, h j p q)
      | inr n ↦ absurd (ground (arith, v.unused n co))
    ]

-- However coroutines share a stack, as long as each, when it yields, has less than 4000 bytes on it,
-- one that is resumed finds there all the bytes that it left, from its context to the top.
pub resume_restores :
    (top : ℕ) (mem : ℕ → ℕ) (memory : ℕ → ℕ → ℕ) (s : Share)
    → Reach (start top mem memory) s
    → s.running ≡ none
    → (co ctx entry j : ℕ) → (s.fibers co).ctx ≡ some ctx
    → ctx ≤ j
    → j < s.top
    → (resume s co entry).mem j ≡ s.frame co j
unfolding resume
resume_restores top mem memory s reach r co ctx entry j e p q =
    rw e (resume_at-frame s co ctx entry j (Reach-IsKept top mem memory s reach) r e p q)
