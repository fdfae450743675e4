-- ===== src/Stack/Tests.antt =====
-- Two coroutines on one stack of 100 bytes: 1 yields with 40 bytes, 2 with 30.
use tit_co.Base.{◌+◌, ◌≡◌, refl, arith}
use tit_co.Stack.{
  append, Share, save_stack, moved, resume_at, resume, yielded, resumes, yields, Reach, here, next,
  start,
}
use tit_co.Stack.Kept.{resume_restores}

abbrev empty : Share
empty = start 100 (λ j. 0) (λ i j. 9)

abbrev one : Share
one = yielded (resume empty 1 99) 1 (λ j. j + 1) 60

abbrev two : Share
two = yielded (resume one 2 99) 2 (λ j. 7) 70

two-Reach : Reach empty two
unfolding resume resume_at moved save_stack yielded
two-Reach =
    next
      (next
        (next (next here (resumes 1 99 refl refl))
          (yields 1 (λ j. j + 1) 60 refl (omega arith) (omega arith) refl))
        (resumes 2 99 refl refl))
      (yields 2 (λ j. 7) 70 refl (omega arith) (omega arith) refl)

resume_restores_example : (resume two 1 99).mem 65 ≡ two.frame 1 65
unfolding resume resume_at moved save_stack yielded
resume_restores_example =
    resume_restores 100 (λ j. 0) (λ i j. 9) two two-Reach refl 1 60 99 65 refl (omega arith)
      (omega arith)

restored : (resume two 1 99).mem 65 ≡ 66
unfolding resume resume_at moved save_stack yielded append
restored = refl
