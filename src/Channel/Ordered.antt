-- ===== src/Channel/Ordered.antt =====
-- The invariant of a channel of src/channel.cc whose waits may run out of time, and that `Read` and
-- `Write` preserve it.
use mathlib.Core.List.Sublist
use mathlib.Core.List.{Sublist}
use tit_co.Base.{
  ℕ, ◌<◌, ◌≡◌, refl, sym, ap, subst, ◌∙◌, List, [], ◌∷◌, ◌++◌, append_assoc, append-nil, All, arith,
}
use tit_co.CoState.{k_init}
use tit_co.Channel.View.{Shape, IsValid, view, readers}
use tit_co.Channel.Writes.{Wrote, queued, served}
use tit_co.Channel.Taken.{Reads, took, waited}
use tit_co.Channel.{Channel, read, write, timer_of}
use tit_co.Channel.History.{writes, reads, History, step, write-Frame, read-Frame}
use tit_co.Channel.Answers.{Settled, no_readers, readers-All, some_block}
use tit_co.Channel.Log.{Log, Log-Frame, Log-settled, Log-waiting, Log-served}

-- The calls of `Read` have returned the blocks `given`; these and the blocks in the channel are a
-- part of those that were written, in their order.
pub record IsOrdered (g : Shape) (h : History) : Type 0 where
  pub valid : IsValid g h.channel
  pub given : List (List ℕ)
  pub log : Log h.channel h.reads given (readers g h.channel)
  pub part : Sublist (given ++ view g h.channel) h.written

module _ (g : Shape) (h : History) (f : IsOrdered g h) (block : List ℕ) (co : ℕ) where
  abbrev c : Channel
  c = h.channel

  abbrev c' : Channel
  c' = (write c co k_init block).0

  kept : Log c' h.reads f.given (readers g c)
  kept = Log-Frame c c' (write-Frame c co block) h.reads f.given (readers g c) f.log

  behind : Sublist ((f.given ++ view g c) ++ block ∷ []) (h.written ++ block ∷ [])
  behind = Sublist.append f.part (Sublist.refl (block ∷ []))

  pub written-IsOrdered :
      (g' : Shape)
      → IsValid g' c'
      → Wrote g c block g' c' (write c co k_init block).1
      → IsOrdered g' (step h (writes co k_init block))
  unfolding step
  written-IsOrdered g' v (queued r seen o) =
      let r' = no_readers g' c' v (λ e. some_block (view g c) block (sym seen ∙ e)) in
      record {
        valid = v;
        given = f.given;
        log = subst (Log c' h.reads f.given) (r ∙ sym r') kept;
        part =
            subst (λ l. Sublist l (h.written ++ block ∷ []))
              (append_assoc f.given (view g c) (block ∷ []) ∙ ap (λ bs. f.given ++ bs) (sym seen))
              behind;
      }
  written-IsOrdered g' v (served w rest r r' n n' cell state o) =
      let known =
        subst (All (λ x. (x < c.fresh) × ((c.ctxs x).state ≡ k_init))) r
          (readers-All g c f.valid) in
      let frame = write-Frame c co block in
      record {
        valid = v;
        given = f.given ++ block ∷ [];
        log = subst (Log c' h.reads (f.given ++ block ∷ [])) (sym r') (
            Log-served c' h.reads f.given w rest block (subst (Log c' h.reads f.given) r kept)
              (λ timer. (omega (arith, frame.fresh, known.0.0), state, cell)));
        part =
            subst (λ l. Sublist l (h.written ++ block ∷ []))
              (ap (λ bs. (f.given ++ bs) ++ block ∷ []) n
                ∙ ap (λ bs. bs ++ block ∷ []) (append-nil f.given)
                ∙ sym (append-nil (f.given ++ block ∷ []))
                ∙ ap (λ bs. (f.given ++ block ∷ []) ++ bs) (sym n'))
              behind;
      }

module _ (g : Shape) (h : History) (f : IsOrdered g h) (co : ℕ) where
  abbrev d : Channel
  d = h.channel

  abbrev d' : Channel
  d' = (read d co k_init).0

  held : Log d' h.reads f.given (readers g d)
  held = Log-Frame d d' (read-Frame d co) h.reads f.given (readers g d) f.log

  pub read-IsOrdered :
      (g' : Shape)
      → IsValid g' d'
      → Reads g d g' d' (read d co k_init).1
      → IsOrdered g' (step h (reads co k_init))
  unfolding step
  read-IsOrdered g' v (took block rest e e' r' o) =
      let r = no_readers g d f.valid (λ n. absurd (cc)) in
      record {
        valid = v;
        given = f.given ++ block ∷ [];
        log = subst (Log d' _ _) (sym r') (
            Log-settled d' h.reads f.given (read d co k_init).1 block
              (subst (Log d' h.reads f.given) r held)
              (subst (λ x. Settled d' x block) (sym o) refl));
        part =
            subst (λ l. Sublist l h.written)
              (ap (λ bs. f.given ++ bs) (e ∙ ap (λ bs. block ∷ bs) (sym e'))
                ∙ sym (append_assoc f.given (block ∷ []) (view g' d')))
              f.part;
      }
  read-IsOrdered g' v (waited n n' r' o) = record {
    valid = v;
    given = f.given;
    log =
        subst (λ x. Log d' (h.reads ++ x ∷ []) f.given (readers g' d')) (sym o)
          (subst (Log d' _ f.given) (sym r')
            (Log-waiting d' h.reads f.given (readers g d) d.fresh (timer_of d.ms) held));
    part = subst (λ bs. Sublist (f.given ++ bs) h.written) (n ∙ sym n') f.part;
  }
