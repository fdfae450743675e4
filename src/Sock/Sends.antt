-- ===== src/Sock/Sends.antt =====
-- What `send` of src/sock.cc hands to the kernel.
use tit_co.Base.{
  ℕ, zero, suc, ◌-◌, ◌+◌, ◌≤◌, ◌<◌, ◌≡◌, refl, sym, ap, subst, ◌∙◌, inl, inr, ◌==◌, if◌then◌else◌,
  Bool, true, false, some, List, [], ◌∷◌, ◌++◌, length, take, drop, append_assoc, length-drop,
  Bool-cases, arith,
}
use tit_co.Sock.{Round, gave, blocked, interrupted, refused, ok, minus, Put, send_loop, send}

-- `::send` takes no more than it is given: `remain` at first, less after what it took.
abbrev pub Takes : ℕ → List (Round ℕ) → Type 0
Takes remain [] = Unit
Takes remain (gave r ∷ rs) =
    (r ≤ remain) × (if r == remain then Unit {0} else Takes (remain - r) rs)
Takes remain (blocked waited ∷ rs) = Takes remain rs
Takes remain (interrupted ∷ rs) = Takes remain rs
Takes remain (refused errno ∷ rs) = Takes remain rs

Takes-more :
    (remain r : ℕ) (rs : List (Round ℕ))
    → Takes remain (gave r ∷ rs)
    → (r == remain) ≡ false
    → (r < remain) × Takes (remain - r) rs
Takes-more remain r rs (f, fs) e =
    (ground arith, subst (λ (b : Bool). if b then Unit {0} else Takes (remain - r) rs) e fs)

-- All of the bytes went out, in order, or the first of them and an error.
pub data Went (bytes : List ℕ) (p : Put) : Type 0 where
  whole : p.taken ≡ bytes → p.ret ≡ ok (length bytes) → Went bytes p
  part : (left : List ℕ) → p.taken ++ left ≡ bytes → 0 < length left → p.ret ≡ minus → Went bytes p

take-drop : (r : ℕ) (s : List ℕ) → take r s ++ drop r s ≡ s
take-drop zero s = refl
take-drop (suc r) [] = refl
take-drop (suc r) (x ∷ s) = ap (λ l. x ∷ l) (take-drop r s)

take_all : (s : List ℕ) → take (length s) s ≡ s
take_all [] = refl
take_all (x ∷ s) = ap (λ l. x ∷ l) (take_all s)

send_loop-Went :
    (bytes taken s : List ℕ) (rs : List (Round ℕ)) (p : Put)
    → 0 < length s
    → Takes (length s) rs
    → taken ++ s ≡ bytes
    → send_loop (length bytes) taken s rs ≡ some p
    → Went bytes p
unfolding send_loop
send_loop-Went bytes taken s [] p pos t e h = absurd (cc)
send_loop-Went bytes taken s (gave r ∷ rs) p pos t e h = elim (Bool-cases (r == length s)) [
  | inl all ↦ whole (ground (arith, take_all s)) (ground arith)
  | inr less ↦
      let (lt, ts) = Takes-more (length s) r rs t less in
      send_loop-Went bytes (taken ++ take r s) (drop r s) rs p (ground (arith, length-drop r s))
        (subst (λ n. Takes n rs) (sym (length-drop r s)) ts)
        (append_assoc taken (take r s) (drop r s) ∙ ap (λ l. taken ++ l) (take-drop r s) ∙ e)
        (ground arith)
]
send_loop-Went bytes taken s (blocked true ∷ rs) p pos t e h =
    send_loop-Went bytes taken s rs p pos t e h
send_loop-Went bytes taken s (blocked false ∷ rs) p pos t e h =
    part s (ground arith) pos (ground arith)
send_loop-Went bytes taken s (interrupted ∷ rs) p pos t e h =
    send_loop-Went bytes taken s rs p pos t e h
send_loop-Went bytes taken s (refused errno ∷ rs) p pos t e h =
    part s (ground arith) pos (ground arith)

-- When `send` of at least one byte returns, either the kernel has taken all the bytes in order and
-- their number is returned, or it has taken some first part of them, not all, and -1 is returned.
-- (The kernel takes no more than it is given.)
pub send_lem :
    (bytes : List ℕ) (rs : List (Round ℕ)) (p : Put)
    → 0 < length bytes
    → Takes (length bytes) rs
    → send bytes rs ≡ some p
    → Went bytes p
unfolding send
send_lem bytes rs p pos t h = send_loop-Went bytes [] bytes rs p pos t refl h

-- Nothing goes wrong, and every call takes something.
abbrev pub IsOpen : List (Round ℕ) → Type 0
IsOpen [] = Unit
IsOpen (gave r ∷ rs) = (0 < r) × IsOpen rs
IsOpen (blocked waited ∷ rs) = (waited ≡ true) × IsOpen rs
IsOpen (interrupted ∷ rs) = IsOpen rs
IsOpen (refused errno ∷ rs) = ⊥

-- How much the kernel takes in all.
abbrev pub room : List (Round ℕ) → ℕ
room [] = 0
room (gave r ∷ rs) = r + room rs
room (blocked waited ∷ rs) = room rs
room (interrupted ∷ rs) = room rs
room (refused errno ∷ rs) = room rs

send_loop-returns :
    (n : ℕ) (taken s : List ℕ) (rs : List (Round ℕ))
    → 0 < length s
    → Takes (length s) rs
    → IsOpen rs
    → length s ≤ room rs
    → (p : Put) × (send_loop n taken s rs ≡ some p) × (p.ret ≡ ok n)
unfolding send_loop
send_loop-returns n taken s [] pos t o h = absurd (omega arith)
send_loop-returns n taken s (gave r ∷ rs) pos t (o, os) h = elim (Bool-cases (r == length s)) [
  | inl all ↦ (record { ret = ok n; taken = taken ++ take r s; rest = rs }, ground arith, refl)
  | inr less ↦
      let (lt, ts) = Takes-more (length s) r rs t less in
      let (p, e, q) =
        send_loop-returns n (taken ++ take r s) (drop r s) rs (ground (arith, length-drop r s))
          (subst (λ k. Takes k rs) (sym (length-drop r s)) ts) os
          (omega (arith, length-drop r s)) in
      (p, ground arith, q)
]
send_loop-returns n taken s (blocked true ∷ rs) pos t (o, os) h =
    send_loop-returns n taken s rs pos t os h
send_loop-returns n taken s (blocked false ∷ rs) pos t (o, os) h = absurd (cc)
send_loop-returns n taken s (interrupted ∷ rs) pos t o h = send_loop-returns n taken s rs pos t o h
send_loop-returns n taken s (refused errno ∷ rs) pos t o h = absurd o

pub whole_sent :
    (bytes : List ℕ) (p : Put) → Went bytes p → p.ret ≡ ok (length bytes) → p.taken ≡ bytes
whole_sent bytes p (whole e r) h = e
whole_sent bytes p (part left e n r) h = absurd (cc)

-- While the connection takes bytes, in whatever pieces and with whatever waits and signals between
-- them, `send` returns, with the number of bytes, and all of them have gone out in order.
pub send_total :
    (bytes : List ℕ) (rs : List (Round ℕ))
    → 0 < length bytes
    → Takes (length bytes) rs
    → IsOpen rs
    → length bytes ≤ room rs
    → (p : Put) × (send bytes rs ≡ some p) × (p.ret ≡ ok (length bytes)) × (p.taken ≡ bytes)
unfolding send
send_total bytes rs pos t o h =
    let (p, e, r) = send_loop-returns (length bytes) [] bytes rs pos t o h in
    (p, e, r, whole_sent bytes p (send_loop-Went bytes [] bytes rs p pos t refl e) r)
