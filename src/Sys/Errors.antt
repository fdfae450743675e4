-- ===== src/Sys/Errors.antt =====
-- include/co_error.h: `stderror`, the name of an error of the system, by the numbers that Linux
-- gives them.
use tit_co.Base.{
  ℕ, ◌≡◌, ◌≢◌, refl, sym, ap, subst, ◌∙◌, Bool, true, false, ◌==◌, ◌&&◌, ◌⊎◌, inl, inr,
  if◌then◌else◌, Option, some, none, List, [], ◌∷◌, All, arith,
}
use tit_co.Text.Digits.{Bytes, codes}

-- The tests `errno == …` with what they return, in the source's order.
abbrev pub names : List (ℕ × Bytes)
names =
    (11, codes "EAGAIN")
    ∷ (11, codes "EWOULDBLOCK")
    ∷ (9, codes "EBADF")
    ∷ (89, codes "EDESTADDRREQ")
    ∷ (122, codes "EDQUOT")
    ∷ (14, codes "EFAULT")
    ∷ (27, codes "EFBIG")
    ∷ (4, codes "EINTR")
    ∷ (22, codes "EINVAL")
    ∷ (5, codes "EIO")
    ∷ (28, codes "ENOSPC")
    ∷ (1, codes "EPERM")
    ∷ (32, codes "EPIPE")
    ∷ []

unfoldable pub name_in : ℕ → List (ℕ × Bytes) → Bytes
name_in errno [] = codes "unknown error"
name_in errno ((number, name) ∷ more) =
    let rest = name_in errno more in if errno == number then name else rest

abbrev pub stderror : ℕ → Bytes
unfolding name_in
stderror errno = name_in errno names

abbrev same : Bytes → Bytes → Bool
same [] [] = true
same [] (b ∷ bs) = false
same (a ∷ as_) [] = false
same (a ∷ as_) (b ∷ bs) = let rest = same as_ bs in a == b && rest

-- The number of the first test that gives a name.
unfoldable number_in : Bytes → List (ℕ × Bytes) → Option ℕ
number_in name [] = none
number_in name ((number, other) ∷ more) =
    let rest = number_in name more in if same name other then some number else rest

-- A name of a list tells its number, by all the tests.
abbrev Tells : ℕ × Bytes → Type 0
Tells (number, name) = number_in name names ≡ some number

names-Tells : All Tells names
unfolding number_in
names-Tells = ground arith

abbrev IsNamed : ℕ → Bytes → Type 0
IsNamed errno name = (name ≡ codes "unknown error") ⊎ (number_in name names ≡ some errno)

found : (errno : ℕ) (ns : List (ℕ × Bytes)) → All Tells ns → IsNamed errno (name_in errno ns)
unfolding name_in
found errno [] h = inl refl
found errno ((number, name) ∷ more) (h, hs) = by_test (errno == number) refl (found errno more hs)
  where
    by_test :
        (b : Bool)
        → errno == number ≡ b
        → IsNamed errno (name_in errno more)
        → IsNamed errno (if b then name else name_in errno more)
    by_test true e later = inr (ground (arith, e, h))
    by_test false e later = later

-- Different errors that have a name have different names; those of `EAGAIN` and `EWOULDBLOCK`, which
-- are one number, are both "EAGAIN".
pub names_apart :
    (e f : ℕ) → stderror e ≡ stderror f → (e ≡ f) ⊎ (stderror e ≡ codes "unknown error")
unfolding stderror
names_apart e f h = elim (found e names names-Tells) [
  | inl u ↦ inr u
  | inr a ↦ elim (found f names names-Tells) [
    | inl u ↦ inr (h ∙ u)
    | inr b ↦ inl (ground (arith, sym a ∙ ap (λ n. number_in n names) h ∙ b))
  ]
]

-- No error is named "EWOULDBLOCK".
pub never_named : (e : ℕ) → stderror e ≢ codes "EWOULDBLOCK"
unfolding stderror number_in
never_named e h = elim (found e names names-Tells) [
  | inl u ↦ ground (arith, sym u ∙ h)
  | inr a ↦
      let eleven : e ≡ 11 = ground (arith, sym a ∙ ap (λ n. number_in n names) h) in
      ground (arith, subst (λ n. name_in n names ≡ codes "EWOULDBLOCK") eleven h)
]
