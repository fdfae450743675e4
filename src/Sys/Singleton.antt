-- ===== src/Sys/Singleton.antt =====
-- include/base/singleton.h: one object for all threads. `pthread_once` lets the first thread run
-- `init` and holds the others until it has returned; `atexit` runs `destroy` at the end.
use tit_co.Base.{
  ℕ, suc, ◌+◌, ◌≤◌, ◌≡◌, ◌⊎◌, inl, inr, refl, Bool, true, false, if◌then◌else◌, Option, none, some,
  List, [], ◌∷◌, All, arith,
}

-- `ponce_`, with the thread that is in `init`.
pub data Once : Type 0 where
  fresh : Once
  running : ℕ → Once
  finished : Once

-- `value_` is the number of an object; `built` counts them, `at_exit` the registrations, `given` is
-- what the calls of `instance` have returned, `none` where the assertion fails.
pub record Singleton : Type 0 where
  pub ponce : Once
  pub value : Option ℕ
  pub built : ℕ
  pub at_exit : ℕ
  pub destroyed : Bool
  pub given : List (Option ℕ)

abbrev pub start : Singleton
start = record {
  ponce = fresh;
  value = none;
  built = 0;
  at_exit = 0;
  destroyed = false;
  given = [];
}

-- `init`, for a class that has a member `no_destroy` or not.
unfoldable pub init : Bool → Singleton → Singleton
init no_destroy s = record s {
  value = some s.built;
  built = suc s.built;
  at_exit = if no_destroy then s.at_exit else suc s.at_exit;
}

unfoldable pub destroy : Singleton → Singleton
destroy s = record s { value = none; destroyed = true }

-- A thread enters `init`, returns from it, or comes past `pthread_once` and returns; the process
-- runs a registration.
pub data Step (no_destroy : Bool) : Singleton → Singleton → Type 0 where
  enters :
      {s : Singleton} (t : ℕ) → s.ponce ≡ fresh → Step no_destroy s (record s { ponce = running t })
  inits :
      {s : Singleton} (t : ℕ)
      → s.ponce ≡ running t
      → Step no_destroy s (record (init no_destroy s) { ponce = finished })
  gives :
      {s : Singleton}
      → s.ponce ≡ finished
      → Step no_destroy s (record s { given = s.value ∷ s.given })
  exits :
      {s : Singleton} (k : ℕ)
      → s.at_exit ≡ suc k
      → Step no_destroy s (record (destroy s) { at_exit = k })

pub data Reach (no_destroy : Bool) : Singleton → Type 0 where
  here : Reach no_destroy start
  next : {s t : Singleton} → Reach no_destroy s → Step no_destroy s t → Reach no_destroy t

abbrev made : Once → ℕ
made fresh = 0
made (running t) = 0
made finished = 1

abbrev kept : Once → Option ℕ
kept finished = some 0
kept _ = none

-- An answer is the one object, unless that has been destroyed.
abbrev pub IsGood : Bool → Option ℕ → Type 0
IsGood d g = (g ≡ some 0) ⊎ (d ≡ true)

record IsSingle (no_destroy : Bool) (s : Singleton) : Type 0 where
  once : s.built ≡ made s.ponce
  exits : s.at_exit + (if s.destroyed then 1 else 0) ≤ (if no_destroy then 0 else made s.ponce)
  value : s.destroyed ≡ false → s.value ≡ kept s.ponce
  good : All (IsGood s.destroyed) s.given

All-weaken : (d : Bool) (gs : List (Option ℕ)) → All (IsGood d) gs → All (IsGood true) gs
All-weaken d [] h = tt
All-weaken d (g ∷ gs) (h, hs) = (inr refl, All-weaken d gs hs)

given-IsGood : (d : Bool) (v : Option ℕ) → (d ≡ false → v ≡ some 0) → IsGood d v
given-IsGood true v h = inr refl
given-IsGood false v h = inl (h refl)

Step-IsSingle : {nd : Bool} {s t : Singleton} → Step nd s t → IsSingle nd s → IsSingle nd t
unfolding init destroy
Step-IsSingle (enters {s} t e) v = record {
  once = ground (arith, e, v.once);
  exits = ground (arith, e, v.exits);
  value = λ h. ground (arith, e, v.value h);
  good = v.good;
}
Step-IsSingle (inits {s} t e) v = record {
  once = ground (arith, e, v.once);
  exits = ground (arith, e, v.exits);
  value = λ h. ground (arith, e, v.once);
  good = v.good;
}
Step-IsSingle (gives {s} e) v = record {
  once = v.once;
  exits = v.exits;
  value = v.value;
  good = (given-IsGood s.destroyed s.value (λ h. ground (arith, e, v.value h)), v.good);
}
Step-IsSingle (exits {s} k e) v = record {
  once = v.once;
  exits = ground (arith, e, v.exits);
  value = λ h. absurd (cc);
  good = All-weaken s.destroyed s.given v.good;
}

Reach-IsSingle : {nd : Bool} {s : Singleton} → Reach nd s → IsSingle nd s
Reach-IsSingle here = record { once = refl; exits = ground arith; value = λ h. refl; good = tt }
Reach-IsSingle (next r st) = Step-IsSingle st (Reach-IsSingle r)

-- However threads call `instance` and the process exits, one object is built at most, it is
-- registered to be destroyed or has been destroyed once at most, and not at all if its class says
-- `no_destroy`; and while it has not been destroyed, every call has returned that object.
pub one_object :
    (no_destroy : Bool) (s : Singleton)
    → Reach no_destroy s
    → (s.built ≤ 1)
      × (s.at_exit + (if s.destroyed then 1 else 0) ≤ (if no_destroy then 0 else 1))
      × All (IsGood s.destroyed) s.given
one_object no_destroy s r =
    let v = Reach-IsSingle r in
    (few s.ponce s.built v.once, registered no_destroy s.ponce _ v.exits, v.good)
  where
    few : (o : Once) (n : ℕ) → n ≡ made o → n ≤ 1
    few fresh n e = omega (arith, e)
    few (running t) n e = omega (arith, e)
    few finished n e = omega (arith, e)

    registered :
        (nd : Bool) (o : Once) (n : ℕ) → n ≤ (if nd then 0 else made o) → n ≤ (if nd then 0 else 1)
    registered true o n h = h
    registered false fresh n h = omega (arith, h)
    registered false (running t) n h = omega (arith, h)
    registered false finished n h = h
