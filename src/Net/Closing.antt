-- ===== src/Net/Closing.antt =====
-- The descriptor of a socket object, from `Init` to the destructor: what is called on it, and when
-- it is given back.
use tit_co.Base.{
  ℕ, Bool, true, false, ◌||◌, ◌==◌, if◌then◌else◌, ◌≡◌, refl, sym, subst, ◌∙◌, Option, none, some,
  List, [], ◌∷◌, ◌++◌, All, arith,
}
use tit_co.Base.Int.{ℤ, pos, negsuc}
use tit_co.Net.Address.{Family, Address}
use tit_co.Net.Socket.{
  Socket, new, Names, Call, opens, reuses, reads, writes, binds, listens, accepts, connects, closes,
  resets, Outcome, init, create_socket, recv, send, close, reset, bind, listen, accept, connect,
  release, k_invalid_fd, named,
}

-- The operations with the answers of the calls that they make.
pub data Op : Type 0 where
  does_init does_create : ℤ → Op
  does_recv does_send does_close does_reset does_listen : ℤ → Op
  does_bind : ℤ → ℤ → Op
  does_accept : ℤ → Op
  does_connect : Names → ℤ → ℤ → Op

module _ {A : Type 0} where
  abbrev effect : Outcome A → Option (Socket × List Call)
  effect none = none
  effect (some (s, calls, a)) = some (s, calls)

unfoldable pub step : Names → Socket → Op → Option (Socket × List Call)
unfolding init create_socket recv send close reset bind listen accept connect
step names s (does_init fd) = some (init names s fd)
step names s (does_create fd) = some (create_socket names s fd)
step names s (does_recv answer) = effect (recv s answer)
step names s (does_send answer) = effect (send s answer)
step names s (does_close answer) = effect (close s answer)
step names s (does_reset answer) = effect (reset s answer)
step names s (does_listen answer) = effect (listen s answer)
step names s (does_bind fd answer) = effect (bind names s fd answer)
step names s (does_accept answer) = effect (accept names s answer)
step names s (does_connect after fd answer) = effect (connect names after s fd answer)

abbrev prepend : List Call → Option (List Call) → Option (List Call)
prepend calls none = none
prepend calls (some more) = some (calls ++ more)

-- All calls of a socket object that goes through the operations and is then destroyed.
unfoldable pub lifetime : Names → Socket → List Op → Option (List Call)
unfolding step release
lifetime names s [] = some (release s.conn)
lifetime names s (op ∷ ops) = elim (step names s op) [
  | none ↦ none
  | some (next, calls) ↦ prepend calls (lifetime names next ops)
]

-- Whether the descriptor `d` has been given back when the calls are over; `none` where it is given
-- back twice, or another one is, or where it is read or written after that.
abbrev is_fd : ℕ → ℤ → Bool
is_fd d (pos n) = n == d
is_fd d (negsuc n) = false

pub given_back : ℕ → Bool → List Call → Option Bool
given_back d ended [] = some ended
given_back d ended (closes fd ∷ cs) =
    let rest = given_back d true cs in if is_fd d fd then (if ended then none else rest) else none
given_back d ended (resets fd ∷ cs) =
    let rest = given_back d true cs in if is_fd d fd then (if ended then none else rest) else none
given_back d ended (reads fd ∷ cs) =
    let rest = given_back d ended cs in if is_fd d fd then (if ended then none else rest) else rest
given_back d ended (writes fd ∷ cs) =
    let rest = given_back d ended cs in if is_fd d fd then (if ended then none else rest) else rest
given_back d ended (opens ∷ cs) = given_back d ended cs
given_back d ended (reuses fd ∷ cs) = given_back d ended cs
given_back d ended (binds fd ∷ cs) = given_back d ended cs
given_back d ended (listens fd ∷ cs) = given_back d ended cs
given_back d ended (accepts fd ∷ cs) = given_back d ended cs
given_back d ended (connects fd ∷ cs) = given_back d ended cs

-- A `Recv`, `Send` or `Reset` after a `Close`.
pub misused : Bool → List Op → Bool
misused shut [] = false
misused shut (does_init fd ∷ ops) = misused shut ops
misused shut (does_create fd ∷ ops) = misused shut ops
misused shut (does_recv answer ∷ ops) = shut || misused shut ops
misused shut (does_send answer ∷ ops) = shut || misused shut ops
misused shut (does_reset answer ∷ ops) = shut || misused shut ops
misused shut (does_close answer ∷ ops) = misused true ops
misused shut (does_listen answer ∷ ops) = misused shut ops
misused shut (does_bind fd answer ∷ ops) = misused shut ops
misused shut (does_accept answer ∷ ops) = misused shut ops
misused shut (does_connect after fd answer ∷ ops) = misused shut ops

-- An operation other than `Init` and `CreateSocket`, which give the object another descriptor.
abbrev pub IsPlain : Op → Type 0
IsPlain (does_init fd) = ⊥
IsPlain (does_create fd) = ⊥
IsPlain _ = Unit

-- The outcome of a lifetime: a failed CHECK, or calls that give the descriptor back.
abbrev pub IsAccounted : ℕ → Bool → Bool → Option (List Call) → Type 0
IsAccounted d ended misuse none = misuse ≡ true
IsAccounted d ended misuse (some calls) = (misuse ≡ false) × (given_back d ended calls ≡ some true)

-- The three states of a socket with a descriptor.
data Phase : Type 0 where
  live was_reset was_closed : Phase

abbrev ended_at : Phase → Bool
ended_at live = false
ended_at was_reset = true
ended_at was_closed = true

abbrev shut_at : Phase → Bool
shut_at was_closed = true
shut_at _ = false

abbrev conn_at : ℕ → Phase → ℤ
conn_at d live = pos d
conn_at d _ = k_invalid_fd

module _ (names : Names) (d : ℕ) (family : Family) (l r : Address) where
  abbrev at : Phase → Socket
  at p = record {
    fd = pos d;
    family = family;
    conn = some (conn_at d p);
    connected = elim p [ was_closed ↦ false | _ ↦ true ];
    local_addr = some l;
    remote_addr = some r;
  }

  prepend-IsAccounted :
      (cs : List Call) (e e' m : Bool) (later : Option (List Call))
      → ((rest : List Call) → given_back d e (cs ++ rest) ≡ given_back d e' rest)
      → IsAccounted d e' m later
      → IsAccounted d e m (prepend cs later)
  prepend-IsAccounted cs e e' m none skip h = h
  prepend-IsAccounted cs e e' m (some rest) skip (h, k) = (h, skip rest ∙ k)

  -- What the calls of each operation do to the count.
  skip_io :
      (rest : List Call)
      → (given_back d false (reads (pos d) ∷ rest) ≡ given_back d false rest)
        × (given_back d false (writes (pos d) ∷ rest) ≡ given_back d false rest)
  unfolding given_back
  skip_io rest = ground arith

  count_end :
      (rest : List Call)
      → (given_back d false (closes (pos d) ∷ rest) ≡ given_back d true rest)
        × (given_back d false (resets (pos d) ∷ rest) ≡ given_back d true rest)
  unfolding given_back
  count_end rest = ground arith

  skip_client :
      (e : Bool) (answer : ℤ) (rest : List Call)
      → given_back d e (accepts (pos d) ∷ (init names (new family) answer).1 ++ rest)
        ≡ given_back d e rest
  unfolding given_back init new release
  skip_client e (pos n) rest = refl
  skip_client e (negsuc n) rest = ground arith

  connect_lem :
      (p : Phase) (after : Names) (fd answer : ℤ) (ops : List Op)
      → lifetime names (at p) (does_connect after fd answer ∷ ops)
        ≡ prepend (connects (pos d) ∷ []) (lifetime names (at p) ops)
  unfolding lifetime
  connect_lem p after fd (pos n) ops = ground arith
  connect_lem p after fd (negsuc n) ops = refl

  lifetime-IsAccounted :
      (p : Phase) (ops : List Op)
      → All IsPlain ops
      → IsAccounted d (ended_at p) (misused (shut_at p) ops) (lifetime names (at p) ops)
  unfolding lifetime misused given_back
  lifetime-IsAccounted live [] plain = ground arith
  lifetime-IsAccounted was_reset [] plain = (refl, refl)
  lifetime-IsAccounted was_closed [] plain = (refl, refl)
  lifetime-IsAccounted p (does_init fd ∷ ops) (plain, more) = absurd plain
  lifetime-IsAccounted p (does_create fd ∷ ops) (plain, more) = absurd plain
  lifetime-IsAccounted p (does_listen answer ∷ ops) (plain, more) =
      prepend-IsAccounted (listens (pos d) ∷ []) (ended_at p) (ended_at p) _ _ (λ rest. refl)
        (lifetime-IsAccounted p ops more)
  lifetime-IsAccounted p (does_bind fd answer ∷ ops) (plain, more) =
      prepend-IsAccounted (binds (pos d) ∷ []) (ended_at p) (ended_at p) _ _ (λ rest. refl)
        (lifetime-IsAccounted p ops more)
  lifetime-IsAccounted p (does_accept answer ∷ ops) (plain, more) =
      prepend-IsAccounted (accepts (pos d) ∷ (init names (new family) answer).1) (ended_at p)
        (ended_at p) _ _ (skip_client (ended_at p) answer) (lifetime-IsAccounted p ops more)
  lifetime-IsAccounted p (does_connect after fd answer ∷ ops) (plain, more) =
      subst (IsAccounted d (ended_at p) (misused (shut_at p) ops))
        (sym (connect_lem p after fd answer ops))
        (prepend-IsAccounted (connects (pos d) ∷ []) (ended_at p) (ended_at p) _ _ (λ rest. refl)
          (lifetime-IsAccounted p ops more))
  lifetime-IsAccounted live (does_recv answer ∷ ops) (plain, more) =
      prepend-IsAccounted (reads (pos d) ∷ []) false false _ _ (λ rest. (skip_io rest).0)
        (lifetime-IsAccounted live ops more)
  lifetime-IsAccounted live (does_send answer ∷ ops) (plain, more) =
      prepend-IsAccounted (writes (pos d) ∷ []) false false _ _ (λ rest. (skip_io rest).1)
        (lifetime-IsAccounted live ops more)
  lifetime-IsAccounted live (does_close answer ∷ ops) (plain, more) =
      prepend-IsAccounted (closes (pos d) ∷ []) false true _ _ (λ rest. (count_end rest).0)
        (lifetime-IsAccounted was_closed ops more)
  lifetime-IsAccounted live (does_reset answer ∷ ops) (plain, more) =
      prepend-IsAccounted (resets (pos d) ∷ []) false true _ _ (λ rest. (count_end rest).1)
        (lifetime-IsAccounted was_reset ops more)
  lifetime-IsAccounted was_reset (does_recv answer ∷ ops) (plain, more) =
      prepend-IsAccounted (reads k_invalid_fd ∷ []) true true _ _ (λ rest. refl)
        (lifetime-IsAccounted was_reset ops more)
  lifetime-IsAccounted was_reset (does_send answer ∷ ops) (plain, more) =
      prepend-IsAccounted (writes k_invalid_fd ∷ []) true true _ _ (λ rest. refl)
        (lifetime-IsAccounted was_reset ops more)
  lifetime-IsAccounted was_reset (does_close answer ∷ ops) (plain, more) =
      prepend-IsAccounted [] true true _ _ (λ rest. refl) (lifetime-IsAccounted was_closed ops more)
  lifetime-IsAccounted was_reset (does_reset answer ∷ ops) (plain, more) =
      prepend-IsAccounted [] true true _ _ (λ rest. refl) (lifetime-IsAccounted was_reset ops more)
  lifetime-IsAccounted was_closed (does_recv answer ∷ ops) (plain, more) = refl
  lifetime-IsAccounted was_closed (does_send answer ∷ ops) (plain, more) = refl
  lifetime-IsAccounted was_closed (does_reset answer ∷ ops) (plain, more) = refl
  lifetime-IsAccounted was_closed (does_close answer ∷ ops) (plain, more) =
      prepend-IsAccounted [] true true _ _ (λ rest. refl) (lifetime-IsAccounted was_closed ops more)

-- A socket that `Init` gives a descriptor gives it back exactly once, by `Close`, `Reset` or the
-- destructor, whatever operations come in between other than another `Init` or `CreateSocket`, and
-- whatever the system answers: it closes no
-- other descriptor, and reads and writes this one only before. A CHECK fails, and ends the process,
-- exactly if a `Recv`, `Send` or `Reset` comes after a `Close`.
pub closed_once :
    (names : Names) (family : Family) (d : ℕ) (ops : List Op)
    → All IsPlain ops
    → IsAccounted d false
        (misused false ops)
        (lifetime names (init names (new family) (pos d)).0 ops)
unfolding init new
closed_once names family d ops plain =
    lifetime-IsAccounted names d family (named names (init names (new family) (pos d)).0)
      (named names (init names (new family) (pos d)).0) live ops plain

-- A socket that is connected to a server: its local and its remote address are the same, namely
-- what `getsockname` said before the connection was made, whatever it says afterwards.
pub connect_addresses :
    (names after : Names) (family : Family) (d : ℕ)
    → let named_before = some (named names (record (new family) { fd = pos d })) in
      (s : Socket) × (calls : List Call) × (connect names after (new family) (pos d) (pos 0)
        ≡ some (s, calls, true))
      × (s.local_addr ≡ named_before)
      × (s.remote_addr ≡ named_before)
unfolding connect new
connect_addresses names after family d = (_, _, refl, refl, refl)

-- `Close` leaves the number of the descriptor in the socket, which stays valid: a `Connect` after
-- it makes no new descriptor and works on the one that was given back, and so does a `Bind`.
pub reconnect_stale :
    (names after : Names) (family : Family) (d : ℕ) (fd a b c : ℤ)
    → lifetime names
        (init names (new family) (pos d)).0
        (does_close a ∷ does_bind fd b ∷ does_connect after fd c ∷ [])
      ≡ some (closes (pos d) ∷ binds (pos d) ∷ connects (pos d) ∷ [])
unfolding lifetime init new
reconnect_stale names after family d fd a b (pos n) = ground arith
reconnect_stale names after family d fd a b (negsuc n) = refl

-- `Init` a second time: with the descriptor that the socket has, it closes it, and the destructor
-- closes it again; with another, the one that the socket had is closed at once.
pub init_again :
    (names : Names) (family : Family) (d e : ℕ)
    → (lifetime names (init names (new family) (pos d)).0 (does_init (pos e) ∷ [])
        ≡ some (reuses (pos e) ∷ closes (pos d) ∷ closes (pos e) ∷ []))
      × (given_back d false (reuses (pos d) ∷ closes (pos d) ∷ closes (pos d) ∷ []) ≡ none)
unfolding lifetime init new given_back release
init_again names family d e = (refl, ground arith)
