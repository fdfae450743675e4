-- ===== src/Net/Address.antt =====
-- include/net/address.h and include/byte_order.h on a little-endian machine: ports and network
-- byte order.
use tit_co.Base.{
  ℕ, ◌+◌, ◌*◌, ◌/◌, ◌%◌, ◌^◌, ◌<◌, ◌≡◌, zero, suc, ap₂, ◌∙◌, List, [], ◌∷◌, ◌++◌, reverse,
  reverse-append, sym, ap, Option, none, some, arith,
}

-- `hton16`, `hton32` and `hton64` exchange the bytes of a word; `ntoh16`, … are the same functions.
unfoldable pub hton16 : ℕ → ℕ
hton16 v = v % 2 ^ 8 * 2 ^ 8 + v / 2 ^ 8 % 2 ^ 8

unfoldable pub hton32 : ℕ → ℕ
unfolding hton16
hton32 v = hton16 (v % 2 ^ 16) * 2 ^ 16 + hton16 (v / 2 ^ 16)

unfoldable pub hton64 : ℕ → ℕ
unfolding hton32
hton64 v = hton32 (v % 2 ^ 32) * 2 ^ 32 + hton32 (v / 2 ^ 32)

unfoldable pub ntoh16 : ℕ → ℕ
ntoh16 v = v % 2 ^ 8 * 2 ^ 8 + v / 2 ^ 8 % 2 ^ 8

unfoldable pub ntoh32 : ℕ → ℕ
unfolding ntoh16
ntoh32 v = ntoh16 (v % 2 ^ 16) * 2 ^ 16 + ntoh16 (v / 2 ^ 16)

unfoldable pub ntoh64 : ℕ → ℕ
unfolding ntoh32
ntoh64 v = ntoh32 (v % 2 ^ 32) * 2 ^ 32 + ntoh32 (v / 2 ^ 32)

pub hton16_lem : (v : ℕ) → v < 2 ^ 16 → (ntoh16 (hton16 v) ≡ v) × (hton16 v < 2 ^ 16)
unfolding hton16 ntoh16
hton16_lem v h = omega arith

hton32_lem : (v : ℕ) → v < 2 ^ 32 → (ntoh32 (hton32 v) ≡ v) × (hton32 v < 2 ^ 32)
unfolding hton32 ntoh32
hton32_lem v h =
    let (low, low_small) = hton16_lem (v % 2 ^ 16) (omega arith) in
    let (high, high_small) = hton16_lem (v / 2 ^ 16) (omega arith) in
    let word : hton32 v / 2 ^ 16 ≡ hton16 (v % 2 ^ 16) = omega arith in
    let rest : hton32 v % 2 ^ 16 ≡ hton16 (v / 2 ^ 16) = omega arith in
    (rw (word, rest, low, high) (omega arith), omega arith)

hton64_lem : (v : ℕ) → v < 2 ^ 64 → (ntoh64 (hton64 v) ≡ v) × (hton64 v < 2 ^ 64)
unfolding hton64 ntoh64
hton64_lem v h =
    let (low, low_small) = hton32_lem (v % 2 ^ 32) (omega arith) in
    let (high, high_small) = hton32_lem (v / 2 ^ 32) (omega arith) in
    let word : hton64 v / 2 ^ 32 ≡ hton32 (v % 2 ^ 32) = omega arith in
    let rest : hton64 v % 2 ^ 32 ≡ hton32 (v / 2 ^ 32) = omega arith in
    (rw (word, rest, low, high) (omega arith), omega arith)

pub data Family : Type 0 where
  k_ipv4 k_ipv6 : Family

-- `sockaddr_in` and `sockaddr_in6`: the port in network byte order, and the bytes of the host.
pub record Address : Type 0 where
  pub family : Family
  pub sin_port : ℕ
  pub host : List ℕ

-- The default constructors: a structure of zeros with its family.
unfoldable pub blank : List ℕ → Family → Address
blank zeros family = record { family = family; sin_port = 0; host = zeros }

-- The constructors from a text and a port. `inet_pton` gives `none` for a text that is no address;
-- the error is logged and the address stays.
unfoldable pub create : (Family → List ℕ → Option (List ℕ)) → List ℕ → Family → List ℕ → ℕ → Address
unfolding blank hton16
create inet_pton zeros family ip port =
    let a = record (blank zeros family) { sin_port = hton16 port } in
    elim (inet_pton family ip) [ none ↦ a | some host ↦ record a { host = host } ]

unfoldable pub port : Address → ℕ
unfolding ntoh16
port a = ntoh16 a.sin_port

unfoldable pub set_port : Address → ℕ → Address
unfolding hton16
set_port a p = record a { sin_port = hton16 p }

-- The port that an address is given is the port that it reports, after the constructor, whether or
-- not the text is an address, and after `set_port`, which keeps the family and the host.
pub port_kept :
    (inet_pton : Family → List ℕ → Option (List ℕ)) (zeros : List ℕ) (family : Family) (ip : List ℕ)
    (a : Address) (p : ℕ)
    → p < 2 ^ 16
    → (port (create inet_pton zeros family ip p) ≡ p)
      × (port (set_port a p) ≡ p)
      × ((set_port a p).family ≡ a.family)
      × ((set_port a p).host ≡ a.host)
unfolding port create blank set_port
port_kept inet_pton zeros family ip a p h = ground (arith, hton16_lem p)

-- The bytes of a word in memory, least significant first.
unfoldable pub bytes_of : ℕ → ℕ → List ℕ
bytes_of zero v = []
bytes_of (suc n) v = v % 2 ^ 8 ∷ bytes_of n (v / 2 ^ 8)

bytes16 : (v : ℕ) → bytes_of 2 (hton16 v) ≡ reverse (bytes_of 2 v)
unfolding bytes_of hton16
bytes16 v = ground arith

-- A word of twice the width is its two halves.
halves32 : (v : ℕ) → bytes_of 4 v ≡ bytes_of 2 (v % 2 ^ 16) ++ bytes_of 2 (v / 2 ^ 16)
unfolding bytes_of
halves32 v = ground arith

halves64 : (v : ℕ) → bytes_of 8 v ≡ bytes_of 4 (v % 2 ^ 32) ++ bytes_of 4 (v / 2 ^ 32)
unfolding bytes_of
halves64 v = ground arith

module _ (v : ℕ) where
  hton32_halves :
      v < 2 ^ 32
      → (hton32 v % 2 ^ 16 ≡ hton16 (v / 2 ^ 16)) × (hton32 v / 2 ^ 16 ≡ hton16 (v % 2 ^ 16))
  unfolding hton32
  hton32_halves h =
      omega (
        arith,
        (hton16_lem (v % 2 ^ 16) (omega arith)).1,
        (hton16_lem (v / 2 ^ 16) (omega arith)).1,
      )

  hton64_halves :
      v < 2 ^ 64
      → (hton64 v % 2 ^ 32 ≡ hton32 (v / 2 ^ 32)) × (hton64 v / 2 ^ 32 ≡ hton32 (v % 2 ^ 32))
  unfolding hton64
  hton64_halves h =
      omega (
        arith,
        (hton32_lem (v % 2 ^ 32) (omega arith)).1,
        (hton32_lem (v / 2 ^ 32) (omega arith)).1,
      )

  bytes32 : v < 2 ^ 32 → bytes_of 4 (hton32 v) ≡ reverse (bytes_of 4 v)
  bytes32 h =
      let (rest, word) = hton32_halves h in
      halves32 (hton32 v)
      ∙ ap₂ (λ a b. bytes_of 2 a ++ bytes_of 2 b) rest word
      ∙ ap₂ (λ a b. a ++ b) (bytes16 (v / 2 ^ 16)) (bytes16 (v % 2 ^ 16))
      ∙ sym (
          ap reverse (halves32 v)
          ∙ reverse-append (bytes_of 2 (v % 2 ^ 16)) (bytes_of 2 (v / 2 ^ 16)))

bytes64 : (v : ℕ) → v < 2 ^ 64 → bytes_of 8 (hton64 v) ≡ reverse (bytes_of 8 v)
bytes64 v h =
    let (rest, word) = hton64_halves v h in
    halves64 (hton64 v)
    ∙ ap₂ (λ a b. bytes_of 4 a ++ bytes_of 4 b) rest word
    ∙ ap₂ (λ a b. a ++ b) (bytes32 (v / 2 ^ 32) (omega arith)) (bytes32 (v % 2 ^ 32) (omega arith))
    ∙ sym (
        ap reverse (halves64 v)
        ∙ reverse-append (bytes_of 4 (v % 2 ^ 32)) (bytes_of 4 (v / 2 ^ 32)))

-- In memory a word in network byte order has its most significant byte first, for words of 16, 32
-- and 64 bits, and the conversion back returns the word.
pub network_order :
    (short word long : ℕ)
    → short < 2 ^ 16
    → word < 2 ^ 32
    → long < 2 ^ 64
    → (bytes_of 2 (hton16 short) ≡ reverse (bytes_of 2 short))
      × (bytes_of 4 (hton32 word) ≡ reverse (bytes_of 4 word))
      × (bytes_of 8 (hton64 long) ≡ reverse (bytes_of 8 long))
      × (ntoh16 (hton16 short) ≡ short)
      × (ntoh32 (hton32 word) ≡ word)
      × (ntoh64 (hton64 long) ≡ long)
network_order short word long s w l = (
  bytes16 short,
  bytes32 word w,
  bytes64 long l,
  (hton16_lem short s).0,
  (hton32_lem word w).0,
  (hton64_lem long l).0,
)
