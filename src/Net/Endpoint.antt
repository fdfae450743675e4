-- ===== src/Net/Endpoint.antt =====
-- include/sock.h and include/net/address.h: addresses from texts, and their texts. `inet_pton`,
-- `inet_ntop` and `getpeername` are parameters.
use tit_co.Base.{
  ℕ, suc, ◌-◌, ◌%◌, ◌^◌, ◌<◌, ◌≡◌, ◌≢◌, refl, ap, ap₂, sym, ◌∙◌, Bool, true, false, ◌==◌,
  if◌then◌else◌, Option, none, some, List, [], ◌∷◌, ◌++◌, All, All-reverse, reverse, arith,
}
use tit_co.Base.Int.{ℤ, pos, negsuc}
use tit_co.Text.Digits.{codes}
use tit_co.Text.Decimal.{counted, decimal, convert-eq-decimal}
use tit_co.Text.Reading.{IsDigit, counted-digits, read, read-convert}
use tit_co.Net.Address.{hton16, ntoh16, Family, k_ipv4, k_ipv6, Address, blank, port}

-- `inet_pton`, which gives `none` for a text that is no address, and `inet_ntop`: the text of an
-- address is a text of that address.
pub record Inet : Type 0 where
  pub inet_pton : Family → List ℕ → Option (List ℕ)
  pub inet_ntop : Family → List ℕ → List ℕ
  pub pton-ntop :
      (family : Family) (host : List ℕ) → inet_pton family (inet_ntop family host) ≡ some host

-- `(uint16)port`
abbrev to_uint16 : ℤ → ℕ
to_uint16 (pos n) = n % 2 ^ 16
to_uint16 (negsuc n) = 2 ^ 16 - suc (n % 2 ^ 16)

abbrev filled : Address → Option (List ℕ) → Address × Bool
filled a none = (a, false)
filled a (some host) = (record a { host = host }, true)

module _ (inet : Inet) where
  -- The two of `init_ip_addr`: the structure, and what is returned.
  unfoldable pub init_ip_addr : List ℕ → Family → List ℕ → ℤ → Address × Bool
  unfolding blank hton16
  init_ip_addr zeros family ip port =
      filled (record (blank zeros family) { sin_port = hton16 (to_uint16 port) })
        (inet.inet_pton family ip)

  -- `ip_str`
  abbrev pub ip_str : Address → List ℕ
  ip_str a = inet.inet_ntop a.family a.host

  -- `to_string` of an IPv4 address
  unfoldable pub to_string : Address → List ℕ
  unfolding decimal ntoh16
  to_string a = ip_str a ++ (b':' ∷ decimal (pos (ntoh16 a.sin_port)))

  -- `ToString` of the two classes
  unfoldable pub address_text : Address → List ℕ
  unfolding to_string
  address_text a = elim a.family [ k_ipv4 ↦ to_string a | k_ipv6 ↦ codes "ip v6 ..." ]

  -- `peer`, by what `getpeername` gives.
  unfoldable pub peer : Option Address → List ℕ
  unfolding to_string
  peer none = []
  peer (some a) = elim a.family [ k_ipv4 ↦ to_string a | k_ipv6 ↦ [] ]

-- A text in two at its last colon.
unfoldable pub split_last : List ℕ → Option (List ℕ × List ℕ)
split_last [] = none
split_last (c ∷ cs) = elim (split_last cs) [
  | none ↦ if c == b':' then some ([], cs) else none
  | some (before, after) ↦ some (c ∷ before, after)
]

split_none : (ds : List ℕ) → All (λ d. d ≢ b':') ds → split_last ds ≡ none
unfolding split_last
split_none [] h = refl
split_none (d ∷ ds) (ne, h) = rw (split_none ds h) (ground (arith, ne))

split_colon :
    (s ds : List ℕ) → All (λ d. d ≢ b':') ds → split_last (s ++ (b':' ∷ ds)) ≡ some (s, ds)
unfolding split_last
split_colon [] ds h = rw (split_none ds h) refl
split_colon (c ∷ s) ds h = rw (split_colon s ds h) refl

no_colons : (ds : List ℕ) → All IsDigit ds → All (λ d. d ≢ b':') ds
no_colons [] h = tt
no_colons (d ∷ ds) (digit, h) = (λ e. omega (arith, e, digit), no_colons ds h)

to_string_split :
    (inet : Inet) (a : Address)
    → split_last (to_string inet a) ≡ some (ip_str inet a, decimal (pos (port a)))
unfolding to_string decimal port
to_string_split inet a =
    let n = ntoh16 a.sin_port in
    split_colon (ip_str inet a) (reverse (counted n))
      (no_colons (reverse (counted n)) (All-reverse IsDigit (counted n) (counted-digits n)))

hton16-ntoh16 : (v : ℕ) → v < 2 ^ 16 → (hton16 (ntoh16 v) ≡ v) × (ntoh16 v < 2 ^ 16)
unfolding hton16 ntoh16
hton16-ntoh16 v h = omega arith

init_ip_addr_lem :
    (inet : Inet) (zeros ip host : List ℕ) (family : Family) (n : ℕ)
    → n < 2 ^ 16
    → inet.inet_pton family ip ≡ some host
    → init_ip_addr inet zeros family ip (pos n)
      ≡ (record { family = family; sin_port = hton16 n; host = host }, true)
unfolding init_ip_addr blank
init_ip_addr_lem inet zeros ip host family n h e =
    ap₂ (λ p o. filled (record { family = family; sin_port = hton16 p; host = zeros }) o)
      (omega arith) e

-- An address from the two parts of a text.
abbrev from_parts : Inet → List ℕ → Option (List ℕ × List ℕ) → Option (Address × Bool)
unfolding init_ip_addr read
from_parts inet zeros none = none
from_parts inet zeros (some (ip, port)) = some (init_ip_addr inet zeros k_ipv4 ip (read port))

unfoldable pub read_endpoint : Inet → List ℕ → List ℕ → Option (Address × Bool)
unfolding split_last from_parts
read_endpoint inet zeros text = from_parts inet zeros (split_last text)

read-port : (n : ℕ) → read (decimal (pos n)) ≡ pos n
read-port n = ap read (sym (convert-eq-decimal (pos n))) ∙ read-convert (pos n)

-- The text of an IPv4 address, taken apart at its last colon and given to `init_ip_addr`, makes
-- that address again, its port in network order and its host, and the call reports success.
pub to_string_init :
    (inet : Inet) (zeros : List ℕ) (a : Address)
    → a.family ≡ k_ipv4
    → a.sin_port < 2 ^ 16
    → read_endpoint inet zeros (to_string inet a) ≡ some (a, true)
unfolding read_endpoint from_parts port
to_string_init inet zeros a v4 h =
    let n = ntoh16 a.sin_port in
    let (same, small) = hton16-ntoh16 a.sin_port h in
    ap (from_parts inet zeros) (to_string_split inet a)
    ∙ ap (λ p. some (init_ip_addr inet zeros k_ipv4 (ip_str inet a) p)) (read-port n)
    ∙ ap some (
        init_ip_addr_lem inet zeros (ip_str inet a) a.host k_ipv4 n small
          (rw v4 (inet.pton-ntop k_ipv4 a.host))
        ∙ ap₂ (λ f p. (record { family = f; sin_port = p; host = a.host }, true)) (sym v4) same)

-- Two IPv4 addresses with the same text are the same address.
to_string_injective :
    (inet : Inet) (a b : Address)
    → a.family ≡ k_ipv4
    → b.family ≡ k_ipv4
    → a.sin_port < 2 ^ 16
    → b.sin_port < 2 ^ 16
    → to_string inet a ≡ to_string inet b
    → a ≡ b
to_string_injective inet a b va vb ha hb e =
    let again : some (a, true) ≡ some (b, true) =
      sym (to_string_init inet [] a va ha)
      ∙ ap (read_endpoint inet []) e
      ∙ to_string_init inet [] b vb hb in
    ap (λ o. elim o [ none ↦ a | some (x, ok) ↦ x ]) again

-- All IPv6 addresses have one text, and `peer` has none for them.
texts_v6 :
    (inet : Inet) (a b : Address)
    → a.family ≡ k_ipv6
    → b.family ≡ k_ipv6
    → (address_text inet a ≡ address_text inet b) × (peer inet (some a) ≡ [])
unfolding address_text peer
texts_v6 inet a b va vb = (rw (va, vb) refl, rw va refl)
