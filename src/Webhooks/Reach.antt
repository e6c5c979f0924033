-- ===== src/Webhooks/Reach.antt =====
-- What no delivery reaches, whatever notation an address is written in.
use collectr.Prelude.{
  ℕ, ◌≡◌, refl, true, false, none, some, List, [], ◌∷◌, arith, ok, err, Ensures, All, subst, sym,
  Bool-cases, inl, inr, Option-cases,
}
use mathlib.Core.List.{Memᴰ}
use collectr.Webhooks.Address.{
  Address, v4, v6, is_private_v4, special_v6, embedded_v4, six_to_four, is_private_ip,
  mapped_prefix, nat64_prefix, first_private, dial_address, DialError, refused, no_address,
}

-- The notations of an IPv4 address: itself, ::ffff:a.b.c.d, 64:ff9b::a.b.c.d, and 2002:ab:cd::/48 with
-- any rest.
pub data Writes (a b c d : ℕ) : Address → Type 0 where
  plain : Writes a b c d (v4 a b c d)
  mapped : Writes a b c d (v6 mapped_prefix a b c d)
  translated : Writes a b c d (v6 nat64_prefix a b c d)
  tunnelled :
      (p5 p6 p7 p8 p9 p10 e f g h : ℕ)
      → Writes a b c d (v6 (32 ∷ 2 ∷ a ∷ b ∷ c ∷ d ∷ p5 ∷ p6 ∷ p7 ∷ p8 ∷ p9 ∷ p10 ∷ []) e f g h)

-- However an IPv4 address is written, as itself, as ::ffff:a.b.c.d, as 64:ff9b::a.b.c.d or in
-- 2002:ab:cd::/48 with any rest, IsPrivateIP answers for the address itself.
pub is_private_ip-Writes :
    (a b c d : ℕ) (ip : Address) → Writes a b c d ip → is_private_ip ip ≡ is_private_v4 a b c d
unfolding is_private_ip special_v6 embedded_v4 six_to_four
is_private_ip-Writes a b c d _ plain = refl
is_private_ip-Writes a b c d _ mapped = refl
is_private_ip-Writes a b c d _ translated = refl
is_private_ip-Writes a b c d _ (tunnelled p5 p6 p7 p8 p9 p10 e f g h) = refl

first_private-none :
    (ips : List Address) → first_private ips ≡ none → All (λ ip. is_private_ip ip ≡ false) ips
unfolding first_private
first_private-none [] h = tt
first_private-none (ip ∷ rest) h = elim (Bool-cases (is_private_ip ip)) [
  | inl t ↦ absurd (ground (arith, h, t))
  | inr f ↦ (f, first_private-none rest (ground (arith, h, f)))
]

first_private-some :
    (ips : List Address) (ip : Address)
    → first_private ips ≡ some ip
    → Memᴰ ip ips × (is_private_ip ip ≡ true)
unfolding first_private
first_private-some [] ip h = absurd (ground (arith, h))
first_private-some (q ∷ rest) ip h = elim (Bool-cases (is_private_ip q)) [
  | inl t ↦
      let same : q ≡ ip = ground (arith, h, t) in
      (Memᴰ.head (sym same), subst (λ x. is_private_ip x ≡ true) same t)
  | inr f ↦
      let (listed, private) = first_private-some rest ip (ground (arith, h, f)) in
      (Memᴰ.tail listed, private)
]

-- What the dialer has made sure of, by its answer.
abbrev pub Dialled : List Address → Address → Type 0
Dialled ips ip = Memᴰ ip ips × All (λ q. is_private_ip q ≡ false) ips

abbrev pub NotDialled : List Address → DialError → Type 0
NotDialled ips e = elim e [
  | refused ip ↦ Memᴰ ip ips × (is_private_ip ip ≡ true)
  | no_address ↦ ips ≡ []
]

-- The address that is dialled is one of the addresses of the host, none of which is private; a host is
-- refused only for an address of its own that is private, or because it has none.
pub dial_address-Dialled :
    (ips : List Address) → Ensures (Dialled ips) (NotDialled ips) (dial_address ips)
unfolding dial_address
dial_address-Dialled [] = refl
dial_address-Dialled (ip ∷ rest) = elim (Option-cases (first_private (ip ∷ rest))) [
  | inl q ↦
      let open_host : dial_address (ip ∷ rest) ≡ ok ip = ground (arith, q) in
      let all = first_private-none (ip ∷ rest) q in
      subst (Ensures (Dialled (ip ∷ rest)) (NotDialled (ip ∷ rest))) (sym open_host)
        (Memᴰ.head refl, all)
  | inr (bad, q) ↦
      let closed_host : dial_address (ip ∷ rest) ≡ err (refused bad) = ground (arith, q) in
      subst (Ensures (Dialled (ip ∷ rest)) (NotDialled (ip ∷ rest))) (sym closed_host)
        (first_private-some (ip ∷ rest) bad q)
]
