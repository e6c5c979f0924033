-- ===== src/Webhooks/Address.antt =====
-- The addresses that a delivery may reach: IsPrivateIP, embeddedV4, isIPv4Compatible and ValidateURL
-- of internal/modules/webhooks/domain/webhook.go, and the dialer of NewClient in
-- internal/modules/webhooks/app/deliver.go. An IPv6 address is its first 12 bytes and its last 4.
use collectr.Prelude.{
  ℕ, String, Bool, true, false, not, ◌&&◌, ◌||◌, Option, none, some, List, [], ◌∷◌, ◌==◌, eqb, leb,
  ltb, if◌then◌else◌, Result, ok, err,
}

-- A net.IP; `nil` is one that does not parse.
pub data Address : Type 0 where
  nil : Address
  v4 : ℕ → ℕ → ℕ → ℕ → Address
  v6 : List ℕ → ℕ → ℕ → ℕ → ℕ → Address

abbrev within : ℕ → ℕ → ℕ → Bool
within lo x hi = leb lo x && leb x hi

-- The predicates of net.IP on four bytes: unspecified, loopback, link-local, multicast.
unfoldable pub special_v4 : ℕ → ℕ → ℕ → ℕ → Bool
special_v4 a b c d =
    eqb a 0 && eqb b 0 && eqb c 0 && eqb d 0
    || eqb a 127
    || eqb a 169 && eqb b 254
    || eqb a 224 && eqb b 0 && eqb c 0
    || within 224 a 239

-- The IPv4 entries of privateBlocks.
unfoldable pub in_blocks_v4 : ℕ → ℕ → ℕ → Bool
in_blocks_v4 a b c =
    eqb a 0
    || eqb a 10
    || eqb a 100 && within 64 b 127
    || eqb a 127
    || eqb a 169 && eqb b 254
    || eqb a 172 && within 16 b 31
    || eqb a 192 && eqb b 0 && eqb c 0
    || eqb a 192 && eqb b 168
    || eqb a 198 && within 18 b 19
    || within 224 a 239
    || leb 240 a

unfoldable pub is_private_v4 : ℕ → ℕ → ℕ → ℕ → Bool
unfolding special_v4 in_blocks_v4
is_private_v4 a b c d = special_v4 a b c d || in_blocks_v4 a b c

abbrev pub all_zero : List ℕ → Bool
all_zero [] = true
all_zero (x ∷ xs) = eqb x 0 && all_zero xs

abbrev pub same_bytes : List ℕ → List ℕ → Bool
same_bytes [] [] = true
same_bytes [] (y ∷ ys) = false
same_bytes (x ∷ xs) [] = false
same_bytes (x ∷ xs) (y ∷ ys) = eqb x y && same_bytes xs ys

-- ::ffff:0:0/96, which To4 unwraps, and 64:ff9b::/96.
abbrev pub mapped_prefix : List ℕ
mapped_prefix = 0 ∷ 0 ∷ 0 ∷ 0 ∷ 0 ∷ 0 ∷ 0 ∷ 0 ∷ 0 ∷ 0 ∷ 255 ∷ 255 ∷ []

abbrev pub nat64_prefix : List ℕ
nat64_prefix = 0 ∷ 100 ∷ 255 ∷ 155 ∷ 0 ∷ 0 ∷ 0 ∷ 0 ∷ 0 ∷ 0 ∷ 0 ∷ 0 ∷ []

-- The predicates of net.IP on sixteen bytes.
unfoldable pub special_v6 : List ℕ → ℕ → ℕ → ℕ → ℕ → Bool
special_v6 p a b c d = all_zero p && eqb a 0 && eqb b 0 && eqb c 0 && leb d 1 || elim p [
  | [] ↦ false
  | x ∷ rest ↦ eqb x 255 || elim rest [ [] ↦ false | y ∷ _ ↦ eqb x 254 && within 128 y 191 ]
]

unfoldable pub is_ipv4_compatible : List ℕ → ℕ → ℕ → ℕ → ℕ → Bool
is_ipv4_compatible p a b c d =
    all_zero p && (not (eqb a 0) || not (eqb b 0) || not (eqb c 0) || ltb 1 d)

-- The bytes 2 to 5 of an address of 2002::/16.
unfoldable pub six_to_four : List ℕ → Option Address
six_to_four (x ∷ y ∷ a ∷ b ∷ c ∷ d ∷ rest) = if eqb x 32 && eqb y 2 then some (v4 a b c d) else none
six_to_four _ = none

-- embeddedV4, on an address that To4 does not unwrap.
unfoldable pub embedded_v4 : List ℕ → ℕ → ℕ → ℕ → ℕ → Option Address
unfolding six_to_four is_ipv4_compatible
embedded_v4 p a b c d = elim (six_to_four p) [
  | some ip ↦ some ip
  | none ↦
      if same_bytes p nat64_prefix || is_ipv4_compatible p a b c d then some (v4 a b c d) else none
]

-- fc00::/7 and fe80::/10
unfoldable pub in_blocks_v6 : List ℕ → Bool
in_blocks_v6 p = elim p [
  | [] ↦ false
  | x ∷ rest ↦ within 252 x 253 || elim rest [ [] ↦ false | y ∷ _ ↦ eqb x 254 && within 128 y 191 ]
]

-- The answer for what an address embeds, which is an IPv4 address.
abbrev pub is_private_embedded : Address → Bool
is_private_embedded nil = true
is_private_embedded (v4 a b c d) = is_private_v4 a b c d
is_private_embedded (v6 p a b c d) = true

unfoldable pub is_private_ip : Address → Bool
unfolding is_private_v4 special_v6 embedded_v4 in_blocks_v6
is_private_ip nil = true
is_private_ip (v4 a b c d) = is_private_v4 a b c d
is_private_ip (v6 p a b c d) =
    if same_bytes p mapped_prefix
    then is_private_v4 a b c d
    else if special_v6 p a b c d
    then true
    else elim (embedded_v4 p a b c d) [ some ip ↦ is_private_embedded ip | none ↦ in_blocks_v6 p ]

-- What net/url makes of a text, with net.ParseIP of its host name.
pub record Url : Type 0 where
  pub scheme : String
  pub host : String
  pub has_user : Bool
  pub literal : Address

pub data UrlError : Type 0 where
  invalid_url not_https missing_host has_credentials private_address : UrlError

abbrev pub is_nil : Address → Bool
is_nil ip = elim ip [ nil ↦ true | _ ↦ false ]

unfoldable pub validate_url : Option Url → Bool → Result UrlError Url
unfolding is_private_ip
validate_url none allow_http = err invalid_url
validate_url (some u) allow_http =
    if not (u.scheme == "https" || u.scheme == "http" && allow_http)
    then err not_https
    else if u.host == ""
    then err missing_host
    else if u.has_user
    then err has_credentials
    else if not (is_nil u.literal) && is_private_ip u.literal
    then err private_address
    else ok u

-- The loop of the dialer over the addresses of a host.
unfoldable pub first_private : List Address → Option Address
unfolding is_private_ip
first_private [] = none
first_private (ip ∷ rest) =
    let later = first_private rest in if is_private_ip ip then some ip else later

pub data DialError : Type 0 where
  refused : Address → DialError
  no_address : DialError

-- The address that is dialled. A host without an address is an error of the lookup.
unfoldable pub dial_address : List Address → Result DialError Address
unfolding first_private
dial_address ips = elim (first_private ips) [
  | some ip ↦ err (refused ip)
  | none ↦ elim ips [ [] ↦ err no_address | ip ∷ _ ↦ ok ip ]
]
