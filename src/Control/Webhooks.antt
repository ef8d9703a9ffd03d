-- ===== src/Control/Webhooks.antt =====
-- Where webhooks may go, app/control/webhooks.py: the rules for an address of the network and for a
-- URL. Texts are lists of bytes.
pub mod Posting
pub mod Delivery
pub mod Routes
pub mod Safety
pub mod Retries
pub mod Limits
use mathlib.Core.List.{reverse}
use daas_engine.Base.{
  Bool, List, Option, [], codes, false, if◌then◌else◌, inl, inr, length, ltb, none, not, refl, some,
  true, ℕ, ◌%◌, ◌&&◌, ◌/◌, ◌==◌, ◌||◌, ◌∷◌, ◌≡◌, ◌⊎◌,
}

-- An address that `ipaddress.ip_address` read: its number of 32 or of 128 bits.
pub data Ip : Type 0 where
  ipv4 ipv6 : ℕ → Ip

-- The properties of an address that `ipaddress` reports.
pub record IpFlags : Type 0 where
  pub is_unspecified : Bool
  pub is_loopback : Bool
  pub is_link_local : Bool
  pub is_multicast : Bool
  pub is_reserved : Bool
  pub is_private : Bool
  pub is_global : Bool

-- What comes from the standard library and from the network: `ipaddress.ip_address`, which refuses
-- other texts, and the flags of an address.
pub record Network : Type 0 where
  pub ip_address : List ℕ → Option Ip
  pub flags : Ip → IpFlags

-- A resolver, within one attempt of a delivery: its answer to each asking, which is counted from 0, for
-- a host and a port. It is none where it raises `OSError`, and it may answer each asking in its own way.
abbrev pub Resolver : Type 0
Resolver = ℕ → List ℕ → ℕ → Option (List (List ℕ))

-- `value.split("%", 1)[0]`.
unfoldable pub before_percent : List ℕ → List ℕ
before_percent [] = []
before_percent (c ∷ cs) = if c == b'%' then [] else c ∷ before_percent cs

-- The test on an address in no special range.
unfoldable pub is_routable : Network → Ip → Bool
is_routable net ip =
    let f = net.flags ip in
    if f.is_unspecified || f.is_loopback || f.is_link_local || f.is_multicast || f.is_reserved
      || f.is_private
    then false
    else f.is_global

-- `2 ** 32`, `2 ** 80` and `2 ** 112`: the bits after a prefix of 96, 48 and 16.
abbrev pub after96 : ℕ
after96 = 4294967296

abbrev pub after48 : ℕ
after48 = 1208925819614629174706176

abbrev pub after16 : ℕ
after16 = 5192296858534827628530496329220096

-- The prefixes `::ffff:0:0/96`, `64:ff9b::/96`, `64:ff9b:1::/48` and `2002::/16`.
abbrev pub mapped : ℕ
mapped = 65535

abbrev pub nat64 : ℕ
nat64 = 122099644659926101980610560

abbrev pub nat64_local : ℕ
nat64_local = 433785077761

abbrev pub six_to_four : ℕ
six_to_four = 8194

-- `_is_public_ip` of an address that was read: an embedded IPv4 address counts instead.
unfoldable pub is_public : Network → Ip → Bool
unfolding is_routable
is_public net (ipv4 n) = is_routable net (ipv4 n)
is_public net (ipv6 n) =
    if n / after96 == mapped
    then is_routable net (ipv4 (n % after96))
    else if n / after96 == nat64
    then is_routable net (ipv4 (n % after96))
    else if n / after48 == nat64_local || n / after16 == six_to_four
    then false
    else is_routable net (ipv6 n)

-- `_is_public_ip`.
unfoldable pub is_public_ip : Network → List ℕ → Bool
unfolding before_percent is_public
is_public_ip net value = elim (net.ip_address (before_percent value)) [
  | none ↦ false
  | some ip ↦ is_public net ip
]

-- The reasons of `UnsafeDestination`, and the names of the errors of a delivery.
pub data Fault : Type 0 where
  url_malformed https_required credentials_in_url private_address dns_failed : Fault
  connect_error http_error in_maintenance secret_unavailable http_status : Fault

pub data Checked {ℓ} (A : Type ℓ) : Type ℓ where
  safe : A → Checked A
  unsafe : Fault → Checked A

pub Checked-cases {ℓ} :
    {A : Type ℓ} (c : Checked A) → ((a : A) × (c ≡ safe a)) ⊎ ((f : Fault) × (c ≡ unsafe f))
Checked-cases (safe a) = inl (a, refl)
Checked-cases (unsafe f) = inr (f, refl)

-- `urlsplit(url)` with its port, where neither raises; the scheme is told apart as far as it is
-- tested, and the host is in lower case, without dots at its end.
pub data UrlScheme : Type 0 where
  https_scheme http_scheme unknown_scheme : UrlScheme

pub record UrlParts : Type 0 where
  pub scheme : UrlScheme
  pub raw_host : List ℕ
  pub host : List ℕ
  pub port : Option ℕ
  pub has_username : Bool
  pub has_password : Bool
  pub fragment : List ℕ

abbrev pub max_url_len : ℕ
max_url_len = 2000

unfoldable pub same_text : List ℕ → List ℕ → Bool
same_text [] [] = true
same_text [] (d ∷ ds) = false
same_text (c ∷ cs) [] = false
same_text (c ∷ cs) (d ∷ ds) = c == d && same_text cs ds

unfoldable pub starts_with : List ℕ → List ℕ → Bool
starts_with cs [] = true
starts_with [] (d ∷ ds) = false
starts_with (c ∷ cs) (d ∷ ds) = c == d && starts_with cs ds

-- `cs.endswith(ds)`.
unfoldable pub ends_with : List ℕ → List ℕ → Bool
unfolding starts_with
ends_with cs ds = starts_with (reverse cs) (reverse ds)

unfoldable pub has_byte : ℕ → List ℕ → Bool
has_byte b [] = false
has_byte b (c ∷ cs) = b == c || has_byte b cs

-- `_BLOCKED_NAMES`, `_BLOCKED_SUFFIXES`, and a name of one label.
unfoldable pub is_blocked_name : List ℕ → Bool
unfolding same_text ends_with has_byte
is_blocked_name host =
    same_text host (codes "localhost")
    || same_text host (codes "localhost.localdomain")
    || ends_with host (codes ".localhost")
    || ends_with host (codes ".local")
    || ends_with host (codes ".internal")
    || ends_with host (codes ".lan")
    || ends_with host (codes ".home.arpa")
    || not (has_byte b'.' host) && not (has_byte b':' host)

abbrev pub is_https : UrlScheme → Bool
is_https https_scheme = true
is_https _ = false

abbrev pub is_web : UrlScheme → Bool
is_web unknown_scheme = false
is_web _ = true

abbrev pub is_empty : List ℕ → Bool
is_empty [] = true
is_empty (c ∷ cs) = false

-- `any(c in url for c in " \t\r\n\x00")`.
unfoldable pub has_blank : List ℕ → Bool
unfolding has_byte
has_blank url =
    has_byte 32 url || has_byte 9 url || has_byte 13 url || has_byte 10 url || has_byte 0 url

-- The rules for the host of a URL outside of development.
unfoldable pub is_inner_host : Network → List ℕ → Bool
unfolding is_blocked_name is_public_ip
is_inner_host net host =
    is_blocked_name host
    || elim (net.ip_address host) [ none ↦ false | some ip ↦ not (is_public_ip net host) ]

-- `port or (443 if scheme is https else 80)`.
unfoldable pub port_of : UrlParts → ℕ
port_of parts =
    let standard : ℕ = if is_https parts.scheme then 443 else 80 in
    elim parts.port [ none ↦ standard | some p ↦ if p == 0 then standard else p ]

-- The part of `validate_url` after the URL is split.
unfoldable pub check_parts : Network → Bool → UrlParts → Checked (List ℕ × ℕ)
unfolding is_inner_host port_of
check_parts net dev parts =
    if not (is_web parts.scheme) || is_empty parts.host
    then unsafe url_malformed
    else if not (is_https parts.scheme) && not dev
    then unsafe https_required
    else if parts.has_username || parts.has_password
    then unsafe credentials_in_url
    else if not (is_empty parts.fragment)
    then unsafe url_malformed
    else if not dev && is_inner_host net parts.host
    then unsafe private_address
    else safe (parts.host, port_of parts)

-- `validate_url`: the host and the port, or the reason of the refusal.
unfoldable pub validate_url : Network → Bool → List ℕ → Option UrlParts → Checked (List ℕ × ℕ)
unfolding has_blank check_parts
validate_url net dev url split =
    if ltb max_url_len (length url) || has_blank url
    then unsafe url_malformed
    else elim split [ none ↦ unsafe url_malformed | some parts ↦ check_parts net dev parts ]
