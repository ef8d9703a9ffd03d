-- ===== src/Control/Webhooks/Posting.antt =====
-- One `POST` of app/control/webhooks.py: `resolve_public`, `pinned_targets` and `post_json`. The
-- addresses that it connects to are part of the answer.
use daas_engine.Base.{
  Bool, List, Option, [], if◌then◌else◌, none, some, suc, true, zero, ℕ, ◌&&◌, ◌∷◌,
}
use daas_engine.Control.Webhooks.{
  Checked, Fault, Network, Resolver, UrlParts, connect_error, dns_failed, http_error, is_public_ip,
  private_address, safe, unsafe, validate_url,
}

-- `resolve_public`: the addresses of a host, each of them public.
unfoldable pub all_public : Network → List (List ℕ) → Bool
unfolding is_public_ip
all_public net [] = true
all_public net (a ∷ as') = is_public_ip net a && all_public net as'

unfoldable pub checked_addresses : Network → List (List ℕ) → Checked (List (List ℕ))
unfolding all_public
checked_addresses net [] = unsafe private_address
checked_addresses net (a ∷ as') =
    if all_public net (a ∷ as') then safe (a ∷ as') else unsafe private_address

-- The resolver is asked once.
unfoldable pub resolve_public : Network → Resolver → List ℕ → ℕ → Checked (List (List ℕ))
unfolding checked_addresses
resolve_public net resolver host port = elim (net.ip_address host) [
  | some ip ↦ checked_addresses net (host ∷ [])
  | none ↦ elim (resolver 0 host port) [
    | none ↦ unsafe dns_failed
    | some found ↦ checked_addresses net found
  ]
]

-- `Target`: the host of the URL that is connected to, and the name of the certificate where the host
-- is an address put in place of it.
pub record Target : Type 0 where
  pub host : List ℕ
  pub sni_hostname : Option (List ℕ)

abbrev pub max_pinned_addresses : ℕ
max_pinned_addresses = 3

unfoldable pub first_of : ℕ → List (List ℕ) → List (List ℕ)
first_of zero xs = []
first_of (suc n) [] = []
first_of (suc n) (x ∷ xs) = x ∷ first_of n xs

unfoldable pub pinned_to : List ℕ → List (List ℕ) → List Target
pinned_to host [] = []
pinned_to host (a ∷ as') = record { host = a; sni_hostname = some host } ∷ pinned_to host as'

-- The URL as it is where its host is an address, and the checked addresses otherwise.
unfoldable pub pinned_targets : Network → List ℕ → List ℕ → List (List ℕ) → List Target
unfolding first_of pinned_to
pinned_targets net raw_host host addresses = elim (net.ip_address host) [
  | some ip ↦ record { host = raw_host; sni_hostname = none } ∷ []
  | none ↦ pinned_to host (first_of max_pinned_addresses addresses)
]

-- What comes back from a connection: a status, an error of the connection, or another error.
pub data Reply : Type 0 where
  status_of : ℕ → Reply
  not_connected : Reply
  broken : Reply

-- `(status, error)` with the hosts that were connected to.
pub record Posted : Type 0 where
  pub status : Option ℕ
  pub error : Option Fault
  pub contacted : List (List ℕ)

-- The loop over the targets: the next one after an error of the connection only.
unfoldable pub post_each : (Target → Reply) → Option Fault → List Target → Posted
post_each transport error [] = record { status = none; error = error; contacted = [] }
post_each transport error (t ∷ ts) =
    let rest = post_each transport (some connect_error) ts in
    elim (transport t) [
      | status_of n ↦ record { status = some n; error = none; contacted = t.host ∷ [] }
      | not_connected ↦ record rest { contacted = t.host ∷ rest.contacted }
      | broken ↦ record { status = none; error = some http_error; contacted = t.host ∷ [] }
    ]

-- The host that stands in the URL, and the one that is checked.
abbrev pub raw_host_of : Option UrlParts → List ℕ
raw_host_of none = []
raw_host_of (some parts) = parts.raw_host

abbrev pub host_of : Option UrlParts → List ℕ
host_of none = []
host_of (some parts) = parts.host

-- The targets of a URL; in development the URL itself.
unfoldable pub targets_of :
    Network → Resolver → Bool → List ℕ → Option UrlParts → Checked (List Target)
unfolding validate_url resolve_public pinned_targets
targets_of net resolver dev url split = elim (validate_url net dev url split) [
  | unsafe f ↦ unsafe f
  | safe (host, port) ↦
      if dev
      then safe (record { host = raw_host_of split; sni_hostname = none } ∷ [])
      else elim (resolve_public net resolver host port) [
        | unsafe f ↦ unsafe f
        | safe addresses ↦ safe (pinned_targets net (raw_host_of split) host addresses)
      ]
]

-- `post_json`.
unfoldable pub post_json :
    Network → Resolver → Bool → (Target → Reply) → List ℕ → Option UrlParts → Posted
unfolding targets_of post_each
post_json net resolver dev transport url split = elim (targets_of net resolver dev url split) [
  | unsafe f ↦ record { status = none; error = some f; contacted = [] }
  | safe targets ↦ post_each transport none targets
]
