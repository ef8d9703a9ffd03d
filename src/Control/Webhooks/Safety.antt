-- ===== src/Control/Webhooks/Safety.antt =====
-- Where the deliveries of app/control/webhooks.py connect to.
use daas_engine.Base.{
  ==→eq, All, Bool, Bool-cases, List, Option, Option-cases, [], ap, arith, false, if◌then◌else◌,
  inl, inr, is_none, length, ltb, none, not, refl, some, subst, suc, sym, true, zero, ℕ, ◌%◌, ◌&&◌,
  ◌*◌, ◌+◌, ◌/◌, ◌<◌, ◌==◌, ◌||◌, ◌∙◌, ◌∷◌, ◌≡◌, ◌⊎◌,
}
use daas_engine.Base.Tables.Laws.{All-append}
use daas_engine.Control.Records.{Webhook}
use daas_engine.Control.Webhooks.{
  Checked, Checked-cases, Fault, Network, Resolver, UrlParts, after16, after48, after96,
  check_parts, connect_error, credentials_in_url, has_blank, https_required, ipv4, ipv6, is_empty,
  is_https, is_inner_host, is_public, is_public_ip, is_routable, is_web, mapped, max_url_len, nat64,
  nat64_local, port_of, private_address, safe, six_to_four, unsafe, url_malformed, validate_url,
}
use daas_engine.Control.Webhooks.Delivery.{
  DeliverySettings, after_wait, deliver, gave_up, is_permanent, is_success, not_sent,
  signing_secret, succeeded_at, try_all, try_from,
}
use daas_engine.Control.Webhooks.Posting.{
  Posted, Reply, Target, all_public, broken, checked_addresses, first_of, host_of,
  max_pinned_addresses, not_connected, pinned_targets, pinned_to, post_each, post_json, raw_host_of,
  resolve_public, status_of, targets_of,
}

-- Every text of a list is a public address.
abbrev pub AllPublic : Network → List (List ℕ) → Type 0
AllPublic net hosts = All (λ h. is_public_ip net h ≡ true) hosts

all_public-AllPublic :
    (net : Network) (xs : List (List ℕ)) → all_public net xs ≡ true → AllPublic net xs
unfolding all_public
all_public-AllPublic net [] h = tt
all_public-AllPublic net (x ∷ xs) h =
    (ground (arith, h), all_public-AllPublic net xs (ground (arith, h)))

checked_addresses-AllPublic :
    (net : Network) (found xs : List (List ℕ))
    → checked_addresses net found ≡ safe xs
    → AllPublic net xs
unfolding checked_addresses
checked_addresses-AllPublic net [] xs e = absurd (cc)
checked_addresses-AllPublic net (a ∷ bs) xs e = elim (Bool-cases (all_public net (a ∷ bs))) [
  | inr h ↦ absurd (ground (arith, h, e))
  | inl h ↦
      let same : a ∷ bs ≡ xs = ground (arith, h, e) in
      subst (AllPublic net) same (all_public-AllPublic net (a ∷ bs) h)
]

checked_one :
    (net : Network) (host : List ℕ) (xs : List (List ℕ))
    → checked_addresses net (host ∷ []) ≡ safe xs
    → is_public_ip net host ≡ true
unfolding checked_addresses all_public
checked_one net host xs e = ground (arith, e)

-- The addresses of a host are public, and the host too where it is an address itself.
resolve_public-AllPublic :
    (net : Network) (resolver : Resolver) (host : List ℕ) (port : ℕ) (xs : List (List ℕ))
    → resolve_public net resolver host port ≡ safe xs
    → AllPublic net xs × ((is_none (net.ip_address host) ≡ true) ⊎ (is_public_ip net host ≡ true))
unfolding resolve_public
resolve_public-AllPublic net resolver host port xs e = elim (Option-cases (net.ip_address host)) [
  | inr (ip, f) ↦
      let checked : checked_addresses net (host ∷ []) ≡ safe xs = ground (arith, f, e) in
      (
        checked_addresses-AllPublic net (host ∷ []) xs checked,
        inr (checked_one net host xs checked),
      )
  | inl f ↦ elim (Option-cases (resolver 0 host port)) [
    | inl g ↦ absurd (ground (arith, f, g, e))
    | inr (found, g) ↦ (
      checked_addresses-AllPublic net found xs (ground (arith, f, g, e)),
      inl (ground (arith, f)),
    )
  ]
]

first_of-AllPublic :
    (net : Network) (n : ℕ) (xs : List (List ℕ)) → AllPublic net xs → AllPublic net (first_of n xs)
unfolding first_of
first_of-AllPublic net zero xs a = tt
first_of-AllPublic net (suc n) [] a = tt
first_of-AllPublic net (suc n) (x ∷ xs) a = (a.0, first_of-AllPublic net n xs a.1)

-- What a connection to the host of a target is: to a public address, or to the host that stands in
-- the URL, which is a public address up to the dots at its end.
abbrev pub IsSafeHost : Network → Option UrlParts → List ℕ → Type 0
IsSafeHost net split h =
    (is_public_ip net h ≡ true)
    ⊎ ((h ≡ raw_host_of split) × (is_public_ip net (host_of split) ≡ true))

abbrev pub AllSafe : Network → Option UrlParts → List (List ℕ) → Type 0
AllSafe net split hosts = All (IsSafeHost net split) hosts

abbrev TargetsSafe : Network → Option UrlParts → List Target → Type 0
TargetsSafe net split ts = All (λ t. IsSafeHost net split t.host) ts

pinned_to-TargetsSafe :
    (net : Network) (split : Option UrlParts) (host : List ℕ) (xs : List (List ℕ))
    → AllPublic net xs
    → TargetsSafe net split (pinned_to host xs)
unfolding pinned_to
pinned_to-TargetsSafe net split host [] a = tt
pinned_to-TargetsSafe net split host (x ∷ xs) a =
    (inl a.0, pinned_to-TargetsSafe net split host xs a.1)

pinned_targets-TargetsSafe :
    (net : Network) (resolver : Resolver) (split : Option UrlParts) (host : List ℕ) (port : ℕ)
    (xs : List (List ℕ))
    → host ≡ host_of split
    → resolve_public net resolver host port ≡ safe xs
    → TargetsSafe net split (pinned_targets net (raw_host_of split) host xs)
unfolding pinned_targets
pinned_targets-TargetsSafe net resolver split host port xs same e =
    let (a, own) = resolve_public-AllPublic net resolver host port xs e in
    elim (Option-cases (net.ip_address host)) [
      | inl f ↦
          rw (f, pinned_targets)
            (pinned_to-TargetsSafe net split host _
              (first_of-AllPublic net max_pinned_addresses xs a))
      | inr (ip, f) ↦ elim own [
        | inl none_there ↦ absurd (ground (arith, f, none_there))
        | inr public ↦
            rw (f, pinned_targets)
              (inr (refl, subst (λ h. is_public_ip net h ≡ true) same public), tt)
      ]
    ]

safe_injective : {A : Type 0} {a b : A} → Path (Checked A) (safe a) (safe b) → a ≡ b
safe_injective e = cc e

if_safe :
    {A : Type 0} (b : Bool) (g : Fault) (c : Checked A) (x : A)
    → (if b then unsafe g else c) ≡ safe x
    → c ≡ safe x
if_safe true g c x e = absurd (cc e)
if_safe false g c x e = e

check_parts-host :
    (net : Network) (dev : Bool) (parts : UrlParts) (host : List ℕ) (port : ℕ)
    → check_parts net dev parts ≡ safe (host, port)
    → host ≡ parts.host
unfolding check_parts
check_parts-host net dev parts host port e =
    let found : Checked (List ℕ × ℕ) = safe (parts.host, port_of parts) in
    let inner = not dev && is_inner_host net parts.host in
    let fragment = not (is_empty parts.fragment) in
    let credentials = parts.has_username || parts.has_password in
    let plain = not (is_https parts.scheme) && not dev in
    let step1 : Checked (List ℕ × ℕ) = if inner then unsafe private_address else found in
    let step2 : Checked (List ℕ × ℕ) = if fragment then unsafe url_malformed else step1 in
    let step3 : Checked (List ℕ × ℕ) = if credentials then unsafe credentials_in_url else step2 in
    let step4 : Checked (List ℕ × ℕ) = if plain then unsafe https_required else step3 in
    let e4 =
      if_safe (not (is_web parts.scheme) || is_empty parts.host) url_malformed step4 (host, port)
        e in
    let e3 = if_safe plain https_required step3 (host, port) e4 in
    let e2 = if_safe credentials credentials_in_url step2 (host, port) e3 in
    let e1 = if_safe fragment url_malformed step1 (host, port) e2 in
    let same : safe (parts.host, port_of parts) ≡ safe (host, port) =
      if_safe inner private_address found (host, port) e1 in
    sym (ap (λ (p : List ℕ × ℕ). p.0) (safe_injective same))

validate_url-host :
    (net : Network) (dev : Bool) (url : List ℕ) (split : Option UrlParts) (host : List ℕ) (port : ℕ)
    → validate_url net dev url split ≡ safe (host, port)
    → host ≡ host_of split
unfolding validate_url
validate_url-host net dev url none host port e = absurd (
    cc (
      if_safe (ltb max_url_len (length url) || has_blank url) url_malformed (unsafe url_malformed)
        (host, port) e))
validate_url-host net dev url (some parts) host port e = check_parts-host net dev parts host port (
    if_safe (ltb max_url_len (length url) || has_blank url) url_malformed
      (check_parts net dev parts) (host, port) e)

Reply-cases : (r : Reply) → ((n : ℕ) × (r ≡ status_of n)) ⊎ (r ≡ not_connected) ⊎ (r ≡ broken)
Reply-cases (status_of n) = inl (n, refl)
Reply-cases not_connected = inr (inl refl)
Reply-cases broken = inr (inr refl)

post_each-AllSafe :
    (net : Network) (split : Option UrlParts) (transport : Target → Reply) (error : Option Fault)
    (ts : List Target)
    → TargetsSafe net split ts
    → AllSafe net split (post_each transport error ts).contacted
unfolding post_each
post_each-AllSafe net split transport error [] a = tt
post_each-AllSafe net split transport error (t ∷ ts) a =
    let ih = post_each-AllSafe net split transport (some connect_error) ts a.1 in
    elim (Reply-cases (transport t)) [
      | inl (n, e) ↦ rw (e, post_each) (a.0, tt)
      | inr (inl e) ↦ rw (e, post_each) (a.0, ih)
      | inr (inr e) ↦ rw (e, post_each) (a.0, tt)
    ]

targets_of-TargetsSafe :
    (net : Network) (resolver : Resolver) (url : List ℕ) (split : Option UrlParts)
    (ts : List Target)
    → targets_of net resolver false url split ≡ safe ts
    → TargetsSafe net split ts
unfolding targets_of
targets_of-TargetsSafe net resolver url split ts e =
    elim (Checked-cases (validate_url net false url split)) [
      | inr (f, a) ↦ absurd (ground (arith, a, e))
      | inl ((host, port), a) ↦ elim (Checked-cases (resolve_public net resolver host port)) [
        | inr (f, b) ↦ absurd (ground (arith, a, b, e))
        | inl (xs, b) ↦
            let same : pinned_targets net (raw_host_of split) host xs ≡ ts =
              ground (arith, a, b, e) in
            subst (TargetsSafe net split) same (
              pinned_targets-TargetsSafe net resolver split host port xs
                (validate_url-host net false url split host port a) b)
      ]
    ]

-- Outside of development a post connects to public addresses only.
post_json-AllSafe :
    (net : Network) (resolver : Resolver) (transport : Target → Reply) (url : List ℕ)
    (split : Option UrlParts)
    → AllSafe net split (post_json net resolver false transport url split).contacted
unfolding post_json
post_json-AllSafe net resolver transport url split =
    elim (Checked-cases (targets_of net resolver false url split)) [
      | inr (f, a) ↦ rw (a, post_json) tt
      | inl (ts, a) ↦
          rw (a, post_json)
            (post_each-AllSafe net split transport none ts
              (targets_of-TargetsSafe net resolver url split ts a))
    ]

try_from-AllSafe :
    (net : Network) (split : Option UrlParts) (posts : ℕ → Posted) (backoff : List ℕ)
    (index left : ℕ)
    → ((i : ℕ) → AllSafe net split (posts i).contacted)
    → AllSafe net split (try_from posts backoff index left).contacted
unfolding try_from succeeded_at gave_up after_wait
try_from-AllSafe net split posts backoff index zero h =
    elim (Bool-cases (is_success (posts index).status)) [
      | inl a ↦ rw (a, try_from) (h index)
      | inr a ↦ rw (a, try_from) (h index)
    ]
try_from-AllSafe net split posts backoff index (suc left) h =
    let ih = try_from-AllSafe net split posts backoff (index + 1) left h in
    elim (Bool-cases (is_success (posts index).status)) [
      | inl a ↦ rw (a, try_from) (h index)
      | inr a ↦ elim (Bool-cases (is_permanent (posts index).error)) [
        | inl b ↦ rw (a, b, try_from) (h index)
        | inr b ↦ rw (a, b, try_from) (All-append _ (posts index).contacted _ (h index) ih)
      ]
    ]

try_all-AllSafe :
    (net : Network) (split : Option UrlParts) (posts : ℕ → Posted) (backoff : List ℕ) (n : ℕ)
    → ((i : ℕ) → AllSafe net split (posts i).contacted)
    → AllSafe net split (try_all posts backoff n).contacted
unfolding try_all not_sent
try_all-AllSafe net split posts backoff zero h = tt
try_all-AllSafe net split posts backoff (suc n) h = try_from-AllSafe net split posts backoff 0 n h

-- Outside of development each connection of a delivery, in whatever attempt, whatever the receivers
-- answer and the resolver answers to each asking in each attempt, is to an address that passes the
-- test for public ones, or to the host that stands in the URL, where that, without the dots at its
-- end, is an address that passes the test.
pub deliver-AllSafe :
    (net : Network) (resolver : ℕ → Resolver) (derive : ℕ → ℕ → ℕ) (settings : DeliverySettings)
    (transport : ℕ → Target → Reply) (split : Option UrlParts) (hook : Webhook) (max_attempts : ℕ)
    → settings.is_dev ≡ false
    → AllSafe net split
        (deliver net resolver derive settings transport split hook max_attempts).contacted
unfolding deliver not_sent
deliver-AllSafe net resolver derive settings transport split hook max_attempts dev =
    elim (Bool-cases settings.maintenance_mode) [
      | inl a ↦ rw (a, deliver) tt
      | inr a ↦ elim (Option-cases (signing_secret derive settings.secret_key hook)) [
        | inl b ↦ rw (a, b, deliver) tt
        | inr (s, b) ↦
            rw (a, b, dev, deliver)
              (try_all-AllSafe net split
                (λ i. post_json net (resolver i) false (transport i) hook.url split)
                settings.backoff max_attempts
                (λ i. post_json-AllSafe net (resolver i) (transport i) hook.url split))
      ]
    ]

embedded_in :
    (p a : ℕ) → a < after96 → ((p * after96 + a) / after96 ≡ p) × ((p * after96 + a) % after96 ≡ a)
embedded_in p a h = (omega (arith, h), omega (arith, h))

is_public-mapped :
    (net : Network) (n : ℕ)
    → n / after96 ≡ mapped
    → is_public net (ipv6 n) ≡ is_routable net (ipv4 (n % after96))
unfolding is_public
is_public-mapped net n e = rw (e, is_public) refl

is_public-nat64 :
    (net : Network) (n : ℕ)
    → n / after96 ≡ nat64
    → is_public net (ipv6 n) ≡ is_routable net (ipv4 (n % after96))
unfolding is_public
is_public-nat64 net n e = rw (e, is_public) refl

is_public-six_to_four :
    (net : Network) (n : ℕ) → n / after16 ≡ six_to_four → is_public net (ipv6 n) ≡ false
unfolding is_public
is_public-six_to_four net n e = elim (Bool-cases (n / after96 == mapped)) [
  | inl a ↦ absurd (omega (arith, e, ==→eq (n / after96) mapped a))
  | inr a ↦ elim (Bool-cases (n / after96 == nat64)) [
    | inl b ↦ absurd (omega (arith, e, ==→eq (n / after96) nat64 b))
    | inr b ↦ elim (Bool-cases (n / after48 == nat64_local)) [
      | inl c ↦ rw (is_public, a, b, c) refl
      | inr c ↦ rw (is_public, a, b, c, e) refl
    ]
  ]
]

-- An IPv6 address that carries an IPv4 address, mapped or by NAT64, is public exactly when the IPv4
-- address is; an address of 6to4 is not, whatever the flags of the addresses say.
pub is_public-embedded :
    (net : Network) (a n : ℕ)
    → a < after96
    → n / after16 ≡ six_to_four
    → (is_public net (ipv6 (mapped * after96 + a)) ≡ is_public net (ipv4 a))
      × (is_public net (ipv6 (nat64 * after96 + a)) ≡ is_public net (ipv4 a))
      × (is_public net (ipv6 n) ≡ false)
unfolding is_public
is_public-embedded net a n h e =
    let (q, r) = embedded_in mapped a h in
    let (s, t) = embedded_in nat64 a h in
    (
      is_public-mapped net (mapped * after96 + a) q ∙ ap (λ x. is_routable net (ipv4 x)) r,
      is_public-nat64 net (nat64 * after96 + a) s ∙ ap (λ x. is_routable net (ipv4 x)) t,
      is_public-six_to_four net n e,
    )
