-- ===== src/Control/Webhooks/Retries.antt =====
-- The retries of app/control/webhooks.py: how many there are, when they stop, and what they give.
use daas_engine.Base.{
  Bool, Bool-cases, List, Option, Option-cases, [], arith, false, if◌then◌else◌, inl, inr, length,
  ltb, none, not, refl, some, subst, suc, sym, true, zero, ℕ, ◌&&◌, ◌+◌, ◌-◌, ◌<◌, ◌||◌, ◌≡◌, ◌≤◌,
}
use daas_engine.Control.Records.{Webhook}
use daas_engine.Control.Webhooks.{
  Checked, Checked-cases, Fault, Network, Resolver, UrlParts, check_parts, credentials_in_url,
  has_blank, https_required, is_empty, is_https, is_inner_host, is_web, max_url_len, port_of,
  private_address, safe, unsafe, url_malformed, validate_url,
}
use daas_engine.Control.Webhooks.Delivery.{
  DeliverySettings, after_wait, deliver, gave_up, is_permanent, is_success, not_sent,
  signing_secret, succeeded_at, try_all, try_from,
}
use daas_engine.Control.Webhooks.Posting.{
  Posted, Reply, Target, checked_addresses, post_json, resolve_public, targets_of,
}

-- The attempts are counted, there is a wait between two of them, and delivered means answered by 2xx.
try_from-counts :
    (posts : ℕ → Posted) (backoff : List ℕ) (index left : ℕ)
    → ((try_from posts backoff index left).result.attempts ≤ index + 1 + left)
      × ((try_from posts backoff index left).result.attempts
          ≡ index + 1 + length (try_from posts backoff index left).waits)
      × ((try_from posts backoff index left).result.delivered
          ≡ is_success (try_from posts backoff index left).result.status_code)
unfolding try_from succeeded_at gave_up after_wait
try_from-counts posts backoff index zero = elim (Bool-cases (is_success (posts index).status)) [
  | inl a ↦ rw (a, try_from) (omega arith, omega arith, sym a)
  | inr a ↦ rw (a, try_from) (omega arith, omega arith, sym a)
]
try_from-counts posts backoff index (suc left) =
    let (h, k, same) = try_from-counts posts backoff (index + 1) left in
    elim (Bool-cases (is_success (posts index).status)) [
      | inl a ↦ rw (a, try_from) (omega arith, omega arith, sym a)
      | inr a ↦ elim (Bool-cases (is_permanent (posts index).error)) [
        | inl b ↦ rw (a, b, try_from) (omega arith, omega arith, sym a)
        | inr b ↦ rw (a, b, try_from) (omega (arith, h), omega (arith, k), same)
      ]
    ]

try_all-counts :
    (posts : ℕ → Posted) (backoff : List ℕ) (n : ℕ)
    → ((try_all posts backoff n).result.attempts ≤ n)
      × (length (try_all posts backoff n).waits ≤ n - 1)
      × ((try_all posts backoff n).result.delivered
          ≡ is_success (try_all posts backoff n).result.status_code)
unfolding try_all not_sent is_success
try_all-counts posts backoff zero = (omega arith, omega arith, refl)
try_all-counts posts backoff (suc n) =
    let (h, k, same) = try_from-counts posts backoff 0 n in
    (omega (arith, h), omega (arith, h, k), same)

-- A delivery makes at most the attempts that it may, waits between two of them only, and is delivered
-- exactly when the last status that it reports is one of 200 to 299.
pub deliver-counts :
    (net : Network) (resolver : ℕ → Resolver) (derive : ℕ → ℕ → ℕ) (settings : DeliverySettings)
    (transport : ℕ → Target → Reply) (split : Option UrlParts) (hook : Webhook) (max_attempts : ℕ)
    → ((deliver net resolver derive settings transport split hook max_attempts).result.attempts
        ≤ max_attempts)
      × (length (deliver net resolver derive settings transport split hook max_attempts).waits
          ≤ max_attempts - 1)
      × ((deliver net resolver derive settings transport split hook max_attempts).result.delivered
          ≡ is_success
              (deliver net resolver derive settings transport split hook
                max_attempts).result.status_code)
unfolding deliver not_sent is_success
deliver-counts net resolver derive settings transport split hook max_attempts =
    elim (Bool-cases settings.maintenance_mode) [
      | inl a ↦ rw (a, deliver) (omega arith, omega arith, refl)
      | inr a ↦ elim (Option-cases (signing_secret derive settings.secret_key hook)) [
        | inl b ↦ rw (a, b, deliver) (omega arith, omega arith, refl)
        | inr (s, b) ↦
            rw (a, b, deliver)
              (try_all-counts
                (λ i. post_json net (resolver i) settings.is_dev (transport i) hook.url split)
                settings.backoff max_attempts)
      ]
    ]

try_from-now :
    (posts : ℕ → Posted) (backoff : List ℕ) (index left : ℕ)
    → is_success (posts index).status ≡ true
    → (try_from posts backoff index left).result.delivered ≡ true
unfolding try_from succeeded_at
try_from-now posts backoff index zero a = rw (a, try_from) refl
try_from-now posts backoff index (suc left) a = rw (a, try_from) refl

-- An attempt that the receiver takes is reached, where none before it fails for good.
try_from-succeeds :
    (posts : ℕ → Posted) (backoff : List ℕ) (index k left : ℕ)
    → k ≤ left
    → is_success (posts (index + k)).status ≡ true
    → ((j : ℕ) → j < index + k → is_permanent (posts j).error ≡ false)
    → (try_from posts backoff index left).result.delivered ≡ true
unfolding try_from succeeded_at after_wait
try_from-succeeds posts backoff index zero left le taken h =
    try_from-now posts backoff index left
      (subst (λ i. is_success (posts i).status ≡ true) (omega arith) taken)
try_from-succeeds posts backoff index (suc k) zero le taken h = absurd (omega (arith, le))
try_from-succeeds posts backoff index (suc k) (suc left) le taken h =
    let same : index + suc k ≡ index + 1 + k = omega arith in
    elim (Bool-cases (is_success (posts index).status)) [
      | inl a ↦ rw (a, try_from) refl
      | inr a ↦
          rw (a, h index (omega arith), try_from)
            (try_from-succeeds posts backoff (index + 1) k left (omega (arith, le))
              (subst (λ i. is_success (posts i).status ≡ true) same taken)
              (λ j lt. h j (omega (arith, lt))))
    ]

try_all-succeeds :
    (posts : ℕ → Posted) (backoff : List ℕ) (k n : ℕ)
    → k < n
    → is_success (posts k).status ≡ true
    → ((j : ℕ) → j < k → is_permanent (posts j).error ≡ false)
    → (try_all posts backoff n).result.delivered ≡ true
unfolding try_all
try_all-succeeds posts backoff k zero lt taken h = absurd (omega (arith, lt))
try_all-succeeds posts backoff k (suc n) lt taken h =
    try_from-succeeds posts backoff 0 k n (omega (arith, lt))
      (subst (λ i. is_success (posts i).status ≡ true) (omega arith) taken)
      (λ j below. h j (omega (arith, below)))

-- A delivery outside of maintenance, whose secret can be derived, is delivered when the receiver takes
-- one of the attempts that it may make, and none before it fails by the address or its resolution.
pub deliver-succeeds :
    (net : Network) (resolver : ℕ → Resolver) (derive : ℕ → ℕ → ℕ) (settings : DeliverySettings)
    (transport : ℕ → Target → Reply) (split : Option UrlParts) (hook : Webhook)
    (max_attempts secret k : ℕ)
    → settings.maintenance_mode ≡ false
    → signing_secret derive settings.secret_key hook ≡ some secret
    → k < max_attempts
    → is_success (post_json net (resolver k) settings.is_dev (transport k) hook.url split).status
      ≡ true
    → ((j : ℕ)
        → j < k
        → is_permanent
            (post_json net (resolver j) settings.is_dev (transport j) hook.url split).error
          ≡ false)
    → (deliver net resolver derive settings transport split hook max_attempts).result.delivered
      ≡ true
unfolding deliver
deliver-succeeds net resolver derive settings transport split hook max_attempts secret k on signed
      lt taken h =
    rw (on, signed, deliver)
      (try_all-succeeds
        (λ i. post_json net (resolver i) settings.is_dev (transport i) hook.url split)
        settings.backoff k max_attempts lt taken h)

if_unsafe :
    {A : Type 0} (b : Bool) (g f : Fault) (c : Checked A)
    → is_permanent (some g) ≡ true
    → (c ≡ unsafe f → is_permanent (some f) ≡ true)
    → (if b then unsafe g else c) ≡ unsafe f
    → is_permanent (some f) ≡ true
if_unsafe true g f c p k e =
    let same : g ≡ f = cc (e) in subst (λ x. is_permanent (some x) ≡ true) same p
if_unsafe false g f c p k e = k e

safe-unsafe :
    {A : Type 0} {B : Type 0} (a : A) (f : Fault) → Path (Checked A) (safe a) (unsafe f) → B
safe-unsafe a f h = absurd (cc (h))

check_parts-permanent :
    (net : Network) (dev : Bool) (parts : UrlParts) (f : Fault)
    → check_parts net dev parts ≡ unsafe f
    → is_permanent (some f) ≡ true
unfolding check_parts is_permanent
check_parts-permanent net dev parts f e =
    let found : Checked (List ℕ × ℕ) = safe (parts.host, port_of parts) in
    let inner = not dev && is_inner_host net parts.host in
    let fragment = not (is_empty parts.fragment) in
    let credentials = parts.has_username || parts.has_password in
    let plain = not (is_https parts.scheme) && not dev in
    let step1 : Checked (List ℕ × ℕ) = if inner then unsafe private_address else found in
    let step2 : Checked (List ℕ × ℕ) = if fragment then unsafe url_malformed else step1 in
    let step3 : Checked (List ℕ × ℕ) = if credentials then unsafe credentials_in_url else step2 in
    let step4 : Checked (List ℕ × ℕ) = if plain then unsafe https_required else step3 in
    if_unsafe (not (is_web parts.scheme) || is_empty parts.host) url_malformed f step4 refl
      (if_unsafe plain https_required f step3 refl (
        if_unsafe credentials credentials_in_url f step2 refl (
          if_unsafe fragment url_malformed f step1 refl (
            if_unsafe inner private_address f found refl
              (λ h. safe-unsafe (parts.host, port_of parts) f h)))))
      e

malformed-permanent :
    {A : Type 0} (f : Fault)
    → Path (Checked A) (unsafe url_malformed) (unsafe f)
    → is_permanent (some f) ≡ true
unfolding is_permanent
malformed-permanent f h =
    let same : url_malformed ≡ f = cc (h) in subst (λ x. is_permanent (some x) ≡ true) same refl

validate_url-permanent :
    (net : Network) (dev : Bool) (url : List ℕ) (split : Option UrlParts) (f : Fault)
    → validate_url net dev url split ≡ unsafe f
    → is_permanent (some f) ≡ true
unfolding validate_url is_permanent
validate_url-permanent net dev url none f e =
    if_unsafe (ltb max_url_len (length url) || has_blank url) url_malformed f (unsafe url_malformed)
      refl (λ h. malformed-permanent f h) e
validate_url-permanent net dev url (some parts) f e =
    if_unsafe (ltb max_url_len (length url) || has_blank url) url_malformed f
      (check_parts net dev parts) refl (λ h. check_parts-permanent net dev parts f h) e

resolve_public-permanent :
    (net : Network) (resolver : Resolver) (host : List ℕ) (port : ℕ) (f : Fault)
    → resolve_public net resolver host port ≡ unsafe f
    → is_permanent (some f) ≡ true
unfolding resolve_public checked_addresses is_permanent
resolve_public-permanent net resolver host port f e = ground (arith, e)

targets_of-permanent :
    (net : Network) (resolver : Resolver) (dev : Bool) (url : List ℕ) (split : Option UrlParts)
    (f : Fault)
    → targets_of net resolver dev url split ≡ unsafe f
    → is_permanent (some f) ≡ true
unfolding targets_of
targets_of-permanent net resolver dev url split f e =
    elim (Checked-cases (validate_url net dev url split)) [
      | inr (g, a) ↦ validate_url-permanent net dev url split f (ground (arith, a, e))
      | inl ((host, port), a) ↦ elim (Bool-cases dev) [
        | inl b ↦ absurd (ground (arith, a, b, e))
        | inr b ↦ elim (Checked-cases (resolve_public net resolver host port)) [
          | inl (xs, c) ↦ absurd (ground (arith, a, b, c, e))
          | inr (g, c) ↦
              resolve_public-permanent net resolver host port f (ground (arith, a, b, c, e))
        ]
      ]
    ]

try_from-refused :
    (posts : ℕ → Posted) (backoff : List ℕ) (left : ℕ) (f : Fault)
    → posts 0 ≡ record { status = none; error = some f; contacted = [] }
    → is_permanent (some f) ≡ true
    → try_from posts backoff 0 left
      ≡ gave_up 1 (record { status = none; error = some f; contacted = [] })
unfolding try_from is_success
try_from-refused posts backoff zero f e p = rw (e, try_from) refl
try_from-refused posts backoff (suc left) f e p = rw (e, try_from, p) refl

-- Where the URL or the addresses of its host are refused, a delivery that is signed and may make an
-- attempt makes one, connects to nothing, waits for nothing, and reports the reason.
pub deliver-refused :
    (net : Network) (resolver : ℕ → Resolver) (derive : ℕ → ℕ → ℕ) (settings : DeliverySettings)
    (transport : ℕ → Target → Reply) (split : Option UrlParts) (hook : Webhook) (left secret : ℕ)
    (f : Fault)
    → settings.maintenance_mode ≡ false
    → signing_secret derive settings.secret_key hook ≡ some secret
    → targets_of net (resolver 0) settings.is_dev hook.url split ≡ unsafe f
    → deliver net resolver derive settings transport split hook (suc left)
      ≡ gave_up 1 (record { status = none; error = some f; contacted = [] })
unfolding deliver try_all post_json
deliver-refused net resolver derive settings transport split hook left secret f on signed e =
    rw (on, signed, deliver)
      (try_from-refused
        (λ i. post_json net (resolver i) settings.is_dev (transport i) hook.url split)
        settings.backoff left f (rw (e, post_json) refl)
        (targets_of-permanent net (resolver 0) settings.is_dev hook.url split f e))
