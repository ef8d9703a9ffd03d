-- ===== src/Control/Webhooks/Limits.antt =====
-- The rows of the webhooks of app/api/v1/webhooks.py: how many an organization has, and that no URL
-- stands there twice.
use native.Mathlib.Nat.{le_trans}
use daas_engine.Base.{
  ==→eq, Bool, Bool-cases, List, Option, Option-cases, [], arith, count_where, delete_where,
  exists_where, false, find_where, inl, inr, leb, leb_false→lt, none, refl, some, subst, true, ℕ,
  ◌++◌, ◌<◌, ◌==◌, ◌∷◌, ◌≡◌, ◌≤◌,
}
use daas_engine.Base.Tables.Laws.{
  count_where-append, count_where-delete_le, count_where-single, exists_where-false,
}
use daas_engine.Control.Access.{OrgContext}
use daas_engine.Control.Records.{EventName, Webhook}
use daas_engine.Control.Webhooks.{Checked-cases, Network, UrlParts, same_text, validate_url}
use daas_engine.Control.Webhooks.Routes.{
  WebhooksDb, create_webhook, delete_webhook, hook_in, hook_of, max_webhooks, new_hook, same_hook,
}

pub record IsWithin (hooks : List Webhook) : Type 0 where
  pub few : (org_id : ℕ) → count_where (hook_of org_id) hooks ≤ max_webhooks
  pub unique : (org_id : ℕ) (url : List ℕ) → count_where (same_hook org_id url) hooks ≤ 1

IsWithin-delete :
    (p : Webhook → Bool) (hooks : List Webhook) → IsWithin hooks → IsWithin (delete_where p hooks)
IsWithin-delete p hooks w = record {
  few = λ o. le_trans (count_where-delete_le (hook_of o) p hooks) (w.few o);
  unique = λ o u. le_trans (count_where-delete_le (same_hook o u) p hooks) (w.unique o u);
}

same_text→eq : (xs ys : List ℕ) → same_text xs ys ≡ true → xs ≡ ys
unfolding same_text
same_text→eq [] [] h = refl
same_text→eq [] (y ∷ ys) h = absurd (cc)
same_text→eq (x ∷ xs) [] h = absurd (cc)
same_text→eq (x ∷ xs) (y ∷ ys) h =
    let rest = same_text→eq xs ys (ground (arith, h)) in
    let first = ==→eq x y (ground (arith, h)) in cc (rest, first)

IsWithin-append :
    (h : Webhook) (hooks : List Webhook)
    → count_where (hook_of h.org_id) hooks < max_webhooks
    → exists_where (same_hook h.org_id h.url) hooks ≡ false
    → IsWithin hooks
    → IsWithin (hooks ++ (h ∷ []))
unfolding count_where
IsWithin-append h hooks room new w = record {
  few = λ o. elim (Bool-cases (h.org_id == o)) [
    | inl e ↦ ground (
      arith,
      count_where-append (hook_of o) hooks (h ∷ []),
      subst (λ k. count_where (hook_of k) hooks < max_webhooks) (==→eq h.org_id o e) room,
      count_where-single (hook_of o) h,
    )
    | inr e ↦ ground (arith, e, count_where-append (hook_of o) hooks (h ∷ []), w.few o)
  ];
  unique = λ o u. elim (Bool-cases (same_hook o u h)) [
    | inr e ↦ ground (arith, e, count_where-append (same_hook o u) hooks (h ∷ []), w.unique o u)
    | inl e ↦
        let org = ==→eq h.org_id o (ground (arith, e)) in
        let text = same_text→eq h.url u (ground (arith, e)) in
        let none_there = exists_where-false (same_hook h.org_id h.url) hooks new in
        let none_here =
          subst (λ k. count_where (same_hook k u) hooks ≡ 0) org
            (subst (λ t. count_where (same_hook h.org_id t) hooks ≡ 0) text none_there) in
        ground (
          arith,
          e,
          count_where-append (same_hook o u) hooks (h ∷ []),
          none_here,
          count_where-single (same_hook o u) h,
        )
  ];
}

create_webhook-IsWithin :
    (net : Network) (derive : ℕ → ℕ → ℕ) (dev : Bool) (secret_key : Option ℕ) (now id : ℕ)
    (ctx : OrgContext) (url : List ℕ) (split : Option UrlParts) (events : List EventName)
    (db : WebhooksDb)
    → IsWithin db.webhooks
    → IsWithin (create_webhook net derive dev secret_key now id ctx url split events db).1.webhooks
unfolding create_webhook new_hook
create_webhook-IsWithin net derive dev none now id ctx url split events db w = w
create_webhook-IsWithin net derive dev (some master) now id ctx url split [] db w = w
create_webhook-IsWithin net derive dev (some master) now id ctx url split (e ∷ es) db w =
    elim (Checked-cases (validate_url net dev url split)) [
      | inr (f, a) ↦ rw (a, create_webhook) w
      | inl (u, a) ↦
          elim (Bool-cases (leb max_webhooks (count_where (hook_of ctx.org.id) db.webhooks))) [
            | inl b ↦ rw (a, b, create_webhook) w
            | inr b ↦ elim (Bool-cases (exists_where (same_hook ctx.org.id url) db.webhooks)) [
              | inl c ↦ rw (a, b, c, create_webhook) w
              | inr c ↦
                  rw (a, b, c, create_webhook)
                    (IsWithin-append (new_hook now id (derive id master) ctx url (e ∷ es))
                      db.webhooks (leb_false→lt max_webhooks _ b) c w)
            ]
          ]
    ]

delete_webhook-IsWithin :
    (now : ℕ) (ctx : OrgContext) (id : ℕ) (db : WebhooksDb)
    → IsWithin db.webhooks
    → IsWithin (delete_webhook now ctx id db).1.webhooks
unfolding delete_webhook
delete_webhook-IsWithin now ctx id db w =
    elim (Option-cases (find_where (hook_in id ctx.org.id) db.webhooks)) [
      | inl e ↦ rw (e, delete_webhook) w
      | inr (h, e) ↦
          rw (e, delete_webhook) (IsWithin-delete (λ (r : Webhook). r.id == h.id) db.webhooks w)
    ]

-- A request that writes webhooks.
pub data HookStep (db : WebhooksDb) : WebhooksDb → Type 0 where
  hook_created :
      (net : Network) (derive : ℕ → ℕ → ℕ) (dev : Bool) (secret_key : Option ℕ) (now id : ℕ)
      (ctx : OrgContext) (url : List ℕ) (split : Option UrlParts) (events : List EventName)
      → HookStep db (create_webhook net derive dev secret_key now id ctx url split events db).1
  hook_deleted :
      (now : ℕ) (ctx : OrgContext) (id : ℕ) → HookStep db (delete_webhook now ctx id db).1

pub data HookReach (db : WebhooksDb) : WebhooksDb → Type 0 where
  no_request : HookReach db db
  next_request : {d d' : WebhooksDb} → HookReach db d → HookStep d d' → HookReach db d'

-- Whatever webhooks the organizations create and delete, from a table where it holds no organization
-- has more than ten of them, and none has two of one URL.
pub HookReach-IsWithin :
    (db d : WebhooksDb) → HookReach db d → IsWithin db.webhooks → IsWithin d.webhooks
HookReach-IsWithin db _ no_request w = w
HookReach-IsWithin db _
      (next_request {d = c} r (hook_created net derive dev key now id ctx url split events)) w =
    create_webhook-IsWithin net derive dev key now id ctx url split events c
      (HookReach-IsWithin db c r w)
HookReach-IsWithin db _ (next_request {d = c} r (hook_deleted now ctx id)) w =
    delete_webhook-IsWithin now ctx id c (HookReach-IsWithin db c r w)
