-- ===== src/Tenancy/Laws.antt =====
-- What the eviction of app/control/tenancy.py may and does remove.
use daas_engine.Base.{
  ==→eq, Bool, Bool-cases, List, [], ap, arith, count_where, delete_where, exists_where, false,
  find_where, inl, inr, leb, leb→le, length, not, refl, true, ℕ, ◌&&◌, ◌==◌, ◌∷◌, ◌≡◌, ◌≤◌, ◌⊎◌,
}
use daas_engine.Base.Tables.Laws.{count_where_mono}
use daas_engine.Tenancy.{Entry, Registry, entry_of, evict_loop, evict_over_limit, is_kept}

delete_where-kept :
    (keep : ℕ) (in_use : List (ℕ × ℕ)) (out o : ℕ) (entries : List Entry)
    → is_kept keep in_use out ≡ false
    → is_kept keep in_use o ≡ true
    → find_where (entry_of o) (delete_where (entry_of out) entries)
      ≡ find_where (entry_of o) entries
unfolding find_where delete_where
delete_where-kept keep in_use out o [] k h = refl
delete_where-kept keep in_use out o (e ∷ es) k h = elim (Bool-cases (out == o)) [
  | inl same ↦ absurd (ground (arith, k, h, ap (is_kept keep in_use) (==→eq out o same)))
  | inr apart ↦ ground (arith, apart, delete_where-kept keep in_use out o es k h)
]

-- An entry in use, or the one that the call is for, is not evicted.
evict_loop-kept :
    (max_active keep : ℕ) (in_use : List (ℕ × ℕ)) (es entries : List Entry) (o : ℕ)
    → is_kept keep in_use o ≡ true
    → find_where (entry_of o) (evict_loop max_active keep in_use es entries)
      ≡ find_where (entry_of o) entries
unfolding evict_loop
evict_loop-kept max_active keep in_use [] entries o h = refl
evict_loop-kept max_active keep in_use (e ∷ es) entries o h =
    elim (Bool-cases (is_kept keep in_use e.org_id)) [
      | inl k ↦ ground (arith, k, evict_loop-kept max_active keep in_use es entries o h)
      | inr k ↦ ground (
        arith,
        k,
        evict_loop-kept max_active keep in_use es (delete_where (entry_of e.org_id) entries) o h,
        delete_where-kept keep in_use e.org_id o entries k h,
      )
    ]

-- An entry that may go and that the loop does not come to.
unfoldable pub may_go : ℕ → List (ℕ × ℕ) → Entry → Bool
may_go keep in_use e = not (is_kept keep in_use e.org_id)

listed : List Entry → Entry → Bool
listed es e = exists_where (λ (x : Entry). x.org_id == e.org_id) es

missed : ℕ → List (ℕ × ℕ) → List Entry → Entry → Bool
missed keep in_use es e = may_go keep in_use e && not (listed es e)

missed-kept :
    (keep : ℕ) (in_use : List (ℕ × ℕ)) (x : Entry) (es : List Entry) (e : Entry)
    → is_kept keep in_use x.org_id ≡ true
    → missed keep in_use es e ≡ true
    → missed keep in_use (x ∷ es) e ≡ true
unfolding missed listed may_go exists_where
missed-kept keep in_use x es e k h = elim (Bool-cases (x.org_id == e.org_id)) [
  | inl same ↦
      absurd (ground (arith, k, h, ap (is_kept keep in_use) (==→eq x.org_id e.org_id same)))
  | inr apart ↦ ground (arith, apart, h)
]

missed-deleted :
    (keep : ℕ) (in_use : List (ℕ × ℕ)) (x : Entry) (es entries : List Entry)
    → count_where (missed keep in_use es) (delete_where (entry_of x.org_id) entries)
      ≤ count_where (missed keep in_use (x ∷ es)) entries
unfolding missed listed exists_where count_where delete_where
missed-deleted keep in_use x es [] = omega arith
missed-deleted keep in_use x es (e ∷ entries) = elim (Bool-cases (e.org_id == x.org_id)) [
  | inl same ↦ ground (arith, same, missed-deleted keep in_use x es entries)
  | inr apart ↦ ground (arith, apart, missed-deleted keep in_use x es entries)
]

evict_loop-missed :
    (max_active keep : ℕ) (in_use : List (ℕ × ℕ)) (es entries : List Entry)
    → count_where (missed keep in_use es) entries ≡ 0
    → (length (evict_loop max_active keep in_use es entries) ≤ max_active)
      ⊎ (count_where (may_go keep in_use) (evict_loop max_active keep in_use es entries) ≡ 0)
unfolding evict_loop
evict_loop-missed max_active keep in_use [] entries h = inr (
    omega (
      arith,
      h,
      count_where_mono (may_go keep in_use) (missed keep in_use []) entries
          (λ x e. unfold missed listed exists_where in ground (arith, e)),
    ))
evict_loop-missed max_active keep in_use (e ∷ es) entries h =
    elim (Bool-cases (leb (length entries) max_active)) [
      | inl l ↦ inl (rw (l, evict_loop) (leb→le (length entries) max_active l))
      | inr l ↦ elim (Bool-cases (is_kept keep in_use e.org_id)) [
        | inl k ↦
            rw (l, k, evict_loop)
              (evict_loop-missed max_active keep in_use es entries (
                omega (
                  arith,
                  h,
                  count_where_mono (missed keep in_use es) (missed keep in_use (e ∷ es)) entries
                      (λ x m. missed-kept keep in_use e es x k m),
                )))
        | inr k ↦
            rw (l, k, evict_loop)
              (evict_loop-missed max_active keep in_use es
                (delete_where (entry_of e.org_id) entries)
                (omega (arith, h, missed-deleted keep in_use e es entries)))
      ]
    ]

all_listed :
    (keep : ℕ) (in_use : List (ℕ × ℕ)) (es entries : List Entry)
    → ((x : Entry) → listed entries x ≡ true → listed es x ≡ true)
    → count_where (missed keep in_use es) entries ≡ 0
unfolding missed count_where
all_listed keep in_use es [] h = refl
all_listed keep in_use es (e ∷ entries) h = ground (
  arith,
  h e (unfold listed exists_where in ground arith),
  all_listed keep in_use es entries (λ x l. h x (unfold listed exists_where in ground (arith, l))),
)

-- After an eviction the registry is within its limit, or holds entries alone that it may not evict:
-- that of the call and those in use.
pub evict_over_limit-bound :
    (keep : ℕ) (r : Registry)
    → (length (evict_over_limit keep r).entries ≤ r.max_active)
      ⊎ (count_where (may_go keep r.in_use) (evict_over_limit keep r).entries ≡ 0)
unfolding evict_over_limit
evict_over_limit-bound keep r =
    evict_loop-missed r.max_active keep r.in_use r.entries r.entries
      (all_listed keep r.in_use r.entries r.entries (λ x l. l))

-- An eviction leaves the entry of the call and every entry in use as they were.
pub evict_over_limit-kept :
    (keep o : ℕ) (r : Registry)
    → is_kept keep r.in_use o ≡ true
    → find_where (entry_of o) (evict_over_limit keep r).entries ≡ find_where (entry_of o) r.entries
unfolding evict_over_limit
evict_over_limit-kept keep o r h =
    evict_loop-kept r.max_active keep r.in_use r.entries r.entries o h
