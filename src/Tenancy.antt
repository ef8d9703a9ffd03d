-- ===== src/Tenancy.antt =====
-- `TenantRegistry` of app/control/tenancy.py: the runners of the organizations, at most `max_active` of
-- them as far as their use allows. A runner is a number; directories and locks are not modelled.
pub mod Laws
use daas_engine.Base.{
  Bool, List, Option, [], delete_where, false, find_where, if◌then◌else◌, leb, length, ltb, none,
  not, some, true, ℕ, ◌++◌, ◌+◌, ◌-◌, ◌==◌, ◌||◌, ◌∷◌,
}

pub record Entry : Type 0 where
  pub org_id : ℕ
  pub runner : ℕ
  pub llm_narrative : Option Bool

-- The entries stand in the order of their last use, the oldest first.
pub record Registry : Type 0 where
  pub max_active : ℕ
  pub entries : List Entry
  pub in_use : List (ℕ × ℕ)
  pub evictions : ℕ

abbrev pub entry_of : ℕ → Entry → Bool
entry_of org_id e = e.org_id == org_id

-- `self._in_use.get(org_id, 0)`.
unfoldable pub uses : ℕ → List (ℕ × ℕ) → ℕ
uses org_id [] = 0
uses org_id (u ∷ us) = if u.0 == org_id then u.1 else uses org_id us

-- `self._in_use[org_id] = n`.
unfoldable pub set_uses : ℕ → ℕ → List (ℕ × ℕ) → List (ℕ × ℕ)
set_uses org_id n [] = (org_id, n) ∷ []
set_uses org_id n (u ∷ us) = if u.0 == org_id then (org_id, n) ∷ us else u ∷ set_uses org_id n us

-- The entries that the loop passes over.
unfoldable pub is_kept : ℕ → List (ℕ × ℕ) → ℕ → Bool
unfolding uses
is_kept keep in_use org_id = org_id == keep || ltb 0 (uses org_id in_use)

-- The loop of `_evict_over_limit` over a copy of the entries.
unfoldable pub evict_loop : ℕ → ℕ → List (ℕ × ℕ) → List Entry → List Entry → List Entry
unfolding is_kept
evict_loop max_active keep in_use [] entries = entries
evict_loop max_active keep in_use (e ∷ es) entries =
    if leb (length entries) max_active
    then entries
    else if is_kept keep in_use e.org_id
    then evict_loop max_active keep in_use es entries
    else evict_loop max_active keep in_use es (delete_where (entry_of e.org_id) entries)

-- `_evict_over_limit`.
unfoldable pub evict_over_limit : ℕ → Registry → Registry
unfolding evict_loop
evict_over_limit keep r =
    let left = evict_loop r.max_active keep r.in_use r.entries r.entries in
    record r { entries = left; evictions = r.evictions + (length r.entries - length left) }

abbrev pub same_flag : Bool → Bool → Bool
same_flag true b = b
same_flag false b = not b

-- `llm_narrative is None or entry.llm_narrative == llm_narrative`.
unfoldable pub serves : Option Bool → Entry → Bool
serves none e = true
serves (some b) e = elim e.llm_narrative [ none ↦ false | some c ↦ same_flag b c ]

-- The entry at the end.
unfoldable pub moved_to_end : Entry → List Entry → List Entry
moved_to_end e entries = delete_where (entry_of e.org_id) entries ++ (e ∷ [])

unfoldable pub built : ℕ → ℕ → Option Bool → Entry
built fresh org_id llm_narrative = record {
  org_id = org_id;
  runner = fresh;
  llm_narrative = llm_narrative;
}

unfoldable pub rebuilt : ℕ → ℕ → Option Bool → Registry → Registry
unfolding built moved_to_end evict_over_limit
rebuilt fresh org_id llm_narrative r =
    evict_over_limit org_id
      (record r { entries = moved_to_end (built fresh org_id llm_narrative) r.entries })

-- `get`; `fresh` is the runner that is built if one has to be.
unfoldable pub get : ℕ → ℕ → Option Bool → Registry → ℕ × Registry
unfolding serves moved_to_end rebuilt
get fresh org_id llm_narrative r = elim (find_where (entry_of org_id) r.entries) [
  | none ↦ (fresh, rebuilt fresh org_id llm_narrative r)
  | some e ↦
      if serves llm_narrative e
      then (e.runner, record r { entries = moved_to_end e r.entries })
      else (fresh, rebuilt fresh org_id llm_narrative r)
]

unfoldable pub evict : ℕ → Registry → Registry
unfolding uses
evict org_id r =
    if uses org_id r.in_use == 0
    then record r { entries = delete_where (entry_of org_id) r.entries }
    else r

unfoldable pub mark_in_use : ℕ → Registry → Registry
unfolding uses set_uses
mark_in_use org_id r = record r { in_use = set_uses org_id (uses org_id r.in_use + 1) r.in_use }

-- `max(0, n - 1)`, which subtraction on ℕ computes.
unfoldable pub release : ℕ → Registry → Registry
unfolding uses set_uses
release org_id r = record r { in_use = set_uses org_id (uses org_id r.in_use - 1) r.in_use }

unfoldable pub close_all : Registry → Registry
close_all r = record r { entries = [] }

unfoldable pub forget : ℕ → Registry → Registry
forget org_id r = record r {
  entries = delete_where (entry_of org_id) r.entries;
  in_use = delete_where (λ (u : ℕ × ℕ). u.0 == org_id) r.in_use;
}
