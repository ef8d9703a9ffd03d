-- ===== src/Schedule.antt =====
-- The weekly reminder of app/control/schedule.py: when it is due. Times are seconds from the epoch,
-- days are counted from the epoch, and a time zone is a parameter.
pub mod Reminders
pub mod Settings
pub mod Slots
pub mod Once
pub mod Ticks
pub mod Quiet
use daas_engine.Base.{
  Bool, List, Option, [], false, if◌then◌else◌, inl, inr, leb, ltb, map, none, refl, some, suc,
  true, zero, ℕ, ◌%◌, ◌&&◌, ◌+◌, ◌<◌, ◌==◌, ◌||◌, ◌∷◌, ◌≡◌, ◌⊎◌,
}
use daas_engine.RateLimit.Window.{after}

-- A zone of `zoneinfo`: the local day of a moment, and the moment of an hour of a local day, the first
-- one where there are two.
pub record Zone : Type 0 where
  pub day_of : ℕ → ℕ
  pub moment_of : ℕ → ℕ → ℕ

-- A later local day has later moments.
pub record KeepsOrder (zone : Zone) : Type 0 where
  pub later_day : (t day hour : ℕ) → zone.day_of t < day → t < zone.moment_of day hour

-- `date.weekday()`: the epoch was a Thursday.
abbrev pub weekday_of : ℕ → ℕ
weekday_of day = (day + 3) % 7

-- What `compute_next_reminder` ends with: a moment, a `ValueError` or `ZoneInfoNotFoundError`, or the
-- `AssertionError` at its end.
pub data NextSlot : Type 0 where
  slot : ℕ → NextSlot
  invalid : NextSlot
  unreachable : NextSlot

pub Slot-cases : (n : NextSlot) → ((t : ℕ) × (n ≡ slot t)) ⊎ (n ≡ invalid) ⊎ (n ≡ unreachable)
Slot-cases (slot t) = inl (t, refl)
Slot-cases invalid = inr (inl refl)
Slot-cases unreachable = inr (inr refl)

-- The loop over the days from `day` on, of which `left` are left.
unfoldable pub search_days : Zone → ℕ → ℕ → ℕ → ℕ → ℕ → NextSlot
search_days zone weekday hour after day zero = unreachable
search_days zone weekday hour after day (suc left) =
    let rest = search_days zone weekday hour after (day + 1) left in
    if weekday_of day == weekday && ltb after (zone.moment_of day hour)
    then slot (zone.moment_of day hour)
    else rest

-- `range(15)`: two whole weeks.
abbrev pub searched_days : ℕ
searched_days = 15

-- `compute_next_reminder`; `zones` is `ZoneInfo`, none for a name that it does not know.
unfoldable pub compute_next_reminder : (ℕ → Option Zone) → ℕ → ℕ → ℕ → ℕ → NextSlot
unfolding search_days
compute_next_reminder zones weekday hour tz after =
    if ltb 6 weekday || ltb 23 hour then invalid else elim (zones tz) [
      | none ↦ invalid
      | some zone ↦ search_days zone weekday hour after (zone.day_of after) searched_days
    ]

-- The row of an organization; `timezone` is the number of the name.
pub data ChatKind : Type 0 where
  slack teams generic : ChatKind

pub record OrgSchedule : Type 0 where
  pub org_id : ℕ
  pub reminder_enabled : Bool
  pub reminder_weekday : ℕ
  pub reminder_hour : ℕ
  pub timezone : ℕ
  pub reminder_skip_if_recent_upload : Bool
  pub auto_run_on_upload : Bool
  pub notify_on_finish : Bool
  pub notify_webhook_url : Option (List ℕ)
  pub notify_webhook_kind : ChatKind
  pub next_reminder_at : Option ℕ
  pub last_reminder_at : Option ℕ
  pub updated_at : Option ℕ

-- `next_for`: what the row says of the next reminder; an error of the computation is passed on.
unfoldable pub next_for : (ℕ → Option Zone) → OrgSchedule → ℕ → Option NextSlot
unfolding compute_next_reminder
next_for zones s after =
    if s.reminder_enabled
    then some (compute_next_reminder zones s.reminder_weekday s.reminder_hour s.timezone after)
    else none

-- `next_reminder_at <= now`, where there is one.
abbrev pub has_come : ℕ → Option ℕ → Bool
has_come now none = false
has_come now (some t) = leb t now

-- The condition of `due_schedules`, and the test of `send_reminder`.
abbrev pub is_due : ℕ → OrgSchedule → Bool
is_due now s = s.reminder_enabled && has_come now s.next_reminder_at

abbrev pub schedule_of : ℕ → OrgSchedule → Bool
schedule_of org_id s = s.org_id == org_id

-- The due rows in the order of their moments and organizations.
unfoldable pub goes_first : OrgSchedule → OrgSchedule → Bool
goes_first s t = elim s.next_reminder_at [
  | none ↦ true
  | some a ↦ elim t.next_reminder_at [
    | none ↦ false
    | some b ↦ ltb a b || a == b && leb s.org_id t.org_id
  ]
]

unfoldable pub insert_due : OrgSchedule → List OrgSchedule → List OrgSchedule
unfolding goes_first
insert_due s [] = s ∷ []
insert_due s (t ∷ ts) = if goes_first s t then s ∷ (t ∷ ts) else t ∷ insert_due s ts

unfoldable pub due_rows : ℕ → List OrgSchedule → List OrgSchedule
unfolding insert_due
due_rows now [] = []
due_rows now (s ∷ ss) =
    let rest = due_rows now ss in if is_due now s then insert_due s rest else rest

-- `due_schedules`.
unfoldable pub due_schedules : ℕ → List OrgSchedule → List ℕ
unfolding due_rows
due_schedules now rows = map (λ (s : OrgSchedule). s.org_id) (due_rows now rows)
