-- ===== src/Schedule/Ticks.antt =====
-- A tick of the loop of app/control/schedule.py leaves no reminder due.
use daas_engine.Base.{
  ==_refl, ==→eq, Bool, Bool-cases, List, Option, Option-cases, ap, arith, count_where, false,
  find_where, inl, inr, leb, ltb, none, refl, some, subst, sym, true, update_where, ℕ, ◌&&◌, ◌<◌,
  ◌==◌, ◌||◌, ◌∙◌, ◌≡◌, ◌≤◌, ◌⊎◌,
}
use daas_engine.Base.Tables.Laws.{
  count_where-lone, count_where-update_keep, count_where-update_le, count_where_mono,
  find_where-meets, find_where-none, find_where-update,
}
use daas_engine.Schedule.{
  KeepsOrder, OrgSchedule, Zone, compute_next_reminder, invalid, is_due, schedule_of, slot,
}
use daas_engine.Schedule.Once.{IsFuture}
use daas_engine.Schedule.Reminders.{
  ReminderDb, claim_slot, claimable, claimed_row, remind, remind_row, send_reminder,
}
use daas_engine.Schedule.Slots.{compute_next_reminder-IsNext}

abbrev pub due_of : ℕ → ℕ → OrgSchedule → Bool
due_of now org_id s = schedule_of org_id s && is_due now s

-- What a reminder does to the rows: nothing, or it claims a moment that has come.
pub data Claims (now org_id : ℕ) (rows : List OrgSchedule) : List OrgSchedule → Type 0 where
  claims_nothing : Claims now org_id rows rows
  claims_moment :
      (due_at : ℕ) (following : Option ℕ)
      → IsFuture now following
      → Claims now org_id rows
          (update_where (claimable org_id due_at) (claimed_row now following) rows)

claimed_row-not_due :
    (now p : ℕ) (following : Option ℕ) (s : OrgSchedule)
    → IsFuture now following
    → due_of now p (claimed_row now following s) ≡ false
unfolding claimed_row
claimed_row-not_due now p following s (inl e) = rw e (ground arith)
claimed_row-not_due now p following s (inr (t, e, lt)) = rw e (ground (arith, lt))

pub Claims-le :
    (now o : ℕ) (rows after : List OrgSchedule)
    → Claims now o rows after
    → (p : ℕ)
    → (count_where (due_of now p) after ≤ count_where (due_of now p) rows)
      × (count_where (schedule_of p) after ≡ count_where (schedule_of p) rows)
unfolding claimed_row
Claims-le now o rows _ claims_nothing p = (omega arith, refl)
Claims-le now o rows _ (claims_moment due_at following f) p = (
  count_where-update_le (due_of now p) (claimable o due_at) (claimed_row now following) rows
      (λ s c d. absurd (ground (arith, d, claimed_row-not_due now p following s f))),
  count_where-update_keep (schedule_of p) (claimable o due_at) (claimed_row now following) rows
      (λ s c. refl),
)

remind-Claims :
    (mailer : ℕ → Bool) (now : ℕ) (s : OrgSchedule) (due_at : ℕ) (following : Option ℕ)
    (db : ReminderDb)
    → IsFuture now following
    → Claims now s.org_id db.schedules (remind mailer now s due_at following db).1.schedules
unfolding remind claim_slot
remind-Claims mailer now s due_at following db f =
    elim (Bool-cases (count_where (claimable s.org_id due_at) db.schedules == 1)) [
      | inl a ↦ rw (a, remind) (claims_moment due_at following f)
      | inr a ↦ rw (a, remind) claims_nothing
    ]

-- The computation of a following moment, in zones that keep the order of days.
abbrev pub KeepOrder : (ℕ → Option Zone) → Type 0
KeepOrder zones = (tz : ℕ) (zone : Zone) → zones tz ≡ some zone → KeepsOrder zone

compute-cases :
    (zones : ℕ → Option Zone) (weekday hour tz now : ℕ)
    → KeepOrder zones
    → ((t : ℕ) × (compute_next_reminder zones weekday hour tz now ≡ slot t) × (now < t))
      ⊎ (compute_next_reminder zones weekday hour tz now ≡ invalid)
unfolding compute_next_reminder
compute-cases zones weekday hour tz now k = elim (Bool-cases (ltb 6 weekday || ltb 23 hour)) [
  | inl a ↦ inr (rw (a, compute_next_reminder) refl)
  | inr a ↦ elim (Option-cases (zones tz)) [
    | inl b ↦ inr (rw (a, b, compute_next_reminder) refl)
    | inr (zone, b) ↦
        let (d, e, n, near) =
          compute_next_reminder-IsNext zones zone weekday hour tz now b (k tz zone b)
            (ground (arith, a)) (ground (arith, a)) in
        inl (zone.moment_of d hour, e, n.is_later)
  ]
]

-- After a due row was handled, in a table with one row of its organization, it is not due.
remind_row-clears :
    (zones : ℕ → Option Zone) (mailer : ℕ → Bool) (now : ℕ) (s : OrgSchedule) (due_at : ℕ)
    (db : ReminderDb)
    → KeepOrder zones
    → find_where (schedule_of s.org_id) db.schedules ≡ some s
    → count_where (schedule_of s.org_id) db.schedules ≤ 1
    → s.reminder_enabled ≡ true
    → s.next_reminder_at ≡ some due_at
    → ((following : Option ℕ) × IsFuture now following
        × ((remind_row zones mailer now s due_at db).1.schedules
            ≡ update_where (claimable s.org_id due_at) (claimed_row now following) db.schedules))
unfolding remind_row remind claim_slot
remind_row-clears zones mailer now s due_at db k found one on at_due =
    let mine : claimable s.org_id due_at s ≡ true =
      rw (on, at_due, ==_refl s.org_id, ==_refl due_at) refl in
    let lone =
      count_where-lone (claimable s.org_id due_at) (schedule_of s.org_id) db.schedules s found one
        (λ x. ground arith) in
    let exactly : count_where (claimable s.org_id due_at) db.schedules ≡ 1 =
      ground (arith, lone, mine) in
    elim (compute-cases zones s.reminder_weekday s.reminder_hour s.timezone now k) [
      | inl (t, e, lt) ↦ (some t, inr (t, refl, lt), rw (e, remind_row) (rw (exactly, remind) refl))
      | inr e ↦ (none, inl refl, rw (e, remind_row) (rw (exactly, remind) refl))
    ]

not_due_now :
    (now o : ℕ) (rows : List OrgSchedule) (s : OrgSchedule)
    → find_where (schedule_of o) rows ≡ some s
    → count_where (schedule_of o) rows ≤ 1
    → is_due now s ≡ false
    → count_where (due_of now o) rows ≡ 0
not_due_now now o rows s found one not_due = ground (
  arith,
  not_due,
  count_where-lone (due_of now o) (schedule_of o) rows s found one (λ x. ground arith),
)

is_due-claimed :
    (now : ℕ) (following : Option ℕ) (s : OrgSchedule)
    → IsFuture now following
    → is_due now (claimed_row now following s) ≡ false
unfolding claimed_row
is_due-claimed now following s (inl e) = rw e (ground arith)
is_due-claimed now following s (inr (t, e, lt)) = rw e (ground (arith, lt))

-- The claim of the row of an organization leaves it not due.
cleared_due :
    (now o due_at : ℕ) (following : Option ℕ) (rows : List OrgSchedule) (s : OrgSchedule)
    → IsFuture now following
    → find_where (schedule_of o) rows ≡ some s
    → count_where (schedule_of o) rows ≤ 1
    → claimable o due_at s ≡ true
    → count_where
        (due_of now o)
        (update_where (claimable o due_at) (claimed_row now following) rows)
      ≡ 0
unfolding claimed_row
cleared_due now o due_at following rows s f found one mine =
    let changed : List OrgSchedule =
      update_where (claimable o due_at) (claimed_row now following) rows in
    let same =
      count_where-update_keep (schedule_of o) (claimable o due_at) (claimed_row now following) rows
        (λ x h. refl) in
    let there : find_where (schedule_of o) changed ≡ some (claimed_row now following s) =
      find_where-update (schedule_of o) (claimable o due_at) (claimed_row now following) rows
        (λ x h. refl)
      ∙ rw found (rw mine refl) in
    not_due_now now o changed (claimed_row now following s) there (omega (arith, same, one))
      (is_due-claimed now following s f)

-- The claim of a due row.
handled_row :
    (zones : ℕ → Option Zone) (mailer : ℕ → Bool) (now o due_at : ℕ) (s : OrgSchedule)
    (db : ReminderDb)
    → KeepOrder zones
    → find_where (schedule_of o) db.schedules ≡ some s
    → count_where (schedule_of o) db.schedules ≤ 1
    → s.reminder_enabled ≡ true
    → s.next_reminder_at ≡ some due_at
    → s.org_id ≡ o
    → (count_where (due_of now o) (remind_row zones mailer now s due_at db).1.schedules ≡ 0)
      × Claims now o db.schedules (remind_row zones mailer now s due_at db).1.schedules
handled_row zones mailer now o due_at s db k a one b c own =
    let (following, f, e) =
      remind_row-clears zones mailer now s due_at db k
        (subst (λ i. find_where (schedule_of i) db.schedules ≡ some s) (sym own) a)
        (subst (λ i. count_where (schedule_of i) db.schedules ≤ 1) (sym own) one) b c in
    let mine : claimable o due_at s ≡ true = rw (own, b, c, ==_refl o, ==_refl due_at) refl in
    let e' =
      subst
        (λ i.
          (remind_row zones mailer now s due_at db).1.schedules
          ≡ update_where (claimable i due_at) (claimed_row now following) db.schedules)
        own e in
    (
      ap (count_where (due_of now o)) e'
          ∙ cleared_due now o due_at following db.schedules s f a one mine,
      subst (λ rows. Claims now o db.schedules rows) (sym e') (claims_moment due_at following f),
    )

-- One reminder: no row of its organization is due afterwards, and no row of another comes to be.
pub send_reminder-clears :
    (zones : ℕ → Option Zone) (mailer : ℕ → Bool) (now o : ℕ) (db : ReminderDb)
    → KeepOrder zones
    → count_where (schedule_of o) db.schedules ≤ 1
    → (count_where (due_of now o) (send_reminder zones mailer false now o db).1.schedules ≡ 0)
      × Claims now o db.schedules (send_reminder zones mailer false now o db).1.schedules
unfolding send_reminder
send_reminder-clears zones mailer now o db k one =
    elim (Option-cases (find_where (schedule_of o) db.schedules)) [
      | inl a ↦
          let none_there = find_where-none (schedule_of o) db.schedules a in
          let fewer =
            count_where_mono (due_of now o) (schedule_of o) db.schedules (λ x. ground arith) in
          rw (a, send_reminder) (omega (arith, none_there, fewer), claims_nothing)
      | inr (s, a) ↦ elim (Bool-cases s.reminder_enabled) [
        | inr b ↦
            rw (a, b, send_reminder)
              (not_due_now now o db.schedules s a one (ground (arith, b)), claims_nothing)
        | inl b ↦ elim (Option-cases s.next_reminder_at) [
          | inl c ↦
              rw (a, b, c, send_reminder)
                (not_due_now now o db.schedules s a one (rw (b, c) refl), claims_nothing)
          | inr (due_at, c) ↦ elim (Bool-cases (leb due_at now)) [
            | inr d ↦
                rw (a, b, c, d, send_reminder)
                  (not_due_now now o db.schedules s a one (rw (b, c) d), claims_nothing)
            | inl d ↦
                rw (a, b, c, d, send_reminder)
                  (handled_row zones mailer now o due_at s db k a one b c
                    (==→eq s.org_id o (find_where-meets (schedule_of o) db.schedules s a)))
          ]
        ]
      ]
    ]
