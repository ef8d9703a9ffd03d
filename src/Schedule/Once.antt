-- ===== src/Schedule/Once.antt =====
-- A reminder of app/control/schedule.py goes out once for each moment.
use daas_engine.Base.{
  Bool, Bool-cases, List, Option, Option-cases, ap, arith, count_where, false, inl, inr, ltb,
  ltb→lt, none, refl, some, subst, suc, sym, update_where, zero, ℕ, ◌&&◌, ◌+◌, ◌<◌, ◌==◌, ◌||◌, ◌∙◌,
  ◌≡◌, ◌≤◌, ◌⊎◌,
}
use daas_engine.Base.Tables.Laws.{count_where-update_clear}
use daas_engine.RateLimit.Window.{after}
use daas_engine.Schedule.{
  OrgSchedule, Slot-cases, Zone, compute_next_reminder, search_days, searched_days, slot,
  weekday_of,
}
use daas_engine.Schedule.Reminders.{
  ReminderDb, ReminderResult, claim_slot, claimable, claimed_row, remind, remind_row,
}

search_days-later :
    (zone : Zone) (weekday hour after day left t : ℕ)
    → search_days zone weekday hour after day left ≡ slot t
    → after < t
unfolding search_days
search_days-later zone weekday hour after day zero t e = absurd (cc)
search_days-later zone weekday hour after day (suc left) t e =
    elim (Bool-cases (weekday_of day == weekday && ltb after (zone.moment_of day hour))) [
      | inl f ↦
          let same : zone.moment_of day hour ≡ t = ground (arith, e, f) in
          subst (λ m. after < m) same (ltb→lt after _ (ground (arith, f)))
      | inr f ↦ search_days-later zone weekday hour after (day + 1) left t (ground (arith, e, f))
    ]

-- A moment that is computed is later than the given one.
pub compute_next_reminder-later :
    (zones : ℕ → Option Zone) (weekday hour tz after t : ℕ)
    → compute_next_reminder zones weekday hour tz after ≡ slot t
    → after < t
unfolding compute_next_reminder
compute_next_reminder-later zones weekday hour tz after t e =
    elim (Bool-cases (ltb 6 weekday || ltb 23 hour)) [
      | inl a ↦ absurd (ground (arith, a, e))
      | inr a ↦ elim (Option-cases (zones tz)) [
        | inl b ↦ absurd (ground (arith, a, b, e))
        | inr (zone, b) ↦
            search_days-later zone weekday hour after (zone.day_of after) searched_days t
              (ground (arith, a, b, e))
      ]
    ]

-- A following moment, none where it cannot be computed, is later than now.
abbrev pub IsFuture : ℕ → Option ℕ → Type 0
IsFuture now following = (following ≡ none) ⊎ ((t : ℕ) × (following ≡ some t) × (now < t))

claimed_row-not_claimable :
    (now org_id due_at : ℕ) (following : Option ℕ) (s : OrgSchedule)
    → due_at ≤ now
    → IsFuture now following
    → claimable org_id due_at (claimed_row now following s) ≡ false
unfolding claimed_row
claimed_row-not_claimable now org_id due_at following s le (inl e) = rw e (ground arith)
claimed_row-not_claimable now org_id due_at following s le (inr (t, e, lt)) =
    rw e (ground (arith, lt, le))

remind-claimed :
    (mailer : ℕ → Bool) (now : ℕ) (s : OrgSchedule) (due_at : ℕ) (following : Option ℕ)
    (db : ReminderDb) (r : ReminderResult)
    → (remind mailer now s due_at following db).0 ≡ some r
    → (remind mailer now s due_at following db).1.schedules
      ≡ update_where (claimable s.org_id due_at) (claimed_row now following) db.schedules
unfolding remind claim_slot
remind-claimed mailer now s due_at following db r e =
    elim (Bool-cases (count_where (claimable s.org_id due_at) db.schedules == 1)) [
      | inl a ↦ rw (a, remind) refl
      | inr a ↦ absurd (ground (arith, a, e))
    ]

remind-none :
    (mailer : ℕ → Bool) (now : ℕ) (s : OrgSchedule) (due_at : ℕ) (following : Option ℕ)
    (db : ReminderDb)
    → count_where (claimable s.org_id due_at) db.schedules ≡ 0
    → remind mailer now s due_at following db ≡ (none, db)
unfolding remind claim_slot
remind-none mailer now s due_at following db e = rw (e, remind) refl

remind_row-none :
    (zones : ℕ → Option Zone) (mailer : ℕ → Bool) (now : ℕ) (s : OrgSchedule) (due_at : ℕ)
    (db : ReminderDb)
    → count_where (claimable s.org_id due_at) db.schedules ≡ 0
    → remind_row zones mailer now s due_at db ≡ (none, db)
unfolding remind_row
remind_row-none zones mailer now s due_at db e =
    elim (Slot-cases
      (compute_next_reminder zones s.reminder_weekday s.reminder_hour s.timezone now)) [
        | inl (t, a) ↦ rw (a, remind_row) (remind-none mailer now s due_at (some t) db e)
        | inr (inl a) ↦ rw (a, remind_row) (remind-none mailer now s due_at none db e)
        | inr (inr a) ↦ rw (a, remind_row) refl
      ]

cleared_claims :
    (now org_id due_at : ℕ) (following : Option ℕ) (rows : List OrgSchedule)
    → due_at ≤ now
    → IsFuture now following
    → count_where
        (claimable org_id due_at)
        (update_where (claimable org_id due_at) (claimed_row now following) rows)
      ≡ 0
cleared_claims now org_id due_at following rows le f =
    count_where-update_clear (claimable org_id due_at) (claimed_row now following) rows
      (λ s. claimed_row-not_claimable now org_id due_at following s le f)

-- A reminder for a moment that has come goes out once: after one that claimed it, any other for the
-- same moment of the same row, read before or after and at whatever time, claims nothing, sends
-- nothing and changes nothing.
pub remind_row-once :
    (zones : ℕ → Option Zone) (mailer mailer2 : ℕ → Bool) (now again : ℕ) (s : OrgSchedule)
    (due_at : ℕ) (db : ReminderDb) (r : ReminderResult)
    → due_at ≤ now
    → (remind_row zones mailer now s due_at db).0 ≡ some r
    → remind_row zones mailer2 again s due_at (remind_row zones mailer now s due_at db).1
      ≡ (none, (remind_row zones mailer now s due_at db).1)
unfolding remind_row
remind_row-once zones mailer mailer2 now again s due_at db r le e =
    elim (Slot-cases
      (compute_next_reminder zones s.reminder_weekday s.reminder_hour s.timezone now)) [
        | inl (t, a) ↦
            let run : remind_row zones mailer now s due_at db
                ≡ remind mailer now s due_at (some t) db =
              rw (a, remind_row) refl in
            let future : IsFuture now (some t) = inr (
              t,
              refl,
              compute_next_reminder-later zones s.reminder_weekday s.reminder_hour s.timezone now t
                  a,
            ) in
            rw run (
              remind_row-none zones mailer2 again s due_at
                (remind mailer now s due_at (some t) db).1
                (rw (remind-claimed mailer now s due_at (some t) db r (sym (ap (λ z. z.0) run) ∙ e))
                  (cleared_claims now s.org_id due_at (some t) db.schedules le future)))
        | inr (inl a) ↦
            let run : remind_row zones mailer now s due_at db ≡ remind mailer now s due_at none db =
              rw (a, remind_row) refl in
            rw run (
              remind_row-none zones mailer2 again s due_at (remind mailer now s due_at none db).1 (
                rw (remind-claimed mailer now s due_at none db r (sym (ap (λ z. z.0) run) ∙ e))
                  (cleared_claims now s.org_id due_at none db.schedules le (inl refl))))
        | inr (inr a) ↦ absurd (ground (arith, a, e))
      ]
