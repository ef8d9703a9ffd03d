-- ===== src/Schedule/Quiet.antt =====
-- A tick of the loop of app/control/schedule.py handles every organization that is due.
use daas_engine.Base.{
  ==→eq, Bool, Bool-cases, List, Option, [], arith, count_where, false, if◌then◌else◌, inl, inr,
  map, refl, subst, ℕ, ◌+◌, ◌<◌, ◌==◌, ◌∷◌, ◌≡◌, ◌≤◌, ◌⊎◌,
}
use daas_engine.Schedule.{
  OrgSchedule, Zone, due_rows, due_schedules, goes_first, insert_due, is_due, schedule_of,
}
use daas_engine.Schedule.Reminders.{ReminderDb, remind_each, send_reminder, tick}
use daas_engine.Schedule.Ticks.{Claims-le, KeepOrder, due_of, send_reminder-clears}

insert_due-count :
    (q : OrgSchedule → Bool) (s : OrgSchedule) (rows : List OrgSchedule)
    → count_where q (insert_due s rows) ≡ (if q s then 1 else 0) + count_where q rows
unfolding insert_due count_where
insert_due-count q s [] = refl
insert_due-count q s (t ∷ ts) = elim (Bool-cases (goes_first s t)) [
  | inl e ↦ rw (e, insert_due) refl
  | inr e ↦ rw (e, insert_due) (omega (arith, insert_due-count q s ts))
]

due_rows-count :
    (now p : ℕ) (rows : List OrgSchedule)
    → count_where (schedule_of p) (due_rows now rows) ≡ count_where (due_of now p) rows
unfolding due_rows count_where
due_rows-count now p [] = refl
due_rows-count now p (s ∷ ss) = elim (Bool-cases (is_due now s)) [
  | inl e ↦
      rw (e, due_rows)
        (ground
          (arith, e, insert_due-count (schedule_of p) s (due_rows now ss), due_rows-count now p ss))
  | inr e ↦ rw (e, due_rows) (ground (arith, e, due_rows-count now p ss))
]

count_where-ids :
    (p : ℕ) (rows : List OrgSchedule)
    → count_where (λ (o : ℕ). o == p) (map (λ (s : OrgSchedule). s.org_id) rows)
      ≡ count_where (schedule_of p) rows
unfolding count_where
count_where-ids p [] = refl
count_where-ids p (s ∷ ss) = omega (arith, count_where-ids p ss)

-- The loop: an organization that is among those left, or is not due, is not due at the end.
remind_each-clears :
    (zones : ℕ → Option Zone) (mailer : ℕ → Bool) (now : ℕ) (os : List ℕ) (db : ReminderDb) (p : ℕ)
    → KeepOrder zones
    → ((o : ℕ) → count_where (schedule_of o) db.schedules ≤ 1)
    → (count_where (due_of now p) db.schedules ≡ 0) ⊎ (0 < count_where (λ (o : ℕ). o == p) os)
    → count_where (due_of now p) (remind_each zones mailer false now os db).1.schedules ≡ 0
unfolding remind_each count_where
remind_each-clears zones mailer now [] db p k unique (inl e) = e
remind_each-clears zones mailer now [] db p k unique (inr h) = absurd (omega (arith, h))
remind_each-clears zones mailer now (o ∷ os) db p k unique h =
    let (clear, claims) = send_reminder-clears zones mailer now o db k (unique o) in
    let changed = (send_reminder zones mailer false now o db).1 in
    remind_each-clears zones mailer now os changed p k
      (λ i. omega (arith, unique i, (Claims-le now o db.schedules changed.schedules claims i).1))
      (elim (Bool-cases (o == p)) [
        | inl e ↦
            inl (subst (λ i. count_where (due_of now i) changed.schedules ≡ 0) (==→eq o p e) clear)
        | inr e ↦ elim h [
          | inl z ↦
              inl (omega (arith, z, (Claims-le now o db.schedules changed.schedules claims p).0))
          | inr m ↦ inr (ground (arith, m, e))
        ]
      ])

-- After a tick outside of maintenance no organization is due at its moment, where each has one row and
-- the zones keep the order of days.
pub tick-none_due :
    (zones : ℕ → Option Zone) (mailer : ℕ → Bool) (now : ℕ) (db : ReminderDb) (p : ℕ)
    → KeepOrder zones
    → ((o : ℕ) → count_where (schedule_of o) db.schedules ≤ 1)
    → count_where (due_of now p) (tick zones mailer false now db).1.schedules ≡ 0
unfolding tick due_schedules
tick-none_due zones mailer now db p k unique =
    remind_each-clears zones mailer now (due_schedules now db.schedules) db p k unique
      (elim (Bool-cases (count_where (due_of now p) db.schedules == 0)) [
        | inl e ↦ inl (==→eq (count_where (due_of now p) db.schedules) 0 e)
        | inr e ↦ inr (
            ground (
              arith,
              e,
              count_where-ids p (due_rows now db.schedules),
              due_rows-count now p db.schedules,
            ))
      ])
