-- ===== src/Schedule/Slots.antt =====
-- The moment that `compute_next_reminder` of app/control/schedule.py gives: there is one, it is right,
-- and it is the next one.
use daas_engine.Base.{
  ==_refl, ==→eq, Bool-cases, Option, arith, false, inl, inr, ltb, ltb→lt, refl, some, subst, suc,
  sym, true, zero, ℕ, ◌%◌, ◌&&◌, ◌+◌, ◌-◌, ◌<◌, ◌==◌, ◌∙◌, ◌≡◌, ◌≢◌, ◌≤◌, ◌⊎◌,
}
use daas_engine.Schedule.{
  KeepsOrder, Zone, compute_next_reminder, search_days, searched_days, slot, weekday_of,
}

-- A moment of the day `e` is no later one of the weekday.
abbrev pub Fails : Zone → ℕ → ℕ → ℕ → ℕ → Type 0
Fails zone weekday hour after e = (weekday_of e ≢ weekday) ⊎ (zone.moment_of e hour ≤ after)

-- The day `d`, from `day` on, is the first with a moment of the weekday that is later than `after`.
pub record IsNext (zone : Zone) (weekday hour after day d : ℕ) : Type 0 where
  pub from : day ≤ d
  pub of_weekday : weekday_of d ≡ weekday
  pub is_later : after < zone.moment_of d hour
  pub first : (e : ℕ) → (e < day) ⊎ (d ≤ e) ⊎ Fails zone weekday hour after e

test-Fails :
    (zone : Zone) (weekday hour after day : ℕ)
    → (weekday_of day == weekday && ltb after (zone.moment_of day hour)) ≡ false
    → Fails zone weekday hour after day
test-Fails zone weekday hour after day e = elim (Bool-cases (weekday_of day == weekday)) [
  | inr f ↦ inl (λ same. absurd (ground (arith, f, same, ==_refl weekday)))
  | inl f ↦ inr (ground (arith, e, f))
]

IsNext-here :
    (zone : Zone) (weekday hour after day : ℕ)
    → (weekday_of day == weekday && ltb after (zone.moment_of day hour)) ≡ true
    → IsNext zone weekday hour after day day
IsNext-here zone weekday hour after day e = record {
  from = omega arith;
  of_weekday = ==→eq (weekday_of day) weekday (ground (arith, e));
  is_later = ltb→lt after _ (ground (arith, e));
  first = λ x. elim (Bool-cases (ltb x day)) [
    | inl l ↦ inl (ltb→lt x day l)
    | inr l ↦ inr (inl (ground (arith, l)))
  ];
}

first-later :
    (zone : Zone) (weekday hour after day d x : ℕ)
    → Fails zone weekday hour after day
    → (x < day + 1) ⊎ (d ≤ x) ⊎ Fails zone weekday hour after x
    → (x < day) ⊎ (d ≤ x) ⊎ Fails zone weekday hour after x
first-later zone weekday hour after day d x f (inr r) = inr r
first-later zone weekday hour after day d x f (inl l) = elim (Bool-cases (x == day)) [
  | inl e ↦ inr (inr (subst (λ y. Fails zone weekday hour after y) (sym (==→eq x day e)) f))
  | inr e ↦ inl (ground (arith, l, e))
]

IsNext-later :
    (zone : Zone) (weekday hour after day d : ℕ)
    → Fails zone weekday hour after day
    → IsNext zone weekday hour after (day + 1) d
    → IsNext zone weekday hour after day d
IsNext-later zone weekday hour after day d f n = record {
  from = omega (arith, n.from);
  of_weekday = n.of_weekday;
  is_later = n.is_later;
  first = λ x. first-later zone weekday hour after day d x f (n.first x);
}

the_test :
    (zone : Zone) (weekday hour after day x : ℕ)
    → x ≡ day
    → weekday_of x ≡ weekday
    → after < zone.moment_of x hour
    → (weekday_of day == weekday && ltb after (zone.moment_of day hour)) ≡ true
the_test zone weekday hour after day x e same later =
    let w : weekday_of day ≡ weekday = subst (λ y. weekday_of y ≡ weekday) e same in
    let l : after < zone.moment_of day hour = subst (λ y. after < zone.moment_of y hour) e later in
    rw (w, ==_refl weekday) (ground (arith, l))

search_days-finds :
    (zone : Zone) (weekday hour after day left k : ℕ)
    → k < left
    → weekday_of (day + k) ≡ weekday
    → after < zone.moment_of (day + k) hour
    → ((d : ℕ) × (search_days zone weekday hour after day left ≡ slot (zone.moment_of d hour))
        × IsNext zone weekday hour after day d
        × (d ≤ day + k))
unfolding search_days
search_days-finds zone weekday hour after day zero k lt same later = absurd (omega (arith, lt))
search_days-finds zone weekday hour after day (suc left) zero lt same later =
    let e = the_test zone weekday hour after day (day + 0) (omega arith) same later in
    rw (e, search_days) (day, refl, IsNext-here zone weekday hour after day e, omega arith)
search_days-finds zone weekday hour after day (suc left) (suc k) lt same later =
    elim (Bool-cases (weekday_of day == weekday && ltb after (zone.moment_of day hour))) [
      | inl e ↦
          rw (e, search_days) (day, refl, IsNext-here zone weekday hour after day e, omega arith)
      | inr e ↦
          let there : day + suc k ≡ day + 1 + k = omega arith in
          let (d, found, n, near) =
            search_days-finds zone weekday hour after (day + 1) left k (omega (arith, lt))
              (subst (λ x. weekday_of x ≡ weekday) there same)
              (subst (λ x. after < zone.moment_of x hour) there later) in
          rw (e, search_days)
            (
              d,
              found,
              IsNext-later zone weekday hour after day d (test-Fails zone weekday hour after day e)
                  n,
              omega (arith, near),
            )
    ]

-- The next day of a weekday after a day.
abbrev ahead : ℕ → ℕ → ℕ
ahead weekday day = 1 + (weekday + 6 - weekday_of day) % 7

weekday_of-ahead :
    (weekday day : ℕ)
    → weekday ≤ 6
    → (weekday_of (day + ahead weekday day) ≡ weekday) × (ahead weekday day ≤ 7)
weekday_of-ahead weekday day h = (omega (arith, h), omega arith)

in_range :
    (zones : ℕ → Option Zone) (zone : Zone) (weekday hour tz after : ℕ)
    → zones tz ≡ some zone
    → weekday ≤ 6
    → hour ≤ 23
    → compute_next_reminder zones weekday hour tz after
      ≡ search_days zone weekday hour after (zone.day_of after) searched_days
unfolding compute_next_reminder
in_range zones zone weekday hour tz after known w h =
    let a : ltb 6 weekday ≡ false = ground (arith, w) in
    let b : ltb 23 hour ≡ false = ground (arith, h) in rw (known, a, b, compute_next_reminder) refl

-- A reminder on a day 0 to 6 of the week at an hour 0 to 23, in a zone that is known, has a next
-- moment: it is later than the given one, on a day of that weekday, which is at most a week after
-- the local day, and no day before has such a moment. So the end of the loop is never reached.
pub compute_next_reminder-IsNext :
    (zones : ℕ → Option Zone) (zone : Zone) (weekday hour tz after : ℕ)
    → zones tz ≡ some zone
    → KeepsOrder zone
    → weekday ≤ 6
    → hour ≤ 23
    → ((d : ℕ) × (compute_next_reminder zones weekday hour tz after ≡ slot (zone.moment_of d hour))
        × IsNext zone weekday hour after (zone.day_of after) d
        × (d ≤ zone.day_of after + 7))
compute_next_reminder-IsNext zones zone weekday hour tz after known ordered w h =
    let (same, near) = weekday_of-ahead weekday (zone.day_of after) w in
    let (d, found, n, at_most) =
      search_days-finds zone weekday hour after (zone.day_of after) searched_days
        (ahead weekday (zone.day_of after)) (omega (arith, near)) same
        (ordered.later_day after (zone.day_of after + ahead weekday (zone.day_of after)) hour
          (omega arith)) in
    (
      d,
      in_range zones zone weekday hour tz after known w h ∙ found,
      n,
      omega (arith, at_most, near),
    )
