-- ===== src/Harness/Reports.antt =====
-- `report_event` of LAB0_cprogramminglab/report.c with MSG_ERROR, followed by the flag of
-- LAB0_cprogramminglab/harness.c.
use cmu_15_213_intro_to_comp.Prelude.{
  ◌≡◌, refl, Bool, true, false, not, List, [], ◌∷◌, ◌++◌, if◌then◌else◌,
}
use cmu_15_213_intro_to_comp.Harness.{
  Report, Harness, done, ◌>>◌, >>=-done, note_error, report_event, error, reaches_level,
}

-- The report of an error prints or does not print, and nothing else.
pub report_event-error :
    (message : Report) (s : Harness)
    → (messages : List Report) × (report_event error message s
        ≡ done tt (record s { printed = messages }))
unfolding report_event
report_event-error message s = by_level (reaches_level s.verblevel 1)
  where
    by_level :
        (reached : Bool)
        → (messages : List Report) × ((if not reached
              then done tt s
              else done tt (record s { printed = s.printed ++ message ∷ [] }))
            ≡ done tt (record s { printed = messages }))
    by_level true = (s.printed ++ message ∷ [], refl)
    by_level false = (s.printed, refl)

pub noted_lem :
    (message : Report) (s : Harness)
    → (messages : List Report) × ((report_event error message >> note_error) s
        ≡ done tt (record s { error_occurred = true; printed = messages }))
unfolding note_error
noted_lem message s =
    let (messages, e) = report_event-error message s in
    (
      messages,
      >>=-done (report_event error message) (λ _. note_error) s (record s { printed = messages }) tt
          e,
    )
