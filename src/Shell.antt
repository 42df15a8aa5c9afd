-- ===== src/Shell.antt =====
-- LAB5_tshlab/tsh.c: the job list of the shell. The array `jobs` is a list of its slots, and a pointer
-- into it is an index. A pid or jid below 1 is 0 here: the source tests for `< 1` in each case.
pub mod Lookup
pub mod Ids
pub mod Capacity
pub mod Control
pub mod Foreground
pub mod Front
pub mod Line
pub mod Print
mod Slots
mod Tests
pub mod Steps
use cmu_15_213_intro_to_comp.Prelude.{
  ℕ, zero, suc, ◌+◌, Bool, true, false, not, Option, none, some, List, [], ◌∷◌, ◌++◌, ltb, ◌==◌,
  if◌then◌else◌, map, replicate, get_elem?, set,
}

abbrev pub max_jobs : ℕ
max_jobs = 16

pub data JobState : Type 0 where
  undef fg bg st : JobState

pub record Job : Type 0 where
  pub pid : ℕ
  pub jid : ℕ
  pub state : JobState
  pub cmdline : List ℕ

-- The globals `jobs` and `nextjid`.
pub record Table : Type 0 where
  pub jobs : List Job
  pub nextjid : ℕ

abbrev pub clearjob : Job
clearjob = record { pid = 0; jid = 0; state = undef; cmdline = [] }

unfoldable pub initjobs : List Job → List Job
initjobs [] = []
initjobs (j ∷ js) = clearjob ∷ initjobs js

-- The loop of `maxjid` with its variable `max`.
unfoldable pub maxjid_from : ℕ → List Job → ℕ
maxjid_from max [] = max
maxjid_from max (j ∷ js) = maxjid_from (if ltb max j.jid then j.jid else max) js

unfoldable pub maxjid : List Job → ℕ
unfolding maxjid_from
maxjid = maxjid_from 0

-- The loop of `addjob`: the job goes into the first free slot.
unfoldable pub fill_slot : Job → List Job → Option (List Job)
fill_slot new [] = none
fill_slot new (j ∷ js) =
    if j.pid == 0
    then some (new ∷ js)
    else elim (fill_slot new js) [ none ↦ none | some js' ↦ some (j ∷ js') ]

-- `nextjid++; if (nextjid > MAXJOBS) nextjid = 1;`
abbrev pub bump : ℕ → ℕ
bump n = if ltb max_jobs (n + 1) then 1 else n + 1

unfoldable pub addjob : Table → (pid : ℕ) → JobState → List ℕ → Bool × Table
addjob t pid state cmdline =
    if ltb pid 1
    then (false, t)
    else elim (fill_slot (record { pid = pid; jid = t.nextjid; state = state; cmdline = cmdline })
        t.jobs) [
          | none ↦ (false, t)
          | some js ↦ (true, record { jobs = js; nextjid = bump t.nextjid })
        ]

-- The loop of `deletejob`: the first slot with the pid is cleared.
unfoldable pub clear_slot : ℕ → List Job → Option (List Job)
clear_slot pid [] = none
clear_slot pid (j ∷ js) =
    if j.pid == pid
    then some (clearjob ∷ js)
    else elim (clear_slot pid js) [ none ↦ none | some js' ↦ some (j ∷ js') ]

unfoldable pub deletejob : Table → (pid : ℕ) → Bool × Table
deletejob t pid = if ltb pid 1 then (false, t) else elim (clear_slot pid t.jobs) [
  | none ↦ (false, t)
  | some js ↦ (true, record { jobs = js; nextjid = maxjid js + 1 })
]

abbrev pub is_fg : JobState → Bool
is_fg fg = true
is_fg _ = false

unfoldable pub fgpid : List Job → ℕ
fgpid [] = 0
fgpid (j ∷ js) = if is_fg j.state then j.pid else fgpid js

-- The loops of `getjobpid` and `getjobjid`, as the index of the slot that they point to.
unfoldable pub slot_of_pid : ℕ → List Job → Option ℕ
slot_of_pid pid [] = none
slot_of_pid pid (j ∷ js) =
    if j.pid == pid
    then some 0
    else elim (slot_of_pid pid js) [ none ↦ none | some i ↦ some (suc i) ]

unfoldable pub getjobpid : List Job → ℕ → Option ℕ
getjobpid js pid = if ltb pid 1 then none else slot_of_pid pid js

unfoldable pub slot_of_jid : ℕ → List Job → Option ℕ
slot_of_jid jid [] = none
slot_of_jid jid (j ∷ js) =
    if j.jid == jid
    then some 0
    else elim (slot_of_jid jid js) [ none ↦ none | some i ↦ some (suc i) ]

unfoldable pub getjobjid : List Job → ℕ → Option ℕ
getjobjid js jid = if ltb jid 1 then none else slot_of_jid jid js

abbrev pub jid_of_pid : ℕ → List Job → ℕ
jid_of_pid pid [] = 0
jid_of_pid pid (j ∷ js) = if j.pid == pid then j.jid else jid_of_pid pid js

unfoldable pub pid2jid : List Job → ℕ → ℕ
pid2jid js pid = if ltb pid 1 then 0 else jid_of_pid pid js

-- The lines of `listjobs`: the slots in use.
unfoldable pub listjobs : List Job → List Job
listjobs [] = []
listjobs (j ∷ js) = if not (j.pid == 0) then j ∷ listjobs js else listjobs js

-- `job -> state = s` through a pointer to slot `i`.
unfoldable pub set_state : List Job → ℕ → JobState → List Job
set_state [] i s = []
set_state (j ∷ js) zero s = record j { state = s } ∷ js
set_state (j ∷ js) (suc i) s = j ∷ set_state js i s
