-- ===== src/Scheduler/Representation.antt =====
-- agent-runner/src/scheduler.rs iterates over its maps in no fixed order. Calls as values, and what
-- a caller sees of them.
use dog_bot.Common.{◌≡◌, refl, ap, Option, List, [], ◌∷◌}
use dog_bot.Common.Text.{Text}
use dog_bot.Scheduler.{
  TaskSummary, Answer, TerminalState, SchedulerState, SchedulerSnapshot, admit, finish, snapshot,
}
use dog_bot.Scheduler.Same.{Same, SameResult, IsStored, len-Same, waiting-Same}
use dog_bot.Scheduler.Sorting.{sort-SameMap}
use dog_bot.Scheduler.Calls.{admit-IsStored, admit-Same, finish-IsStored, finish-Same}

pub data Call : Type 0 where
  admits : TaskSummary → Call
  finishes : Text → TerminalState → Option Text → Call
  looks : Call

pub data Output : Type 0 where
  answered : Answer → Output
  promoted : List TaskSummary → Output
  shown : SchedulerSnapshot → Output

abbrev pub call : Call → SchedulerState → SchedulerState × Output
call (admits task) s = let (s', answer) = admit task s in (s', answered answer)
call (finishes key terminal summary) s =
    let (s', started) = finish key terminal summary s in (s', promoted started)
call looks s = (s, shown (snapshot s))

-- What the calls return, one after another.
unfoldable pub play : List Call → SchedulerState → List Output
play [] s = []
play (c ∷ calls) s = let (s', output) = call c s in output ∷ play calls s'

snapshot-Same :
    (s s' : SchedulerState) → Same s s' → IsStored s → IsStored s' → snapshot s ≡ snapshot s'
unfolding snapshot
snapshot-Same s s' same v v' =
    rw
      (
        len-Same s s' same v v',
        waiting-Same s s' same v v',
        same.concurrent,
        same.depth,
        same.recent,
        sort-SameMap s.running s'.running v.one_running v'.one_running v'.keyed same.running,
      )
      refl

call-IsStored : (c : Call) (s : SchedulerState) → IsStored s → IsStored (call c s).0
call-IsStored (admits task) s v = admit-IsStored task s v
call-IsStored (finishes key terminal summary) s v = finish-IsStored key terminal summary s v
call-IsStored looks s v = v

call-Same :
    (c : Call) (s s' : SchedulerState)
    → Same s s'
    → IsStored s
    → IsStored s'
    → SameResult (call c s) (call c s')
call-Same (admits task) s s' same v v' =
    let (after, answers) = admit-Same task s s' same v v' in (after, ap answered answers)
call-Same (finishes key terminal summary) s s' same v v' =
    let (after, started) = finish-Same key terminal summary s s' same v v' in
    (after, ap promoted started)
call-Same looks s s' same v v' = (same, ap shown (snapshot-Same s s' same v v'))

-- Two states with the same limits, ready list and terminal history, of which the maps of running tasks and of queues have the same entries in whatever order, with one entry for a conversation and each running task under its own conversation, cannot be told apart: any sequence of `admit`, `finish` and `snapshot` calls, for running conversations or not, returns the same answers, the same promoted tasks in the same order and the same snapshots from both.
pub play-Same :
    (calls : List Call) (s s' : SchedulerState)
    → Same s s'
    → IsStored s
    → IsStored s'
    → play calls s ≡ play calls s'
unfolding play
play-Same [] s s' same v v' = refl
play-Same (c ∷ calls) s s' same v v' =
    let (after, output) = call-Same c s s' same v v' in
    let rest =
      play-Same calls (call c s).0 (call c s').0 after (call-IsStored c s v)
        (call-IsStored c s' v') in
    rw (output, rest) refl
