-- ===== src/Scheduler.antt =====
-- agent-runner/src/scheduler.rs: the state of the run scheduler and its operations. `&mut self`
-- becomes a state that is passed in and returned; `usize` counters are bounded by the queue depth.
pub mod Queue
pub mod Invariant
pub mod Finish
pub mod Admit
pub mod Conserve
pub mod Order
pub mod Front
pub mod History
pub mod Answers
pub mod Snapshot
pub mod Refine
pub mod Drain
pub mod Carry
pub mod Same
pub mod Calls
pub mod Sorting
pub mod Representation
mod Tests
use dog_bot.Common.{
  ℕ, ◌+◌, max, Bool, true, false, not, ◌&&◌, ◌||◌, Option, none, some, List, [], ◌∷◌, ◌++◌, ltb,
  leb, if◌then◌else◌, map_some, unwrap_or, length, is_empty, any, drop_front,
}
use dog_bot.Common.Text.{Text, text_eq, text_leb}
use dog_bot.HashMap.{HashMap, get, insert, remove, contains_key, weigh, len, values}

pub record TaskSummary : Type 0 where
  pub task_id : Text
  pub conversation_key : Text
  pub actor_id : Text
  pub trigger_message_id : Option Text

-- `TaskSummary::new`.
abbrev pub new_task : Text → Text → TaskSummary
new_task id key = record {
  task_id = id;
  conversation_key = key;
  actor_id = [];
  trigger_message_id = none;
}

-- What `admit` answers.
pub data Answer : Type 0 where
  start_now : Answer
  queued_behind : ℕ → Answer
  queue_full : Answer

pub data TerminalState : Type 0 where
  completed failed : TerminalState

pub record TerminalSummary : Type 0 where
  pub task_id : Text
  pub conversation_key : Text
  pub state : TerminalState
  pub summary : Option Text

pub record SchedulerState : Type 0 where
  pub max_concurrent : ℕ
  pub max_queue_depth : ℕ
  pub running : HashMap TaskSummary
  pub queued : HashMap (List TaskSummary)
  pub ready_conversations : List Text
  pub recent_terminal : List TerminalSummary

abbrev pub terminal_history_capacity : ℕ
terminal_history_capacity = 16

unfoldable pub new : ℕ → ℕ → SchedulerState
new concurrent depth = record {
  max_concurrent = max concurrent 1;
  max_queue_depth = depth;
  running = [];
  queued = [];
  ready_conversations = [];
  recent_terminal = [];
}

-- `self.queued.get(key).map(VecDeque::is_empty).unwrap_or(missing)`.
abbrev pub queue_is_empty : Bool → Text → HashMap (List TaskSummary) → Bool
queue_is_empty missing key queued = unwrap_or (map_some is_empty (get key queued)) missing

abbrev pub waiting_count : SchedulerState → ℕ
waiting_count s = weigh length s.queued

unfoldable pub can_start_now : SchedulerState → Text → Bool
can_start_now s key =
    ltb (len s.running) s.max_concurrent
    && not (contains_key key s.running)
    && queue_is_empty true key s.queued

unfoldable pub tasks_ahead_for : SchedulerState → Text → ℕ
tasks_ahead_for s key =
    if contains_key key s.running || contains_key key s.queued
    then (if contains_key key s.running then 1 else 0)
      + unwrap_or (map_some length (get key s.queued)) 0
    else len s.running + waiting_count s

unfoldable pub push_ready_conversation : Text → List Text → List Text
push_ready_conversation key ready =
    if not (any (λ k. text_eq k key) ready) then ready ++ key ∷ [] else ready

unfoldable pub push_terminal : TerminalSummary → List TerminalSummary → List TerminalSummary
push_terminal t recent =
    let longer = recent ++ t ∷ [] in
    if ltb terminal_history_capacity (length longer) then drop_front longer else longer

-- `entry(key).or_default().push_back(task)`.
abbrev pub enqueue : TaskSummary → HashMap (List TaskSummary) → HashMap (List TaskSummary)
enqueue task queued =
    let key = task.conversation_key in
    insert key (unwrap_or (get key queued) [] ++ task ∷ []) queued

unfoldable pub admit : TaskSummary → SchedulerState → SchedulerState × Answer
unfolding can_start_now tasks_ahead_for push_ready_conversation
admit task s =
    let key = task.conversation_key in
    if can_start_now s key
    then (record s { running = insert key task s.running }, start_now)
    else if leb s.max_queue_depth (waiting_count s)
    then (s, queue_full)
    else (
      record s {
        queued = enqueue task s.queued;
        ready_conversations =
            if queue_is_empty true key s.queued && not (contains_key key s.running)
            then push_ready_conversation key s.ready_conversations
            else s.ready_conversations;
      },
      queued_behind (tasks_ahead_for s key),
    )

-- The `remove` at the end of `pop_next_for_conversation`.
abbrev pub drop_if_empty : Text → HashMap (List TaskSummary) → HashMap (List TaskSummary)
drop_if_empty key queued = if queue_is_empty false key queued then remove key queued else queued

abbrev pub pop_queue :
    Text
    → Option (List TaskSummary)
    → HashMap (List TaskSummary)
    → Option TaskSummary × HashMap (List TaskSummary)
pop_queue key none queued = (none, queued)
pop_queue key (some []) queued = (none, drop_if_empty key queued)
pop_queue key (some (t ∷ rest)) queued = (some t, drop_if_empty key (insert key rest queued))

unfoldable pub pop_next_for_conversation :
    Text → HashMap (List TaskSummary) → Option TaskSummary × HashMap (List TaskSummary)
pop_next_for_conversation key queued = pop_queue key (get key queued) queued

-- Starts the task that was popped, if one was.
abbrev pub promote :
    SchedulerState
    → Option TaskSummary × HashMap (List TaskSummary)
    → SchedulerState × List TaskSummary
promote s (none, queued) = (record s { queued = queued }, [])
promote s (some next, queued) =
    (record s { queued = queued; running = insert next.conversation_key next s.running }, next ∷ [])

-- The `while` loop of `finish`: each round pops one conversation, so the rounds are structural on
-- `ready_conversations`.
unfoldable pub fill : List Text → SchedulerState → SchedulerState × List TaskSummary
unfolding pop_next_for_conversation
fill [] s = (record s { ready_conversations = [] }, [])
fill (key ∷ ready) s = elim (ltb (len s.running) s.max_concurrent) [
  | false ↦ (record s { ready_conversations = key ∷ ready }, [])
  | true ↦ elim (contains_key key s.running) [
    | true ↦ fill ready s
    | false ↦
        let (s', started) = promote s (pop_next_for_conversation key s.queued) in
        let (s'', more) = fill ready s' in (s'', started ++ more)
  ]
]

-- The first statement of `finish`.
abbrev pub retire : Text → TerminalState → Option Text → SchedulerState → SchedulerState
retire key terminal summary s = elim (get key s.running) [
  | none ↦ s
  | some finished ↦ record s {
    running = remove key s.running;
    recent_terminal =
        push_terminal
          (record {
            task_id = finished.task_id;
            conversation_key = finished.conversation_key;
            state = terminal;
            summary = summary;
          })
          s.recent_terminal;
  }
]

abbrev pub promote_next : Text → SchedulerState → SchedulerState × List TaskSummary
promote_next key s = promote s (pop_next_for_conversation key s.queued)

unfoldable pub finish :
    Text → TerminalState → Option Text → SchedulerState → SchedulerState × List TaskSummary
unfolding fill pop_next_for_conversation push_terminal
finish key terminal summary s =
    let (s', first) = promote_next key (retire key terminal summary s) in
    let (s'', more) = fill s'.ready_conversations s' in (s'', first ++ more)

pub record SchedulerSnapshot : Type 0 where
  pub active_count : ℕ
  pub max_concurrent : ℕ
  pub waiting_count : ℕ
  pub max_queue_depth : ℕ
  pub running : List TaskSummary
  pub recent_terminal : List TerminalSummary

-- `sort_by` on the conversation keys is stable; insertion after the equal keys is the same sort.
unfoldable pub insert_sorted : TaskSummary → List TaskSummary → List TaskSummary
insert_sorted t [] = t ∷ []
insert_sorted t (u ∷ us) = elim (text_leb t.conversation_key u.conversation_key) [
  | true ↦ t ∷ u ∷ us
  | false ↦ u ∷ insert_sorted t us
]

unfoldable pub sort_by_key : List TaskSummary → List TaskSummary
unfolding insert_sorted
sort_by_key [] = []
sort_by_key (t ∷ ts) = insert_sorted t (sort_by_key ts)

unfoldable pub snapshot : SchedulerState → SchedulerSnapshot
unfolding sort_by_key
snapshot s = record {
  active_count = len s.running;
  max_concurrent = s.max_concurrent;
  waiting_count = waiting_count s;
  max_queue_depth = s.max_queue_depth;
  running = sort_by_key (values s.running);
  recent_terminal = s.recent_terminal;
}
