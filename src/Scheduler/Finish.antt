-- ===== src/Scheduler/Finish.antt =====
-- `finish` keeps the invariant.
use dog_bot.Common.{◌≤◌, ◌≡◌, arith, Option, some, List, [], ◌∷◌, ◌++◌, length, length-append}
use dog_bot.Common.Text.{Text, text_eq_iff}
use dog_bot.HashMap.{get, remove}
use dog_bot.HashMap.Laws.{get-remove, get-remove_self, remove-IsDistinct, weigh-remove}
use dog_bot.Scheduler.{
  TaskSummary, TerminalState, TerminalSummary, SchedulerState, terminal_history_capacity,
  push_terminal, pop_next_for_conversation, fill, retire, promote_next, finish,
}
use dog_bot.Scheduler.Invariant.{IsPending, IsValid, promote_next-IsListed, fill-IsValid}

length-push_terminal :
    (t : TerminalSummary) (recent : List TerminalSummary)
    → length recent ≤ terminal_history_capacity
    → length (push_terminal t recent) ≤ terminal_history_capacity
unfolding push_terminal
length-push_terminal t [] h = omega arith
length-push_terminal t (r ∷ recent) h = ground (arith, length-append recent (t ∷ []))

pub ready-promote_next :
    (key : Text) (s : SchedulerState)
    → (promote_next key s).0.ready_conversations ≡ s.ready_conversations
unfolding pop_next_for_conversation
ready-promote_next key s = ground arith

module _ (key : Text) (terminal : TerminalState) (summary : Option Text) (s : SchedulerState) where
  pub retire_running :
      (t : TaskSummary)
      → get key s.running ≡ some t
      → retire key terminal summary s ≡ record s {
        running = remove key s.running;
        recent_terminal =
            push_terminal
              (record {
                task_id = t.task_id;
                conversation_key = t.conversation_key;
                state = terminal;
                summary = summary;
              })
              s.recent_terminal;
      }
  retire_running t h = ground (arith, h)

  pub finish_split : finish key terminal summary s ≡ (
    (fill s.ready_conversations (promote_next key (retire key terminal summary s)).0).0,
    (promote_next key (retire key terminal summary s)).1
        ++ (fill s.ready_conversations (promote_next key (retire key terminal summary s)).0).1,
  )
  unfolding finish
  finish_split = ground (arith, ready-promote_next key (retire key terminal summary s))

  pub retire-IsPending :
      (t : TaskSummary)
      → get key s.running ≡ some t
      → IsValid s
      → IsPending key s.ready_conversations (retire key terminal summary s)
  retire-IsPending t h v = rw (retire_running t h) (record {
    sound = record {
      positive = v.core.sound.positive;
      within = v.core.sound.within;
      one_running = remove-IsDistinct key s.running v.core.sound.one_running;
      one_queue = v.core.sound.one_queue;
      running_keys =
          λ k u e. ground (arith, get-remove key k s.running, v.core.sound.running_keys k u);
      queued_keys = v.core.sound.queued_keys;
      queued_full = v.core.sound.queued_full;
      history = length-push_terminal _ s.recent_terminal v.core.sound.history;
    };
    room =
        omega
          (arith, weigh-remove (λ _. 1) key t s.running v.core.sound.one_running h, v.core.bounded);
    free = get-remove_self key s.running;
    unique = v.core.unique;
    listed = λ k. ground (arith, v.core.listed k, get-remove key k s.running, text_eq_iff key k);
  })

  pub finish-IsValid :
      (t : TaskSummary)
      → get key s.running ≡ some t
      → IsValid s
      → IsValid (finish key terminal summary s).0
  finish-IsValid t h v = rw finish_split (
      fill-IsValid s.ready_conversations _ (promote_next-IsListed key _ _ (retire-IsPending t h v)))
