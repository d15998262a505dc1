-- ===== src/Scheduler/Calls.antt =====
-- Calls on two states that are the same but for the order of the maps.
use dog_bot.Common.{
  ◌≡◌, refl, sym, ap, ◌∙◌, arith, inl, inr, true, false, Option, none, List, [], ◌∷◌, ◌++◌, ltb,
  leb, Bool-cases, Option-cases,
}
use dog_bot.Common.Text.{Text}
use dog_bot.HashMap.{get, len}
use dog_bot.HashMap.Laws.{insert-IsDistinct, remove-IsDistinct}
use dog_bot.HashMap.Same.{insert-SameMap, remove-SameMap}
use dog_bot.Scheduler.{
  TaskSummary, Answer, TerminalState, SchedulerState, queued_behind, push_terminal, waiting_count,
  can_start_now, fill, retire, promote_next, admit, finish,
}
use dog_bot.Scheduler.Invariant.{fill_full, fill_skip, fill_next}
use dog_bot.Scheduler.Finish.{retire_running, finish_split}
use dog_bot.Scheduler.Admit.{enqueued, Admits, starts, refuses, waits, admit-Admits}
use dog_bot.Scheduler.Sorting.{remove-IsKeyed}
use dog_bot.Scheduler.Same.{
  Same, SameResult, IsStored, waiting-Same, len-Same, can_start-Same, ahead-Same, start-IsStored,
  set_ready-Same, set_ready-IsStored, promote_next-Same, promote_next-IsStored,
}

fill-IsStored : (ready : List Text) (s : SchedulerState) → IsStored s → IsStored (fill ready s).0
fill-IsStored [] s v = unfold fill in set_ready-IsStored [] s v
fill-IsStored (key ∷ ready) s v = elim (Bool-cases (ltb (len s.running) s.max_concurrent)) [
  | inr full ↦ rw (fill_full key ready s full) (set_ready-IsStored (key ∷ ready) s v)
  | inl room ↦ elim (Option-cases (get key s.running)) [
    | inr (t, busy) ↦ rw (fill_skip key ready s t room busy) (fill-IsStored ready s v)
    | inl free ↦
        rw (fill_next key ready s room free)
          (fill-IsStored ready (promote_next key s).0 (promote_next-IsStored key s v))
  ]
]

fill-Same :
    (ready : List Text) (s s' : SchedulerState)
    → Same s s'
    → IsStored s
    → IsStored s'
    → SameResult (fill ready s) (fill ready s')
fill-Same [] s s' same v v' = unfold fill in (set_ready-Same [] s s' same, refl)
fill-Same (key ∷ ready) s s' same v v' =
    let slots : ltb (len s'.running) s'.max_concurrent ≡ ltb (len s.running) s.max_concurrent =
      rw (len-Same s s' same v v', same.concurrent) refl in
    let found = sym (same.running key) in
    elim (Bool-cases (ltb (len s.running) s.max_concurrent)) [
      | inr full ↦
          rw (fill_full key ready s full, fill_full key ready s' (slots ∙ full))
            (set_ready-Same (key ∷ ready) s s' same, refl)
      | inl room ↦ elim (Option-cases (get key s.running)) [
        | inr (t, busy) ↦
            rw
              (
                fill_skip key ready s t room busy,
                fill_skip key ready s' t (slots ∙ room) (found ∙ busy),
              )
              (fill-Same ready s s' same v v')
        | inl free ↦
            let first = promote_next-Same key s s' same in
            let rest =
              fill-Same ready (promote_next key s).0 (promote_next key s').0 first.0
                (promote_next-IsStored key s v) (promote_next-IsStored key s' v') in
            rw
              (
                fill_next key ready s room free,
                fill_next key ready s' (slots ∙ room) (found ∙ free),
              )
              (rest.0, rw (first.1, rest.1) refl)
      ]
    ]

module _ (key : Text) (terminal : TerminalState) (summary : Option Text) where
  retire_idle : (s : SchedulerState) → get key s.running ≡ none → retire key terminal summary s ≡ s
  retire_idle s h = ground (arith, h)

  retire-IsStored : (s : SchedulerState) → IsStored s → IsStored (retire key terminal summary s)
  retire-IsStored s v = elim (Option-cases (get key s.running)) [
    | inl e ↦ rw (retire_idle s e) v
    | inr (t, e) ↦ rw (retire_running key terminal summary s t e) (record {
      one_running = remove-IsDistinct key s.running v.one_running;
      one_queue = v.one_queue;
      keyed = remove-IsKeyed key s.running v.keyed;
    })
  ]

  retire-Same :
      (s s' : SchedulerState)
      → Same s s'
      → Same (retire key terminal summary s) (retire key terminal summary s')
  retire-Same s s' same = elim (Option-cases (get key s.running)) [
    | inl e ↦ rw (retire_idle s e, retire_idle s' (sym (same.running key) ∙ e)) same
    | inr (t, e) ↦
        rw
          (
            retire_running key terminal summary s t e,
            retire_running key terminal summary s' t (sym (same.running key) ∙ e),
          )
          (record {
            concurrent = same.concurrent;
            depth = same.depth;
            running = remove-SameMap key s.running s'.running same.running;
            queued = same.queued;
            ready = same.ready;
            recent = ap (push_terminal _) same.recent;
          })
  ]

  -- `finish` in two steps, the second with the ready list `ready`.
  finish_from :
      (ready : List Text) (s : SchedulerState)
      → ready ≡ s.ready_conversations
      → finish key terminal summary s ≡ (
        (fill ready (promote_next key (retire key terminal summary s)).0).0,
        (promote_next key (retire key terminal summary s)).1
            ++ (fill ready (promote_next key (retire key terminal summary s)).0).1,
      )
  finish_from ready s e = rw e (finish_split key terminal summary s)

  pub finish-IsStored :
      (s : SchedulerState) → IsStored s → IsStored (finish key terminal summary s).0
  finish-IsStored s v =
      rw (finish_split key terminal summary s)
        (fill-IsStored s.ready_conversations _ (promote_next-IsStored key _ (retire-IsStored s v)))

  pub finish-Same :
      (s s' : SchedulerState)
      → Same s s'
      → IsStored s
      → IsStored s'
      → SameResult (finish key terminal summary s) (finish key terminal summary s')
  finish-Same s s' same v v' =
      let first = promote_next-Same key _ _ (retire-Same s s' same) in
      let rest =
        fill-Same s.ready_conversations _ _ first.0
          (promote_next-IsStored key _ (retire-IsStored s v))
          (promote_next-IsStored key _ (retire-IsStored s' v')) in
      rw (finish_split key terminal summary s, finish_from s.ready_conversations s' same.ready)
        (rest.0, rw (first.1, rest.1) refl)

enqueued-Same :
    (task : TaskSummary) (s s' : SchedulerState)
    → Same s s'
    → Same (enqueued task s) (enqueued task s')
enqueued-Same task s s' same = record {
  concurrent = same.concurrent;
  depth = same.depth;
  running = same.running;
  queued =
      rw (same.queued task.conversation_key)
        (insert-SameMap task.conversation_key _ s.queued s'.queued same.queued);
  ready =
      rw (same.queued task.conversation_key, same.running task.conversation_key, same.ready) refl;
  recent = same.recent;
}

-- The same task is admitted to both.
pub admit-Same :
    (task : TaskSummary) (s s' : SchedulerState)
    → Same s s'
    → IsStored s
    → IsStored s'
    → SameResult (admit task s) (admit task s')
unfolding admit
admit-Same task s s' same v v' =
    let key = task.conversation_key in
    elim (Bool-cases (can_start_now s key)) [
      | inl now ↦
          rw (now, sym (can_start-Same s s' same v v' key) ∙ now)
            (
              record {
                concurrent = same.concurrent;
                depth = same.depth;
                running = insert-SameMap key task s.running s'.running same.running;
                queued = same.queued;
                ready = same.ready;
                recent = same.recent;
              },
              refl,
            )
      | inr later ↦
          let later' = sym (can_start-Same s s' same v v' key) ∙ later in
          elim (Bool-cases (leb s.max_queue_depth (waiting_count s))) [
            | inl full ↦
                let full' : leb s'.max_queue_depth (waiting_count s') ≡ true =
                  rw (← same.depth, ← waiting-Same s s' same v v') full in
                rw (later, full, later', full') (same, refl)
            | inr room ↦
                let room' : leb s'.max_queue_depth (waiting_count s') ≡ false =
                  rw (← same.depth, ← waiting-Same s s' same v v') room in
                rw (later, room, later', room')
                  (enqueued-Same task s s' same, ap queued_behind (ahead-Same s s' same v v' key))
          ]
    ]

pub admit-IsStored :
    (task : TaskSummary) (s : SchedulerState) → IsStored s → IsStored (admit task s).0
admit-IsStored task s v = go (admit-Admits task s)
  where
    go : {r : SchedulerState × Answer} → Admits task s r → IsStored r.0
    go (starts now) = start-IsStored task s v
    go (refuses later full) = v
    go (waits later room) = record {
      one_running = v.one_running;
      one_queue = insert-IsDistinct task.conversation_key _ s.queued v.one_queue;
      keyed = v.keyed;
    }
