-- ===== src/Scheduler/Front.antt =====
-- Which waiting task `finish` promotes.
use dog_bot.Common.{
  ◌+◌, ◌≤◌, ◌<◌, false, subst, sym, Option-cases, ◌≡◌, inl, inr, refl, ap, ◌∙◌, arith, true, Option,
  none, some, List, [], ◌∷◌, ◌++◌, ltb, if◌then◌else◌, Bool-cases,
}
use dog_bot.Common.Text.{Text, text_eq_refl}
use dog_bot.HashMap.{get, contains_key, len, remove}
use dog_bot.Scheduler.{
  TaskSummary, TerminalState, SchedulerState, fill, retire, promote_next, finish,
}
use dog_bot.Scheduler.Queue.{promote_next-none, promote_next-some}
use dog_bot.Scheduler.Invariant.{
  IsSound, IsListed, IsPending, IsValid, promote_none-IsListed, head-IsPending, fill_full,
  fill_next,
}
use dog_bot.HashMap.Laws.{weigh-remove, weigh-insert_new}
use dog_bot.Scheduler.Finish.{retire_running, finish_split, retire-IsPending}

-- The conversations that may be served when `key` ends, in the order in which `finish` looks at them.
abbrev pub candidates : Text → SchedulerState → List Text
candidates key s =
    if contains_key key s.queued then key ∷ s.ready_conversations else s.ready_conversations

-- From the state `s`, just the oldest task of the first candidate was promoted, and the others stay ready; without a candidate nothing was.
abbrev pub TakesFirst : SchedulerState → List Text → SchedulerState × List TaskSummary → Type 0
TakesFirst s [] (s', started) = (started ≡ []) × (s'.ready_conversations ≡ [])
TakesFirst s (k ∷ others) (s', started) =
    (t : TaskSummary) × (rest : List TaskSummary) × (get k s.queued ≡ some (t ∷ rest))
    × (started ≡ t ∷ [])
    × (s'.ready_conversations ≡ others)

-- With every slot taken, no conversation is promoted.
fill_stops :
    (ready : List Text) (s : SchedulerState)
    → (len s.running < s.max_concurrent → ready ≡ [])
    → fill ready s ≡ (record s { ready_conversations = ready }, [])
fill_stops [] s h = unfold fill in refl
fill_stops (k ∷ ready) s h = elim (Bool-cases (ltb (len s.running) s.max_concurrent)) [
  | inl room ↦ absurd (cons_not_nil (h (ground arith)))
  | inr full ↦ fill_full k ready s full
]
  where
    cons_not_nil : ¬ (k ∷ ready ≡ [])
    cons_not_nil e = cc

len-promote_next :
    (key : Text) (ready : List Text) (s : SchedulerState) (t : TaskSummary)
    (rest : List TaskSummary)
    → IsPending key ready s
    → get key s.queued ≡ some (t ∷ rest)
    → (len (promote_next key s).0.running ≡ 1 + len s.running)
      × ((promote_next key s).0.max_concurrent ≡ s.max_concurrent)
      × ((promote_next key s).1 ≡ t ∷ [])
len-promote_next key ready s t rest p e =
    let h : t.conversation_key ≡ key = (p.sound.queued_keys key (t ∷ rest) e).0 in
    rw (promote_next-some key s t rest e) (
      omega (arith, weigh-insert_new (λ _. 1) t.conversation_key t s.running (rw h p.free)),
      refl,
      refl,
    )

-- The queue of a conversation that may be served is not empty.
oldest :
    (key : Text) (s : SchedulerState)
    → IsSound s
    → contains_key key s.queued ≡ true
    → (t : TaskSummary) × (rest : List TaskSummary) × (get key s.queued ≡ some (t ∷ rest))
oldest key s sound h = go (get key s.queued) refl
  where
    go :
        (o : Option (List TaskSummary))
        → get key s.queued ≡ o
        → (t : TaskSummary) × (rest : List TaskSummary) × (get key s.queued ≡ some (t ∷ rest))
    go none e = absurd (ground (arith, h, e))
    go (some []) e = cc (sound.queued_full key [] e)
    go (some (t ∷ rest)) e = (t, rest, e)

-- With one slot free, just the head of the list is served.
fill_one :
    (ready : List Text) (s : SchedulerState)
    → IsListed ready s
    → s.max_concurrent ≡ 1 + len s.running
    → TakesFirst s ready (fill ready s)
fill_one [] s v h = unfold fill in (refl, refl)
fill_one (key ∷ ready) s v h =
    let p = head-IsPending key ready s v (omega (arith, h)) in
    let (t, rest, e) = oldest key s v.sound (ground (arith, v.listed key, text_eq_refl key)) in
    let (more, same, one) = len-promote_next key ready s t rest p e in
    rw
      (
        fill_next key ready s (ground (arith, h)) p.free,
        fill_stops ready (promote_next key s).0
            (λ room. absurd (omega (arith, room, more, same, h))),
        one,
      )
      (t, rest, e, refl, refl)

-- In a valid state, `finish` of a running conversation promotes one task at most: the oldest of the same conversation, if one waits there, and then the ready list stays; else the oldest of the conversation at the front of the ready list, which leaves the list; and nothing if the list is empty.
pub finish_takes_front :
    (key : Text) (terminal : TerminalState) (summary : Option Text) (s : SchedulerState)
    (t : TaskSummary)
    → get key s.running ≡ some t
    → IsValid s
    → TakesFirst s (candidates key s) (finish key terminal summary s)
finish_takes_front key terminal summary s t h v =
    rw (finish_split key terminal summary s) (elim (Bool-cases (contains_key key s.queued)) [
      | inl waits ↦
          subst (λ (l : List Text). TakesFirst s l split) {x = key ∷ s.ready_conversations}
            (sym (rw waits refl)) (own waits)
      | inr idle ↦
          subst (λ (l : List Text). TakesFirst s l split) {x = s.ready_conversations}
            (sym (rw idle refl)) (other idle)
    ])
  where
    r : SchedulerState
    r = retire key terminal summary s

    p : IsPending key s.ready_conversations r
    p = retire-IsPending key terminal summary s t h v

    same : r.queued ≡ s.queued
    same = ap (λ (q : SchedulerState). q.queued) (retire_running key terminal summary s t h)

    freed : 1 + len (remove key s.running) ≡ len s.running
    freed = omega (arith, weigh-remove (λ _. 1) key t s.running v.core.sound.one_running h)

    slot : 1 + len r.running ≡ len s.running
    slot =
        ap (λ (q : SchedulerState). 1 + len q.running) (retire_running key terminal summary s t h)
        ∙ freed

    limit : r.max_concurrent ≡ s.max_concurrent
    limit =
        ap (λ (q : SchedulerState). q.max_concurrent) (retire_running key terminal summary s t h)

    nothing : contains_key key s.queued ≡ false → get key r.queued ≡ none
    nothing idle = elim (Option-cases (get key s.queued)) [
      | inl e ↦ ap (get key) same ∙ e
      | inr (q, e) ↦ absurd (ground (arith, idle, e))
    ]

    -- A conversation is ready only while every slot is taken, so `finish` has freed the only one.
    from :
        contains_key key s.queued ≡ false
        → (ready : List Text) → s.ready_conversations ≡ ready
        → TakesFirst s ready (fill ready r)
    from idle [] e = unfold fill in (refl, refl)
    from idle (k ∷ ready) e =
        let all : s.max_concurrent ≤ len s.running = ground (arith, v.busy, e) in
        let (u, rest, q, one, left) =
          fill_one (k ∷ ready) r
            (subst (λ l. IsListed l r) e
              (promote_none-IsListed key s.ready_conversations r p (nothing idle)))
            (omega (arith, all, v.core.bounded, slot, limit)) in
        (u, rest, sym (ap (get k) same) ∙ q, one, left)

    split : SchedulerState × List TaskSummary
    split = (
      (fill s.ready_conversations (promote_next key r).0).0,
      (promote_next key r).1 ++ (fill s.ready_conversations (promote_next key r).0).1,
    )

    own : contains_key key s.queued ≡ true → TakesFirst s (key ∷ s.ready_conversations) split
    own waits =
        let (u, rest, e) = oldest key s v.core.sound waits in
        let (more, same_max, one) = len-promote_next key _ r u rest p (ap (get key) same ∙ e) in
        let stops =
          fill_stops s.ready_conversations (promote_next key r).0
            (λ room. v.busy (omega (arith, room, more, same_max, slot, limit))) in
        (
          u,
          rest,
          e,
          ap (λ (f : SchedulerState × List TaskSummary). (promote_next key r).1 ++ f.1) stops
              ∙ rw one refl,
          ap (λ (f : SchedulerState × List TaskSummary). f.0.ready_conversations) stops,
        )

    other : contains_key key s.queued ≡ false → TakesFirst s s.ready_conversations split
    other idle =
        subst
          (λ (q : SchedulerState × List TaskSummary).
            TakesFirst s s.ready_conversations
              ((fill s.ready_conversations q.0).0, q.1 ++ (fill s.ready_conversations q.0).1))
          (sym (promote_next-none key r (nothing idle))) (from idle s.ready_conversations refl)
