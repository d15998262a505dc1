-- ===== src/Scheduler/Order.antt =====
-- The order of service within a conversation: first come, first served.
use dog_bot.Common.{
  ◌≡◌, inl, inr, refl, ◌∙◌, arith, Bool, Option, none, some, List, [], ◌∷◌, ◌++◌, ltb, unwrap_or,
  Bool-cases, keep,
}
use dog_bot.Common.Text.{Text, text_eq, text_eq_iff}
use dog_bot.HashMap.{get, len}
use dog_bot.Scheduler.{
  TaskSummary, TerminalState, SchedulerState, fill, retire, promote_next, finish,
}
use dog_bot.Scheduler.Queue.{get-popped, promote_next-none, promote_next-some}
use dog_bot.Scheduler.Invariant.{
  IsListed, IsPending, IsValid, promote_next-IsListed, head-IsPending, fill_full, fill_next,
}
use dog_bot.Scheduler.Finish.{retire_running, finish_split, retire-IsPending}
use dog_bot.Common.{keep-append}
use mathlib.Core.List.{append_assoc}

-- The tasks that wait for one conversation, oldest first.
abbrev pub line : Text → SchedulerState → List TaskSummary
line key s = unwrap_or (get key s.queued) []

abbrev pub belongs : Text → TaskSummary → Bool
belongs key t = text_eq t.conversation_key key

abbrev pub Serves : (Text → SchedulerState → SchedulerState × List TaskSummary → Type 0)
Serves k s (s', started) = keep (belongs k) started ++ line k s' ≡ line k s

promote_next-Serves :
    (key : Text) (ready : List Text) (s : SchedulerState) (k : Text)
    → IsPending key ready s
    → Serves k s (promote_next key s)
promote_next-Serves key ready s k p = go (get key s.queued) refl
  where
    go : (o : Option (List TaskSummary)) → get key s.queued ≡ o → Serves k s (promote_next key s)
    go none e = rw (promote_next-none key s e)
    go (some []) e = cc (p.sound.queued_full key [] e)
    go (some (t ∷ rest)) e =
        let h : t.conversation_key ≡ key = (p.sound.queued_keys key (t ∷ rest) e).0 in
        rw (promote_next-some key s t rest e) (
          ground (
            arith,
            e,
            h,
            get-popped key rest s.queued k,
            text_eq_iff key k,
            text_eq_iff t.conversation_key k,
          ))

Serves-append :
    (k : Text) (s s' s'' : SchedulerState) (xs ys : List TaskSummary)
    → Serves k s (s', xs)
    → Serves k s' (s'', ys)
    → Serves k s (s'', xs ++ ys)
Serves-append k s s' s'' xs ys h g =
    rw
      (
        keep-append (belongs k) xs ys,
        append_assoc (keep (belongs k) xs) (keep (belongs k) ys) (line k s''),
      )
      (rw g h)

fill-Serves :
    (k : Text) (ready : List Text) (s : SchedulerState)
    → IsListed ready s
    → Serves k s (fill ready s)
fill-Serves k [] s v = unfold fill in refl
fill-Serves k (key ∷ ready) s v = elim (Bool-cases (ltb (len s.running) s.max_concurrent)) [
  | inl room ↦
      let p = head-IsPending key ready s v (ground arith) in
      rw (fill_next key ready s room p.free) (
        Serves-append k s (promote_next key s).0 (fill ready (promote_next key s).0).0
          (promote_next key s).1 (fill ready (promote_next key s).0).1
          (promote_next-Serves key ready s k p)
          (fill-Serves k ready (promote_next key s).0 (promote_next-IsListed key ready s p)))
  | inr full ↦ rw (fill_full key ready s full)
]

-- For every conversation `k`, the tasks of `k` that `finish` promotes, followed by those that still wait for `k`, are those that waited for `k` before, in the same order.
pub finish_in_order :
    (key : Text) (terminal : TerminalState) (summary : Option Text) (s : SchedulerState)
    (t : TaskSummary) (k : Text)
    → get key s.running ≡ some t
    → IsValid s
    → keep (belongs k) (finish key terminal summary s).1 ++ line k (finish key terminal summary s).0
      ≡ line k s
finish_in_order key terminal summary s t k h v =
    let p = retire-IsPending key terminal summary s t h v in
    let r = retire key terminal summary s in
    let same : line k r ≡ line k s = rw (retire_running key terminal summary s t h) refl in
    rw (finish_split key terminal summary s) (
      Serves-append k r (promote_next key r).0 (fill s.ready_conversations (promote_next key r).0).0
        (promote_next key r).1 (fill s.ready_conversations (promote_next key r).0).1
        (promote_next-Serves key s.ready_conversations r k p)
        (fill-Serves k s.ready_conversations _ (promote_next-IsListed key _ r p))
      ∙ same)
