-- ===== src/Runs/Payloads.antt =====
-- Taking the payloads of promoted tasks.
use dog_bot.Common.{
  ℕ, ◌+◌, ◌≤◌, ◌≡◌, refl, arith, ◌&&◌, Option, none, some, List, [], ◌∷◌, map, if◌then◌else◌, total,
}
use dog_bot.Common.Text.{Text, text_eq, text_eq_iff, text_eq_refl}
use dog_bot.HashMap.{HashMap, get, remove}
use dog_bot.HashMap.Laws.{get-remove}
use dog_bot.Scheduler.{TaskSummary}
use dog_bot.Runs.{ScheduledRun, take_payloads}

-- Counts a task by its identifier and its conversation.
abbrev pub tag : Text → Text → TaskSummary → ℕ
tag id key t = if text_eq t.task_id id && text_eq t.conversation_key key then 1 else 0

abbrev pub matches : Text → Option ScheduledRun → ℕ
matches key none = 0
matches key (some run) = if text_eq run.summary.conversation_key key then 1 else 0

abbrev pub run_keys : List ScheduledRun → List Text
run_keys = map λ r. r.summary.conversation_key

abbrev pub task_keys : List TaskSummary → List Text
task_keys = map λ t. t.conversation_key

-- Every payload is stored once, under the identifier of its task, as often as the task is queued.
pub record Holds (ts : List TaskSummary) (m : HashMap ScheduledRun) : Type 0 where
  pub enough : (id key : Text) → total (tag id key) ts ≤ matches key (get id m)

pub record Takes (ts : List TaskSummary) (m : HashMap ScheduledRun) : Type 0 where
  pub same_keys : run_keys (take_payloads ts m).0 ≡ task_keys ts
  pub rest :
      (id key : Text)
      → matches key (get id (take_payloads ts m).1) + total (tag id key) ts ≡ matches key (get id m)

tag_self : (t : TaskSummary) → tag t.task_id t.conversation_key t ≡ 1
tag_self t = ground (arith, text_eq_refl t.task_id, text_eq_refl t.conversation_key)

pub Holds-head :
    (t : TaskSummary) (ts : List TaskSummary) (m : HashMap ScheduledRun)
    → Holds (t ∷ ts) m
    → (run : ScheduledRun) × (get t.task_id m ≡ some run)
      × (run.summary.conversation_key ≡ t.conversation_key)
Holds-head t ts m h = go (get t.task_id m) refl
  where
    go :
        (o : Option ScheduledRun)
        → get t.task_id m ≡ o
        → (run : ScheduledRun) × (get t.task_id m ≡ some run)
          × (run.summary.conversation_key ≡ t.conversation_key)
    go none e = absurd (ground (arith, h.enough t.task_id t.conversation_key, tag_self t, e))
    go (some run) e = (
      run,
      e,
      ground (
        arith,
        h.enough t.task_id t.conversation_key,
        tag_self t,
        e,
        text_eq_iff run.summary.conversation_key t.conversation_key,
      ),
    )

pub Holds-tail :
    (t : TaskSummary) (ts : List TaskSummary) (m : HashMap ScheduledRun) (run : ScheduledRun)
    → Holds (t ∷ ts) m
    → get t.task_id m ≡ some run
    → run.summary.conversation_key ≡ t.conversation_key
    → Holds ts (remove t.task_id m)
Holds-tail t ts m run h e k = record {
  enough = λ id key. ground (
    arith,
    h.enough id key,
    get-remove t.task_id id m,
    e,
    k,
    text_eq_iff t.task_id id,
    text_eq_iff t.conversation_key key,
    text_eq_iff run.summary.conversation_key key,
  );
}

pub take_payloads-some :
    (t : TaskSummary) (ts : List TaskSummary) (m : HashMap ScheduledRun) (run : ScheduledRun)
    → get t.task_id m ≡ some run
    → take_payloads (t ∷ ts) m
      ≡ (run ∷ (take_payloads ts (remove t.task_id m)).0, (take_payloads ts (remove t.task_id m)).1)
unfolding take_payloads
take_payloads-some t ts m run e = rw (e, take_payloads)

-- No promoted task is left without its payload.
pub take_payloads-Takes :
    (ts : List TaskSummary) (m : HashMap ScheduledRun) → Holds ts m → Takes ts m
take_payloads-Takes [] m h =
    unfold take_payloads in record { same_keys = refl; rest = λ id key. omega arith }
take_payloads-Takes (t ∷ ts) m h =
    let (run, e, k) = Holds-head t ts m h in
    let m' = remove t.task_id m in
    let ih = take_payloads-Takes ts m' (Holds-tail t ts m run h e k) in
    record {
      same_keys = rw (take_payloads-some t ts m run e, k, ih.same_keys);
      rest = λ id key. rw (take_payloads-some t ts m run e) (
          ground (
            arith,
            ih.rest id key,
            h.enough id key,
            get-remove t.task_id id m,
            e,
            k,
            text_eq_iff t.task_id id,
            text_eq_iff t.conversation_key key,
            text_eq_iff run.summary.conversation_key key,
          ));
    }
