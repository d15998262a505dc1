-- ===== src/Scheduler/Tests.antt =====
-- One slot, a running task of one conversation, and waiting tasks of two.
use dog_bot.Common.{List, arith, ◌≡◌, ◌<◌, ◌+◌, ◌⊎◌, refl, none, [], ◌∷◌}
use dog_bot.Common.Text.{Text, text, text_eq, text_eq_iff}
use dog_bot.HashMap.{HashMap, get, insert, len, weigh}
use dog_bot.Scheduler.{
  TaskSummary, new_task, SchedulerState, completed, new, admit, finish, waiting_count,
}
use dog_bot.Scheduler.Invariant.{IsValid}
use dog_bot.Scheduler.History.{Reach, initially, next, Step, admits, finishes, Reach-IsValid}
use dog_bot.Scheduler.Front.{TakesFirst, finish_takes_front}
use dog_bot.Scheduler.Answers.{Promises, admit-Promises}
use dog_bot.Scheduler.Drain.{Finishes, start, finishes as ends_one, Finishes-drains}
use dog_bot.HashMap.Same.{SameMap}
use dog_bot.Scheduler.Same.{Same, IsStored}
use dog_bot.Scheduler.Representation.{
  Call, admits as admits_task, finishes as finishes_task, looks, play, play-Same,
}
use dog_bot.Scheduler.Refine.{FifoStep, view, label, Step-FifoStep}

abbrev key_a : Text
key_a = text "qq::group:a"

abbrev key_b : Text
key_b = text "qq::group:b"

abbrev first : TaskSummary
first = new_task (text "1") key_a

abbrev second : TaskSummary
second = new_task (text "2") key_a

abbrev other : TaskSummary
other = new_task (text "3") key_b

abbrev crowded : SchedulerState
crowded = (admit other (admit second (admit first (new 1 5)).0).0).0

crowded-Reach : Reach 1 5 crowded
crowded-Reach = next (next (next initially (admits first)) (admits second)) (admits other)

Reach-IsValid_example : IsValid crowded
Reach-IsValid_example = Reach-IsValid crowded-Reach

finish_takes_front_example :
    TakesFirst crowded (key_a ∷ key_b ∷ []) (finish key_a completed none crowded)
unfolding admit new get weigh insert text_eq
finish_takes_front_example =
    finish_takes_front key_a completed none crowded first refl (Reach-IsValid crowded-Reach)

admit-Promises_example : Promises first crowded (admit first crowded).0 (admit first crowded).1
admit-Promises_example = admit-Promises first crowded (Reach-IsValid crowded-Reach)

abbrev finishing : Step crowded (finish key_a completed none crowded).0
unfolding admit new get weigh insert text_eq
finishing = finishes key_a completed none first refl

Step-FifoStep_example :
    FifoStep (view crowded) (view (finish key_a completed none crowded).0) (label finishing)
Step-FifoStep_example = Step-FifoStep finishing (Reach-IsValid crowded-Reach)

abbrev one_finished : SchedulerState
one_finished = (finish key_a completed none crowded).0

crowded-Finishes : Finishes crowded 1 one_finished
unfolding admit new get weigh insert text_eq
crowded-Finishes = ends_one key_a completed none first start refl

Finishes-drains_example :
    ((1 < len crowded.running + waiting_count crowded) × (0 < len one_finished.running))
    ⊎ ((1 ≡ len crowded.running + waiting_count crowded)
        × (len one_finished.running ≡ 0)
        × (waiting_count one_finished ≡ 0))
Finishes-drains_example = Finishes-drains crowded-Reach crowded-Finishes

-- Two conversations run and have a task waiting each. The maps list `a` first, or `b` first.
abbrev fourth : TaskSummary
fourth = new_task (text "4") key_b

abbrev two_slots : HashMap TaskSummary → HashMap (List TaskSummary) → SchedulerState
two_slots running queued = record (new 2 5) { running = running; queued = queued }

abbrev a_first : SchedulerState
unfolding new
a_first =
    two_slots ((key_a, first) ∷ (key_b, other) ∷ [])
      ((key_a, second ∷ []) ∷ (key_b, fourth ∷ []) ∷ [])

abbrev b_first : SchedulerState
unfolding new
b_first =
    two_slots ((key_b, other) ∷ (key_a, first) ∷ [])
      ((key_b, fourth ∷ []) ∷ (key_a, second ∷ []) ∷ [])

swap-SameMap :
    {V : Type 0} (v w : V) → SameMap ((key_a, v) ∷ (key_b, w) ∷ []) ((key_b, w) ∷ (key_a, v) ∷ [])
unfolding get text_eq
swap-SameMap v w k = ground (arith, text_eq_iff key_a k, text_eq_iff key_b k)

a_first-b_first : Same a_first b_first
unfolding new
a_first-b_first = record {
  concurrent = refl;
  depth = refl;
  running = swap-SameMap first other;
  queued = swap-SameMap (second ∷ []) (fourth ∷ []);
  ready = refl;
  recent = refl;
}

a_first-IsStored : IsStored a_first
unfolding new get text_eq
a_first-IsStored = record {
  one_running = (refl, (refl, tt));
  one_queue = (refl, (refl, tt));
  keyed = λ k t h. ground (arith, text_eq_iff key_a k, text_eq_iff key_b k);
}

b_first-IsStored : IsStored b_first
unfolding new get text_eq
b_first-IsStored = record {
  one_running = (refl, (refl, tt));
  one_queue = (refl, (refl, tt));
  keyed = λ k t h. ground (arith, text_eq_iff key_a k, text_eq_iff key_b k);
}

abbrev some_calls : List Call
some_calls =
    admits_task other
    ∷ looks
    ∷ finishes_task key_b completed none
    ∷ looks
    ∷ finishes_task key_b completed none
    ∷ []

play-Same_example : play some_calls a_first ≡ play some_calls b_first
play-Same_example =
    play-Same some_calls a_first b_first a_first-b_first a_first-IsStored b_first-IsStored
