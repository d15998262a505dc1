-- ===== src/Server/Checks.antt =====
-- What the helpers accept, how long a summary is, and how far apart the purges are.
use dog_bot.Common.{
  ℕ, zero, suc, ◌-◌, ◌≤◌, true, false, Option, none, some, List, [], ◌∷◌, length, is_empty, any,
  ltb, leb, if◌then◌else◌, ◌≡◌, refl, arith, Bool-cases, inl, inr, length-append,
}
use dog_bot.Common.Text.{Text, text}
use dog_bot.Common.Text.Trim.{trim, trim_idem}
use dog_bot.Common.Result.{Result, ok, err}
use dog_bot.Server.{
  take, short_terminal_summary, is_unsupported, normalize_context_identifier, HistoryCleanupState,
  should_run,
}

length-take : (n : ℕ) (s : Text) → length (take n s) ≤ n
unfolding take
length-take zero s = omega arith
length-take (suc n) [] = omega arith
length-take (suc n) (c ∷ s) = omega (arith, length-take n s)

-- A summary has at most 83 characters, and one of at most 80 is the trimmed output itself.
pub short_terminal_summary_bound :
    (output : Text)
    → (length (short_terminal_summary output) ≤ 83)
      × (leb (length (trim output)) 80 ≡ true → short_terminal_summary output ≡ trim output)
unfolding short_terminal_summary
short_terminal_summary_bound output = elim (Bool-cases (leb (length (trim output)) 80)) [
  | inl short ↦ rw short (ground (arith, short), λ h. refl)
  | inr long ↦ rw long (
    omega (arith, length-take 80 (trim output), length-append (take 80 (trim output)) (text "...")),
    λ h. ground (arith, long, h),
  )
]

-- The normal form of an identifier, if there is one.
abbrev pub IsIdentifier : Text → Result Text Text → Type 0
IsIdentifier field_name (err e) = Unit
IsIdentifier field_name (ok s) =
    (is_empty s ≡ false)
    × (any is_unsupported s ≡ false)
    × (normalize_context_identifier s field_name ≡ ok s)

-- An identifier that is accepted is not empty, has no control character and no backtick, and is accepted again unchanged.
pub normalize_context_identifier-IsIdentifier :
    (value field_name : Text)
    → IsIdentifier field_name (normalize_context_identifier value field_name)
unfolding normalize_context_identifier
normalize_context_identifier-IsIdentifier value field_name =
    elim (Bool-cases (is_empty (trim value))) [
      | inl blank ↦ rw blank tt
      | inr given ↦ elim (Bool-cases (any is_unsupported (trim value))) [
        | inl bad ↦ rw (given, bad) tt
        | inr good ↦ rw (given, good) (given, good, rw (trim_idem value, given, good) refl)
      ]
    ]

-- The times, among those of the calls, at which the history is purged.
abbrev pub purges : ℕ → HistoryCleanupState → List ℕ → List ℕ
purges interval st [] = []
purges interval st (now ∷ times) =
    let r = should_run interval now st in
    let rest = purges interval r.1 times in if r.0 then now ∷ rest else rest

-- Each purge is at least the interval after the one before it.
abbrev pub IsSpaced : ℕ → Option ℕ → List ℕ → Type 0
IsSpaced interval last [] = Unit
IsSpaced interval none (t ∷ ts) = IsSpaced interval (some t) ts
IsSpaced interval (some last) (t ∷ ts) = (interval ≤ t - last) × IsSpaced interval (some t) ts

-- However often the handlers ask, two purges of the history are at least the interval apart.
pub purges-IsSpaced :
    (interval : ℕ) (st : HistoryCleanupState) (times : List ℕ)
    → IsSpaced interval st (purges interval st times)
unfolding should_run
purges-IsSpaced interval st [] = tt
purges-IsSpaced interval none (now ∷ times) = purges-IsSpaced interval (some now) times
purges-IsSpaced interval (some last) (now ∷ times) = elim (Bool-cases (ltb (now - last) interval)) [
  | inl soon ↦ rw soon (purges-IsSpaced interval (some last) times)
  | inr due ↦ rw due (ground (arith, due), purges-IsSpaced interval (some now) times)
]
