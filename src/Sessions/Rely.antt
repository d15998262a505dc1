-- ===== src/Sessions/Rely.antt =====
-- Reasoning about the actions on the database while other clients act before every statement.
use dog_bot.Common.{List, [], ◌∷◌, All, Bool, true, false, if◌then◌else◌, ◌≡◌, refl}
use dog_bot.Common.Result.{Result, ok, err}
use dog_bot.SessionTables.{
  Tables, Database, SessionStoreError, Action, continue, statement, pure, fail, ◌>>=◌,
}

-- Tables that the other clients alone have made of `t0`.
pub data ByOthers (R : (Tables → Tables) → Type 0) (t0 : Tables) : Tables → Type 0 where
  untouched : ByOthers R t0 t0
  acted : (f : Tables → Tables) (t : Tables) → R f → ByOthers R t0 t → ByOthers R t0 (f t)

-- `R` is what each of the other clients respects.
module _ (R : (Tables → Tables) → Type 0) where
  abbrev pub Stable : (Tables → Type 0) → Type 0
  Stable P = (f : Tables → Tables) → R f → (t : Tables) → P t → P (f t)

  abbrev pub EndsIn :
      {A : Type 0}
      → (Tables → Type 0)
      → (A → Tables → Type 0)
      → Result SessionStoreError A × Database
      → Type 0
  EndsIn E Q (ok a, db) = Q a db.tables × All R db.others
  EndsIn E Q (err e, db) = E db.tables × All R db.others

  abbrev pub Post :
      {A : Type 0}
      → (Tables → Type 0)
      → (A → Tables → Type 0)
      → Result SessionStoreError A × Tables
      → Type 0
  Post E Q (ok a, t) = Q a t
  Post E Q (err e, t) = E t

  -- From tables with `P` the action ends with `Q`, or with an error and `E`.
  pub record Ensures {A : Type 0} (P E : Tables → Type 0) (m : Action A) (Q : A → Tables → Type 0)
      : Type 0 where
    pub after : (db : Database) → All R db.others → P db.tables → EndsIn E Q (m db)

  module _ {P E : Tables → Type 0} where
    pub pure-Ensures :
        {A : Type 0} {Q : A → Tables → Type 0} (a : A)
        → ((t : Tables) → P t → Q a t)
        → Ensures P E (pure a) Q
    pure-Ensures a h = record { after = λ db os p. (h db.tables p, os) }

    pub fail-Ensures :
        {A : Type 0} {Q : A → Tables → Type 0} (e : SessionStoreError)
        → ((t : Tables) → P t → E t)
        → Ensures P E (fail e) Q
    fail-Ensures e h = record { after = λ db os p. (h db.tables p, os) }

    pub bind-Ensures :
        {A B : Type 0} {Q' : A → Tables → Type 0} {Q : B → Tables → Type 0} {m : Action A}
        {f : A → Action B}
        → Ensures P E m Q'
        → ((a : A) → Ensures (Q' a) E (f a) Q)
        → Ensures P E (m >>= f) Q
    bind-Ensures {A} {B} {Q'} {Q} {m} {f} h g = record {
      after = λ db os p. go (m db) (h.after db os p);
    }
      where
        go :
            (r : Result SessionStoreError A × Database)
            → EndsIn E Q' r
            → EndsIn E Q (continue r.0 f r.1)
        go (ok a, db) o = (g a).after db o.1 o.0
        go (err e, db) o = o

    pub weaken :
        {A : Type 0} {P' E' : Tables → Type 0} {Q Q' : A → Tables → Type 0} {m : Action A}
        → ((t : Tables) → P' t → P t)
        → ((t : Tables) → E t → E' t)
        → ((a : A) (t : Tables) → Q a t → Q' a t)
        → Ensures P E m Q
        → Ensures P' E' m Q'
    weaken {A} {P'} {E'} {Q} {Q'} {m} p e q h = record {
      after = λ db os p'. go (m db) (h.after db os (p db.tables p'));
    }
      where
        go : (r : Result SessionStoreError A × Database) → EndsIn E Q r → EndsIn E' Q' r
        go (ok a, db) o = (q a db.tables o.0, o.1)
        go (err x, db) o = (e db.tables o.0, o.1)

    pub statement-Ensures :
        {A : Type 0} {Q : A → Tables → Type 0} (run : Tables → Result SessionStoreError A × Tables)
        → Stable P
        → ((t : Tables) → P t → Post E Q (run t))
        → Ensures P E (statement run) Q
    statement-Ensures {A} {Q} run stable h = record {
      after = λ db os p. go db.others os db.tables p;
    }
      where
        done :
            (r : Result SessionStoreError A × Tables)
            → Post E Q r
            → (fs : List (Tables → Tables)) → All R fs
            → EndsIn E Q (r.0, record { tables = r.1; others = fs })
        done (ok a, t) q fs os = (q, os)
        done (err e, t) q fs os = (q, os)

        go :
            (fs : List (Tables → Tables))
            → All R fs
            → (t : Tables) → P t
            → EndsIn E Q (statement run (record { tables = t; others = fs }))
        go [] os t p = done (run t) (h t p) [] tt
        go (f ∷ fs) (o, os) t p = done (run (f t)) (h (f t) (stable f o t p)) fs os

    pub if-Ensures :
        {A : Type 0} {Q : A → Tables → Type 0} {m m' : Action A} (b : Bool)
        → (b ≡ true → Ensures P E m Q)
        → (b ≡ false → Ensures P E m' Q)
        → Ensures P E (if b then m else m') Q
    if-Ensures true h g = h refl
    if-Ensures false h g = g refl

    -- What the precondition says of no state may be taken for granted.
    pub assume :
        {A : Type 0} {Q : A → Tables → Type 0} (X : Type 0) (m : Action A)
        → ((t : Tables) → P t → X)
        → (X → Ensures P E m Q)
        → Ensures P E m Q
    assume X m x g = record { after = λ db os p. (g (x db.tables p)).after db os p }
