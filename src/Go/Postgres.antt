-- ===== src/Go/Postgres.antt =====
-- The pool of PostgreSQL connections (pgx) that the two stores share, as far as they rely on it: a
-- statement either fails and has changed nothing, or takes effect at once as a whole. What the
-- server chooses is an argument: for each statement its fault if it has one, the value that
-- uuid_generate_v4() gives, and the time that NOW() gives.
use llm_proxy_study_project.Prelude.{ℕ, suc, Option, none, some, String, ◌<>◌, ◌≡◌, refl}
use llm_proxy_study_project.Go.Effect.{Error, Result, ok, err, Op}

pub record Reply : Type 0 where
  pub fault : Option Error
  pub id : String
  pub now : ℕ

pub record Pool (T : Type 0) : Type 0 where
  pub tables : T
  pub replies : ℕ → Reply
  pub sent : ℕ

-- The answer to the next statement.
abbrev pub reply : {T : Type 0} → Pool T → Reply
reply p = p.replies p.sent

-- The pool once the next statement has been sent and has left these tables.
abbrev pub sent_with : {T : Type 0} → Pool T → T → Pool T
sent_with p t = record p { tables = t; sent = suc p.sent }

-- Sends one statement, which reads and replaces the tables.
abbrev pub statement : {T A : Type 0} → (Reply → T → Result (A × T)) → Op (Pool T) A
statement run p = elim (reply p).fault [
  | some e ↦ (err e, sent_with p p.tables)
  | none ↦ elim (run (reply p) p.tables) [
    | ok (a, t) ↦ (ok a, sent_with p t)
    | err e ↦ (err e, sent_with p p.tables)
  ]
]

-- The next statement does not fail for a reason outside the tables.
abbrev pub Answers : {T : Type 0} → Pool T → Type 0
Answers p = (reply p).fault ≡ none

-- row.Scan of a query with no row, and the errors of the constraints in migrations/.
abbrev pub no_rows : Error
no_rows = "no rows in result set"

abbrev pub out_of_range : Error
out_of_range = "ERROR: bigint out of range (SQLSTATE 22003)"

abbrev pub unique_violation : String → Error
unique_violation constraint =
    "ERROR: duplicate key value violates unique constraint " <> constraint <> " (SQLSTATE 23505)"

abbrev pub foreign_key_violation : String → Error
foreign_key_violation constraint =
    "ERROR: insert or update violates foreign key constraint " <> constraint <> " (SQLSTATE 23503)"

-- The ways in which a statement ends.
pub data Ran {T A : Type 0} (run : Reply → T → Result (A × T)) (p : Pool T)
    : Result A × Pool T → Type 0 where
  faulted : {e : Error} → (reply p).fault ≡ some e → Ran run p (err e, sent_with p p.tables)
  refused :
      {e : Error}
      → Answers p
      → run (reply p) p.tables ≡ err e
      → Ran run p (err e, sent_with p p.tables)
  ran :
      {a : A} {t : T}
      → Answers p
      → run (reply p) p.tables ≡ ok (a, t)
      → Ran run p (ok a, sent_with p t)

pub statement-Ran :
    {T A : Type 0} (run : Reply → T → Result (A × T)) (p : Pool T) → Ran run p (statement run p)
statement-Ran {T} {A} run p = by_fault (reply p).fault refl
  where
    by_result :
        Answers p
        → (r : Result (A × T)) → run (reply p) p.tables ≡ r
        → Ran run p
            (elim r [ ok (a, t) ↦ (ok a, sent_with p t) | err e ↦ (err e, sent_with p p.tables) ])
    by_result fine (ok (a, t)) h = ran fine h
    by_result fine (err e) h = refused fine h

    by_fault :
        (f : Option Error)
        → (reply p).fault ≡ f
        → Ran run p (elim f [
          | some e ↦ (err e, sent_with p p.tables)
          | none ↦ elim (run (reply p) p.tables) [
            | ok (a, t) ↦ (ok a, sent_with p t)
            | err e ↦ (err e, sent_with p p.tables)
          ]
        ])
    by_fault (some e) h = faulted h
    by_fault none h = by_result h (run (reply p) p.tables) refl

-- A statement whose outcome on the tables is known, from a server that answers.
pub statement-eq-ok :
    {T A : Type 0} (run : Reply → T → Result (A × T)) (p : Pool T) {a : A} {t : T}
    → Answers p
    → run (reply p) p.tables ≡ ok (a, t)
    → statement run p ≡ (ok a, sent_with p t)
statement-eq-ok run p fine h = rw (statement, fine, h) refl

pub statement_faulted :
    {T A : Type 0} (run : Reply → T → Result (A × T)) (p : Pool T) {e : Error}
    → (reply p).fault ≡ some e
    → statement run p ≡ (err e, sent_with p p.tables)
statement_faulted run p h = rw (statement, h) refl

-- One more statement has been sent, and what the server will answer is as before.
pub record Sent {T : Type 0} (p q : Pool T) : Type 0 where
  pub sent : q.sent ≡ suc p.sent
  pub replies : q.replies ≡ p.replies
