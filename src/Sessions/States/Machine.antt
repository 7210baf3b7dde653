-- ===== src/Sessions/States/Machine.antt =====
-- The life of an engagement as a step relation, and what `transition_state` of
-- domains/sessions/service.py does to the table.
use livepeer_open_clearingho.Base.{
  ℕ, ◌≡◌, ◌⊎◌, inl, inr, refl, sym, ap, subst, ◌∙◌, String, Option, none, some, List, [], ◌∷◌, Bool,
  true, false, not, ◌||◌, str_eq, eq_iff, arith, Bool-cases,
}
use livepeer_open_clearingho.Base.Time.{Datetime}
use livepeer_open_clearingho.Base.Result.{ok, err}
use livepeer_open_clearingho.Base.Action.{bind-eq-ok, raise_if-eq-ok, returned-eq}
use livepeer_open_clearingho.Sessions.Rows
use livepeer_open_clearingho.Sessions.Rows.{
  PaymentSession, Db, Error, find_session, write_session, or_raise,
}
use livepeer_open_clearingho.Sessions.States.{
  is_state, is_allowed, moved, put_session, transition_state,
}

-- One move of the state machine.
pub data Step (from to : String) : Type 0 where
  drain : from ≡ "open" → to ≡ "draining" → Step from to
  finish : from ≡ "open" → to ≡ "closed" → Step from to
  drained : from ≡ "draining" → to ≡ "closed" → Step from to

is_allowed-cases :
    (from to : String)
    → is_allowed from to ≡ true
    → ((from ≡ "open") × (to ≡ "draining"))
      ⊎ (((from ≡ "open") × (to ≡ "closed")) ⊎ ((from ≡ "draining") × (to ≡ "closed")))
is_allowed-cases from to h =
    ground
      (arith, eq_iff from "open", eq_iff from "draining", eq_iff to "draining", eq_iff to "closed")

is_allowed-Step : (from to : String) → is_allowed from to ≡ true → Step from to
is_allowed-Step from to h = elim (is_allowed-cases from to h) [
  | inl (f, t) ↦ drain f t
  | inr (inl (f, t)) ↦ finish f t
  | inr (inr (f, t)) ↦ drained f t
]

closed_stuck : {to : String} → ¬ Step "closed" to
closed_stuck (drain f t) = cc ((eq_iff "closed" "open").1 f)
closed_stuck (finish f t) = cc ((eq_iff "closed" "open").1 f)
closed_stuck (drained f t) = cc ((eq_iff "closed" "draining").1 f)

pub not-false : (b : Bool) → not b ≡ false → b ≡ true
not-false true h = refl
not-false false h = cc

pub or_raise-eq-ok :
    {A : Type 0} (o : Option A) (e : Error) (db db' : Db) {a : A}
    → or_raise o e db ≡ (ok a, db')
    → (o ≡ some a) × (db' ≡ db)
or_raise-eq-ok none e db db' h = cc
or_raise-eq-ok (some a) e db db' h = (cc, cc)

pub find_session-id :
    (i : ℕ) (xs : List PaymentSession) (s : PaymentSession) → find_session i xs ≡ some s → s.id ≡ i
find_session-id i [] s h = cc
find_session-id i (t ∷ xs) s h = ground (arith, find_session-id i xs s)

pub find_session-write :
    (s : PaymentSession) (xs : List PaymentSession) (t : PaymentSession)
    → find_session s.id xs ≡ some t
    → find_session s.id (write_session s xs) ≡ some s
find_session-write s [] t h = cc
find_session-write s (x ∷ xs) t h = ground (arith, find_session-write s xs t)

put_session-eq :
    {s t : PaymentSession} {db db' : Db} → s ≡ t → db ≡ db' → put_session s db ≡ put_session t db'
put_session-eq {t = t} {db = db} h g = ap (λ s. put_session s db) h ∙ ap (put_session t) g

-- A transition that returns has moved the row of the engagement, which was in the state that it
-- names, by a step of the machine, and has written nothing else.
pub transition_state-moves :
    (i : ℕ) (from to : String) (now : Datetime) (db : Db) (row' : PaymentSession) (db' : Db)
    → transition_state i from to now db ≡ (ok row', db')
    → (row : PaymentSession) × (find_session i db.sessions ≡ some row)
      × (row.state ≡ from)
      × Step from to
      × (row' ≡ moved row to now)
      × (db' ≡ put_session row' db)
unfolding transition_state
transition_state-moves i from to now db row' db' h =
    let known = raise_if-eq-ok (not (is_state from) || not (is_state to)) _ _ db h in
    let allowed = raise_if-eq-ok (not (is_allowed from to)) _ _ db known.1 in
    let (row, db₁, found, h₁) =
      bind-eq-ok (or_raise (find_session i db.sessions) _) _ db allowed.1 in
    let there = or_raise-eq-ok (find_session i db.sessions) _ db db₁ found in
    let current = raise_if-eq-ok (not (str_eq row.state from)) _ _ db₁ h₁ in
    let stored = returned-eq current.1 in
    (
      row,
      there.0,
      (eq_iff row.state from).0 (not-false _ current.0),
      is_allowed-Step from to (not-false _ allowed.0),
      sym (stored.0),
      sym (stored.1) ∙ put_session-eq (stored.0) (there.1),
    )

closing_returns :
    (i : ℕ) (now : Datetime) (db : Db) (row : PaymentSession)
    → find_session i db.sessions ≡ some row
    → (row.state ≡ "open") ⊎ (row.state ≡ "draining")
    → transition_state i row.state "closed" now db
      ≡ (ok (moved row "closed" now), put_session (moved row "closed" now) db)
unfolding transition_state
closing_returns i now db row found (inl opened) = rw (opened, found, opened)
closing_returns i now db row found (inr draining) = rw (draining, found, draining)

find_session-write_other :
    (j : ℕ) (s : PaymentSession) (xs : List PaymentSession)
    → (j ≡ s.id) ⊎ (find_session j (write_session s xs) ≡ find_session j xs)
find_session-write_other j s [] = inr refl
find_session-write_other j s (x ∷ xs) = ground (arith, find_session-write_other j s xs)

-- An open or draining engagement can be closed at any time: the transition from its state to `closed`
-- returns its row, closed now and otherwise unchanged; that row is the one that is stored, the row of
-- any other engagement `j` stays, and no other table changes.
pub transition_state-closes :
    (i j : ℕ) (now : Datetime) (db : Db) (row : PaymentSession)
    → find_session i db.sessions ≡ some row
    → (row.state ≡ "open") ⊎ (row.state ≡ "draining")
    → (row' : PaymentSession) × (db' : Db) × (transition_state i row.state "closed" now db
        ≡ (ok row', db'))
      × (row' ≡ record row { state = "closed"; closed_at = some now })
      × (db' ≡ record db { sessions = db'.sessions })
      × (find_session i db'.sessions ≡ some row')
      × ((j ≡ i) ⊎ (find_session j db'.sessions ≡ find_session j db.sessions))
transition_state-closes i j now db row found state =
    let row' = moved row "closed" now in
    let own : row.id ≡ i = find_session-id i db.sessions row found in
    (
      row',
      put_session row' db,
      closing_returns i now db row found state,
      refl,
      refl,
      subst (λ k. find_session k (write_session row' db.sessions) ≡ some row') own
          (find_session-write row' db.sessions row
            (ap (λ k. find_session k db.sessions) own ∙ found)),
      subst
          (λ k.
            (j ≡ k)
            ⊎ (find_session j (write_session row' db.sessions) ≡ find_session j db.sessions))
          own (find_session-write_other j row' db.sessions),
    )

-- A transition of an engagement that is closed raises, whatever states it names, and changes nothing.
pub closed_transition_raises :
    (i : ℕ) (from to : String) (now : Datetime) (db : Db) (row : PaymentSession)
    → find_session i db.sessions ≡ some row
    → row.state ≡ "closed"
    → (e : Error) × (transition_state i from to now db ≡ (err e, db))
unfolding transition_state
closed_transition_raises i from to now db row found closed =
    elim (Bool-cases (not (is_state from) || not (is_state to))) [
      | inl unknown ↦ (Rows.invalid_session_state, rw unknown)
      | inr known ↦ elim (Bool-cases (not (is_allowed from to))) [
        | inl forbidden ↦ (Rows.invalid_session_transition, rw (known, forbidden))
        | inr allowed ↦ (Rows.invalid_session_transition, rw (known, allowed, found, other allowed))
      ]
    ]
  where
    other : not (is_allowed from to) ≡ false → not (str_eq row.state from) ≡ true
    other allowed = elim (Bool-cases (not (str_eq row.state from))) [
      | inl moved_on ↦ moved_on
      | inr same ↦ absurd (
          closed_stuck (
            subst (λ s. Step s to) (sym ((eq_iff row.state from).0 (not-false _ same)) ∙ closed)
              (is_allowed-Step from to (not-false _ allowed))))
    ]
