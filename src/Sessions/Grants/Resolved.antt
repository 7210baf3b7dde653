-- ===== src/Sessions/Grants/Resolved.antt =====
-- The resolution of an engagement's grants by an operator (domains/sessions/service.py).
use livepeer_open_clearingho.Base.{
  ℕ, ◌≡◌, ◌⊎◌, inl, inr, refl, sym, ap, String, Option, none, some, List, [], ◌∷◌, ◌++◌, All, true,
  false, not, ◌==◌, ◌||◌, is_some, arith, Bool-cases,
}
use livepeer_open_clearingho.Base.Time.{Datetime}
use livepeer_open_clearingho.Base.Result.{Result, ok, err, ok-injective}
use livepeer_open_clearingho.Sessions.Rows
use livepeer_open_clearingho.Sessions.Rows.{
  SpendAuthorizationGrant, Db, Error, is_grant, find_grant, or_raise,
}
use livepeer_open_clearingho.Sessions.Grants.{
  is_terminal, is_active, retired, resolve_grant, resolve_grants,
  mark_spend_authorization_operator_resolved,
}

-- A grant of another engagement, or one that is retired in a terminal state.
abbrev pub IsResolved : ℕ → SpendAuthorizationGrant → Type 0
IsResolved engagement_id g =
    (engagement_id == g.session_id ≡ false)
    ⊎ ((is_terminal g.state ≡ true) × (is_some g.retired_at ≡ true))

abbrev pub conflict : Error
conflict = Rows.settlement_failed "authorization_state_conflict"

resolve_grant-cases :
    (g : SpendAuthorizationGrant) (now : Datetime)
    → ((g' : SpendAuthorizationGrant) × (resolve_grant g now ≡ ok g')
        × (is_terminal g'.state ≡ true)
        × (is_some g'.retired_at ≡ true))
      ⊎ ((is_terminal g.state ≡ false) × (resolve_grant g now ≡ err conflict))
resolve_grant-cases g now = elim (Bool-cases (is_terminal g.state)) [
  | inl done ↦ inl (retired g g.state now, rw done refl, done, refl)
  | inr going ↦ elim (Bool-cases (is_some g.retired_at || not (is_active g.state))) [
    | inl stuck ↦ inr (going, rw (going, stuck))
    | inr active ↦ inl (
      record g { state = "operator_resolved"; retired_at = some now },
      rw (going, active),
      refl,
      refl,
    )
  ]
]

-- What the loop does: it raises the conflict, or it resolves every grant of the engagement.
resolve_grants-cases :
    (i : ℕ) (now : Datetime) (gs : List SpendAuthorizationGrant)
    → ((resolve_grants i now gs).0 ≡ err conflict)
      ⊎ (((resolve_grants i now gs).0 ≡ ok tt) × All (IsResolved i) (resolve_grants i now gs).1)
unfolding resolve_grants
resolve_grants-cases i now [] = inr (refl, tt)
resolve_grants-cases i now (g ∷ gs) = elim (Bool-cases (i == g.session_id)) [
  | inl own ↦ elim (resolve_grant-cases g now) [
    | inl (g', resolved, terminal, at) ↦
        rw (own, resolved) (after g' _ (resolve_grants-cases i now gs) (inr (terminal, at)))
    | inr (going, raised) ↦ inl (rw (own, raised))
  ]
  | inr other ↦ rw other (after g _ (resolve_grants-cases i now gs) (inl other))
]
  where
    after :
        (g : SpendAuthorizationGrant) (r : Result Error (Unit {0}) × List SpendAuthorizationGrant)
        → (r.0 ≡ err conflict) ⊎ ((r.0 ≡ ok tt) × All (IsResolved i) r.1)
        → IsResolved i g
        → (r.0 ≡ err conflict) ⊎ ((r.0 ≡ ok tt) × (IsResolved i g × All (IsResolved i) r.1))
    after g r (inl raised) one = inl raised
    after g r (inr (done, others)) one = inr (done, (one, others))

resolve_grant-keeps :
    (i : ℕ) (a : String) (g : SpendAuthorizationGrant) (now : Datetime)
    (g' : SpendAuthorizationGrant)
    → resolve_grant g now ≡ ok g'
    → is_grant i a g' ≡ is_grant i a g
resolve_grant-keeps i a g now g' h = elim (Bool-cases (is_terminal g.state)) [
  | inl done ↦ ap (is_grant i a) (sym (ok-injective (rw done at h)))
  | inr going ↦ elim (Bool-cases (is_some g.retired_at || not (is_active g.state))) [
    | inl stuck ↦ cc (rw (going, stuck) at h)
    | inr active ↦ ap (is_grant i a) (sym (ok-injective (rw (going, active) at h)))
  ]
]

-- The loop keeps the grants' names, so that the named one is found after it.
resolve_grants-found :
    (i : ℕ) (a : String) (now : Datetime) (gs : List SpendAuthorizationGrant)
    (g : SpendAuthorizationGrant)
    → find_grant i a gs ≡ some g
    → (g' : SpendAuthorizationGrant) × (find_grant i a (resolve_grants i now gs).1 ≡ some g')
unfolding resolve_grants
resolve_grants-found i a now [] g h = cc
resolve_grants-found i a now (x ∷ gs) g h = elim (Bool-cases (is_grant i a x)) [
  | inl named ↦ elim (Bool-cases (i == x.session_id)) [
    | inl own ↦ elim (resolve_grant-cases x now) [
      | inl (x', resolved, terminal, at) ↦
          (x', rw (own, resolved, resolve_grant-keeps i a x now x' resolved, named))
      | inr (going, raised) ↦ (x, rw (own, raised, named))
    ]
    | inr other ↦ (x, rw (other, named))
  ]
  | inr unnamed ↦
      let (g', found) = resolve_grants-found i a now gs g (rw unnamed at h) in
      elim (Bool-cases (i == x.session_id)) [
        | inl own ↦ elim (resolve_grant-cases x now) [
          | inl (x', resolved, terminal, at) ↦
              (g', rw (own, resolved, resolve_grant-keeps i a x now x' resolved, unnamed) found)
          | inr (going, raised) ↦ (g, rw (own, raised, unnamed) (rw unnamed at h))
        ]
        | inr other ↦ (g', rw (other, unnamed) found)
      ]
]

-- An operator's resolution of an engagement reports that the named grant is missing, or that the
-- state of a grant conflicts, or it returns the named grant as it is stored then, and every grant of
-- the engagement is retired in a terminal state.
pub operator_resolution_cases :
    (i : ℕ) (a : String) (now : Datetime) (db : Db)
    → ((mark_spend_authorization_operator_resolved i a now db).0
        ≡ err (Rows.settlement_failed "missing_authorization"))
      ⊎ (((mark_spend_authorization_operator_resolved i a now db).0 ≡ err conflict)
          ⊎ ((g : SpendAuthorizationGrant) × ((mark_spend_authorization_operator_resolved i a now
                  db).0
                ≡ ok g)
              × (find_grant i a (mark_spend_authorization_operator_resolved i a now db).1.grants
                  ≡ some g)
              × All
                  (IsResolved i)
                  (mark_spend_authorization_operator_resolved i a now db).1.grants))
unfolding mark_spend_authorization_operator_resolved
operator_resolution_cases i a now db = named (find_grant i a db.grants) refl
  where
    named :
        (o : Option SpendAuthorizationGrant)
        → find_grant i a db.grants ≡ o
        → ((mark_spend_authorization_operator_resolved i a now db).0
            ≡ err (Rows.settlement_failed "missing_authorization"))
          ⊎ (((mark_spend_authorization_operator_resolved i a now db).0 ≡ err conflict)
              ⊎ ((g : SpendAuthorizationGrant) × ((mark_spend_authorization_operator_resolved i a
                      now db).0
                    ≡ ok g)
                  × (find_grant i a (mark_spend_authorization_operator_resolved i a now db).1.grants
                      ≡ some g)
                  × All
                      (IsResolved i)
                      (mark_spend_authorization_operator_resolved i a now db).1.grants))
    named none found = inl (rw found)
    named (some g) found =
        let (g', there) = resolve_grants-found i a now db.grants g found in
        elim (resolve_grants-cases i now db.grants) [
          | inl raised ↦ inr (inl (rw (found, raised)))
          | inr (done, all) ↦
              inr (inr (g', rw (found, done, there), rw (found, done) there, rw (found, done) all))
        ]

canceled_raises :
    (g : SpendAuthorizationGrant) (now : Datetime)
    → g.state ≡ "canceled_unused"
    → resolve_grant g now ≡ err conflict
canceled_raises g now canceled = elim (Bool-cases (is_some g.retired_at)) [
  | inl at ↦ rw (canceled, at)
  | inr unretired ↦ rw (canceled, unretired)
]

canceled_conflicts :
    (i : ℕ) (now : Datetime) (before later : List SpendAuthorizationGrant)
    (g : SpendAuthorizationGrant)
    → g.session_id ≡ i
    → g.state ≡ "canceled_unused"
    → (resolve_grants i now (before ++ g ∷ later)).0 ≡ err conflict
unfolding resolve_grants
canceled_conflicts i now [] later g own canceled =
    rw (same_engagement, canceled_raises g now canceled)
  where
    same_engagement : i == g.session_id ≡ true
    same_engagement = ground (arith, own)
canceled_conflicts i now (x ∷ before) later g own canceled = elim (Bool-cases (i == x.session_id)) [
  | inl of_it ↦ elim (resolve_grant-cases x now) [
    | inl (x', resolved, terminal, at) ↦
        rw (of_it, resolved) (canceled_conflicts i now before later g own canceled)
    | inr (going, raised) ↦ rw (of_it, raised)
  ]
  | inr other ↦ rw other (canceled_conflicts i now before later g own canceled)
]

-- An engagement with a grant that the receiver reported as canceled and unused cannot be resolved by
-- an operator: whatever grant is named, the resolution raises that the state of a grant
-- conflicts.
pub canceled_grant_blocks_resolution :
    (i : ℕ) (a : String) (now : Datetime) (db : Db) (current g : SpendAuthorizationGrant)
    (before later : List SpendAuthorizationGrant)
    → find_grant i a db.grants ≡ some current
    → db.grants ≡ before ++ g ∷ later
    → g.session_id ≡ i
    → g.state ≡ "canceled_unused"
    → (mark_spend_authorization_operator_resolved i a now db).0 ≡ err conflict
unfolding mark_spend_authorization_operator_resolved
canceled_grant_blocks_resolution i a now db current g before later found stored own canceled =
    rw (found, stored, canceled_conflicts i now before later g own canceled)
