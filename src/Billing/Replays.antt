-- ===== src/Billing/Replays.antt =====
-- Repeated calls of the engagement holds of domains/billing/service.py.
use livepeer_open_clearingho.Base.{
  ℕ, ◌+◌, ◌≡◌, ◌≢◌, ◌⊎◌, inl, inr, refl, sym, none, some, List, [], ◌∷◌, ◌++◌, true, false, ◌||◌,
  ◌==◌, arith, Option-cases, Bool-cases,
}
use livepeer_open_clearingho.Base.Int.{ℤ, pos, ◌+ℤ◌, ◌<ℤ◌, neg, leb_ℤ, ltb_ℤ, eq_of_parts}
use livepeer_open_clearingho.Base.Time.{Datetime}
use livepeer_open_clearingho.Base.Result.{Result, ok, err}
use livepeer_open_clearingho.Base.Action.{continue, gets, ◌>>=◌, ◌>>◌}
use livepeer_open_clearingho.Billing.Rows
use livepeer_open_clearingho.Billing.Rows.{
  CreditBalance, CreditLedger, Reason, reason_code, Related, Error, Db, Billing, find_balance,
  find_engagement_row, option_eq,
}
use livepeer_open_clearingho.Billing.Ledger.{ensure_balance_row, apply_delta, post_delta}
use livepeer_open_clearingho.Billing.Spend.{enforce_and_record_spend, get_or_create_spend_window}
use livepeer_open_clearingho.Billing.Engagements.{
  for_engagement, ℤ_eq, replay_or, encumber_customer_engagement, increase_customer_engagement_cap,
  release_customer_engagement,
}
use livepeer_open_clearingho.Billing.Consistency.Views.{balance_of, find_balance-write}
use livepeer_open_clearingho.Billing.Consistency.Delta.{
  ensured_row, ensured_db, ensure-eq, ensure-Ensured, apply_delta-eq, entry,
}

-- A posted hold: the ledger row of the engagement and reason, with its amount, and the user's
-- balance row.
abbrev pub IsHeld : ℕ → ℕ → Reason → ℤ → Db → Type 0
IsHeld u e r δ db =
    ((l : CreditLedger) × (find_engagement_row e r db.ledger ≡ some l) × (l.delta_wei ≡ δ))
    × ((row : CreditBalance) × (find_balance u db.balances ≡ some row))

ℤ_eq-eq : (a b : ℤ) → ℤ_eq a b ≡ true → a ≡ b
ℤ_eq-eq a b h = eq_of_parts a b (ground arith)

ℤ_eq_refl : (a : ℤ) → ℤ_eq a a ≡ true
ℤ_eq_refl a = ground arith

find-append :
    (e : ℕ) (r : Reason) (ls : List CreditLedger) (l : CreditLedger)
    → find_engagement_row e r ls ≡ none
    → option_eq l.related.engagement e ≡ true
    → reason_code l.reason ≡ reason_code r
    → find_engagement_row e r (ls ++ l ∷ []) ≡ some l
find-append e r [] l h m q = ground arith
find-append e r (k ∷ ls) l h m q = ground (arith, find-append e r ls l)

-- Recording a spend leaves the ledger and the balances alone.
spend-frame :
    (u : ℕ) (x : ℤ) (now : Datetime) (p : ℕ) (cap : ℤ) (db : Db)
    → let db' = (enforce_and_record_spend u x now p cap db).1 in
      (db'.ledger ≡ db.ledger) × (db'.balances ≡ db.balances)
unfolding enforce_and_record_spend get_or_create_spend_window
spend-frame u x now p cap db = ground arith

-- A delta for an engagement that has no such row yet, once it is posted, is held.
apply_delta-IsHeld :
    (u e : ℕ) (r : Reason) (δ : ℤ) (db : Db) (b : CreditBalance)
    → find_engagement_row e r db.ledger ≡ none
    → (apply_delta u δ r (for_engagement e) db).0 ≡ ok b
    → IsHeld u e r δ (apply_delta u δ r (for_engagement e) db).1
unfolding post_delta
apply_delta-IsHeld u e r δ db b fresh h =
    let rel = for_engagement e in
    let en = ensure-Ensured u db in
    let eq = apply_delta-eq u δ r rel db in
    elim (Bool-cases (ltb_ℤ (balance_of u db +ℤ δ) (pos 0))) [
      | inl short ↦ ground (arith, eq, short)
      | inr covered ↦
          rw (eq, covered, en.ledger_kept)
            (
              (
                entry u δ r rel,
                find-append e r db.ledger (entry u δ r rel) fresh (ground arith) refl,
                refl,
              ),
              (
                record (ensured_row u db) {
                  amount_wei = balance_of u db +ℤ δ;
                  version = (ensured_row u db).version + 1;
                },
                rw (find_balance-write u _ (ensured_db u db).balances, en.user) (ground arith),
              ),
            )
    ]

-- A held engagement: `_ensure_balance_row` finds the row and changes nothing.
ensure-held :
    (u : ℕ) (db : Db) (row : CreditBalance)
    → find_balance u db.balances ≡ some row
    → ensure_balance_row u db ≡ (ok row, db)
unfolding ensure_balance_row
ensure-held u db row h = ground arith

-- What an operation of this kind does to a hold that is posted: the same amount is answered with
-- the balance row and changes nothing, another amount is refused and changes nothing.
abbrev pub Replays : ℕ → ℕ → Reason → ℤ → ℤ → Error → Db → Result Error CreditBalance × Db → Type 0
Replays u e r δ δ' changed db res =
    ((δ' ≡ δ)
      × ((row : CreditBalance) × (find_balance u db.balances ≡ some row) × (res ≡ (ok row, db))))
    ⊎ ((δ' ≢ δ) × (res ≡ (err changed, db)))

replay_or-Replays :
    (u e : ℕ) (r : Reason) (δ δ' : ℤ) (changed : Error) (db : Db)
    (rest : CreditBalance → Billing CreditBalance)
    → IsHeld u e r δ db
    → Replays u e r δ δ' changed db (
        (do
          balance ← ensure_balance_row u
          existing ← gets (λ db. find_engagement_row e r db.ledger)
          replay_or existing δ' changed balance (rest balance))
          db)
replay_or-Replays u e r δ δ' changed db rest ((l, f, d), (row, b)) =
    rw (ensure-held u db row b, f, d)
      (elim (Bool-cases (ℤ_eq δ δ')) [
        | inl equal ↦ inl (sym (ℤ_eq-eq δ δ' equal), (row, b, rw equal))
        | inr differ ↦ inr ((λ same. ground (arith, differ, same, ℤ_eq_refl δ)), rw differ)
      ])

-- A call that returned leaves its hold posted, if the part that runs at the first call posts it.
replay_or-IsHeld :
    (u e : ℕ) (r : Reason) (δ : ℤ) (changed : Error) (db : Db) (rest : Billing CreditBalance)
    (b : CreditBalance)
    → (find_engagement_row e r (ensured_db u db).ledger ≡ none
        → (rest (ensured_db u db)).0 ≡ ok b
        → IsHeld u e r δ (rest (ensured_db u db)).1)
    → let res =
        (do
          balance ← ensure_balance_row u
          existing ← gets (λ db. find_engagement_row e r db.ledger)
          replay_or existing δ changed balance rest)
          db in
      res.0 ≡ ok b → IsHeld u e r δ res.1
replay_or-IsHeld u e r δ changed db rest b posts =
    rw (ensure-eq u db) (elim (Option-cases (find_engagement_row e r (ensured_db u db).ledger)) [
      | inl first ↦ rw first (λ h. posts first h)
      | inr (l, f) ↦ rw f (elim (Bool-cases (ℤ_eq l.delta_wei δ)) [
        | inl equal ↦ rw equal (λ h.
            ((l, f, ℤ_eq-eq l.delta_wei δ equal), (ensured_row u db, (ensure-Ensured u db).found)))
        | inr differ ↦ rw differ (λ h. cc)
      ])
    ])

spend_then_delta-IsHeld :
    (u e : ℕ) (r : Reason) (δ x : ℤ) (now : Datetime) (p : ℕ) (cap : ℤ) (db : Db)
    (b : CreditBalance)
    → find_engagement_row e r db.ledger ≡ none
    → let res =
        (do enforce_and_record_spend u x now p cap; apply_delta u δ r (for_engagement e)) db in
      res.0 ≡ ok b → IsHeld u e r δ res.1
spend_then_delta-IsHeld u e r δ x now p cap db b fresh =
    let s = enforce_and_record_spend u x now p cap db in
    let frame = spend-frame u x now p cap db in go s.0 s.1 (rw frame.0 fresh)
  where
    go :
        (res : Result Error (Unit {0})) (db' : Db)
        → find_engagement_row e r db'.ledger ≡ none
        → (continue res (λ _. apply_delta u δ r (for_engagement e)) db').0 ≡ ok b
        → IsHeld u e r δ (continue res (λ _. apply_delta u δ r (for_engagement e)) db').1
    go (ok t) db' fresh' h = apply_delta-IsHeld u e r δ db' b fresh' h
    go (err x) db' fresh' h = cc

module _ (u e : ℕ) (x x' : ℤ) (db : Db) (b : CreditBalance) where
  -- Once an encumbrance of an engagement has returned, a repeated call, at whatever time and under
  -- whatever cap, answers with the balance row and changes nothing if its amount is the same, and
  -- is refused and changes nothing if its amount differs.
  pub encumber_engagement_replay :
      (now now' : Datetime) (p p' : ℕ) (cap cap' : ℤ)
      → (encumber_customer_engagement u e x now p cap db).0 ≡ ok b
      → let db' = (encumber_customer_engagement u e x now p cap db).1 in
        Replays u e Rows.engagement_encumbrance
          (neg x)
          (neg x')
          Rows.engagement_replay_changed_amount
          db'
          (encumber_customer_engagement u e x' now' p' cap' db')
  unfolding encumber_customer_engagement
  encumber_engagement_replay now now' p p' cap cap' h =
      replay_or-Replays u e Rows.engagement_encumbrance (neg x) (neg x') _ _ _ (
        replay_or-IsHeld u e Rows.engagement_encumbrance (neg x)
          Rows.engagement_replay_changed_amount db _ b
          (λ fresh.
            spend_then_delta-IsHeld u e Rows.engagement_encumbrance (neg x) x now p cap
              (ensured_db u db) b fresh)
          h)

  -- Once a release of an engagement has returned, a repeated call answers with the balance row and
  -- changes nothing if its amount is the same, and is refused and changes nothing if its amount
  -- differs.
  pub release_engagement_replay :
      (release_customer_engagement u e x db).0 ≡ ok b
      → let db' = (release_customer_engagement u e x db).1 in
        Replays u e Rows.engagement_release x x' Rows.release_replay_changed_amount db'
          (release_customer_engagement u e x' db')
  unfolding release_customer_engagement
  release_engagement_replay h = replay_or-Replays u e Rows.engagement_release x x' _ _ _ (
      replay_or-IsHeld u e Rows.engagement_release x Rows.release_replay_changed_amount db _ b
        (λ fresh. apply_delta-IsHeld u e Rows.engagement_release x (ensured_db u db) b fresh) h)

  -- Once a cap revision of an engagement has returned, a repeated call of that revision with a
  -- positive amount, at whatever time and under whatever cap, answers with the balance row and
  -- changes nothing if its amount is the same, and is refused and changes nothing if its amount
  -- differs.
  pub cap_revision_replay :
      (revision : ℕ) (now now' : Datetime) (p p' : ℕ) (cap cap' : ℤ)
      → pos 0 <ℤ x'
      → (increase_customer_engagement_cap u e revision x now p cap db).0 ≡ ok b
      → let db' = (increase_customer_engagement_cap u e revision x now p cap db).1 in
        Replays u e
          (Rows.engagement_cap_revision revision)
          (neg x)
          (neg x')
          Rows.cap_revision_replay_changed_amount
          db'
          (increase_customer_engagement_cap u e revision x' now' p' cap' db')
  unfolding increase_customer_engagement_cap
  cap_revision_replay revision now now' p p' cap cap' positive =
      elim (Bool-cases (revision == 0 || leb_ℤ x (pos 0))) [
        | inl bad ↦ rw bad (λ h. cc)
        | inr good ↦
            let good' : (revision == 0 || leb_ℤ x' (pos 0)) ≡ false = ground arith in
            rw (good, good')
              (λ h.
                replay_or-Replays u e (Rows.engagement_cap_revision revision) (neg x) (neg x') _ _ _
                  (replay_or-IsHeld u e (Rows.engagement_cap_revision revision) (neg x)
                    Rows.cap_revision_replay_changed_amount db _ b
                    (λ fresh.
                      spend_then_delta-IsHeld u e (Rows.engagement_cap_revision revision) (neg x) x
                        now p cap (ensured_db u db) b fresh)
                    h))
      ]
