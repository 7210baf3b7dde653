-- ===== src/Settlement/Keys/Sound.antt =====
-- What `_authorize_key` of settlement_verification.py accepts.
use livepeer_open_clearingho.Base.{
  ◌≡◌, ◌≤◌, ◌⊎◌, inl, inr, sym, String, Option, none, some, List, [], ◌∷◌, Bool, true, false,
  eq_iff, arith, Bool-cases,
}
use livepeer_open_clearingho.Base.Time.{Datetime}
use livepeer_open_clearingho.Base.Result.{ok, >>=-eq-ok}
use livepeer_open_clearingho.Settlement.Keys.{
  Delegation, le, is_key, upper, delegated_time, covers, authorize_key,
}

module _ (iso : String → Option Datetime) (public_key : String) (issued_at : Datetime) where
  -- The delegation is of this key, and its two times, which are naive or aware as the signed time
  -- is, enclose it.
  abbrev pub Delegates : Delegation → Type 0
  Delegates d =
      (d.public_key ≡ some public_key)
      × (start : Datetime) × (end : Datetime) × (delegated_time iso d.not_before ≡ ok start)
      × (delegated_time iso d.expires_at ≡ ok end)
      × (start.aware ≡ issued_at.aware)
      × (end.aware ≡ issued_at.aware)
      × (start.micros ≤ issued_at.micros)
      × (issued_at.micros ≤ end.micros)

  abbrev pub AnyDelegates : List Delegation → Type 0
  AnyDelegates [] = ⊥
  AnyDelegates (d ∷ rest) = Delegates d ⊎ AnyDelegates rest

  key-eq : (k : Option String) → is_key k public_key ≡ true → k ≡ some public_key
  key-eq none h = cc
  key-eq (some k) h = ground (arith, eq_iff k public_key)

  le-true : (a b : Datetime) → le a b ≡ ok true → (a.aware ≡ b.aware) × (a.micros ≤ b.micros)
  le-true a b h = (
    ground (arith, Bool-cases a.aware, Bool-cases b.aware),
    ground (arith, Bool-cases a.aware, Bool-cases b.aware),
  )

  covers-Delegates :
      (d : Delegation)
      → d.public_key ≡ some public_key
      → covers iso d issued_at ≡ ok true
      → Delegates d
  unfolding covers
  covers-Delegates d key h =
      let (start, starts, h₁) = >>=-eq-ok (delegated_time iso d.not_before) _ h in
      let (end, ends, h₂) = >>=-eq-ok (delegated_time iso d.expires_at) _ h₁ in
      let (started, begun, h₃) = >>=-eq-ok (le start issued_at) _ h₂ in
      within start end starts ends started begun h₃
    where
      within :
          (start end : Datetime)
          → delegated_time iso d.not_before ≡ ok start
          → delegated_time iso d.expires_at ≡ ok end
          → (started : Bool) → le start issued_at ≡ ok started
          → upper iso issued_at end started ≡ ok true
          → Delegates d
      within start end starts ends false begun h = cc
      within start end starts ends true begun h =
          let lower = le-true start issued_at begun in
          let higher = le-true issued_at end h in
          (key, start, end, starts, ends, lower.0, sym higher.0, lower.1, higher.1)

  -- A key is authorized only by a pinned delegation of that very key, whose two times parse and
  -- enclose the signed time; they are naive or aware as the signed time is.
  pub authorize_key-AnyDelegates :
      (keys : List Delegation)
      → authorize_key iso public_key issued_at keys ≡ ok tt
      → AnyDelegates keys
  unfolding authorize_key
  authorize_key-AnyDelegates [] h = cc
  authorize_key-AnyDelegates (d ∷ rest) h = elim (Bool-cases (is_key d.public_key public_key)) [
    | inl same ↦
        (let (inside, found, h₁) = >>=-eq-ok (covers iso d issued_at) _ (rw same at h) in
          elim (Bool-cases inside) [
            | inl in_time ↦
                inl (covers-Delegates d (key-eq d.public_key same) (rw in_time at found))
            | inr elsewhere ↦ inr (authorize_key-AnyDelegates rest (rw elsewhere at h₁))
          ])
    | inr other ↦ inr (authorize_key-AnyDelegates rest (rw other at h))
  ]
