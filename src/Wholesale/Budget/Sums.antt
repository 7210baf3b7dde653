-- ===== src/Wholesale/Budget/Sums.antt =====
-- How the writes of an account and of a funding change the exposure of the active accounts
-- (domains/wholesale/service.py).
use livepeer_open_clearingho.Base.{
  ℕ, ◌<◌, String, ◌≡◌, ◌⊎◌, inl, inr, refl, sym, ap, ◌∙◌, none, some, List, [], ◌∷◌, ◌++◌, true,
  false, not, ◌==◌, ◌&&◌, ◌||◌, str_eq, eq_iff, arith, if◌then◌else◌, Bool-cases,
}
use livepeer_open_clearingho.Base.Int.{ℤ, pos, ◌+ℤ◌, int_laws, +ℤ_assoc}
use livepeer_open_clearingho.Wholesale.Rows.{
  WholesaleAccount, WholesaleFunding, WholesaleAccountObservation, Db, is_acknowledged,
  find_account, write_account, find_funding, write_funding,
}
use livepeer_open_clearingho.Wholesale.Exposure.{
  is_active, load_active_accounts, matching_payee_accounts, is_payee_account, next_account, has_id,
  available_sum, pending_account_funding,
}

-- What the active accounts hold, and what is claimed for them and not acknowledged.
abbrev pub exposure : Db → ℤ
exposure db =
    let active_accounts = load_active_accounts db.accounts in
    available_sum active_accounts +ℤ pending_account_funding active_accounts db.fundings

-- Ids are distinct, and below the next id.
abbrev pub AreKeyed : ℕ → List WholesaleAccount → Type 0
AreKeyed n [] = Unit
AreKeyed n (a ∷ rest) = (a.id < n) × (find_account a.id rest ≡ none) × AreKeyed n rest

abbrev pub AreLinked : ℕ → List WholesaleFunding → Type 0
AreLinked n [] = Unit
AreLinked n (f ∷ fs) = (f.account_id < n) × AreLinked n fs

abbrev pub In : WholesaleAccount → List WholesaleAccount → Type 0
In a [] = ⊥
In a (b ∷ rest) = (b ≡ a) ⊎ In a rest

next_account-In :
    (d i : String) (a : WholesaleAccount) (xs : List WholesaleAccount)
    → next_account d i xs ≡ some a
    → In a xs
next_account-In d i a [] h = cc
next_account-In d i a (x ∷ xs) h =
    elim (Bool-cases (str_eq x.settlement_domain_id d && str_eq x.wholesale_account_id i)) [
      | inl here ↦ inl (ground arith)
      | inr there ↦ inr (next_account-In d i a xs (rw there at h))
    ]

matching-In :
    (o : WholesaleAccountObservation) (a : WholesaleAccount) (xs : List WholesaleAccount)
    → In a (matching_payee_accounts xs o)
    → In a xs
matching-In o a [] h = h
matching-In o a (x ∷ xs) h = elim (Bool-cases (is_payee_account o x)) [
  | inl keep ↦ elim (rw keep at h) [ inl e ↦ inl e | inr r ↦ inr (matching-In o a xs r) ]
  | inr skip ↦ inr (matching-In o a xs (rw skip at h))
]

active-In :
    (a : WholesaleAccount) (xs : List WholesaleAccount)
    → In a (load_active_accounts xs)
    → In a xs × (is_active a ≡ true)
active-In a [] h = absurd h
active-In a (x ∷ xs) h = elim (Bool-cases (is_active x)) [
  | inl keep ↦ elim (rw keep at h) [
    | inl e ↦ (inl e, ap is_active (sym e) ∙ keep)
    | inr r ↦ let (m, act) = active-In a xs r in (inr m, act)
  ]
  | inr skip ↦ let (m, act) = active-In a xs (rw skip at h) in (inr m, act)
]

find-none-In :
    (i : ℕ) (a : WholesaleAccount) (xs : List WholesaleAccount)
    → find_account i xs ≡ none
    → In a xs
    → (i == a.id) ≡ false
find-none-In i a [] h m = absurd m
find-none-In i a (x ∷ xs) h (inl e) = ground (arith, ap (λ (y : WholesaleAccount). y.id) e)
find-none-In i a (x ∷ xs) h (inr m) = find-none-In i a xs (ground arith) m

In-find :
    (n : ℕ) (a : WholesaleAccount) (xs : List WholesaleAccount)
    → AreKeyed n xs
    → In a xs
    → find_account a.id xs ≡ some a
In-find n a [] k m = absurd m
In-find n a (x ∷ xs) k (inl e) = ground (arith, e, ap (λ (y : WholesaleAccount). y.id) e)
In-find n a (x ∷ xs) k (inr m) = ground (arith, In-find n a xs k.2 m, find-none-In x.id a xs k.1 m)

-- The account that a claim or a plan works on is the row of its id, and it is active.
pub next-find :
    (n : ℕ) (d i : String) (o : WholesaleAccountObservation) (a : WholesaleAccount)
    (xs : List WholesaleAccount)
    → AreKeyed n xs
    → next_account d i (matching_payee_accounts (load_active_accounts xs) o) ≡ some a
    → (find_account a.id xs ≡ some a) × (is_active a ≡ true)
next-find n d i o a xs k h =
    let (m, act) = active-In a xs (
      matching-In o a (load_active_accounts xs)
        (next_account-In d i a (matching_payee_accounts (load_active_accounts xs) o) h)) in
    (In-find n a xs k m, act)

-- A row written over the one with its id, active as before.
module _ (a a' : WholesaleAccount) (ids : a'.id ≡ a.id) (alike : is_active a' ≡ is_active a) where
  pub has_id-write :
      (i : ℕ) (xs : List WholesaleAccount)
      → find_account a.id xs ≡ some a
      → has_id i (load_active_accounts (write_account a' xs)) ≡ has_id i (load_active_accounts xs)
  has_id-write i [] h = cc
  has_id-write i (x ∷ xs) h = elim (Bool-cases (a.id == x.id)) [
    | inl here ↦
        let e : x ≡ a = ground (arith, here, h) in
        let written : (a'.id == x.id) ≡ true = ground (arith, here, ids) in
        let same : x.id ≡ a'.id = ap (λ (y : WholesaleAccount). y.id) e ∙ sym ids in
        let alike' : is_active a' ≡ is_active x = alike ∙ sym (ap is_active e) in
        elim (Bool-cases (is_active x)) [
          | inl keep ↦
              rw (written, alike' ∙ keep, keep)
                (ap (λ (k : ℕ). i == k || has_id i (load_active_accounts xs)) (sym same))
          | inr skip ↦ rw (written, alike' ∙ skip, skip)
        ]
    | inr there ↦
        let other : (a'.id == x.id) ≡ false = ground (arith, there, ids) in
        let ih = has_id-write i xs (rw there at h) in
        elim (Bool-cases (is_active x)) [
          | inl keep ↦ rw (other, keep) (rw ih)
          | inr skip ↦ rw (other, skip) ih
        ]
  ]

  pub available_sum-write :
      (xs : List WholesaleAccount)
      → find_account a.id xs ≡ some a
      → is_active a ≡ true
      → available_sum (load_active_accounts (write_account a' xs)) +ℤ a.available_value_wei
        ≡ available_sum (load_active_accounts xs) +ℤ a'.available_value_wei
  available_sum-write [] h act = cc
  available_sum-write (x ∷ xs) h act = elim (Bool-cases (a.id == x.id)) [
    | inl here ↦
        let e : x ≡ a = ground (arith, here, h) in
        let written : (a'.id == x.id) ≡ true = ground (arith, here, ids) in
        let live : is_active x ≡ true = ap is_active e ∙ act in
        let same : x.available_value_wei ≡ a.available_value_wei =
          ap (λ (y : WholesaleAccount). y.available_value_wei) e in
        rw (written, alike ∙ act, live) (grind (int_laws, same))
    | inr there ↦
        let other : (a'.id == x.id) ≡ false = ground (arith, there, ids) in
        let ih = available_sum-write xs (rw there at h) act in
        elim (Bool-cases (is_active x)) [
          | inl keep ↦ rw (other, keep) (grind (int_laws, ih))
          | inr skip ↦ rw (other, skip) ih
        ]
  ]

pub has_id-find :
    (i : ℕ) (a : WholesaleAccount) (xs : List WholesaleAccount)
    → find_account i xs ≡ some a
    → is_active a ≡ true
    → has_id i (load_active_accounts xs) ≡ true
has_id-find i a [] h act = cc
has_id-find i a (x ∷ xs) h act = elim (Bool-cases (i == x.id)) [
  | inl here ↦
      let e : x ≡ a = ground (arith, here, h) in rw (ap is_active e ∙ act) (ground (arith, here))
  | inr there ↦
      let ih = has_id-find i a xs (rw there at h) act in
      elim (Bool-cases (is_active x)) [
        | inl keep ↦ rw keep (ground (arith, ih))
        | inr skip ↦ rw skip ih
      ]
]

-- A new active row at the end.
pub active-append :
    (a : WholesaleAccount) (xs : List WholesaleAccount)
    → is_active a ≡ true
    → load_active_accounts (xs ++ a ∷ []) ≡ load_active_accounts xs ++ a ∷ []
active-append a [] act = rw act
active-append a (x ∷ xs) act = elim (Bool-cases (is_active x)) [
  | inl keep ↦ rw (keep, active-append a xs act)
  | inr skip ↦ rw (skip, active-append a xs act)
]

pub available_sum-append :
    (a : WholesaleAccount) (xs : List WholesaleAccount)
    → available_sum (xs ++ a ∷ []) ≡ available_sum xs +ℤ a.available_value_wei
available_sum-append a [] = omega int_laws
available_sum-append a (x ∷ xs) = rw (available_sum-append a xs) (omega int_laws)

pub has_id-append :
    (i : ℕ) (a : WholesaleAccount) (xs : List WholesaleAccount)
    → has_id i (xs ++ a ∷ []) ≡ (has_id i xs || i == a.id)
has_id-append i a [] = ground arith
has_id-append i a (x ∷ xs) = rw (has_id-append i a xs) (ground arith)

pub pending-append_account :
    (n : ℕ) (a : WholesaleAccount) (xs : List WholesaleAccount) (fs : List WholesaleFunding)
    → AreLinked n fs
    → a.id ≡ n
    → pending_account_funding (xs ++ a ∷ []) fs ≡ pending_account_funding xs fs
pending-append_account n a xs [] l e = refl
pending-append_account n a xs (f ∷ fs) l e =
    let other : (f.account_id == a.id) ≡ false = ground (arith, l.0, e) in
    rw (has_id-append f.account_id a xs, other, pending-append_account n a xs fs l.1 e)
      (ground arith)

pub pending-cong :
    (xs ys : List WholesaleAccount) (fs : List WholesaleFunding)
    → ((i : ℕ) → has_id i xs ≡ has_id i ys)
    → pending_account_funding xs fs ≡ pending_account_funding ys fs
pending-cong xs ys [] h = refl
pending-cong xs ys (f ∷ fs) h = rw (h f.account_id, pending-cong xs ys fs h)

abbrev pub pending_of : List WholesaleAccount → WholesaleFunding → ℤ
pending_of xs f =
    if has_id f.account_id xs && not (is_acknowledged f.status)
    then f.requested_shortfall_wei
    else pos 0

pub pending-append_funding :
    (xs : List WholesaleAccount) (fs : List WholesaleFunding) (f : WholesaleFunding)
    → pending_account_funding xs (fs ++ f ∷ []) ≡ pending_account_funding xs fs +ℤ pending_of xs f
pending-append_funding xs [] f = omega int_laws
pending-append_funding xs (g ∷ fs) f = rw (pending-append_funding xs fs f) (omega int_laws)

pub find_funding-name :
    (m : String) (fs : List WholesaleFunding) (f : WholesaleFunding)
    → find_funding m fs ≡ some f
    → f.mint_request_id ≡ m
find_funding-name m [] f h = cc
find_funding-name m (g ∷ fs) f h = elim (Bool-cases (str_eq g.mint_request_id m)) [
  | inl here ↦
      let g_f : g ≡ f = ground (arith, here, h) in
      sym (ap (λ (k : WholesaleFunding). k.mint_request_id) g_f)
      ∙ (eq_iff g.mint_request_id m).0 here
  | inr there ↦ find_funding-name m fs f (rw there at h)
]

under_sum : (g p' p c c' : ℤ) → p' +ℤ c ≡ p +ℤ c' → g +ℤ p' +ℤ c ≡ g +ℤ p +ℤ c'
under_sum g p' p c c' h = +ℤ_assoc g p' c ∙ ap (λ (t : ℤ). g +ℤ t) h ∙ sym (+ℤ_assoc g p c')

-- A funding written over the one with its `mint_request_id`.
pub pending-write_funding :
    (xs : List WholesaleAccount) (fs : List WholesaleFunding) (m : String) (f f' : WholesaleFunding)
    → find_funding m fs ≡ some f
    → f'.mint_request_id ≡ f.mint_request_id
    → pending_account_funding xs (write_funding f' fs) +ℤ pending_of xs f
      ≡ pending_account_funding xs fs +ℤ pending_of xs f'
pending-write_funding xs [] m f f' h e = cc
pending-write_funding xs (g ∷ fs) m f f' h e = elim (Bool-cases (str_eq g.mint_request_id m)) [
  | inl here ↦
      let g_f : g ≡ f = ground (arith, here, h) in
      let written : str_eq g.mint_request_id f'.mint_request_id ≡ true =
        (eq_iff g.mint_request_id f'.mint_request_id).1
          (ap (λ (k : WholesaleFunding). k.mint_request_id) g_f ∙ sym e) in
      let same : pending_of xs g ≡ pending_of xs f = ap (pending_of xs) g_f in
      rw written (grind (int_laws, same))
  | inr there ↦
      let found = rw there at h in
      let named : f.mint_request_id ≡ m = find_funding-name m fs f found in
      let other : str_eq g.mint_request_id f'.mint_request_id ≡ false = rw (e, named) there in
      rw other (
        under_sum (pending_of xs g) (pending_account_funding xs (write_funding f' fs))
          (pending_account_funding xs fs) (pending_of xs f) (pending_of xs f')
          (pending-write_funding xs fs m f f' found e))
]
