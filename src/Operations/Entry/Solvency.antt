-- ===== src/Operations/Entry/Solvency.antt =====
-- The balance of a player through the posting of an entry: that it does not fall below zero.
use poker_management_system.Common.{
  ℕ, ◌≡◌, refl, ap, ◌∙◌, ◌⊎◌, inl, inr, String, Bool, true, false, Option, none, some, List, ◌∷◌,
  arith, if◌then◌else◌, Bool-cases, leb→le,
}
use poker_management_system.Common.Int.{ℤ, pos, neg, ◌+ℤ◌, ◌-ℤ◌, ◌≤ℤ◌, int_laws}
use poker_management_system.Common.Lists.Laws.{find-holds}
use poker_management_system.Common.Text.Laws.{opt_eq-eq}
use poker_management_system.Common.Text.{opt_eq, truthy}
use poker_management_system.Common.Result.{
  Result, ok, err, plain, ◌>>=◌, ◌>>◌, Ensures, Ensures-ok, Ensures-bind,
}
use poker_management_system.Model.{
  Store, Profile, Transaction, ApprovalRequest, TxType, entry, reversal, EntryType, buy_in,
  cash_out, credit_repayment, is_credit, is_reversal,
}
use poker_management_system.Ledger.Debt.{debt, ledger_debt}
use poker_management_system.Ledger.Impact.{
  Impact, credit_player, profile_of, transaction_of, reversed_impact, settled_credit, ledger_impact,
}
use poker_management_system.Operations.Ensures.{passed, found, Ensures-if}
use poker_management_system.Operations.Entry.{
  check_balance, validate_entry, validate_type, validate_repayment, posted, post_entry,
}
use poker_management_system.Operations.Entry.Done.{
  ReversalValid, validate_reversal-done, ledger_entry, post_entry-done,
}
use poker_management_system.Operations.Guards.{Host}

abbrev pub NonNeg : ℤ → Type 0
NonNeg a = pos 0 ≤ℤ a

-- A balance that is asked for is the sum over the ledger.
debt-local :
    (store : Store) (p : String) {owed : ℤ}
    → store.read_model ≡ none
    → debt store p ≡ ok owed
    → owed ≡ ledger_debt store.transactions p
unfolding debt
debt-local store p m h = ground (arith, m, h)

profile_of-id :
    (store : Store) (id : Option String) {profile : Profile}
    → profile_of store id ≡ some profile
    → some profile.id ≡ id
unfolding profile_of
profile_of-id store id h =
    opt_eq-eq _ _ (find-holds (λ (p : Profile). opt_eq (some p.id) id) store.profiles h)

neg_add_nonneg : (a b : ℤ) → a ≤ℤ b → NonNeg (neg a +ℤ b)
unfolding ◌+ℤ◌
neg_add_nonneg a b h = ground arith

neg_add_of_sub : (a b : ℤ) → NonNeg (b -ℤ a) → NonNeg (neg a +ℤ b)
unfolding ◌+ℤ◌ ◌-ℤ◌
neg_add_of_sub a b h = ground arith

first_ok : (r s : Result (Unit {0})) → (r >> s) ≡ ok tt → r ≡ ok tt
unfolding ◌>>=◌
first_ok (ok u) s h = refl
first_ok (err e) s h = cc

module _ (store : Store) (request : ApprovalRequest) (p : String)
    (local : store.read_model ≡ none) where
  abbrev outstanding : ℤ
  outstanding = ledger_debt store.transactions p

  -- The balance stays at zero or above.
  abbrev Kept : Impact → Type 0
  Kept impact = NonNeg (impact.credit_delta +ℤ outstanding)

  settled_kept :
      (profile : Option Profile) (amount : ℤ)
      → ((q : Profile) → profile ≡ some q → q.id ≡ p)
      → NonNeg outstanding
      → Ensures
          (λ settled. NonNeg (neg settled +ℤ outstanding))
          (settled_credit store profile amount)
  unfolding settled_credit ◌+ℤ◌
  settled_kept none amount same n = Ensures-ok (ground arith)
  settled_kept (some q) amount same n =
      Ensures-if (is_credit q.type)
        (λ c. Ensures-bind λ owed h.
          let e : owed ≡ ledger_debt store.transactions p =
            debt-local store q.id local h ∙ ap (ledger_debt store.transactions) (same q refl) in
          Ensures-ok (rw e (ground arith)))
        (λ c. Ensures-ok (ground arith))

  repayment_fits :
      request.player_id ≡ some p
      → Ensures (λ _. request.amount ≤ℤ outstanding) (validate_repayment store request)
  unfolding validate_repayment
  repayment_fits player = Ensures-bind λ profile a. Ensures-bind λ _ b. Ensures-bind λ owed c.
      record {
        at = λ d.
            let same : some profile.id ≡ some p = profile_of-id store _ (found _ _ a) ∙ player in
            let e : profile.id ≡ p = cc in
            let owes : owed ≡ ledger_debt store.transactions p =
              debt-local store profile.id local c ∙ ap (ledger_debt store.transactions) e in
            let fits = leb→le _ _ (passed _ _ _ d) in rw (← owes) fits;
      }

  reversal_fits :
      (tx : Transaction)
      → tx.player_id ≡ some p
      → truthy (some p) ≡ true
      → Ensures (λ _. NonNeg (outstanding -ℤ tx.credit_delta)) (check_balance store tx)
  unfolding check_balance
  reversal_fits tx player named =
      rw (player, check_balance)
        (Ensures-if (truthy (some p))
          (λ t. Ensures-bind λ owed c. record {
            at = λ d.
                let owes = debt-local store p local c in rw (← owes) (leb→le _ _ (passed _ _ _ d));
          })
          (λ f. absurd (cc)))

  -- What the validation of an entry by its type has checked of the balance.
  entry-Kept :
      (type : EntryType)
      → request.type ≡ entry type
      → request.player_id ≡ some p
      → NonNeg request.amount
      → NonNeg outstanding
      → validate_type type store request ≡ ok tt
      → Ensures Kept (ledger_impact store request)
  unfolding ledger_impact validate_type
  entry-Kept buy_in e player amount n v =
      rw (e, ledger_impact)
        (Ensures-ok (buy_in-Kept (credit_player (profile_of store request.player_id))))
    where
      buy_in-Kept :
          (b : Bool)
          → Kept (
              if b
              then (record {
                amount = request.amount;
                cash_received = pos 0;
                cash_payout = pos 0;
                credit_delta = request.amount;
              })
              else (record {
                amount = request.amount;
                cash_received = request.amount;
                cash_payout = pos 0;
                credit_delta = pos 0;
              }))
      buy_in-Kept true = omega int_laws
      buy_in-Kept false = omega int_laws
  entry-Kept cash_out e player amount n v =
      rw (e, ledger_impact)
        (Ensures-bind λ settled h. Ensures-ok (
          (settled_kept (profile_of store request.player_id) request.amount
              (λ q known.
                let same : some q.id ≡ some p = profile_of-id store _ known ∙ player in cc)
              n).at
            h))
  entry-Kept credit_repayment e player amount n v =
      rw (e, ledger_impact)
        (Ensures-ok (neg_add_nonneg request.amount outstanding ((repayment_fits player).at v)))
  entry-Kept _ e player amount n v = rw (e, ledger_impact) (Ensures-ok (omega int_laws))

  -- Of a reversal: the original is the player's, by `linked`.
  reversal-Kept :
      request.type ≡ reversal
      → request.player_id ≡ some p
      → truthy (some p) ≡ true
      → ((o : Transaction)
          → transaction_of store request.reverses_id ≡ some o
          → o.player_id ≡ request.player_id)
      → ReversalValid store request
      → Ensures Kept (ledger_impact store request)
  unfolding ledger_impact reversed_impact
  reversal-Kept e player named linked v =
      let owner = linked v.tx v.original ∙ player in
      let fits = (reversal_fits v.tx owner named).at v.balance in
      rw (e, ledger_impact)
        (by_original (transaction_of store request.reverses_id) v.original
          (neg_add_of_sub v.tx.credit_delta outstanding fits))
    where
      by_original :
          (o : Option Transaction)
          → o ≡ some v.tx
          → NonNeg (neg v.tx.credit_delta +ℤ outstanding)
          → Ensures Kept (elim o [
            | none ↦ err (plain "Original transaction not found.")
            | some original ↦ ok (reversed_impact original)
          ])
      by_original none q k = cc
      by_original (some o) q k = let s : o ≡ v.tx = cc in rw s (Ensures-ok k)

  -- An entry that is valid keeps the balance of its player at zero or above.
  valid-Kept :
      (type : TxType)
      → request.type ≡ type
      → request.player_id ≡ some p
      → truthy (some p) ≡ true
      → ((is_reversal type ≡ true) ⊎ NonNeg request.amount)
      → ((o : Transaction)
          → transaction_of store request.reverses_id ≡ some o
          → o.player_id ≡ request.player_id)
      → NonNeg outstanding
      → validate_entry store request ≡ ok tt
      → Ensures Kept (ledger_impact store request)
  unfolding validate_entry
  valid-Kept reversal e player named amount linked n v =
      reversal-Kept e player named linked
        ((validate_reversal-done store request).at (rw (e, validate_entry) at v))
  valid-Kept (entry type) e player named amount linked n v =
      entry-Kept type e player (ground (arith, amount)) n
        (first_ok (validate_type type store request) _ (rw (e, validate_entry) at v))

pub posted_debt :
    (tx : Transaction) (txs : List Transaction) (p : String)
    → (NonNeg (ledger_debt txs p))
    → ((opt_eq tx.player_id (some p) ≡ true) → NonNeg (tx.credit_delta +ℤ ledger_debt txs p))
    → NonNeg (ledger_debt (tx ∷ txs) p)
unfolding ledger_debt
posted_debt tx txs p old new = elim (Bool-cases (opt_eq tx.player_id (some p))) [
  | inl t ↦ rw t (new t)
  | inr f ↦ rw f old
]

-- Posting a valid request leaves every player's balance at zero or above, if it was so before: for a
-- ledger that is summed from the records, a player whose id is not empty, a request whose amount is
-- not negative unless it is a reversal, and which reverses entries of its own player only.
pub post_entry-NonNeg :
    (host : Host) (k : ℕ) (store : Store) (request : ApprovalRequest) (time p : String)
    {store' : Store}
    → store.read_model ≡ none
    → truthy (some p) ≡ true
    → ((is_reversal request.type ≡ true) ⊎ NonNeg request.amount)
    → ((o : Transaction)
        → transaction_of store request.reverses_id ≡ some o
        → o.player_id ≡ request.player_id)
    → validate_entry store request ≡ ok tt
    → post_entry host k store request time ≡ ok store'
    → NonNeg (ledger_debt store.transactions p)
    → NonNeg (ledger_debt store'.transactions p)
unfolding posted
post_entry-NonNeg host k store request time p local named amount linked v h n =
    let d = (post_entry-done host k store request time).at h in
    let txs = ap (λ (s : Store). s.transactions) d.result in
    rw txs (
      posted_debt (ledger_entry host k store request time d.impact) store.transactions p n (λ mine.
        (valid-Kept store request p local request.type refl
            (opt_eq-eq request.player_id (some p) mine) named amount linked n v).at
          d.has_impact))
