-- ===== src/Operations/Apply/Solvency/Steps.antt =====
-- What keeps a store solvent: new and changed requests, and a posting.
use poker_management_system.Common.{
  ◌≡◌, refl, ap, ◌∙◌, ◌⊎◌, String, true, false, Option, none, some, List, [], ◌∷◌, find, All,
}
use poker_management_system.Common.Lists.Laws.{All-update_first}
use poker_management_system.Common.Text.{◌=ₜ◌, opt_eq, truthy}
use poker_management_system.Common.Result.{Result, ok, ◌>>◌}
use poker_management_system.Model.{
  Store, Staff, Transaction, ApprovalRequest, is_reversal, TxType, entry, reversal, EntryType,
  buy_in, cash_out, credit_repayment,
}
use poker_management_system.Ledger.Debt.{ledger_debt}
use poker_management_system.Ledger.Impact.{transaction_of}
use poker_management_system.Operations.Guards.{Host, uid}
use poker_management_system.Operations.Entry.{
  validate_entry, post_entry, posted as posted_entry, validate_reversal, validate_type,
  validate_visit, validate_repayment, is_current_visit, check_credit, validate_table,
}
use poker_management_system.Operations.Entry.Done.{ledger_entry, post_entry-done}
use poker_management_system.Operations.Entry.Solvency.{NonNeg, post_entry-NonNeg}
use poker_management_system.Operations.Approvals.{put_request, voted}

-- The entry that a request reverses, if there is one, is of the request's player.
abbrev pub OwnedBy : Option Transaction → Option String → Type 0
OwnedBy none player = Unit
OwnedBy (some o) player = o.player_id ≡ player

abbrev pub original_in : List Transaction → Option String → Option Transaction
original_in txs id = find (λ tx. opt_eq (some tx.id) id) txs

abbrev pub IsLinked : List Transaction → ApprovalRequest → Type 0
IsLinked txs r = OwnedBy (original_in txs r.reverses_id) r.player_id

abbrev pub HasAmount : ApprovalRequest → Type 0
HasAmount r = (is_reversal r.type ≡ true) ⊎ NonNeg r.amount

-- The ledger is summed from the records; requests have amounts of zero or more, unless they are
-- reversals, and reverse entries of their own player only; and the player owes zero or more.
pub record IsSolvent (p : String) (store : Store) : Type 0 where
  pub local : store.read_model ≡ none
  pub amounts : All HasAmount store.approvals
  pub links : All (IsLinked store.transactions) store.approvals
  pub balance : NonNeg (ledger_debt store.transactions p)

-- No request reverses an entry with the id that the next posting takes.
abbrev pub IsFresh : Host → Store → Type 0
IsFresh host store =
    All (λ r. opt_eq (some (uid host "TX" 0)) r.reverses_id ≡ false) store.approvals

pub original_in-none : (txs : List Transaction) → original_in txs none ≡ none
original_in-none [] = refl
original_in-none (tx ∷ txs) = original_in-none txs

owner_of :
    (o : Option Transaction) (player : Option String)
    → OwnedBy o player
    → (x : Transaction) → o ≡ some x
    → x.player_id ≡ player
owner_of none player h x e = cc
owner_of (some o) player h x e = let q : o ≡ x = cc in rw (← q) h

module _ (p : String) (store : Store) where
  pub same :
      {store' next : Store}
      → store' ≡ next
      → next.read_model ≡ store.read_model
      → next.approvals ≡ store.approvals
      → next.transactions ≡ store.transactions
      → IsSolvent p store
      → IsSolvent p store'
  same e m a t s = rw e (record {
    local = m ∙ s.local;
    amounts = rw a s.amounts;
    links = rw (a, t) s.links;
    balance = rw t s.balance;
  })

  -- A new request that is linked.
  pub added :
      (r : ApprovalRequest)
      → HasAmount r
      → IsLinked store.transactions r
      → IsSolvent p store
      → IsSolvent p (record store { approvals = r ∷ store.approvals })
  added r a l s = record {
    local = s.local;
    amounts = (a, s.amounts);
    links = (l, s.links);
    balance = s.balance;
  }

  -- A request is replaced by one that differs in its votes and its decision.
  pub replaced :
      (id : String) (r next : ApprovalRequest)
      → find (λ x. x.id =ₜ id) store.approvals ≡ some r
      → HasAmount next
      → IsLinked store.transactions next
      → IsSolvent p store
      → IsSolvent p (put_request id next store)
  unfolding put_request
  replaced id r next known a l s = record {
    local = s.local;
    amounts =
        All-update_first HasAmount (λ x. x.id =ₜ id) (λ _. next) store.approvals known (λ _. a)
          s.amounts;
    links =
        All-update_first (IsLinked store.transactions) (λ x. x.id =ₜ id) (λ _. next) store.approvals
          known (λ _. l) s.links;
    balance = s.balance;
  }

  new_link :
      (tx : Transaction) (r : ApprovalRequest)
      → opt_eq (some tx.id) r.reverses_id ≡ false
      → IsLinked store.transactions r
      → IsLinked (tx ∷ store.transactions) r
  new_link tx r f l = rw f l

module _ (host : Host) (store : Store) (actor : Staff) (time p : String) where
  -- A vote is not read by the tests of an entry.
  type-voted :
      (type : EntryType) (r : ApprovalRequest)
      → validate_type type store (voted actor time r) ≡ validate_type type store r
  unfolding voted validate_type validate_visit validate_repayment is_current_visit check_credit
  type-voted buy_in r = refl
  type-voted cash_out r = refl
  type-voted credit_repayment r = refl
  type-voted _ r = refl

  validate-voted :
      (r : ApprovalRequest) → validate_entry store (voted actor time r) ≡ validate_entry store r
  unfolding voted validate_entry validate_reversal validate_table
  validate-voted r = by_type r.type
    where
      by_type :
          (type : TxType)
          → Path
              (Result (Unit {0}))
              (elim type [
                | reversal ↦ validate_reversal store (voted actor time r)
                | entry e ↦
                    validate_type e store (voted actor time r)
                    >> validate_table store (voted actor time r)
              ])
              (elim type [
                | reversal ↦ validate_reversal store r
                | entry e ↦ validate_type e store r >> validate_table store r
              ])
      by_type reversal = refl
      by_type (entry e) = ap (λ t. t >> validate_table store r) (type-voted e r)

  new_links :
      (tx : Transaction)
      → (rs : List ApprovalRequest) → All (λ r. opt_eq (some tx.id) r.reverses_id ≡ false) rs
      → All (IsLinked store.transactions) rs
      → All (IsLinked (tx ∷ store.transactions)) rs
  new_links tx [] f l = tt
  new_links tx (r ∷ rs) (f, fs) (l, ls) = (new_link p store tx r f l, new_links tx rs fs ls)

  -- Posting keeps the links, as its id is fresh, and the balance.
  pub posting :
      (r : ApprovalRequest) (ledger : Store)
      → IsFresh host store
      → truthy (some p) ≡ true
      → HasAmount r
      → IsLinked store.transactions r
      → validate_entry store r ≡ ok tt
      → post_entry host 0 store (voted actor time r) time ≡ ok ledger
      → IsSolvent p store
      → IsSolvent p ledger
  unfolding voted posted_entry transaction_of
  posting r ledger fresh named a l v h s =
      let d = (post_entry-done host 0 store (voted actor time r) time).at h in
      let tx = ledger_entry host 0 store (voted actor time r) time d.impact in
      let txs : ledger.transactions ≡ tx ∷ store.transactions =
        ap (λ (x : Store). x.transactions) d.result in
      let rs : ledger.approvals ≡ store.approvals = ap (λ (x : Store). x.approvals) d.result in
      record {
        local = ap (λ (x : Store). x.read_model) d.result ∙ s.local;
        amounts = rw rs s.amounts;
        links = rw (rs, txs) (new_links tx store.approvals fresh s.links);
        balance =
            post_entry-NonNeg host 0 store (voted actor time r) time p s.local named a
              (owner_of (original_in store.transactions r.reverses_id) r.player_id l)
              (validate-voted r ∙ v) h s.balance;
      }
