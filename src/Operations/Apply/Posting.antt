-- ===== src/Operations/Apply/Posting.antt =====
-- A request enters the ledger once, and an entry of the ledger is reversed once.
use poker_management_system.Common.{
  ◌≡◌, ◌≢◌, refl, sym, ap, subst, ◌∙◌, String, true, false, some, List, [], ◌∷◌, All, Pairwise,
}
use poker_management_system.Common.Lists.Laws.{any-none, All-map}
use poker_management_system.Common.Text.Laws.{opt_eq_refl}
use poker_management_system.Common.Text.{◌=ₜ◌, opt_eq}
use text.Mathlib.TextEquality.{eq_iff}
use poker_management_system.Common.Result.{ok}
use poker_management_system.Model.{
  Store, Staff, Transaction, ApprovalRequest, TxType, entry, reversal,
}
use poker_management_system.Commands.{Command, Decide}
use poker_management_system.Operations.Guards.{Host, audit}
use poker_management_system.Operations.Seating.{swap_audit}
use poker_management_system.Ledger.Impact.{transaction_of}
use poker_management_system.Operations.Entry.{
  is_reversed, validate_entry, post_entry, posted as posted_entry, posted_link,
}
use poker_management_system.Operations.Entry.Done.{
  validate_reversal-done, ledger_entry, post_entry-done,
}
use poker_management_system.Operations.Approvals.{voted, put_request}
use poker_management_system.Operations.Approvals.Done as A
use poker_management_system.Operations.Approvals.Done.{refused, waiting, posted}
use poker_management_system.Operations.Apply.{apply_command}
use poker_management_system.Operations.Apply.Done.{
  Applied, settings_updated, setup_completed, table_saved, profile_updated, day_opened,
  day_reopened, checked_in, moved, swapped, requested, corrected, decided, day_closed,
  apply_command-done,
}

-- Two entries of different requests, which do not reverse the same entry.
pub record IsApart (a b : Transaction) : Type 0 where
  pub requests : a.approval_id ≢ b.approval_id
  pub targets : (id : String) → a.reverses_id ≡ some id → b.reverses_id ≢ some id

abbrev pub PostedOnce : Store → Type 0
PostedOnce store = Pairwise IsApart store.transactions

-- What `reversesId` of a new entry is, if it is not missing: no entry has it yet.
link_fresh :
    (store : Store) (r : ApprovalRequest) (type : TxType)
    → r.type ≡ type
    → validate_entry store r ≡ ok tt
    → (id : String) → posted_link type (transaction_of store r.reverses_id) ≡ some id
    → All (λ b. b.reverses_id ≢ some id) store.transactions
unfolding validate_entry is_reversed posted_link
link_fresh store r (entry type) e v id h = absurd (cc)
link_fresh store r reversal e v id h =
    let d = (validate_reversal-done store r).at (rw (e, validate_entry) at v) in
    let q : posted_link reversal (transaction_of store r.reverses_id) ≡ some d.tx.id =
      ap (posted_link reversal) d.original in
    let same : some d.tx.id ≡ some id = sym q ∙ h in
    All-map (λ b. opt_eq b.reverses_id (some d.tx.id) ≡ false)
      (λ b f g.
        let t : opt_eq b.reverses_id (some d.tx.id) ≡ true =
          ap (opt_eq b.reverses_id) (same ∙ sym g) ∙ opt_eq_refl b.reverses_id in
        cc)
      store.transactions
      (any-none (λ b. opt_eq b.reverses_id (some d.tx.id)) store.transactions d.unreversed)

All-IsApart :
    (tx : Transaction) (txs : List Transaction)
    → All (λ b. (b.approval_id =ₜ tx.approval_id) ≡ false) txs
    → ((id : String) → tx.reverses_id ≡ some id → All (λ b. b.reverses_id ≢ some id) txs)
    → All (IsApart tx) txs
All-IsApart tx [] f g = tt
All-IsApart tx (b ∷ txs) (f, fs) g = (
  record {
    requests = λ e. let t : (b.approval_id =ₜ tx.approval_id) ≡ true = (eq_iff _ _).1 (sym e) in cc;
    targets = λ id e. (g id e).0;
  },
  All-IsApart tx txs fs (λ id e. (g id e).1),
)

module _ (host : Host) (store : Store) (actor : Staff) (time : String) where
  same :
      {store' next : Store}
      → store' ≡ next
      → next.transactions ≡ store.transactions
      → PostedOnce store
      → PostedOnce store'
  same e t all = subst (Pairwise IsApart) (sym (ap (λ (s : Store). s.transactions) e ∙ t)) all

  -- The tests of the entry are those before the vote, which it does not change.
  posting-PostedOnce :
      (r : ApprovalRequest) (ledger : Store)
      → validate_entry store r ≡ ok tt
      → post_entry host 0 store (voted actor time r) time ≡ ok ledger
      → PostedOnce store
      → PostedOnce ledger
  unfolding voted posted_entry
  posting-PostedOnce r ledger v h all =
      let d = (post_entry-done host 0 store (voted actor time r) time).at h in
      let txs = ap (λ (s : Store). s.transactions) d.result in
      let tx = ledger_entry host 0 store (voted actor time r) time d.impact in
      let fresh =
        any-none (λ (b : Transaction). b.approval_id =ₜ r.id) store.transactions d.unposted in
      rw txs (All-IsApart tx store.transactions fresh (link_fresh store r r.type refl v), all)

  outcome-PostedOnce :
      (c : Decide) (r : ApprovalRequest) (store' : Store)
      → PostedOnce store
      → A.Outcome host store actor time c r store'
      → PostedOnce store'
  unfolding audit put_request
  outcome-PostedOnce c r store' all (refused q e) = same e refl all
  outcome-PostedOnce c r store' all (waiting v q e) = same e refl all
  outcome-PostedOnce c r store' all (posted ledger v full q e) =
      let txs = ap (λ (s : Store). s.transactions) e in
      subst (Pairwise IsApart) (sym txs) (posting-PostedOnce r ledger v q all)

  Applied-PostedOnce :
      (store' : Store) (command : Command)
      → Applied host store actor time store' command
      → PostedOnce store
      → PostedOnce store'
  unfolding audit swap_audit
  Applied-PostedOnce store' command (settings_updated c r d) all = same d.result refl all
  Applied-PostedOnce store' command (setup_completed d) all = same d.result refl all
  Applied-PostedOnce store' command (table_saved c d) all = same d.result refl all
  Applied-PostedOnce store' command (profile_updated c d) all = same d.result refl all
  Applied-PostedOnce store' command (day_opened date cash d) all = same d.result refl all
  Applied-PostedOnce store' command (day_reopened day r q d) all = same d.result refl all
  Applied-PostedOnce store' command (checked_in day c o d) all = same d.result refl all
  Applied-PostedOnce store' command (moved day c o d) all = same d.result refl all
  Applied-PostedOnce store' command (swapped day f g o d) all = same d.result refl all
  Applied-PostedOnce store' command (requested day c o d) all = same d.result refl all
  Applied-PostedOnce store' command (corrected day id r o d) all = same d.result refl all
  Applied-PostedOnce store' command (decided day c o d) all =
      outcome-PostedOnce c d.request store' all d.outcome
  Applied-PostedOnce store' command (day_closed day c o d) all = same d.result refl all

-- Every successful command keeps the ledger free of double postings: if no two entries are of one
-- request and no two entries reverse one entry, then so it is after the command.
pub apply_command-PostedOnce :
    (host : Host) (store : Store) (input : Command) (actor : Staff) (time : String) {store' : Store}
    → apply_command host store input actor time ≡ ok store'
    → PostedOnce store
    → PostedOnce store'
apply_command-PostedOnce host store input actor time h all =
    Applied-PostedOnce host store actor time _ _
      ((apply_command-done host store actor time input).at h).done all
