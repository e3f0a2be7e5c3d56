-- ===== src/Operations/Entry/Done.antt =====
-- What a posting has done, and what the validation of a reversal has checked.
use poker_management_system.Common.{ℕ, ◌≡◌, refl, String, false, some, ◌∷◌, any}
use poker_management_system.Common.Text.{◌=ₜ◌}
use poker_management_system.Common.Result.{ok, Ensures, Ensures-ok, Ensures-bind}
use poker_management_system.Model.{Store, Transaction, ApprovalRequest}
use poker_management_system.Ledger.Impact.{Impact, profile_of, transaction_of, ledger_impact}
use poker_management_system.Operations.Guards.{Host}
use poker_management_system.Operations.Ensures.{refuted, found}
use poker_management_system.Operations.Entry.{
  session_of, is_reversed, check_balance, check_limit, check_visit, validate_reversal, posted,
  posted_sessions, posted_link, post_entry,
}

-- The transaction that is posted.
abbrev pub ledger_entry : Host → ℕ → Store → ApprovalRequest → String → Impact → Transaction
ledger_entry host k store request time impact = record (posted host k time request impact) {
  reverses_id = posted_link request.type (transaction_of store request.reverses_id);
}

pub record Posted (host : Host) (k : ℕ) (store : Store) (request : ApprovalRequest) (time : String)
    (store' : Store) : Type 0 where
  pub impact : Impact
  pub unposted : any (λ tx. tx.approval_id =ₜ request.id) store.transactions ≡ false
  pub has_impact : ledger_impact store request ≡ ok impact
  pub result : store' ≡ record store {
    sessions =
        posted_sessions request.type
          (transaction_of store request.reverses_id)
          request.session_id
          time
          store.sessions;
    transactions = ledger_entry host k store request time impact ∷ store.transactions;
  }

pub post_entry-done :
    (host : Host) (k : ℕ) (store : Store) (request : ApprovalRequest) (time : String)
    → Ensures (Posted host k store request time) (post_entry host k store request time)
unfolding post_entry
post_entry-done host k store request time = Ensures-bind λ _ p. Ensures-bind λ impact q.
    Ensures-ok
      (record { impact = impact; unposted = refuted _ _ _ p; has_impact = q; result = refl })

pub record ReversalValid (store : Store) (request : ApprovalRequest) : Type 0 where
  pub tx : Transaction
  pub original : transaction_of store request.reverses_id ≡ some tx
  pub unreversed : is_reversed store.transactions tx.id ≡ false
  pub balance : check_balance store tx ≡ ok tt
  pub limit : check_limit store (profile_of store request.player_id) tx ≡ ok tt
  pub visit : check_visit store (session_of store request.session_id) tx ≡ ok tt

pub validate_reversal-done :
    (store : Store) (request : ApprovalRequest)
    → Ensures (λ _. ReversalValid store request) (validate_reversal store request)
unfolding validate_reversal
validate_reversal-done store request = Ensures-bind λ tx p. Ensures-bind λ _ q. Ensures-bind λ _ r.
    Ensures-bind λ _ s. record {
      at = λ t. record {
        tx = tx;
        original = found _ _ p;
        unreversed = refuted _ _ _ q;
        balance = r;
        limit = s;
        visit = t;
      };
    }
