-- ===== src/Model/Records.antt =====
-- The record types of src/domain/model.ts. `field?` is an `Option`; a `Record<string, T>` is an
-- association list.
use poker_management_system.Common.{ℕ, String, Bool, Option, List}
use poker_management_system.Common.Int.{ℤ}
use poker_management_system.Model.Enums.{
  Role, GameType, PlayerType, PlayerTag, ApprovalLevel, TxType, SessionStatus, OpenStatus,
  RequestStatus,
}

pub record Staff : Type 0 where
  pub id : String
  pub username : String
  pub role : Role
  pub branch_id : String

-- A JavaScript number that need not be whole: mantissa / 2 ^ scale. (Negative ones are left out.)
pub record Dyadic : Type 0 where
  pub mantissa : ℕ
  pub scale : ℕ

pub record VenueSettings : Type 0 where
  pub setup_completed : Bool
  pub venue_name : String
  pub timezone : String
  pub game_type : GameType
  pub game_name : String
  pub small_blind : ℕ
  pub big_blind : ℕ
  pub min_buy_in : ℕ
  pub max_buy_in : ℕ
  pub buy_in_step : ℕ
  pub tips_enabled : Bool
  pub rake_enabled : Bool
  pub insurance_enabled : Bool
  pub jackpot_enabled : Bool
  pub credit_enabled : Bool
  pub rake_percent : Dyadic
  pub rake_cap : ℕ
  pub tips_policy : String
  pub house_rules : String

pub record Profile : Type 0 where
  pub id : String
  pub name : String
  pub phone : String
  pub type : PlayerType
  pub credit_limit : ℕ
  pub tags : List PlayerTag

pub record Session : Type 0 where
  pub id : String
  pub player_id : String
  pub day_id : String
  pub status : SessionStatus
  pub table_id : String
  pub seat : ℕ
  pub session_start : String
  pub session_end : Option String

pub record Player : Type 0 where
  pub profile : Profile
  pub credit_used : ℤ
  pub status : SessionStatus
  pub table_id : Option String
  pub seat : Option ℕ
  pub session_id : Option String
  pub session_start : Option String
  pub session_end : Option String
  pub buy_in : ℤ
  pub cash_out : ℤ

pub record TableRecord : Type 0 where
  pub id : String
  pub name : String
  pub status : OpenStatus
  pub dealer : String
  pub small_blind : Option ℕ
  pub big_blind : Option ℕ
  pub min_buy_in : Option ℕ
  pub max_buy_in : Option ℕ
  pub buy_in_step : Option ℕ

pub record Transaction : Type 0 where
  pub id : String
  pub day_id : String
  pub type : TxType
  pub player_id : Option String
  pub session_id : Option String
  pub table_id : Option String
  pub amount : ℤ
  pub staff : String
  pub staff_id : String
  pub cash_received : ℤ
  pub cash_payout : ℤ
  pub credit_delta : ℤ
  pub time : String
  pub note : String
  pub reverses_id : Option String
  pub approval_id : String

pub record Vote : Type 0 where
  pub staff_id : String
  pub username : String
  pub role : Role
  pub time : String

pub record ApprovalRequest : Type 0 where
  pub id : String
  pub day_id : String
  pub type : TxType
  pub amount : ℤ
  pub player_id : Option String
  pub session_id : Option String
  pub table_id : Option String
  pub staff : String
  pub note : String
  pub status : RequestStatus
  pub approval_level : ApprovalLevel
  pub risk_reason : String
  pub requested_by : String
  pub requested_by_id : String
  pub created_at : String
  pub decided_by : Option String
  pub decided_at : Option String
  pub rejection_reason : Option String
  pub reverses_id : Option String
  pub votes : List Vote

pub record DayClose : Type 0 where
  pub time : String
  pub actor : String
  pub counted_cash : ℕ
  pub expected_cash : ℤ
  pub variance : ℤ
  pub reason : String

pub record Day : Type 0 where
  pub id : String
  pub date : String
  pub opened_at : String
  pub opening_cash : ℕ
  pub status : OpenStatus
  pub closes : List DayClose

-- What the audit keeps of a changed record. Where the program writes `JSON.stringify(x)`, the value
-- `x` stands for that text.
pub data AuditText : Type 0 where
  text : String → AuditText
  json_settings : VenueSettings → AuditText
  json_table : TableRecord → AuditText
  json_profile : Profile → AuditText
  json_close : Option DayClose → AuditText
  json_swap : String → String → String → AuditText

pub record AuditLog : Type 0 where
  pub id : String
  pub time : String
  pub actor : String
  pub actor_id : String
  pub action : String
  pub entity : String
  pub reason : AuditText
  pub before : Option AuditText
  pub after : Option AuditText

pub record Totals : Type 0 where
  pub buy_in_total : ℤ
  pub cash_out_total : ℤ
  pub rake : ℤ
  pub insurance : ℤ
  pub jackpot : ℤ
  pub tips : ℤ
  pub cash_received : ℤ
  pub cash_payout : ℤ
  pub opening_cash : ℤ
  pub expected_cash : ℤ
  pub counted_cash : Option ℕ
  pub variance : Option ℤ

pub record PlayerDay : Type 0 where
  pub buy_in : ℤ
  pub cash_out : ℤ

pub record TableTotals : Type 0 where
  pub rake : ℤ
  pub insurance : ℤ
  pub jackpot : ℤ

pub record PokerTable : Type 0 where
  pub table : TableRecord
  pub totals : TableTotals

abbrev pub Dict {ℓ} : Type ℓ → Type ℓ
Dict V = List (String × V)

-- `server` has the one value `true` and is left out.
pub record StoreReadModel : Type 0 where
  pub balances : Dict ℤ
  pub player_day : Dict PlayerDay
  pub totals : Dict Totals
  pub table_totals : Dict TableTotals
  pub outstanding_credit : ℤ
  pub pending_total : ℕ
  pub pending_current : ℕ
  pub admin_review : ℕ
  pub reviewable : ℕ
  pub pending_players : Dict ℕ
  pub reserved_credit : Dict ℤ
  pub pending_days : Option (Dict ℕ)
  pub pending_tables : Option (Dict ℕ)

pub record Store : Type 0 where
  pub settings : Option VenueSettings
  pub profiles : List Profile
  pub sessions : List Session
  pub tables : List TableRecord
  pub transactions : List Transaction
  pub approvals : List ApprovalRequest
  pub audit_logs : List AuditLog
  pub days : List Day
  pub current_day_id : Option String
  pub read_model : Option StoreReadModel
