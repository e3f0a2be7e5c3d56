-- ===== src/Commands/Types.antt =====
-- `Command` of src/domain/commands.ts: one constructor for each kind, in the schema's order. Numbers
-- are natural: the negative and fractional ones that the schema refuses are left out.
use poker_management_system.Common.{ℕ, String, Option, List}
use poker_management_system.Model.{VenueSettings, PlayerType, PlayerTag, OpenStatus, EntryType}

pub data Decision : Type 0 where
  approve reject : Decision

pub record SeatSwapParticipant : Type 0 where
  pub player_id : String
  pub session_id : String
  pub table_id : String
  pub seat : ℕ

pub record CheckIn : Type 0 where
  pub player_id : Option String
  pub name : String
  pub phone : String
  pub type : PlayerType
  pub credit_limit : ℕ
  pub tags : List PlayerTag
  pub table_id : String
  pub seat : ℕ

pub record UpdateProfile : Type 0 where
  pub player_id : String
  pub name : String
  pub tags : List PlayerTag
  pub credit_limit : ℕ
  pub reason : String

pub record Move : Type 0 where
  pub player_id : String
  pub table_id : String
  pub seat : ℕ

-- Of the rules `none` is undefined, and `some none` is null.
pub record TableCommand : Type 0 where
  pub table_id : Option String
  pub name : String
  pub dealer : String
  pub status : OpenStatus
  pub small_blind : Option (Option ℕ)
  pub big_blind : Option (Option ℕ)
  pub min_buy_in : Option (Option ℕ)
  pub max_buy_in : Option (Option ℕ)
  pub buy_in_step : Option (Option ℕ)

pub record RequestCommand : Type 0 where
  pub type : EntryType
  pub player_id : Option String
  pub table_id : Option String
  pub amount : ℕ
  pub note : String

pub record Decide : Type 0 where
  pub approval_id : String
  pub decision : Decision
  pub reason : Option String

pub record CloseDay : Type 0 where
  pub day_id : Option String
  pub counted_cash : ℕ
  pub reason : String

pub data Command : Type 0 where
  update_settings : VenueSettings → String → Command
  complete_setup : Command
  check_in : CheckIn → Command
  update_profile : UpdateProfile → Command
  move : Move → Command
  swap_seats : SeatSwapParticipant → SeatSwapParticipant → Command
  table : TableCommand → Command
  request : RequestCommand → Command
  correct : String → String → Command
  decide : Decide → Command
  open_day : String → ℕ → Command
  close_day : CloseDay → Command
  reopen_day : String → Command
