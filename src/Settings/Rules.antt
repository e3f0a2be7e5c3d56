-- ===== src/Settings/Rules.antt =====
-- The settings in force, the rules of a table and what is wrong with them: `defaultSettings`,
-- `venueSettings`, `effectiveTableRules` and `tableRuleIssue` of src/domain/settings.ts.
use poker_management_system.Common.{
  ℕ, ◌+◌, ◌*◌, ◌/◌, ◌-◌, max, String, Bool, true, false, not, ◌&&◌, Option, none, some, ltb,
  if◌then◌else◌, or_else, is_some, then_some,
}
use poker_management_system.Model.{VenueSettings, texas_holdem, TableRecord, max_money}

unfoldable pub default_settings : VenueSettings
default_settings = record {
  setup_completed = false;
  venue_name = "Local Venue";
  timezone = "Asia/Kuala_Lumpur";
  game_type = texas_holdem;
  game_name = "";
  small_blind = 100;
  big_blind = 200;
  min_buy_in = 0;
  max_buy_in = max_money;
  buy_in_step = 0;
  tips_enabled = true;
  rake_enabled = true;
  insurance_enabled = true;
  jackpot_enabled = true;
  credit_enabled = true;
  rake_percent = record { mantissa = 0; scale = 0 };
  rake_cap = 0;
  tips_policy = "";
  house_rules = "";
}

-- The functions of settings.ts that take a store read its settings alone.
unfoldable pub venue_settings : Option VenueSettings → VenueSettings
venue_settings settings = or_else settings default_settings

pub record TableRules : Type 0 where
  pub small_blind : ℕ
  pub big_blind : ℕ
  pub min_buy_in : ℕ
  pub max_buy_in : ℕ
  pub buy_in_step : ℕ

unfoldable pub effective_table_rules : Option VenueSettings → Option TableRecord → TableRules
effective_table_rules settings table =
    let defaults = venue_settings settings in
    record {
      small_blind = or_else (then_some table (λ t. t.small_blind)) defaults.small_blind;
      big_blind = or_else (then_some table (λ t. t.big_blind)) defaults.big_blind;
      min_buy_in = or_else (then_some table (λ t. t.min_buy_in)) defaults.min_buy_in;
      max_buy_in = or_else (then_some table (λ t. t.max_buy_in)) defaults.max_buy_in;
      buy_in_step = or_else (then_some table (λ t. t.buy_in_step)) defaults.buy_in_step;
    }

-- `Math.ceil(a / b)` for b > 0
unfoldable pub ceil_div : ℕ → ℕ → ℕ
ceil_div a b = (a + b - 1) / b

-- The test that both schemas and `tableRuleIssue` make on an increment: no positive amount in the
-- range is a multiple of it.
unfoldable pub step_misses_range : ℕ → ℕ → ℕ → Bool
unfolding ceil_div
step_misses_range least most step = ltb 0 step && ltb most (ceil_div (max 1 least) step * step)

abbrev differ : Bool → Bool → Bool
differ true b = not b
differ false b = b

unfoldable pub table_rule_issue : Option VenueSettings → TableRecord → Option String
table_rule_issue settings table =
    let rules = effective_table_rules settings (some table) in
    if differ (is_some table.small_blind) (is_some table.big_blind)
    then some "Set both table blinds, or let both inherit venue settings."
    else if ltb rules.big_blind rules.small_blind
    then some "Big blind must be at least the small blind."
    else if ltb rules.max_buy_in rules.min_buy_in
    then some "Maximum buy-in must be at least the minimum buy-in."
    else if step_misses_range rules.min_buy_in rules.max_buy_in rules.buy_in_step
    then some "The buy-in range must allow at least one positive amount at this increment."
    else none
