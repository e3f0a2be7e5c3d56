-- ===== src/Settings/Schema.antt =====
-- `editableSettingsSchema` and `settingsSchema` of src/domain/settings.ts. The fields of the record
-- are those of the schema, so an unknown key or a wrong type is left out. Whether a text names a
-- time zone is asked of `Intl` and is a parameter.
use poker_management_system.Common.{
  ℕ, ◌*◌, ◌^◌, String, Bool, true, false, not, ◌&&◌, Option, none, some, ltb, leb, if◌then◌else◌,
}
use poker_management_system.Common.Text.{js_length, trim, is_empty}
use poker_management_system.Model.{
  VenueSettings, GameType, texas_holdem, pot_limit_omaha, other, Dyadic, max_money,
}
use poker_management_system.Settings.Rules.{step_misses_range}

-- `money` and `money.positive()`
abbrev pub is_money : ℕ → Bool
is_money n = leb n max_money

abbrev pub is_positive_money : ℕ → Bool
is_positive_money n = ltb 0 n && leb n max_money

-- `z.string().trim().min(lo).max(hi)` on a text that is trimmed
abbrev pub has_length : ℕ → ℕ → String → Bool
has_length lo hi s = leb lo (js_length s) && leb (js_length s) hi

abbrev is_other : GameType → Bool
is_other texas_holdem = false
is_other pot_limit_omaha = false
is_other other = true

-- `z.number().min(0).max(100)`
abbrev is_percent : Dyadic → Bool
is_percent d = leb d.mantissa (100 * 2 ^ d.scale)

unfoldable pub trimmed_settings : VenueSettings → VenueSettings
trimmed_settings v = record v {
  venue_name = trim v.venue_name;
  timezone = trim v.timezone;
  game_name = trim v.game_name;
  tips_policy = trim v.tips_policy;
  house_rules = trim v.house_rules;
}

-- `fields`
unfoldable pub fields_valid : (String → Bool) → VenueSettings → Bool
fields_valid is_timezone v =
    has_length 1 200 v.venue_name
    && (has_length 1 100 v.timezone && is_timezone v.timezone)
    && has_length 0 100 v.game_name
    && is_positive_money v.small_blind
    && is_positive_money v.big_blind
    && is_money v.min_buy_in
    && is_positive_money v.max_buy_in
    && is_money v.buy_in_step
    && is_percent v.rake_percent
    && is_money v.rake_cap
    && has_length 0 500 v.tips_policy
    && has_length 0 2000 v.house_rules

-- `consistentSettings`: no issue is added
unfoldable pub consistent_settings : VenueSettings → Bool
consistent_settings v =
    not (ltb v.big_blind v.small_blind)
    && not (ltb v.max_buy_in v.min_buy_in)
    && not (is_other v.game_type && is_empty v.game_name)
    && not (step_misses_range v.min_buy_in v.max_buy_in v.buy_in_step)

-- `safeParse`: the parsed settings, with their texts trimmed
unfoldable pub parse_settings : (String → Bool) → VenueSettings → Option VenueSettings
unfolding trimmed_settings fields_valid consistent_settings
parse_settings is_timezone v =
    let t = trimmed_settings v in
    if fields_valid is_timezone t && consistent_settings t then some t else none
