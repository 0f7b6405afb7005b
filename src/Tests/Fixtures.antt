-- ===== src/Tests/Fixtures.antt =====
-- A calendar, a client and a file to try the definitions on.
use harbormaster.Prelude.{Bool, true, false, Option, none, some, List, [], ◌∷◌, String}
use harbormaster.Prelude.Int.{pos}
use harbormaster.Prelude.Dict.{Dict}
use harbormaster.Prelude.Text.{starts_with}
use harbormaster.Dates.{date}
use harbormaster.Calendar.{Calendar}
use harbormaster.Registry.{Account, FilenameHint, Client, Registry}
use harbormaster.ValueDate.Columns.{Row}
use harbormaster.ValueDate.Resolve.{Request}

abbrev pub us : Calendar
us = record {
  calendar_id = "us";
  weekend = 5 ∷ 6 ∷ [];
  holidays = (date 2026 9 7, "Labor Day") ∷ [];
}

-- a calendar with no open day
abbrev pub shut : Calendar
shut = record { calendar_id = "shut"; weekend = 0 ∷ 1 ∷ 2 ∷ 3 ∷ 4 ∷ 5 ∷ 6 ∷ []; holidays = [] }

-- a calendar with no closed day
abbrev pub round_the_clock : Calendar
round_the_clock = record { calendar_id = "clock"; weekend = []; holidays = [] }

abbrev account_of : String → Account
account_of id = record { id = id; name = id; venues = [] }

abbrev pub mcp_hint : FilenameHint
mcp_hint = record {
  pattern = λ s. if_starts (starts_with s "MCP_");
  domain_map = [];
  domain = "TRADE";
  source_hint = "OMS";
}
  where
    if_starts : Bool → Option (Dict String (Option String))
    if_starts true = some (("date", some "20260831") ∷ [])
    if_starts false = none

abbrev pub client_of : String → List Account → List FilenameHint → Client
client_of id accounts hints = record {
  client_id = id;
  client_name = id;
  calendar = "us";
  late_window_days = 3;
  accounts = accounts;
  filename_hints = hints;
  expectations = [];
  field_overrides = [];
}

abbrev pub meridian : Client
meridian = client_of "meridian" (account_of "MCP-001" ∷ account_of "MCP-002" ∷ []) (mcp_hint ∷ [])

abbrev pub north : Client
north = client_of "north" (account_of "NTH-900" ∷ []) []

abbrev pub registry : Registry
registry = record {
  client_table = ("meridian", meridian) ∷ ("north", north) ∷ [];
  calendar_table = ("us", us) ∷ [];
}

-- two trades of Friday, one of Saturday and one whose date cannot be read
abbrev pub trades : List Row
trades =
    (("Account", "MCP-001") ∷ ("Value Date", "2026-08-28") ∷ [])
    ∷ (("Account", "MCP-002") ∷ ("Value Date", "2026-08-29") ∷ [])
    ∷ (("Account", "MCP-001") ∷ ("Value Date", "pending") ∷ [])
    ∷ (("Account", "MCP-001") ∷ ("Value Date", "28/08/2026") ∷ [])
    ∷ []

abbrev pub request : Calendar → String → Request
request c filename = record {
  headers = "Account" ∷ "Value Date" ∷ [];
  rows = trades;
  filename = filename;
  arrival_day = date 2026 8 31;
  calendar = c;
  hints = [];
  settlement_offset_days = pos 2;
}

-- a file that carries no date
abbrev pub undated : Request
undated = record {
  headers = "Account" ∷ [];
  rows = (("Account", "MCP-001") ∷ []) ∷ [];
  filename = "positions.csv";
  arrival_day = date 2026 8 31;
  calendar = us;
  hints = [];
  settlement_offset_days = pos 2;
}
