-- ===== src/Tests/Clients.antt =====
-- Clients and the files attributed to them.
use harbormaster.Prelude.{
  ◌≤◌, ◌≡◌, refl, true, false, none, some, [], ◌∷◌, string_eq, find, filter, any,
}
use harbormaster.Prelude.Dict.{lookup, insert, from_pairs}
use harbormaster.Prelude.Sort.{sort, insert_sorted}
use harbormaster.Prelude.Text.{starts_with, strip, lower, filter_chars}
use harbormaster.Prelude.Counter.{count_from, most_common}
use harbormaster.Calendar.{Calendar}
use harbormaster.Registry.{
  load, failed, unknown_calendar, first_unknown, clients, calendar_for, account, owner_among,
  ids_of, ids_of_clients, all_account_ids, match_hint,
}
use harbormaster.Registry.Owners.{load-KnowsCalendars, all_account_ids-owner}
use harbormaster.Attribution.{
  attribute, attribute_with, decide, build, mixed, match_filename, owners, conf_both_agree,
  conf_conflict,
}
use harbormaster.Attribution.Accounts.{
  find_account_ids, account_columns, scan_rows, scan_row, scan_cell, add_candidates,
  find_candidates,
}
use harbormaster.Attribution.Accounts.Known.{IsFound, find_account_ids-IsFound}
use harbormaster.Attribution.Verdict.{
  verdict_of, say, judged, attribute-verdict, attribute-IsCautious,
}
use harbormaster.ValueDate.Columns.{norm}
use harbormaster.Tests.Fixtures.{us, round_the_clock, meridian, north, registry, trades}

-- Opens the reading of a registry.
unfoldable pub tables : Unit {0}
unfolding load from_pairs insert lookup first_unknown clients sort insert_sorted calendar_for
    account owner_among ids_of ids_of_clients all_account_ids find
tables = tt

load-KnowsCalendars_example : (cal : Calendar) × (calendar_for registry "north" ≡ some cal)
unfolding tables
load-KnowsCalendars_example =
    load-KnowsCalendars (us ∷ []) (meridian ∷ north ∷ []) registry refl "north" north refl

no_calendar :
    (load (round_the_clock ∷ []) (meridian ∷ []) ≡ failed (unknown_calendar "meridian" "us"))
unfolding tables
no_calendar = refl

all_account_ids-owner_example : lookup "MCP-002" (all_account_ids registry) ≡ some "meridian"
unfolding tables
all_account_ids-owner_example = all_account_ids-owner registry "MCP-002" (refl, (refl, (refl, tt)))

-- Opens the attribution of a file.
unfoldable pub attributing : Unit {0}
unfolding tables attribute attribute_with decide build mixed match_filename match_hint owners
    find_account_ids account_columns scan_rows scan_row scan_cell add_candidates find_candidates
    norm filter strip lower filter_chars starts_with count_from most_common
attributing = tt

attributed :
    verdict_of (attribute "MCP_1.csv" ("Account" ∷ []) trades registry)
    ≡ say (some "meridian") conf_both_agree false
unfolding attributing
attributed = refl

attribute-verdict_example :
    verdict_of (attribute "MCP_1.csv" ("Account" ∷ []) trades registry)
    ≡ judged (some "meridian") ("meridian" ∷ "meridian" ∷ [])
unfolding attributing any
attribute-verdict_example = attribute-verdict "MCP_1.csv" ("Account" ∷ []) trades registry

attribute-IsCautious_example :
    let a = attribute "MCP_1.csv" ("Account" ∷ []) trades registry in
    (a.conflict ≡ true → a.confidence ≡ conf_conflict)
    × (a.client_id ≡ none → a.confidence ≤ conf_conflict)
    × (a.confidence ≤ conf_both_agree)
attribute-IsCautious_example = attribute-IsCautious "MCP_1.csv" ("Account" ∷ []) trades registry

find_account_ids-IsFound_example : IsFound (all_account_ids registry) ("MCP-001" ∷ "MCP-002" ∷ [])
unfolding attributing
find_account_ids-IsFound_example =
    find_account_ids-IsFound (all_account_ids registry) ("Account" ∷ []) trades
