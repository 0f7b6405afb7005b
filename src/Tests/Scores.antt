-- ===== src/Tests/Scores.antt =====
-- The score and the disposition.
use harbormaster.Prelude.{
  ◌≤◌, ◌≡◌, ◌≢◌, refl, true, false, none, some, List, [], ◌∷◌, String, string_eq, contains, is_some,
  arith,
}
use harbormaster.Prelude.Text.{round_div}
use harbormaster.Canonical.{cash, alias, weight, required_by_domain}
use harbormaster.Attribution.{Attribution, attribute}
use harbormaster.ValueDate.Resolve.{arrival_minus_calendar}
use harbormaster.Mapping.{Mapping, mapped}
use harbormaster.Confidence.{
  Environment, Score, dispatched, quarantined, dispatch_threshold, compose, compose_for, route,
  cover, coverage_of, resolved_fields, overall_of,
}
use harbormaster.Confidence.Dispatch.{assigns, compose-dispatched}
use harbormaster.Confidence.Caution.{compose-caution}
use harbormaster.Tests.Fixtures.{registry, trades}
use harbormaster.Tests.Values.{monday_file, friday, friday_found, counting}
use harbormaster.Tests.Clients.{attributing}

abbrev defaults : Environment
defaults = record { conf_dispatch = none; conf_quarantine = none }

abbrev columns : List Mapping
columns =
    mapped "Account" "account_id" alias 1000 "alias:account"
    ∷ mapped "Ccy" "currency" alias 1000 "alias:ccy"
    ∷ mapped "Net" "net_amount" alias 1000 "alias:net"
    ∷ []

abbrev meridian_file : Attribution
meridian_file = attribute "MCP_1.csv" ("Account" ∷ []) trades registry

abbrev cash_score : Score
cash_score = compose_for defaults meridian_file friday columns cash "CASH"

composed : compose defaults meridian_file friday columns "CASH" ≡ some cash_score
unfolding compose
composed = refl

-- Opens the score.
unfoldable scoring : Unit {0}
unfolding attributing counting compose_for route cover coverage_of resolved_fields overall_of
    round_div weight required_by_domain
scoring = tt

sent : cash_score.disposition ≡ dispatched
unfolding scoring
sent = refl

-- Without the amount the same file waits for a reviewer.
held :
    (compose_for defaults meridian_file friday
      (mapped "Ccy" "currency" alias 1000 "" ∷ [])
      cash
      "CASH").disposition
    ≡ quarantined
unfolding scoring
held = refl

compose-dispatched_example :
    (is_some meridian_file.client_id ≡ true)
    × (is_some friday.resolved ≡ true)
    × ((f : String) → contains (required_by_domain cash) f ≡ true → assigns f columns ≡ true)
    × (dispatch_threshold defaults ≤ cash_score.overall)
compose-dispatched_example =
    compose-dispatched defaults meridian_file friday columns "CASH" cash cash_score refl composed
      sent

compose-caution_example :
    (meridian_file.conflict ≡ false) × (friday.method ≢ arrival_minus_calendar)
compose-caution_example =
    compose-caution "MCP_1.csv" ("Account" ∷ []) trades registry monday_file friday defaults columns
      "CASH" cash cash_score friday_found refl composed refl
      (omega arith, (omega arith, (omega arith, tt))) sent
