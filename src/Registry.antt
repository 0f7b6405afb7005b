-- ===== src/Registry.antt =====
-- python/src/inspector/registry.py, but for its YAML readers: clients, their filename hints and accounts,
-- and the checks that `load` makes of what was read. `Calendar` is in the module of that name. A compiled
-- `filename_hints` pattern comes from the configuration: it is a function from a filename to the named
-- groups of its match.
pub mod Owners
use harbormaster.Prelude.{
  ℕ, Bool, true, false, not, ◌&&◌, Option, none, some, List, [], ◌∷◌, ◌++◌, String, Eq, string_eq,
  ◌==◌, contains, find, is_some, is_empty, if◌then◌else◌,
}
use harbormaster.Prelude.Text.{is_blank}
use harbormaster.Prelude.Dict.{Dict, lookup, insert, from_pairs, keys, values}
use harbormaster.Prelude.Sort.{sort, insert_sorted, text_lt}
use harbormaster.Calendar.{Calendar}

pub record Account : Type 0 where
  pub id : String
  pub name : String
  pub venues : List String

pub record FilenameHint : Type 0 where
  pub pattern : String → Option (Dict String (Option String))
  pub domain_map : Dict String String
  pub domain : String
  pub source_hint : String

pub record Expectation : Type 0 where
  pub id : String
  pub domain : String
  pub cadence : String
  pub cuts_per_day : ℕ
  pub value_date_field_hints : List String
  pub external_source_hint : String
  pub internal_source_hint : String

pub record Client : Type 0 where
  pub client_id : String
  pub client_name : String
  pub calendar : String
  pub late_window_days : ℕ
  pub accounts : List Account
  pub filename_hints : List FilenameHint
  pub expectations : List Expectation
  pub field_overrides : Dict String String

-- `groups.get(name)`, with `None` both for a group that is not in the pattern and one that did not match
abbrev pub group : String → Dict String (Option String) → Option String
group name groups = elim (lookup name groups) [ none ↦ none | some o ↦ o ]

abbrev pub or_text : Option String → String → String
or_text none d = d
or_text (some s) d = s

-- `if raw and raw in self.domain_map: domain = self.domain_map[raw]`
hint_domain : FilenameHint → Option String → String
hint_domain h none = h.domain
hint_domain h (some raw) =
    if is_blank raw then h.domain else or_text (lookup raw h.domain_map) h.domain

-- `FilenameHint.match`: the domain and the text of the date
unfoldable pub match_hint : FilenameHint → String → Option (String × String)
unfolding hint_domain lookup
match_hint h name = elim (h.pattern name) [
  | none ↦ none
  | some groups ↦ some (hint_domain h (group "domain" groups), or_text (group "date" groups) "")
]

unfoldable pub expectation_for : Client → String → Option Expectation
unfolding find
expectation_for c domain = find (λ e. e.domain == domain) c.expectations

unfoldable pub account : Client → String → Option Account
account c account_id = find (λ a. a.id == account_id) c.accounts

-- `Client.value_date_hints`: the loops over the expectations and their hints
add_hints : List String → List String → List String
add_hints seen [] = seen
add_hints seen (hint ∷ hints) =
    add_hints (if contains seen hint then seen else seen ++ hint ∷ []) hints

hints_from : List String → List Expectation → List String
unfolding add_hints
hints_from seen [] = seen
hints_from seen (e ∷ es) = hints_from (add_hints seen e.value_date_field_hints) es

unfoldable pub value_date_hints : Client → List String
unfolding hints_from
value_date_hints c = hints_from [] c.expectations

pub record Registry : Type 0 where
  pub client_table : Dict String Client
  pub calendar_table : Dict String Calendar

-- `Registry.clients`: in the order of their keys
unfoldable pub clients : Registry → List Client
unfolding sort insert_sorted
clients r = values (sort (λ a b. text_lt a.0 b.0) r.client_table)

abbrev pub client : Registry → String → Option Client
client r client_id = lookup client_id r.client_table

abbrev pub calendar : Registry → String → Option Calendar
calendar r calendar_id = lookup calendar_id r.calendar_table

unfoldable pub calendar_for : Registry → String → Option Calendar
calendar_for r client_id = elim (client r client_id) [
  | none ↦ none
  | some c ↦ calendar r c.calendar
]

-- `Registry.account_owner`: the first client that has the account
unfoldable pub owner_among : List Client → String → Option (Client × Account)
owner_among [] account_id = none
owner_among (c ∷ cs) account_id = elim (account c account_id) [
  | none ↦ owner_among cs account_id
  | some a ↦ some (c, a)
]

abbrev pub account_owner : Registry → String → Option (Client × Account)
account_owner r account_id = owner_among (clients r) account_id

-- `{a.id: c.client_id for c in self.clients for a in c.accounts}`
unfoldable pub ids_of : String → List Account → List (String × String)
ids_of client_id [] = []
ids_of client_id (a ∷ accounts) = (a.id, client_id) ∷ ids_of client_id accounts

unfoldable pub ids_of_clients : List Client → List (String × String)
ids_of_clients [] = []
ids_of_clients (c ∷ cs) = ids_of c.client_id c.accounts ++ ids_of_clients cs

unfoldable pub all_account_ids : Registry → Dict String String
all_account_ids r = from_pairs (ids_of_clients (clients r)) []

pub data ConfigError : Type 0 where
  no_clients : ConfigError
  unknown_calendar : String → String → ConfigError

pub data Loaded : Type 0 where
  ok : Registry → Loaded
  failed : ConfigError → Loaded

by_calendar_id : List Calendar → List (String × Calendar)
by_calendar_id [] = []
by_calendar_id (c ∷ cs) = (c.calendar_id, c) ∷ by_calendar_id cs

by_client_id : List Client → List (String × Client)
by_client_id [] = []
by_client_id (c ∷ cs) = (c.client_id, c) ∷ by_client_id cs

-- The loop over `clients.values()`: the first client whose calendar is not there.
unfoldable pub first_unknown : Dict String Calendar → Dict String Client → Option ConfigError
first_unknown calendars [] = none
first_unknown calendars ((k, c) ∷ cs) =
    if is_some (lookup c.calendar calendars)
    then first_unknown calendars cs
    else some (unknown_calendar c.client_id c.calendar)

-- `load`, from the calendars and clients that `_load_calendars` and `_load_clients` have read.
unfoldable pub load : List Calendar → List Client → Loaded
unfolding by_calendar_id by_client_id
load calendars clients =
    let cals = from_pairs (by_calendar_id calendars) [] in
    let table = from_pairs (by_client_id clients) [] in
    if is_empty table then failed no_clients else elim (first_unknown cals table) [
      | none ↦ ok (record { client_table = table; calendar_table = cals })
      | some e ↦ failed e
    ]
