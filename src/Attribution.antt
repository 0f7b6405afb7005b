-- ===== src/Attribution.antt =====
-- python/src/inspector/attribution.py: which client a file belongs to. Confidences are thousandths.
pub mod Accounts
pub mod Evidence
pub mod Verdict
use harbormaster.Prelude.{
  ℕ, zero, suc, ◌+◌, ◌≤◌, Bool, true, false, not, ◌&&◌, ◌||◌, Option, none, some, List, [], ◌∷◌,
  ◌++◌, length, String, ◌<>◌, Eq, nat_eq, string_eq, ◌==◌, is_some, is_empty, if◌then◌else◌, ltb,
}
use harbormaster.Prelude.Text.{is_blank, join, str_of_nat}
use harbormaster.Prelude.Dict.{Dict, lookup, keys}
use harbormaster.Prelude.Counter.{counter, most_common}
use harbormaster.Prelude.Sort.{sort, text_lt}
use harbormaster.Registry.{
  Registry, Client, Expectation, FilenameHint, match_hint, clients, client, all_account_ids,
  or_text,
}
use harbormaster.ValueDate.Columns.{Row}
use Accounts.{find_account_ids}

abbrev pub conf_account_match : ℕ
conf_account_match = 950

abbrev pub conf_filename_match : ℕ
conf_filename_match = 800

abbrev pub conf_both_agree : ℕ
conf_both_agree = 990

abbrev pub conf_conflict : ℕ
conf_conflict = 450

abbrev pub conf_none : ℕ
conf_none = 0

abbrev pub unknown : String
unknown = "UNKNOWN"

pub record Attribution : Type 0 where
  pub client_id : Option String
  pub confidence : ℕ
  pub account_ids : List String
  pub domain : String
  pub source_hint : String
  pub filename_date_text : String
  pub evidence : List String
  pub conflict : Bool

-- `Attribution.resolved`
abbrev pub resolved : Attribution → Bool
resolved a = is_some a.client_id

-- `s or d`
abbrev pub or_default : String → String → String
or_default s d = if is_blank s then d else s

-- What the filename gave: the client, the domain, the source hint and the text of the date.
pub record FilenameHit : Type 0 where
  pub owner : Option Client
  pub domain : String
  pub source_hint : String
  pub date_text : String

abbrev no_hit : FilenameHit
no_hit = record { owner = none; domain = ""; source_hint = ""; date_text = "" }

-- the loops of `_match_filename`, over the hints of one client and over the clients
match_hints : Client → List FilenameHint → String → Option FilenameHit
match_hints c [] name = none
match_hints c (h ∷ hs) name = elim (match_hint h name) [
  | none ↦ match_hints c hs name
  | some (domain, date_text) ↦ some (record {
    owner = some c;
    domain = or_default domain unknown;
    source_hint = h.source_hint;
    date_text = date_text;
  })
]

match_clients : List Client → String → FilenameHit
unfolding match_hints
match_clients [] name = no_hit
match_clients (c ∷ cs) name = elim (match_hints c c.filename_hints name) [
  | none ↦ match_clients cs name
  | some hit ↦ hit
]

unfoldable pub match_filename : String → Registry → FilenameHit
unfolding match_clients match_hint
match_filename name r = match_clients (clients r) name

-- `Counter(known[a] for a in account_ids)`
unfoldable pub owners : Dict String String → List String → List String
owners known [] = []
owners known (a ∷ as') = or_text (lookup a known) "" ∷ owners known as'

-- The domain of a client's only expectation, if it has just one.
sole_domain : List Expectation → Option String
sole_domain (e ∷ []) = some e.domain
sole_domain _ = none

only_domain : Option Client → Option String
unfolding sole_domain
only_domain none = none
only_domain (some c) = sole_domain c.expectations

-- What `_build` is told besides the client and the confidence.
pub record Findings : Type 0 where
  pub account_ids : List String
  pub hit : FilenameHit
  pub evidence : List String

unfoldable pub build : Registry → Findings → String → ℕ → Bool → Attribution
unfolding only_domain
build r f client_id confidence conflict =
    let given = f.hit.domain in
    let sole =
      if is_blank given || given == unknown then only_domain (client r client_id) else none in
    let domain : String = elim sole [ none ↦ given | some d ↦ d ] in
    record {
      client_id = some client_id;
      confidence = confidence;
      account_ids = f.account_ids;
      domain = or_default domain unknown;
      source_hint = f.hit.source_hint;
      filename_date_text = f.hit.date_text;
      evidence = elim sole [
        | none ↦ f.evidence
        | some d ↦ f.evidence ++ ("client has a single expectation; domain taken as " <> d) ∷ []
      ];
      conflict = conflict;
    }

-- The contents name more than one client.
unfoldable pub mixed : Findings → Attribution
mixed f = record {
  client_id = none;
  confidence = conf_conflict;
  account_ids = f.account_ids;
  domain = or_default f.hit.domain unknown;
  source_hint = f.hit.source_hint;
  filename_date_text = f.hit.date_text;
  evidence = f.evidence;
  conflict = true;
}

unfoldable pub nothing_found : Findings → Attribution
nothing_found f = record {
  client_id = none;
  confidence = conf_none;
  account_ids = [];
  domain = unknown;
  source_hint = "";
  filename_date_text = "";
  evidence =
      f.evidence ++ "no filename pattern matched and no known account identifiers were found" ∷ [];
  conflict = false;
}

abbrev note : Findings → String → Findings
note f text = record f { evidence = f.evidence ++ text ∷ [] }

-- `if client_id:`; an id that is empty counts as none
abbrev pub named : Option String → Option String
named none = none
named (some s) = if is_blank s then none else some s

-- The decision of `attribute` on the client of the contents and that of the filename.
unfoldable pub decide : Registry → Findings → Option String → Option String → Attribution
decide r f (some a) (some n) =
    if a == n
    then build r (note f "filename and contents agree") a conf_both_agree false
    else build r (note f ("filename says " <> (n <> (" but account identifiers say " <> a)))) a
        conf_conflict true
decide r f (some a) none = build r f a conf_account_match false
decide r f none (some n) = build r f n conf_filename_match false
decide r f none none = nothing_found f

abbrev pub owner_name : FilenameHit → Option String
owner_name h = elim h.owner [ none ↦ none | some c ↦ some c.client_id ]

filename_evidence : Option String → List String
filename_evidence none = []
filename_evidence (some n) = ("filename matches " <> (n <> " pattern")) ∷ []

account_evidence : List String → Option (String × ℕ) → List String
unfolding str_of_nat
account_evidence ids none = []
account_evidence ids (some (c, n)) =
    (str_of_nat (length ids) <> (" known account identifier(s) resolving to " <> c)) ∷ []

mixed_evidence : List String → List String
unfolding join sort str_of_nat
mixed_evidence cs =
    ("contents reference "
      <> (str_of_nat (length cs) <> (" different clients: " <> join ", " (sort text_lt cs))))
    ∷ []

-- `account_clients.most_common(1)[0][0]`
abbrev pub top_client : Dict String ℕ → Option String
top_client cs = elim (most_common cs) [ none ↦ none | some (c, n) ↦ some c ]

-- `attribute`, once the filename is matched and the accounts are found
unfoldable pub attribute_with : Registry → FilenameHit → List String → List String → Attribution
unfolding filename_evidence account_evidence mixed_evidence
attribute_with r hit ids cs =
    let found : List String =
      filename_evidence (owner_name hit) ++ account_evidence ids (most_common (counter cs)) in
    let f : Findings = record { account_ids = ids; hit = hit; evidence = found } in
    if ltb 1 (length (counter cs))
    then mixed (record f { evidence = found ++ mixed_evidence (keys (counter cs)) })
    else decide r f (named (top_client (counter cs))) (named (owner_name hit))

unfoldable pub attribute : String → List String → List Row → Registry → Attribution
attribute filename headers rows r =
    let known = all_account_ids r in
    let ids = find_account_ids headers rows known in
    attribute_with r (match_filename filename r) ids (owners known ids)
