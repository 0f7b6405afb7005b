-- ===== src/Tests/Pipeline.antt =====
-- A file of two value dates on its way through the Inspector.
use harbormaster.Prelude.{ℕ, ◌≡◌, refl, false, some, none, [], ◌∷◌, List, String, map, length}
use harbormaster.Dates.{date, isoformat}
use harbormaster.Bus.{Message, memory_bus, publish, append_all, append, partition_for}
use harbormaster.Emit.{build_records}
use harbormaster.Prelude.Text.{starts_with, drop_chars}
use harbormaster.Mapping.{Table}
use harbormaster.ValueDate.Split.{split_by_value_date}
use harbormaster.Inspector.{
  Result, ok, malformed, raised, Parser, Inspector, Classification, classify,
}
use harbormaster.Inspector.Batches.{
  AreParts, origin_of, hints_for, rows_of, split_rows, classify-AreParts,
}
use harbormaster.Inspector.Publication.{
  ArrivalRaw, without_scheme, Outside, World, handle, send_all, send, write_canonical,
  canonical_name, canonical_records,
}
use harbormaster.Inspector.Routing.{AreOfArrival, behind, handle-Publishes}
use harbormaster.Tests.Fixtures.{us}
use harbormaster.Tests.Values.{counting}
use harbormaster.Tests.Columns.{first_tier}
use harbormaster.Tests.Clients.{attributing}
use harbormaster.Inspector.{
  sniff, best_parser, classify_attributed, map_columns, classify_split, classify_groups,
  classify_table, template_fingerprint,
}
use harbormaster.Prelude.Digits.{digits, digit_count}
use harbormaster.Prelude.Text.{
  take_chars, join, str_of_nat, percent, fixed_two, digits_from, round_div,
}
use harbormaster.Mapping.{parsed_table, value_at}
use harbormaster.Mapping.CrossCheck.{
  cross_check_amount, by_field, check_rows, check_row, in_context,
}
use harbormaster.Mapping.Resolver.{
  resolve, take_match, visit, visited, apply_cached, run_tier3, from_cache, from_tier2, from_tier3,
  learned_pairs,
}
use harbormaster.Mapping.Tier2.{
  match_local, best, readable, combine, drop_taken, accept, fuzzy, alias_corpus, pick,
}
use harbormaster.Attribution.{attribute, nothing_found}
use harbormaster.ValueDate.Split.{group_rows, row_iso, append_row}
use harbormaster.Confidence.{
  compose, compose_for, cover, resolved_fields, coverage_of, overall_of, route, kept_reasons,
  reasons_of,
}
use harbormaster.Registry.{Registry}

abbrev parser : Parser
parser = record {
  format_name = "CSV";
  sniff = λ head name. 900;
  parse = λ content. some (record {
    headers = "Value Date" ∷ [];
    rows =
        (("Value Date", "2026-08-31") ∷ [])
        ∷ (("Value Date", "2026-08-28") ∷ [])
        ∷ (("Value Date", "2026-08-31") ∷ [])
        ∷ [];
  });
}

abbrev registry : Registry
registry = record { client_table = []; calendar_table = ("US_EQUITY", us) ∷ [] }

abbrev inspector : Inspector
inspector = record {
  registry = registry;
  parsers = parser ∷ [];
  signals = record { available = false; nearness = λ s t. 0; extract_one = λ s l. none };
  adjudicator = none;
  cache = some (record { store = []; hits = 0; misses = 0 });
  environment = record { conf_dispatch = none; conf_quarantine = none };
  digest = λ s. s;
  today = date 2026 8 31;
}

abbrev parts_or : Result (List Classification × Inspector) → List Classification × Inspector
parts_or (ok p) = p
parts_or malformed = ([], inspector)
parts_or raised = ([], inspector)

-- The classifications of the file.
abbrev found : List Classification × Inspector
found = parts_or (classify inspector "a1" "content" "MCP_20260831.csv")

-- Opens the pipeline.
unfoldable pipeline : Unit {0}
unfolding classify counting first_tier attributing sniff best_parser classify_attributed map_columns
    classify_split classify_groups classify_table template_fingerprint take_chars join str_of_nat
    percent fixed_two digits_from parsed_table value_at cross_check_amount by_field check_rows
    check_row in_context digits digit_count round_div resolve visit visited apply_cached run_tier3
    from_cache from_tier2 from_tier3 learned_pairs match_local best readable group_rows row_iso
    append_row compose compose_for cover resolved_fields coverage_of overall_of route kept_reasons
    reasons_of nothing_found take_match combine drop_taken accept fuzzy alias_corpus pick isoformat
pipeline = tt

is_found : classify inspector "a1" "content" "MCP_20260831.csv" ≡ ok found
unfolding pipeline
is_found = refl

classify-AreParts_example :
    (p : Parser) × (score : ℕ) × (t : Table) × (sniff inspector.parsers "content" "MCP_20260831.csv"
      ≡ ok (p, score))
    × (p.parse "content" ≡ some t)
    × (let a = attribute "MCP_20260831.csv" t.headers t.rows registry in
        AreParts inspector.environment (origin_of "a1" p a) t.headers (length found.0) 0 found.0
        × (map rows_of found.0
            ≡ split_rows t (split_by_value_date t.rows t.headers (hints_for registry a.client_id))))
classify-AreParts_example =
    classify-AreParts inspector found.1 "a1" "content" "MCP_20260831.csv" found.0 is_found

-- Friday's row comes first, and the two of Monday behind it.
two_parts : map (λ c. c.row_count) found.0 ≡ 1 ∷ 2 ∷ []
unfolding pipeline
two_parts = refl

abbrev outside : Outside
outside = record {
  decode = λ s. some (record { arrival_id = "a1"; uri = "fs://raw/a1"; original_name = s });
  encode = λ c. c.value_date.resolved;
  read = λ path. some path;
}

abbrev world : World
world = record { inspector = inspector; bus = memory_bus 1; files = [] }

abbrev raw : Message
raw = record {
  topic = "hm.arrivals.raw";
  key = "";
  value = "MCP_20260831.csv";
  headers = [];
  partition = 0;
  offset = 0;
}

abbrev world_or : Result World → World
world_or (ok w) = w
world_or malformed = world
world_or raised = world

abbrev handled : World
handled = world_or (handle outside (λ key. 0) world raw)

is_handled : handle outside (λ key. 0) world raw ≡ ok handled
unfolding pipeline handle send_all send write_canonical canonical_name canonical_records
    build_records publish append_all append partition_for starts_with drop_chars
is_handled = refl

handle-Publishes_example :
    (arrival : ArrivalRaw) × (content : String) × (ms : List Message) × (outside.decode raw.value
      ≡ some arrival)
    × (outside.read (without_scheme arrival.uri) ≡ some content)
    × AreOfArrival outside inspector arrival content ms
    × (handled.bus ≡ behind (λ key. 0) (memory_bus 1) ms)
handle-Publishes_example = handle-Publishes outside (λ key. 0) world handled raw is_handled

-- The products of the cross-check keep 28 digits.
rounded_product : in_context 12345678901234567890123456785 3 ≡ some 12345678901234567890123456780
unfolding in_context digits digit_count round_div
rounded_product = refl
