-- ===== src/Lib.antt =====
-- Harbormaster: the Inspector's decisions about an arriving file.
--
-- The Inspector (python/src/inspector) takes a parsed file and decides, in this order, which client it is
-- from, which business day it represents, what its columns mean, and whether it may be dispatched to a
-- reconciliation without a reviewer. This library models those decisions:
--
--   Calendar      python/src/inspector/registry.py, `Calendar`: business days, the bounded searches, `roll`
--   Registry      python/src/inspector/registry.py, the clients, their hints and accounts, and `load`
--   Attribution   python/src/inspector/attribution.py, `attribute`; Attribution.Accounts is the scan of the
--                 cells, `find_account_ids`; Attribution.Evidence describes the two kinds of evidence on their own
--   ValueDate     python/src/inspector/valuedate.py: Parse is `parse_date` and `date_from_filename`,
--                 Columns finds the columns, Resolve is `resolve` and `_finish`, Split is
--                 `split_by_value_date`
--   Canonical     python/src/inspector/mapping/canonical.py, the fields and the dictionary of aliases
--   Mapping       python/src/inspector/mapping: Numbers, Variation and Tier1 are tier1.py, Tier2 is tier2.py,
--                 Tier3 is tier3.py, Claude is tier3_llm.py, CrossCheck is `cross_check_amount` of
--                 tier1.py, Resolver is resolver.py; `Table` is `ParsedTable` of parsers/base.py
--   Parsers       python/src/inspector/parsers: Parsers is the names and rows of delimited.py, Parsers.Delimited its
--                 `sniff` and `_best_delimiter`, Parsers.Delimited.Grid its `_find_header_row` and `parse`,
--                 Parsers.Csv the csv reader that it calls; Parsers.JsonDocument is json_parser.py;
--                 Parsers.EmailText is email_text.py, with its regular expressions in Parsers.Patterns;
--                 Parsers.XmlDocument is xml_parser.py and Parsers.Fixml fixml.py; Parsers.Flat is what the
--                 parsers of trees share; Parsers.Workbook is excel.py
--   Confidence    python/src/inspector/confidence.py, `compose` and `_route`
--   Emit          python/src/inspector/emit.py, `build_records` and `normalise_side`
--   Masking       python/src/inspector/masking.py
--   Bus           python/src/inspector/bus.py, `slot_key` and `MemoryBus`
--   Inspector     python/src/inspector/main.py, `sniff` and `classify`; Inspector.Publication is `to_proto`,
--                 `write_canonical` and the handler
--   Reconstub     python/src/reconstub/main.py, `reconcile`; Reconstub.Consumer is the handler of assignments and
--                 voids
--   Json          what `json.loads` gives; Xml what `lxml.etree` gives
--   Prelude       lists, texts, dicts, counters and sorting as Python has them; Dates is `datetime.date`
--   Tests         runs at concrete inputs, and the theorems applied to them
--
-- The registry is read by Attribution; the calendar of the client by ValueDate; the table by Mapping, whose
-- tiers pass on one list of mappings; the three results meet in Confidence. Inspector composes these
-- steps; what it has classified is written by Emit, and its event goes over the Bus. Reconstub reads the bus
-- and the written files, and knows nothing of the rest.
--
-- How the code is written here. A text is a native text whose letters, digits and blanks are those of ASCII.
-- A dict is an association list in insertion order, with the update of a key in its place; a set is a list.
-- An exception, and a `None`, is a `none` of Option, or an error of its own type (`Loaded`). A record that
-- the code changes in place is rebuilt: the loops of the resolver over the open mappings are one function,
-- `visit`, that sees the fields claimed at that moment. The cache of the resolver is passed on as a state.
--
-- Numbers. Confidences are whole thousandths, those of the score ten thousandths, scores of tier 2 millionths,
-- and a ratio of tier 1 is a fraction. The constants of the code lie on these grids. A rounding is half to
-- even on the exact number; where the float result lies within its error of a tie, the last digit may be
-- another, and a comparison of quotients is made on the exact ones. An adjudicator's confidence is given in
-- thousandths, and if it is an integer, it is one that a float can hold. The Decimals that
-- `to_decimal` reads are exact: the minus of a value in parentheses does not round it to the 28 digits of the
-- context, and does not overflow. The products, differences and absolute values of `cross_check_amount` and the
-- difference of two values in `reconcile` are rounded, and overflow, as in the default context. The text of a
-- Decimal may have an exponent of any size, where the constructor refuses one beyond 10^18.
--
-- Parameters. A compiled filename pattern is a function from a filename to the groups of its match; the
-- embedding model, the fuzzy matcher, the adjudicator, the model service, `json.loads`, `etree.parse`,
-- `load_workbook`, the codec of the bus and the files are functions too. Of an embedding the cosine with a
-- description is given, not the vectors, and whether the model is there does not change during a run. The
-- hash that places a key in a partition is a function to numbers.
--
-- Bounds. The searches for a business day take the thirty rounds that the code gives them. The digits of a
-- number are written with one round more than its value, which is more than it has digits. The model service
-- is asked as often as the adjudicator was told. Everything else is recursion on the data.
--
-- Not modelled: the YAML readers, the durable cache, the client of the model service, the Parquet file
-- that records go to, the codec of the bus, logging, the benchmarks and reports, the generators of test data,
-- generated code, the field size limit of the csv reader, and the services in other languages.
pub mod Prelude
pub mod Dates
pub mod Calendar
pub mod ValueDate
pub mod Registry
pub mod Attribution
pub mod Canonical
pub mod Json
pub mod Xml
pub mod Mapping
pub mod Parsers
pub mod Reconstub
pub mod Confidence
pub mod Emit
pub mod Inspector
pub mod Masking
pub mod Bus
pub mod Tests
