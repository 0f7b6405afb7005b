-- ===== src/Parsers/Fixml.antt =====
-- python/src/inspector/parsers/fixml.py. `etree.parse` is a parameter; a file is its text. The evidence is not kept.
use harbormaster.Prelude.{
  ℕ, not, Option, none, some, List, [], ◌∷◌, map, filter, any, String, ◌<>◌, string_eq, ◌==◌,
  contains, if◌then◌else◌,
}
use harbormaster.Prelude.Text.{is_blank, upper, lstrip, strip, starts_with, has_infix, take_chars}
use harbormaster.Prelude.Dict.{Dict, lookup, insert}
use harbormaster.Mapping.{Table}
use harbormaster.Xml.{Element, attrib, tag, text_of, children, iter, local_name}
use harbormaster.Parsers.Flat.{table_of_flat}

-- `_FIX_FIELDS`
abbrev pub fix_fields : List (String × String)
fix_fields =
    ("ExecID", "ExecID")
    ∷ ("OrderID", "OrderID")
    ∷ ("TradeID", "TradeID")
    ∷ ("ClOrdID", "ClOrdID")
    ∷ ("LastQty", "LastQty")
    ∷ ("CumQty", "CumQty")
    ∷ ("LastPx", "LastPx")
    ∷ ("AvgPx", "AvgPx")
    ∷ ("SettlPx", "Settlement Price")
    ∷ ("SettlCurrAmt", "Settlement Amount")
    ∷ ("NetMoney", "NetMoney")
    ∷ ("GrossTradeAmt", "Gross Amount")
    ∷ ("TrdDt", "Trade Date")
    ∷ ("TradeDate", "Trade Date")
    ∷ ("SettlDt", "Settlement Date")
    ∷ ("TransactTime", "Transaction Time")
    ∷ ("Ccy", "Currency")
    ∷ ("Curr", "Currency")
    ∷ ("SettlCurrency", "Settlement Currency")
    ∷ ("Sym", "Symbol")
    ∷ ("Issr", "Issuer")
    ∷ ("Desc", "Security Description")
    ∷ ("SecTyp", "Security Type")
    ∷ ("MatDt", "Maturity Date")
    ∷ []

abbrev pub side_codes : List (String × String)
side_codes =
    ("1", "BUY") ∷ ("2", "SELL") ∷ ("3", "BUY") ∷ ("4", "SELL") ∷ ("5", "SELL") ∷ ("6", "SELL") ∷ []

abbrev pub id_sources : List (String × String)
id_sources = ("1", "CUSIP") ∷ ("2", "SEDOL") ∷ ("4", "ISIN") ∷ ("8", "Ticker") ∷ ("5", "RIC") ∷ []

abbrev pub account_roles : List String
account_roles = "24" ∷ "3" ∷ "1" ∷ []

abbrev pub record_tags : List String
record_tags = "ExecRpt" ∷ "TrdCaptRpt" ∷ "Position" ∷ "PosRpt" ∷ "Alloc" ∷ []

-- `FIXMLParser.sniff`, in thousandths
unfoldable pub sniff : String → ℕ
unfolding lstrip upper take_chars has_infix starts_with any
sniff head =
    let text = lstrip head in
    let head_upper = upper (take_chars 4000 text) in
    if not (starts_with text "<")
    then 0
    else if has_infix head_upper "<FIXML"
    then 980
    else if any (λ t. has_infix head_upper ("<" <> upper t)) record_tags
    then 900
    else 0

-- `table.get(key, default)`
unfoldable pub get_or : String → List (String × String) → String → String
unfolding lookup
get_or default table key = elim (lookup key table) [ none ↦ default | some v ↦ v ]

-- `_FIX_FIELDS.get(name, name)`
abbrev pub field_name : String → String
unfolding get_or
field_name name = get_or name fix_fields name

abbrev add_attribute : String → String → String → Dict String String → Dict String String
unfolding get_or insert strip
add_attribute prefix name value out =
    if name == "Side"
    then insert "Side" (get_or value side_codes value) out
    else insert (prefix <> field_name name) (strip value) out

-- `_attributes`
unfoldable pub attributes :
    String → List (String × String) → Dict String String → Dict String String
unfolding local_name get_or insert strip
attributes prefix [] out = out
attributes prefix ((raw_name, value) ∷ more) out =
    attributes prefix more (add_attribute prefix (local_name raw_name) value out)

-- `attrs`
unfoldable pub attrs_of : List (String × String) → Dict String String → Dict String String
unfolding local_name insert
attrs_of [] attrs = attrs
attrs_of ((k, v) ∷ more) attrs = attrs_of more (insert (local_name k) v attrs)

abbrev local_attrs : Element → Dict String String
unfolding attrs_of
local_attrs e = attrs_of (attrib e) []

abbrev with_symbol : Option String → Dict String String → Dict String String
unfolding insert
with_symbol none out = out
with_symbol (some symbol) out = insert "Symbol" symbol out

abbrev with_identifier : String → String → Dict String String → Dict String String
unfolding get_or insert
with_identifier identifier source out =
    if is_blank identifier
    then out
    else insert (get_or "Security ID" id_sources source) identifier out

unfoldable pub instrument_rest : Dict String String → Dict String String → Dict String String
unfolding get_or insert
instrument_rest [] out = out
instrument_rest ((name, value) ∷ more) out = instrument_rest more (
    if contains ("Sym" ∷ "ID" ∷ "IDSrc" ∷ []) name
    then out
    else insert ("Instrmt." <> field_name name) value out)

-- `_instrument`
unfoldable pub instrument : Element → Dict String String → Dict String String
unfolding attrs_of get_or insert instrument_rest lookup
instrument e out =
    let attrs = local_attrs e in
    instrument_rest attrs (
      with_identifier (get_or "" attrs "ID") (get_or "" attrs "IDSrc")
        (with_symbol (lookup "Sym" attrs) out))

abbrev role_or_unknown : String → String
role_or_unknown role = if is_blank role then "unknown" else role

-- `_party`
unfoldable pub party : Element → Dict String String → Dict String String
unfolding attrs_of get_or insert
party e out =
    let attrs = local_attrs e in
    let role = get_or "" attrs "R" in
    let identifier = get_or "" attrs "ID" in
    if is_blank identifier
    then out
    else if contains account_roles role
    then insert "Account ID" identifier out
    else insert ("Party." <> role_or_unknown role) identifier out

abbrev with_text : String → String → Dict String String → Dict String String
unfolding get_or insert
with_text name text out = if is_blank text then out else insert (field_name name) text out

abbrev add_child : Element → Dict String String → Dict String String
unfolding local_name instrument party attributes strip get_or insert
add_child e out =
    let name = local_name (tag e) in
    if name == "Instrmt"
    then instrument e out
    else if name == "Pty"
    then party e out
    else with_text name (strip (text_of e)) (attributes (name <> ".") (attrib e) out)

unfoldable pub add_children : List Element → Dict String String → Dict String String
unfolding local_name instrument party attributes strip get_or insert
add_children [] out = out
add_children (e ∷ es) out = add_children es (add_child e out)

-- `_flatten_report`
unfoldable pub flatten_report : Element → Dict String String
unfolding attributes add_children
flatten_report e = add_children (children e) (attributes "" (attrib e) [])

-- `records`
unfoldable pub reports : Element → List Element
unfolding iter filter local_name
reports root = filter (λ e. contains record_tags (local_name (tag e))) (iter root)

-- `FIXMLParser.parse`; `none` for the ParseError
unfoldable pub parse : (String → Option Element) → String → Option Table
unfolding table_of_flat flatten_report reports
parse loads content = elim (loads content) [
  | none ↦ none
  | some root ↦ table_of_flat (map flatten_report (reports root))
]
