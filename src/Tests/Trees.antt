-- ===== src/Tests/Trees.antt =====
-- XML and FIXML documents.
use harbormaster.Prelude.{◌≡◌, refl, some, [], ◌∷◌, String, any, filter}
use harbormaster.Prelude.Text.{
  lower, upper, strip, lstrip, rstrip, has_infix, starts_with, ends_with, take_chars, str_of_nat,
  digits_from,
}
use harbormaster.Prelude.Dict.{lookup, insert, from_pairs}
use harbormaster.Mapping.{parsed_table}
use harbormaster.Parsers.JsonDocument.{without_dots}
use harbormaster.Parsers.Flat.{set_default, add_headers, headers_of, fill_row, table_of_flat}
use harbormaster.Parsers.XmlDocument
use harbormaster.Parsers.Fixml
use harbormaster.Xml.{Element, element, no_children, child, iter, iter_children, local_name}

-- Opens the parsers.
unfoldable parsing : Unit {0}
unfolding lower upper strip lstrip rstrip has_infix starts_with ends_with take_chars str_of_nat
    digits_from lookup insert from_pairs parsed_table without_dots set_default add_headers
    headers_of fill_row table_of_flat iter iter_children local_name any filter XmlDocument.sniff
    XmlDocument.group_by_tag XmlDocument.scored XmlDocument.best_group XmlDocument.find_records
    XmlDocument.add_attributes XmlDocument.flatten XmlDocument.flatten_children XmlDocument.parse
    Fixml.sniff Fixml.get_or Fixml.attributes Fixml.attrs_of Fixml.instrument_rest Fixml.instrument
    Fixml.party Fixml.add_children Fixml.flatten_report Fixml.reports Fixml.parse
parsing = tt

abbrev leaf : String → String → Element
leaf tag text = element tag [] text no_children

-- Two trades under a wrapper, of which the second has two legs.
abbrev trades : Element
trades = element "Extract" [] "" (
    child
      (element "Trades" [] "" (
        child (element "{urn:x}Trade" (("id", " T1") ∷ []) "" (child (leaf "Qty" "5") no_children))
          (child
            (element "{urn:x}Trade" (("id", "T2") ∷ []) ""
              (child (leaf "Leg" "a") (child (leaf "Leg" "b") no_children)))
            no_children)))
      no_children)

read_trades :
    XmlDocument.parse (λ s. some trades) ""
    ≡ some (record {
      headers = "@id" ∷ "Qty" ∷ "Leg[0]" ∷ "Leg[1]" ∷ [];
      rows =
          (("@id", "T1") ∷ ("Qty", "5") ∷ ("Leg[0]", "") ∷ ("Leg[1]", "") ∷ [])
          ∷ (("@id", "T2") ∷ ("Leg[0]", "a") ∷ ("Leg[1]", "b") ∷ ("Qty", "") ∷ [])
          ∷ [];
    })
unfolding parsing
read_trades = refl

abbrev report : Element
report = element "FIXML" [] "" (
    child
      (element "TrdCaptRpt" (("LastPx", "101.5") ∷ ("Side", "2") ∷ []) "" (
        child (element "Instrmt" (("ID", "X1") ∷ ("IDSrc", "4") ∷ []) "" no_children)
          (child (element "Pty" (("ID", "AC-1") ∷ ("R", "24") ∷ []) "" no_children) no_children)))
      no_children)

read_report :
    Fixml.parse (λ s. some report) ""
    ≡ some (record {
      headers = "LastPx" ∷ "Side" ∷ "ISIN" ∷ "Account ID" ∷ [];
      rows =
          (("LastPx", "101.5") ∷ ("Side", "SELL") ∷ ("ISIN", "X1") ∷ ("Account ID", "AC-1") ∷ [])
          ∷ [];
    })
unfolding parsing
read_report = refl
