-- ===== src/Tests/Advices.antt =====
-- An advice in prose, line by line.
use harbormaster.Prelude.{
  ◌≡◌, refl, true, false, none, some, [], ◌∷◌, String, any, filter, get_elem?,
}
use harbormaster.Prelude.Text.{
  lower, strip, lstrip, rstrip, any_char, filter_chars, has_infix, starts_with, ends_with,
  take_chars, drop_chars, fixed_two, str_of_nat, digits_from,
}
use harbormaster.Dates.{isoformat}
use harbormaster.ValueDate.Parse.{parse_date, strptime, before_time, try_formats}
use harbormaster.Mapping.{parsed_table}
use harbormaster.Parsers.Csv.{lines_from}
use harbormaster.Parsers.Delimited.{count_char}
use harbormaster.Parsers.Patterns.{both, times, between_places, search}
use harbormaster.Parsers.EmailText.{
  Match, number_ways, larger, number_text, value_from, amount_at, find_amounts, without_commas,
  value_of, is_money, largest, amount,
}
use harbormaster.Parsers.EmailText.Movements.{
  debit, account_pattern, date_patterns, read_match, first_date, currency, direction, extract,
}
use harbormaster.Parsers.EmailText.Bodies.{
  sniff, looks_like_a_movement, is_header_line, subject, read_lines, default_date, parse, headers,
}
use harbormaster.Mapping.Variation.{below}
use harbormaster.Parsers.EmailText.Largest.{IsAmount, amount-IsLargest}

-- Opens the parser.
unfoldable advising : Unit {0}
unfolding lower strip lstrip rstrip any_char filter_chars has_infix starts_with ends_with take_chars
    drop_chars fixed_two str_of_nat digits_from isoformat parse_date strptime before_time
    try_formats parsed_table lines_from count_char both times between_places search number_ways
    amount_at find_amounts without_commas value_of is_money largest larger number_text value_from
    amount account_pattern date_patterns read_match first_date currency direction extract sniff
    looks_like_a_movement is_header_line subject read_lines default_date parse any filter
advising = tt

abbrev line : String
line = "Paid USD 12,500.00 and 1,2345 from AC-9911 on 28 August 2026"

largest_amount :
    (amount line ≡ some "12500.00")
    × (amount "fee of $ 40 in 2026" ≡ some "40")
    × (amount "ref 123456" ≡ none)
    × (amount "paid $2000" ≡ none)
unfolding advising
largest_amount = (refl, refl, refl, refl)

dates_read :
    (first_date line ≡ some "2026-08-28")
    × (first_date "on 2026-02-30 or 3/9/2026" ≡ some "2026-09-03")
    × (currency "EURO 5 GBP" ≡ some "GBP")
    × (currency "£5" ≡ some "GBP")
unfolding advising
dates_read = (refl, refl, refl, refl)

abbrev body : String
body = "From: ops@bank\nSubject: advice 2026-08-28\n\nPaid USD 12,500.00 from AC-9911\nRegards\n"

read_body :
    parse body
    ≡ some (record {
      headers = headers;
      rows =
          (("Account ID", "AC-9911")
            ∷ ("Net Amount", "-12500.00")
            ∷ ("Currency", "USD")
            ∷ ("Value Date", "2026-08-28")
            ∷ ("Direction", "DEBIT")
            ∷ ("Extraction Confidence", "1.00")
            ∷ ("Source Line", "Paid USD 12,500.00 from AC-9911")
            ∷ [])
          ∷ [];
    })
unfolding advising
read_body = refl

sniffed_body : sniff body "mail.bin" ≡ 930
unfolding advising
sniffed_body = refl

-- The words are looked for anywhere in the line: "presented" holds "sent".
sent_in_presented : direction "Credit advice presented: EUR 5.00 received" ≡ debit
unfolding advising
sent_in_presented = refl

abbrev two_amounts : String
two_amounts = "Fee 12.50 and $40"

abbrev forty : Match
forty = record { symbol = true; number = "40"; rest = "" }

forty_found : get_elem? (find_amounts false 0 two_amounts) 1 ≡ some forty
unfolding advising
forty_found = refl

forty_counts : is_money forty ≡ true
unfolding advising
forty_counts = refl

amount-IsLargest_example :
    (s : Match) × (amount two_amounts ≡ some (without_commas s.number))
    × IsAmount (find_amounts false 0 two_amounts) s
    × (below (value_of s.number) (value_of forty.number) ≡ false)
amount-IsLargest_example = amount-IsLargest two_amounts 1 forty forty_found forty_counts
