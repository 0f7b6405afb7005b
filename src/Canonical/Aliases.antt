-- ===== src/Canonical/Aliases.antt =====
-- `FIELD_ALIASES` of python/src/inspector/mapping/canonical.py: for each canonical field that a column
-- may be mapped to, the normalised headers that mean it.
use harbormaster.Prelude.{List, [], ◌∷◌, String}
use harbormaster.Prelude.Dict.{Dict}

abbrev pub source_system : List String
source_system =
    "source" ∷ "sourcesystem" ∷ "venue" ∷ "exchange" ∷ "market" ∷ "clearinghouse" ∷ "mic" ∷ []

abbrev pub account_id : List String
account_id =
    "accountid" ∷ "account" ∷ "acctno" ∷ "acctnum" ∷ "accountnumber" ∷ "acctid" ∷ "accountno"
    ∷ "clientaccount" ∷ "custodyaccount" ∷ "safekeepingaccount" ∷ "portfolioid" ∷ "portfolio"
    ∷ "book" ∷ "bookid" ∷ "subaccount" ∷ "omnibusaccount" ∷ "clearingaccount" ∷ "acct" ∷ []

abbrev pub account_name : List String
account_name =
    "accountname" ∷ "acctname" ∷ "portfolioname" ∷ "fundname" ∷ "clientname" ∷ "accounttitle"
    ∷ "safekeepingaccountname" ∷ "bookname" ∷ []

abbrev pub trade_id : List String
trade_id =
    "tradeid" ∷ "trdid" ∷ "dealid" ∷ "executionid" ∷ "execid" ∷ "orderid" ∷ "transactionid"
    ∷ "ticket" ∷ "ticketno" ∷ "ticketnumber" ∷ "referencenumber" ∷ "refno" ∷ "reference"
    ∷ "tradereference" ∷ "confirmationid" ∷ "clordid" ∷ "tradenumber" ∷ []

abbrev pub instrument_id : List String
instrument_id =
    "instrument" ∷ "instrumentid" ∷ "symbol" ∷ "ticker" ∷ "isin" ∷ "cusip" ∷ "sedol" ∷ "figi"
    ∷ "securityid" ∷ "secid" ∷ "contractcode" ∷ "contract" ∷ "occsymbol" ∷ "productcode" ∷ "product"
    ∷ "underlying" ∷ "underlyingsymbol" ∷ "securitydescription" ∷ "description" ∷ "instrumentcode"
    ∷ "ric" ∷ "bbgticker" ∷ []

abbrev pub instrument_type : List String
instrument_type =
    "instrumenttype" ∷ "assetclass" ∷ "producttype" ∷ "sectype" ∷ "securitytype" ∷ "cficode"
    ∷ "instrumentclass" ∷ "assettype" ∷ "contracttype" ∷ []

abbrev pub trade_date : List String
trade_date =
    "tradedate" ∷ "trddate" ∷ "dealdate" ∷ "executiondate" ∷ "transactiondate" ∷ "dateexecuted"
    ∷ "businessdate" ∷ "activitydate" ∷ "bookingdate" ∷ "asof" ∷ "asofdate" ∷ "date" ∷ []

abbrev pub quantity : List String
quantity =
    "qty" ∷ "quantity" ∷ "lastqty" ∷ "filledqty" ∷ "shares" ∷ "units" ∷ "contracts"
    ∷ "numberofcontracts" ∷ "faceamount" ∷ "facevalue" ∷ "nominal" ∷ "nominalamount" ∷ "lotsize"
    ∷ "position" ∷ "netposition" ∷ "positionquantity" ∷ "openquantity" ∷ "balance" ∷ "holdings"
    ∷ "tradequantity" ∷ "settlementquantity" ∷ []

abbrev pub trade_price : List String
trade_price =
    "price" ∷ "tradeprice" ∷ "lastprice" ∷ "execprice" ∷ "executionprice" ∷ "fillprice"
    ∷ "dealprice" ∷ "avgprice" ∷ "averageprice" ∷ "executedprice" ∷ "lastpx" ∷ "avgpx"
    ∷ "pricetraded" ∷ "unitprice" ∷ "cleanprice" ∷ "grossprice" ∷ []

abbrev pub settlement_price : List String
settlement_price =
    "settleprice" ∷ "settlementprice" ∷ "closeprice" ∷ "closingprice" ∷ "mtmprice"
    ∷ "marktomarketprice" ∷ "marktomarket" ∷ "officialsettlementprice" ∷ "officialprice"
    ∷ "dccprice" ∷ "eodprice" ∷ "priorsettleprice" ∷ "previoussettlementprice" ∷ "endofdayprice"
    ∷ "valuationprice" ∷ "markprice" ∷ "settlementpx" ∷ []

abbrev pub gross_amount : List String
gross_amount =
    "grossamount" ∷ "grossamt" ∷ "grossvalue" ∷ "grossproceeds" ∷ "principal" ∷ "principalamount"
    ∷ "grosscash" ∷ "grossconsideration" ∷ "consideration" ∷ []

abbrev pub net_amount : List String
net_amount =
    "netamount" ∷ "netamt" ∷ "netmoney" ∷ "netcash" ∷ "proceeds" ∷ "netproceeds"
    ∷ "settlementamount" ∷ "settlementvalue" ∷ "settleamt" ∷ "settlementamt" ∷ "cashamount"
    ∷ "netsettlementvalue" ∷ "totalamount" ∷ "amountdue" ∷ "amount" ∷ "netconsideration"
    ∷ "cashvalue" ∷ "movementamount" ∷ "debitcredit" ∷ []

abbrev pub market_value : List String
market_value =
    "marketvalue" ∷ "mktval" ∷ "mktvalue" ∷ "mv" ∷ "currentmarketvalue" ∷ "fairvalue"
    ∷ "notionalvalue" ∷ "notional" ∷ "valuation" ∷ "positionvalue" ∷ "collateralvalue"
    ∷ "marketvalueinbase" ∷ "basemarketvalue" ∷ []

abbrev pub currency : List String
currency =
    "currency" ∷ "ccy" ∷ "curr" ∷ "cur" ∷ "settlementcurrency" ∷ "settleccy" ∷ "tradecurrency"
    ∷ "tradeccy" ∷ "currencycode" ∷ "isocurrency" ∷ "denomination" ∷ []

abbrev pub side : List String
side =
    "side" ∷ "buysell" ∷ "buyorsell" ∷ "direction" ∷ "action" ∷ "longshort" ∷ "transactiontype"
    ∷ "dealtype" ∷ "bs" ∷ "sidecode" ∷ []

abbrev pub field_aliases : Dict String (List String)
field_aliases =
    ("source_system", source_system)
    ∷ ("account_id", account_id)
    ∷ ("account_name", account_name)
    ∷ ("trade_id", trade_id)
    ∷ ("instrument_id", instrument_id)
    ∷ ("instrument_type", instrument_type)
    ∷ ("trade_date", trade_date)
    ∷ ("quantity", quantity)
    ∷ ("trade_price", trade_price)
    ∷ ("settlement_price", settlement_price)
    ∷ ("gross_amount", gross_amount)
    ∷ ("net_amount", net_amount)
    ∷ ("market_value", market_value)
    ∷ ("currency", currency)
    ∷ ("side", side)
    ∷ []
