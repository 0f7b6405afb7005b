-- ===== src/Tests/Learned.antt =====
-- The deterministic adjudicator and the cache of what it answered.
use harbormaster.Prelude.{◌≡◌, refl, some, [], ◌∷◌}
use harbormaster.Prelude.Dict.{from_pairs, insert, lookup, values}
use harbormaster.Canonical.{normalize_header}
use harbormaster.Mapping.Tier3.{
  AdjudicationRequest, InMemoryCache, deterministic_fake, fake_fields, by_rule, from_samples,
  promotable, get, put, stored,
}
use harbormaster.Mapping.Tier3.Fake.{IsApart, given_fields, deterministic_fake-IsApart}
use harbormaster.Mapping.Tier3.Store.{get-put}

-- The quantity is known already, and two headers ask for a settlement price.
abbrev asked : AdjudicationRequest
asked = record {
  client_id = "c1";
  client_name = "Client";
  source_hint = "";
  domain = "positions";
  template_fingerprint = "t1";
  unresolved_headers = "Settle Px" ∷ "Closing" ∷ "Units" ∷ "Ccy" ∷ [];
  resolved = ("Qty", "quantity") ∷ [];
  samples = ("Ccy", "USD" ∷ "EUR" ∷ []) ∷ [];
}

asked_fields : given_fields (deterministic_fake asked).fields ≡ "settlement_price" ∷ "currency" ∷ []
unfolding deterministic_fake fake_fields by_rule from_samples lookup normalize_header
asked_fields = refl

asked_promotable :
    promotable 750 (deterministic_fake asked)
    ≡ ("Settle Px", "settlement_price") ∷ ("Ccy", "currency") ∷ []
unfolding deterministic_fake fake_fields by_rule from_samples lookup promotable from_pairs insert
    normalize_header
asked_promotable = refl

deterministic_fake-IsApart_example :
    IsApart (values asked.resolved) (given_fields (deterministic_fake asked).fields)
deterministic_fake-IsApart_example = deterministic_fake-IsApart asked

abbrev one_template : InMemoryCache
one_template = record {
  store = ("t1", ("c1", ("Ccy", "currency") ∷ [])) ∷ [];
  hits = 2;
  misses = 1;
}

-- The template is known for another client, and stays so.
get-put_example :
    (get (put one_template "t1" "c2" (("Ccy", "account_id") ∷ [])) "t1" "c1").0
    ≡ some (("Ccy", "currency") ∷ [])
unfolding get stored
get-put_example = get-put one_template "t1" "t1" "c2" "c1" (("Ccy", "account_id") ∷ [])
