-- ===== src/Mapping/Claude/Attempts.antt =====
-- The attempts of the model adjudicator.
use mathlib.Core.Path.{subst}
use mathlib.Core.Option.{some-injective}
use harbormaster.Prelude.{
  ℕ, zero, suc, ◌+◌, ◌≤◌, ◌≡◌, refl, sym, ap, ◌∙◌, true, Option, none, some, List, [], ◌∷◌, All,
  map, is_empty, String, string_eq, contains, if◌then◌else◌, arith,
}
use harbormaster.Prelude.Dict.{values}
use harbormaster.Mapping.Tier3.{AdjudicationRequest, AdjudicationResult}
use harbormaster.Mapping.Tier3.Fake.{nil-IsApart}
use harbormaster.Mapping.Claude.{
  Usage, Response, Decoder, Parsed, raised, refused, accepted, parse, unresolved, sources_answered,
}
use harbormaster.Mapping.Claude.Answers.{IsSound, unresolved-IsSound}
use harbormaster.Mapping.Claude.Results.{IsSafe, AllOpen, given-append, parse-IsSafe}
use harbormaster.Mapping.Claude.Calls.{
  declined, answered, Attempt, finished, crashed, again, of_parsed, attempt, Outcome, concluded,
  attempts, adjudicate,
}

declined-AllOpen : (hs : List String) (why : String) → AllOpen (map (λ h. unresolved h why) hs)
declined-AllOpen [] why = tt
declined-AllOpen (h ∷ hs) why = (refl, declined-AllOpen hs why)

declined-IsSound :
    (headers hs : List String) (why : String)
    → ((h : String) → contains hs h ≡ true → contains headers h ≡ true)
    → All (IsSound headers) (map (λ h. unresolved h why) hs)
declined-IsSound headers [] why sub = tt
declined-IsSound headers (h ∷ hs) why sub = (
  unresolved-IsSound headers h why (sub h (rw ((string_eq.beq_iff h h).1 refl) refl)),
  declined-IsSound headers hs why (λ k m. sub k (ground (arith, m))),
)

declined_sources :
    (hs : List String) (why : String) → sources_answered (map (λ h. unresolved h why) hs) ≡ hs
declined_sources [] why = refl
declined_sources (h ∷ hs) why = ap (λ r. h ∷ r) (declined_sources hs why)

declined-IsSafe :
    (model : String) (q : AdjudicationRequest) (why : String) → IsSafe q (declined model q why)
declined-IsSafe model q why = record {
  sound = declined-IsSound q.unresolved_headers q.unresolved_headers why (λ h m. m);
  apart =
      rw
        (given-append [] (map (λ h. unresolved h why) q.unresolved_headers)
          (declined-AllOpen q.unresolved_headers why))
        (nil-IsApart (values q.resolved));
  complete = λ h m. rw (declined_sources q.unresolved_headers why) m;
}

-- A result, if there is one, is safe, and so many attempts at most were counted on the way.
pub record IsBounded (q : AdjudicationRequest) (tries : ℕ) (before : Usage) (o : Outcome)
    : Type 0 where
  pub safe : (r : AdjudicationResult) → o.result ≡ some r → IsSafe q r
  pub counted : o.usage.calls + o.usage.failures ≤ before.calls + before.failures + tries

module _ (d : Decoder) (model : String) (q : AdjudicationRequest) where
  -- One attempt counts as one, and a result that it comes to is safe.
  attempt_counted :
      (u : Usage) (o : Option Response)
      → (attempt d model q u o).0.calls + (attempt d model q u o).0.failures
        ≡ u.calls + u.failures + 1
  unfolding attempt
  attempt_counted u none = omega arith
  attempt_counted u (some r) = by_usage r.usage
    where
      by_usage :
          (t : Option (ℕ × (ℕ × ℕ)))
          → (answered u t).calls + (answered u t).failures ≡ u.calls + u.failures + 1
      by_usage none = omega arith
      by_usage (some (i, (o, c))) = omega arith

  attempt-IsSafe :
      (u : Usage) (o : Option Response) (r : AdjudicationResult)
      → (attempt d model q u o).1 ≡ finished r
      → IsSafe q r
  unfolding attempt
  attempt-IsSafe u none r h = cc
  attempt-IsSafe u (some response) r h = by_parsed (parse d model response q) refl h
    where
      by_parsed :
          (p : Parsed) → parse d model response q ≡ p → of_parsed p ≡ finished r → IsSafe q r
      by_parsed raised at e = cc
      by_parsed refused at e = cc
      by_parsed (accepted s) at e = parse-IsSafe d model response q r (at ∙ (cc e))

  concluded-IsBounded :
      (more : Usage → Outcome) (rounds : ℕ) (u v : Usage) (a : Attempt)
      → v.calls + v.failures ≡ u.calls + u.failures + 1
      → ((r : AdjudicationResult) → a ≡ finished r → IsSafe q r)
      → IsBounded q rounds v (more v)
      → IsBounded q (suc rounds) u (concluded model q more rounds v a)
  concluded-IsBounded more rounds u v (finished s) one safe rest = record {
    safe = λ r e. subst (IsSafe q) (some-injective s r e) (safe s refl);
    counted = omega (arith, one);
  }
  concluded-IsBounded more rounds u v crashed one safe rest = record {
    safe = λ r e. cc;
    counted = omega (arith, one);
  }
  concluded-IsBounded more zero u v (again why) one safe rest = record {
    safe = λ r e. subst (IsSafe q) (some-injective _ r e) (declined-IsSafe model q why);
    counted = omega (arith, one);
  }
  concluded-IsBounded more (suc n) u v (again why) one safe rest = record {
    safe = rest.safe;
    counted = omega (arith, one, rest.counted);
  }

  attempts-IsBounded :
      (service : ℕ → Option Response) (n rounds : ℕ) (u : Usage)
      → IsBounded q rounds u (attempts d model q service n rounds u)
  unfolding attempts
  attempts-IsBounded service n zero u = record {
    safe = λ r e.
        subst (IsSafe q) (some-injective _ r e) (declined-IsSafe model q "exhausted attempts");
    counted = omega arith;
  }
  attempts-IsBounded service n (suc rounds) u =
      concluded-IsBounded (attempts d model q service (suc n) rounds) rounds u
        (attempt d model q u (service n)).0 (attempt d model q u (service n)).1
        (attempt_counted u (service n)) (attempt-IsSafe u (service n))
        (attempts-IsBounded service (suc n) rounds (attempt d model q u (service n)).0)

-- Whatever the service and the decoder do, the adjudicator counts no more calls and failures than it may make attempts,
-- and what it answers is safe.
pub adjudicate-IsBounded :
    (d : Decoder) (model : String) (tries : ℕ) (service : ℕ → Option Response) (u : Usage)
    (q : AdjudicationRequest)
    → IsBounded q tries u (adjudicate d model tries service u q)
unfolding adjudicate
adjudicate-IsBounded d model tries service u q = by_headers q.unresolved_headers refl
  where
    by_headers :
        (hs : List String)
        → q.unresolved_headers ≡ hs
        → IsBounded q tries u (
            if is_empty hs
            then record { usage = u; result = some (record { fields = []; model = model }) }
            else attempts d model q service 1 tries u)
    by_headers [] none_asked = record {
      safe = λ r e. subst (IsSafe q) (some-injective _ r e) (record {
        sound = tt;
        apart = nil-IsApart (values q.resolved);
        complete = λ h m. cc (sym m ∙ ap (λ l. contains l h) none_asked);
      });
      counted = omega arith;
    }
    by_headers (h ∷ hs) asked = attempts-IsBounded d model q service 1 tries u
