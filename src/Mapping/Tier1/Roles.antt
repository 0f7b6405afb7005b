-- ===== src/Mapping/Tier1/Roles.antt =====
-- The columns of prices get the two price fields only, and each once.
use mathlib.Core.Path.{subst}
use harbormaster.Prelude.{
  ◌≡◌, refl, sym, ap, ◌∙◌, inl, inr, Bool, true, false, not, ◌&&◌, ◌||◌, List, [], ◌∷◌, ◌++◌, map,
  String, string_eq, ◌==◌, contains, arith, Bool-cases, beq_refl,
}
use harbormaster.Prelude.Text.{is_blank}
use harbormaster.Mapping.{Table, Mapping, fields_of, has_duplicates}
use harbormaster.Mapping.Fields.{fields_of-append}
use harbormaster.Mapping.Variation.{Ratio, at_least_half}
use harbormaster.Mapping.Tier1.{
  is_price, surplus, role_results, taken_by, structure, resolve_prices,
}

fields_of-surplus :
    (field winner : String) (hs : List String) → fields_of (map (surplus field winner) hs) ≡ []
unfolding fields_of
fields_of-surplus field winner [] = refl
fields_of-surplus field winner (h ∷ hs) = fields_of-surplus field winner hs

-- The winner's field, once if there are candidates.
fields_of-role_results :
    (field reason : String) (hs : List String)
    → is_blank field ≡ false
    → fields_of (role_results field reason hs) ≡ taken_by field hs
unfolding role_results fields_of
fields_of-role_results field reason [] there = refl
fields_of-role_results field reason (winner ∷ rest) there =
    rw there (ap (λ l. field ∷ l) (fields_of-surplus field winner rest))

-- The fields that the structural pass gives are new, prices, and distinct.
pub record Fresh (taken fields : List String) : Type 0 where
  pub distinct : has_duplicates fields ≡ false
  pub new : (f : String) → contains fields f ≡ true → contains taken f ≡ false
  pub prices : (f : String) → contains fields f ≡ true → is_price f ≡ true

second_false : (a b : Bool) → (a || b) ≡ false → b ≡ false
second_false a b h = ground arith

Fresh-cons :
    (taken fields : List String) (f : String)
    → contains taken f ≡ false
    → is_price f ≡ true
    → Fresh (f ∷ taken) fields
    → Fresh taken (f ∷ fields)
Fresh-cons taken fields f free price r = record {
  distinct = elim (Bool-cases (contains fields f)) [
    | inl again ↦ cc (sym (r.new f again) ∙ ap (λ b. b || contains taken f) (beq_refl f))
    | inr once ↦ rw once r.distinct
  ];
  new = λ g there. elim (Bool-cases (g == f)) [
    | inl same ↦ ap (contains taken) ((string_eq.beq_iff g f).0 same) ∙ free
    | inr differ ↦ second_false (g == f) _ (r.new g (rw differ at there))
  ];
  prices = λ g there. elim (Bool-cases (g == f)) [
    | inl same ↦ ap is_price ((string_eq.beq_iff g f).0 same) ∙ price
    | inr differ ↦ r.prices g (rw differ at there)
  ];
}

not_first : (a b : Bool) → (not a && b) ≡ true → a ≡ false
not_first a b h = ground arith

structure-Fresh :
    (basis : String) (taken : List String) (scored : List (String × Ratio))
    → Fresh taken (fields_of (structure basis taken scored))
unfolding structure fields_of
structure-Fresh basis taken [] = record { distinct = refl; new = λ f h. cc; prices = λ f h. cc }
structure-Fresh basis taken ((h, r) ∷ scored) =
    elim (Bool-cases (not (contains taken "trade_price") && at_least_half r)) [
      | inl trade ↦ rw trade (
          Fresh-cons taken _ "trade_price" (not_first _ _ trade) refl
            (structure-Fresh basis ("trade_price" ∷ taken) scored))
      | inr other ↦
          rw other
            (elim (Bool-cases (not (contains taken "settlement_price") && not (at_least_half r))) [
              | inl settlement ↦ rw settlement (
                  Fresh-cons taken _ "settlement_price" (not_first _ _ settlement) refl
                    (structure-Fresh basis ("settlement_price" ∷ taken) scored))
              | inr none_left ↦ rw none_left (structure-Fresh basis taken scored)
            ])
    ]

-- What the columns of prices get together.
swapped :
    (fields : List String) (f g : String) → Fresh (f ∷ g ∷ []) fields → Fresh (g ∷ f ∷ []) fields
swapped fields f g r = record {
  distinct = r.distinct;
  new = λ h there. swap_false (h == f) (h == g) (r.new h there);
  prices = r.prices;
}
  where
    swap_false : (a b : Bool) → (a || (b || false)) ≡ false → (b || (a || false)) ≡ false
    swap_false a b h = ground arith

roles-Fresh :
    (ss ts : List String) (fields : List String)
    → Fresh (taken_by "settlement_price" ss ++ taken_by "trade_price" ts) fields
    → Fresh [] (taken_by "settlement_price" ss ++ (taken_by "trade_price" ts ++ fields))
roles-Fresh [] [] fields r = r
roles-Fresh [] (t ∷ ts) fields r = Fresh-cons [] fields "trade_price" refl refl r
roles-Fresh (s ∷ ss) [] fields r = Fresh-cons [] fields "settlement_price" refl refl r
roles-Fresh (s ∷ ss) (t ∷ ts) fields r =
    Fresh-cons [] ("trade_price" ∷ fields) "settlement_price" refl refl (
      Fresh-cons ("settlement_price" ∷ []) fields "trade_price" refl refl
        (swapped fields "settlement_price" "trade_price" r))

pub resolve_prices-Fresh :
    (t : Table) (hs : List String) (settled : List Mapping)
    → Fresh [] (fields_of (resolve_prices t hs settled))
unfolding resolve_prices
resolve_prices-Fresh t hs settled =
    subst (Fresh []) (sym (three _ _ _)) (roles-Fresh _ _ _ (structure-Fresh _ _ _))
  where
    three :
        (ss ts : List String) (rest : List Mapping)
        → fields_of (
            role_results "settlement_price" "header names a settlement or mark price" ss
            ++ (role_results "trade_price" "header names an execution price" ts ++ rest))
          ≡ taken_by "settlement_price" ss ++ (taken_by "trade_price" ts ++ fields_of rest)
    three ss ts rest =
        fields_of-append
          (role_results "settlement_price" "header names a settlement or mark price" ss) _
        ∙ ap
            (λ l.
              l
              ++ fields_of
                  (role_results "trade_price" "header names an execution price" ts ++ rest))
            (fields_of-role_results "settlement_price" "header names a settlement or mark price" ss
              refl)
        ∙ ap (λ l. taken_by "settlement_price" ss ++ l)
            (fields_of-append (role_results "trade_price" "header names an execution price" ts) rest
              ∙ ap (λ l. l ++ fields_of rest)
                  (fields_of-role_results "trade_price" "header names an execution price" ts refl))
