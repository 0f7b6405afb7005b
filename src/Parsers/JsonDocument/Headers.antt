-- ===== src/Parsers/JsonDocument/Headers.antt =====
-- The table that `parse` of python/src/inspector/parsers/json_parser.py reads.
use mathlib.Core.Path.{subst}
use harbormaster.Prelude.{suc, ◌≡◌, ◌≢◌, refl, ap, some, List, [], ◌∷◌, length, String}
use harbormaster.Prelude.Dict.{Dict}
use harbormaster.Json.{Json}
use harbormaster.Mapping.{Table}
use harbormaster.Parsers.Flat.Headers.{IsTableOf, table_of_flat-IsTableOf}
use harbormaster.Parsers.JsonDocument.{Library, find_records, flat_records, parse}

flat_records-length :
    (l : Library) (envelope : Dict String String) (rs : List Json)
    → length (flat_records l (rs, envelope)) ≡ length rs
unfolding flat_records
flat_records-length l envelope [] = refl
flat_records-length l envelope (r ∷ rs) = ap suc (flat_records-length l envelope rs)

flat_records-some :
    (l : Library) (envelope : Dict String String) (rs : List Json)
    → rs ≢ []
    → flat_records l (rs, envelope) ≢ []
unfolding flat_records
flat_records-some l envelope [] there = absurd (there refl)
flat_records-some l envelope (r ∷ rs) there = λ h. cc h

-- A document in which records are found is always read: to a table without duplicate headers, that has a row for each
-- record, and in each row a value for every header.
pub parse-IsTableOf :
    (l : Library) (content : String) (document : Json)
    → l.loads content ≡ some document
    → (find_records l document).0 ≢ []
    → (t : Table) × (parse l content ≡ some t) × IsTableOf (length (find_records l document).0) t
unfolding parse
parse-IsTableOf l content document loaded there =
    let (t, read, good) =
      table_of_flat-IsTableOf (flat_records l (find_records l document))
        (flat_records-some l (find_records l document).1 (find_records l document).0 there) in
    (
      t,
      rw (loaded, parse) read,
      subst (λ n. IsTableOf n t)
          (flat_records-length l (find_records l document).1 (find_records l document).0) good,
    )
