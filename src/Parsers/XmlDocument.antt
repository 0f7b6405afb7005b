-- ===== src/Parsers/XmlDocument.antt =====
-- python/src/inspector/parsers/xml_parser.py. `etree.parse` is a parameter; a file is its text. The evidence is not kept.
use harbormaster.Prelude.{
  ℕ, ◌+◌, ◌*◌, min, Bool, not, ◌||◌, Option, none, some, List, [], ◌∷◌, ◌++◌, map, length, is_empty,
  String, ◌<>◌, string_eq, ltb, if◌then◌else◌,
}
use harbormaster.Prelude.Text.{
  is_blank, lower, upper, lstrip, strip, starts_with, ends_with, has_infix, take_chars, str_of_nat,
}
use harbormaster.Prelude.Dict.{Dict, lookup, insert, from_pairs}
use harbormaster.Prelude.Counter.{count}
use harbormaster.Mapping.{Table}
use harbormaster.Mapping.Variation.{Ratio, ratio, below}
use harbormaster.Xml.{
  Element, element, Children, no_children, child, tag, attrib, text_of, list_of, children,
  below_root, local_name,
}
use harbormaster.Parsers.JsonDocument.{without_dots}
use harbormaster.Parsers.Flat.{table_of_flat}

-- `XMLParser.sniff`, in thousandths
unfoldable pub sniff : String → String → ℕ
unfolding lstrip upper take_chars has_infix starts_with ends_with lower
sniff head name =
    let text = lstrip head in
    let head_upper = upper (take_chars 2000 text) in
    if not (starts_with text "<")
    then 0
    else if has_infix head_upper "<FIXML" || has_infix head_upper "<EXECRPT"
    then 300
    else if ends_with (lower name) ".xml"
    then 920
    else 850

-- the local name of a node
abbrev pub name_of : Element → String
unfolding local_name
name_of e = local_name (tag e)

abbrev or_nil : Option (List Element) → List Element
or_nil none = []
or_nil (some es) = es

-- `by_tag`
unfoldable pub group_by_tag : Dict String (List Element) → List Element → Dict String (List Element)
unfolding local_name lookup insert
group_by_tag groups [] = groups
group_by_tag groups (e ∷ es) =
    group_by_tag (insert (name_of e) (or_nil (lookup (name_of e) groups) ++ e ∷ []) groups) es

-- how many children and attributes a node has, and how many some nodes have
abbrev pub weight : Element → ℕ
weight e = length (children e) + length (attrib e)

abbrev pub weights : List Element → ℕ
weights [] = 0
weights (e ∷ es) = weight e + weights es

pub record Found : Type 0 where
  pub elements : List Element
  pub score : Ratio

-- `score` of a tag that is repeated, and is no leaf
unfoldable pub scored : List Element → Option Found
scored es =
    if ltb (length es) 2 || ltb (weights es) (length es)
    then none
    else some (record {
      elements = es;
      score = ratio (10 * weights es + min (length es) 100 * length es) (length es);
    })

abbrev pub better : Option Found → Option Found → Option Found
better best none = best
better none (some f) = some f
better (some b) (some f) = if below b.score f.score then some f else some b

unfoldable pub best_group : Option Found → Dict String (List Element) → Option Found
unfolding scored
best_group best [] = best
best_group best ((_, es) ∷ groups) = best_group (better best (scored es)) groups

-- the first of the children with the most children and attributes
abbrev richer : Element → Element → Element
richer best e = if ltb (weight best) (weight e) then e else best

unfoldable richest_from : Element → List Element → Element
richest_from best [] = best
richest_from best (e ∷ es) = richest_from (richer best e) es

abbrev single : List Element → List Element
unfolding richest_from
single [] = []
single (e ∷ es) =
    let richest = richest_from e es in if ltb 0 (weight richest) then richest ∷ [] else []

abbrev found_or : Element → Option Found → List Element
unfolding richest_from
found_or root (some f) = f.elements
found_or root none = single (children root)

-- `_find_records`
unfoldable pub find_records : Element → List Element
unfolding best_group group_by_tag richest_from
find_records root = found_or root (best_group none (group_by_tag [] (below_root root)))

-- the loop over the attributes
unfoldable pub add_attributes :
    String → Dict String String → List (String × String) → Dict String String
unfolding local_name strip insert
add_attributes prefix out [] = out
add_attributes prefix out ((key, value) ∷ more) =
    add_attributes prefix (insert (prefix <> ("@" <> local_name key)) (strip value) out) more

abbrev tags_of : List Element → List String
unfolding local_name
tags_of es = map name_of es

-- a repeated tag with the number of its occurrences so far
abbrev indexed : String → List String → List String → String
unfolding str_of_nat
indexed name tags before =
    if ltb 1 (count name tags)
    then name <> ("[" <> (str_of_nat (count name before) <> "]"))
    else name

abbrev add_text : String → String → Dict String String → Dict String String
unfolding insert
add_text name text out = if is_blank text then out else insert name text out

abbrev is_compound : Element → Bool
is_compound e = not (is_empty (children e)) || not (is_empty (attrib e))

abbrev leaf_text : String → String → Dict String String → Dict String String
unfolding without_dots insert
leaf_text prefix text out =
    if is_blank text || is_blank prefix then out else insert (without_dots prefix) text out

-- `_flatten`, with the loop over the children, which has the tags of all and of those before
unfoldable mutual
  unfolding add_attributes local_name str_of_nat strip without_dots insert from_pairs

  pub flatten : String → Element → Dict String String
  flatten prefix (element t attributes text no_children) =
      leaf_text prefix (strip text) (add_attributes prefix [] attributes)
  flatten prefix (element t attributes text (child e es)) =
      flatten_children prefix (tags_of (list_of (child e es))) []
        (add_attributes prefix [] attributes) (child e es)

  pub flatten_children :
      String → List String → List String → Dict String String → Children → Dict String String
  flatten_children prefix tags before out no_children = out
  flatten_children prefix tags before out (child e es) =
      let name = prefix <> indexed (name_of e) tags before in
      let text = strip (text_of e) in
      let inside = flatten (name <> ".") e in
      flatten_children prefix tags (name_of e ∷ before)
        (if is_compound e then add_text name text (from_pairs inside out) else insert name text out)
        es

-- `XMLParser.parse`; `none` for the ParseError
unfoldable pub parse : (String → Option Element) → String → Option Table
unfolding table_of_flat flatten find_records
parse loads content = elim (loads content) [
  | none ↦ none
  | some root ↦ table_of_flat (map (flatten "") (find_records root))
]
