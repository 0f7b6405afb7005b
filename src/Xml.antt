-- ===== src/Xml.antt =====
-- What `lxml.etree` gives for a file: a tree of nodes. A comment is a node too, with the text of a function as its tag.
use harbormaster.Prelude.{Option, none, some, List, [], ◌∷◌, ◌++◌, String, if◌then◌else◌}
use harbormaster.Prelude.Text.{char_eq}

mutual
  pub data Element : Type 0 where
    -- the tag, the attributes in their order, the text in front of the first child, the children
    element : String → List (String × String) → String → Children → Element

  pub data Children : Type 0 where
    no_children : Children
    child : Element → Children → Children

abbrev pub tag : Element → String
tag (element t _ _ _) = t

abbrev pub attrib : Element → List (String × String)
attrib (element _ a _ _) = a

-- `element.text or ""`
abbrev pub text_of : Element → String
text_of (element _ _ s _) = s

abbrev pub list_of : Children → List Element
list_of no_children = []
list_of (child e es) = e ∷ list_of es

-- `list(element)`
abbrev pub children : Element → List Element
children (element _ _ _ es) = list_of es

-- `element.iter()`, and the nodes below a root
unfoldable mutual
  pub iter : Element → List Element
  iter (element t a s es) = element t a s es ∷ iter_children es

  pub iter_children : Children → List Element
  iter_children no_children = []
  iter_children (child e es) = iter e ++ iter_children es

abbrev pub below_root : Element → List Element
unfolding iter_children
below_root (element _ _ _ es) = iter_children es

after_brace : String → Option String
after_brace String.[] = none
after_brace (String.◌∷◌ c s) = elim (after_brace s) [
  | some r ↦ some r
  | none ↦ if char_eq c "}" then some s else none
]

-- `_localname`: what stands behind the last brace
unfoldable pub local_name : String → String
unfolding after_brace
local_name name = elim (after_brace name) [ none ↦ name | some r ↦ r ]
