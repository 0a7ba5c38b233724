-- ===== src/Context/Json.antt =====
-- packages/kernel/src/structure.ts: `canonicalJson`, with what `JSON.stringify` does to a primitive.
-- A text is the list of its UTF-16 code units, and a number the text that JavaScript prints for it.
use Prim.Native.Nat.{◌/◌, ◌%◌}
use bee_agent.Prelude.{
  ℕ, ◌+◌, Bool, true, false, ◌&&◌, List, [], ◌∷◌, ◌++◌, if◌then◌else◌, leb, ltb, ◌==◌, map,
}
use bee_agent.Prelude.Units.{Text, units}
use bee_agent.Prelude.Sort.{sort_by}

mutual
  pub data Json : Type 0 where
    null : Json
    boolean : Bool → Json
    number : Text → Json
    string : Text → Json
    array : Elements → Json
    object : Members → Json

  pub data Elements : Type 0 where
    no_elements : Elements
    element : Json → Elements → Elements

  -- The members of an object, whose keys are distinct.
  pub data Members : Type 0 where
    no_members : Members
    member : Text → Json → Members → Members

abbrev hex_digit : ℕ → ℕ
hex_digit n = if ltb n 10 then 48 + n else 87 + n

-- A `\uXXXX` escape.
abbrev escape : ℕ → Text
escape c =
    92
    ∷ 117
    ∷ hex_digit (c / 4096)
    ∷ hex_digit (c / 256 % 16)
    ∷ hex_digit (c / 16 % 16)
    ∷ hex_digit (c % 16)
    ∷ []

abbrev is_lead : ℕ → Bool
is_lead c = leb 55296 c && leb c 56319

abbrev is_trail : ℕ → Bool
is_trail c = leb 56320 c && leb c 57343

abbrev starts_trail : Text → Bool
starts_trail [] = false
starts_trail (c ∷ text) = is_trail c

abbrev quote_unit : ℕ → Text
quote_unit c =
    if c == 34
    then 92 ∷ 34 ∷ []
    else if c == 92
    then 92 ∷ 92 ∷ []
    else if c == 8
    then 92 ∷ 98 ∷ []
    else if c == 9
    then 92 ∷ 116 ∷ []
    else if c == 10
    then 92 ∷ 110 ∷ []
    else if c == 12
    then 92 ∷ 102 ∷ []
    else if c == 13
    then 92 ∷ 114 ∷ []
    else if ltb c 32
    then escape c
    else if leb 55296 c && leb c 57343
    then escape c
    else c ∷ []

-- The units of a quoted text; the flag says that this unit ends a surrogate pair.
unfoldable quote_units : Bool → Text → Text
quote_units paired [] = []
quote_units true (c ∷ text) = c ∷ quote_units false text
quote_units false (c ∷ text) = elim (is_lead c && starts_trail text) [
  | true ↦ c ∷ quote_units true text
  | false ↦ quote_unit c ++ quote_units false text
]

-- `JSON.stringify` of a text.
unfoldable pub quote : Text → Text
unfolding quote_units
quote text = 34 ∷ quote_units false text ++ 34 ∷ []

-- `Array.prototype.sort` on texts: by code units.
abbrev text_leb : Text → Text → Bool
text_leb [] t = true
text_leb (c ∷ s) [] = false
text_leb (c ∷ s) (d ∷ t) = if ltb c d then true else if c == d then text_leb s t else false

abbrev pub join : Text → List Text → Text
join separator [] = []
join separator (t ∷ []) = t
join separator (t ∷ u ∷ rest) = t ++ separator ++ join separator (u ∷ rest)

abbrev Rendered : Type 0
Rendered = Text × Text

abbrev by_key : Rendered → Rendered → Bool
by_key a b = text_leb a.0 b.0

abbrev member_text : Rendered → Text
member_text r = quote r.0 ++ 58 ∷ r.1

unfoldable mutual
  unfolding quote

  pub canonical_json : Json → Text
  canonical_json null = units "null"
  canonical_json (boolean true) = units "true"
  canonical_json (boolean false) = units "false"
  canonical_json (number text) = text
  canonical_json (string text) = quote text
  canonical_json (array elements) = 91 ∷ join (44 ∷ []) (canonical_elements elements) ++ 93 ∷ []
  canonical_json (object members) =
      123 ∷ join (44 ∷ []) (map member_text (sort_by by_key (canonical_members members)))
      ++ 125 ∷ []

  pub canonical_elements : Elements → List Text
  canonical_elements no_elements = []
  canonical_elements (element value rest) = canonical_json value ∷ canonical_elements rest

  pub canonical_members : Members → List Rendered
  canonical_members no_members = []
  canonical_members (member key value rest) = (key, canonical_json value) ∷ canonical_members rest

-- `JSON.stringify`: members in their own order.
unfoldable mutual
  unfolding quote

  pub stringify : Json → Text
  stringify null = units "null"
  stringify (boolean true) = units "true"
  stringify (boolean false) = units "false"
  stringify (number text) = text
  stringify (string text) = quote text
  stringify (array elements) = 91 ∷ join (44 ∷ []) (stringify_elements elements) ++ 93 ∷ []
  stringify (object members) =
      123 ∷ join (44 ∷ []) (map member_text (stringify_members members)) ++ 125 ∷ []

  pub stringify_elements : Elements → List Text
  stringify_elements no_elements = []
  stringify_elements (element value rest) = stringify value ∷ stringify_elements rest

  pub stringify_members : Members → List Rendered
  stringify_members no_members = []
  stringify_members (member key value rest) = (key, stringify value) ∷ stringify_members rest
