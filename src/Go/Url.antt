-- ===== src/Go/Url.antt =====
-- net/url, for the URLs that the clients build: what http.NewRequest and the server read of the
-- part of a URL after its host. Texts are ASCII here. A path with an escape is routed by chi as it
-- is written; no client writes one.
pub mod Plain
use Prim.Native.Char.{Char, char, code, IsScalar}
use llm_proxy_study_project.Prelude.{
  ℕ, ◌+◌, ◌-◌, ◌*◌, ◌%◌, ◌<◌, String, ◌==◌, Option, none, some, Bool, true, false, ◌&&◌, ◌||◌, List,
  [], ◌∷◌, if◌then◌else◌, ltb, leb, eqb, arith, ◌≡◌, refl,
}

-- strings.Cut at a character: what is before it, and what is after it if it is there.
unfoldable pub cut : ℕ → String → String × Option String
cut c String.[] = ("", none)
cut c (String.◌∷◌ d s) =
    let (before, after) = cut c s in
    if eqb (code d) c then ("", some s) else (String.◌∷◌ d before, after)

-- strings.Split at a character
abbrev push : Char → List String → List String
push c [] = String.◌∷◌ c String.[] ∷ []
push c (s ∷ ss) = String.◌∷◌ c s ∷ ss

unfoldable pub split : ℕ → String → List String
split c String.[] = "" ∷ []
split c (String.◌∷◌ d s) = if eqb (code d) c then "" ∷ split c s else push d (split c s)

-- A byte below 0x20, or 0x7f.
unfoldable pub has_control : String → Bool
has_control String.[] = false
has_control (String.◌∷◌ c s) = (ltb (code c) 32 || eqb (code c) 127) || has_control s

-- The value of a hexadecimal digit.
abbrev hex : ℕ → Option ℕ
hex c =
    if leb b'0' c && leb c b'9'
    then some (c - b'0')
    else if leb b'a' c && leb c b'f'
    then some (c - b'a' + 10)
    else if leb b'A' c && leb c b'F'
    then some (c - b'A' + 10)
    else none

pub byte_IsScalar : (n : ℕ) → IsScalar (n % 256)
byte_IsScalar n = ground arith

abbrev byte_char : ℕ → Char
byte_char n = char (n % 256) (byte_IsScalar n)

abbrev prefix_char : Option Char → Option String → Option String
prefix_char (some c) (some s) = some (String.◌∷◌ c s)
prefix_char _ _ = none

abbrev hex_pair : Char → Char → Option Char
hex_pair c d = elim (hex (code c)) [
  | none ↦ none
  | some h ↦ elim (hex (code d)) [ none ↦ none | some l ↦ some (byte_char (h * 16 + l)) ]
]

abbrev plus : Bool → Char → Char
plus in_query c = if in_query && eqb (code c) b'+' then byte_char b' ' else c

-- url.QueryUnescape and url.PathUnescape; `none` is an invalid escape.
unfoldable pub unescape : Bool → String → Option String
unescape in_query String.[] = some String.[]
unescape in_query (String.◌∷◌ c String.[]) =
    if eqb (code c) b'%' then none else some (String.◌∷◌ (plus in_query c) String.[])
unescape in_query (String.◌∷◌ c (String.◌∷◌ d String.[])) =
    if eqb (code c) b'%'
    then none
    else prefix_char (some (plus in_query c)) (unescape in_query (String.◌∷◌ d String.[]))
unescape in_query (String.◌∷◌ c (String.◌∷◌ d (String.◌∷◌ e s))) =
    if eqb (code c) b'%'
    then prefix_char (hex_pair d e) (unescape in_query s)
    else prefix_char (some (plus in_query c)) (unescape in_query (String.◌∷◌ d (String.◌∷◌ e s)))

unfoldable pub has_code : ℕ → String → Bool
has_code c String.[] = false
has_code c (String.◌∷◌ d s) = eqb (code d) c || has_code c s

abbrev or_empty : Option String → String
or_empty none = ""
or_empty (some s) = s

abbrev pub setting_of : List (String × String) → String × Option String → List (String × String)
setting_of rest (name, value) = elim (unescape true name) [
  | none ↦ rest
  | some k ↦ elim (unescape true (or_empty value)) [ none ↦ rest | some v ↦ (k, v) ∷ rest ]
]

-- A setting of the query: one with a semicolon or with an invalid escape is left out.
abbrev setting : String → List (String × String) → List (String × String)
setting s rest = if has_code b';' s || s == "" then rest else setting_of rest (cut b'=' s)

-- url.ParseQuery
unfoldable pub settings : List String → List (String × String)
unfolding has_code cut unescape
settings [] = []
settings (s ∷ ss) = setting s (settings ss)

-- Values.Get
unfoldable pub get : List (String × String) → String → String
get [] name = ""
get ((k, v) ∷ rest) name = if k == name then v else get rest name

-- What a server reads of a URL.
pub record Target : Type 0 where
  pub path : List String
  pub query : String → String

-- The segments after the first slash.
abbrev segments : List String → List String
segments [] = []
segments (s ∷ ss) = ss

abbrev pub with_query : String × Option String → Option Target
with_query (path, query) = elim (unescape false path) [
  | none ↦ none
  | some _ ↦ some (record {
    path = segments (split b'/' path);
    query = get (settings (split b'&' (or_empty query)));
  })
]

abbrev pub with_fragment : String × Option String → Option Target
with_fragment (before, fragment) = elim (unescape false (or_empty fragment)) [
  | none ↦ none
  | some _ ↦ with_query (cut b'?' before)
]

-- url.Parse of a URL from its first slash on; `none` is its error.
unfoldable pub parse : String → Option Target
unfolding has_control cut split unescape settings get
parse s = if has_control s then none else with_fragment (cut b'#' s)

query_of : Option Target → String
query_of none = "?"
query_of (some t) = t.query "api_key"

test_plain : query_of (parse "/auth/validate?api_key=ab12") ≡ "ab12"
unfolding parse query_of
test_plain = refl

test_cut : query_of (parse "/auth/validate?api_key=a&b+%41") ≡ "a"
unfolding parse query_of
test_cut = refl

test_escape : query_of (parse "/auth/validate?api_key=a+%41b#c") ≡ "a Ab"
unfolding parse query_of
test_escape = refl
