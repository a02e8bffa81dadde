-- ===== src/Go/Url/Plain.antt =====
-- URLs that end in a plain text, as the keys and the ids of the program are: it is read as it was
-- written.
use Prim.Native.Char.{Char, code}
use text.Mathlib.TextLemmas.{nil-append, cons-append}
use llm_proxy_study_project.Prelude.{
  ℕ, String, ◌<>◌, ◌==◌, eq_iff, Option, none, some, Bool, true, false, ◌&&◌, ◌||◌, List, [], ◌∷◌,
  ◌≡◌, refl, sym, ap, ◌∙◌, if◌then◌else◌, leb, eqb, arith, Bool-cases, inl, inr,
}
use llm_proxy_study_project.Go.Url.{
  Target, cut, split, has_control, unescape, has_code, settings, get, parse, push, setting_of,
  segments, with_query, with_fragment,
}

-- A letter, a digit or a hyphen.
abbrev is_plain_code : ℕ → Bool
is_plain_code c =
    (leb b'0' c && leb c b'9')
    || (leb b'a' c && leb c b'z')
    || (leb b'A' c && leb c b'Z')
    || eqb c b'-'

unfoldable pub is_plain : String → Bool
is_plain String.[] = true
is_plain (String.◌∷◌ c s) = is_plain_code (code c) && is_plain s

abbrev pub IsPlain : String → Type 0
IsPlain s = is_plain s ≡ true

-- The characters that mean something in a URL.
abbrev is_mark : ℕ → Bool
is_mark c =
    eqb c b'#'
    || eqb c b'?'
    || eqb c b'/'
    || eqb c b'&'
    || eqb c b';'
    || eqb c b'%'
    || eqb c b'='
    || eqb c b'+'

plain-clean : (c : ℕ) (s : String) → is_mark c ≡ true → IsPlain s → has_code c s ≡ false
unfolding is_plain has_code
plain-clean c String.[] m h = refl
plain-clean c (String.◌∷◌ d s) m h = ground (arith, plain-clean c s m)

plain-control : (s : String) → IsPlain s → has_control s ≡ false
unfolding is_plain has_control
plain-control String.[] h = refl
plain-control (String.◌∷◌ d s) h = ground (arith, plain-control s)

has_code-append :
    (c : ℕ) (p s : String)
    → has_code c p ≡ false
    → has_code c s ≡ false
    → has_code c (p <> s) ≡ false
unfolding has_code
has_code-append c String.[] s h k = rw nil-append k
has_code-append c (String.◌∷◌ d p) s h k = rw cons-append (ground (arith, has_code-append c p s))

has_control-append :
    (p s : String) → has_control p ≡ false → has_control s ≡ false → has_control (p <> s) ≡ false
unfolding has_control
has_control-append String.[] s h k = rw nil-append k
has_control-append (String.◌∷◌ d p) s h k = rw cons-append (ground (arith, has_control-append p s))

cut-clean : (c : ℕ) (s : String) → has_code c s ≡ false → cut c s ≡ (s, none)
unfolding cut has_code
cut-clean c String.[] h = refl
cut-clean c (String.◌∷◌ d s) h = ground (arith, cut-clean c s)

cut-append :
    (c : ℕ) (p s a b : String) → cut c p ≡ (a, some b) → cut c (p <> s) ≡ (a, some (b <> s))
unfolding cut
cut-append c String.[] s a b h = absurd (ground arith)
cut-append c (String.◌∷◌ d p) s a b h = rw cons-append (elim (Bool-cases (eqb (code d) c)) [
  | inl here ↦ ground arith
  | inr later ↦ ground (arith, cut-append c p s (cut c p).0 b)
])

split-clean : (c : ℕ) (s : String) → has_code c s ≡ false → split c s ≡ s ∷ []
unfolding split has_code
split-clean c String.[] h = refl
split-clean c (String.◌∷◌ d s) h = ground (arith, split-clean c s)

-- A text put behind the last of some texts.
abbrev at_last : List String → String → List String
at_last [] s = s ∷ []
at_last (a ∷ []) s = (a <> s) ∷ []
at_last (a ∷ b ∷ rest) s = a ∷ at_last (b ∷ rest) s

push-at_last :
    (d : Char) (a : String) (rest : List String) (s : String)
    → push d (at_last (a ∷ rest) s) ≡ at_last (push d (a ∷ rest)) s
push-at_last d a [] s = ap (λ t. t ∷ []) (sym (cons-append d a s))
push-at_last d a (b ∷ rest) s = refl

split-cons : (c : ℕ) (p : String) → (a : String) × (rest : List String) × (split c p ≡ a ∷ rest)
unfolding split
split-cons c String.[] = ("", [], refl)
split-cons c (String.◌∷◌ d p) = elim (Bool-cases (eqb (code d) c)) [
  | inl here ↦ ("", split c p, rw here refl)
  | inr later ↦
      let (a, rest, e) = split-cons c p in (String.◌∷◌ d a, rest, rw later (ap (push d) e))
]

split-append :
    (c : ℕ) (p s : String) → has_code c s ≡ false → split c (p <> s) ≡ at_last (split c p) s
unfolding split
split-append c String.[] s h = rw nil-append (split-clean c s h)
split-append c (String.◌∷◌ d p) s h =
    let (a, rest, e) = split-cons c p in
    let ih : split c (p <> s) ≡ at_last (a ∷ rest) s =
      split-append c p s h ∙ ap (λ x. at_last x s) e in
    rw (cons-append, e, ih)
      (elim (Bool-cases (eqb (code d) c)) [
        | inl here ↦ rw here refl
        | inr later ↦ rw later (push-at_last d a rest s)
      ])

unescape-plain :
    (q : Bool) (s : String)
    → has_code b'%' s ≡ false
    → has_code b'+' s ≡ false
    → unescape q s ≡ some s
unfolding unescape has_code
unescape-plain q String.[] h k = refl
unescape-plain q (String.◌∷◌ c String.[]) h k = ground arith
unescape-plain q (String.◌∷◌ c (String.◌∷◌ d String.[])) h k =
    let rest = unescape-plain q (String.◌∷◌ d String.[]) in ground (arith, rest)
unescape-plain q (String.◌∷◌ c (String.◌∷◌ d (String.◌∷◌ e s))) h k =
    let rest = unescape-plain q (String.◌∷◌ d (String.◌∷◌ e s)) in ground (arith, rest)

not_empty : (s : String) → has_code b'=' s ≡ true → (s == "") ≡ false
unfolding has_code
not_empty s h = elim (Bool-cases (s == "")) [
  | inl empty ↦
      let e : s ≡ "" = (eq_iff s "").0 empty in
      let no_mark : has_code b'=' s ≡ false = rw e refl in absurd (ground (arith, no_mark))
  | inr other ↦ other
]

has_code-append_left : (c : ℕ) (p s : String) → has_code c p ≡ true → has_code c (p <> s) ≡ true
unfolding has_code
has_code-append_left c String.[] s h = cc
has_code-append_left c (String.◌∷◌ d p) s h =
    rw cons-append (ground (arith, has_code-append_left c p s))

-- A query of one setting with a plain value.
settings-plain :
    (s : String) → IsPlain s → settings (split b'&' ("api_key=" <> s)) ≡ ("api_key", s) ∷ []
unfolding settings has_code cut unescape
settings-plain s h =
    let whole = "api_key=" <> s in
    let one =
      split-clean b'&' whole (has_code-append b'&' "api_key=" s refl (plain-clean b'&' s refl h)) in
    let no_colon = has_code-append b';' "api_key=" s refl (plain-clean b';' s refl h) in
    let filled = not_empty whole (has_code-append_left b'=' "api_key=" s refl) in
    ap settings one
    ∙ ap (λ b. if b || whole == "" then [] else setting_of [] (cut b'=' whole)) no_colon
    ∙ ap (λ b. if b then [] else setting_of [] (cut b'=' whole)) filled
    ∙ ap (setting_of []) (cut-append b'=' "api_key=" s "api_key" "" refl)
    ∙ ap (λ t. setting_of [] ("api_key", some t)) (nil-append s)
    ∙ ap
        (λ (v : Option String). elim v as (λ _. List (String × String)) [
          | none ↦ []
          | some v ↦ ("api_key", v) ∷ []
        ])
        (unescape-plain true s (plain-clean b'%' s refl h) (plain-clean b'+' s refl h))

parse-clean :
    (p s : String)
    → has_control p ≡ false
    → has_code b'#' p ≡ false
    → IsPlain s
    → parse (p <> s) ≡ with_query (cut b'?' (p <> s))
unfolding parse
parse-clean p s control mark h =
    let url = p <> s in
    ap (λ b. if b then none else with_fragment (cut b'#' url))
      (has_control-append p s control (plain-control s h))
    ∙ ap with_fragment
        (cut-clean b'#' url (has_code-append b'#' p s mark (plain-clean b'#' s refl h)))

-- The URL of a validation, for a plain key.
pub parse_validation :
    (key : String)
    → IsPlain key
    → parse ("/auth/validate?api_key=" <> key)
      ≡ some (record { path = "auth" ∷ "validate" ∷ []; query = get (("api_key", key) ∷ []) })
unfolding has_code cut split unescape has_control
parse_validation key h =
    parse-clean "/auth/validate?api_key=" key refl refl h
    ∙ ap with_query (cut-append b'?' "/auth/validate?api_key=" key "/auth/validate" "api_key=" refl)
    ∙ ap (λ m. some (record { path = "auth" ∷ "validate" ∷ []; query = get m }))
        (settings-plain key h)

-- The URL of a balance, for a plain id.
pub parse_balance :
    (user : String)
    → IsPlain user
    → parse ("/billing/balance/" <> user)
      ≡ some (record { path = "billing" ∷ "balance" ∷ user ∷ []; query = get [] })
unfolding has_code cut split unescape has_control settings
parse_balance user h =
    let p : String = "/billing/balance/" in
    let url = p <> user in
    parse-clean p user refl refl h
    ∙ ap with_query
        (cut-clean b'?' url (has_code-append b'?' p user refl (plain-clean b'?' user refl h)))
    ∙ ap
        (λ (v : Option String). elim v as (λ _. Option Target) [
          | none ↦ none
          | some _ ↦ some (record { path = segments (split b'/' url); query = get [] })
        ])
        (unescape-plain false url (has_code-append b'%' p user refl (plain-clean b'%' user refl h))
          (has_code-append b'+' p user refl (plain-clean b'+' user refl h)))
    ∙ ap (λ ss. some (record { path = segments ss; query = get [] }))
        (split-append b'/' p user (plain-clean b'/' user refl h))
    ∙ ap (λ t. some (record { path = "billing" ∷ "balance" ∷ t ∷ []; query = get [] }))
        (nil-append user)
