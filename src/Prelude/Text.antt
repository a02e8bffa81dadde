-- ===== src/Prelude/Text.antt =====
-- Go strings, held as texts (code points), and what package strings does with them.
use Prim.Native.Char.{Char, code}
use Prim.Native.String
use Prim.Native.String.{String}
use mathlib.Core.Path.{◌≡◌, refl, sym, ap, ◌∙◌}
use mathlib.Core.List.{List}
use mathlib.Core.Bool.{Bool, true, false, ◌||◌}
use mathlib.Core.Logic.{inl, inr}
use mathlib.Core.Option.{Option, none, some}
use native.Mathlib.Omega.{arith}
use text.Mathlib.Text.{◌==◌}
use text.Mathlib.TextEquality.{eq_iff}
use text.Mathlib.TextLemmas.{nil-append, cons-append}
use llm_proxy_study_project.Prelude.Tests.{eqb, if_eq_lem, Option-cases, if◌then◌else◌}

infixr 66 ◌<>◌
-- Concatenation of Go strings.
abbrev pub ◌<>◌ : String → String → String
s <> t = String.◌++◌ s t

-- What is left of the second text after the first, if it begins with that.
pub strip : String → String → Option String
strip String.[] s = some s
strip (String.◌∷◌ c p) String.[] = none
strip (String.◌∷◌ c p) (String.◌∷◌ d s) = if eqb (code c) (code d) then strip p s else none

-- strings.HasPrefix(s, p)
unfoldable pub has_prefix : String → String → Bool
unfolding strip
has_prefix s p = elim (strip p s) [ none ↦ false | some rest ↦ true ]

-- strings.TrimPrefix(s, p)
unfoldable pub trim_prefix : String → String → String
unfolding strip
trim_prefix s p = elim (strip p s) [ none ↦ s | some rest ↦ rest ]

-- strings.Contains(s, t)
unfoldable pub contains : String → String → Bool
unfolding has_prefix
contains String.[] t = has_prefix String.[] t
contains (String.◌∷◌ c s) t = has_prefix (String.◌∷◌ c s) t || contains s t

strip_self : (p s : String) → strip p (p <> s) ≡ some s
unfolding strip
strip_self String.[] s = rw nil-append refl
strip_self (String.◌∷◌ c p) s = rw cons-append (ground (arith, strip_self p s))

pub trim_prefix-append : (p s : String) → trim_prefix (p <> s) p ≡ s
unfolding trim_prefix
trim_prefix-append p s = rw (trim_prefix, strip_self p s) refl

pub has_prefix-append : (p s : String) → has_prefix (p <> s) p ≡ true
unfolding has_prefix
has_prefix-append p s = rw (has_prefix, strip_self p s) refl

strip-append : (p s e r : String) → strip p s ≡ some r → strip p (s <> e) ≡ some (r <> e)
unfolding strip
strip-append String.[] s e r h = cc
strip-append (String.◌∷◌ c p) String.[] e r h = cc
strip-append (String.◌∷◌ c p) (String.◌∷◌ d s) e r h =
    rw cons-append (ground (arith, strip-append p s e r))

has_prefix_append_right : (p s e : String) → has_prefix s p ≡ true → has_prefix (s <> e) p ≡ true
unfolding has_prefix
has_prefix_append_right p s e h = elim (Option-cases (strip p s)) [
  | inl missing ↦ cc (missing)
  | inr (r, found) ↦ rw (has_prefix, strip-append p s e r found) refl
]

begins_append :
    (c : Char) (s t e : String)
    → has_prefix (String.◌∷◌ c s) t ≡ true
    → has_prefix (String.◌∷◌ c (s <> e)) t ≡ true
begins_append c s t e h = rw cons-append at (has_prefix_append_right t (String.◌∷◌ c s) e h)

or_mono :
    {a b c d : Bool}
    → (a ≡ true → c ≡ true)
    → (b ≡ true → d ≡ true)
    → (a || b) ≡ true
    → (c || d) ≡ true
or_mono {a} {b} f g h = ground (arith, f, g)

contains-nil : (s : String) → contains s "" ≡ true
unfolding contains has_prefix strip
contains-nil String.[] = refl
contains-nil (String.◌∷◌ c s) = refl

-- A text contains whatever a beginning of it contains.
pub contains-append : (s t e : String) → contains s t ≡ true → contains (s <> e) t ≡ true
unfolding contains has_prefix strip
contains-append String.[] String.[] e h = contains-nil ("" <> e)
contains-append String.[] (String.◌∷◌ d t) e h = cc
contains-append (String.◌∷◌ c s) t e h =
    rw cons-append (or_mono (begins_append c s t e) (contains-append s t e) h)

test_trim : trim_prefix "Bearer k1" "Bearer " ≡ "k1"
unfolding trim_prefix
test_trim = refl

test_contains : contains "openai: unauthorized" "auth" ≡ true
unfolding contains
test_contains = refl

-- A test of one segment of a path, where the branch may use what the whole path is.
pub segment_lem {ℓ ℓ'} :
    {A : Type ℓ} (P : A → Type ℓ') (path : List String) (segment name : String)
    (rest : String → List String) {x y : A}
    → path ≡ rest segment
    → (path ≡ rest name → P x)
    → P y
    → P (if segment == name then x else y)
segment_lem P path segment name rest whole h k =
    if_eq_lem P (segment == name) (λ same. h (whole ∙ ap rest ((eq_iff segment name).0 same))) k

-- A text is not two texts that a test tells apart.
pub not_both {ℓ} : {A : Type ℓ} (text a b : String) → (a == b) ≡ false → text ≡ a → text ≡ b → A
not_both text a b differ is_a is_b =
    let same : (a == b) ≡ true = (eq_iff a b).1 (sym is_a ∙ is_b) in absurd (ground arith)
