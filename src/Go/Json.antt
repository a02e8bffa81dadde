-- ===== src/Go/Json.antt =====
-- encoding/json, from the parsed value on: a document stands for its bytes, and `none` for bytes
-- that are no JSON. A number with an integer value is `num`; `real` is any other.
pub mod Names
use Prim.Native.Char.{code}
use llm_proxy_study_project.Prelude.{
  ℕ, ◌+◌, String, Option, none, some, Bool, true, false, ◌&&◌, ◌≡◌, refl, eqb, leb, if◌then◌else◌,
}
use llm_proxy_study_project.Prelude.Int.{ℤ, pos}
use llm_proxy_study_project.Go.Int64.{is_int64}

mutual
  pub data Json : Type 0 where
    null : Json
    bool : Bool → Json
    num : ℤ → Json
    real : String → Json
    str : String → Json
    arr : Items → Json
    obj : Fields → Json

  pub data Items : Type 0 where
    nil : Items
    cons : Json → Items → Items

  pub data Fields : Type 0 where
    end : Fields
    field : String → Json → Fields → Fields

abbrev pub Payload : Type 0
Payload = Option Json

-- A decoder of a Go type; `none` is an error.
abbrev pub Decoder : Type 0 → Type 0
Decoder A = Json → Option A

-- Names of fields are compared without regard to case: these are all code points that fold to an
-- ASCII letter.
fold : ℕ → ℕ
fold c =
    if leb b'A' c && leb c b'Z'
    then c + 32
    else if eqb c 0x17f
    then b's'
    else if eqb c 0x212a
    then b'k'
    else c

unfoldable pub same_name : String → String → Bool
unfolding fold
same_name String.[] String.[] = true
same_name (String.◌∷◌ c s) (String.◌∷◌ d t) = eqb (fold (code c)) (fold (code d)) && same_name s t
same_name _ _ = false

-- What a value does to a field that holds `old`: null leaves it as it is.
unfoldable pub assign_text : Json → String → Option String
assign_text (str s) old = some s
assign_text null old = some old
assign_text _ old = none

unfoldable pub assign_int : Json → ℤ → Option ℤ
assign_int (num n) old = if is_int64 n then some n else none
assign_int null old = some old
assign_int _ old = none

module _ {A : Type 0} (assign : Json → A → Option A) where
  abbrev update : Json → Option A → Option A
  update v none = none
  update v (some old) = assign v old

  -- The fields of an object are read in order, so the last of a name wins.
  unfoldable pub read_field : String → Option A → Fields → Option A
  read_field name acc end = acc
  read_field name acc (field key v rest) =
      read_field name (if same_name key name then update v acc else acc) rest

infixl 5 ◌>>=◌
abbrev pub ◌>>=◌ : {A B : Type 0} → Option A → (A → Option B) → Option B
none >>= f = none
some a >>= f = f a

-- A struct is read from an object; null leaves it zero.
unfoldable pub fields_of : Json → Option Fields
fields_of (obj fs) = some fs
fields_of null = some end
fields_of _ = none

unfoldable pub text_field : String → Fields → Option String
unfolding read_field same_name assign_text
text_field name fs = read_field assign_text name (some "") fs

unfoldable pub int_field : String → Fields → Option ℤ
unfolding read_field same_name assign_int
int_field name fs = read_field assign_int name (some (pos 0)) fs

test_case :
    text_field "content" (field "Content" (str "hi") (field "role" (str "user") end)) ≡ some "hi"
unfolding text_field
test_case = refl
