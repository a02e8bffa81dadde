-- ===== src/Go/Json/Names.antt =====
-- encoding/json of a map: the names in the order in which Go compares strings.
use Prim.Native.Char.{code}
use llm_proxy_study_project.Prelude.{
  String, List, [], ◌∷◌, Bool, true, false, ◌&&◌, ◌≡◌, refl, eqb, leb, if◌then◌else◌, arith,
}
use llm_proxy_study_project.Prelude.Int.{ℤ}
use llm_proxy_study_project.Go.Json.{Json, Fields, num, end, field}

-- The order of strings; that of their bytes in UTF-8 is that of the code points.
unfoldable pub text_leb : String → String → Bool
text_leb String.[] _ = true
text_leb (String.◌∷◌ _ _) String.[] = false
text_leb (String.◌∷◌ c s) (String.◌∷◌ d t) =
    if eqb (code c) (code d) then text_leb s t else leb (code c) (code d)

text_leb_total : (s t : String) → text_leb s t ≡ false → text_leb t s ≡ true
unfolding text_leb
text_leb_total String.[] String.[] h = ground (arith, h)
text_leb_total String.[] (String.◌∷◌ d t) h = ground (arith, h)
text_leb_total (String.◌∷◌ c s) String.[] h = refl
text_leb_total (String.◌∷◌ c s) (String.◌∷◌ d t) h = ground (arith, h, text_leb_total s t)

pub text_leb_refl : (s : String) → text_leb s s ≡ true
unfolding text_leb
text_leb_refl String.[] = refl
text_leb_refl (String.◌∷◌ c s) = ground (arith, text_leb_refl s)

-- A new name among those that are in order.
unfoldable pub place : String → Json → Fields → Fields
unfolding text_leb
place k v end = field k v end
place k v (field j w fs) =
    if text_leb k j then field k v (field j w fs) else field j w (place k v fs)

-- The numbers of a map[string]int64.
unfoldable pub counts : List (String × ℤ) → Fields
unfolding place
counts [] = end
counts ((k, n) ∷ m) = place k (num n) (counts m)

unfoldable pub precedes : String → Fields → Bool
unfolding text_leb
precedes k end = true
precedes k (field j _ _) = text_leb k j

-- The names come in order.
unfoldable pub in_order : Fields → Bool
unfolding precedes
in_order end = true
in_order (field k _ fs) = precedes k fs && in_order fs

precedes-place :
    (j k : String) (v : Json) (fs : Fields)
    → text_leb j k ≡ true
    → precedes j fs ≡ true
    → precedes j (place k v fs) ≡ true
unfolding precedes place
precedes-place j k v end below first = below
precedes-place j k v (field i w fs) below first = ground (arith, below, first)

pub in_order-place :
    (k : String) (v : Json) (fs : Fields) → in_order fs ≡ true → in_order (place k v fs) ≡ true
unfolding in_order place precedes
in_order-place k v end h = refl
in_order-place k v (field j w fs) h =
    ground (arith, h, text_leb_total k j, precedes-place j k v fs, in_order-place k v fs)

pub counts-in_order : (m : List (String × ℤ)) → in_order (counts m) ≡ true
unfolding counts in_order
counts-in_order [] = refl
counts-in_order ((k, n) ∷ m) = in_order-place k (num n) (counts m) (counts-in_order m)
