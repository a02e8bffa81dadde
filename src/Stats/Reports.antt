-- ===== src/Stats/Reports.antt =====
-- What the document of /stats says of the requests that have been answered.
use llm_proxy_study_project.Prelude.{
  ℕ, String, List, [], ◌∷◌, ◌≡◌, refl, ap, ◌∙◌, ◌==◌, eq_iff, if◌then◌else◌, arith, length,
}
use llm_proxy_study_project.Prelude.Int.{ℤ, pos}
use llm_proxy_study_project.Go.Decimal.{decimal}
use llm_proxy_study_project.Go.Json.{Json, Fields, null, num, obj, end, field}
use llm_proxy_study_project.Go.Json.Names.{text_leb_refl, place, counts}
use llm_proxy_study_project.Go.Http.{Request, Response, write_json}
use llm_proxy_study_project.Stats.{Stats, stats_handler}
use llm_proxy_study_project.Stats.Counting.{IsTally, count_of, with_status}

-- The value of a name; null if there is none.
unfoldable value_of : String → Fields → Json
value_of name end = null
value_of name (field k v fs) = if k == name then v else value_of name fs

-- The value that some names lead to.
unfoldable pub at_path : List String → Json → Json
unfolding value_of
at_path [] v = v
at_path (name ∷ names) (obj fs) = at_path names (value_of name fs)
at_path (_ ∷ _) _ = null

-- A number; zero for what is none.
unfoldable pub number_of : Json → ℤ
number_of (num n) = n
number_of _ = pos 0

value_of-place :
    (j k : String) (v : Json) (fs : Fields)
    → value_of j (place k v fs) ≡ (if k == j then v else value_of j fs)
unfolding value_of place
value_of-place j k v end = refl
value_of-place j k v (field i w fs) =
    ground (arith, eq_iff k j, eq_iff i j, eq_iff k i, text_leb_refl k, value_of-place j k v fs)

number_of-counts :
    (j : String) (m : List (String × ℤ)) → number_of (value_of j (counts m)) ≡ count_of j m
unfolding number_of value_of counts count_of
number_of-counts j [] = refl
number_of-counts j ((k, n) ∷ m) =
    ap number_of (value_of-place j k (num n) (counts m)) ∙ ground (arith, number_of-counts j m)

-- The document counts these responses.
pub record Reports (rs : List Response) (v : Json) : Type 0 where
  pub total : at_path ("requests" ∷ "total" ∷ []) v ≡ num (pos (length rs))
  pub by_status :
      (status : ℕ)
      → number_of (at_path ("requests" ∷ "by_status" ∷ decimal status ∷ []) v)
        ≡ pos (length (with_status status rs))

pub stats-Reports :
    {S : Type 0} (format_time : ℕ → String) (r : Request) (s : Stats) (rest : S)
    (rs : List Response)
    → IsTally rs s.counter
    → (v : Json) × ((stats_handler format_time r (s, rest)).0 ≡ write_json 200 v) × Reports rs v
unfolding stats_handler at_path value_of number_of
stats-Reports format_time r s rest rs tally = (
  _,
  refl,
  record {
    total = ap num tally.total;
    by_status =
        λ status. number_of-counts (decimal status) s.counter.by_status ∙ tally.by_status status;
  },
)
