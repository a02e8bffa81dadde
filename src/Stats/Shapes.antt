-- ===== src/Stats/Shapes.antt =====
-- The shape of what /stats answers.
use llm_proxy_study_project.Prelude.{
  ℕ, String, List, [], ◌∷◌, ◌≡◌, refl, ap, Bool, true, ◌&&◌, arith,
}
use llm_proxy_study_project.Prelude.Int.{ℤ}
use llm_proxy_study_project.Go.Json.{Json, Fields, num, obj, end, field}
use llm_proxy_study_project.Go.Json.Names.{place, counts, counts-in_order}
use llm_proxy_study_project.Go.Http.{Request}
use llm_proxy_study_project.Go.Shape.{
  IsTyped, fine, stats_shape, HasShape, has_shape, all_values, whole, map_of,
}
use llm_proxy_study_project.Stats.{Stats, stats_handler}

all_values-place :
    (p : Json → Bool) (k : String) (v : Json) (fs : Fields)
    → p v ≡ true
    → all_values p fs ≡ true
    → all_values p (place k v fs) ≡ true
unfolding all_values place
all_values-place p k v end good h = ground (arith, good)
all_values-place p k v (field j w fs) good h = ground (arith, good, h, all_values-place p k v fs)

all_counts : (m : List (String × ℤ)) → all_values (has_shape whole) (counts m) ≡ true
unfolding counts has_shape all_values
all_counts [] = refl
all_counts ((k, n) ∷ m) =
    all_values-place (has_shape whole) k (num n) (counts m) refl (all_counts m)

counts-HasShape : (m : List (String × ℤ)) → HasShape (map_of whole) (obj (counts m))
unfolding has_shape
counts-HasShape m = ground (arith, counts-in_order m, all_counts m)

pub stats-IsTyped :
    {S : Type 0} (format_time : ℕ → String) (r : Request) (s : Stats × S)
    → IsTyped 200 stats_shape (stats_handler format_time r s).0
unfolding stats_handler has_shape all_values
stats-IsTyped format_time r (st, s) =
    fine (ap (λ b. (b && true) && true) (counts-HasShape st.counter.by_status))
