-- ===== src/Stats/Counting.antt =====
-- What the counters say of the requests that were answered.
use llm_proxy_study_project.Prelude.{
  ℕ, suc, ◌+◌, ◌<◌, ◌≤◌, ◌^◌, String, List, [], ◌∷◌, ◌≡◌, refl, sym, ap, ◌∙◌, ◌==◌, eq_iff,
  if◌then◌else◌, Bool, true, false, eqb, arith, length, select, Bool-cases, inl, inr, subst,
  eq_refl, eqb_iff, ◌≢◌,
}
use llm_proxy_study_project.Prelude.Int.{ℤ, pos, ◌+ℤ◌}
use llm_proxy_study_project.Go.Int64.{add64, add64_of_IsInt64}
use llm_proxy_study_project.Go.Decimal.{decimal, decimal-injective}
use llm_proxy_study_project.Go.Http.{Request, Response, Handler}
use llm_proxy_study_project.Stats.{Counter, Stats, new_stats, bump, inc, middleware}

-- The count of a status; zero where the map has none.
unfoldable pub count_of : String → List (String × ℤ) → ℤ
count_of status [] = pos 0
count_of status ((k, n) ∷ m) = if k == status then n else count_of status m

count_of-bump :
    (j status : String) (m : List (String × ℤ))
    → count_of j (bump status m)
      ≡ (if status == j then add64 (count_of status m) (pos 1) else count_of j m)
unfolding count_of bump
count_of-bump j status [] = refl
count_of-bump j status ((k, n) ∷ m) =
    ground (arith, eq_iff k status, eq_iff k j, eq_iff status j, count_of-bump j status m)

add64_one : (n : ℕ) → suc n < 2 ^ 63 → add64 (pos n) (pos 1) ≡ pos (suc n)
unfolding ◌+ℤ◌
add64_one n h = add64_of_IsInt64 (pos n) (pos 1) (ground arith) ∙ ground arith

-- The responses with a given status.
abbrev pub with_status : ℕ → List Response → List Response
with_status status rs = select (λ (r : Response). eqb r.status status) rs

length-select-le : (p : Response → Bool) (rs : List Response) → length (select p rs) ≤ length rs
length-select-le p [] = omega arith
length-select-le p (r ∷ rs) = ground (arith, length-select-le p rs)

-- The counter has counted these responses.
pub record IsTally (rs : List Response) (c : Counter) : Type 0 where
  pub total : c.total ≡ pos (length rs)
  pub by_status :
      (status : ℕ) → count_of (decimal status) c.by_status ≡ pos (length (with_status status rs))

same_text : (a b : ℕ) → (decimal a == decimal b) ≡ eqb a b
same_text a b = elim (Bool-cases (eqb a b)) [
  | inl same ↦
      rw same (ap (λ n. decimal a == decimal n) (sym (equal a b same)) ∙ eq_refl (decimal a))
  | inr other ↦ rw other (not_true λ h. differ a b other (decimal-injective a b ((eq_iff _ _).0 h)))
]
  where
    equal : (a b : ℕ) → eqb a b ≡ true → a ≡ b
    equal a b h = ground arith

    differ : (a b : ℕ) → eqb a b ≡ false → a ≢ b
    differ a b h e = ground arith

    not_true : {b : Bool} → (b ≡ true → ⊥) → b ≡ false
    not_true {b = true} h = absurd (h refl)
    not_true {b = false} h = refl

inc-count :
    (status : ℕ) (r : Response) (rs : List Response) (m : List (String × ℤ))
    → suc (length rs) < 2 ^ 63
    → ((status : ℕ) → count_of (decimal status) m ≡ pos (length (with_status status rs)))
    → count_of (decimal status) (bump (decimal r.status) m)
      ≡ pos (length (with_status status (r ∷ rs)))
inc-count status r rs m room h =
    count_of-bump (decimal status) (decimal r.status) m ∙ elim (Bool-cases (eqb r.status status)) [
      | inl same ↦
          let e : r.status ≡ status = (eqb_iff r.status status).0 same in
          let counted : count_of (decimal r.status) m ≡ pos (length (with_status status rs)) =
            rw e (h status) in
          rw (same_text, same)
            (ap (λ n. add64 n (pos 1)) counted
              ∙ add64_one _
                  (omega (arith, length-select-le (λ (x : Response). eqb x.status status) rs)))
      | inr other ↦ rw (same_text, other) (h status)
    ]

inc-IsTally :
    (r : Response) (rs : List Response) (c : Counter)
    → suc (length rs) < 2 ^ 63
    → IsTally rs c
    → IsTally (r ∷ rs) (inc (decimal r.status) c)
unfolding inc
inc-IsTally r rs c room t = record {
  total = ap (λ n. add64 n (pos 1)) t.total ∙ add64_one (length rs) room;
  by_status = λ status. inc-count status r rs c.by_status room t.by_status;
}

-- A server answers requests one after the other; the latest response comes first.
module _ {S : Type 0} (next : Handler (Stats × S)) where
  unfoldable pub serve : List Request → List Response → Stats × S → List Response × (Stats × S)
  serve [] done s = (done, s)
  serve (r ∷ rs) done s = let (response, s') = middleware next r s in serve rs (response ∷ done) s'

  serve-IsTally :
      (rs : List Request) (done : List Response) (s : Stats × S)
      → ((r : Request) (t : Stats × S) → (next r t).1.0.counter ≡ t.0.counter)
      → length rs + length done < 2 ^ 63
      → IsTally done s.0.counter
      → let (responses, s') = serve rs done s in IsTally responses s'.0.counter
  unfolding serve middleware
  serve-IsTally [] done s keeps room t = t
  serve-IsTally (r ∷ rs) done s keeps room t =
      serve-IsTally rs ((next r s).0 ∷ done) (middleware next r s).1 keeps (omega arith) (
        inc-IsTally (next r s).0 done (next r s).1.0.counter (omega arith)
          (subst (IsTally done) (sym (keeps r s)) t))

  -- From the start of a service, as long as fewer than 2^63 requests have come and its handlers
  -- leave the counter alone, the total is the number of responses, and the count of each status is
  -- the number of responses with it.
  pub serve_counts :
      (rs : List Request) (service version : String) (now : ℕ) (state : S)
      → ((r : Request) (t : Stats × S) → (next r t).1.0.counter ≡ t.0.counter)
      → length rs < 2 ^ 63
      → let (responses, s') = serve rs [] (new_stats service version now, state) in
        IsTally responses s'.0.counter
  unfolding new_stats count_of
  serve_counts rs service version now state keeps room =
      serve-IsTally rs [] _ keeps (omega arith)
        (record { total = refl; by_status = λ status. refl })
