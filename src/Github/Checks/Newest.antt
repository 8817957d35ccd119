-- ===== src/Github/Checks/Newest.antt =====
-- The map of the latest runs that GetCIStatus builds: the newest run of each check.
use mathlib.Core.Path.{subst}
use copilot_review_mcp.Common.{
  ℤ, String, List, [], ◌∷◌, Option, none, some, arith, ◌≡◌, ◌≢◌, ◌⊎◌, ◌≤◌, ◌==◌, inl, inr, refl,
  sym, ap, ◌∙◌, string_eq, eq_iff, All, Any, range_over, ltb, Bool-cases, Option-cases,
  if◌then◌else◌,
}
use copilot_review_mcp.Common.Map.{Map, lookup, insert, lookup-insert, NoDup, insert-NoDup}
use copilot_review_mcp.Github.Checks.{CheckRun, run_key, take_run}

-- The map at one key, as the loop goes on.
abbrev pub take_key : (ℤ → String) → String → CheckRun → Option CheckRun → Option CheckRun
take_key f k r o =
    if run_key f r == k
    then (elim o [ none ↦ some r | some e ↦ if ltb e.id r.id then some r else some e ])
    else o

lookup-take_run :
    (f : ℤ → String) (k : String) (r : CheckRun) (m : Map String CheckRun)
    → lookup k (take_run f r m) ≡ take_key f k r (lookup k m)
unfolding take_run
lookup-take_run f k r m = elim (Option-cases (lookup (run_key f r) m)) [
  | inl e ↦ ground (arith, lookup-insert (run_key f r) k r m, eq_iff (run_key f r) k)
  | inr (s, e) ↦ ground (arith, lookup-insert (run_key f r) k r m, eq_iff (run_key f r) k)
]

pub lookup-take_runs :
    (f : ℤ → String) (k : String) (rs : List CheckRun) (m : Map String CheckRun)
    → lookup k (range_over (take_run f) rs m) ≡ range_over (take_key f k) rs (lookup k m)
lookup-take_runs f k [] m = refl
lookup-take_runs f k (r ∷ rs) m =
    lookup-take_runs f k rs (take_run f r m)
    ∙ ap (range_over (take_key f k) rs) (lookup-take_run f k r m)

-- A newest run of a key, or none where the key has no run.
abbrev pub IsNewest : (ℤ → String) → List CheckRun → String → Option CheckRun → Type 0
IsNewest f rs k none = All (λ r. run_key f r ≢ k) rs
IsNewest f rs k (some n) =
    Any (λ r. (run_key f r ≡ k) × (r ≡ n)) rs × All (λ r. run_key f r ≡ k → r.id ≤ n.id) rs

keeps_newest :
    (f : ℤ → String) (k : String) (rs : List CheckRun) (l : CheckRun)
    → (m : CheckRun) × (range_over (take_key f k) rs (some l) ≡ some m)
      × (l.id ≤ m.id)
      × All (λ r. run_key f r ≡ k → r.id ≤ m.id) rs
      × ((m ≡ l) ⊎ Any (λ r. (run_key f r ≡ k) × (r ≡ m)) rs)
keeps_newest f k [] l = (l, refl, omega arith, tt, inl refl)
keeps_newest f k (r ∷ rs) l = elim (Bool-cases (run_key f r == k)) [
  | inr b ↦
      let (m, e, t, a, o) = keeps_newest f k rs l in
      let same : take_key f k r (some l) ≡ some l = ground arith in
      (
        m,
        ap (range_over (take_key f k) rs) same ∙ e,
        t,
        (λ c. ground (arith, eq_iff (run_key f r) k), a),
        ground arith,
      )
  | inl b ↦ elim (Bool-cases (ltb l.id r.id)) [
    | inl c ↦
        let (m, e, t, a, o) = keeps_newest f k rs r in
        let same : take_key f k r (some l) ≡ some r = ground arith in
        let own : run_key f r ≡ k = ground (arith, eq_iff (run_key f r) k) in
        (
          m,
          ap (range_over (take_key f k) rs) same ∙ e,
          ground arith,
          (λ x. ground arith, a),
          inr (elim o [ inl w ↦ inl (own, sym w) | inr w ↦ inr w ]),
        )
    | inr c ↦
        let (m, e, t, a, o) = keeps_newest f k rs l in
        let same : take_key f k r (some l) ≡ some l = ground arith in
        (m, ap (range_over (take_key f k) rs) same ∙ e, t, (λ x. ground arith, a), ground arith)
  ]
]

IsNewest-cons :
    (f : ℤ → String) (k : String) (r : CheckRun) (rs : List CheckRun) (o : Option CheckRun)
    → run_key f r ≢ k
    → IsNewest f rs k o
    → IsNewest f (r ∷ rs) k o
IsNewest-cons f k r rs none b h = (b, h)
IsNewest-cons f k r rs (some l) b h = (inr h.0, (λ c. absurd (b c), h.1))

pub finds-IsNewest :
    (f : ℤ → String) (k : String) (rs : List CheckRun)
    → IsNewest f rs k (range_over (take_key f k) rs none)
finds-IsNewest f k [] = tt
finds-IsNewest f k (r ∷ rs) = elim (Bool-cases (run_key f r == k)) [
  | inr b ↦
      let same : take_key f k r none ≡ none = ground arith in
      let other : run_key f r ≢ k = ground (arith, eq_iff (run_key f r) k) in
      subst (IsNewest f (r ∷ rs) k) (sym (ap (range_over (take_key f k) rs) same))
        (IsNewest-cons f k r rs (range_over (take_key f k) rs none) other (finds-IsNewest f k rs))
  | inl b ↦
      let (m, e, t, a, o) = keeps_newest f k rs r in
      let same : take_key f k r none ≡ some r = ground arith in
      let own : run_key f r ≡ k = ground (arith, eq_iff (run_key f r) k) in
      subst (IsNewest f (r ∷ rs) k) (sym (ap (range_over (take_key f k) rs) same ∙ e))
        (elim o [ inl w ↦ inl (own, sym w) | inr w ↦ inr w ], (λ c. t, a))
]

-- No key stands twice in the map of the latest runs.
take_run-NoDup :
    (f : ℤ → String) (r : CheckRun) (m : Map String CheckRun) → NoDup m → NoDup (take_run f r m)
unfolding take_run
take_run-NoDup f r m h = elim (Option-cases (lookup (run_key f r) m)) [
  | inl e ↦
      let same : take_run f r m ≡ insert (run_key f r) r m = ground arith in
      subst NoDup (sym same) (insert-NoDup (run_key f r) r m h)
  | inr (s, e) ↦ elim (Bool-cases (ltb s.id r.id)) [
    | inl b ↦
        let same : take_run f r m ≡ insert (run_key f r) r m = ground arith in
        subst NoDup (sym same) (insert-NoDup (run_key f r) r m h)
    | inr b ↦ let same : take_run f r m ≡ m = ground arith in subst NoDup (sym same) h
  ]
]

pub take_runs-NoDup :
    (f : ℤ → String) (rs : List CheckRun) (m : Map String CheckRun)
    → NoDup m
    → NoDup (range_over (take_run f) rs m)
take_runs-NoDup f [] m h = h
take_runs-NoDup f (r ∷ rs) m h = take_runs-NoDup f rs (take_run f r m) (take_run-NoDup f r m h)
