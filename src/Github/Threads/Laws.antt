-- ===== src/Github/Threads/Laws.antt =====
-- What `GetReviewThreads` gathers, that its loop ends, and that resolving a thread a second time does
-- nothing.
use copilot_review_mcp.Common.{
  ℕ, zero, suc, ℤ, Bool, true, false, String, List, [], ◌∷◌, ◌++◌, Option, none, some, arith, ◌≡◌,
  ◌<◌, inl, inr, refl, sym, ap, ◌∙◌, map, Bool-cases, Option-cases,
}
use copilot_review_mcp.Errors.{Result, ok, err, Result-cases}
use copilot_review_mcp.Github.Threads.{
  ReviewThread, ReviewThreadNode, ThreadsPage, ThreadApi, thread_of, all_nodes, in_int32,
  get_review_threads, ThreadService, is_thread_resolved, resolve_thread,
}

-- The nodes of the pages from a cursor on, each page asked for with the end cursor of the one before.
pub data GathersNodes (api : ThreadApi) : Option String → List ReviewThreadNode → Type 0 where
  last :
      (cursor : Option String) (p : ThreadsPage)
      → api.query_threads cursor ≡ ok p
      → p.has_next_page ≡ false
      → GathersNodes api cursor p.nodes
  more :
      (cursor : Option String) (p : ThreadsPage) (rest : List ReviewThreadNode)
      → api.query_threads cursor ≡ ok p
      → p.has_next_page ≡ true
      → GathersNodes api (some p.end_cursor) rest
      → GathersNodes api cursor (p.nodes ++ rest)

append_assoc : {A : Type 0} (xs ys zs : List A) → (xs ++ ys) ++ zs ≡ xs ++ (ys ++ zs)
append_assoc [] ys zs = refl
append_assoc (x ∷ xs) ys zs = ap (λ rest. x ∷ rest) (append_assoc xs ys zs)

all_nodes-Gathers :
    (api : ThreadApi) (fuel : ℕ) (cursor : Option String) (nodes all : List ReviewThreadNode)
    → all_nodes api fuel cursor nodes ≡ some (ok all)
    → (rest : List ReviewThreadNode) × GathersNodes api cursor rest × (all ≡ nodes ++ rest)
unfolding all_nodes
all_nodes-Gathers api zero cursor nodes all h = cc
all_nodes-Gathers api (suc fuel) cursor nodes all h =
    elim (Result-cases (api.query_threads cursor)) [
      | inl (e, q) ↦ ground arith
      | inr (p, q) ↦ elim (Bool-cases p.has_next_page) [
        | inr b ↦
            let same : nodes ++ p.nodes ≡ all = ground arith in
            (p.nodes, last cursor p q b, sym same)
        | inl b ↦
            let (rest, g, e) =
              all_nodes-Gathers api fuel (some p.end_cursor) (nodes ++ p.nodes) all
                (ground arith) in
            (p.nodes ++ rest, more cursor p rest q b g, e ∙ append_assoc nodes p.nodes rest)
      ]
    ]

-- What GetReviewThreads returns without an error: the number of the pull request is a positive 32-bit
-- int, and the threads are those of all pages, in order, each one converted.
pub get_review_threads-gathers :
    (api : ThreadApi) (fuel : ℕ) (pr : ℤ) (ts : List ReviewThread)
    → get_review_threads api fuel pr ≡ some (ok ts)
    → (in_int32 pr ≡ true)
      × ((nodes : List ReviewThreadNode) × GathersNodes api none nodes
          × (ts ≡ map (thread_of api.rfc3339) nodes))
unfolding get_review_threads
get_review_threads-gathers api fuel pr ts h = elim (Bool-cases (in_int32 pr)) [
  | inr b ↦ ground arith
  | inl b ↦ elim (Option-cases (all_nodes api fuel none [])) [
    | inl q ↦ ground arith
    | inr (err e, q) ↦ ground arith
    | inr (ok all, q) ↦
        let (rest, g, e) = all_nodes-Gathers api fuel none [] all q in
        let same : map (thread_of api.rfc3339) all ≡ ts = ground arith in
        (b, (rest, g, sym same ∙ ap (map (thread_of api.rfc3339)) e))
  ]
]

-- Every page that has a next one leads to a cursor of a lower rank.
abbrev pub Descends : ThreadApi → (Option String → ℕ) → Type 0
Descends api rank =
    (cursor : Option String) (p : ThreadsPage)
    → api.query_threads cursor ≡ ok p
    → p.has_next_page ≡ true
    → rank (some p.end_cursor) < rank cursor

all_nodes_total :
    (api : ThreadApi) (rank : Option String → ℕ) (fuel : ℕ) (cursor : Option String)
    (nodes : List ReviewThreadNode)
    → Descends api rank
    → rank cursor < fuel
    → (r : Result (List ReviewThreadNode)) × (all_nodes api fuel cursor nodes ≡ some r)
unfolding all_nodes
all_nodes_total api rank zero cursor nodes d h = absurd (omega arith)
all_nodes_total api rank (suc fuel) cursor nodes d h =
    elim (Result-cases (api.query_threads cursor)) [
      | inl (e, q) ↦ (err (api.wrapped "graphql query failed: %w" e), ground arith)
      | inr (p, q) ↦ elim (Bool-cases p.has_next_page) [
        | inr b ↦ (ok (nodes ++ p.nodes), ground arith)
        | inl b ↦
            let k = d cursor p q b in
            let (r, e) =
              all_nodes_total api rank fuel (some p.end_cursor) (nodes ++ p.nodes) d
                (omega arith) in
            (r, ground arith)
      ]
    ]

-- If every page that has a next one leads to a cursor of a lower rank, then fuel above the rank of the
-- first query is enough: GetReviewThreads returns threads or an error.
pub get_review_threads_total :
    (api : ThreadApi) (rank : Option String → ℕ) (pr : ℤ)
    → Descends api rank
    → (r : Result (List ReviewThread)) × (get_review_threads api (suc (rank none)) pr ≡ some r)
unfolding get_review_threads
get_review_threads_total api rank pr d =
    let (r, q) = all_nodes_total api rank (suc (rank none)) none [] d (omega arith) in
    elim (Bool-cases (in_int32 pr)) [
      | inr b ↦ (err (api.out_of_range pr), ground arith)
      | inl b ↦ elim (Result-cases r) [
        | inl (e, x) ↦ (err e, ground arith)
        | inr (all, x) ↦ (ok (map (thread_of api.rfc3339) all), ground arith)
      ]
    ]

-- The mutation does what it says: a thread that it has resolved is resolved when asked again.
abbrev pub Resolves : {G : Type 0} → ThreadService G → Type 0
Resolves {G} s =
    (id : String) (g g' : G) (u : Unit {0})
    → s.resolve id g ≡ (ok u, g')
    → s.query_resolved id g' ≡ ok true

-- If the mutation resolves threads, then after a call of ResolveThread that succeeded the thread is
-- resolved.
pub resolve_thread-Resolves :
    {G : Type 0} (s : ThreadService G) (id : String) (g g' : G) (b : Bool)
    → Resolves s
    → resolve_thread s id g ≡ (ok b, g')
    → s.query_resolved id g' ≡ ok true
unfolding resolve_thread is_thread_resolved
resolve_thread-Resolves s id g g' b law h = elim (Result-cases (s.query_resolved id g)) [
  | inl (e, q) ↦ ground arith
  | inr (true, q) ↦ ground arith
  | inr (false, q) ↦ elim (Result-cases (s.resolve id g).0) [
    | inl (e, x) ↦ ground arith
    | inr (u, x) ↦ let same : (s.resolve id g).1 ≡ g' = ground arith in law id g g' u (ground arith)
  ]
]

-- If the mutation resolves threads, then ResolveThread is idempotent: after a call that succeeded,
-- whether or not the thread was resolved before, a second call reports it as already resolved and
-- changes nothing.
pub resolve_thread_twice :
    {G : Type 0} (s : ThreadService G) (id : String) (g g' : G) (b : Bool)
    → Resolves s
    → resolve_thread s id g ≡ (ok b, g')
    → resolve_thread s id g' ≡ (ok true, g')
unfolding resolve_thread is_thread_resolved
resolve_thread_twice s id g g' b law h =
    let k = resolve_thread-Resolves s id g g' b law h in ground arith
