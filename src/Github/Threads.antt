-- ===== src/Github/Threads.antt =====
-- The review threads of internal/github/client.go: `GetReviewThreads` with its cursors, and the calls
-- that ask about one thread, reply to it and resolve it. What the GraphQL and REST APIs answer is in
-- `ThreadApi` and `ThreadService`, whose state is a `G`.
pub mod Laws
use copilot_review_mcp.Common.{
  ℕ, zero, suc, ℤ, Time, Bool, true, false, String, List, [], ◌∷◌, ◌++◌, Option, none, some, map,
  not, ◌||◌, is_positive, int_ltb, if◌then◌else◌,
}
use copilot_review_mcp.Errors.{GoError, Result, ok, err}

pub record ThreadComment : Type 0 where
  pub author : String
  pub body : String
  pub created_at : String

pub record ReviewThread : Type 0 where
  pub id : String
  pub is_resolved : Bool
  pub is_outdated : Bool
  pub path : String
  pub line : Option ℤ
  pub start_line : Option ℤ
  pub comments : List ThreadComment

-- `reviewThreadNode`.
pub record NodeComment : Type 0 where
  pub body : String
  pub created_at : Time
  pub author : String

pub record ReviewThreadNode : Type 0 where
  pub id : String
  pub is_resolved : Bool
  pub is_outdated : Bool
  pub path : String
  pub line : Option ℤ
  pub start_line : Option ℤ
  pub comments : List NodeComment

-- One answer of the query for the threads.
pub record ThreadsPage : Type 0 where
  pub nodes : List ReviewThreadNode
  pub has_next_page : Bool
  pub end_cursor : String

-- The query by its cursor, and the texts that fmt and time render.
pub record ThreadApi : Type 0 where
  pub query_threads : Option String → Result ThreadsPage
  pub rfc3339 : Time → String
  pub out_of_range : ℤ → GoError
  pub wrapped : String → GoError → GoError

abbrev pub comment_of : (Time → String) → NodeComment → ThreadComment
comment_of rfc3339 c = record {
  author = c.author;
  body = c.body;
  created_at = rfc3339 c.created_at;
}

abbrev pub thread_of : (Time → String) → ReviewThreadNode → ReviewThread
thread_of rfc3339 n = record {
  id = n.id;
  is_resolved = n.is_resolved;
  is_outdated = n.is_outdated;
  path = n.path;
  line = n.line;
  start_line = n.start_line;
  comments = map (comment_of rfc3339) n.comments;
}

-- The loop over the cursors with fuel; `none` means that the fuel ran out.
unfoldable pub all_nodes :
    ThreadApi → ℕ → Option String → List ReviewThreadNode → Option (Result (List ReviewThreadNode))
all_nodes api zero cursor nodes = none
all_nodes api (suc fuel) cursor nodes = elim (api.query_threads cursor) [
  | err e ↦ some (err (api.wrapped "graphql query failed: %w" e))
  | ok p ↦ elim p.has_next_page [
    | false ↦ some (ok (nodes ++ p.nodes))
    | true ↦ all_nodes api fuel (some p.end_cursor) (nodes ++ p.nodes)
  ]
]

-- `math.MaxInt32` is 2147483647.
abbrev pub in_int32 : ℤ → Bool
in_int32 pr = if is_positive pr then int_ltb pr 2147483648 else false

-- `GetReviewThreads`.
unfoldable pub get_review_threads : ThreadApi → ℕ → ℤ → Option (Result (List ReviewThread))
get_review_threads api fuel pr =
    if not (in_int32 pr)
    then some (err (api.out_of_range pr))
    else elim (all_nodes api fuel none []) [
      | none ↦ none
      | some (err e) ↦ some (err e)
      | some (ok nodes) ↦ some (ok (map (thread_of api.rfc3339) nodes))
    ]

-- What `threadMetadataQuery` reads: the pull request and the IDs of the first comments.
pub record ThreadMeta : Type 0 where
  pub owner : String
  pub repo : String
  pub number : ℤ
  pub comments : List ℤ

pub record Comment : Type 0 where
  pub id : ℤ
  pub created_at : Time

pub record ReplyResult : Type 0 where
  pub comment_id : String
  pub created_at : String

-- The two queries, the reply and the mutation.
pub record ThreadService (G : Type 0) : Type 0 where
  pub query_resolved : String → G → Result Bool
  pub query_meta : String → G → Result ThreadMeta
  pub create_reply : ThreadMeta → String → ℤ → G → Result Comment × G
  pub resolve : String → G → Result (Unit {0}) × G
  pub format_int : ℤ → String
  pub rfc3339 : Time → String
  pub wrapped : String → GoError → GoError
  pub no_comments : GoError

module _ {G : Type 0} (s : ThreadService G) where
  -- `IsThreadResolved`.
  unfoldable pub is_thread_resolved : String → G → Result Bool
  is_thread_resolved id g = elim (s.query_resolved id g) [
    | err e ↦ err (s.wrapped "graphql query failed: %w" e)
    | ok b ↦ ok b
  ]

  -- `ReplyToThread`.
  unfoldable pub reply_to_thread : String → String → G → Result ReplyResult × G
  reply_to_thread id body g = elim (s.query_meta id g) [
    | err e ↦ (err (s.wrapped "graphql query failed: %w" e), g)
    | ok meta ↦ elim meta.comments [
      | [] ↦ (err s.no_comments, g)
      | c ∷ cs ↦
          let (r, g') = s.create_reply meta body c g in
          elim r [
            | err e ↦ (err (s.wrapped "REST API reply failed: %w" e), g')
            | ok comment ↦ (
              ok (record {
                comment_id = s.format_int comment.id;
                created_at = s.rfc3339 comment.created_at;
              }),
              g',
            )
          ]
    ]
  ]

  -- `ResolveThread`: whether it was resolved before.
  unfoldable pub resolve_thread : String → G → Result Bool × G
  resolve_thread id g = elim (is_thread_resolved id g) [
    | err e ↦ (err e, g)
    | ok true ↦ (ok true, g)
    | ok false ↦
        let (r, g') = s.resolve id g in
        elim r [
          | err e ↦ (err (s.wrapped "graphql mutation failed: %w" e), g')
          | ok _ ↦ (ok false, g')
        ]
  ]
