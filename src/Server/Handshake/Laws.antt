-- ===== src/Server/Handshake/Laws.antt =====
-- Which requests the handler refuses, and that it hands on all others as they came.
use mathlib.Core.Path.{subst}
use copilot_review_mcp.Common.{
  ℕ, ◌+◌, ◌≤◌, Bool, List, [], ◌∷◌, Option, none, some, arith, ◌≡◌, ◌⊎◌, inl, inr, refl, sym, ap,
  ◌∙◌, ◌==◌, ◌||◌, string_eq, eq_iff, ltb, length, append-take, take-all, length-take, is_some,
  Bool-cases, Option-cases, if◌then◌else◌,
}
use copilot_review_mcp.Errors.{ok, Result-cases}
use copilot_review_mcp.Server.Handshake.{
  Bytes, Body, HttpRequest, Request, request, response, JsonEnv, ErrorResponse, handed_on, refused,
  json_null, read_all, peeked_body, hand_on, Found, json_rpc_messages, initialize_of, found_of,
  first_initialize, legacy_initialize_from_body, write_unsupported_protocol_version, reject_peeked,
  reject_legacy_initialize,
}

module _ {I : Type 0} (e : JsonEnv I) where
  -- A message that is a call of initialize.
  abbrev pub IsInitialize : Bytes → Request I → Type 0
  IsInitialize raw r = (e.decode_message raw ≡ ok (request r)) × (r.method ≡ "initialize")

-- The first call of initialize in a list of messages.
pub data IsFirst {I : Type 0} (e : JsonEnv I) : List Bytes → Request I → Type 0 where
  here :
      {raw : Bytes} {rest : List Bytes} {r : Request I}
      → IsInitialize e raw r
      → IsFirst e (raw ∷ rest) r
  there :
      {raw : Bytes} {rest : List Bytes} {r : Request I}
      → ((q : Request I) → ¬ IsInitialize e raw q)
      → IsFirst e rest r
      → IsFirst e (raw ∷ rest) r

module _ {I : Type 0} (e : JsonEnv I) where
  -- A POST with a body that can be read to its end and is not longer than the MCP library allows.
  abbrev pub IsReadable : HttpRequest → Body → Type 0
  IsReadable q b =
      (q.method ≡ "POST")
      × (q.body ≡ some b)
      × (b.failure ≡ none)
      × (length b.content ≤ e.max_body_bytes)

  -- A request whose body has a call of initialize, and the first one of them.
  abbrev pub HasInitialize : HttpRequest → Body → Request I → Type 0
  HasInitialize q b r = IsReadable q b × IsFirst e (json_rpc_messages e b.content).messages r

  -- The answer to such a call.
  abbrev pub IsRefusal : Bool → Request I → ErrorResponse → Type 0
  IsRefusal batched r a =
      (a.status ≡ 400)
      × (a.code ≡ e.unsupported_code)
      × (a.id ≡ (if batched then json_null else e.marshal_id r.id))
      × (a.requested ≡ e.protocol_version r.params)
      × (a.supported ≡ "2026-07-28" ∷ [])

  initialize_of-some :
      (raw : Bytes) (r : Request I) → initialize_of e raw ≡ some r → IsInitialize e raw r
  unfolding initialize_of
  initialize_of-some raw r h = elim (Result-cases (e.decode_message raw)) [
    | inl (x, q) ↦ ground arith
    | inr (response, q) ↦ ground arith
    | inr (request s, q) ↦ elim (Bool-cases (s.method == "initialize")) [
      | inr b ↦ ground arith
      | inl b ↦
          let same : s ≡ r = ground arith in
          subst (λ x. (e.decode_message raw ≡ ok (request x)) × (x.method ≡ "initialize")) same
            (q, (eq_iff s.method "initialize").0 b)
    ]
  ]

  initialize_of-none :
      (raw : Bytes) (r : Request I) → initialize_of e raw ≡ none → ¬ IsInitialize e raw r
  unfolding initialize_of
  initialize_of-none raw r h (d, k) = ground (arith, eq_iff r.method "initialize")

  first_initialize-none :
      (batched : Bool) (ms : List Bytes) (r : Request I)
      → first_initialize e batched ms ≡ none
      → ¬ IsFirst e ms r
  unfolding first_initialize
  first_initialize-none batched [] r h x = elim x [ ]
  first_initialize-none batched (raw ∷ ms) r h (IsFirst.here i) =
      elim (Option-cases (initialize_of e raw)) [
        | inl q ↦ initialize_of-none raw r q i
        | inr (s, q) ↦ ground arith
      ]
  first_initialize-none batched (raw ∷ ms) r h (IsFirst.there n f) =
      elim (Option-cases (initialize_of e raw)) [
        | inl q ↦ first_initialize-none batched ms r (ground arith) f
        | inr (s, q) ↦ ground arith
      ]

  first_initialize-some :
      (batched : Bool) (ms : List Bytes) (f : Found)
      → first_initialize e batched ms ≡ some f
      → (r : Request I) × IsFirst e ms r × (found_of e batched r ≡ f)
  unfolding first_initialize
  first_initialize-some batched [] f h = ground arith
  first_initialize-some batched (raw ∷ ms) f h = elim (Option-cases (initialize_of e raw)) [
    | inr (s, q) ↦ (s, here (initialize_of-some raw s q), ground arith)
    | inl q ↦
        let (r, i, k) = first_initialize-some batched ms f (ground arith) in
        (r, there (λ x. initialize_of-none raw x q) i, k)
  ]

  -- What is left after a read of at most n bytes is the body.
  peeked_body-read_all : (n : ℕ) (b : Body) → peeked_body (read_all n b) ≡ b
  unfolding read_all
  peeked_body-read_all n b =
      ap (λ (c : Bytes). let x : Body = record { content = c; failure = b.failure } in x)
        (append-take n b.content)

  -- A read that is neither cut short nor too long has the whole body.
  read_all-IsReadable :
      (n : ℕ) (b : Body)
      → (read_all (n + 1) b).failure ≡ none
      → length (read_all (n + 1) b).peeked ≤ n
      → (b.failure ≡ none) × (length b.content ≤ n) × ((read_all (n + 1) b).peeked ≡ b.content)
  unfolding read_all
  read_all-IsReadable n b f l = elim (Bool-cases (ltb (length b.content) (n + 1))) [
    | inl q ↦ (ground arith, ground arith, take-all (n + 1) b.content (ground arith))
    | inr q ↦ absurd (ground (arith, length-take (n + 1) b.content (ground arith)))
  ]

  IsReadable-read_all :
      (n : ℕ) (b : Body)
      → b.failure ≡ none
      → length b.content ≤ n
      → ((read_all (n + 1) b).failure ≡ none) × ((read_all (n + 1) b).peeked ≡ b.content)
  unfolding read_all
  IsReadable-read_all n b f l = (ground arith, take-all (n + 1) b.content (omega (arith, l)))

  -- What the handler does with a request.
  abbrev pub IsHandled : HttpRequest → Type 0
  IsHandled q =
      (((b : Body) (r : Request I) → ¬ HasInitialize q b r)
        × (reject_legacy_initialize e q ≡ handed_on q))
      ⊎ ((b : Body) × (r : Request I) × HasInitialize q b r
          × (a : ErrorResponse) × IsRefusal (json_rpc_messages e b.content).batched r a
          × (reject_legacy_initialize e q ≡ refused a))

  handed_on_whole :
      (q : HttpRequest) (b : Body)
      → q.body ≡ some b
      → hand_on q.method (read_all (e.max_body_bytes + 1) b) ≡ handed_on q
  handed_on_whole q b h =
      ap
        (λ (x : Option Body).
          handed_on (let y : HttpRequest = record { method = q.method; body = x } in y))
        (ap some (peeked_body-read_all (e.max_body_bytes + 1) b) ∙ sym h)

  refusal_lem :
      (batched : Bool) (r : Request I)
      → IsRefusal batched r (write_unsupported_protocol_version e (found_of e batched r))
  unfolding write_unsupported_protocol_version
  refusal_lem batched r = (refl, refl, refl, refl, refl)

  -- The body that is read is the one that the request has.
  body_read :
      (q : HttpRequest) (b c : Body)
      → q.body ≡ some b
      → IsReadable q c
      → (c ≡ b)
        × ((read_all (e.max_body_bytes + 1) b).failure ≡ none)
        × ((read_all (e.max_body_bytes + 1) b).peeked ≡ b.content)
        × (length b.content ≤ e.max_body_bytes)
  body_read q b c body (post, own, f, l) =
      let same : c ≡ b = ground arith in
      let l' : length b.content ≤ e.max_body_bytes =
        subst (λ x. length x.content ≤ e.max_body_bytes) same l in
      let (g, k) =
        IsReadable-read_all e.max_body_bytes b (subst (λ x. x.failure ≡ none) same f) l' in
      (same, g, k, l')

  peeked-IsHandled :
      (q : HttpRequest) (b : Body)
      → q.method ≡ "POST"
      → q.body ≡ some b
      → reject_legacy_initialize e q ≡ reject_peeked e q.method (read_all (e.max_body_bytes + 1) b)
      → IsHandled q
  unfolding legacy_initialize_from_body
  peeked-IsHandled q b post body step =
      let p = read_all (e.max_body_bytes + 1) b in
      elim (Bool-cases (is_some p.failure || ltb e.max_body_bytes (length p.peeked))) [
        | inl t ↦ inl (
          λ c r h.
              let (readable, first) = h in
              let (same, f, k, l) = body_read q b c body readable in
              ground (arith, ap (λ (x : Bytes). length x) k),
          step ∙ rw t (handed_on_whole q b body),
        )
        | inr t ↦
            let (f, l, k) = read_all-IsReadable e.max_body_bytes b (ground arith) (ground arith) in
            let m = json_rpc_messages e b.content in
            elim (Option-cases (first_initialize e m.batched m.messages)) [
              | inl n ↦ inl (
                λ c r h.
                    let (readable, first) = h in
                    let (same, g, j, i) = body_read q b c body readable in
                    first_initialize-none m.batched m.messages r n (
                      subst (λ x. IsFirst e (json_rpc_messages e x.content).messages r) same first),
                step ∙ rw (t, k, n) (handed_on_whole q b body),
              )
              | inr (x, n) ↦
                  let (r, first, same) = first_initialize-some m.batched m.messages x n in
                  inr (
                    b,
                    r,
                    ((post, body, f, l), first),
                    write_unsupported_protocol_version e (found_of e m.batched r),
                    refusal_lem m.batched r,
                    step ∙ rw (t, k, n, sym same) refl,
                  )
            ]
      ]

-- A request is refused if and only if it is a POST whose body can be read to its end, is not longer
-- than the MCP library allows, and has a call of initialize; the answer has status 400, the id of that
-- call, or null for a batch, the version that the first such call asks for and the one that is served.
-- Every other request is handed on as it came, with its whole body.
pub reject_legacy_initialize-IsHandled :
    {I : Type 0} (e : JsonEnv I) (q : HttpRequest) → IsHandled e q
unfolding reject_legacy_initialize
reject_legacy_initialize-IsHandled e q = elim (Bool-cases (q.method == "POST")) [
  | inr b ↦ inl (
    λ c r h. let (readable, first) = h in ground (arith, eq_iff q.method "POST", readable),
    rw b refl,
  )
  | inl b ↦ elim (Option-cases q.body) [
    | inl n ↦
        inl (λ c r h. let (readable, first) = h in ground (arith, readable), ground (arith, b, n))
    | inr (c, n) ↦ peeked-IsHandled e q c ((eq_iff q.method "POST").0 b) n (rw (b, n) refl)
  ]
]
