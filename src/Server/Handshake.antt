-- ===== src/Server/Handshake.antt =====
-- internal/tools/legacy_handshake.go: the handler that refuses the initialize handshake. A text of a
-- body is its list of bytes; `JsonEnv` has what the JSON packages and the MCP library compute. An
-- `I` is a raw id of JSON-RPC.
pub mod Laws
use copilot_review_mcp.Common.{
  ℕ, ℤ, suc, ◌+◌, Bool, true, false, String, List, [], ◌∷◌, ◌++◌, Option, none, some, ◌==◌, ◌||◌,
  string_eq, nat_beq, ltb, length, take, drop, is_some, not, if◌then◌else◌,
}
use copilot_review_mcp.Errors.{GoError, Result, ok, err}

abbrev pub Bytes : Type 0
Bytes = List ℕ

-- A reader: the bytes that it gives, and the error that it then ends with, none for EOF.
pub record Body : Type 0 where
  pub content : Bytes
  pub failure : Option GoError

pub record HttpRequest : Type 0 where
  pub method : String
  pub body : Option Body

-- A *jsonrpc.Request.
pub record Request (I : Type 0) : Type 0 where
  pub id : I
  pub method : String
  pub params : Bytes

-- What `jsonrpc.DecodeMessage` returns: a request, or a response.
pub data Message (I : Type 0) : Type 0 where
  request : Request I → Message I
  response : Message I

-- `protocol_version` is the field protocolVersion of parameters, empty where they do not decode.
-- `max_body_bytes` and `unsupported_code` are constants of the MCP library.
pub record JsonEnv (I : Type 0) : Type 0 where
  pub decode_message : Bytes → Result (Message I)
  pub unmarshal_batch : Bytes → Result (List Bytes)
  pub protocol_version : Bytes → String
  pub marshal_id : I → Bytes
  pub max_body_bytes : ℕ
  pub unsupported_code : ℤ
  pub with_version : String → String

-- `jsonRPCErrorResponse` with its status and its content type; `supported` and `requested` are its data.
pub record ErrorResponse : Type 0 where
  pub status : ℕ
  pub content_type : String
  pub id : Bytes
  pub code : ℤ
  pub message : String
  pub supported : List String
  pub requested : String

-- What the handler does with a request: it is handed on, or answered with an error.
pub data Handled : Type 0 where
  handed_on : HttpRequest → Handled
  refused : ErrorResponse → Handled

abbrev pub protocol_version20260728 : String
protocol_version20260728 = "2026-07-28"

abbrev pub json_null : Bytes
json_null = b'n' ∷ b'u' ∷ b'l' ∷ b'l' ∷ []

-- A space, a tab, a carriage return or a newline.
abbrev pub is_blank : ℕ → Bool
is_blank c = nat_beq c 32 || nat_beq c 9 || nat_beq c 13 || nat_beq c 10

-- `bytes.TrimLeft` with the blanks.
unfoldable pub trim_left : Bytes → Bytes
trim_left [] = []
trim_left (c ∷ cs) = let rest = trim_left cs in if is_blank c then rest else c ∷ cs

-- `io.ReadAll` of `io.LimitReader`: what was read, its error, and the reader that is left.
pub record Peek : Type 0 where
  pub peeked : Bytes
  pub failure : Option GoError
  pub original : Body

unfoldable pub read_all : ℕ → Body → Peek
read_all n b =
    let rest : Body = record { content = drop n b.content; failure = b.failure } in
    record {
      peeked = take n b.content;
      failure = if ltb (length b.content) n then b.failure else none;
      original = rest;
    }

-- The body of an `io.MultiReader` of the bytes read and of the reader that is left.
abbrev pub peeked_body : Peek → Body
peeked_body p = record { content = p.peeked ++ p.original.content; failure = p.original.failure }

abbrev pub hand_on : String → Peek → Handled
hand_on method p = handed_on (record { method = method; body = some (peeked_body p) })

-- The messages of a body, and whether they are batched.
pub record Messages : Type 0 where
  pub messages : List Bytes
  pub batched : Bool

-- What `legacyInitializeFromBody` finds.
pub record Found : Type 0 where
  pub id : Bytes
  pub requested : String

module _ {I : Type 0} (e : JsonEnv I) where
  abbrev pub batch_of : Bytes → List Bytes
  batch_of text = elim (e.unmarshal_batch text) [ err x ↦ [] | ok ms ↦ ms ]

  -- `jsonRPCMessages`, on a trimmed body.
  abbrev pub split_messages : Bytes → Messages
  split_messages [] = record { messages = []; batched = false }
  split_messages (c ∷ cs) =
      if nat_beq c b'['
      then record { messages = batch_of (c ∷ cs); batched = true }
      else record { messages = (c ∷ cs) ∷ []; batched = false }

  -- `jsonRPCMessages`.
  unfoldable pub json_rpc_messages : Bytes → Messages
  json_rpc_messages body = split_messages (trim_left body)

  -- The request that a message is, if it is an initialize call.
  unfoldable pub initialize_of : Bytes → Option (Request I)
  initialize_of raw = elim (e.decode_message raw) [
    | err x ↦ none
    | ok response ↦ none
    | ok (request r) ↦ if r.method == "initialize" then some r else none
  ]

  abbrev pub found_of : Bool → Request I → Found
  found_of batched r = record {
    id = if batched then json_null else e.marshal_id r.id;
    requested = e.protocol_version r.params;
  }

  -- The loop of `legacyInitializeFromBody`.
  unfoldable pub first_initialize : Bool → List Bytes → Option Found
  first_initialize batched [] = none
  first_initialize batched (raw ∷ rest) =
      let later = first_initialize batched rest in
      elim (initialize_of raw) [ none ↦ later | some r ↦ some (found_of batched r) ]

  -- `legacyInitializeFromBody`.
  unfoldable pub legacy_initialize_from_body : Bytes → Option Found
  legacy_initialize_from_body body =
      let m = json_rpc_messages body in first_initialize m.batched m.messages

  -- `writeUnsupportedProtocolVersion`.
  unfoldable pub write_unsupported_protocol_version : Found → ErrorResponse
  write_unsupported_protocol_version f = record {
    status = 400;
    content_type = "application/json";
    id = f.id;
    code = e.unsupported_code;
    message =
        if not (f.requested == "")
        then e.with_version f.requested
        else "unsupported protocol version";
    supported = protocol_version20260728 ∷ [];
    requested = f.requested;
  }

  -- The part of `rejectLegacyInitialize` from the read of the body on.
  abbrev pub reject_peeked : String → Peek → Handled
  reject_peeked method p =
      if is_some p.failure || ltb e.max_body_bytes (length p.peeked)
      then hand_on method p
      else elim (legacy_initialize_from_body p.peeked) [
        | none ↦ hand_on method p
        | some f ↦ refused (write_unsupported_protocol_version f)
      ]

  -- `rejectLegacyInitialize`.
  unfoldable pub reject_legacy_initialize : HttpRequest → Handled
  reject_legacy_initialize r = if not (r.method == "POST") then handed_on r else elim r.body [
    | none ↦ handed_on r
    | some b ↦ reject_peeked r.method (read_all (e.max_body_bytes + 1) b)
  ]
