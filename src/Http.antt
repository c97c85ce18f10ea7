-- ===== src/Http.antt =====
-- The requests that src/api_client.rs sends, and what the model takes as given of the data-api, of
-- reqwest and of serde: a `Host` answers each request from a state of its own, and decodes bodies. A
-- URL is kept as its parts, behind the base URL that all requests share.
use chronicle_worker.Prelude.{ℕ, String, Option, List}
use chronicle_worker.Prelude.Int.{ℤ}
use chronicle_worker.Ids.{Uuid, SessionId, PseudoId, Seq}

pub data Method : Type 0 where
  get post patch delete : Method

-- "{base_url}/internal/…"
pub data Endpoint : Type 0 where
  auth : Endpoint
  heartbeat : Endpoint
  sessions_by_status : String → Endpoint
  session : SessionId → Endpoint
  participants : SessionId → Endpoint
  chunks : SessionId → PseudoId → Endpoint
  chunk : SessionId → PseudoId → Seq → Endpoint
  resources : SessionId → String → Endpoint
  resource : String → Uuid → Endpoint

pub data Payload (Row : Type 0) : Type 0 where
  empty : Payload Row
  credentials : String → String → Payload Row
  status : String → Payload Row
  rows : String → List Row → Payload Row

pub record Request (Row : Type 0) : Type 0 where
  pub method : Method
  pub endpoint : Endpoint
  pub bearer : Option String
  pub payload : Payload Row

-- A wire error with its text, or a response.
pub data Reply (Body : Type 0) : Type 0 where
  failed : String → Reply Body
  response : ℕ → Body → Reply Body

-- What a decoder makes of a body, or the text of its error.
pub data Parsed (A : Type 0) : Type 0 where
  parsed : A → Parsed A
  broken : String → Parsed A

pub record SessionSummary : Type 0 where
  pub id : Uuid
  pub status : String

-- `started_at` in milliseconds since the epoch.
pub record SessionDetail : Type 0 where
  pub id : Uuid
  pub status : String
  pub started_at : Option ℤ

pub record Participant : Type 0 where
  pub id : Uuid
  pub pseudo_id : Option String
  pub consent_scope : Option String

-- `capture_started_at` in milliseconds since the epoch.
pub record ChunkInfo : Type 0 where
  pub seq : ℕ
  pub capture_started_at : Option ℤ

-- What list_resource_ids looks at of a serde_json::Value: an object with its entry "items".
pub data Shape (Value : Type 0) : Type 0 where
  array : Shape Value
  object : Option Value → Shape Value
  other : Shape Value

pub record Host (Row : Type 0) : Type 1 where
  pub World : Type 0
  pub Body : Type 0
  pub Value : Type 0
  pub send : Request Row → World → Reply Body × World
  pub text : Body → String
  pub bytes : Body → Parsed (List ℕ)
  pub show : ℕ → String
  pub json_token : Body → Parsed String
  pub json_sessions : Body → Parsed (List SessionSummary)
  pub json_session : Body → Parsed SessionDetail
  pub json_participants : Body → Parsed (List Participant)
  pub json_chunks : Body → Parsed (List ChunkInfo)
  pub json_value : Body → Parsed Value
  pub shape : Value → Shape Value
  pub rows_of : Value → Parsed (List Uuid)
  pub empty_array : Value
