-- ===== src/Ids.antt =====
-- src/ids.rs and what the worker reads of the identifiers: a UUID is a number, a pseudo id an opaque
-- text, a sequence number a u32.
use Prim.Native.String.{◌++◌}
use chronicle_worker.Prelude.{ℕ, String}

abbrev pub Uuid : Type 0
Uuid = ℕ

-- A newtype over a UUID; `new`, `from` and `as_uuid` are identities.
abbrev pub SessionId : Type 0
SessionId = Uuid

abbrev pub PseudoId : Type 0
PseudoId = String

-- The numbers below 2 ^ 32.
abbrev pub Seq : Type 0
Seq = ℕ

-- The triple that identifies one chunk.
pub record ChunkId : Type 0 where
  pub session : SessionId
  pub pseudo : PseudoId
  pub seq : Seq

abbrev pub new_chunk_id : SessionId → PseudoId → Seq → ChunkId
new_chunk_id session pseudo seq = record { session = session; pseudo = pseudo; seq = seq }

-- The texts of the identifiers, by Display and by Debug, from those of UUIDs and of numbers.
module _ (uuid_text : Uuid → String) (number_text : ℕ → String) where
  abbrev pub display_session_id : SessionId → String
  display_session_id session = uuid_text session

  abbrev pub debug_session_id : SessionId → String
  debug_session_id session = "SessionId(" ++ (uuid_text session ++ ")")

  abbrev pub display_pseudo_id : PseudoId → String
  display_pseudo_id pseudo = pseudo

  abbrev pub debug_pseudo_id : PseudoId → String
  debug_pseudo_id pseudo = "PseudoId(" ++ (pseudo ++ ")")

  abbrev pub display_seq : Seq → String
  display_seq seq = number_text seq

  abbrev pub debug_seq : Seq → String
  debug_seq seq = "Seq(" ++ (number_text seq ++ ")")

  abbrev pub display_chunk_id : ChunkId → String
  display_chunk_id chunk =
      display_session_id chunk.session
      ++ ("/" ++ (display_pseudo_id chunk.pseudo ++ ("/" ++ display_seq chunk.seq)))
