-- ===== src/Transport/Negotiation.antt =====
-- src/transport/negotiation.rs: the parameters that a connection begins with, and their bytes. The bytes
-- of a text and the text of a number are parameters; serde writes a field under the name of its
-- attribute, in the order of the names, and leaves out one that is not there.
pub mod Framing
mod Tests
use iscp_rs.Base.{
  ℕ, ◌/◌, ◌%◌, String, Option, none, some, List, [], ◌∷◌, ◌++◌, if◌then◌else◌, ltb, length, u16_mod,
}
use iscp_rs.Base.Int.{ℤ, pos}
use iscp_rs.Errors.{Outcome, ok, err, panic, transport}
use iscp_rs.Message.Types.{Bytes}

pub data EncodingName : Type 0 where
  protobuf : EncodingName

pub data CompressionType : Type 0 where
  per_message : CompressionType
  context_takeover : CompressionType

pub record NegotiationParams : Type 0 where
  pub encoding_name : EncodingName
  pub compression_type : Option CompressionType
  pub compression_level : Option ℤ
  pub compression_window_bits : Option ℕ

pub record Texts : Type 0 where
  pub bytes_of : String → Bytes
  pub number : ℤ → String

abbrev pub encoding_text : EncodingName → String
encoding_text protobuf = "proto"

abbrev pub type_text : CompressionType → String
type_text per_message = "per-message"
type_text context_takeover = "context-takeover"

abbrev pub optional : String → Option String → List (String × String)
optional key none = []
optional key (some value) = (key, value) ∷ []

abbrev pub option_map : {A B : Type 0} → (A → B) → Option A → Option B
option_map f none = none
option_map f (some a) = some (f a)

-- `put_u16`.
abbrev pub u16_bytes : ℕ → Bytes
u16_bytes n = n / 256 ∷ n % 256 ∷ []

-- One key with its value.
unfoldable pub put_entry : Bytes × Bytes → Bytes → Outcome Bytes
put_entry (k, v) buf =
    if ltb (length k) u16_mod
    then if ltb (length v) u16_mod
      then ok (buf ++ ((u16_bytes (length k) ++ k) ++ (u16_bytes (length v) ++ v)))
      else err (transport "too long value for negotiation")
    else err (transport "too long key for negotiation")

unfoldable pub put_all : List (Bytes × Bytes) → Bytes → Outcome Bytes
put_all [] buf = ok buf
put_all (e ∷ es) buf = elim (put_entry e buf) [
  | ok buf' ↦ put_all es buf'
  | err x ↦ err x
  | panic ↦ panic
]

module _ (t : Texts) where
  -- `serde_json::to_value`, as its map is walked.
  unfoldable pub entries : NegotiationParams → List (String × String)
  entries p =
      optional "clevel" (option_map t.number p.compression_level)
      ++ optional "comp" (option_map type_text p.compression_type)
      ++ optional "cwinbits" (option_map (λ n. t.number (pos n)) p.compression_window_bits)
      ++ ("enc", encoding_text p.encoding_name) ∷ []

  unfoldable pub entry_bytes : List (String × String) → List (Bytes × Bytes)
  entry_bytes [] = []
  entry_bytes ((k, v) ∷ es) = (t.bytes_of k, t.bytes_of v) ∷ entry_bytes es

  unfoldable pub to_bytes : NegotiationParams → Outcome Bytes
  to_bytes p = put_all (entry_bytes (entries p)) []
