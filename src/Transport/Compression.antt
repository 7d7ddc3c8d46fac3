-- ===== src/Transport/Compression.antt =====
-- src/transport/compression.rs: the settings of the compression and the dictionary that both ends
-- keep. A `usize` never wraps (lengths of buffers).
pub mod Dictionary
pub mod Codec
pub mod Loops
pub mod RoundTrip
pub mod Ends
pub mod Stored
mod Tests
use iscp_rs.Base.{
  ℕ, ◌+◌, ◌-◌, ◌*◌, ◌^◌, ◌≡◌, Bool, true, false, ◌&&◌, Option, none, some, List, [], ◌∷◌, ◌++◌,
  if◌then◌else◌, leb, length, drop, is_some,
}
use iscp_rs.Base.Int.{ℤ}
use iscp_rs.Message.Types.{Bytes}

pub record Compression : Type 0 where
  pub enabled : Bool
  pub level : Option ℤ
  pub window_bits : Option ℕ

abbrev pub new_compression : Compression
new_compression = record { enabled = false; level = none; window_bits = none }

unfoldable pub enable : Compression → ℤ → Compression
enable c level = record c { enabled = true; level = some level; window_bits = none }

unfoldable pub enable_with_window_bits : Compression → ℤ → ℕ → Compression
enable_with_window_bits c level window_bits = record c {
  enabled = true;
  level = some level;
  window_bits = some window_bits;
}

unfoldable pub disable : Compression → Compression
disable c = record c { enabled = false; level = none; window_bits = none }

unfoldable pub context_takeover : Compression → Bool
context_takeover c = is_some c.window_bits

pub record DictionaryBuffer : Type 0 where
  pub size : ℕ
  pub buf : Bytes

-- `none` is the panic of the `assert!`.
unfoldable pub new_dictionary : ℕ → Option DictionaryBuffer
new_dictionary window_bits =
    if leb 9 window_bits && leb window_bits 15
    then some (record { size = 2 * 2 ^ (window_bits - 1); buf = [] })
    else none

unfoldable pub push_msg : DictionaryBuffer → Bytes → DictionaryBuffer
push_msg d msg =
    let buf_len = length d.buf in
    let msg_len = length msg in
    let remaining = d.size - buf_len in
    if leb d.size msg_len
    then record d { buf = drop (msg_len - d.size) msg }
    else if leb msg_len remaining
    then record d { buf = d.buf ++ msg }
    else let joined = d.buf ++ msg in record d { buf = drop (length joined - d.size) joined }
