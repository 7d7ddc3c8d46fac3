-- ===== src/Transport/Compression/Tests.antt =====
-- The dictionary, and a compressor with its extractor, at concrete messages.
use iscp_rs.Base.{◌≡◌, ◌≤◌, refl, some, List, [], ◌∷◌, length}
use iscp_rs.Base.Int.{pos}
use iscp_rs.Message.Types.{Bytes}
use iscp_rs.Transport.Compression.{
  Compression, new_dictionary, enable_with_window_bits, new_compression,
}
use iscp_rs.Transport.Compression.Codec.{Compressor, Extractor}
use iscp_rs.Transport.Compression.Dictionary.{push_all, concat, last_bytes, push_all_lem}

push_all_lem_example :
    ((push_all (record { size = 512; buf = [] }) ((1 ∷ 2 ∷ []) ∷ (3 ∷ []) ∷ [])).buf
      ≡ last_bytes 512 (concat ((1 ∷ 2 ∷ []) ∷ (3 ∷ []) ∷ [])))
    × (length (push_all (record { size = 512; buf = [] }) ((1 ∷ 2 ∷ []) ∷ (3 ∷ []) ∷ [])).buf ≤ 512)
unfolding new_dictionary
push_all_lem_example =
    push_all_lem 9 (record { size = 512; buf = [] }) ((1 ∷ 2 ∷ []) ∷ (3 ∷ []) ∷ []) refl

-- Window bits 9, and two messages, the first of them twice as long as the second.
abbrev settings : Compression
unfolding enable_with_window_bits
settings = enable_with_window_bits new_compression (pos 6) 9

abbrev ends : Compressor × Extractor
ends = (
  record {
    stream = some (6, some 9);
    capacity = 0;
    buffer_increment_size = 128;
    dictionary = some (record { size = 512; buf = [] });
  },
  record {
    stream = some (some 9);
    capacity = 0;
    buffer_increment_size = 128;
    dictionary = some (record { size = 512; buf = [] });
  },
)

abbrev messages : List Bytes
messages = (1 ∷ 2 ∷ []) ∷ (3 ∷ []) ∷ []

-- What the messages are compressed to.
abbrev outs : List Bytes
outs = (0 ∷ 1 ∷ 2 ∷ []) ∷ (0 ∷ 3 ∷ []) ∷ []
