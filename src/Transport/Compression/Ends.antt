-- ===== src/Transport/Compression/Ends.antt =====
-- A compressor comes to an end with every message (src/transport/compression.rs).
use iscp_rs.Base.{ℕ, ◌≡◌, Option, none, some}
use iscp_rs.Errors.{ok}
use iscp_rs.Transport.Compression.{DictionaryBuffer}
use iscp_rs.Transport.Compression.Codec.{Flate2, with_dictionary}

module _ {C D : Type 0} (f : Flate2 C D) where
  -- The stream takes the dictionary, if there is a stream.
  abbrev pub Accepts : Option (ℕ × Option ℕ) → Option DictionaryBuffer → Type 0
  Accepts none d = Unit {0}
  Accepts (some (level, bits)) d =
      (s : C) × (with_dictionary f.deflate (f.new_compress level bits) d ≡ ok s)
