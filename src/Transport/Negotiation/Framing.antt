-- ===== src/Transport/Negotiation/Framing.antt =====
-- Reading the bytes of the negotiation back (src/transport/negotiation.rs).
use iscp_rs.Base.{
  ℕ, zero, suc, ◌+◌, ◌*◌, Option, none, some, List, [], ◌∷◌, ◌++◌, if◌then◌else◌, leb, length, take,
  drop,
}
use iscp_rs.Message.Types.{Bytes}
use iscp_rs.Transport.Negotiation.{u16_bytes}

-- A length in two bytes, the greater first, and that many bytes.
unfoldable pub read_field : Bytes → Option (Bytes × Bytes)
read_field (a ∷ b ∷ rest) =
    let n = a * 256 + b in if leb n (length rest) then some (take n rest, drop n rest) else none
read_field _ = none

-- Keys with their values, one pair for each unit of fuel, and no byte behind them.
unfoldable pub read_entries : ℕ → Bytes → Option (List (Bytes × Bytes))
read_entries zero [] = some []
read_entries zero (a ∷ rest) = none
read_entries (suc fuel) bytes = elim (read_field bytes) [
  | none ↦ none
  | some (k, rest) ↦ elim (read_field rest) [
    | none ↦ none
    | some (v, rest') ↦ elim (read_entries fuel rest') [
      | none ↦ none
      | some es ↦ some ((k, v) ∷ es)
    ]
  ]
]

abbrev framed : Bytes → Bytes
framed field = u16_bytes (length field) ++ field
