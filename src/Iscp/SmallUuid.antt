-- ===== src/Iscp/SmallUuid.antt =====
-- Identifiers below 256 as bytes, fifteen zeros and the number: a `UuidLib` that computes.
use iscp_rs.Base.{ℕ, zero, suc, ◌≡◌, ap, Option, none, some, [], ◌∷◌}
use iscp_rs.Message.Types.{Bytes, Uuid}
use iscp_rs.Iscp.DownState.{UuidLib}

unfoldable pub pad : ℕ → Uuid → Bytes
pad zero u = u ∷ []
pad (suc n) u = 0 ∷ pad n u

unfoldable pub strip : ℕ → Bytes → Option Uuid
strip zero (u ∷ []) = some u
strip (suc n) (zero ∷ bytes) = strip n bytes
strip _ _ = none

pub pad-strip : (n : ℕ) (bytes : Bytes) (u : Uuid) → strip n bytes ≡ some u → pad n u ≡ bytes
unfolding pad strip
pad-strip zero [] u h = cc
pad-strip zero (a ∷ []) u h = cc
pad-strip zero (a ∷ b ∷ bytes) u h = cc
pad-strip (suc n) [] u h = cc
pad-strip (suc n) (zero ∷ bytes) u h = ap (◌∷◌ 0) (pad-strip n bytes u h)
pad-strip (suc n) (suc a ∷ bytes) u h = cc

unfoldable pub small : UuidLib
unfolding pad strip
small = record { from_slice = strip 15; into_bytes = pad 15; into-from = pad-strip 15 }
