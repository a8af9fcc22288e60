-- ===== src/Net/Packet/Tests.antt =====
-- Packets built at concrete inputs.
use mundus_vivens_game_serve.Common.{ℕ, ◌≤◌, ◌<◌, ◌≡◌, refl, some, none, List, [], ◌∷◌, length}
use mundus_vivens_game_serve.Net.Packet.{PacketBuffer, build_packet, wire, copy_to}
use mundus_vivens_game_serve.Net.Packet.Framing.{packet_bytes, build_packet_cases}

abbrev two_bytes : List ℕ
two_bytes = 7 ∷ 9 ∷ []

-- The loop of the copy writes in place, and stops at the end of the memory.
copy_in_place : copy_to (0 ∷ 0 ∷ 0 ∷ []) 1 two_bytes ≡ some (0 ∷ 7 ∷ 9 ∷ [])
unfolding copy_to
copy_in_place = refl

copy_too_far : copy_to (0 ∷ 0 ∷ 0 ∷ []) 2 two_bytes ≡ none
unfolding copy_to
copy_too_far = refl

build_packet_cases_example :
    (length two_bytes ≤ 65531
      → (buf : PacketBuffer) × (build_packet 1 two_bytes ≡ some buf)
        × (wire buf ≡ packet_bytes 1 two_bytes))
    × (65531 < length two_bytes → build_packet 1 two_bytes ≡ none)
build_packet_cases_example = build_packet_cases 1 two_bytes
