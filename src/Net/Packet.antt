-- ===== src/Net/Packet.antt =====
-- PacketProtocol.h, and the framing of ClientSession::Send: a packet is a big-endian length, a
-- big-endian identifier, and the payload. Bytes are numbers below 256. A buffer is the list of
-- its bytes; a write past its end is a fault of the program, `none`.
pub mod Framing
mod Tests
use mundus_vivens_game_serve.Common.{
  ℕ, zero, suc, ◌+◌, ◌*◌, ◌/◌, ◌%◌, ◌<◌, Bool, not, Option, none, some, List, [], ◌∷◌, length, set,
  take, replicate, ltb, leb, if◌then◌else◌,
}

abbrev pub cs_login : ℕ
cs_login = 0x0001

abbrev pub cs_player_move : ℕ
cs_player_move = 0x0002

abbrev pub cs_talk_to_npc : ℕ
cs_talk_to_npc = 0x0003

abbrev pub cs_player_message : ℕ
cs_player_message = 0x0004

abbrev pub cs_end_dialogue : ℕ
cs_end_dialogue = 0x0005

abbrev pub cs_get_agent_status : ℕ
cs_get_agent_status = 0x0008

abbrev pub cs_heartbeat : ℕ
cs_heartbeat = 0x00FF

abbrev pub sc_heartbeat_ack : ℕ
sc_heartbeat_ack = 0x10FF

abbrev pub header_size : ℕ
header_size = 4

abbrev pub max_packet_size : ℕ
max_packet_size = 65535

abbrev pub inline_capacity : ℕ
inline_capacity = 256

-- The shift makes room for the low byte, so the source's `|` of two bytes is this sum.
abbrev pub read_u16_be : ℕ → ℕ → ℕ
read_u16_be hi lo = (hi * 256 + lo) % 65536

abbrev pub write_u16_be : ℕ → List ℕ
write_u16_be val = (val / 256 % 256) ∷ (val % 256) ∷ []

-- `size` bytes of `memory` are meant for the wire.
pub record PacketBuffer : Type 0 where
  pub size : ℕ
  pub is_heap : Bool
  pub memory : List ℕ

infixl 5 ◌>>=◌
abbrev pub ◌>>=◌ {ℓ κ} : {A : Type ℓ} {B : Type κ} → Option A → (A → Option B) → Option B
none >>= f = none
some a >>= f = f a

-- Copies the bytes to `memory + offset`, one by one.
pub copy_to : List ℕ → ℕ → List ℕ → Option (List ℕ)
copy_to memory offset [] = some memory
copy_to memory offset (b ∷ bs) =
    let rest = copy_to (set memory offset b) (offset + 1) bs in
    if ltb offset (length memory) then rest else none

-- The memory that `Send` picks for a packet of that length, before anything is written.
pub fresh_memory : ℕ → List ℕ
fresh_memory total =
    replicate (if not (leb total inline_capacity) then total else inline_capacity) 0

-- The buffer that `Send` builds. The length is cast to `uint16_t`, and the memory is chosen by
-- the cast length: the inline array up to 256 bytes, else a heap array of that length.
pub build_packet : ℕ → List ℕ → Option PacketBuffer
build_packet packet_id payload = do
  let total_length = (header_size + length payload) % 65536
  let is_heap = not (leb total_length inline_capacity)
  m1 ← copy_to (fresh_memory total_length) 0 (write_u16_be total_length)
  m2 ← copy_to m1 2 (write_u16_be packet_id)
  m3 ← copy_to m2 header_size payload
  some (record { size = total_length; is_heap = is_heap; memory = m3 })

-- What `WriteLoop` hands to the socket.
abbrev pub wire : PacketBuffer → List ℕ
wire buf = take buf.size buf.memory
