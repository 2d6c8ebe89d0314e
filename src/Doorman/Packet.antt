-- ===== src/Doorman/Packet.antt =====
-- app/doorman_server.py: `_PacketReader`, which reads the body of a packet already received. A read
-- returns the value and the reader that it leaves.
pub mod Laws
use mc_admin.Base.{
  ℕ, zero, suc, ◌+◌, ◌*◌, ◌≡◌, none, some, ◌∷◌, take, drop, get_elem?, length, leb, ltb,
  if◌then◌else◌,
}
use mc_admin.Doorman.{Bytes, Result, ok, raised, protocol_error, ◌>>=◌}
use mc_admin.Doorman.Varint.{goes_on, add_group}

pub record PacketReader : Type 0 where
  pub payload : Bytes
  pub offset : ℕ

abbrev pub open_packet : Bytes → PacketReader
open_packet bytes = record { payload = bytes; offset = 0 }

abbrev pub advance : ℕ → PacketReader → PacketReader
advance n r = record r { offset = r.offset + n }

unfoldable pub next_byte : PacketReader → Result (ℕ × PacketReader)
next_byte r = elim (get_elem? r.payload r.offset) [
  | none ↦ raised protocol_error
  | some byte ↦ ok (byte, advance 1 r)
]

-- `left` rounds of the loop are left; position times seven is `shift`.
unfoldable pub varint_loop : ℕ → ℕ → ℕ → PacketReader → Result (ℕ × PacketReader)
unfolding next_byte add_group goes_on
varint_loop zero shift value r = raised protocol_error
varint_loop (suc left) shift value r = do
  (byte, after) ← next_byte r
  let sum = add_group value byte shift
  let more = varint_loop left (shift + 7) sum after
  if goes_on byte then more else ok (sum, after)

unfoldable pub varint : PacketReader → Result (ℕ × PacketReader)
unfolding varint_loop
varint r = varint_loop 5 0 0 r

-- The bytes of a string; the decoding, with replacements, never fails and is left to the caller.
unfoldable pub string : PacketReader → Result (Bytes × PacketReader)
string r = do
  (size, after) ← varint r
  if ltb 1024 size
      then raised protocol_error
      else if ltb (length after.payload) (after.offset + size)
      then raised protocol_error
      else ok (take size (drop after.offset after.payload), advance size after)

-- The first two bytes that are left, the higher one first.
unfoldable pub big_endian : Bytes → ℕ
big_endian (high ∷ (low ∷ rest)) = 256 * high + low
big_endian _ = 0

unfoldable pub unsigned_short : PacketReader → Result (ℕ × PacketReader)
unsigned_short r =
    if ltb (length r.payload) (r.offset + 2)
    then raised protocol_error
    else ok (big_endian (drop r.offset r.payload), advance 2 r)
