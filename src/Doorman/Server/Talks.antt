-- ===== src/Doorman/Server/Talks.antt =====
-- app/doorman_server.py: the conversations with a client that speaks the protocol.
use mc_admin.Base.{
  ℕ, ◌+◌, ◌-◌, ◌<◌, ◌≤◌, ◌≡◌, ◌⊎◌, inl, inr, refl, ap, ◌∙◌, arith, Text, true, [], ◌∷◌, ◌++◌,
  length, length-append, List,
}
use mc_admin.Doorman.{Bytes, Result, ok}
use mc_admin.Doorman.Varint.{encode_varint}
use mc_admin.Doorman.Varint.Laws.{encode_varint-IsVarint, encode_varint-nonempty}
use mc_admin.Doorman.Packet.{PacketReader, open_packet, varint, advance}
use mc_admin.Doorman.Packet.Laws.{varint-encode, string-encode, unsigned_short_lem}
use mc_admin.Doorman.Wire.{Socket, Talk, send_packet, send_all}
use mc_admin.Doorman.Wire.Laws.{left_with, read_packet-encode}
use mc_admin.Doorman.Server.{
  status_payload, chat_json, is_ping, tell_status, refuse_login, answer, converse, handle_client,
  caught, with_id,
}
use mc_admin.Doorman.Server.Laws.{packet}
use mathlib.Core.List.{append_assoc}
use Prim.Native.Nat.{◌^◌}

-- What a client opens a conversation with: its protocol, the address and the port that it called,
-- and what it wants.
pub record Hello : Type 0 where
  pub client_protocol : ℕ
  pub address : Bytes
  pub high_byte : ℕ
  pub low_byte : ℕ
  pub next_state : ℕ

-- The fields in turn, each with those after it.
abbrev from_port : Hello → Bytes
from_port h = h.high_byte ∷ (h.low_byte ∷ (encode_varint h.next_state ++ []))

abbrev from_address : Hello → Bytes
from_address h = encode_varint (length h.address) ++ (h.address ++ from_port h)

unfoldable pub hello_bytes : Hello → Bytes
hello_bytes h = encode_varint 0 ++ (encode_varint h.client_protocol ++ from_address h)

abbrev pub IsHello : Hello → Type 0
IsHello h = (h.client_protocol < 2 ^ 35) × (length h.address ≤ 1024) × (h.next_state < 2 ^ 35)

five : (v : ℕ) → v < 2 ^ 35 → length (encode_varint v) ≤ 5
five v h = (encode_varint-IsVarint 4 v).1.1 (omega arith)

hello_size :
    (h : Hello) → IsHello h → (0 < length (hello_bytes h)) × (length (hello_bytes h) ≤ 32768)
unfolding hello_bytes
hello_size h (p, a, n) =
    let front =
      length-append (encode_varint 0) (encode_varint h.client_protocol ++ from_address h) in
    (
      omega (arith, encode_varint-nonempty 0, front),
      omega (
        arith,
        front,
        length-append (encode_varint h.client_protocol) (from_address h),
        length-append (encode_varint (length h.address)) (h.address ++ from_port h),
        length-append h.address (from_port h),
        length-append (encode_varint h.next_state) [],
        five 0 (omega arith),
        five h.client_protocol p,
        five (length h.address) (omega arith),
        five h.next_state n,
      ),
    )

-- The first packet is read back whole, and decides how the doorman answers.
converse-hello :
    (motd kick : Text) (h : Hello) (rest : Bytes) (s : Socket)
    → IsHello h
    → s.incoming ≡ packet (hello_bytes h) ++ rest
    → (cuts : List ℕ) × (converse motd kick s
        ≡ answer motd kick h.client_protocol h.next_state (left_with s rest cuts))
unfolding converse packet hello_bytes
converse-hello motd kick h rest s (p, a, n) e =
    let size = hello_size h (p, a, n) in
    let (cuts, first) =
      read_packet-encode (hello_bytes h) rest s size.0 size.1
        (e ∙ append_assoc (encode_varint (length (hello_bytes h))) (hello_bytes h) rest) in
    let r0 : PacketReader = open_packet (hello_bytes h) in
    let opening = varint-encode 0 r0 _ (omega arith) refl in
    let r1 : PacketReader = advance (length (encode_varint 0)) r0 in
    let protocol = varint-encode h.client_protocol r1 _ p opening.1 in
    let r2 : PacketReader = advance (length (encode_varint h.client_protocol)) r1 in
    let text = string-encode h.address r2 _ a protocol.1 in
    let r3 : PacketReader =
      advance (length (encode_varint (length h.address)) + length h.address) r2 in
    let port = unsigned_short_lem h.high_byte h.low_byte r3 _ text.1 in
    let wish = varint-encode h.next_state (advance 2 r3) [] n port.1 in
    (cuts, rw (first, opening.0, protocol.0, text.0, port.0, wish.0) refl)

abbrev after_packet : Bytes → Socket → Socket
after_packet payload s = record s {
  room = s.room - length (packet payload);
  outgoing = s.outgoing ++ packet payload;
}

send_packet_lem :
    (payload : Bytes) (s : Socket)
    → length (packet payload) ≤ s.room
    → send_packet payload s ≡ (ok tt, after_packet payload s)
unfolding send_packet send_all packet
send_packet_lem payload s h = ground arith

answer_refuses :
    (motd kick : Text) (client_protocol next_state : ℕ)
    → (next_state ≡ 2) ⊎ (next_state ≡ 3)
    → answer motd kick client_protocol next_state ≡ refuse_login kick
unfolding answer
answer_refuses motd kick client_protocol next_state (inl two) = rw two refl
answer_refuses motd kick client_protocol next_state (inr three) = rw three refl

refuse_login_lem :
    (kick : Text) (body : Bytes) (s : Socket)
    → chat_json kick ≡ ok body
    → refuse_login kick s ≡ send_packet (0 ∷ body) s
unfolding refuse_login with_id
refuse_login_lem kick body s text = rw text refl

-- A client that wants to play is told why it cannot, and then the socket is closed, for every cut of
-- its bytes and whatever it sends after them; it must take the whole answer.
pub handle_client-hello :
    (motd kick : Text) (h : Hello) (body rest : Bytes) (s : Socket)
    → IsHello h
    → (h.next_state ≡ 2) ⊎ (h.next_state ≡ 3)
    → s.incoming ≡ packet (hello_bytes h) ++ rest
    → chat_json kick ≡ ok body
    → length (packet (0 ∷ body)) ≤ s.room
    → ((handle_client motd kick s).0 ≡ ok tt)
      × ((handle_client motd kick s).1.is_closed ≡ true)
      × ((handle_client motd kick s).1.outgoing ≡ s.outgoing ++ packet (0 ∷ body))
unfolding handle_client caught
handle_client-hello motd kick h body rest s hh wants e text room =
    let (cuts, talk) = converse-hello motd kick h rest s hh e in
    let refused : converse motd kick s ≡ (ok tt, after_packet (0 ∷ body) (left_with s rest cuts)) =
      talk
      ∙ ap (λ (m : Talk Unit). m (left_with s rest cuts))
          (answer_refuses motd kick h.client_protocol h.next_state wants)
      ∙ refuse_login_lem kick body (left_with s rest cuts) text
      ∙ send_packet_lem (0 ∷ body) (left_with s rest cuts) room in
    (
      ap (λ (r : Result Unit × Socket). caught r.0) refused,
      refl,
      ap (λ (r : Result Unit × Socket). r.1.outgoing) refused,
    )

zero_opens : varint (open_packet (0 ∷ [])) ≡ ok (0, advance 1 (open_packet (0 ∷ [])))
unfolding varint
zero_opens = refl

is_ping_size : (ping : Bytes) → is_ping ping ≡ true → (0 < length ping) × (length ping ≤ 32768)
unfolding is_ping
is_ping_size [] h = ground arith
is_ping_size (b ∷ bs) h = ground arith

tell_status_lem :
    (motd : Text) (client_protocol : ℕ) (body ping rest : Bytes) (s : Socket)
    → s.incoming ≡ packet (0 ∷ []) ++ (packet ping ++ rest)
    → status_payload motd client_protocol ≡ ok body
    → is_ping ping ≡ true
    → length (packet body) + length (packet ping) ≤ s.room
    → ((tell_status motd client_protocol s).0 ≡ ok tt)
      × ((tell_status motd client_protocol s).1.outgoing
          ≡ s.outgoing ++ (packet body ++ packet ping))
unfolding tell_status packet
tell_status_lem motd client_protocol body ping rest s e text is_one room =
    let size = is_ping_size ping is_one in
    let (cuts, request) =
      read_packet-encode (0 ∷ []) (packet ping ++ rest) s (omega arith) (omega arith)
        (e ∙ append_assoc (encode_varint 1) (0 ∷ []) (packet ping ++ rest)) in
    let middle = left_with s (packet ping ++ rest) cuts in
    let sent = send_packet_lem body middle (omega (arith, room)) in
    let after : Socket = after_packet body middle in
    let (last_cuts, echo) =
      read_packet-encode ping rest after size.0 size.1
        (append_assoc (encode_varint (length ping)) ping rest) in
    let back = send_packet_lem ping (left_with after rest last_cuts) (omega (arith, room)) in
    let done : tell_status motd client_protocol s
        ≡ (ok tt, after_packet ping (left_with after rest last_cuts)) =
      rw (request, zero_opens, text, sent, echo, is_one, back) refl in
    (
      ap (λ (r : Result Unit × Socket). r.0) done,
      ap (λ (r : Result Unit × Socket). r.1.outgoing) done
          ∙ append_assoc s.outgoing (packet body) (packet ping),
    )

-- A client that asks for the status and pings is sent the status and then its own ping, and then
-- the socket is closed, for every cut of its bytes; it must take the whole answer.
pub handle_client-ping :
    (motd kick : Text) (h : Hello) (body ping rest : Bytes) (s : Socket)
    → IsHello h
    → h.next_state ≡ 1
    → s.incoming ≡ packet (hello_bytes h) ++ (packet (0 ∷ []) ++ (packet ping ++ rest))
    → status_payload motd h.client_protocol ≡ ok body
    → is_ping ping ≡ true
    → length (packet body) + length (packet ping) ≤ s.room
    → ((handle_client motd kick s).0 ≡ ok tt)
      × ((handle_client motd kick s).1.is_closed ≡ true)
      × ((handle_client motd kick s).1.outgoing ≡ s.outgoing ++ (packet body ++ packet ping))
unfolding handle_client answer caught
handle_client-ping motd kick h body ping rest s hh wants e text is_one room =
    let requests = packet (0 ∷ []) ++ (packet ping ++ rest) in
    let (cuts, talk) = converse-hello motd kick h requests s hh e in
    let (result, after) =
      tell_status_lem motd h.client_protocol body ping rest (left_with s requests cuts) refl text
        is_one room in
    let told : converse motd kick s
        ≡ tell_status motd h.client_protocol (left_with s requests cuts) =
      talk
      ∙ ap (λ (n : ℕ). answer motd kick h.client_protocol n (left_with s requests cuts)) wants in
    (
      ap (λ (r : Result Unit × Socket). caught r.0) told ∙ ap caught result,
      refl,
      ap (λ (r : Result Unit × Socket). r.1.outgoing) told ∙ after,
    )
