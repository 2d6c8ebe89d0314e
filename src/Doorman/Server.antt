-- ===== src/Doorman/Server.antt =====
-- app/doorman_server.py: what the doorman says, and a conversation with a client. `json.load` gives
-- a payload or fails.
pub mod Quiet
pub mod Reading
pub mod Laws
pub mod Talks
use mc_admin.Base.{
  ℕ, Text, codes, Bool, true, false, Option, none, some, [], ◌∷◌, ◌++◌, ◌&&◌, ◌||◌, ◌==◌, length,
  if◌then◌else◌,
}
use mc_admin.Base.Dict.{Dict, get, text_Eq}
use mc_admin.Base.Strings.{strip, decimal}
use mc_admin.Doorman.{Bytes, Failure, Result, ok, raised, protocol_error, os_error, unicode_error}
use mc_admin.Doorman.Varint.{encode_varint}
use mc_admin.Doorman.Text8.{utf8, quoted}
use mc_admin.Doorman.Packet.{PacketReader, open_packet, varint, string, unsigned_short}
use mc_admin.Doorman.Wire.{Socket, Talk, lift, ◌>>=◌, ◌>>◌, read_packet, send_packet}

-- A value of JSON: whether it is true, and its `str`.
pub record Value : Type 0 where
  pub is_true : Bool
  pub shown : Text

-- A file that cannot be read or is not JSON, a payload without `get`, or a JSON object.
pub data Consigne : Type 0 where
  unreadable not_an_object : Consigne
  object : Dict Text Value → Consigne

abbrev pub default_motd : Text
default_motd = codes "Serveur en maintenance"

abbrev pub default_kick : Text
default_kick = codes "Le serveur est en maintenance. Reviens un peu plus tard !"

-- `str(value or "").strip()`, or else the default.
line_or : Text → Option Value → Text
line_or default none = default
line_or default (some v) =
    let line = strip v.shown in
    if v.is_true then (if length line == 0 then default else line) else default

unfoldable pub load_consigne : Consigne → Text × Text
unfolding line_or
load_consigne unreadable = (default_motd, default_kick)
load_consigne not_an_object = (default_motd, default_kick)
load_consigne (object payload) = (
  line_or default_motd (get (codes "motd") payload),
  line_or default_kick (get (codes "kick") payload),
)

sized : Result Bytes → Result Bytes
sized (raised e) = raised e
sized (ok encoded) = ok (encode_varint (length encoded) ++ encoded)

unfoldable pub chat_json : Text → Result Bytes
unfolding sized
chat_json text = sized (utf8 (codes "{\"text\": " ++ (quoted text ++ codes "}")))

unfoldable pub with_id : Result Bytes → Result Bytes
with_id (raised e) = raised e
with_id (ok body) = ok (0 ∷ body)

unfoldable pub status_payload : Text → ℕ → Result Bytes
unfolding sized with_id
status_payload motd client_protocol = with_id (
    sized (
      utf8 (
        codes "{\"version\": {\"name\": \"Maintenance\", \"protocol\": "
        ++ (decimal client_protocol
            ++ (codes "}, \"players\": {\"online\": 0, \"max\": 0}, \"description\": {\"text\": "
                ++ (quoted motd ++ codes "}}"))))))

-- `ping[:1] == b"\x01" and len(ping) == 9`
unfoldable pub is_ping : Bytes → Bool
is_ping [] = false
is_ping (first ∷ rest) = first == 1 && length rest == 8

-- The two branches on `next_state`.
unfoldable pub tell_status : Text → ℕ → Talk Unit
unfolding is_ping
tell_status motd client_protocol = read_packet >>= λ request.
    lift (varint (open_packet request)) >>= λ head.
    if head.0 == 0
    then (lift (status_payload motd client_protocol) >>= λ payload.
        send_packet payload
        >> (read_packet >>= λ ping. if is_ping ping then send_packet ping else lift (ok tt)))
    else lift (ok tt)

unfoldable pub refuse_login : Text → Talk Unit
unfolding with_id
refuse_login kick = lift (with_id (chat_json kick)) >>= λ payload. send_packet payload

unfoldable pub answer : Text → Text → ℕ → ℕ → Talk Unit
answer motd kick client_protocol next_state =
    if next_state == 1
    then tell_status motd client_protocol
    else if next_state == 2 || next_state == 3
    then refuse_login kick
    else lift (ok tt)

-- The body of the `try`.
unfoldable pub converse : Text → Text → Talk Unit
converse motd kick = read_packet >>= λ first. lift (varint (open_packet first)) >>= λ opening.
    if opening.0 == 0
    then (lift (varint opening.1) >>= λ client_protocol.
        lift (string client_protocol.1) >>= λ address.
        lift (unsigned_short address.1) >>= λ client_port.
        lift (varint client_port.1) >>= λ next_state.
        answer motd kick client_protocol.0 next_state.0)
    else lift (ok tt)

-- `except (ProtocolError, OSError): pass`
unfoldable pub caught : Result Unit → Result Unit
caught (ok u) = ok u
caught (raised protocol_error) = ok tt
caught (raised os_error) = ok tt
caught (raised unicode_error) = raised unicode_error

-- The `finally` closes the socket; a failing `shutdown` is caught there.
unfoldable pub handle_client : Text → Text → Talk Unit
unfolding caught
handle_client motd kick s =
    let (result, after) = converse motd kick s in (caught result, record after { is_closed = true })
