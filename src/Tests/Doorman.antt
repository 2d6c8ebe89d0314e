-- ===== src/Tests/Doorman.antt =====
-- Clients of the doorman that ask for the status and to play.
use mc_admin.Base.{
  ℕ, arith, Text, codes, true, false, [], ◌∷◌, ◌++◌, inl, ◌≡◌, ◌⊎◌, refl, length, text_eq,
}
use mc_admin.Doorman.{Bytes, ok, raised, unicode_error}
use mc_admin.Doorman.Varint.{encode_varint}
use mc_admin.Doorman.Text8.{utf8, quoted}
use mc_admin.Doorman.Wire.{Socket, read_packet}
use mc_admin.Doorman.Wire.Laws.{Gives, read_packet-encode}
use mc_admin.Doorman.Server.{
  chat_json, status_payload, handle_client, unreadable, object, load_consigne, is_ping,
  default_kick,
}
use mc_admin.Doorman.Server.Laws.{Said, packet, handle_client-Said}
use mc_admin.Doorman.Server.Talks.{Hello, hello_bytes, handle_client-hello, handle_client-ping}
use mc_admin.Base.Dict.{get}
use mc_admin.Base.Strings.{strip, decimal}

-- The network cuts the bytes into pieces of one, three and five, and then leaves them whole.
abbrev client : Bytes → Socket
client bytes = record {
  incoming = bytes;
  cuts = 0 ∷ (2 ∷ (4 ∷ []));
  hangs_up = true;
  room = 500;
  outgoing = [];
  is_closed = false;
}

abbrev wants_to : ℕ → Hello
wants_to next = record {
  client_protocol = 767;
  address = codes "mc.example";
  high_byte = 99;
  low_byte = 221;
  next_state = next;
}

abbrev ping : Bytes
ping = 1 ∷ (0 ∷ (0 ∷ (0 ∷ (0 ∷ (0 ∷ (0 ∷ (4 ∷ (210 ∷ []))))))))

encoded : encode_varint 300 ≡ 172 ∷ (2 ∷ [])
unfolding encode_varint
encoded = refl

no_consigne : load_consigne unreadable ≡ (codes "Serveur en maintenance", default_kick)
unfolding load_consigne
no_consigne = refl

blank_motd :
    load_consigne (object ((codes "motd", record { is_true = true; shown = codes "  " }) ∷ []))
    ≡ (codes "Serveur en maintenance", default_kick)
unfolding load_consigne strip get text_eq
blank_motd = refl

read_packet-encode_example :
    Gives read_packet (client (encode_varint 9 ++ (ping ++ (5 ∷ [])))) ping (5 ∷ [])
read_packet-encode_example =
    read_packet-encode ping (5 ∷ []) (client (encode_varint 9 ++ (ping ++ (5 ∷ [])))) (omega arith)
      (omega arith) refl

-- A packet of four bytes that is cut after three.
handle_client-Said_example :
    ((handle_client (codes "motd") (codes "no") (client (4 ∷ (0 ∷ (255 ∷ []))))).1.is_closed ≡ true)
    × (((handle_client (codes "motd") (codes "no") (client (4 ∷ (0 ∷ (255 ∷ []))))).0 ≡ ok tt)
        ⊎ ((handle_client (codes "motd") (codes "no") (client (4 ∷ (0 ∷ (255 ∷ []))))).0
            ≡ raised unicode_error))
    × ((sent : Bytes) × ((handle_client
            (codes "motd")
            (codes "no")
            (client (4 ∷ (0 ∷ (255 ∷ []))))).1.outgoing
          ≡ [] ++ sent)
        × Said (codes "motd") (codes "no") (4 ∷ (0 ∷ (255 ∷ []))) sent)
handle_client-Said_example =
    handle_client-Said (codes "motd") (codes "no") (client (4 ∷ (0 ∷ (255 ∷ []))))

abbrev refused : Bytes
refused = 14 ∷ codes "{\"text\": \"no\"}"

abbrev player : Socket
player = client (packet (hello_bytes (wants_to 2)) ++ [])

handle_client-hello_example :
    ((handle_client (codes "motd") (codes "no") player).0 ≡ ok tt)
    × ((handle_client (codes "motd") (codes "no") player).1.is_closed ≡ true)
    × ((handle_client (codes "motd") (codes "no") player).1.outgoing ≡ [] ++ packet (0 ∷ refused))
unfolding chat_json utf8 quoted encode_varint packet
handle_client-hello_example =
    handle_client-hello (codes "motd") (codes "no") (wants_to 2) refused [] player
      (omega arith, omega arith, omega arith) (inl refl) refl refl (omega arith)

abbrev shown_json : Text
shown_json =
    codes
      "{\"version\": {\"name\": \"Maintenance\", \"protocol\": 767}, \"players\": {\"online\": 0, \"max\": 0}, \"description\": {\"text\": \"motd\"}}"

abbrev shown : Bytes
shown = 0 ∷ (encode_varint (length shown_json) ++ shown_json)

abbrev watcher : Socket
watcher = client (packet (hello_bytes (wants_to 1)) ++ (packet (0 ∷ []) ++ (packet ping ++ [])))

handle_client-ping_example :
    ((handle_client (codes "motd") (codes "no") watcher).0 ≡ ok tt)
    × ((handle_client (codes "motd") (codes "no") watcher).1.is_closed ≡ true)
    × ((handle_client (codes "motd") (codes "no") watcher).1.outgoing
        ≡ [] ++ (packet shown ++ packet ping))
unfolding status_payload utf8 quoted decimal encode_varint packet is_ping
handle_client-ping_example =
    handle_client-ping (codes "motd") (codes "no") (wants_to 1) shown ping [] watcher
      (omega arith, omega arith, omega arith) refl refl refl refl (omega arith)
