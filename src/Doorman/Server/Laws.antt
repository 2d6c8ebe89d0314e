-- ===== src/Doorman/Server/Laws.antt =====
-- app/doorman_server.py: whatever a client sends, the conversation ends, the socket is closed, and
-- the client has been sent no more than the doorman has to say.
use mc_admin.Base.{
  ℕ, ◌-◌, ◌≡◌, ◌⊎◌, inl, inr, refl, sym, ap, ◌∙◌, Text, true, false, Bool, [], ◌∷◌, ◌++◌, length,
  take, drop, take-drop, ◌||◌, leb, ◌==◌, if◌then◌else◌,
}
use mc_admin.Doorman.{Bytes, Result, ok, raised, protocol_error, os_error, unicode_error}
use mc_admin.Doorman.Varint.{encode_varint}
use mc_admin.Doorman.Packet.{open_packet, varint, string, unsigned_short}
use mc_admin.Doorman.Wire.{
  Socket, Talk, pass, lift, ◌>>=◌, ◌>>◌, read_packet, send_all, send_packet,
}
use mc_admin.Doorman.Server.{
  status_payload, chat_json, is_ping, tell_status, refuse_login, answer, converse, handle_client,
  caught, with_id,
}
use mc_admin.Doorman.Server.Reading.{Taken, Reads, joined, Reads-read_packet}
use mc_admin.Doorman.Server.Quiet.{Silent, Silent-lift, Silent-read_packet}
use mathlib.Core.List.{append_assoc, append-nil}

-- The first bytes of what is to be sent.
unfoldable pub Front : Bytes → Bytes → Type 0
Front sent whole = (rest : Bytes) × (sent ++ rest ≡ whole)

unfoldable pub packet : Bytes → Bytes
packet payload = encode_varint (length payload) ++ payload

-- What a client may have been sent, of whom these bytes were to come: nothing; a part of the refusal; a
-- part of the status; or the status and a part of a ping that stands in these bytes.
pub data Said (motd kick : Text) (incoming : Bytes) : Bytes → Type 0 where
  nothing : Said motd kick incoming []
  refusal :
      (body sent : Bytes)
      → chat_json kick ≡ ok body
      → Front sent (packet (0 ∷ body))
      → Said motd kick incoming sent
  status :
      (client_protocol : ℕ) (body sent : Bytes)
      → status_payload motd client_protocol ≡ ok body
      → Front sent (packet body)
      → Said motd kick incoming sent
  pong :
      (client_protocol : ℕ) (body before ping after sent : Bytes)
      → status_payload motd client_protocol ≡ ok body
      → is_ping ping ≡ true
      → before ++ (ping ++ after) ≡ incoming
      → Front sent (packet ping)
      → Said motd kick incoming (packet body ++ sent)

-- More bytes that were to come before these.
Said-after :
    {motd kick : Text} {new : Bytes} (before part old sent : Bytes)
    → before ++ (part ++ new) ≡ old
    → Said motd kick new sent
    → Said motd kick old sent
Said-after before part old _ e nothing = nothing
Said-after before part old _ e (refusal body sent h f) = refusal body sent h f
Said-after before part old _ e (status client_protocol body sent h f) =
    status client_protocol body sent h f
Said-after {new = new} before part old _ e
      (pong client_protocol body x ping after sent h is stands f) =
    pong client_protocol body ((before ++ part) ++ x) ping after sent h is
      (joined before part x ping after new old e stands) f

-- An action that sends bytes of this kind, for the bytes that are to come.
record Sends {A : Type 0} (P : Bytes → Bytes → Type 0) (m : Talk A) : Type 0 where
  sends :
      (s : Socket) → (sent : Bytes) × ((m s).1.outgoing ≡ s.outgoing ++ sent) × P s.incoming sent

Sends-quiet :
    {A : Type 0} {P : Bytes → Bytes → Type 0} {m : Talk A}
    → ((old : Bytes) → P old [])
    → Silent m
    → Sends P m
Sends-quiet h hm = record {
  sends = λ s. ([], hm.quiet s ∙ sym (append-nil s.outgoing), h s.incoming);
}

-- What is sent for the bytes after those that have been read is of a kind for all of them.
Sends-bind :
    {A B : Type 0} {P : Bytes → Bytes → Type 0} {m : Talk A} {f : A → Talk B} (part : A → Bytes)
    (Q : A → Bytes → Bytes → Type 0)
    → ((old : Bytes) → P old [])
    → Silent m
    → Reads part m
    → ((a : A) (before new old sent : Bytes)
        → before ++ (part a ++ new) ≡ old
        → Q a new sent
        → P old sent)
    → ((a : A) → Sends (Q a) (f a))
    → Sends P (m >>= f)
Sends-bind {P = P} {m = m} {f = f} part Q h hm reads wider hf = record {
  sends = λ s. go s.incoming s.outgoing (m s) (hm.quiet s) (reads.reads s);
}
  where
    go :
        (old o : Bytes) (r : Result _ × Socket)
        → r.1.outgoing ≡ o
        → Taken part old r
        → (sent : Bytes) × ((pass f r).1.outgoing ≡ o ++ sent) × P old sent
    go old o (ok a, t) e (before, stands) =
        let (sent, so, holds) = (hf a).sends t in
        (sent, so ∙ ap (λ l. l ++ sent) e, wider a before t.incoming old sent stands holds)
    go old o (raised x, t) e stands = ([], e ∙ sym (append-nil o), h old)

Sends-lift_bind :
    {A B : Type 0} {P : Bytes → Bytes → Type 0} (r : Result A) {f : A → Talk B}
    → ((old : Bytes) → P old [])
    → ((a : A) → r ≡ ok a → Sends P (f a))
    → Sends P (lift r >>= f)
Sends-lift_bind (ok a) h hf = record { sends = λ s. (hf a refl).sends s }
Sends-lift_bind (raised x) h hf = record {
  sends = λ s. ([], sym (append-nil s.outgoing), h s.incoming);
}

Sends-if :
    {A : Type 0} {P : Bytes → Bytes → Type 0} (b : Bool) {m n : Talk A}
    → (b ≡ true → Sends P m)
    → (b ≡ false → Sends P n)
    → Sends P (if b then m else n)
Sends-if true hm hn = hm refl
Sends-if false hm hn = hn refl

Front-whole : (xs : Bytes) → Front xs xs
unfolding Front
Front-whole xs = ([], append-nil xs)

Front-take : (n : ℕ) (xs : Bytes) → Front (take n xs) xs
unfolding Front
Front-take n xs = (drop n xs, take-drop n xs)

abbrev sent_or_cut : Bytes → Socket → Bool → Result Unit × Socket
sent_or_cut whole s fits =
    if fits
    then (ok tt, record s { room = s.room - length whole; outgoing = s.outgoing ++ whole })
    else (raised os_error, record s { room = 0; outgoing = s.outgoing ++ take s.room whole })

-- A packet is sent whole or in part; what follows is done only if it is sent whole.
Sends-packet_then :
    {B : Type 0} {P Q : Bytes → Bytes → Type 0} (payload : Bytes) {n : Talk B}
    → ((old sent : Bytes) → Front sent (packet payload) → P old sent)
    → ((old sent : Bytes) → Q old sent → P old (packet payload ++ sent))
    → Sends Q n
    → Sends P (send_packet payload >> n)
unfolding send_packet send_all packet
Sends-packet_then {B} {P} {Q} payload {n} part whole hn = record {
  sends = λ s. go s (leb (length (packet payload)) s.room);
}
  where
    go :
        (s : Socket) (fits : Bool)
        → (sent : Bytes) × ((pass
              (λ (_ : Unit). n)
              (sent_or_cut (packet payload) s fits)).1.outgoing
            ≡ s.outgoing ++ sent)
          × P s.incoming sent
    go s true =
        let (sent, e, holds) = hn.sends _ in
        (
          packet payload ++ sent,
          e ∙ append_assoc s.outgoing (packet payload) sent,
          whole s.incoming sent holds,
        )
    go s false =
        (take s.room (packet payload), refl, part s.incoming _ (Front-take s.room (packet payload)))

Sends-packet :
    {P : Bytes → Bytes → Type 0} (payload : Bytes)
    → ((old sent : Bytes) → Front sent (packet payload) → P old sent)
    → Sends P (send_packet payload)
unfolding send_packet send_all packet
Sends-packet {P} payload part = record { sends = λ s. go s (leb (length (packet payload)) s.room) }
  where
    go :
        (s : Socket) (fits : Bool)
        → (sent : Bytes) × ((sent_or_cut (packet payload) s fits).1.outgoing ≡ s.outgoing ++ sent)
          × P s.incoming sent
    go s true = (packet payload, refl, part s.incoming _ (Front-whole (packet payload)))
    go s false =
        (take s.room (packet payload), refl, part s.incoming _ (Front-take s.room (packet payload)))

module _ (motd kick : Text) where
  silence : (old : Bytes) → Said motd kick old []
  silence old = nothing

  -- What follows the reading of a packet.
  Sends-read :
      {A : Type 0} {f : Bytes → Talk A}
      → ((payload : Bytes) → Sends (Said motd kick) (f payload))
      → Sends (Said motd kick) (read_packet >>= f)
  Sends-read hf =
      Sends-bind (λ payload. payload) (λ _. Said motd kick) silence Silent-read_packet
        Reads-read_packet
        (λ payload before new old sent stands h. Said-after before payload old sent stands h) hf

  -- The ping comes back, or nothing.
  Echoed : Bytes → Bytes → Type 0
  Echoed ping sent = (sent ≡ []) ⊎ ((is_ping ping ≡ true) × Front sent (packet ping))

  Sends-pong :
      (client_protocol : ℕ) (body : Bytes)
      → status_payload motd client_protocol ≡ ok body
      → Sends
          (λ old sent. Said motd kick old (packet body ++ sent))
          (read_packet >>= λ ping. if is_ping ping then send_packet ping else lift (ok tt))
  unfolding Echoed
  Sends-pong client_protocol body e =
      Sends-bind (λ ping. ping) (λ ping _. Echoed ping) whole Silent-read_packet Reads-read_packet
        (λ ping before new old sent stands echoed. back ping before new old sent stands echoed)
        (λ ping.
          Sends-if (is_ping ping) (λ h. Sends-packet ping (λ _ sent f. inr (h, f)))
            (λ _. Sends-quiet (λ _. inl refl) (Silent-lift _)))
    where
      whole : (old : Bytes) → Said motd kick old (packet body ++ [])
      whole old =
          status client_protocol body _ e
            (rw (append-nil (packet body)) (Front-whole (packet body)))

      back :
          (ping before new old sent : Bytes)
          → before ++ (ping ++ new) ≡ old
          → Echoed ping sent
          → Said motd kick old (packet body ++ sent)
      back ping before new old sent stands (inl none_sent) = rw none_sent (whole old)
      back ping before new old sent stands (inr (h, f)) =
          pong client_protocol body before ping new sent e h stands f

  Sends-tell_status :
      (client_protocol : ℕ) → Sends (Said motd kick) (tell_status motd client_protocol)
  unfolding tell_status
  Sends-tell_status client_protocol = Sends-read (λ request.
      Sends-lift_bind (varint (open_packet request)) silence (λ head _.
        Sends-if (head.0 == 0)
          (λ _. Sends-lift_bind (status_payload motd client_protocol) silence (λ body e.
            Sends-packet_then body (λ _ sent. status client_protocol body sent e) (λ _ sent h. h)
              (Sends-pong client_protocol body e)))
          (λ _. Sends-quiet silence (Silent-lift _))))

  Sends-refuse_login : Sends (Said motd kick) (refuse_login kick)
  unfolding refuse_login with_id
  Sends-refuse_login = go (chat_json kick) refl
    where
      go :
          (r : Result Bytes)
          → chat_json kick ≡ r
          → Sends (Said motd kick) (lift (with_id r) >>= λ payload. send_packet payload)
      go (ok body) e = record {
        sends = (Sends-packet (0 ∷ body) (λ _ sent. refusal body sent e)).sends;
      }
      go (raised x) e = Sends-quiet silence (Silent-lift _)

  Sends-answer :
      (client_protocol next_state : ℕ)
      → Sends (Said motd kick) (answer motd kick client_protocol next_state)
  unfolding answer
  Sends-answer client_protocol next_state =
      Sends-if (next_state == 1) (λ _. Sends-tell_status client_protocol)
        (λ _.
          Sends-if (next_state == 2 || next_state == 3) (λ _. Sends-refuse_login)
            (λ _. Sends-quiet silence (Silent-lift _)))

  Sends-converse : Sends (Said motd kick) (converse motd kick)
  unfolding converse
  Sends-converse = Sends-read (λ first.
      Sends-lift_bind (varint (open_packet first)) silence (λ opening _.
        Sends-if (opening.0 == 0)
          (λ _. Sends-lift_bind (varint opening.1) silence (λ client_protocol _.
            Sends-lift_bind (string client_protocol.1) silence (λ address _.
              Sends-lift_bind (unsigned_short address.1) silence (λ client_port _.
                Sends-lift_bind (varint client_port.1) silence
                  (λ next_state _. Sends-answer client_protocol.0 next_state.0)))))
          (λ _. Sends-quiet silence (Silent-lift _))))

-- However the client, the network and the timeouts behave, a conversation ends with the socket
-- closed and no error but that of a text that UTF-8 cannot encode, and the client has been sent at
-- most one refusal, or one status and one ping that stands in what it sends.
pub handle_client-Said :
    (motd kick : Text) (s : Socket)
    → ((handle_client motd kick s).1.is_closed ≡ true)
      × (((handle_client motd kick s).0 ≡ ok tt)
          ⊎ ((handle_client motd kick s).0 ≡ raised unicode_error))
      × ((sent : Bytes) × ((handle_client motd kick s).1.outgoing ≡ s.outgoing ++ sent)
          × Said motd kick s.incoming sent)
unfolding handle_client caught
handle_client-Said motd kick s =
    (refl, ends (converse motd kick s).0, (Sends-converse motd kick).sends s)
  where
    ends : (r : Result Unit) → (caught r ≡ ok tt) ⊎ (caught r ≡ raised unicode_error)
    ends (ok tt) = inl refl
    ends (raised protocol_error) = inl refl
    ends (raised os_error) = inl refl
    ends (raised unicode_error) = inr refl
