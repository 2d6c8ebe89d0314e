-- ===== src/Doorman/Wire.antt =====
-- app/doorman_server.py: the functions over a socket, as actions on its state. The network delivers
-- the bytes of the client cut in any way, and takes a number of bytes before it breaks.
pub mod Laws
use mc_admin.Base.{
  ℕ, zero, suc, ◌+◌, ◌-◌, ◌*◌, Bool, true, List, [], ◌∷◌, ◌++◌, take, drop, length, leb, ltb, ◌==◌,
  if◌then◌else◌,
}
use mc_admin.Doorman.{Bytes, Failure, Result, ok, raised, protocol_error, os_error}
use mc_admin.Doorman.Varint.{goes_on, add_group, encode_varint}

pub record Socket : Type 0 where
  -- what the client will have sent, and how the network cuts it: `recv` gets at most one byte
  -- more than the next number
  pub incoming : Bytes
  pub cuts : List ℕ
  -- whether the client hangs up after it, instead of keeping silent until the timeout
  pub hangs_up : Bool
  -- how many bytes the client still takes, and what it has been sent
  pub room : ℕ
  pub outgoing : Bytes
  pub is_closed : Bool

abbrev pub Talk : Type 0 → Type 0
Talk A = Socket → Result A × Socket

abbrev pub pass : {A B : Type 0} → (A → Talk B) → Result A × Socket → Result B × Socket
pass f (ok a, s) = f a s
pass f (raised e, s) = (raised e, s)

infixr 10 ◌>>=◌ ◌>>◌
abbrev pub ◌>>=◌ : {A B : Type 0} → Talk A → (A → Talk B) → Talk B
◌>>=◌ m f s = pass f (m s)

abbrev pub ◌>>◌ : {A B : Type 0} → Talk A → Talk B → Talk B
m >> n = m >>= λ _. n

abbrev pub lift : {A : Type 0} → Result A → Talk A
lift r s = (r, s)

-- One byte at least of what is there, and at most `asked`.
abbrev pub portion : ℕ → List ℕ → ℕ
portion asked [] = asked
portion asked (cut ∷ cuts) = if leb asked cut then asked else suc cut

abbrev pub later : List ℕ → List ℕ
later [] = []
later (cut ∷ cuts) = cuts

-- `sock.recv`: empty once the client has hung up.
unfoldable pub recv : ℕ → Talk Bytes
recv asked s =
    let n = portion asked s.cuts in
    if length s.incoming == 0
    then (if s.hangs_up then ok [] else raised os_error, s)
    else (ok (take n s.incoming), record s { incoming = drop n s.incoming; cuts = later s.cuts })

-- `while len(data) < count`. Each round receives a byte at least, so `count` rounds are enough.
unfoldable pub receive : ℕ → ℕ → Bytes → Talk Bytes
unfolding recv
receive zero count bytes s = (ok bytes, s)
receive (suc fuel) count bytes s =
    if leb count (length bytes)
    then (ok bytes, s)
    else pass
        (λ chunk s'.
          if length chunk == 0
          then (raised protocol_error, s')
          else receive fuel count (bytes ++ chunk) s')
        (recv (count - length bytes) s)

unfoldable pub read_exact : ℕ → Talk Bytes
unfolding receive
read_exact count = receive count count []

unfoldable pub first_byte : Bytes → ℕ
first_byte [] = 0
first_byte (byte ∷ rest) = byte

unfoldable pub read_loop : ℕ → ℕ → ℕ → Talk ℕ
read_loop zero shift value = lift (raised protocol_error)
read_loop (suc left) shift value = read_exact 1 >>= λ bytes.
    let byte = first_byte bytes in
    let sum = add_group value byte shift in
    let more = read_loop left (shift + 7) sum in if goes_on byte then more else lift (ok sum)

unfoldable pub read_varint : Talk ℕ
unfolding read_loop
read_varint = read_loop 5 0 0

unfoldable pub read_packet : Talk Bytes
read_packet = read_varint >>= λ size.
    if size == 0
    then lift (raised protocol_error)
    else if ltb 32768 size
    then lift (raised protocol_error)
    else read_exact size

-- `sock.sendall`: where the connection breaks, a part has been sent.
unfoldable pub send_all : Bytes → Talk Unit
send_all bytes s =
    if leb (length bytes) s.room
    then (ok tt, record s { room = s.room - length bytes; outgoing = s.outgoing ++ bytes })
    else (raised os_error, record s { room = 0; outgoing = s.outgoing ++ take s.room bytes })

unfoldable pub send_packet : Bytes → Talk Unit
send_packet payload = send_all (encode_varint (length payload) ++ payload)
