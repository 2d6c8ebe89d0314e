-- ===== src/Doorman.antt =====
-- app/doorman_server.py: the server that answers in place of Minecraft during a maintenance.
-- Bytes are numbers below 256, and what is called here raises a `Failure`.
pub mod Varint
pub mod Wire
pub mod Packet
pub mod Text8
pub mod Server
use mc_admin.Base.{ℕ, Text, List, ◌≡◌, ◌⊎◌, inl, inr, refl, ◌<◌}

abbrev pub Bytes : Type 0
Bytes = List ℕ

abbrev pub IsByte : ℕ → Type 0
IsByte b = b < 256

-- `ProtocolError`, `OSError` (a timeout or a broken connection), and `UnicodeEncodeError`.
pub data Failure : Type 0 where
  protocol_error os_error unicode_error : Failure

pub data Result (A : Type 0) : Type 0 where
  ok : A → Result A
  raised : Failure → Result A

infixr 10 ◌>>=◌
abbrev pub ◌>>=◌ : {A B : Type 0} → Result A → (A → Result B) → Result B
ok a >>= f = f a
raised e >>= f = raised e
