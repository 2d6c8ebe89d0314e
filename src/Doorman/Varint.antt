-- ===== src/Doorman/Varint.antt =====
-- app/doorman_server.py: the variable-length numbers. `value |= (byte & 0x7F) << shift` adds, since
-- the bits below `shift` are all that `value` has.
pub mod Laws
use mc_admin.Base.{ℕ, zero, suc, [], ◌∷◌, ◌+◌, ◌*◌, ◌/◌, ◌%◌, ◌==◌, ltb, if◌then◌else◌, Bool}
use mc_admin.Doorman.{Bytes}
use Prim.Native.Nat.{◌^◌}

unfoldable pub encode_loop : ℕ → ℕ → Bytes
encode_loop zero value = []
encode_loop (suc fuel) value =
    let rest = encode_loop fuel (value / 128) in
    if value / 128 == 0 then value % 128 ∷ [] else (value % 128 + 128) ∷ rest

-- `_encode_varint`: a number has at most as many groups of seven bits as itself and one more.
unfoldable pub encode_varint : ℕ → Bytes
unfolding encode_loop
encode_varint value = encode_loop (value + 1) value

-- The test `byte & 0x80`, and what one byte adds.
unfoldable pub goes_on : ℕ → Bool
goes_on byte = ltb 127 (byte % 256)

unfoldable pub add_group : ℕ → ℕ → ℕ → ℕ
add_group value byte shift = value + byte % 128 * 2 ^ shift
