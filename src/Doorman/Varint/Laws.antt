-- ===== src/Doorman/Varint/Laws.antt =====
-- app/doorman_server.py: the bytes of a variable-length number, and one round of reading it.
use mc_admin.Base.{
  ℕ, zero, suc, ◌+◌, ◌*◌, ◌/◌, ◌%◌, ◌<◌, ◌≤◌, ◌≡◌, ◌⊎◌, ◌↔◌, inl, inr, ap, arith, true, false, [],
  ◌∷◌, length,
}
use mc_admin.Doorman.{Bytes, IsByte}
use mc_admin.Doorman.Varint.{encode_loop, encode_varint, goes_on, add_group}
use Prim.Native.Nat.{◌^◌}
use native.Mathlib.Nat.{div-add-mod}
use native.Mathlib.Numerals.{towards_suc}

shift_seven : (s : ℕ) → 2 ^ (s + 7) ≡ 128 * 2 ^ s
shift_seven s = simp towards_suc (omega arith)

-- The lowest group of a number and the rest, both shifted.
split_group : (v s : ℕ) → v * 2 ^ s ≡ v % 128 * 2 ^ s + v / 128 * 2 ^ (s + 7)
split_group v s = omega (
  arith,
  ap (λ (t : ℕ). t * 2 ^ s) (div-add-mod v 128),
  ap (λ (t : ℕ). v / 128 * t) (shift_seven s),
)

-- The last byte of a number stands for it whole.
pub last_group :
    (v s value : ℕ) → v < 128 → (goes_on v ≡ false) × (add_group value v s ≡ value + v * 2 ^ s)
unfolding goes_on add_group
last_group v s value h = ground arith

-- Another byte leaves the rest of the number to be added from the next group on.
pub inner_group :
    (v s value : ℕ)
    → (goes_on (v % 128 + 128) ≡ true)
      × (add_group value (v % 128 + 128) s + v / 128 * 2 ^ (s + 7) ≡ value + v * 2 ^ s)
unfolding goes_on add_group
inner_group v s value = ground (arith, split_group v s)

-- A number takes a byte, or a byte before those of its rest.
pub encode_loop_cases :
    (fuel v : ℕ)
    → v < suc fuel
    → ((v < 128) × (encode_loop (suc fuel) v ≡ v ∷ []))
      ⊎ ((0 < v / 128)
          × (v / 128 < fuel)
          × (encode_loop (suc fuel) v ≡ (v % 128 + 128) ∷ encode_loop fuel (v / 128)))
unfolding encode_loop
encode_loop_cases fuel v h = ground arith

nonempty : (fuel v : ℕ) → v < fuel → 0 < length (encode_loop fuel v)
nonempty zero v h = ground arith
nonempty (suc fuel) v h = elim (encode_loop_cases fuel v h) [
  | inl (small, e) ↦ rw e (ground arith)
  | inr (big, less, e) ↦ rw e (ground arith)
]

pow_step : (k : ℕ) → 128 ^ suc k ≡ 128 * 128 ^ k
pow_step k = omega arith

pow_pos : (k : ℕ) → 0 < 128 ^ k
pow_pos zero = ground arith
pow_pos (suc k) = omega (arith, pow_step k, pow_pos k)

-- As many bytes as groups of seven bits.
pub length-encode_loop :
    (k fuel v : ℕ) → v < fuel → (length (encode_loop fuel v) ≤ suc k) ↔ (v < 128 ^ suc k)
length-encode_loop zero zero v h = ground arith
length-encode_loop (suc k) zero v h = ground arith
length-encode_loop zero (suc fuel) v h = elim (encode_loop_cases fuel v h) [
  | inl (small, e) ↦ rw e (ground arith)
  | inr (big, less, e) ↦ rw e (ground (arith, nonempty fuel (v / 128) less))
]
length-encode_loop (suc k) (suc fuel) v h = elim (encode_loop_cases fuel v h) [
  | inl (small, e) ↦ rw e (ground (arith, pow_step (suc k), pow_pos (suc k)))
  | inr (big, less, e) ↦
      rw e (ground (arith, length-encode_loop k fuel (v / 128) less, pow_step (suc k)))
]

-- Every byte but the last says that another follows, and the last that none does.
unfoldable pub IsVarint : Bytes → Type 0
IsVarint [] = ⊥
IsVarint (b ∷ []) = b < 128
IsVarint (b ∷ (c ∷ bs)) = (127 < b) × IsByte b × IsVarint (c ∷ bs)

encode_loop-IsVarint : (fuel v : ℕ) → v < fuel → IsVarint (encode_loop fuel v)
unfolding IsVarint
encode_loop-IsVarint zero v h = ground arith
encode_loop-IsVarint (suc fuel) v h = elim (encode_loop_cases fuel v h) [
  | inl (small, e) ↦ rw e small
  | inr (big, less, e) ↦
      rw e (longer (encode_loop fuel (v / 128)) (encode_loop-IsVarint fuel (v / 128) less))
]
  where
    longer : (bs : Bytes) → IsVarint bs → IsVarint ((v % 128 + 128) ∷ bs)
    longer [] h = elim h [ ]
    longer (b ∷ bs) h = (omega arith, omega arith, h)

-- A number below `128 ^ k` is written on at most k bytes, and no other number is; all its bytes but
-- the last have the top bit set.
pub encode_varint-IsVarint :
    (k v : ℕ)
    → IsVarint (encode_varint v) × ((length (encode_varint v) ≤ suc k) ↔ (v < 128 ^ suc k))
unfolding encode_varint
encode_varint-IsVarint k v =
    (encode_loop-IsVarint (v + 1) v (omega arith), length-encode_loop k (v + 1) v (omega arith))

pub encode_varint-nonempty : (v : ℕ) → 0 < length (encode_varint v)
unfolding encode_varint
encode_varint-nonempty v = nonempty (v + 1) v (omega arith)
