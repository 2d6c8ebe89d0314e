-- ===== src/Doorman/Packet/Laws.antt =====
-- app/doorman_server.py: `_PacketReader` reads back what a client wrote.
use mc_admin.Base.{
  ℕ, zero, suc, ◌+◌, ◌-◌, ◌*◌, ◌/◌, ◌%◌, ◌<◌, ◌≤◌, ◌≡◌, inl, inr, refl, sym, ap, ◌∙◌, arith, ltb,
  false, [], ◌∷◌, ◌++◌, length, take, drop, drop-get_elem?, drop-drop, drop-append_front,
  take-append_front, length-drop, if◌then◌else◌, length-append, subst,
}
use mc_admin.Doorman.{Bytes, ok}
use mc_admin.Doorman.Varint.{encode_loop, encode_varint, goes_on, add_group}
use mc_admin.Doorman.Varint.Laws.{
  last_group, inner_group, encode_loop_cases, encode_varint-nonempty,
}
use mc_admin.Doorman.Packet.{
  PacketReader, advance, next_byte, varint_loop, varint, string, unsigned_short, big_endian,
}
use mathlib.Core.List.{append_assoc}
use Prim.Native.Nat.{◌^◌}

-- What a reader has still to read.
abbrev pub Rest : PacketReader → Bytes → Type 0
Rest r bs = drop r.offset r.payload ≡ bs

pub Rest-advance :
    (r : PacketReader) (xs ys : Bytes) → Rest r (xs ++ ys) → Rest (advance (length xs) r) ys
Rest-advance r xs ys h =
    sym (drop-drop r.offset (length xs) r.payload)
    ∙ ap (λ (l : Bytes). drop (length xs) l) h
    ∙ drop-append_front xs ys

advance_twice : (m n : ℕ) (r : PacketReader) → advance n (advance m r) ≡ advance (m + n) r
advance_twice m n r = ap (λ (o : ℕ). record r { offset = o }) (omega arith)

advance_next : (n : ℕ) (r : PacketReader) → advance n (advance 1 r) ≡ advance (suc n) r
advance_next n r = ap (λ (o : ℕ). record r { offset = o }) (omega arith)

round_lem :
    (left shift value : ℕ) (r : PacketReader) (b : ℕ) (bs : Bytes)
    → Rest r (b ∷ bs)
    → varint_loop (suc left) shift value r ≡ (
        if goes_on b
        then varint_loop left (shift + 7) (add_group value b shift) (advance 1 r)
        else ok (add_group value b shift, advance 1 r))
unfolding varint_loop next_byte
round_lem left shift value r b bs h =
    rw ((drop-get_elem? r.payload r.offset h).0, varint_loop, next_byte) refl

last_round :
    (left fuel shift value v : ℕ) (r : PacketReader) (rest : Bytes)
    → v < 128
    → encode_loop (suc fuel) v ≡ v ∷ []
    → Rest r (encode_loop (suc fuel) v ++ rest)
    → varint_loop (suc left) shift value r
      ≡ ok (value + v * 2 ^ shift, advance (length (encode_loop (suc fuel) v)) r)
last_round left fuel shift value v r rest one e h =
    rw (e, round_lem left shift value r v rest (rw e at h), (last_group v shift value one).0)
      (ap (λ (n : ℕ). ok (n, advance 1 r)) (last_group v shift value one).1)

-- A byte that goes on leaves its rest to the rounds that are left.
inner_round :
    (left fuel shift value v : ℕ) (r : PacketReader) (bs : Bytes)
    → Rest r ((v % 128 + 128) ∷ bs)
    → encode_loop (suc fuel) v ≡ (v % 128 + 128) ∷ encode_loop fuel (v / 128)
    → varint_loop left (shift + 7) (add_group value (v % 128 + 128) shift) (advance 1 r)
      ≡ ok (
        add_group value (v % 128 + 128) shift + v / 128 * 2 ^ (shift + 7),
        advance (length (encode_loop fuel (v / 128))) (advance 1 r),
      )
    → varint_loop (suc left) shift value r
      ≡ ok (value + v * 2 ^ shift, advance (length (encode_loop (suc fuel) v)) r)
inner_round left fuel shift value v r bs h e rounds =
    rw (e, round_lem left shift value r _ bs h, (inner_group v shift value).0)
      (rounds
        ∙ ap (λ (n : ℕ). ok (n, advance (length (encode_loop fuel (v / 128))) (advance 1 r)))
            (inner_group v shift value).1
        ∙ ap (λ s. ok (value + v * 2 ^ shift, s))
            (advance_next (length (encode_loop fuel (v / 128))) r))

varint_loop-encode :
    (left fuel shift value v : ℕ) (r : PacketReader) (rest : Bytes)
    → v < 128 ^ suc left
    → v < fuel
    → Rest r (encode_loop fuel v ++ rest)
    → varint_loop (suc left) shift value r
      ≡ ok (value + v * 2 ^ shift, advance (length (encode_loop fuel v)) r)
varint_loop-encode left zero shift value v r rest small enough h = ground arith
varint_loop-encode zero (suc fuel) shift value v r rest small enough h =
    elim (encode_loop_cases fuel v enough) [
      | inl (one, e) ↦ last_round zero fuel shift value v r rest one e h
      | inr (big, less, e) ↦ ground arith
    ]
varint_loop-encode (suc left) (suc fuel) shift value v r rest small enough h =
    elim (encode_loop_cases fuel v enough) [
      | inl (one, e) ↦ last_round (suc left) fuel shift value v r rest one e h
      | inr (big, less, e) ↦ inner_round (suc left) fuel shift value v r _ (rw e at h) e (
          varint_loop-encode left fuel (shift + 7) (add_group value (v % 128 + 128) shift) (v / 128)
            (advance 1 r) rest (omega arith) less (Rest-advance r (_ ∷ []) _ (rw e at h)))
    ]

-- `varint` reads back a number of up to 35 bits, and leaves what follows it.
pub varint-encode :
    (v : ℕ) (r : PacketReader) (rest : Bytes)
    → v < 2 ^ 35
    → Rest r (encode_varint v ++ rest)
    → (varint r ≡ ok (v, advance (length (encode_varint v)) r))
      × Rest (advance (length (encode_varint v)) r) rest
unfolding varint encode_varint
varint-encode v r rest small h = (
  varint_loop-encode 4 (v + 1) 0 0 v r rest (omega arith) (omega arith) h
      ∙ ap (λ (n : ℕ). ok (n, advance (length (encode_varint v)) r)) (omega arith),
  Rest-advance r (encode_varint v) rest h,
)

not_above : (n m : ℕ) → n ≤ m → ltb m n ≡ false
not_above n m h = ground arith

-- What is left of a packet fits into it.
fits :
    (r : PacketReader) (xs ys : Bytes)
    → 0 < length xs
    → Rest r (xs ++ ys)
    → r.offset + length xs ≤ length r.payload
fits r xs ys some_bytes h =
    let left : length r.payload - r.offset ≡ length xs + length ys =
      sym (length-drop r.offset r.payload) ∙ ap (λ (l : Bytes). length l) h ∙ length-append xs ys in
    omega (arith, left)

-- `string` reads back a text of at most 1024 bytes.
pub string-encode :
    (text : Bytes) (r : PacketReader) (rest : Bytes)
    → length text ≤ 1024
    → Rest r (encode_varint (length text) ++ (text ++ rest))
    → (string r ≡ ok (text, advance (length (encode_varint (length text)) + length text) r))
      × Rest (advance (length (encode_varint (length text)) + length text) r) rest
unfolding string
string-encode text r rest small h =
    let read = varint-encode (length text) r (text ++ rest) (omega arith) h in
    let next = advance (length (encode_varint (length text))) r in
    let value : take (length text) (drop next.offset r.payload) ≡ text =
      ap (λ (l : Bytes). take (length text) l) read.1 ∙ take-append_front text rest in
    let room =
      fits r (encode_varint (length text) ++ text) rest
        (omega (
          arith,
          length-append (encode_varint (length text)) text,
          encode_varint-nonempty (length text),
        ))
        (h ∙ sym (append_assoc (encode_varint (length text)) text rest)) in
    (
      rw
          (
            read.0,
            not_above (length text) 1024 small,
            not_above (next.offset + length text) (length r.payload)
                (omega (arith, room, length-append (encode_varint (length text)) text)),
            value,
          )
          (ap (λ s. ok (text, s)) (advance_twice _ _ r)),
      subst (λ s. Rest s rest) (advance_twice _ _ r) (Rest-advance next text rest read.1),
    )

-- `unsigned_short` skips the two bytes of a port.
pub unsigned_short_lem :
    (high low : ℕ) (r : PacketReader) (rest : Bytes)
    → Rest r (high ∷ (low ∷ rest))
    → (unsigned_short r ≡ ok (256 * high + low, advance 2 r)) × Rest (advance 2 r) rest
unfolding unsigned_short big_endian
unsigned_short_lem high low r rest h = (
  rw
      (
        not_above _ _ (fits r (high ∷ (low ∷ [])) rest (omega arith) h),
        h,
        unsigned_short,
        big_endian,
      )
      refl,
  Rest-advance r (high ∷ (low ∷ [])) rest h,
)
