-- ===== src/Doorman/Wire/Laws.antt =====
-- app/doorman_server.py: reading from a socket does not depend on how the network cuts the bytes.
use mc_admin.Base.{
  ℕ, zero, suc, ◌+◌, ◌-◌, ◌*◌, ◌/◌, ◌%◌, ◌<◌, ◌≤◌, ◌≡◌, inl, inr, refl, ap, ◌∙◌, arith, true, false,
  Bool, List, [], ◌∷◌, ◌++◌, length, take, drop, length-append, length-take, take-take-drop,
  drop-drop, leb, ltb, ◌==◌, length-drop, if◌then◌else◌, Bool-cases, take-append_front,
  drop-append_front,
}
use mc_admin.Doorman.{Bytes, Result, ok}
use mc_admin.Doorman.Varint.{encode_loop, encode_varint, goes_on, add_group}
use mc_admin.Doorman.Varint.Laws.{last_group, inner_group, encode_loop_cases}
use mc_admin.Doorman.Wire.{
  Socket, Talk, portion, later, recv, receive, read_exact, first_byte, read_loop, read_varint,
  read_packet,
}
use mathlib.Core.List.{append_assoc, append-nil}
use Prim.Native.Nat.{◌^◌}

-- An action that only reads: it returns this, and leaves these bytes.
abbrev pub Gives : {A : Type 0} → Talk A → Socket → A → Bytes → Type 0
Gives m s a rest = (cuts : List ℕ) × (m s ≡ (ok a, record s { incoming = rest; cuts = cuts }))

not_zero : (n : ℕ) → 0 < n → (n == 0) ≡ false
not_zero n h = ground arith

not_above : (n m : ℕ) → n ≤ m → ltb m n ≡ false
not_above n m h = ground arith

portion_lem : (n : ℕ) (cuts : List ℕ) → 0 < n → (0 < portion n cuts) × (portion n cuts ≤ n)
portion_lem n [] h = (h, omega arith)
portion_lem n (cut ∷ cuts) h = ground arith

recv_some :
    (n : ℕ) (s : Socket)
    → 0 < n
    → n ≤ length s.incoming
    → (p : ℕ) × (0 < p) × (p ≤ n) × Gives (recv n) s (take p s.incoming) (drop p s.incoming)
unfolding recv
recv_some n s h enough =
    let size = portion_lem n s.cuts h in
    (
      portion n s.cuts,
      size.0,
      size.1,
      (later s.cuts, rw (not_zero (length s.incoming) (omega arith), recv) refl),
    )

nothing_missing :
    (n : ℕ) (bytes : Bytes) (s : Socket)
    → n ≡ 0
    → ◌≡◌ {A = Result Bytes × Socket}
        (ok bytes, s)
        (ok (bytes ++ take n s.incoming), record s { incoming = drop n s.incoming })
nothing_missing n bytes s e = rw (e, append-nil bytes) refl

-- A part, and what is missing after it.
two_parts :
    (p n : ℕ) (bytes : Bytes) (inc : Bytes)
    → p ≤ n
    → ((bytes ++ take p inc) ++ take (n - p) (drop p inc) ≡ bytes ++ take n inc)
      × (drop (n - p) (drop p inc) ≡ drop n inc)
two_parts p n bytes inc h =
    let whole : p + (n - p) ≡ n = omega arith in
    (
      append_assoc bytes (take p inc) (take (n - p) (drop p inc))
          ∙ ap (λ (l : Bytes). bytes ++ l) (take-take-drop p (n - p) inc)
          ∙ ap (λ (k : ℕ). bytes ++ take k inc) whole,
      drop-drop p (n - p) inc ∙ ap (λ (k : ℕ). drop k inc) whole,
    )

after_part :
    (p n m : ℕ) (bytes : Bytes) (s : Socket) (cuts : List ℕ)
    → p ≤ n
    → m ≡ n - p
    → ◌≡◌ {A = Result Bytes × Socket}
        (
          ok ((bytes ++ take p s.incoming) ++ take m (drop p s.incoming)),
          record s { incoming = drop m (drop p s.incoming); cuts = cuts },
        )
        (ok (bytes ++ take n s.incoming), record s { incoming = drop n s.incoming; cuts = cuts })
after_part p n m bytes s cuts h e =
    rw (e, (two_parts p n bytes s.incoming h).0, (two_parts p n bytes s.incoming h).1) refl

receive_lem :
    (fuel count : ℕ) (bytes : Bytes) (s : Socket)
    → count ≤ length bytes + fuel
    → count ≤ length bytes + length s.incoming
    → Gives
        (receive fuel count bytes)
        s
        (bytes ++ take (count - length bytes) s.incoming)
        (drop (count - length bytes) s.incoming)
unfolding receive
receive_lem zero count bytes s fuel_enough enough =
    (s.cuts, nothing_missing (count - length bytes) bytes s (omega arith))
receive_lem (suc fuel) count bytes s fuel_enough enough =
    elim (Bool-cases (leb count (length bytes))) [
      | inl whole ↦
          (s.cuts, rw whole (nothing_missing (count - length bytes) bytes s (ground arith)))
      | inr short ↦
          let n = count - length bytes in
          let (p, pos, fits, (cuts, e)) = recv_some n s (ground arith) (omega arith) in
          let sized = length-take p s.incoming (omega arith) in
          let grown = length-append bytes (take p s.incoming) in
          let after : Socket = record s { incoming = drop p s.incoming; cuts = cuts } in
          let (last_cuts, rest) =
            receive_lem fuel count (bytes ++ take p s.incoming) after (omega (arith, sized, grown))
              (omega (arith, sized, grown, length-drop p s.incoming)) in
          (
            last_cuts,
            rw (short, e, not_zero (length (take p s.incoming)) (omega (arith, sized)), rest)
                (after_part p n _ bytes s last_cuts fits (omega (arith, sized, grown))),
          )
    ]

whole_read :
    (n : ℕ) (xs ys : Bytes) (s : Socket) (cuts : List ℕ)
    → s.incoming ≡ xs ++ ys
    → n ≡ length xs
    → ◌≡◌ {A = Result Bytes × Socket}
        (ok (take n s.incoming), record s { incoming = drop n s.incoming; cuts = cuts })
        (ok xs, record s { incoming = ys; cuts = cuts })
whole_read n xs ys s cuts h e = rw (e, h, take-append_front xs ys, drop-append_front xs ys) refl

-- `read_exact` returns the next bytes, however the network cuts them, and leaves those after them.
pub read_exact_lem :
    (xs ys : Bytes) (s : Socket) → s.incoming ≡ xs ++ ys → Gives (read_exact (length xs)) s xs ys
unfolding read_exact
read_exact_lem xs ys s h =
    let (cuts, e) =
      receive_lem (length xs) (length xs) [] s (omega arith)
        (omega (arith, length-append xs ys, ap (λ (l : Bytes). length l) h)) in
    (cuts, e ∙ whole_read (length xs - 0) xs ys s cuts h (omega arith))

abbrev pub left_with : Socket → Bytes → List ℕ → Socket
left_with s bs cuts = record s { incoming = bs; cuts = cuts }

round_lem :
    (left shift value : ℕ) (s : Socket) (b : ℕ) (bs : Bytes)
    → s.incoming ≡ b ∷ bs
    → (cuts : List ℕ) × (read_loop (suc left) shift value s ≡ (
        if goes_on b
        then read_loop left (shift + 7) (add_group value b shift) (left_with s bs cuts)
        else (ok (add_group value b shift), left_with s bs cuts)))
unfolding read_loop first_byte
round_lem left shift value s b bs h =
    let (cuts, e) = read_exact_lem (b ∷ []) bs s h in
    (cuts, rw (e, read_loop, first_byte) (byte_test cuts (goes_on b)))
  where
    byte_test :
        (cuts : List ℕ) (test : Bool)
        → (if test
              then read_loop left (shift + 7) (add_group value b shift)
              else (λ t. (ok (add_group value b shift), t)))
            (left_with s bs cuts)
          ≡ (if test
              then read_loop left (shift + 7) (add_group value b shift) (left_with s bs cuts)
              else (ok (add_group value b shift), left_with s bs cuts))
    byte_test cuts true = refl
    byte_test cuts false = refl

last_round :
    (left shift value v : ℕ) (s : Socket) (rest : Bytes)
    → v < 128
    → s.incoming ≡ v ∷ rest
    → Gives (read_loop (suc left) shift value) s (value + v * 2 ^ shift) rest
last_round left shift value v s rest one h =
    let (cuts, e) = round_lem left shift value s v rest h in
    (
      cuts,
      rw (e, (last_group v shift value one).0)
          (ap (λ (n : ℕ). (ok n, left_with s rest cuts)) (last_group v shift value one).1),
    )

inner_round :
    (left shift value v : ℕ) (s : Socket) (rest : Bytes) (middle end : Socket)
    → read_loop (suc left) shift value s ≡ (
        if goes_on (v % 128 + 128)
        then read_loop left (shift + 7) (add_group value (v % 128 + 128) shift) middle
        else (ok (add_group value (v % 128 + 128) shift), middle))
    → read_loop left (shift + 7) (add_group value (v % 128 + 128) shift) middle
      ≡ (ok (add_group value (v % 128 + 128) shift + v / 128 * 2 ^ (shift + 7)), end)
    → read_loop (suc left) shift value s ≡ (ok (value + v * 2 ^ shift), end)
inner_round left shift value v s rest middle end r more =
    rw (r, (inner_group v shift value).0)
      (more ∙ ap (λ (n : ℕ). (ok n, end)) (inner_group v shift value).1)

read_loop-encode :
    (left fuel shift value v : ℕ) (s : Socket) (rest : Bytes)
    → v < 128 ^ suc left
    → v < fuel
    → s.incoming ≡ encode_loop fuel v ++ rest
    → Gives (read_loop (suc left) shift value) s (value + v * 2 ^ shift) rest
read_loop-encode left zero shift value v s rest small enough h = ground arith
read_loop-encode zero (suc fuel) shift value v s rest small enough h =
    elim (encode_loop_cases fuel v enough) [
      | inl (one, e) ↦ last_round zero shift value v s rest one (h ∙ ap (λ l. l ++ rest) e)
      | inr (big, less, e) ↦ ground arith
    ]
read_loop-encode (suc left) (suc fuel) shift value v s rest small enough h =
    elim (encode_loop_cases fuel v enough) [
      | inl (one, e) ↦ last_round (suc left) shift value v s rest one (h ∙ ap (λ l. l ++ rest) e)
      | inr (big, less, e) ↦
          let (cuts, r) =
            round_lem (suc left) shift value s _ (encode_loop fuel (v / 128) ++ rest)
              (h ∙ ap (λ l. l ++ rest) e) in
          let (last_cuts, more) =
            read_loop-encode left fuel (shift + 7) (add_group value (v % 128 + 128) shift) (v / 128)
              (left_with s (encode_loop fuel (v / 128) ++ rest) cuts) rest (omega arith) less
              refl in
          (last_cuts, inner_round (suc left) shift value v s rest _ _ r more)
    ]

-- A packet of 1 to 32768 bytes after their number is read back, however the network cuts the bytes, and
-- what follows it is left.
pub read_packet-encode :
    (payload rest : Bytes) (s : Socket)
    → 0 < length payload
    → length payload ≤ 32768
    → s.incoming ≡ encode_varint (length payload) ++ (payload ++ rest)
    → Gives read_packet s payload rest
unfolding read_packet read_varint encode_varint
read_packet-encode payload rest s some_bytes small h =
    let (cuts, e) =
      read_loop-encode 4 (length payload + 1) 0 0 (length payload) s (payload ++ rest) (omega arith)
        (omega arith) h in
    let (last_cuts, body) = read_exact_lem payload rest (left_with s (payload ++ rest) cuts) refl in
    let size : 0 + length payload * 2 ^ 0 ≡ length payload = omega arith in
    (
      last_cuts,
      rw (e, size, not_zero (length payload) some_bytes, not_above (length payload) 32768 small)
          body,
    )
