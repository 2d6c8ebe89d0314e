-- ===== src/Doorman/Server/Reading.antt =====
-- app/doorman_server.py: what is read is a part of what the client sends.
use mc_admin.Base.{
  ℕ, zero, suc, ◌+◌, ◌-◌, ◌≡◌, refl, ap, ◌∙◌, true, false, Bool, [], ◌++◌, length, leb, ◌==◌, ltb,
  take-drop, if◌then◌else◌,
}
use mc_admin.Doorman.{Bytes, Result, ok, raised, os_error, protocol_error}
use mc_admin.Doorman.Varint.{goes_on}
use mc_admin.Doorman.Wire.{
  Socket, Talk, pass, lift, ◌>>=◌, recv, receive, portion, read_exact, first_byte, read_loop,
  read_varint, read_packet,
}
use mathlib.Core.List.{append_assoc}

-- What an action returns stands in the bytes that were to come, before those that are still to come.
abbrev pub Taken : {A : Type 0} → (A → Bytes) → Bytes → Result A × Socket → Type 0
Taken part incoming (ok a, t) = (before : Bytes) × (before ++ (part a ++ t.incoming) ≡ incoming)
Taken part incoming (raised x, t) = Unit

pub record Reads {A : Type 0} (part : A → Bytes) (m : Talk A) : Type 0 where
  pub reads : (s : Socket) → Taken part s.incoming (m s)

abbrev pub nothing_of : {A : Type 0} → A → Bytes
nothing_of a = []

pub Reads-lift : {A : Type 0} (r : Result A) → Reads nothing_of (lift r)
Reads-lift (ok a) = record { reads = λ s. ([], refl) }
Reads-lift (raised x) = record { reads = λ s. tt }

pub joined :
    (before x y z new middle old : Bytes)
    → before ++ (x ++ middle) ≡ old
    → y ++ (z ++ new) ≡ middle
    → ((before ++ x) ++ y) ++ (z ++ new) ≡ old
joined before x y z new middle old h k =
    append_assoc (before ++ x) y (z ++ new)
    ∙ ap (λ (l : Bytes). (before ++ x) ++ l) k
    ∙ append_assoc before x middle
    ∙ h

Taken-pass :
    {A B : Type 0} (p : A → Bytes) (q : B → Bytes) (f : A → Talk B) (old : Bytes)
    (r : Result A × Socket)
    → Taken p old r
    → ((a : A) → Reads q (f a))
    → Taken q old (pass f r)
Taken-pass p q f old (raised x, t) h rest = tt
Taken-pass {A} {B} p q f old (ok a, t) (before, e) rest = go (f a t) ((rest a).reads t)
  where
    go : (r : Result B × Socket) → Taken q t.incoming r → Taken q old r
    go (raised x, u) k = tt
    go (ok b, u) (y, k) =
        ((before ++ p a) ++ y, joined before (p a) y (q b) u.incoming t.incoming old e k)

pub Reads-bind :
    {A B : Type 0} {p : A → Bytes} {q : B → Bytes} {m : Talk A} {f : A → Talk B}
    → Reads p m
    → ((a : A) → Reads q (f a))
    → Reads q (m >>= f)
Reads-bind {p = p} {q = q} {m = m} {f = f} hm hf = record {
  reads = λ s. Taken-pass p q f s.incoming (m s) (hm.reads s) hf;
}

pub Reads-if :
    {A : Type 0} {p : A → Bytes} (b : Bool) {m n : Talk A}
    → Reads p m
    → Reads p n
    → Reads p (if b then m else n)
Reads-if true hm hn = hm
Reads-if false hm hn = hn

-- What is returned, and what is still to come, are the whole.
abbrev Whole : Bytes → Result Bytes × Socket → Type 0
Whole whole (ok bytes, t) = bytes ++ t.incoming ≡ whole
Whole whole (raised x, t) = Unit

Whole-if :
    (b : Bool) (whole : Bytes) (x y : Result Bytes × Socket)
    → Whole whole x
    → Whole whole y
    → Whole whole (if b then x else y)
Whole-if true whole x y h k = h
Whole-if false whole x y h k = k

Whole-recv : (asked : ℕ) (s : Socket) → Whole s.incoming (recv asked s)
unfolding recv
Whole-recv asked s =
    Whole-if (length s.incoming == 0) s.incoming _ _ (hung s.hangs_up)
      (take-drop (portion asked s.cuts) s.incoming)
  where
    hung : (b : Bool) → Whole s.incoming (if b then ok [] else raised os_error, s)
    hung true = refl
    hung false = tt

Whole-receive :
    (fuel count : ℕ) (bytes : Bytes) (s : Socket)
    → Whole (bytes ++ s.incoming) (receive fuel count bytes s)
unfolding receive
Whole-receive zero count bytes s = refl
Whole-receive (suc fuel) count bytes s =
    Whole-if (leb count (length bytes)) (bytes ++ s.incoming) _ _ refl (
      go (recv (count - length bytes) s) (λ chunk t. Whole-receive fuel count (bytes ++ chunk) t)
        (Whole-recv (count - length bytes) s))
  where
    at :
        (chunk : Bytes) (t : Socket) (whole : Bytes)
        → (bytes ++ chunk) ++ t.incoming ≡ whole
        → (r : Result Bytes × Socket) → Whole ((bytes ++ chunk) ++ t.incoming) r
        → Whole whole r
    at chunk t whole e (ok b, u) h = h ∙ e
    at chunk t whole e (raised x, u) h = tt

    go :
        (r : Result Bytes × Socket)
        → ((chunk : Bytes) (t : Socket)
            → Whole ((bytes ++ chunk) ++ t.incoming) (receive fuel count (bytes ++ chunk) t))
        → Whole s.incoming r
        → Whole (bytes ++ s.incoming) (
            pass
              (λ chunk s'.
                if length chunk == 0
                then (raised protocol_error, s')
                else receive fuel count (bytes ++ chunk) s')
              r)
    go (raised x, t) rest h = tt
    go (ok chunk, t) rest h = Whole-if (length chunk == 0) _ _ _ tt (
        at chunk t _ (append_assoc bytes chunk t.incoming ∙ ap (λ (l : Bytes). bytes ++ l) h)
          (receive fuel count (bytes ++ chunk) t) (rest chunk t))

pub Reads-read_exact : (count : ℕ) → Reads (λ bytes. bytes) (read_exact count)
unfolding read_exact
Reads-read_exact count = record {
  reads = λ s. go s (receive count count [] s) (Whole-receive count count [] s);
}
  where
    go :
        (s : Socket) (r : Result Bytes × Socket)
        → Whole s.incoming r
        → Taken (λ (bytes : Bytes). bytes) s.incoming r
    go s (ok bytes, t) h = ([], h)
    go s (raised x, t) h = tt

Reads-read_loop : (left shift value : ℕ) → Reads nothing_of (read_loop left shift value)
unfolding read_loop
Reads-read_loop zero shift value = Reads-lift _
Reads-read_loop (suc left) shift value = Reads-bind (Reads-read_exact 1) (λ bytes.
    Reads-if (goes_on (first_byte bytes)) (Reads-read_loop left (shift + 7) _) (Reads-lift _))

Reads-raised : {A : Type 0} (p : A → Bytes) (x : _) → Reads p (lift (raised x))
Reads-raised p x = record { reads = λ s. tt }

pub Reads-read_packet : Reads (λ bytes. bytes) read_packet
unfolding read_packet read_varint
Reads-read_packet = Reads-bind (Reads-read_loop 5 0 0) (λ size.
    Reads-if (size == 0) (Reads-raised _ _)
      (Reads-if (ltb 32768 size) (Reads-raised _ _) (Reads-read_exact size)))
