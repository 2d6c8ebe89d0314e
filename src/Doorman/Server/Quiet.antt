-- ===== src/Doorman/Server/Quiet.antt =====
-- app/doorman_server.py: reading sends nothing.
use mc_admin.Base.{
  ℕ, zero, suc, ◌+◌, ◌-◌, ◌≡◌, refl, ◌∙◌, true, false, Bool, [], ◌++◌, length, leb, ◌==◌, ltb,
  if◌then◌else◌,
}
use mc_admin.Doorman.{Bytes, Result, ok, raised}
use mc_admin.Doorman.Varint.{goes_on}
use mc_admin.Doorman.Wire.{
  Socket, Talk, pass, lift, ◌>>=◌, recv, receive, read_exact, first_byte, read_loop, read_varint,
  read_packet,
}

-- An action that sends nothing.
pub record Silent {A : Type 0} (m : Talk A) : Type 0 where
  pub quiet : (s : Socket) → (m s).1.outgoing ≡ s.outgoing

pub Silent-lift : {A : Type 0} (r : Result A) → Silent (lift r)
Silent-lift r = record { quiet = λ s. refl }

pass_quiet :
    {A B : Type 0} (f : A → Talk B) (r : Result A × Socket) (o : Bytes)
    → ((a : A) (t : Socket) → (f a t).1.outgoing ≡ t.outgoing)
    → r.1.outgoing ≡ o
    → (pass f r).1.outgoing ≡ o
pass_quiet f (ok a, t) o h e = h a t ∙ e
pass_quiet f (raised x, t) o h e = e

pub Silent-bind :
    {A B : Type 0} {m : Talk A} {f : A → Talk B}
    → Silent m
    → ((a : A) → Silent (f a))
    → Silent (m >>= f)
Silent-bind {f = f} hm hf = record {
  quiet = λ s. pass_quiet f _ s.outgoing (λ a. (hf a).quiet) (hm.quiet s);
}

pub Silent-if :
    {A : Type 0} (b : Bool) {m n : Talk A} → Silent m → Silent n → Silent (if b then m else n)
Silent-if true hm hn = hm
Silent-if false hm hn = hn

-- Both results of a test have sent the same.
if_quiet :
    {A : Type 0} (b : Bool) (x y : Result A × Socket) (o : Bytes)
    → x.1.outgoing ≡ o
    → y.1.outgoing ≡ o
    → (if b then x else y).1.outgoing ≡ o
if_quiet true x y o hx hy = hx
if_quiet false x y o hx hy = hy

pub Silent-recv : (n : ℕ) → Silent (recv n)
unfolding recv
Silent-recv n = record { quiet = λ s. if_quiet (length s.incoming == 0) _ _ s.outgoing refl refl }

pub Silent-receive : (fuel count : ℕ) (bytes : Bytes) → Silent (receive fuel count bytes)
unfolding receive
Silent-receive zero count bytes = record { quiet = λ s. refl }
Silent-receive (suc fuel) count bytes = record {
  quiet = λ s. if_quiet (leb count (length bytes)) _ _ s.outgoing refl (
      pass_quiet _ (recv (count - length bytes) s) s.outgoing
        (λ chunk t.
          if_quiet (length chunk == 0) _ _ t.outgoing refl
            ((Silent-receive fuel count (bytes ++ chunk)).quiet t))
        ((Silent-recv (count - length bytes)).quiet s));
}

pub Silent-read_loop : (left shift value : ℕ) → Silent (read_loop left shift value)
unfolding read_loop read_exact
Silent-read_loop zero shift value = Silent-lift _
Silent-read_loop (suc left) shift value = Silent-bind (Silent-receive 1 1 []) (λ bytes.
    Silent-if (goes_on (first_byte bytes)) (Silent-read_loop left (shift + 7) _) (Silent-lift _))

pub Silent-read_packet : Silent read_packet
unfolding read_packet read_varint read_exact
Silent-read_packet = Silent-bind (Silent-read_loop 5 0 0) (λ size.
    Silent-if (size == 0) (Silent-lift _)
      (Silent-if (ltb 32768 size) (Silent-lift _) (Silent-receive size size [])))
