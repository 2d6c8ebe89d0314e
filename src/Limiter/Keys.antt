-- ===== src/Limiter/Keys.antt =====
-- app/api/login_security.py: the settings of the limiter, and its keys: the IP, and the pair of
-- the IP and the name. The standard library's reading of an IP address and its folding of case
-- are parameters.
use mc_admin.Base.{
  ℕ, Bool, true, false, ◌&&◌, ◌||◌, Option, none, some, [], ◌∷◌, Text, codes, text_eq, take, ltb,
  ◌==◌, ==_iff, if◌then◌else◌, ◌≡◌, ◌↔◌, arith, text_eq_iff,
}
use mc_admin.Base.Dict.{Eq}
use mc_admin.Base.Strings.{strip}
use mc_admin.Limiter.Buckets.{Ordered, is_nil}

-- The numeric arguments of `__init__`.
pub record Settings : Type 0 where
  pub pair_max_failures : ℕ
  pub ip_max_failures : ℕ
  pub window_seconds : ℕ
  pub pair_lock_seconds : ℕ
  pub ip_lock_seconds : ℕ
  pub max_pair_keys : ℕ
  pub max_ip_keys : ℕ
  pub lease_timeout_seconds : ℕ
  pub cleanup_interval_seconds : ℕ

pub record PairKey : Type 0 where
  pub ip : Text
  pub name : Text

unfoldable pub pair_beq : PairKey → PairKey → Bool
pair_beq a b = text_eq a.ip b.ip && text_eq a.name b.name

pub pair_beq_iff : (a b : PairKey) → (pair_beq a b ≡ true) ↔ (a ≡ b)
unfolding pair_beq
pair_beq_iff a b = ground (arith, text_eq_iff a.ip b.ip, text_eq_iff a.name b.name)

instance abbrev pub pair_Eq : Eq PairKey
pair_Eq = record { beq = pair_beq; beq_iff = pair_beq_iff }

instance abbrev pub token_Eq : Eq ℕ
token_Eq = record { beq = ◌==◌; beq_iff = ==_iff }

-- Texts are compared by their code points.
unfoldable pub text_before : Text → Text → Bool
text_before [] [] = false
text_before [] (y ∷ ys) = true
text_before (x ∷ xs) [] = false
text_before (x ∷ xs) (y ∷ ys) = ltb x y || (x == y && text_before xs ys)

instance abbrev pub text_Ordered : Ordered Text
text_Ordered = record { before = text_before }

instance abbrev pub pair_Ordered : Ordered PairKey
pair_Ordered = record {
  before = λ a b. text_before a.ip b.ip || (text_eq a.ip b.ip && text_before a.name b.name);
}

-- The standard library: the canonical text of an IP address, if it is one, and `casefold`.
pub record Library : Type 0 where
  pub parse_ip : Text → Option Text
  pub casefold : Text → Text

unfoldable pub normalize_ip : Library → Text → Text
normalize_ip lib value =
    let stripped = strip value in
    let text = if is_nil stripped then codes "unknown" else stripped in
    elim (lib.parse_ip text) [ some canonical ↦ canonical | none ↦ lib.casefold text ]

-- `_normalize_username`, cut at `_MAX_USERNAME_KEY_LENGTH`
unfoldable pub normalize_username : Library → Text → Text
normalize_username lib value = take 128 (lib.casefold (strip value))
