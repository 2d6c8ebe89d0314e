-- ===== src/Base/Strings.antt =====
-- The methods of Python's `str` that the program calls: strip, split and join on white space.
use mc_admin.Base.Tests.{leb, ltb, ◌==◌, if◌then◌else◌}
use mc_admin.Base.Lists.{any}
use mc_admin.Base.Texts.{Text}
use Prim.Native.Nat.{ℕ, zero, suc, ◌+◌, ◌/◌, ◌%◌}
use mathlib.Core.Bool.{Bool, true, false, ◌&&◌, ◌||◌}
use mathlib.Core.List.{List, [], ◌∷◌, ◌++◌}

-- `str.isspace` of one character.
unfoldable pub is_space : ℕ → Bool
is_space c =
    (leb 9 c && leb c 13)
    || (leb 28 c && leb c 32)
    || any (λ x. c == x) (133 ∷ 160 ∷ 5760 ∷ 8232 ∷ 8233 ∷ 8239 ∷ 8287 ∷ 12288 ∷ [])
    || (leb 8192 c && leb c 8202)

lstrip : Text → Text
lstrip [] = []
lstrip (c ∷ s) = let rest = lstrip s in if is_space c then rest else c ∷ s

is_blank : Text → Bool
is_blank [] = true
is_blank (c ∷ s) = false

rstrip : Text → Text
unfolding is_blank
rstrip [] = []
rstrip (c ∷ s) = let rest = rstrip s in if is_space c && is_blank rest then [] else c ∷ rest

unfoldable pub strip : Text → Text
unfolding lstrip rstrip is_space
strip s = rstrip (lstrip s)

-- One character in front of the words of the rest; `gap` says that a word may not be continued.
extend : ℕ → Bool → List Text → List Text
extend c true ws = (c ∷ []) ∷ ws
extend c false [] = (c ∷ []) ∷ []
extend c false (w ∷ ws) = (c ∷ w) ∷ ws

starts_blank : Text → Bool
starts_blank [] = true
starts_blank (c ∷ s) = is_space c

-- `s.split()`
unfoldable pub split : Text → List Text
unfolding extend starts_blank is_space
split [] = []
split (c ∷ s) = let ws = split s in if is_space c then ws else extend c (starts_blank s) ws

-- `" ".join(words)`
unfoldable pub join : List Text → Text
join [] = []
join (w ∷ []) = w
join (w ∷ (v ∷ ws)) = w ++ (32 ∷ join (v ∷ ws))

digits : ℕ → ℕ → Text
digits zero n = []
digits (suc fuel) n =
    let rest = digits fuel (n / 10) in
    if ltb n 10 then (48 + n) ∷ [] else rest ++ (48 + n % 10) ∷ []

-- `str(n)`; a number has at most as many digits as itself and one more.
unfoldable pub decimal : ℕ → Text
unfolding digits
decimal n = digits (n + 1) n
