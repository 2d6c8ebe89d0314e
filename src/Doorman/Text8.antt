-- ===== src/Doorman/Text8.antt =====
-- The two calls of the standard library that app/doorman_server.py writes texts with: UTF-8, and
-- `json.dumps` with `ensure_ascii=False`.
use mc_admin.Base.{
  ℕ, Text, codes, [], ◌∷◌, ◌++◌, ◌+◌, ◌/◌, ◌%◌, ◌&&◌, ltb, leb, ◌==◌, if◌then◌else◌,
}
use mc_admin.Doorman.{Bytes, Result, ok, raised, unicode_error, ◌>>=◌}

-- One code point; a surrogate has no encoding.
utf8_char : ℕ → Result Bytes
utf8_char c =
    if ltb c 128
    then ok (c ∷ [])
    else if ltb c 2048
    then ok ((192 + c / 64) ∷ ((128 + c % 64) ∷ []))
    else if leb 55296 c && leb c 57343
    then raised unicode_error
    else if ltb c 65536
    then ok ((224 + c / 4096) ∷ ((128 + c / 64 % 64) ∷ ((128 + c % 64) ∷ [])))
    else ok (
        (240 + c / 262144)
        ∷ ((128 + c / 4096 % 64) ∷ ((128 + c / 64 % 64) ∷ ((128 + c % 64) ∷ []))))

-- `text.encode("utf-8")`
unfoldable pub utf8 : Text → Result Bytes
unfolding utf8_char
utf8 [] = ok []
utf8 (c ∷ text) = do front ← utf8_char c; back ← utf8 text; ok (front ++ back)

hex_digit : ℕ → ℕ
hex_digit n = if ltb n 10 then 48 + n else 87 + n

escape : ℕ → Text
unfolding hex_digit
escape c =
    if c == 34
    then codes "\\\""
    else if c == 92
    then codes "\\\\"
    else if c == 10
    then codes "\\n"
    else if c == 13
    then codes "\\r"
    else if c == 9
    then codes "\\t"
    else if c == 12
    then codes "\\f"
    else if c == 8
    then codes "\\b"
    else if ltb c 32
    then codes "\\u00" ++ (hex_digit (c / 16) ∷ (hex_digit (c % 16) ∷ []))
    else c ∷ []

escape_all : Text → Text
unfolding escape
escape_all [] = []
escape_all (c ∷ text) = escape c ++ escape_all text

-- A text as JSON.
unfoldable pub quoted : Text → Text
unfolding escape_all
quoted text = 34 ∷ (escape_all text ++ (34 ∷ []))
