-- ===== src/Transport/Text.antt =====
-- What brokers/transport.py and brokers/identity.py ask of a text: a split, a search, and the
-- regular expressions of a number and of a name.
use Prim.Native.String.{String, len, find}
use Prim.Native.Char.{Char, code}
use bot_trading.Prelude.{
  ℕ, ◌+◌, ◌==◌, Bool, true, false, not, ◌&&◌, ◌||◌, List, [], ◌∷◌, leb, str_eq, if◌then◌else◌,
}

-- `part in text`
abbrev pub contains : String → String → Bool
contains text part = leb (find text part) (len text)

abbrev extend : Char → List String → List String
extend c [] = String.◌∷◌ c "" ∷ []
extend c (part ∷ parts) = String.◌∷◌ c part ∷ parts

-- `text.split(separator)`, with the code of the separator
abbrev pub split : ℕ → String → List String
split separator String.[] = "" ∷ []
split separator (String.◌∷◌ c s) =
    let rest = split separator s in if code c == separator then "" ∷ rest else extend c rest

abbrev pub all_chars : (ℕ → Bool) → String → Bool
all_chars p String.[] = true
all_chars p (String.◌∷◌ c s) = p (code c) && all_chars p s

abbrev between : ℕ → ℕ → ℕ → Bool
between low high n = leb low n && leb n high

abbrev is_digit : ℕ → Bool
is_digit = between 48 57

-- `[1-9][0-9]{0,n}`
abbrev pub is_number : ℕ → String → Bool
is_number n String.[] = false
is_number n (String.◌∷◌ c s) = between 49 57 (code c) && all_chars is_digit s && leb (len s) n

-- `[a-z.-]+`
abbrev pub is_name : String → Bool
is_name s = not (str_eq s "") && all_chars (λ n. between 97 122 n || n == 45 || n == 46) s

-- The text without the case of its letters: the search below looks for small letters of ASCII.
abbrev is_letter : ℕ → ℕ → Bool
is_letter small n = n == small || n + 32 == small

abbrev begins_real : String → Bool
begins_real (String.◌∷◌ r (String.◌∷◌ e (String.◌∷◌ a (String.◌∷◌ l s)))) =
    is_letter 114 (code r)
    && is_letter 101 (code e)
    && is_letter 97 (code a)
    && is_letter 108 (code l)
begins_real _ = false

-- `"real" in text.lower()`
abbrev pub mentions_real : String → Bool
mentions_real String.[] = false
mentions_real (String.◌∷◌ c s) = begins_real (String.◌∷◌ c s) || mentions_real s
