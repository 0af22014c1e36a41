-- ===== src/Logs/Text.antt =====
-- log_window.py and log_episodes.py: the texts they search, as their regular expressions do it. The
-- classes of characters are those of ASCII, and white space is Python's.
use Prim.Native.Char.{code}
use ai_ops.Prelude.{
  ℕ, zero, suc, ◌+◌, ◌*◌, ◌-◌, String, str_append, Bool, true, false, not, ◌&&◌, ◌||◌, Option, none,
  some, List, [], ◌∷◌, leb, ◌==◌, is_space, is_empty, without_prefix, if◌then◌else◌,
}

module _ {ℓ κ} {Found : Type ℓ} {Answer : Type κ} where
  infixl 5 ◌>>=◌
  -- a pattern whose first part fails, fails
  abbrev pub ◌>>=◌ : Option Found → (Found → Option Answer) → Option Answer
  none >>= rest = none
  some found >>= rest = rest found

abbrev pub is_digit : ℕ → Bool
is_digit c = leb 48 c && leb c 57

abbrev pub is_letter : ℕ → Bool
is_letter c = (leb 65 c && leb c 90) || (leb 97 c && leb c 122)

-- `\w`
abbrev pub is_word : ℕ → Bool
is_word c = is_letter c || is_digit c || c == 95

-- the longest start of a text in a class of characters, and the rest
unfoldable pub span : (ℕ → Bool) → String → String × String
span p String.[] = ("", "")
span p (String.◌∷◌ c s) =
    let (front, back) = span p s in
    if p (code c) then (String.◌∷◌ c front, back) else ("", String.◌∷◌ c s)

unfoldable pub size : String → ℕ
size String.[] = 0
size (String.◌∷◌ c s) = suc (size s)

-- between `lo` and `hi` characters of a class, none of which can follow them
unfoldable pub run : (ℕ → Bool) → ℕ → ℕ → String → Option (String × String)
unfolding span size
run p lo hi s =
    let (front, back) = span p s in
    if leb lo (size front) && leb (size front) hi then some (front, back) else none

-- `\s+`
unfoldable pub spaces : String → Option String
unfolding span is_space
spaces s = let (front, back) = span is_space s in if is_empty front then none else some back

-- `needle in s`
unfoldable pub contains : String → String → Bool
unfolding without_prefix
contains needle String.[] = is_empty needle
contains needle (String.◌∷◌ c s) = elim (without_prefix needle (String.◌∷◌ c s)) [
  | none ↦ contains needle s
  | some rest ↦ true
]

-- `(?:\d{1,3}\.){n}\d{1,3}`
octets : ℕ → String → Option (String × String)
unfolding run without_prefix
octets zero s = run is_digit 1 3 s
octets (suc n) s = do
  (here, after) ← run is_digit 1 3 s
  more ← without_prefix "." after
  (rest, back) ← octets n more
  some (str_append here (str_append "." rest), back)

-- `\b` after a digit
at_boundary : String → Bool
at_boundary String.[] = true
at_boundary (String.◌∷◌ c s) = not (is_word (code c))

address : String → Option String
unfolding octets at_boundary
address s = do (found, back) ← octets 3 s; if at_boundary back then some found else none

-- the search from left to right: `inside` says that a word character stands before, `skip` how many
-- characters the last match still covers
found : Bool → ℕ → String → List String
unfolding address size
found inside skip String.[] = []
found inside (suc skip) (String.◌∷◌ c s) = found (is_word (code c)) skip s
found true zero (String.◌∷◌ c s) = found (is_word (code c)) zero s
found false zero (String.◌∷◌ c s) = elim (address (String.◌∷◌ c s)) [
  | none ↦ found (is_word (code c)) zero s
  | some a ↦ a ∷ found (is_word (code c)) (size a - 1) s
]

-- `_IPV4.findall`
unfoldable pub addresses : String → List String
unfolding found
addresses s = found false zero s

is_name_code : ℕ → Bool
is_name_code c = is_word c || c == 46 || c == 47 || c == 45

starts_with_letter : String → Bool
starts_with_letter String.[] = false
starts_with_letter (String.◌∷◌ c s) = is_letter (code c)

-- `Interface\s+([A-Za-z][A-Za-z0-9_./-]{0,62}),` at the start of a text
mention : String → Option String
unfolding run spaces without_prefix is_name_code starts_with_letter
mention s = do
  after ← without_prefix "Interface" s
  rest ← spaces after
  (name, back) ← run is_name_code 1 63 rest
  comma ← without_prefix "," back
  if starts_with_letter name then some name else none

-- `_INTERFACE_MENTION.search`
unfoldable pub interface_mention : String → Option String
unfolding mention
interface_mention String.[] = none
interface_mention (String.◌∷◌ c s) = elim (mention (String.◌∷◌ c s)) [
  | none ↦ interface_mention s
  | some name ↦ some name
]

-- `int(s)` of digits
value : ℕ → String → ℕ
value n String.[] = n
value n (String.◌∷◌ c s) = value (n * 10 + (code c - 48)) s

-- a group of digits, and what follows
unfoldable pub digits : ℕ → ℕ → String → Option (ℕ × String)
unfolding run value
digits lo hi s = do (front, back) ← run is_digit lo hi s; some (value 0 front, back)
