-- ===== src/Budget.antt =====
-- evidence_budget.py: a section of evidence is cut in the middle, to fit the characters that a model is
-- given. A budget that is not positive is 0.
pub mod Slices
pub mod Cut
use Prim.Native.Nat.{◌/◌}
use Prim.Native.String.{count}
use ai_ops.Prelude.{
  ℕ, zero, suc, ◌+◌, ◌-◌, ◌≤◌, max, String, str_append, Bool, true, false, ◌||◌, leb, ltb, ◌==◌,
  is_empty, decimal, if◌then◌else◌,
}

pub data ℤ : Type 0 where
  pos : ℕ → ℤ
  negsuc : ℕ → ℤ

-- `a - b`
abbrev pub difference : ℕ → ℕ → ℤ
difference a b = if leb b a then pos (a - b) else negsuc (b - suc a)

abbrev pub spelled : ℤ → String
unfolding decimal
spelled (pos n) = decimal n
spelled (negsuc n) = str_append "-" (decimal (suc n))

-- `text[:n]`
unfoldable pub first : ℕ → String → String
first zero s = ""
first (suc n) String.[] = ""
first (suc n) (String.◌∷◌ c s) = String.◌∷◌ c (first n s)

-- `text[n:]`
unfoldable pub from_index : ℕ → String → String
from_index zero s = s
from_index (suc n) String.[] = ""
from_index (suc n) (String.◌∷◌ c s) = from_index n s

-- `text[len(text) - tail_len :] if tail_len else ""`; an index below 0 counts from the end
abbrev pub tail_of : String → ℕ → String
unfolding from_index
tail_of text tail_len =
    if tail_len == 0
    then ""
    else if leb tail_len (count text)
    then from_index (count text - tail_len) text
    else from_index (count text - (tail_len - count text)) text

abbrev pub omitted_of : String → ℕ → ℕ → ℤ
omitted_of text head_len tail_len = difference (count text) (head_len + tail_len)

unfoldable pub marked : String → ℤ → String → String
unfolding spelled
marked head omitted tail =
    let start =
      str_append head
        (str_append "\n[TRUNCATED: " (str_append (spelled omitted) " characters omitted]")) in
    if is_empty tail then start else str_append start (str_append "\n" tail)

unfoldable pub rendered : String → ℕ → ℕ → String
unfolding first tail_of marked
rendered text head_len tail_len =
    marked (first head_len text) (omitted_of text head_len tail_len) (tail_of text tail_len)

-- the rounds of the loop that have no tail left
unfoldable pub shrink_head : String → ℕ → ℕ → String × ℤ
unfolding rendered
shrink_head text budget zero = (rendered text 0 0, omitted_of text 0 0)
shrink_head text budget (suc head_len) =
    let rest = shrink_head text budget head_len in
    if leb (count (rendered text (suc head_len) 0)) budget
    then (rendered text (suc head_len) 0, omitted_of text (suc head_len) 0)
    else rest

-- the loop
unfoldable pub shrink : String → ℕ → ℕ → ℕ → String × ℤ
unfolding shrink_head
shrink text budget head_len zero = shrink_head text budget head_len
shrink text budget head_len (suc tail_len) =
    let rest = shrink text budget head_len tail_len in
    if leb (count (rendered text head_len (suc tail_len))) budget
    then (rendered text head_len (suc tail_len), omitted_of text head_len (suc tail_len))
    else rest

-- `max(budget - _MARKER_RESERVE, _MIN_KEEP)`
abbrev pub kept_of : ℕ → ℕ
kept_of budget = max (budget - 48) 20

unfoldable pub truncate_middle : String → ℕ → String × ℤ
unfolding shrink
truncate_middle text budget =
    if budget == 0 || leb (count text) budget
    then (text, pos 0)
    else shrink text budget (kept_of budget - kept_of budget / 2) (kept_of budget / 2)
