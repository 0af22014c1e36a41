-- ===== src/Coherence.antt =====
-- epoch.py: whether the observations of one epoch support one claim about the present.
-- Widths of windows are in milliseconds.
use ai_ops.Prelude.{
  ℕ, ◌≡◌, String, Bool, true, false, not, ◌&&◌, List, [], ◌∷◌, str_eq, leb, all, arith,
  if◌then◌else◌,
}

-- `Reread`: `before` and `after` are a status, or `reread_failed`.
pub record Reread : Type 0 where
  pub rung : String
  pub device : String
  pub before : String
  pub after : String

unfoldable pub agrees : Reread → Bool
agrees r = str_eq r.before r.after

pub record Coherence : Type 0 where
  pub skew : ℕ
  pub bound : ℕ
  pub rereads : List Reread

pub data CoherenceStatus : Type 0 where
  coherent fabric_moved window_limited unverified : CoherenceStatus

unfoldable pub within_bound : Coherence → Bool
within_bound c = leb c.skew c.bound

abbrev pub is_nil : List Reread → Bool
is_nil [] = true
is_nil (r ∷ rs) = false

unfoldable pub stable : Coherence → Bool
unfolding agrees
stable c = not (is_nil c.rereads) && all agrees c.rereads

unfoldable pub status : Coherence → CoherenceStatus
unfolding agrees within_bound
status c =
    if is_nil c.rereads
    then unverified
    else if not (all agrees c.rereads)
    then fabric_moved
    else if within_bound c
    then coherent
    else window_limited

abbrev forbids : CoherenceStatus → Bool
forbids fabric_moved = true
forbids unverified = true
forbids _ = false

unfoldable pub refuses : Coherence → Bool
unfolding status
refuses c = forbids (status c)

-- A finding is forbidden exactly where the fabric was not observed stable: the width of the window
-- only qualifies it.
pub refuses-eq-not-stable : (c : Coherence) → refuses c ≡ not (stable c)
unfolding refuses stable
refuses-eq-not-stable c = ground arith
