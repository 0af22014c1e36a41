-- ===== src/Logs/Episodes/Gaps.antt =====
-- The episodes cut the sorted records, without a loss, exactly where a gap exceeds its bound.
use ai_ops.Prelude.{
  ℕ, suc, ◌+◌, ◌*◌, ◌≤◌, ◌<◌, ◌≡◌, refl, ap, ◌∙◌, String, true, false, none, some, List, [], ◌∷◌,
  ◌++◌, leb, leb→le, not-leb→lt, Option-cases, Bool-cases, inl, inr, length, ◌⊎◌,
}
use ai_ops.Logs.{LogRecord}
use ai_ops.Logs.Clock.{seconds_between}
use ai_ops.Logs.Episodes.{
  Timed, EpisodeJoin, Episode, EpisodeSet, pair_bound, link, finish_episode, sort, timed,
}

-- a join records the time between its two events, and that is within the bound of the two
abbrev pub Joins : Timed → Timed → EpisodeJoin → Type 0
Joins a b j =
    (seconds_between a.0 b.0 ≡ some j.gap)
    × ((j.bound_seconds, j.reason) ≡ pair_bound a.1 b.1)
    × (j.gap ≤ j.bound_seconds * 1000)

-- each event of an episode joins the next one
abbrev pub Chain : List Timed → List EpisodeJoin → Type 0
Chain [] js = ⊥
Chain (a ∷ []) [] = Unit
Chain (a ∷ []) (j ∷ js) = ⊥
Chain (a ∷ b ∷ ts) [] = ⊥
Chain (a ∷ b ∷ ts) (j ∷ js) = Joins a b j × Chain (b ∷ ts) js

-- the time between two events exceeds their bound
abbrev pub IsApart : Timed → Timed → Type 0
IsApart a b =
    (gap : ℕ) × (seconds_between a.0 b.0 ≡ some gap) × ((pair_bound a.1 b.1).0 * 1000 < gap)

abbrev pub Group : Type 0
Group = List Timed × List EpisodeJoin

abbrev pub Ends : Timed → List Timed → Type 0
Ends a ts = (front : List Timed) × (ts ≡ front ++ a ∷ [])

-- episodes after one that ends in `a`, and each of those against the next
abbrev pub Cut : Timed → List Group → Type 0
Cut a [] = Unit
Cut a ((ts, js) ∷ gs) =
    Chain ts js
    × ((b : Timed) × (rest : List Timed) × (ts ≡ b ∷ rest) × IsApart a b)
    × ((z : Timed) × Ends z ts × Cut z gs)

-- the first episode has no other before it
abbrev pub IsCut : List Group → Type 0
IsCut [] = Unit
IsCut ((ts, js) ∷ gs) = Chain ts js × ((z : Timed) × Ends z ts × Cut z gs)

abbrev pub flatten : List Group → List Timed
flatten [] = []
flatten (g ∷ gs) = g.0 ++ flatten gs

-- the groups as episodes, numbered from `n`
abbrev pub numbered : String → ℕ → List Group → List Episode
numbered device n [] = []
numbered device n (g ∷ gs) = finish_episode device g.0 g.1 n ∷ numbered device (suc n) gs

pub join_of : ℕ → Timed → Timed → EpisodeJoin
join_of gap a b = record {
  gap = gap;
  bound_seconds = (pair_bound a.1 b.1).0;
  reason = (pair_bound a.1 b.1).1;
}

link-eq-none : (a b : Timed) → seconds_between a.0 b.0 ≡ none → link a b ≡ none
unfolding link
link-eq-none a b e = rw (e, link) refl

pub link-eq-some :
    (a b : Timed) (gap : ℕ)
    → seconds_between a.0 b.0 ≡ some gap
    → link a b ≡ some (leb gap ((pair_bound a.1 b.1).0 * 1000), join_of gap a b)
unfolding link join_of
link-eq-some a b gap e = rw (e, link) refl

pub link-cases :
    (a b : Timed)
    → (link a b ≡ none)
      ⊎ ((j : EpisodeJoin) × (link a b ≡ some (true, j)) × Joins a b j)
      ⊎ ((j : EpisodeJoin) × (link a b ≡ some (false, j)) × IsApart a b)
unfolding join_of
link-cases a b = elim (Option-cases (seconds_between a.0 b.0)) [
  | inl e ↦ inl (link-eq-none a b e)
  | inr (gap, e) ↦ elim (Bool-cases (leb gap ((pair_bound a.1 b.1).0 * 1000))) [
    | inl near ↦ inr (
        inl (
          join_of gap a b,
          link-eq-some a b gap e ∙ ap (λ t. some (t, join_of gap a b)) near,
          (e, refl, leb→le gap ((pair_bound a.1 b.1).0 * 1000) near),
        ))
    | inr far ↦ inr (
        inr (
          join_of gap a b,
          link-eq-some a b gap e ∙ ap (λ t. some (t, join_of gap a b)) far,
          (gap, e, not-leb→lt gap ((pair_bound a.1 b.1).0 * 1000) far),
        ))
  ]
]

pub record IsSplit (device : String) (n : ℕ) (all : List Timed) (es : List Episode) : Type 0 where
  pub groups : List Group
  pub cut : IsCut groups
  pub whole : flatten groups ≡ all
  pub built : es ≡ numbered device n groups

pub IsBuilt : List LogRecord → String → EpisodeSet → Type 0
IsBuilt records device set =
    IsSplit device 1 (sort (timed records)) set.episodes
    × (set.records_considered ≡ length records)
    × (length records ≡ set.records_unordered + length (timed records))
