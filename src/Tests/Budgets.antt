-- ===== src/Tests/Budgets.antt =====
-- A section of sixty characters in a budget of fifty.
use ai_ops.Prelude.{◌≡◌, refl, ◌⊎◌, ◌<◌, ◌≤◌, ℕ, String}
use Prim.Native.String.{count}
use ai_ops.Budget.{pos, truncate_middle}
use ai_ops.Budget.Cut.{IsCut, truncate_middle-IsCut}

abbrev section : String
section = "aaaaaaaaaabbbbbbbbbbccccccccccddddddddddeeeeeeeeeeffffffffff"

abbrev limit : ℕ
limit = 50

truncate_middle-IsCut_example :
    (((limit ≡ 0) ⊎ (count section ≤ limit)) × (truncate_middle section limit ≡ (section, pos 0)))
    ⊎ ((0 < limit) × (limit < count section) × IsCut section limit (truncate_middle section limit))
truncate_middle-IsCut_example = truncate_middle-IsCut section limit

-- the start and the end shrink until the result fits
section_cut :
    truncate_middle section 50 ≡ ("aaaaaaaaaa\n[TRUNCATED: 46 characters omitted]\nffff", pos 46)
unfolding truncate_middle
section_cut = refl
