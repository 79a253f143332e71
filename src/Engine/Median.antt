-- ===== src/Engine/Median.antt =====
-- `median_round` of crates/tactus/src/engine.rs, on samples in half microseconds.
use link_wire_rs.Common.{ℕ, zero, suc, ◌-◌, ◌/◌, ◌%◌, List, [], ◌∷◌, length, ◌==◌, if◌then◌else◌}
use link_wire_rs.Common.Int.{ℤ, pos, ◌+ℤ◌, leb_ℤ}
use link_wire_rs.Math.Grid.{round_div}

unfoldable pub insert_sample : ℤ → List ℤ → List ℤ
insert_sample x [] = x ∷ []
insert_sample x (y ∷ ys) =
    let rest = insert_sample x ys in if leb_ℤ x y then x ∷ y ∷ ys else y ∷ rest

unfoldable pub sort_samples : List ℤ → List ℤ
sort_samples [] = []
sort_samples (x ∷ xs) = insert_sample x (sort_samples xs)

-- Indexing, inside the list.
unfoldable pub nth : ℕ → List ℤ → ℤ
nth n [] = pos 0
nth zero (x ∷ xs) = x
nth (suc n) (x ∷ xs) = nth n xs

-- An odd number of samples has one in the middle, an even number two, whose mean is taken; the result
-- is rounded to whole microseconds, ties away from zero.
unfoldable pub median_round : List ℤ → ℤ
median_round samples =
    let sorted = sort_samples samples in
    let n = length samples in
    if n % 2 == 1
    then round_div (nth (n / 2) sorted) (pos 2)
    else round_div (nth (n / 2 - 1) sorted +ℤ nth (n / 2) sorted) (pos 4)
