-- ===== src/Prelude/Replace.antt =====
-- `str::replace`, `str::contains` and `join` of the standard library.
use jibs.Prelude.{
  ℕ, zero, suc, ◌-◌, Bool, true, false, ◌&&◌, ◌||◌, List, [], ◌∷◌, ◌++◌, if◌then◌else◌, Bytes, ◌==◌,
  length,
}

unfoldable pub starts_with : Bytes → Bytes → Bool
starts_with [] s = true
starts_with (p ∷ ps) [] = false
starts_with (p ∷ ps) (c ∷ s) = p == c && starts_with ps s

-- The first number counts the bytes of a found occurrence that are still to be dropped.
unfoldable pub replace_from : ℕ → Bytes → Bytes → Bytes → Bytes
unfolding starts_with
replace_from skip pattern new [] = []
replace_from (suc skip) pattern new (c ∷ s) = replace_from skip pattern new s
replace_from zero pattern new (c ∷ s) =
    let dropped = replace_from (length pattern - 1) pattern new s in
    let kept = replace_from zero pattern new s in
    if starts_with pattern (c ∷ s) then new ++ dropped else c ∷ kept

-- Every occurrence of a pattern that is not empty, from the left.
unfoldable pub replace : Bytes → Bytes → Bytes → Bytes
unfolding replace_from
replace pattern new s = replace_from zero pattern new s

unfoldable pub has_substring : Bytes → Bytes → Bool
unfolding starts_with
has_substring pattern [] = starts_with pattern []
has_substring pattern (c ∷ s) = starts_with pattern (c ∷ s) || has_substring pattern s

unfoldable pub join : Bytes → List Bytes → Bytes
join sep [] = []
join sep (p ∷ []) = p
join sep (p ∷ q ∷ ps) = p ++ (sep ++ join sep (q ∷ ps))
