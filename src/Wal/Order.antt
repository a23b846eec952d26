-- ===== src/Wal/Order.antt =====
-- Go's order of strings, byte by byte, and slices.Sort on the names of log files.
use nekoq_bootstrap.Base.{
  Bool, List, Text, [], false, if◌then◌else◌, ltb, nat_same, true, ◌&&◌, ◌||◌, ◌∷◌,
}

unfoldable pub text_lt : Text → Text → Bool
text_lt xs [] = false
text_lt [] (y ∷ ys) = true
text_lt (x ∷ xs) (y ∷ ys) = ltb x y || (nat_same x y && text_lt xs ys)

unfoldable pub insert_name : Text → List Text → List Text
insert_name x [] = x ∷ []
insert_name x (y ∷ ys) = if text_lt y x then y ∷ insert_name x ys else x ∷ y ∷ ys

-- slices.Sort: of strings there is one sorted permutation.
unfoldable pub sort_names : List Text → List Text
unfolding insert_name
sort_names [] = []
sort_names (x ∷ xs) = insert_name x (sort_names xs)
