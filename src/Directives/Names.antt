-- ===== src/Directives/Names.antt =====
-- lib-lopez/src/directives/directives.rs: the names of modules and of rules.
pub mod Canonical
use lopez.Prelude.{
  Text, bytes, text_eq, split, join, is_empty, drop_last, Bool, true, false, List, [], ◌∷◌, ◌++◌,
  Result, ok, err, if◌then◌else◌,
}
use lopez.Prelude.Outcome.{◌>>=◌}

-- `parts.pop()`.
abbrev pub pop : List Text → List Text
pop [] = []
pop (p ∷ []) = []
pop (p ∷ q ∷ ps) = p ∷ pop (q ∷ ps)

-- The arms of the `match` on a part, in their order. The error quotes the path.
abbrev pub canonical_part : Text → List Text → Text → Result Text (List Text)
canonical_part path parts part =
    if text_eq part (bytes "super")
    then (if is_empty path then err path else ok (pop parts))
    else if text_eq part (bytes "root")
    then ok []
    else if is_empty part
    then ok parts
    else ok (parts ++ (part ∷ []))

unfoldable pub canonical_parts : Text → List Text → List Text → Result Text (List Text)
canonical_parts path parts [] = ok parts
canonical_parts path parts (part ∷ rest) =
    canonical_part path parts part >>= λ parts'. canonical_parts path parts' rest

unfoldable pub canonical_path : Text → Result Text Text
unfolding canonical_parts
canonical_path path =
    canonical_parts path [] (split b'.' path) >>= λ parts. ok (join (bytes ".") parts)

unfoldable pub full_rule_name : Text → Text → Text
full_rule_name prefix rule_name =
    if is_empty prefix then rule_name else prefix ++ (bytes "." ++ rule_name)
