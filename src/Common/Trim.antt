-- ===== src/Common/Trim.antt =====
-- `s.trim()`, `s.slice(0, -1)`, and the class of the blanks that `trim` and `\s` share.
use Prim.Native.Char.{Char, code}
use Prim.Native.String.{String, [], ◌∷◌}
use mathlib.Core.Bool.{Bool, ◌&&◌, ◌||◌}
use did_wallet_thesis.Common.Tests.{leb, eqb, ◌==◌, if◌then◌else◌}

-- White space and line ends of ECMAScript.
unfoldable pub is_blank : Char → Bool
is_blank c =
    let n = code c in
    (leb 9 n && leb n 13)
    || eqb n 32
    || eqb n 160
    || eqb n 5760
    || (leb 8192 n && leb n 8202)
    || eqb n 8232
    || eqb n 8233
    || eqb n 8239
    || eqb n 8287
    || eqb n 12288
    || eqb n 65279

unfoldable pub trim_start : String → String
unfolding is_blank
trim_start [] = []
trim_start (c ∷ s) = let rest = trim_start s in if is_blank c then rest else c ∷ s

unfoldable pub trim_end : String → String
unfolding is_blank
trim_end [] = []
trim_end (c ∷ s) = let rest = trim_end s in if is_blank c && rest == "" then "" else c ∷ rest

unfoldable pub trim : String → String
unfolding trim_start trim_end
trim s = trim_end (trim_start s)

-- `s.slice(0, -1)`.
unfoldable pub drop_last : String → String
drop_last [] = []
drop_last (c ∷ s) = let rest = drop_last s in if s == "" then "" else c ∷ rest
