-- ===== src/PrefixDb/Lines.antt =====
-- bufio.Scanner over lines, as db.go and sync.go use it: the lines up to the first that does not fit
-- into the buffer, and whether there was one.
use xdp_invisible_armor.Common.{
  ℕ, Bool, true, false, ◌&&◌, ◌==◌, leb, if◌then◌else◌, List, [], ◌∷◌, length, Text, is_empty,
  split,
}

-- One carriage return at the end of a line is dropped.
unfoldable pub chop : Text → Text
chop [] = []
chop (c ∷ []) = if c == 13 then [] else c ∷ []
chop (c ∷ d ∷ s) = c ∷ chop (d ∷ s)

-- The text behind the last line end is a line, if it is not empty.
unfoldable pub tokens : ℕ → List Text → List Text × Bool
unfolding chop
tokens limit [] = ([], false)
tokens limit (p ∷ ps) =
    let rest = tokens limit ps in
    if leb limit (length p)
    then ([], true)
    else if is_empty p && length ps == 0
    then ([], false)
    else (chop p ∷ rest.0, rest.1)

unfoldable pub scan_lines : ℕ → Text → List Text × Bool
unfolding tokens split
scan_lines limit s = tokens limit (split b'\n' s)

-- The buffer's limit that `sc.Buffer` sets, and the one without it.
abbrev pub large_buffer : ℕ
large_buffer = 1048576

abbrev pub small_buffer : ℕ
small_buffer = 65536
