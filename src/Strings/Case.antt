-- ===== src/Strings/Case.antt =====
-- `strings.ToLower` on the letters whose lower case is in ASCII, the only ones that the program compares:
-- A to Z, the dotted capital I and the Kelvin sign; and `strings.ContainsAny` for two characters.
use limiz.Base.{ℕ, ◌+◌, Text, [], ◌∷◌, map, Bool, false, ◌&&◌, ◌||◌, if◌then◌else◌, leb, ◌==◌}

abbrev lower : ℕ → ℕ
lower c =
    if leb b'A' c && leb c b'Z'
    then c + 32
    else (if c == 304 then b'i' else (if c == 8490 then b'k' else c))

unfoldable pub to_lower : Text → Text
to_lower = map lower

abbrev fold : ℕ → ℕ
fold c =
    if leb b'A' c && leb c b'Z'
    then c + 32
    else (if c == 383 then b's' else (if c == 8490 then b'k' else c))

-- the names of fields that `encoding/json` takes for the same as a name in ASCII: whatever the case, and
-- with the long s or the Kelvin sign
unfoldable pub fold_name : Text → Text
fold_name = map fold

unfoldable pub contains_either : ℕ → ℕ → Text → Bool
contains_either a b [] = false
contains_either a b (c ∷ s) = c == a || c == b || contains_either a b s
