-- ===== src/Filepath.antt =====
-- Go's `path/filepath` on Linux: `Clean`, `Join`, `Ext`, `Dir` and `Base`.
pub mod Appended
use limiz.Base.{
  ℕ, Text, List, [], ◌∷◌, ◌++◌, reverse, Bool, false, ◌&&◌, ◌||◌, none, some, if◌then◌else◌, ◌==◌,
  codes, text_eq,
}
use limiz.Strings.Affix.{cut_last}
use limiz.Strings.Split.{split, join}

abbrev slash : ℕ
slash = b'/'

-- one element of the path onto the elements kept so far, the last of them first
clean_step : Bool → List Text → Text → List Text
unfolding text_eq
clean_step rooted [] p =
    if text_eq p [] || text_eq p (codes ".") || (rooted && text_eq p (codes ".."))
    then []
    else p ∷ []
clean_step rooted (q ∷ kept) p =
    if text_eq p [] || text_eq p (codes ".")
    then q ∷ kept
    else if text_eq p (codes "..")
    then (if text_eq q (codes "..") then p ∷ q ∷ kept else kept)
    else p ∷ q ∷ kept

clean_parts : Bool → List Text → List Text → List Text
unfolding clean_step
clean_parts rooted kept [] = reverse kept
clean_parts rooted kept (p ∷ ps) = clean_parts rooted (clean_step rooted kept p) ps

or_dot : Text → Text
or_dot [] = codes "."
or_dot (c ∷ s) = c ∷ s

is_rooted : Text → Bool
is_rooted [] = false
is_rooted (c ∷ s) = c == slash

unfoldable pub clean : Text → Text
unfolding clean_parts or_dot is_rooted split join
clean s =
    let rooted = is_rooted s in
    or_dot
      ((if rooted then slash ∷ [] else []) ++ join slash (clean_parts rooted [] (split slash s)))

-- `filepath.Join(dir, name)` for two elements: an empty one is left out
unfoldable pub join_path : Text → Text → Text
unfolding clean
join_path [] [] = []
join_path [] (c ∷ name) = clean (c ∷ name)
join_path (c ∷ dir) [] = clean (c ∷ dir)
join_path (c ∷ dir) (d ∷ name) = clean ((c ∷ dir) ++ slash ∷ d ∷ name)

-- the last element, behind the last slash, and the directory in front of it with its slash
last_element : Text → Text
unfolding cut_last
last_element s = elim (cut_last slash s) [ none ↦ s | some (a, b) ↦ b ]

unfoldable pub ext : Text → Text
unfolding last_element
ext s = elim (cut_last b'.' (last_element s)) [ none ↦ [] | some (a, b) ↦ b'.' ∷ b ]

unfoldable pub dir : Text → Text
unfolding cut_last clean
dir s = elim (cut_last slash s) [ none ↦ codes "." | some (a, b) ↦ clean (a ++ slash ∷ []) ]

strip_slashes : Text → Text
strip_slashes [] = []
strip_slashes (c ∷ s) = elim (strip_slashes s) [
  | [] ↦ if c == slash then [] else c ∷ []
  | d ∷ t ↦ c ∷ d ∷ t
]

-- `s` is not empty, so only slashes strip to nothing
base_of : Text → Text
unfolding last_element
base_of [] = slash ∷ []
base_of (c ∷ s) = last_element (c ∷ s)

unfoldable pub base : Text → Text
unfolding base_of strip_slashes
base [] = codes "."
base (c ∷ s) = base_of (strip_slashes (c ∷ s))
