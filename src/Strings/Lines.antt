-- ===== src/Strings/Lines.antt =====
-- `bufio.Scanner` with its default split function: the lines of a text, each without its line break
-- and one carriage return before it. The scan ends at the first line that does not fit in the
-- buffer of `bufio.MaxScanTokenSize` bytes, and the rest of the text is not seen.
use limiz.Base.{
  ℕ, ◌+◌, ◌<◌, ◌≡◌, refl, ◌≢◌, true, false, List, [], ◌∷◌, ◌++◌, arith, Text, ◌==◌, ltb,
  if◌then◌else◌, map, lt→ltb, reverse, ap, ◌∙◌, ne→==, All, All-mono, append_assoc, sym,
}
use limiz.Strings.Affix.{Lacks, trim_prefix, trim_suffix}
use mathlib.Core.List.{reverse-reverse}
use limiz.Strings.Trim.{
  is_space, trim_space, trim_space-id, StartsOutside, EndsOutside, EndsOutside-mono,
  StartsOutside-reverse, StartsOutside-append, EndsOutside-join, trim_space-concat,
}
use limiz.Strings.Split.{split, split-append, split-ne-nil, split-join, join}

abbrev pub max_scan_token_size : ℕ
max_scan_token_size = 65536

-- the bytes of a code point in UTF-8
abbrev rune_len : ℕ → ℕ
rune_len c = if ltb c 0x80 then 1 else if ltb c 0x800 then 2 else if ltb c 0x10000 then 3 else 4

unfoldable pub byte_length : Text → ℕ
byte_length [] = 0
byte_length (c ∷ s) = rune_len c + byte_length s

-- what stands behind the last line break is a line only if it has a character
drop_last_empty : List Text → List Text
drop_last_empty [] = []
drop_last_empty ([] ∷ []) = []
drop_last_empty (l ∷ ls) = l ∷ drop_last_empty ls

-- the lines before the first that does not fit
fitting : List Text → List Text
unfolding byte_length
fitting [] = []
fitting (l ∷ ls) =
    let rest = fitting ls in if ltb (byte_length l) max_scan_token_size then l ∷ rest else []

unfoldable pub scan_lines : Text → List Text
unfolding drop_last_empty fitting split trim_suffix
scan_lines s = map (trim_suffix (13 ∷ [])) (fitting (drop_last_empty (split 10 s)))

drop_last_empty-cons :
    (l : Text) (ls : List Text) → ls ≢ [] → drop_last_empty (l ∷ ls) ≡ l ∷ drop_last_empty ls
unfolding drop_last_empty
drop_last_empty-cons [] [] n = absurd (n refl)
drop_last_empty-cons [] (m ∷ ls) n = refl
drop_last_empty-cons (c ∷ l) ls n = refl

fitting-cons :
    (l : Text) (ls : List Text)
    → byte_length l < max_scan_token_size
    → fitting (l ∷ ls) ≡ l ∷ fitting ls
unfolding fitting
fitting-cons l ls h = rw (lt→ltb _ _ h)

-- A line that fits, its break, and the rest of the text.
pub scan_lines-cons :
    (l s : Text)
    → Lacks 10 l
    → byte_length l < max_scan_token_size
    → scan_lines (l ++ 10 ∷ s) ≡ trim_suffix (13 ∷ []) l ∷ scan_lines s
scan_lines-cons l s h fits =
    unfold scan_lines in
    rw (split-append 10 l s h)
      (rw (drop_last_empty-cons l (split 10 s) (split-ne-nil 10 s)) (rw (fitting-cons l _ fits)))

trim_prefix-id : (d : ℕ) (s : Text) → StartsOutside (λ c. c == d) s → trim_prefix (d ∷ []) s ≡ s
unfolding trim_prefix
trim_prefix-id d [] h = refl
trim_prefix-id d (c ∷ s) h = ground arith

return_space : is_space 13 ≡ true
unfolding is_space
return_space = refl

pub trim_suffix-id : (d : ℕ) (s : Text) → EndsOutside (λ c. c == d) s → trim_suffix (d ∷ []) s ≡ s
unfolding trim_suffix
trim_suffix-id d s h =
    ap reverse (trim_prefix-id d (reverse s) (StartsOutside-reverse _ s h)) ∙ reverse-reverse s

-- A line that begins and ends with no space is left as it is.
pub trim_space-trim_suffix :
    (s : Text)
    → StartsOutside is_space s
    → EndsOutside is_space s
    → trim_space (trim_suffix (13 ∷ []) s) ≡ s
trim_space-trim_suffix s h k =
    ap trim_space (trim_suffix-id 13 s (EndsOutside-mono is_space _ not_return s k))
    ∙ trim_space-id s h k
  where
    not_return : (c : ℕ) → is_space c ≡ false → (c == 13) ≡ false
    not_return c e = ne→== c 13 (λ q. cc (e, ap is_space q, return_space))

-- lines, each with its break
unfoldable pub unlines : List Text → Text
unlines [] = []
unlines (l ∷ ls) = l ++ 10 ∷ unlines ls

-- a line that the scanner hands over as it stands
abbrev pub IsScanned : Text → Type 0
IsScanned l = Lacks 10 l × EndsOutside (λ c. c == 13) l × (byte_length l < max_scan_token_size)

pub scan_lines-unlines : (ls : List Text) → All IsScanned ls → scan_lines (unlines ls) ≡ ls
unfolding unlines
scan_lines-unlines [] h = unfold scan_lines in refl
scan_lines-unlines (l ∷ ls) h =
    scan_lines-cons l (unlines ls) h.0.0 h.0.2
    ∙ rw (trim_suffix-id 13 l h.0.1, scan_lines-unlines ls h.1) refl

-- a line that `strings.TrimSpace` leaves as it is, also at the ends of the text
pub record IsTrimmed (l : Text) : Type 0 where
  pub nonempty : l ≢ []
  pub starts : StartsOutside is_space l
  pub ends : EndsOutside is_space l
  pub no_break : Lacks 10 l

unlines-join : (l : Text) (ls : List Text) → unlines (l ∷ ls) ≡ join 10 (l ∷ ls) ++ 10 ∷ []
unfolding unlines join
unlines-join l [] = refl
unlines-join l (k ∷ ls) =
    ap (λ t. l ++ 10 ∷ t) (unlines-join k ls)
    ∙ sym (append_assoc l (10 ∷ join 10 (k ∷ ls)) (10 ∷ []))

join-starts : (l : Text) (ls : List Text) → IsTrimmed l → StartsOutside is_space (join 10 (l ∷ ls))
unfolding join
join-starts l [] h = h.starts
join-starts l (k ∷ ls) h = StartsOutside-append is_space l _ h.nonempty h.starts

join-ne-nil : (l : Text) (ls : List Text) → l ≢ [] → join 10 (l ∷ ls) ≢ []
unfolding join
join-ne-nil l [] h = h
join-ne-nil [] (k ∷ ls) h = absurd (h refl)
join-ne-nil (c ∷ l) (k ∷ ls) h = cc

join-ends :
    (l : Text) (ls : List Text) → All IsTrimmed (l ∷ ls) → EndsOutside is_space (join 10 (l ∷ ls))
unfolding join
join-ends l [] h = h.0.ends
join-ends l (k ∷ ls) h = EndsOutside-join is_space l (10 ∷ join 10 (k ∷ ls)) (cc) (
    EndsOutside-join is_space (10 ∷ []) (join 10 (k ∷ ls)) (join-ne-nil k ls h.1.0.nonempty)
      (join-ends k ls h.1))

-- Lines of this kind, each with its break, are found again by `strings.Split` behind `strings.TrimSpace`.
pub split-trim_space-unlines :
    (l : Text) (ls : List Text)
    → All IsTrimmed (l ∷ ls)
    → split 10 (trim_space (unlines (l ∷ ls))) ≡ l ∷ ls
split-trim_space-unlines l ls h =
    let trimmed =
      trim_space-concat (join 10 (l ∷ ls)) 10 (join-ne-nil l ls h.0.nonempty) (join-starts l ls h.0)
        (join-ends l ls h) (unfold is_space in refl) in
    ap (λ t. split 10 (trim_space t)) (unlines-join l ls)
    ∙ ap (split 10) trimmed
    ∙ split-join 10 (l ∷ ls) (cc) (All-mono IsTrimmed (Lacks 10) (l ∷ ls) (λ k t. t.no_break) h)
