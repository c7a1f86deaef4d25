-- ===== src/Filepath/Appended.antt =====
-- Go's `path/filepath` on Linux: `Join` of a directory and a file name ends with the name, behind the same text
-- for every name.
use limiz.Base.{
  ◌≡◌, ◌≢◌, refl, sym, ℕ, Text, List, [], ◌∷◌, ◌++◌, reverse, append_assoc, Bool, false, codes,
  if◌then◌else◌, ne→text_eq, ne→==, ◌==◌, arith, Bool-cases, inl, inr,
}
use mathlib.Core.List.{reverse-cons}
use limiz.Strings.Affix.{Lacks}
use limiz.Strings.Split.{split, join, push, split-Lacks, split-ne-nil}
use limiz.Filepath.{slash, clean_step, clean_parts, or_dot, is_rooted, clean, join_path}

-- the name of a file: no slash in it, and neither empty nor a dot or two
pub record IsName (name : Text) : Type 0 where
  pub no_slash : Lacks slash name
  pub not_empty : name ≢ []
  pub not_dot : name ≢ codes "."
  pub not_dots : name ≢ codes ".."

push-concat : (c : ℕ) (ps qs : List Text) → ps ≢ [] → push c (ps ++ qs) ≡ push c ps ++ qs
push-concat c [] qs h = absurd (h refl)
push-concat c (p ∷ ps) qs h = refl

-- A name behind a slash is the last part.
split-concat :
    (s name : Text)
    → Lacks slash name
    → split slash (s ++ slash ∷ name) ≡ split slash s ++ name ∷ []
unfolding split
split-concat [] name h = rw (split-Lacks slash name h) (ground arith)
split-concat (d ∷ s) name h = elim (Bool-cases (d == slash)) [
  | inl e ↦ rw (e, split-concat s name h) refl
  | inr e ↦
      rw (e, split-concat s name h)
        (push-concat d (split slash s) (name ∷ []) (split-ne-nil slash s))
]

-- the parts that are kept, the last of them first
unfoldable kept_parts : Bool → List Text → List Text → List Text
kept_parts rooted kept [] = kept
kept_parts rooted kept (p ∷ ps) = kept_parts rooted (clean_step rooted kept p) ps

clean_step-name :
    (rooted : Bool) (kept : List Text) (name : Text)
    → IsName name
    → clean_step rooted kept name ≡ name ∷ kept
unfolding clean_step
clean_step-name rooted [] name h =
    rw
      (
        ne→text_eq name [] h.not_empty,
        ne→text_eq name (codes ".") h.not_dot,
        ne→text_eq name (codes "..") h.not_dots,
      )
      (ground arith)
clean_step-name rooted (q ∷ kept) name h =
    rw
      (
        ne→text_eq name [] h.not_empty,
        ne→text_eq name (codes ".") h.not_dot,
        ne→text_eq name (codes "..") h.not_dots,
      )
      refl

clean_parts-concat :
    (rooted : Bool) (kept ps : List Text) (name : Text)
    → IsName name
    → clean_parts rooted kept (ps ++ name ∷ []) ≡ reverse (name ∷ kept_parts rooted kept ps)
unfolding clean_parts kept_parts
clean_parts-concat rooted kept [] name h = rw (clean_step-name rooted kept name h) refl
clean_parts-concat rooted kept (p ∷ ps) name h =
    clean_parts-concat rooted (clean_step rooted kept p) ps name h

-- the elements, each with a slash behind it
unfoldable closed : List Text → Text
closed [] = []
closed (p ∷ ps) = p ++ slash ∷ closed ps

join-concat : (ps : List Text) (name : Text) → join slash (ps ++ name ∷ []) ≡ closed ps ++ name
unfolding join closed
join-concat [] name = refl
join-concat (p ∷ []) name = sym (append_assoc p (slash ∷ []) name)
join-concat (p ∷ q ∷ ps) name =
    rw (join-concat (q ∷ ps) name) (sym (append_assoc p (slash ∷ closed (q ∷ ps)) name))

or_dot-append : (s name : Text) → name ≢ [] → or_dot (s ++ name) ≡ s ++ name
unfolding or_dot
or_dot-append [] [] h = absurd (h refl)
or_dot-append [] (c ∷ name) h = refl
or_dot-append (c ∷ s) name h = refl

-- the cleaned directory with its slash, or nothing
pub lead : Text → Text
unfolding kept_parts closed is_rooted split
lead [] = []
lead (c ∷ d) =
    (if c == slash then slash ∷ [] else [])
    ++ closed (reverse (kept_parts (c == slash) [] (split slash (c ∷ d))))

put_together :
    (front : Text) (rooted : Bool) (ps : List Text) (name : Text)
    → IsName name
    → or_dot (front ++ join slash (clean_parts rooted [] (ps ++ name ∷ [])))
      ≡ (front ++ closed (reverse (kept_parts rooted [] ps))) ++ name
put_together front rooted ps name h =
    let kept = kept_parts rooted [] ps in
    rw
      (
        clean_parts-concat rooted [] ps name h,
        reverse-cons name kept,
        join-concat (reverse kept) name,
        sym (append_assoc front (closed (reverse kept)) name),
      )
      (or_dot-append (front ++ closed (reverse kept)) name h.not_empty)

is_rooted-name : (name : Text) → Lacks slash name → is_rooted name ≡ false
unfolding is_rooted
is_rooted-name [] h = refl
is_rooted-name (c ∷ name) h = ne→== c slash h.0

clean-name : (name : Text) → IsName name → clean name ≡ name
unfolding clean closed kept_parts
clean-name name h =
    rw (is_rooted-name name h.no_slash, split-Lacks slash name h.no_slash)
      (put_together [] false [] name h)

-- `Join` of a directory and the name of a file ends with the name, and what is in front of it does not depend on
-- the name.
pub join_path-name : (d name : Text) → IsName name → join_path d name ≡ lead d ++ name
unfolding join_path clean lead is_rooted
join_path-name [] [] h = absurd (h.not_empty refl)
join_path-name (c ∷ d) [] h = absurd (h.not_empty refl)
join_path-name [] (e ∷ name) h = clean-name (e ∷ name) h
join_path-name (c ∷ d) (e ∷ name) h = rw (split-concat (c ∷ d) (e ∷ name) h.no_slash) (
    put_together (if c == slash then slash ∷ [] else []) (c == slash) (split slash (c ∷ d))
      (e ∷ name) h)
