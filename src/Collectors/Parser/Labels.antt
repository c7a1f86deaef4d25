-- ===== src/Collectors/Parser/Labels.antt =====
-- internal/collectors/plugin_parser.go: `parseLabels` on the labels that `Collect` prints.
use limiz.Base.{
  ℕ, Text, Map, List, [], ◌∷◌, ◌++◌, true, false, insert, ◌≡◌, ◌≢◌, refl, sym, arith, map,
  append_assoc, append-nil, IsMap, Disjoint, Disjoint-nil, Disjoint-concat, insert-Fresh, All,
  All-append, ◌∙◌, ap,
}
use mathlib.Core.List.{foldl}
use limiz.Strings.Affix.{cut-append, Lacks}
use limiz.Strings.Split.{join}
use limiz.Strings.Trim.{
  is_space, trim_space, trim_space-id, trim-quoted, EndsOutside-append, StartsOutside, EndsOutside,
}
use limiz.Collectors.Registry.{label_part}
use limiz.Collectors.Parser.{flush, split_loop, split_label_pairs, add_pair, parse_labels}

-- a key that the printed form does not hide
pub record IsKey (k : Text) : Type 0 where
  pub nonempty : k ≢ []
  pub starts : StartsOutside is_space k
  pub ends : EndsOutside is_space k
  pub no_equals : Lacks b'=' k
  pub no_quote : Lacks b'"' k
  pub no_comma : Lacks b',' k
  pub no_brace : Lacks b'}' k
  pub no_break : Lacks b'\n' k

pub record IsValue (v : Text) : Type 0 where
  pub no_quote : Lacks b'"' v
  pub no_brace : Lacks b'}' v
  pub no_break : Lacks b'\n' v

pub record IsLabel (l : Text × Text) : Type 0 where
  pub key : IsKey l.0
  pub value : IsValue l.1

split_loop-unquoted :
    (a rest : Text) (parts : List Text) (cur : Text)
    → Lacks b'"' a
    → Lacks b',' a
    → split_loop (a ++ rest) parts cur false ≡ split_loop rest parts (cur ++ a) false
unfolding split_loop
split_loop-unquoted [] rest parts cur q c = rw append-nil
split_loop-unquoted (d ∷ a) rest parts cur q c =
    ground
      (arith, split_loop-unquoted a rest parts (cur ++ d ∷ []) q.1 c.1, append_assoc cur (d ∷ []) a)

split_loop-quoted :
    (a rest : Text) (parts : List Text) (cur : Text)
    → Lacks b'"' a
    → split_loop (a ++ rest) parts cur true ≡ split_loop rest parts (cur ++ a) true
unfolding split_loop
split_loop-quoted [] rest parts cur q = rw append-nil
split_loop-quoted (d ∷ a) rest parts cur q =
    ground (arith, split_loop-quoted a rest parts (cur ++ d ∷ []) q.1, append_assoc cur (d ∷ []) a)

split_loop-open :
    (t : Text) (parts : List Text) (cur : Text)
    → split_loop (b'=' ∷ b'"' ∷ t) parts cur false
      ≡ split_loop t parts (cur ++ b'=' ∷ [] ++ b'"' ∷ []) true
unfolding split_loop
split_loop-open t parts cur = refl

split_loop-close :
    (t : Text) (parts : List Text) (cur : Text)
    → split_loop (b'"' ∷ t) parts cur true ≡ split_loop t parts (cur ++ b'"' ∷ []) false
unfolding split_loop
split_loop-close t parts cur = refl

-- one printed label is read as one part, whatever its value holds between the quotes
split_loop-label :
    (k v rest : Text) (parts : List Text)
    → IsLabel (k, v)
    → split_loop (label_part (k, v) ++ rest) parts [] false
      ≡ split_loop rest parts (label_part (k, v)) false
split_loop-label k v rest parts h =
    unfold label_part in
    rw (append_assoc, append_assoc)
      (split_loop-unquoted k _ parts [] h.key.no_quote h.key.no_comma
        ∙ split_loop-open (v ++ b'"' ∷ rest) parts k
        ∙ split_loop-quoted v (b'"' ∷ rest) parts _ h.value.no_quote
        ∙ split_loop-close rest parts _
        ∙ ap (λ t. split_loop rest parts t false) (simp append_assoc))

-- a part ends at its comma
split_loop-comma :
    (rest : Text) (parts : List Text) (cur : Text)
    → split_loop (b',' ∷ rest) parts cur false ≡ split_loop rest (parts ++ cur ∷ []) [] false
unfolding split_loop
split_loop-comma rest parts cur = refl

flush-ne-nil : (parts : List Text) (cur : Text) → cur ≢ [] → flush parts cur ≡ parts ++ cur ∷ []
flush-ne-nil parts [] h = absurd (h refl)
flush-ne-nil parts (c ∷ cur) h = refl

label_part-ne-nil : (l : Text × Text) → label_part l ≢ []
unfolding label_part
label_part-ne-nil ([], v) h = cc
label_part-ne-nil (c ∷ k, v) h = cc

split_loop-end :
    (parts : List Text) (l : Text × Text)
    → split_loop [] parts (label_part l) false ≡ parts ++ label_part l ∷ []
unfolding split_loop
split_loop-end parts l = flush-ne-nil parts (label_part l) (label_part-ne-nil l)

split_loop-join :
    (l : Text × Text) (ls : Map Text) (parts : List Text)
    → All IsLabel (l ∷ ls)
    → split_loop (join b',' (map label_part (l ∷ ls))) parts [] false
      ≡ parts ++ map label_part (l ∷ ls)
unfolding join
split_loop-join l [] parts h =
    ap (λ t. split_loop t parts [] false) (sym (append-nil (label_part l)))
    ∙ split_loop-label l.0 l.1 [] parts h.0
    ∙ split_loop-end parts l
split_loop-join l (m ∷ ls) parts h =
    split_loop-label l.0 l.1 _ parts h.0
    ∙ split_loop-comma _ parts (label_part l)
    ∙ split_loop-join m ls (parts ++ label_part l ∷ []) h.1
    ∙ append_assoc parts (label_part l ∷ []) (map label_part (m ∷ ls))

trim_space-quoted : (v : Text) → trim_space (b'"' ∷ (v ++ b'"' ∷ [])) ≡ b'"' ∷ (v ++ b'"' ∷ [])
trim_space-quoted v =
    unfold is_space in trim_space-id _ refl (EndsOutside-append is_space (b'"' ∷ v) b'"' [] refl)

add_pair-label :
    (k v : Text) (labels : Map Text)
    → IsLabel (k, v)
    → add_pair labels (label_part (k, v)) ≡ insert k v labels
unfolding add_pair
add_pair-label [] v labels h = absurd (h.key.nonempty refl)
add_pair-label (c ∷ k) v labels h =
    unfold label_part in
    rw (cut-append b'=' (c ∷ k) (b'"' ∷ (v ++ b'"' ∷ [])) h.key.no_equals, add_pair)
      (rw (trim_space-id (c ∷ k) h.key.starts h.key.ends)
        (rw (trim_space-quoted v) (rw (trim-quoted b'"' v h.value.no_quote))))

foldl-add_pair :
    (ls acc : Map Text)
    → All IsLabel ls
    → IsMap ls
    → Disjoint acc ls
    → foldl add_pair acc (map label_part ls) ≡ acc ++ ls
foldl-add_pair [] acc h u d = sym (append-nil acc)
foldl-add_pair ((k, v) ∷ ls) acc h u d =
    ap (λ t. foldl add_pair t (map label_part ls))
      (add_pair-label k v acc h.0 ∙ insert-Fresh k v acc d.0)
    ∙ foldl-add_pair ls (acc ++ (k, v) ∷ []) h.1 u.1 (Disjoint-concat k v acc ls d.1 u.0)
    ∙ append_assoc acc ((k, v) ∷ []) ls

parse_labels-ne-nil : (s : Text) → s ≢ [] → parse_labels s ≡ foldl add_pair [] (split_label_pairs s)
unfolding parse_labels
parse_labels-ne-nil [] n = absurd (n refl)
parse_labels-ne-nil (c ∷ s) n = refl

join-ne-nil : (l : Text × Text) (ls : Map Text) → join b',' (map label_part (l ∷ ls)) ≢ []
unfolding join label_part
join-ne-nil ([], v) [] = cc
join-ne-nil (c ∷ k, v) [] = cc
join-ne-nil ([], v) (m ∷ ls) = cc
join-ne-nil (c ∷ k, v) (m ∷ ls) = cc

-- Printed labels are read back, one entry for one entry, in the order in which they were printed.
pub parse_labels-label_text :
    (l : Text × Text) (ls : Map Text)
    → All IsLabel (l ∷ ls)
    → IsMap (l ∷ ls)
    → parse_labels (join b',' (map label_part (l ∷ ls))) ≡ l ∷ ls
parse_labels-label_text l ls h u =
    parse_labels-ne-nil _ (join-ne-nil l ls)
    ∙ unfold split_label_pairs in
      ap (foldl add_pair []) (split_loop-join l ls [] h)
      ∙ foldl-add_pair (l ∷ ls) [] h u (Disjoint-nil (l ∷ ls))

-- a character that is in no key and no value, and is none of the three that are added
module _ (c : ℕ) (equals : b'=' ≢ c) (quote : b'"' ≢ c) (comma : b',' ≢ c) where
  abbrev Clear : Map Text → Type 0
  Clear = All (λ (l : Text × Text). Lacks c l.0 × Lacks c l.1)

  label_part-Lacks : (k v : Text) → Lacks c k → Lacks c v → Lacks c (label_part (k, v))
  unfolding label_part
  label_part-Lacks k v h g =
      All-append _ k _ h (equals, (quote, All-append _ v (b'"' ∷ []) g (quote, tt)))

  join-Lacks : (ls : Map Text) → Clear ls → Lacks c (join b',' (map label_part ls))
  unfolding join
  join-Lacks [] h = tt
  join-Lacks (l ∷ []) h = label_part-Lacks l.0 l.1 h.0.0 h.0.1
  join-Lacks (l ∷ m ∷ ls) h =
      All-append _ (label_part l) _ (label_part-Lacks l.0 l.1 h.0.0 h.0.1)
        (comma, join-Lacks (m ∷ ls) h.1)

breaks :
    (ls : Map Text)
    → All IsLabel ls
    → All (λ (l : Text × Text). Lacks b'\n' l.0 × Lacks b'\n' l.1) ls
breaks [] h = tt
breaks (l ∷ ls) h = ((h.0.key.no_break, h.0.value.no_break), breaks ls h.1)

braces :
    (ls : Map Text) → All IsLabel ls → All (λ (l : Text × Text). Lacks b'}' l.0 × Lacks b'}' l.1) ls
braces [] h = tt
braces (l ∷ ls) h = ((h.0.key.no_brace, h.0.value.no_brace), braces ls h.1)

pub label_text-no_break :
    (ls : Map Text) → All IsLabel ls → Lacks b'\n' (join b',' (map label_part ls))
label_text-no_break ls h =
    join-Lacks b'\n' (omega arith) (omega arith) (omega arith) ls (breaks ls h)

pub label_text-no_brace :
    (ls : Map Text) → All IsLabel ls → Lacks b'}' (join b',' (map label_part ls))
label_text-no_brace ls h =
    join-Lacks b'}' (omega arith) (omega arith) (omega arith) ls (braces ls h)
