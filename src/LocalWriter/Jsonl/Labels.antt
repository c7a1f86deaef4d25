-- ===== src/LocalWriter/Jsonl/Labels.antt =====
-- internal/localwriter/backend_jsonl.go: the text of the labels.
use limiz.Base.{
  Text, Map, List, [], ◌∷◌, lookup, lookup_text, map, SameElements, nil-ne-SameElements,
  insertion_sort, insertion_sort-text, text_less, ◌≡◌, ◌∙◌, refl, sym, ap,
}
use limiz.Strings.Split.{join}
use limiz.LocalWriter.Jsonl.{keys_of, label_pair, format_labels}

abbrev pub keys : Map Text → List Text
keys m = map (λ kv. kv.0) m

label_pair-lookup :
    (m n : Map Text) (k : Text) → lookup k m ≡ lookup k n → label_pair m k ≡ label_pair n k
unfolding label_pair lookup_text
label_pair-lookup m n k e = rw (label_pair, lookup_text, e) refl

map-label_pair :
    (m n : Map Text) (ks : List Text)
    → ((k : Text) → lookup k m ≡ lookup k n)
    → map (label_pair m) ks ≡ map (label_pair n) ks
map-label_pair m n [] e = refl
map-label_pair m n (k ∷ ks) e = rw (label_pair-lookup m n k (e k), map-label_pair m n ks e) refl

-- `formatLabels` gives one text for two lists of labels that are the same map: with the same keys in
-- any order, and the same value under each key.
pub format_labels-SameElements :
    (m n : Map Text)
    → SameElements (keys m) (keys n)
    → ((k : Text) → lookup k m ≡ lookup k n)
    → format_labels m ≡ format_labels n
unfolding format_labels keys_of
format_labels-SameElements [] [] s e = refl
format_labels-SameElements [] (l ∷ n) s e = absurd (nil-ne-SameElements l.0 (keys n) s)
format_labels-SameElements (l ∷ m) [] s e =
    absurd (nil-ne-SameElements l.0 (keys m) (λ p. sym (s p)))
format_labels-SameElements (l ∷ m) (l' ∷ n) s e = ap (join b',') (
    map-label_pair (l ∷ m) (l' ∷ n) (insertion_sort text_less (keys (l ∷ m))) e
    ∙ ap (map (label_pair (l' ∷ n))) (insertion_sort-text (keys (l ∷ m)) (keys (l' ∷ n)) s))
