-- ===== src/Strings/Fields.antt =====
-- `strings.Fields`: the runs of characters between spaces.
use limiz.Base.{
  ℕ, ◌≡◌, refl, ◌≢◌, true, false, List, [], ◌∷◌, ◌++◌, Text, All, append_assoc, append-nil, ap, sym,
  Bool-cases, inl, inr, ◌∙◌,
}
use limiz.Strings.Affix.{Lacks}
use limiz.Strings.Trim.{is_space}

-- the word read so far, if it has a character, then the words behind it
abbrev flush : Text → List Text → List Text
flush [] ws = ws
flush (c ∷ cur) ws = (c ∷ cur) ∷ ws

words : Text → Text → List Text
words [] cur = flush cur []
words (c ∷ s) cur = elim (is_space c) [
  | true ↦ flush cur (words s [])
  | false ↦ words s (cur ++ c ∷ [])
]

unfoldable pub fields : Text → List Text
unfolding words is_space
fields s = words s []

abbrev pub NoSpace : Text → Type 0
NoSpace = All (λ c. is_space c ≡ false)

abbrev pub IsBlank : Text → Type 0
IsBlank = All (λ c. is_space c ≡ true)

words-NoSpace : (w rest cur : Text) → NoSpace w → words (w ++ rest) cur ≡ words rest (cur ++ w)
unfolding words
words-NoSpace [] rest cur h = rw append-nil
words-NoSpace (c ∷ w) rest cur h =
    rw (h.0, words) (rw (words-NoSpace w rest (cur ++ c ∷ []) h.1) (rw append_assoc))

words-space :
    (b : ℕ) (rest cur : Text) → is_space b ≡ true → words (b ∷ rest) cur ≡ flush cur (words rest [])
unfolding words
words-space b rest cur h = rw (h, words)

-- A word, a space and the rest.
pub fields-cons :
    (c : ℕ) (w : Text) (b : ℕ) (rest : Text)
    → NoSpace (c ∷ w)
    → is_space b ≡ true
    → fields ((c ∷ w) ++ b ∷ rest) ≡ (c ∷ w) ∷ fields rest
fields-cons c w b rest h k =
    unfold fields in rw (words-NoSpace (c ∷ w) (b ∷ rest) [] h) (words-space b rest (c ∷ w) k)

pub fields-space : (b : ℕ) (rest : Text) → is_space b ≡ true → fields (b ∷ rest) ≡ fields rest
fields-space b rest k = unfold fields in words-space b rest [] k

pub fields-one : (c : ℕ) (w : Text) → NoSpace (c ∷ w) → fields (c ∷ w) ≡ (c ∷ w) ∷ []
fields-one c w h =
    unfold fields in
    rw (ap (λ t. words t []) (sym (append-nil (c ∷ w)))) (words-NoSpace (c ∷ w) [] [] h)

-- a text without spaces lacks each of them
pub NoSpace-Lacks : (b : ℕ) (s : Text) → is_space b ≡ true → NoSpace s → Lacks b s
NoSpace-Lacks b [] k h = tt
NoSpace-Lacks b (c ∷ s) k h = (λ e. cc (k, h.0, ap is_space e), NoSpace-Lacks b s k h.1)

-- Two words with a blank between them.
pub fields-two :
    (a b : Text) → a ≢ [] → b ≢ [] → NoSpace a → NoSpace b → fields (a ++ 32 ∷ b) ≡ a ∷ b ∷ []
fields-two [] b m n h k = absurd (m refl)
fields-two (c ∷ a) [] m n h k = absurd (n refl)
fields-two (c ∷ a) (d ∷ b) m n h k =
    fields-cons c a 32 (d ∷ b) h (unfold is_space in refl)
    ∙ ap (λ t. (c ∷ a) ∷ t) (fields-one d b k)

-- the word that has begun is the beginning of the next field
words-begun :
    (s : Text) (c : ℕ) (k : Text)
    → (w : Text) × (ws : List Text) × (words s (c ∷ k) ≡ ((c ∷ k) ++ w) ∷ ws)
unfolding words
words-begun [] c k = ([], [], rw append-nil refl)
words-begun (d ∷ s) c k = elim (Bool-cases (is_space d)) [
  | inl e ↦ ([], words s [], rw (e, words, append-nil) refl)
  | inr e ↦
      let (w, ws, h) = words-begun s c (k ++ d ∷ []) in
      (d ∷ w, ws, rw (e, words) (h ∙ ap (λ t. (c ∷ t) ∷ ws) (append_assoc k (d ∷ []) w)))
]

-- A text that begins with a word begins its fields with that word.
pub fields-begun :
    (c : ℕ) (k s : Text)
    → NoSpace (c ∷ k)
    → (w : Text) × (ws : List Text) × (fields ((c ∷ k) ++ s) ≡ ((c ∷ k) ++ w) ∷ ws)
fields-begun c k s h =
    let (w, ws, e) = words-begun s c k in (w, ws, unfold fields in words-NoSpace (c ∷ k) s [] h ∙ e)

pub fields-blank : (b rest : Text) → IsBlank b → fields (b ++ rest) ≡ fields rest
fields-blank [] rest h = refl
fields-blank (c ∷ b) rest h = fields-space c (b ++ rest) h.0 ∙ fields-blank b rest h.1
