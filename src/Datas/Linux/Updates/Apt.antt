-- ===== src/Datas/Linux/Updates/Apt.antt =====
-- internal/datas/providers_linux.go: the lines of `apt list --upgradable`.
use limiz.Base.{
  ℕ, Text, [], ◌∷◌, ◌++◌, Bool, true, false, some, codes, ◌≡◌, ◌≢◌, refl, ap, ◌∙◌, arith, ◌==◌,
  ◌||◌,
}
use limiz.Strings.Affix.{cut, cut-append, contains, has_prefix, Lacks}
use limiz.Strings.Trim.{is_space, trim_right, trim_right_by-concat, trim_right_by-id, EndsOutside}
use limiz.Strings.Fields.{fields, fields-cons, NoSpace}
use limiz.Datas.Ports.{cut_text}
use limiz.Datas.Linux.Updates.{old_version, second_or_empty, apt_parts, apt_line}

or_true : (b : Bool) → (b || true) ≡ true
or_true true = refl
or_true false = refl

-- `contains` finds what stands behind any beginning
contains-behind : (p a s : Text) → contains p s ≡ true → contains p (a ++ s) ≡ true
unfolding contains
contains-behind p [] s h = h
contains-behind p (c ∷ a) s h =
    let ih = contains-behind p a s h in rw ih (or_true (has_prefix p (c ∷ (a ++ s))))

blank_differs : (g : ℕ) → is_space g ≡ false → (b' ' == g) ≡ false
unfolding is_space
blank_differs g h = ground (arith, h)

-- no place inside a word or at its end begins with `from: `
not_from :
    (w r : Text)
    → NoSpace w
    → EndsOutside (λ c. c == b':') w
    → has_prefix (codes "from: ") (w ++ b' ' ∷ r) ≡ false
unfolding has_prefix
not_from [] r h e = ground arith
not_from (a ∷ []) r h e = ground arith
not_from (a ∷ b ∷ []) r h e = ground arith
not_from (a ∷ b ∷ c ∷ []) r h e = ground arith
not_from (a ∷ b ∷ c ∷ d ∷ []) r h e = ground arith
not_from (a ∷ b ∷ c ∷ d ∷ f ∷ []) r h e = ground (arith, e)
not_from (a ∷ b ∷ c ∷ d ∷ f ∷ g ∷ w) r h e = ground (arith, blank_differs g h.1.1.1.1.1.0)

ends_tail : (p : ℕ → Bool) (c : ℕ) (w : Text) → EndsOutside p (c ∷ w) → EndsOutside p w
ends_tail p c [] h = tt
ends_tail p c (d ∷ w) h = h

-- a word in front of the place that is found
cut_text-word :
    (w r a b : Text)
    → NoSpace w
    → EndsOutside (λ c. c == b':') w
    → cut_text (codes "from: ") r ≡ some (a, b)
    → cut_text (codes "from: ") (w ++ b' ' ∷ r) ≡ some (w ++ b' ' ∷ a, b)
unfolding cut_text
cut_text-word [] r a b h e k = rw k refl
cut_text-word (c ∷ w) r a b h e k =
    let not_here = not_from (c ∷ w) r h e in
    let later = cut_text-word w r a b h.1 (ends_tail _ c w e) k in ground (arith, not_here, later)

-- one line: `<name>/<source> <new> <arch> [upgradable from: <old>]`
pub record Upgrade : Type 0 where
  pub name : Text
  pub source : Text
  pub new_ver : Text
  pub arch : Text
  pub old_ver : Text

unfoldable pub upgradable : Upgrade → Text
upgradable u = codes "[upgradable" ++ b' ' ∷ (codes "from: " ++ (u.old_ver ++ b']' ∷ []))

unfoldable pub behind_name : Upgrade → Text
behind_name u = u.source ++ b' ' ∷ (u.new_ver ++ b' ' ∷ (u.arch ++ b' ' ∷ upgradable u))

unfoldable pub upgrade_line : Upgrade → Text
unfolding upgradable behind_name
upgrade_line u = u.name ++ b'/' ∷ behind_name u

-- a word that does not end in a colon
pub record IsWord (w : Text) : Type 0 where
  pub nonempty : w ≢ []
  pub solid : NoSpace w
  pub ends : EndsOutside (λ c. c == b':') w

pub record IsUpgrade (u : Upgrade) : Type 0 where
  pub name_no_slash : Lacks b'/' u.name
  pub source : IsWord u.source
  pub new_ver : IsWord u.new_ver
  pub arch : IsWord u.arch
  pub old_ver : EndsOutside (λ c. c == b']') u.old_ver

fields-word : (w r : Text) → IsWord w → fields (w ++ b' ' ∷ r) ≡ w ∷ fields r
fields-word [] r h = absurd (h.nonempty refl)
fields-word (c ∷ w) r h = fields-cons c w b' ' r h.solid (unfold is_space in refl)

cut_text-upgradable :
    (u : Upgrade)
    → cut_text (codes "from: ") (upgradable u) ≡ some (codes "[upgradable ", u.old_ver ++ b']' ∷ [])
unfolding upgradable cut_text is_space
cut_text-upgradable u = refl

old_version-behind_name : (u : Upgrade) → IsUpgrade u → old_version (behind_name u) ≡ u.old_ver
unfolding behind_name old_version trim_right
old_version-behind_name u h =
    let arch = cut_text-word u.arch _ _ _ h.arch.solid h.arch.ends (cut_text-upgradable u) in
    let ver = cut_text-word u.new_ver _ _ _ h.new_ver.solid h.new_ver.ends arch in
    let source =
      cut_text-word u.source (u.new_ver ++ b' ' ∷ (u.arch ++ b' ' ∷ upgradable u))
        (u.new_ver ++ b' ' ∷ (u.arch ++ b' ' ∷ codes "[upgradable ")) (u.old_ver ++ b']' ∷ [])
        h.source.solid h.source.ends ver in
    rw (old_version, source)
      (trim_right_by-concat (λ c. c == b']') u.old_ver b']' refl
        ∙ trim_right_by-id _ u.old_ver h.old_ver)

second-behind_name :
    (u : Upgrade) → IsUpgrade u → second_or_empty (fields (behind_name u)) ≡ u.new_ver
unfolding behind_name second_or_empty
second-behind_name u h =
    rw (fields-word u.source _ h.source, fields-word u.new_ver _ h.new_ver) refl

contains-upgradable : (u : Upgrade) → contains (codes "[upgradable") (upgradable u) ≡ true
unfolding contains upgradable has_prefix
contains-upgradable u = refl

contains-upgrade_line : (u : Upgrade) → contains (codes "[upgradable") (upgrade_line u) ≡ true
unfolding upgrade_line behind_name
contains-upgrade_line u =
    let p = codes "[upgradable" in
    contains-behind p u.name _ (
      contains-behind p (b'/' ∷ u.source) _ (
        contains-behind p (b' ' ∷ u.new_ver) _ (
          contains-behind p (b' ' ∷ u.arch) _
            (contains-behind p (b' ' ∷ []) (upgradable u) (contains-upgradable u)))))

cut-upgrade_line :
    (u : Upgrade) → IsUpgrade u → cut b'/' (upgrade_line u) ≡ some (u.name, behind_name u)
unfolding upgrade_line
cut-upgrade_line u h = cut-append b'/' u.name (behind_name u) h.name_no_slash

apt_parts-behind_name :
    (u : Upgrade)
    → IsUpgrade u
    → apt_parts (some (u.name, behind_name u))
      ≡ record { name = u.name; current_ver = u.old_ver; new_ver = u.new_ver } ∷ []
unfolding apt_parts
apt_parts-behind_name u h = rw (old_version-behind_name u h, second-behind_name u h) refl

-- A line `<name>/<source> <new> <arch> [upgradable from: <old>]` gives exactly the name, the new and the
-- old version. The name has no slash, source, new version and architecture are words that do not end
-- in a colon, and the old version does not end in a bracket.
pub apt_line-upgrade_line :
    (u : Upgrade)
    → IsUpgrade u
    → apt_line (upgrade_line u)
      ≡ record { name = u.name; current_ver = u.old_ver; new_ver = u.new_ver } ∷ []
unfolding apt_line
apt_line-upgrade_line u h =
    rw (contains-upgrade_line u) (ap apt_parts (cut-upgrade_line u h) ∙ apt_parts-behind_name u h)
