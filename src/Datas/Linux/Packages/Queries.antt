-- ===== src/Datas/Linux/Packages/Queries.antt =====
-- internal/datas/providers_linux.go: the packages from what dpkg-query and rpm print.
use limiz.Base.{
  Text, List, [], ◌∷◌, ◌++◌, true, false, none, codes, map, All, All-append, ◌≡◌, ◌≢◌, refl, ap,
  ◌∙◌, arith,
}
use limiz.Strings.Affix.{cut, cut-append, Lacks}
use limiz.Strings.Trim.{is_space, trim_space, EndsOutside, EndsOutside-All, EndsOutside-join}
use limiz.Strings.Split.{split}
use limiz.Strings.Fields.{NoSpace, NoSpace-Lacks}
use limiz.Strings.Lines.{unlines, IsTrimmed, split-trim_space-unlines}
use limiz.Datas.Linux.{Machine, ok}
use limiz.Datas.Linux.Packages.{
  PackageInfo, tab, dpkg_line, rpm_line, package_loop, packages_of, collect_dpkg, collect_rpm,
  collect_packages,
}

-- what `${Package}\t${Version}\t${Architecture}` gives for a package, and the rpm format
unfoldable pub dpkg_text : PackageInfo × Text → Text
dpkg_text (p, arch) = p.name ++ tab ∷ (p.version ++ tab ∷ arch)

unfoldable pub rpm_text : PackageInfo → Text
rpm_text p = p.name ++ tab ∷ p.version

-- names, versions and architectures are words
pub record IsPackage (p : PackageInfo) : Type 0 where
  pub name_nonempty : p.name ≢ []
  pub name_solid : NoSpace p.name
  pub version_nonempty : p.version ≢ []
  pub version_solid : NoSpace p.version

abbrev pub IsListed : PackageInfo × Text → Type 0
IsListed (p, arch) = IsPackage p × (arch ≢ []) × NoSpace arch

-- words with tabs between them
tabbed :
    (a b : Text)
    → a ≢ []
    → NoSpace a
    → b ≢ []
    → EndsOutside is_space b
    → Lacks 10 b
    → IsTrimmed (a ++ tab ∷ b)
unfolding is_space
tabbed [] b n h m k l = absurd (n refl)
tabbed (c ∷ a) b n h m k l = record {
  nonempty = cc;
  starts = h.0;
  ends =
      EndsOutside-join is_space (c ∷ a) (tab ∷ b) (cc) (EndsOutside-join is_space (tab ∷ []) b m k);
  no_break =
      All-append (λ d. d ≢ 10) (c ∷ a) (tab ∷ b) (NoSpace-Lacks 10 (c ∷ a) refl h) (omega arith, l);
}

solid_text : (a : Text) → NoSpace a → EndsOutside is_space a × Lacks 10 a
unfolding is_space
solid_text a h = (EndsOutside-All is_space a h, NoSpace-Lacks 10 a refl h)

rpm_text-IsTrimmed : (p : PackageInfo) → IsPackage p → IsTrimmed (rpm_text p)
unfolding rpm_text
rpm_text-IsTrimmed p h =
    let (e, l) = solid_text p.version h.version_solid in
    tabbed p.name p.version h.name_nonempty h.name_solid h.version_nonempty e l

dpkg_text-IsTrimmed : (p : PackageInfo × Text) → IsListed p → IsTrimmed (dpkg_text p)
unfolding dpkg_text
dpkg_text-IsTrimmed (p, arch) h =
    let (e, l) = solid_text arch h.2 in
    let t = tabbed p.version arch h.0.version_nonempty h.0.version_solid h.1 e l in
    tabbed p.name (p.version ++ tab ∷ arch) h.0.name_nonempty h.0.name_solid t.nonempty t.ends
      t.no_break

tab_space : is_space tab ≡ true
unfolding is_space
tab_space = refl

rpm_line-rpm_text : (p : PackageInfo) → IsPackage p → rpm_line (rpm_text p) ≡ p ∷ []
unfolding rpm_text rpm_line
rpm_line-rpm_text p h =
    rw (cut-append tab p.name p.version (NoSpace-Lacks tab p.name tab_space h.name_solid), rpm_line)
      refl

dpkg_line-dpkg_text : (p : PackageInfo × Text) → IsListed p → dpkg_line (dpkg_text p) ≡ p.0 ∷ []
unfolding dpkg_text dpkg_line
dpkg_line-dpkg_text (p, arch) h =
    rw
      (
        cut-append tab p.name (p.version ++ tab ∷ arch)
            (NoSpace-Lacks tab p.name tab_space h.0.name_solid),
        dpkg_line,
      )
      (rw
        (
          cut-append tab p.version arch (NoSpace-Lacks tab p.version tab_space h.0.version_solid),
          dpkg_line,
        )
        refl)

module _ {A : Type 0} (read : Text → List PackageInfo) (show : A → Text) (item : A → PackageInfo)
    (Good : A → Type 0) (reads : (a : A) → Good a → read (show a) ≡ item a ∷ [])
    (trimmed : (a : A) → Good a → IsTrimmed (show a)) (nothing : read [] ≡ []) where
  package_loop-show :
      (as' : List A) → All Good as' → package_loop read (map show as') ≡ map item as'
  unfolding package_loop
  package_loop-show [] h = refl
  package_loop-show (a ∷ as') h = rw (reads a h.0, package_loop-show as' h.1) refl

  lines-IsTrimmed : (as' : List A) → All Good as' → All IsTrimmed (map show as')
  lines-IsTrimmed [] h = tt
  lines-IsTrimmed (a ∷ as') h = (trimmed a h.0, lines-IsTrimmed as' h.1)

  packages_of-show :
      (as' : List A)
      → All Good as'
      → packages_of read (record { stdout = unlines (map show as'); err = none })
        ≡ ok (map item as')
  unfolding packages_of
  packages_of-show [] h = unfold unlines split trim_space package_loop in rw nothing refl
  packages_of-show (a ∷ as') h = ap ok (
      ap (package_loop read)
        (split-trim_space-unlines (show a) (map show as') (lines-IsTrimmed (a ∷ as') h))
      ∙ package_loop-show (a ∷ as') h)

-- Where dpkg-query is there and lists packages in the format that it is asked for, Collect returns exactly
-- those, in their order, with their names and versions. Names, versions and architectures are words.
pub collect_packages-dpkg_text :
    (m : Machine) (ps : List (PackageInfo × Text))
    → All IsListed ps
    → m.has_command (codes "dpkg-query") ≡ true
    → m.run
        (codes "dpkg-query")
        (codes "-W" ∷ codes "-f" ∷ codes "${Package}\t${Version}\t${Architecture}\n" ∷ [])
      ≡ record { stdout = unlines (map dpkg_text ps); err = none }
    → collect_packages m ≡ ok (map (λ p. p.0) ps)
unfolding collect_packages collect_dpkg
collect_packages-dpkg_text m ps h e d =
    rw (e, d)
      (packages_of-show dpkg_line dpkg_text (λ p. p.0) IsListed dpkg_line-dpkg_text
        dpkg_text-IsTrimmed (unfold dpkg_line cut in refl) ps h)

-- Where dpkg-query is not there and rpm is, the same holds of the packages that rpm lists.
pub collect_packages-rpm_text :
    (m : Machine) (ps : List PackageInfo)
    → All IsPackage ps
    → m.has_command (codes "dpkg-query") ≡ false
    → m.has_command (codes "rpm") ≡ true
    → m.run
        (codes "rpm")
        (codes "-qa" ∷ codes "--queryformat" ∷ codes "%{NAME}\t%{VERSION}-%{RELEASE}\n" ∷ [])
      ≡ record { stdout = unlines (map rpm_text ps); err = none }
    → collect_packages m ≡ ok (map (λ p. p) ps)
unfolding collect_packages collect_rpm
collect_packages-rpm_text m ps h e f d =
    rw (e, f, d)
      (packages_of-show rpm_line rpm_text (λ p. p) IsPackage rpm_line-rpm_text rpm_text-IsTrimmed
        (unfold rpm_line cut in refl) ps h)
