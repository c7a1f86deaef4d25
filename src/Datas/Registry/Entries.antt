-- ===== src/Datas/Registry/Entries.antt =====
-- internal/datas/registry.go: the providers of a new registry.
use limiz.Base.{
  List, [], ◌∷◌, ◌++◌, append-nil, append_assoc, Option, map, select, ◌≡◌, ◌∙◌, sym, Bool-cases,
  inl, inr,
}
use limiz.Datas.Category.{CategoryConfig}
use limiz.Datas.Registry.{
  Provider, ProviderEntry, Registry, Providers, CategoriesConfig, cat_enabled, cat_interval,
  add_category, new_registry,
}

module _ {W : Type 0} where
  -- the categories with their providers, in the order of the program
  abbrev pub categories : Providers W → CategoriesConfig → List (Option CategoryConfig × Provider W)
  categories ps cats =
      (cats.services, ps.services)
      ∷ (cats.packages, ps.packages)
      ∷ (cats.updates, ps.updates)
      ∷ (cats.disk_health, ps.disk_health)
      ∷ (cats.hardware, ps.hardware)
      ∷ (cats.os, ps.os)
      ∷ (cats.ports, ps.ports)
      ∷ []

  abbrev pub entry_of : Option CategoryConfig × Provider W → ProviderEntry W
  entry_of (c, p) = record { provider = p; cache_interval = cat_interval c }

  add_all : List (Option CategoryConfig × Provider W) → Registry W → Registry W
  unfolding add_category
  add_all [] r = r
  add_all ((c, p) ∷ cs) r = add_all cs (add_category c p r)

  add_all-entries :
      (cs : List (Option CategoryConfig × Provider W)) (r : Registry W)
      → (add_all cs r).entries ≡ r.entries ++ map entry_of (select (λ cp. cat_enabled cp.0) cs)
  unfolding add_all add_category select
  add_all-entries [] r = sym (append-nil r.entries)
  add_all-entries ((c, p) ∷ cs) r = elim (Bool-cases (cat_enabled c)) [
    | inl e ↦
        rw (add_all, add_category, e, select)
          (add_all-entries cs _ ∙ append_assoc r.entries (entry_of (c, p) ∷ []) _)
    | inr e ↦ rw (add_all, add_category, e, select) (add_all-entries cs r)
  ]

  -- The registry has the providers of the enabled categories, in the order of the program, each with
  -- the interval of its category.
  pub new_registry-entries :
      (ps : Providers W) (cats : CategoriesConfig)
      → (new_registry ps cats).entries
        ≡ map entry_of (select (λ cp. cat_enabled cp.0) (categories ps cats))
  unfolding new_registry add_all
  new_registry-entries ps cats = add_all-entries (categories ps cats) (record { entries = [] })
