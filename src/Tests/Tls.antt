-- ===== src/Tests/Tls.antt =====
-- internal/tlsutil at concrete inputs.
use limiz.Base.{◌≡◌, refl, ℕ, [], ◌||◌, codes, text_eq}
use limiz.Tls.{
  Loaded, ret, ◌>>=◌, Files, certificate, loaded, search_pair, search_loop, platform_search,
  load_from_store, source, third_source, after_store, second_source, load_certificate,
}
use limiz.Tls.Sources.{Outcome, load_certificate-Outcome}

-- a state of the system
data State : Type 0 where
  clock : ℕ → State

-- the second pair of the search paths is there, and a given pair is not
abbrev files : Files ℕ
files = record {
  file_exists = λ path.
      text_eq path (codes "/etc/limiz/server.crt") || text_eq path (codes "/etc/limiz/server.key");
  load_key_pair = λ cert key. certificate 7;
}

load_certificate-Outcome_example :
    (r : Loaded ℕ) × (load_certificate {E = Unit {0}} files load_from_store
        (platform_search files)
        (codes "a.crt")
        (codes "a.key")
        []
        (clock 5)
      ≡ (clock 5, [], r))
    × Outcome files (codes "a.crt") (codes "a.key") r
load_certificate-Outcome_example =
    load_certificate-Outcome files (codes "a.crt") (codes "a.key") [] (clock 5)

search_run :
    load_certificate {E = Unit {0}} files load_from_store
      (platform_search files)
      (codes "a.crt")
      (codes "a.key")
      []
      (clock 5)
    ≡ (clock 5, [], loaded 7 (codes "system path (/etc/limiz/server.crt, /etc/limiz/server.key)"))
unfolding load_certificate second_source after_store third_source platform_search search_loop
    search_pair source text_eq ret ◌>>=◌
search_run = refl
