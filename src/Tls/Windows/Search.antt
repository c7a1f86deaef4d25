-- ===== src/Tls/Windows/Search.antt =====
-- internal/tlsutil/store_windows.go: `platformSearch`, the store and then the files.
use limiz.Base.{Text, List, [], ◌∷◌, ◌++◌, ◌&&◌, codes, if◌then◌else◌}
use limiz.Effects.{◌>>=◌, ret}
use limiz.Tls.{Files, Pair, certificate, invalid, Loaded, loaded, refused, source}
use limiz.Tls.Windows.{Act, Crypt, Certificate, from_files, load_from_store}

abbrev pub windows_paths : List (Text × Text)
windows_paths =
    (
      codes "C:\\Program Files\\limiz\\certs\\server.crt",
      codes "C:\\Program Files\\limiz\\certs\\server.key",
    )
    ∷ (
      codes "C:\\ProgramData\\limiz\\certs\\server.crt",
      codes "C:\\ProgramData\\limiz\\certs\\server.key",
    )
    ∷ []

unfoldable pub not_found_at : Text → Text
not_found_at default_store =
    codes "TLS certificate not found:\n"
    ++ (codes "  - Certificate files do not exist at the specified path\n"
        ++ (codes "  - '"
            ++ (default_store
                ++ (codes "' not found in Windows Certificate Store\n"
                    ++ codes "  - No certificate found in standard file paths"))))

unfoldable pub wrapped : {C X : Type 0} → Pair C → Pair (Certificate C X)
wrapped (certificate c) = certificate (from_files c)
wrapped (invalid err) = invalid err

-- the files, with certificates that are not of the store
unfoldable pub in_files : {C X : Type 0} → Files C → Files (Certificate C X)
unfolding wrapped
in_files files = record {
  file_exists = files.file_exists;
  load_key_pair = λ cert key. wrapped (files.load_key_pair cert key);
}

module _ {C X : Type 0} (files : Files (Certificate C X)) where
  unfoldable pub path_pair :
      Text × Text → Pair (Certificate C X) → Loaded (Certificate C X) → Loaded (Certificate C X)
  unfolding source
  path_pair (cert, key) (certificate c) rest = loaded c (source (codes "file") cert key)
  path_pair p (invalid err) rest = rest

  unfoldable pub path_loop : Text → List (Text × Text) → Loaded (Certificate C X)
  unfolding path_pair not_found_at
  path_loop default_store [] = refused (not_found_at default_store)
  path_loop default_store ((cert, key) ∷ ps) =
      let rest = path_loop default_store ps in
      if files.file_exists cert && files.file_exists key
      then path_pair (cert, key) (files.load_key_pair cert key) rest
      else rest

module _ {W C X : Type 0} (api : Crypt W X) (files : Files (Certificate C X)) where
  unfoldable pub or_paths : Text → Loaded (Certificate C X) → Act W (Loaded (Certificate C X))
  unfolding path_loop
  or_paths default_store (loaded c src) = ret (loaded c src)
  or_paths default_store (refused err) = ret (path_loop files default_store windows_paths)

  unfoldable pub windows_search : Text → Act W (Loaded (Certificate C X))
  unfolding or_paths
  windows_search default_store = do r ← load_from_store api default_store; or_paths default_store r
