-- ===== src/Tls.antt =====
-- internal/tlsutil/tlsutil.go, and store_other.go for the systems that are not Windows: where the TLS
-- certificate comes from. Which files there are, and what `tls.LoadX509KeyPair` makes of them, are parameters.
pub mod Sources
pub mod Bytes
pub mod Blob
pub mod Generate
pub mod Windows
unfoldable pub use limiz.Effects.{◌>>=◌, ret}
use limiz.Effects.{Op}
use limiz.Base.{
  Text, List, [], ◌∷◌, ◌++◌, Bool, true, false, ◌&&◌, ◌||◌, not, Option, none, some, codes,
  if◌then◌else◌, text_eq,
}

pub data Pair (C : Type 0) : Type 0 where
  certificate : C → Pair C
  invalid : Text → Pair C

pub record Files (C : Type 0) : Type 0 where
  -- `os.Stat(path)` succeeds
  pub file_exists : Text → Bool
  -- the certificate, or the text of the error
  pub load_key_pair : Text → Text → Pair C

-- the certificate and its source, or an error
pub data Loaded (C : Type 0) : Type 0 where
  loaded : C → Text → Loaded C
  refused : Text → Loaded C

unfoldable pub source : Text → Text → Text → Text
source kind cert key = kind ++ (codes " (" ++ (cert ++ (codes ", " ++ (key ++ codes ")"))))

abbrev pub search_paths : List (Text × Text)
search_paths =
    (codes "/etc/limiz/tls/server.crt", codes "/etc/limiz/tls/server.key")
    ∷ (codes "/etc/limiz/server.crt", codes "/etc/limiz/server.key")
    ∷ (codes "/etc/ssl/certs/limiz.crt", codes "/etc/ssl/private/limiz.key")
    ∷ (codes "/etc/pki/tls/certs/limiz.crt", codes "/etc/pki/tls/private/limiz.key")
    ∷ []

abbrev pub not_found : Text
not_found =
    codes "TLS certificate files not found. Searched locations:\n"
    ++ (codes "  - /etc/limiz/tls/server.crt + server.key\n"
        ++ (codes "  - /etc/limiz/server.crt + server.key\n"
            ++ (codes "  - /etc/ssl/certs/limiz.crt + /etc/ssl/private/limiz.key\n"
                ++ codes "  - /etc/pki/tls/certs/limiz.crt + /etc/pki/tls/private/limiz.key")))

module _ {C : Type 0} (files : Files C) where
  unfoldable pub search_pair : Text × Text → Pair C → Loaded C → Loaded C
  unfolding source
  search_pair (cert, key) (certificate c) rest = loaded c (source (codes "system path") cert key)
  search_pair p (invalid err) rest = rest

  unfoldable pub search_loop : List (Text × Text) → Loaded C
  unfolding search_pair
  search_loop [] = refused not_found
  search_loop ((cert, key) ∷ ps) =
      let rest = search_loop ps in
      if files.file_exists cert && files.file_exists key
      then search_pair (cert, key) (files.load_key_pair cert key) rest
      else rest

  unfoldable pub explicit : Text → Text → Pair C → Loaded C
  unfolding source
  explicit cert key (certificate c) = loaded c (source (codes "file") cert key)
  explicit cert key (invalid err) = refused (codes "failed to load certificate files: " ++ err)

module _ {E W C : Type 0} where
  -- it takes the name of a store, and does not use it
  unfoldable pub platform_search : Files C → Text → Op E W (Loaded C)
  unfolding search_loop
  platform_search files store = ret (search_loop files search_paths)

  unfoldable pub load_from_store : Text → Op E W (Loaded C)
  load_from_store store =
      ret (refused (codes "Windows certificate store is not supported on this platform"))

-- The sources in their order. The two of the platform are arguments: they are others on Windows.
module _ {E W C : Type 0} (files : Files C) (from_store search : Text → Op E W (Loaded C)) where
  unfoldable pub third_source : Text → Op E W (Loaded C)
  third_source store_name = search (if text_eq store_name [] then codes "Limiz" else store_name)

  unfoldable pub after_store : Text → Loaded C → Op E W (Loaded C)
  unfolding third_source
  after_store store_name (loaded c src) = ret (loaded c src)
  after_store store_name (refused err) = third_source store_name

  unfoldable pub second_source : Text → Op E W (Loaded C)
  unfolding after_store
  second_source store_name =
      if not (text_eq store_name [])
      then (from_store store_name >>= after_store store_name)
      else third_source store_name

  unfoldable pub load_certificate : Text → Text → Text → Op E W (Loaded C)
  unfolding second_source explicit
  load_certificate cert_file key_file store_name =
      let first = explicit files cert_file key_file (files.load_key_pair cert_file key_file) in
      let second = second_source store_name in
      if not (text_eq cert_file []) && not (text_eq key_file [])
      then (if files.file_exists cert_file && files.file_exists key_file then ret first else second)
      else second
