-- ===== src/Tests/TlsGenerate.antt =====
-- internal/tlsutil/generate.go at concrete inputs.
use limiz.Base.{
  ◌≡◌, refl, ℕ, Text, lookup, insert, List, [], ◌∷◌, ◌++◌, true, false, none, some, if◌then◌else◌,
  codes, text_eq, arith,
}
use limiz.Filepath.{join_path}
use limiz.Tls.{
  certificate, Pair, loaded, source, load_certificate, load_from_store, platform_search,
}
use limiz.Tls.Blob.{
  PrivateKey, build_ecc_private_blob, built, IsBlobOf, build_ecc_private_blob-IsBlobOf,
}
use limiz.Tls.Generate.{
  mkdir, mkdir_all, check, write_pair, ◌>>=◌, ◌>>◌, follow, write_pem, open_truncated, truncated,
  encode_to, write_file, returns, Bytes, ok, Fs, Calls, cert_in, key_in, cert_mode, key_mode,
  generate_self_signed, template,
}
use limiz.Tls.Generate.Stored.{IsReady, stored, generate_self_signed-stores}
use limiz.Tls.Generate.Untouched.{touches, reaches_cert, reaches_key, generate_self_signed-touches}
use limiz.Tls.Generate.Directories.{
  unique, is_seen, first_writable, found_or, try_dir, removed, default_cert_dirs, test_file,
  writable_cert_dir,
}
use limiz.Tls.Generate.Usable.{first_usable, left, writable_cert_dir-first}
use limiz.Tls.Generate.Found.{on_disk, default_dir, generate_self_signed-loads}

-- a key is a number, its bytes are it, and a block is its type and its bytes
abbrev calls : Calls ℕ
calls = record {
  new_key = ok 7;
  random_int = λ limit. ok 5;
  hostname = codes "host";
  now = 7200000000000;
  later = 7200000000001;
  certificate_der = λ t k. ok (t.serial ∷ k ∷ []);
  marshal_key = λ k. ok (k ∷ []);
  pem_block = λ kind bs. kind ++ bs;
}

-- a store with room for 100 bytes in each file, where /usr cannot be written
abbrev fs : Fs
fs = record {
  files = (codes "/etc/hosts", record { mode = 420; content = 1 ∷ [] }) ∷ [];
  dirs = [];
  cannot_make = λ d. text_eq d (codes "/usr/lib/limiz/tls");
  is_locked = λ path. text_eq path (codes "/etc/limiz/tls/.write-test");
  room = λ path. 100;
  masked = λ mode. mode;
}

-- the same, where the key's file is locked
abbrev locked : Fs
locked = record fs { is_locked = λ path. text_eq path (codes "/srv/server.key") }

abbrev key_of : PrivateKey
key_of = record { is_p256 = true; curve_name = codes "P-256"; x = 258; y = 0; d = 77 }

build_ecc_private_blob-IsBlobOf_example :
    (bs : List ℕ) × (build_ecc_private_blob key_of ≡ built bs) × IsBlobOf key_of bs
build_ecc_private_blob-IsBlobOf_example =
    build_ecc_private_blob-IsBlobOf key_of refl (omega arith) (omega arith) (omega arith)

ready :
    (d : Text)
    → text_eq d (codes "/usr/lib/limiz/tls") ≡ false
    → text_eq (cert_in d) (codes "/etc/limiz/tls/.write-test") ≡ false
    → text_eq (key_in d) (codes "/etc/limiz/tls/.write-test") ≡ false
    → IsReady calls d fs 7 5 (5 ∷ 7 ∷ []) (7 ∷ [])
unfolding template
ready d h hc hk = record {
  makes = h;
  keyed = refl;
  numbered = refl;
  certified = refl;
  marshalled = refl;
  cert_opens = hc;
  key_opens = hk;
  cert_fits = omega arith;
  key_fits = omega arith;
}

ready_default : IsReady calls default_dir fs 7 5 (5 ∷ 7 ∷ []) (7 ∷ [])
unfolding cert_in key_in join_path text_eq
ready_default = ready default_dir refl refl refl

generate_self_signed-stores_example :
    ((generate_self_signed calls default_dir fs).1
      ≡ ok (record {
        cert_path = cert_in default_dir;
        key_path = key_in default_dir;
        cert_der = 5 ∷ 7 ∷ [];
        priv_key = 7;
      }))
    × (lookup (codes "/etc/hosts") (generate_self_signed calls default_dir fs).0.files ≡ (
        if text_eq (cert_in default_dir) (codes "/etc/hosts")
        then some (stored fs (cert_in default_dir) cert_mode (codes "CERTIFICATE" ++ 5 ∷ 7 ∷ []))
        else if text_eq (key_in default_dir) (codes "/etc/hosts")
        then some (stored fs (key_in default_dir) key_mode (codes "EC PRIVATE KEY" ++ 7 ∷ []))
        else lookup (codes "/etc/hosts") fs.files))
generate_self_signed-stores_example =
    generate_self_signed-stores calls default_dir fs 7 5 (5 ∷ 7 ∷ []) (7 ∷ []) ready_default
      (codes "/etc/hosts")

key_untouched :
    touches
      (codes "/srv")
      (generate_self_signed calls (codes "/srv") locked).1
      (codes "/srv/server.key")
    ≡ false
unfolding touches reaches_cert reaches_key generate_self_signed mkdir mkdir_all check template
    write_pair ◌>>=◌ ◌>>◌ follow write_pem open_truncated truncated encode_to write_file returns
    cert_in key_in join_path text_eq lookup insert
key_untouched = refl

-- the key's file cannot be opened, and has not changed
generate_self_signed-touches_example :
    lookup (codes "/srv/server.key") (generate_self_signed calls (codes "/srv") locked).0.files
    ≡ lookup (codes "/srv/server.key") locked.files
generate_self_signed-touches_example =
    generate_self_signed-touches calls (codes "/srv") (codes "/srv/server.key") locked key_untouched

abbrev x509 : Bytes → Bytes → Pair ℕ
x509 cert key = certificate 9

-- a state of the system
data State : Type 0 where
  clock : ℕ → State

generate_self_signed-loads_example :
    (load_certificate {E = Unit {0}}
        (on_disk x509 (generate_self_signed calls default_dir fs).0)
        load_from_store
        (platform_search (on_disk x509 (generate_self_signed calls default_dir fs).0))
        (cert_in default_dir)
        (key_in default_dir)
        []
        (clock 3)
      ≡ (clock 3, [], loaded 9 (source (codes "file") (cert_in default_dir) (key_in default_dir))))
    × (load_certificate {E = Unit {0}}
          (on_disk x509 (generate_self_signed calls default_dir fs).0)
          load_from_store
          (platform_search (on_disk x509 (generate_self_signed calls default_dir fs).0))
          []
          []
          []
          (clock 3)
        ≡ (
          clock 3,
          [],
          loaded 9 (source (codes "system path") (cert_in default_dir) (key_in default_dir)),
        ))
generate_self_signed-loads_example =
    generate_self_signed-loads calls x509 fs 7 5 (5 ∷ 7 ∷ []) (7 ∷ []) 9 [] (clock 3) ready_default
      refl

writable_cert_dir-first_example :
    ((writable_cert_dir none (codes "/srv" ∷ []) fs).1
      ≡ first_usable fs (default_cert_dirs none ++ codes "/srv" ∷ []))
    × ((q : Text)
        → lookup q (writable_cert_dir none (codes "/srv" ∷ []) fs).0.files
          ≡ left fs q (first_usable fs (default_cert_dirs none ++ codes "/srv" ∷ [])))
writable_cert_dir-first_example = writable_cert_dir-first none (codes "/srv" ∷ []) fs

-- the first and the second candidate cannot be used
writable_run : (writable_cert_dir none (codes "/srv" ∷ []) fs).1 ≡ some (codes "/var/lib/limiz/tls")
unfolding writable_cert_dir default_cert_dirs unique is_seen first_writable found_or try_dir
    mkdir_all open_truncated truncated write_file removed test_file join_path text_eq lookup insert
writable_run = refl
