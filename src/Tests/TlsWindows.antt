-- ===== src/Tests/TlsWindows.antt =====
-- internal/tlsutil/store_windows.go at concrete inputs.
use limiz.Base.{
  ◌≡◌, refl, ℕ, Text, [], ◌∷◌, ◌++◌, true, false, none, some, if◌then◌else◌, codes, text_eq, ◌==◌,
  arith,
}
use limiz.Effects.{◌>>=◌, ◌>>◌, ret}
use limiz.Tls.{Files, invalid, loaded, load_certificate}
use limiz.Tls.Bytes.{pad, bytes}
use limiz.Tls.Blob.{PrivateKey, build_ecc_private_blob}
use limiz.Tls.Windows.{Crypt, from_store, load_from_store, acquire, call, current_user}
use limiz.Tls.Windows.Search.{in_files, windows_search}
use limiz.Tls.Windows.Handles.{settle}
use limiz.Tls.Windows.Held.{kept}
use limiz.Tls.Windows.Whole.{load_certificate-settled}
use limiz.Tls.Windows.Signer.{NCrypt, IsDocumented}
use limiz.Tls.Windows.Import.{
  Import, import_to_store, imported, acquire_coded, under, with_provider,
}
use limiz.Tls.Windows.Imported.{IsDeleting, import_to_store-settled}

-- a state of the system
data State : Type 0 where
  clock : ℕ → State

-- a certificate of the current user, by its subject
abbrev crypt : Crypt State Text
crypt = record {
  open_store = λ flag w. (w, flag);
  close_store = λ h w. w;
  find_by_hash = λ bs st w. (w, 0);
  find_by_subject = λ s st w. (w, if st == current_user then 31 else 0);
  free_context = λ h w. w;
  encoded = λ ctx w. (w, 48 ∷ []);
  acquire_private_key = λ ctx w. (w, some 77);
  parse_certificate = λ bs. some (codes "Limiz");
  common_name = λ cn. cn;
}

abbrev no_files : Files ℕ
no_files = record { file_exists = λ path. false; load_key_pair = λ cert key. invalid [] }

load_certificate-settled_example :
    settle []
      (load_certificate
        (in_files no_files)
        (load_from_store crypt)
        (windows_search crypt (in_files no_files))
        []
        []
        (codes "Limiz")
        (clock 2)).1
    ≡ some (
        kept
          (load_certificate
            (in_files no_files)
            (load_from_store crypt)
            (windows_search crypt (in_files no_files))
            []
            []
            (codes "Limiz")
            (clock 2)).2)
load_certificate-settled_example =
    load_certificate-settled crypt no_files [] [] (codes "Limiz") (clock 2)

-- a key whose signature is always the same two halves
abbrev ncrypt : NCrypt State
ncrypt = record {
  sign_size = λ alg digest w. (w, 0, 4);
  sign_hash = λ alg digest size w. (w, 0, 4, 1 ∷ 2 ∷ 0 ∷ 4 ∷ []);
  marshal = λ r s. 48 ∷ r ∷ s ∷ [];
}

ncrypt-IsDocumented : IsDocumented ncrypt none (9 ∷ 9 ∷ []) ((1 ∷ 2 ∷ []) ++ (0 ∷ 4 ∷ [])) (clock 2)
ncrypt-IsDocumented = record {
  sized = refl;
  size = refl;
  not_empty = omega arith;
  done = refl;
  agreed = refl;
  written = refl;
}

abbrev ksp : Import State
ksp = record {
  open_storage_provider = λ name w. (w, 0, 11);
  open_key = λ name p w. (w, 0, 12);
  delete_key = λ k w. (w, 0);
  import_key = λ kind blob p w. (w, 0, 13);
  set_property = λ name value size k w. (w, 5);
  finalize_key = λ k w. (w, 0);
  free_object = λ h w. w;
  open_store = λ flag w. (w, 14);
  close_store = λ h w. w;
  add_encoded_certificate = λ der st w. (w, some 15);
  set_key_prov_info = λ container ksp ctx w. (w, true);
  free_context = λ h w. w;
  utf16 = λ s. s;
}

ksp-IsDeleting : IsDeleting ksp
ksp-IsDeleting h w = refl

abbrev priv : PrivateKey
priv = record { is_p256 = true; curve_name = codes "P-256"; x = 258; y = 0; d = 77 }

import_to_store-settled_example :
    settle [] (import_to_store ksp (48 ∷ []) priv (clock 2)).1 ≡ some []
import_to_store-settled_example =
    import_to_store-settled ksp ksp-IsDeleting (48 ∷ []) priv (clock 2)

-- the certificate is the one of the current user, and its handles stay open
load_run :
    (load_certificate
      (in_files no_files)
      (load_from_store crypt)
      (windows_search crypt (in_files no_files))
      []
      []
      (codes "Limiz")
      (clock 2)).2
    ≡ loaded
        (from_store
          (record { cert_bytes = 48 ∷ []; leaf = codes "Limiz"; handle = 77; cert_ctx = 31 }))
        (codes "Windows Certificate Store (CurrentUser\\My, Subject: Limiz)")
unfolding load_certificate text_eq ◌>>=◌ load_from_store acquire ◌>>◌ ret call
load_run = refl

import_run : (import_to_store ksp (48 ∷ []) priv (clock 2)).2 ≡ imported
unfolding import_to_store acquire_coded ◌>>=◌ ◌>>◌ ret under with_provider build_ecc_private_blob
    pad bytes call acquire
import_run = refl
