-- ===== src/Tls/Generate.antt =====
-- internal/tlsutil/generate.go: `GenerateSelfSigned`. The calls of `crypto`, `x509` and `pem` are given, and
-- the files are a store in which a call can fail. A step that fails is the end, and what was done before stays.
pub mod Writing
pub mod Untouched
pub mod Stored
pub mod Directories
pub mod Usable
pub mod Found
use limiz.Base.{
  ℕ, ◌+◌, ◌-◌, ◌*◌, ◌^◌, ℤ, pos, neg, Text, Map, lookup, insert, List, [], ◌∷◌, Bool, true, false,
  Option, none, some, if◌then◌else◌, ltb, codes, length, take, text_eq,
}
use limiz.Filepath.{join_path}

pub data Result (E A : Type 0) : Type 0 where
  ok : A → Result E A
  err : E → Result E A

abbrev pub Bytes : Type 0
Bytes = List ℕ

pub record File : Type 0 where
  pub mode : ℕ
  pub content : Bytes

pub record Fs : Type 0 where
  pub files : Map File
  -- the directories that `os.MkdirAll` has made or found, without their parents
  pub dirs : List Text
  -- `os.MkdirAll` fails
  pub cannot_make : Text → Bool
  -- `os.OpenFile` and `os.Remove` fail
  pub is_locked : Text → Bool
  -- the bytes that there is room for in a file
  pub room : Text → ℕ
  -- the mode of a new file, after the umask
  pub masked : ℕ → ℕ

-- the steps that can fail, with the error of the call where it is not one of the store
pub data GenerateError : Type 0 where
  create_directory : GenerateError
  generate_key : Text → GenerateError
  serial_number : Text → GenerateError
  create_certificate : Text → GenerateError
  create_cert_file : GenerateError
  write_certificate : GenerateError
  encode_key : Text → GenerateError
  create_key_file : GenerateError
  write_key : GenerateError

-- `x509.Certificate`, as it is filled in; the times are in nanoseconds
pub record Template : Type 0 where
  pub serial : ℕ
  pub common_name : Text
  pub organization : List Text
  pub not_before : ℤ
  pub not_after : ℤ
  pub key_usage : ℕ
  pub ext_key_usage : List ℕ
  pub dns_names : List Text
  pub ip_addresses : List Bytes

-- the calls of the standard library
pub record Calls (K : Type 0) : Type 0 where
  -- `ecdsa.GenerateKey(elliptic.P256(), rand.Reader)`
  pub new_key : Result Text K
  -- `rand.Int` below a limit
  pub random_int : ℕ → Result Text ℕ
  -- `os.Hostname`, empty where it fails
  pub hostname : Text
  -- the two readings of `time.Now`, in nanoseconds
  pub now : ℕ
  pub later : ℕ
  -- `x509.CreateCertificate`, signed by its own key
  pub certificate_der : Template → K → Result Text Bytes
  -- `x509.MarshalECPrivateKey`
  pub marshal_key : K → Result Text Bytes
  -- a block of `pem.Encode`, by its type
  pub pem_block : Text → Bytes → Bytes

pub record GenerateResult (K : Type 0) : Type 0 where
  pub cert_path : Text
  pub key_path : Text
  pub cert_der : Bytes
  pub priv_key : K

-- `x509.KeyUsageDigitalSignature | x509.KeyUsageKeyEncipherment`
abbrev pub key_usages : ℕ
key_usages = 5

-- `x509.ExtKeyUsageServerAuth`
abbrev pub server_auth : ℕ
server_auth = 1

abbrev pub hour : ℕ
hour = 3600000000000

unfoldable pub minus : ℕ → ℕ → ℤ
minus a b = if ltb a b then neg (b - a) else pos (a - b)

-- 127.0.0.1 and ::1, with 16 bytes each
abbrev pub loopback : List Bytes
loopback =
    (0 ∷ 0 ∷ 0 ∷ 0 ∷ 0 ∷ 0 ∷ 0 ∷ 0 ∷ 0 ∷ 0 ∷ 255 ∷ 255 ∷ 127 ∷ 0 ∷ 0 ∷ 1 ∷ [])
    ∷ (0 ∷ 0 ∷ 0 ∷ 0 ∷ 0 ∷ 0 ∷ 0 ∷ 0 ∷ 0 ∷ 0 ∷ 0 ∷ 0 ∷ 0 ∷ 0 ∷ 0 ∷ 1 ∷ [])
    ∷ []

unfoldable pub or_localhost : Text → Text
or_localhost [] = codes "localhost"
or_localhost (c ∷ s) = c ∷ s

unfoldable pub template : ℕ → Text → ℕ → ℕ → Template
unfolding or_localhost minus
template serial hostname now later = record {
  serial = serial;
  common_name = codes "Limiz";
  organization = codes "Limiz Self-Signed" ∷ [];
  not_before = minus now hour;
  not_after = pos (later + 5 * (365 * (24 * hour)));
  key_usage = key_usages;
  ext_key_usage = server_auth ∷ [];
  dns_names = codes "localhost" ∷ or_localhost hostname ∷ [];
  ip_addresses = loopback;
}

-- a step on the store, and its error
abbrev pub Step : Type 0 → Type 0
Step A = Fs → Fs × Result GenerateError A

unfoldable pub follow :
    {A B : Type 0} → (A → Step B) → Fs × Result GenerateError A → Fs × Result GenerateError B
follow f (fs, ok a) = f a fs
follow f (fs, err e) = (fs, err e)

infixl 5 ◌>>=◌ ◌>>◌
unfoldable pub ◌>>=◌ : {A B : Type 0} → Step A → (A → Step B) → Step B
unfolding follow
◌>>=◌ m f fs = follow f (m fs)

unfoldable pub ◌>>◌ : {B : Type 0} → Step (Unit {0}) → Step B → Step B
m >> k = m >>= λ _. k

-- `if err != nil { return nil, fmt.Errorf(...) }` after a call that leaves the store alone
unfoldable pub check : {A : Type 0} → (Text → GenerateError) → Result Text A → Step A
check failed (ok a) fs = (fs, ok a)
check failed (err e) fs = (fs, err (failed e))

unfoldable pub returns : {A : Type 0} → A → Step A
returns a fs = (fs, ok a)

-- `os.MkdirAll`: none where it fails
unfoldable pub mkdir_all : Text → Fs → Option Fs
mkdir_all d fs = if fs.cannot_make d then none else some (record fs { dirs = d ∷ fs.dirs })

-- the file that `O_CREATE|O_TRUNC` opens: one that is there keeps its mode
unfoldable pub truncated : ℕ → Option File → File
truncated mode none = record { mode = mode; content = [] }
truncated mode (some f) = record f { content = [] }

-- `os.OpenFile(path, O_WRONLY|O_CREATE|O_TRUNC, mode)`: none where it fails
unfoldable pub open_truncated : Text → ℕ → Fs → Option Fs
unfolding truncated
open_truncated path mode fs =
    if fs.is_locked path
    then none
    else some (record fs {
      files = insert path (truncated (fs.masked mode) (lookup path fs.files)) fs.files;
    })

-- the bytes that there is room for, at the end of an open file
unfoldable pub write_file : Text → Bytes → Fs → Fs
write_file path bs fs = elim (lookup path fs.files) [
  | none ↦ fs
  | some f ↦ record fs {
    files = insert path (record f { content = take (fs.room path) bs }) fs.files;
  }
]

unfoldable pub mkdir : Text → Step (Unit {0})
unfolding mkdir_all
mkdir d fs = elim (mkdir_all d fs) [ none ↦ (fs, err create_directory) | some fs' ↦ (fs', ok tt) ]

-- `pem.Encode` to an open file
unfoldable pub encode_to : GenerateError → Text → Bytes → Step (Unit {0})
unfolding write_file
encode_to failed path pem fs =
    (write_file path pem fs, if ltb (fs.room path) (length pem) then err failed else ok tt)

-- a file opened, a block written to it, and the file closed
unfoldable pub write_pem : GenerateError → GenerateError → Text → ℕ → Bytes → Step (Unit {0})
unfolding open_truncated encode_to
write_pem not_created not_written path mode pem fs = elim (open_truncated path mode fs) [
  | none ↦ (fs, err not_created)
  | some fs' ↦ encode_to not_written path pem fs'
]

-- 0644 and 0600
abbrev pub cert_mode : ℕ
cert_mode = 420

abbrev pub key_mode : ℕ
key_mode = 384

unfoldable pub cert_in : Text → Text
cert_in d = join_path d (codes "server.crt")

unfoldable pub key_in : Text → Text
key_in d = join_path d (codes "server.key")

module _ {K : Type 0} (calls : Calls K) where
  -- both files
  unfoldable pub write_pair : Text → Bytes → K → Step (GenerateResult K)
  unfolding cert_in key_in write_pem check returns
  write_pair d cert_der priv = do
    write_pem create_cert_file write_certificate (cert_in d) cert_mode
        (calls.pem_block (codes "CERTIFICATE") cert_der)
    key_bytes ← check encode_key (calls.marshal_key priv)
    write_pem create_key_file write_key (key_in d) key_mode
        (calls.pem_block (codes "EC PRIVATE KEY") key_bytes)
    returns (record {
      cert_path = cert_in d;
      key_path = key_in d;
      cert_der = cert_der;
      priv_key = priv;
    })

  unfoldable pub generate_self_signed : Text → Step (GenerateResult K)
  unfolding mkdir check template write_pair
  generate_self_signed d = do
    mkdir d
    priv ← check generate_key calls.new_key
    serial ← check serial_number (calls.random_int (2 ^ 128))
    cert_der ←
        check create_certificate
          (calls.certificate_der (template serial calls.hostname calls.now calls.later) priv)
    write_pair d cert_der priv
