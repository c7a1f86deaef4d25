-- ===== src/Tls/Windows.antt =====
-- internal/tlsutil/store_windows.go: the certificate store of Windows. What a call of the system does is a
-- parameter; an operation returns with its result the handles that it opened, used and closed, in order.
pub mod Search
pub mod Handles
pub mod Held
pub mod Import
pub mod Imported
pub mod Signer
pub mod Whole
use limiz.Base.{
  ℕ, zero, suc, Text, List, [], ◌∷◌, ◌++◌, Bool, true, false, not, ◌&&◌, ◌||◌, Option, none, some,
  codes, if◌then◌else◌, ◌==◌, length, text_eq,
}
use limiz.Strconv.Hex.{decode_string}
use limiz.Effects.{Op, ◌>>=◌, ◌>>◌, ret}
use limiz.Winsvc.{utf16_ptr}
use limiz.Tls.{Files, Pair, certificate, invalid, Loaded, loaded, refused, source}

pub data Handle : Type 0 where
  store : ℕ → Handle
  context : ℕ → Handle
  provider : ℕ → Handle
  key : ℕ → Handle

pub data Event : Type 0 where
  opened : Handle → Event
  used : Handle → Event
  closed : Handle → Event

abbrev pub Act : Type 0 → Type 0 → Type 0
Act W A = Op Event W A

-- the calls of crypt32.dll that load a certificate; a handle is 0 where the call fails
pub record Crypt (W X : Type 0) : Type 0 where
  -- by the location of the store
  pub open_store : ℕ → W → W × ℕ
  pub close_store : ℕ → W → W
  pub find_by_hash : List ℕ → ℕ → W → W × ℕ
  -- the subject is none where the pointer is nil
  pub find_by_subject : Option Text → ℕ → W → W × ℕ
  pub free_context : ℕ → W → W
  -- the bytes that a context holds
  pub encoded : ℕ → W → W × List ℕ
  -- none where the call fails
  pub acquire_private_key : ℕ → W → W × Option ℕ
  -- `x509.ParseCertificate`, and the subject's common name
  pub parse_certificate : List ℕ → Option X
  pub common_name : X → Text

-- the tls.Certificate of the store, with its signer
pub record Stored (X : Type 0) : Type 0 where
  pub cert_bytes : List ℕ
  pub leaf : X
  pub handle : ℕ
  pub cert_ctx : ℕ

-- the certificate of two files, or of the store
pub data Certificate (C X : Type 0) : Type 0 where
  from_files : C → Certificate C X
  from_store : Stored X → Certificate C X

pub data StoreError : Type 0 where
  cert_open_store : StoreError
  certificate_not_found : Text → StoreError
  x509_parse : StoreError
  acquire_key : StoreError

pub data Found (X : Type 0) : Type 0 where
  found : Stored X → Text → Found X
  missing : StoreError → Found X

abbrev pub local_machine : ℕ
local_machine = 131072

abbrev pub current_user : ℕ
current_user = 65536

unfoldable pub gained : (ℕ → Handle) → ℕ → List Event
gained kind zero = []
gained kind (suc h) = opened (kind (suc h)) ∷ []

-- a call that returns a handle, or 0
unfoldable pub acquire : {W : Type 0} → (ℕ → Handle) → (W → W × ℕ) → Act W ℕ
unfolding gained
acquire kind f w = let (w', h) = f w in (w', gained kind h, h)

unfoldable pub uses : {W : Type 0} → Handle → Act W (Unit {0})
uses h w = (w, used h ∷ [], tt)

-- a call with a handle
unfoldable pub call : {W A : Type 0} → (ℕ → Handle) → (ℕ → W → W × A) → ℕ → Act W A
call kind f h w = let (w', a) = f h w in (w', used (kind h) ∷ [], a)

unfoldable pub close : {W : Type 0} → (ℕ → Handle) → (ℕ → W → W) → ℕ → Act W (Unit {0})
close kind free h w = (free h w, closed (kind h) ∷ [], tt)

-- `defer free(h)` in front of the rest of a function
unfoldable pub deferred : {W A : Type 0} → (ℕ → Handle) → (ℕ → W → W) → ℕ → Act W A → Act W A
deferred kind free h m = do r ← m; close kind free h; ret r

unfoldable pub without : ℕ → Text → Text
without c [] = []
without c (d ∷ s) = if d == c then without c s else d ∷ without c s

-- a SHA-1 thumbprint, with or without its blanks and colons
unfoldable pub thumbprint : Text → Option (List ℕ)
unfolding without
thumbprint s =
    let cleaned = without b':' (without b' ' s) in
    if length cleaned == 40 then decode_string cleaned else none

-- `<location>\My` and the subject
unfoldable pub store_source : ℕ → Text → Text
store_source flag cn =
    codes "Windows Certificate Store ("
    ++ ((if flag == current_user then codes "CurrentUser" else codes "LocalMachine")
        ++ (codes "\\My, Subject: " ++ (cn ++ codes ")")))

module _ {W X : Type 0} (api : Crypt W X) where
  unfoldable pub by_thumbprint : Option (List ℕ) → ℕ → Act W ℕ
  by_thumbprint none st = ret 0
  by_thumbprint (some bs) st = do uses (store st); acquire context (api.find_by_hash bs st)

  -- the context found by its thumbprint, or one by its subject
  unfoldable pub or_by_subject : Text → ℕ → ℕ → Act W ℕ
  or_by_subject subject st zero = do
    uses (store st)
    acquire context (api.find_by_subject (utf16_ptr subject) st)
  or_by_subject subject st (suc ctx) = ret (suc ctx)

  unfoldable pub with_key : ℕ → List ℕ → X → ℕ → Option ℕ → Act W (Found X)
  unfolding store_source
  with_key flag bs leaf ctx none = do close context api.free_context ctx; ret (missing acquire_key)
  with_key flag bs leaf ctx (some k) = ret (
      found (record { cert_bytes = bs; leaf = leaf; handle = k; cert_ctx = ctx })
        (store_source flag (api.common_name leaf)))

  -- `CryptAcquireCertificatePrivateKey`, which opens a key
  unfoldable pub acquire_private : ℕ → Act W (Option ℕ)
  acquire_private ctx w =
      let (w', k) = api.acquire_private_key ctx w in
      (w', used (context ctx) ∷ elim k [ none ↦ [] | some h ↦ opened (key h) ∷ [] ], k)

  unfoldable pub parsed : ℕ → List ℕ → ℕ → Option X → Act W (Found X)
  unfolding with_key acquire_private
  parsed flag bs ctx none = do close context api.free_context ctx; ret (missing x509_parse)
  parsed flag bs ctx (some leaf) = do k ← acquire_private ctx; with_key flag bs leaf ctx k

  unfoldable pub with_context : Text → ℕ → ℕ → Act W (Found X)
  unfolding parsed
  with_context subject flag zero = ret (missing (certificate_not_found subject))
  with_context subject flag (suc ctx) = do
    bs ← call context api.encoded (suc ctx)
    parsed flag bs (suc ctx) (api.parse_certificate bs)

  unfoldable pub in_store : Text → ℕ → ℕ → Act W (Found X)
  unfolding thumbprint by_thumbprint or_by_subject with_context
  in_store subject flag st = do
    ctx ← by_thumbprint (thumbprint subject) st
    ctx' ← or_by_subject subject st ctx
    with_context subject flag ctx'

  unfoldable pub opened_store : Text → ℕ → ℕ → Act W (Found X)
  unfolding in_store deferred
  opened_store subject flag zero = ret (missing cert_open_store)
  opened_store subject flag (suc st) =
      deferred store api.close_store (suc st) (in_store subject flag (suc st))

  unfoldable pub load_from_store_with_flag : Text → ℕ → Act W (Found X)
  unfolding opened_store
  load_from_store_with_flag subject flag = do
    st ← acquire store (api.open_store flag)
    opened_store subject flag st

  -- the return from the loop, or the next location
  unfoldable pub found_or :
      {C : Type 0} → Act W (Loaded (Certificate C X)) → Found X → Act W (Loaded (Certificate C X))
  found_or next (found c src) = ret (loaded (from_store c) src)
  found_or next (missing e) = next

  unfoldable pub store_loop : {C : Type 0} → Text → List ℕ → Act W (Loaded (Certificate C X))
  unfolding found_or load_from_store_with_flag
  store_loop subject [] = ret (
      refused (
        b'\''
        ∷ (subject
            ++ codes
                "' not found in Windows certificate store (searched LocalMachine\\My and CurrentUser\\My)")))
  store_loop subject (flag ∷ flags) = do
    r ← load_from_store_with_flag subject flag
    found_or (store_loop subject flags) r

  unfoldable pub load_from_store : {C : Type 0} → Text → Act W (Loaded (Certificate C X))
  unfolding store_loop
  load_from_store subject = store_loop subject (local_machine ∷ current_user ∷ [])
