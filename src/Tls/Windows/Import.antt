-- ===== src/Tls/Windows/Import.antt =====
-- internal/tlsutil/store_windows.go: `ImportToStore`, which puts a generated pair into the store of Windows.
use limiz.Base.{
  ℕ, zero, suc, ◌+◌, ◌*◌, Text, List, [], ◌∷◌, Bool, true, false, Option, none, some, codes, length,
}
use limiz.Effects.{◌>>=◌, ◌>>◌, ret}
use limiz.Tls.Bytes.{put_uint32}
use limiz.Tls.Blob.{PrivateKey, Built, built, unsupported, panicked, build_ecc_private_blob}
use limiz.Tls.Windows.{
  Handle, store, context, provider, key, Event, opened, used, closed, Act, acquire, uses, call,
  deferred, local_machine,
}

abbrev pub Bytes : Type 0
Bytes = List ℕ

-- The calls of ncrypt.dll and crypt32.dll. A call of the first returns a code, 0 for success.
pub record Import (W : Type 0) : Type 0 where
  pub open_storage_provider : Text → W → W × ℕ × ℕ
  pub open_key : Text → ℕ → W → W × ℕ × ℕ
  -- it frees the handle if it succeeds
  pub delete_key : ℕ → W → W × ℕ
  -- the type of the blob, and the blob
  pub import_key : Text → Bytes → ℕ → W → W × ℕ × ℕ
  -- the property, its value, and its size in bytes
  pub set_property : Text → Bytes → ℕ → ℕ → W → W × ℕ
  pub finalize_key : ℕ → W → W × ℕ
  pub free_object : ℕ → W → W
  -- 0 if it fails
  pub open_store : ℕ → W → W × ℕ
  pub close_store : ℕ → W → W
  -- none if it fails
  pub add_encoded_certificate : Bytes → ℕ → W → W × Option ℕ
  -- the key's container and its provider
  pub set_key_prov_info : Text → Text → ℕ → W → W × Bool
  pub free_context : ℕ → W → W
  -- the bytes of a text in UTF-16, with the null behind it
  pub utf16 : Text → Bytes

pub data ImportError : Type 0 where
  storage_provider : ℕ → ImportError
  build_blob : Text → ImportError
  import_key : ℕ → ImportError
  finalize_key : ℕ → ImportError
  open_store : ImportError
  add_certificate : ImportError
  set_context_property : ImportError

pub data Imported : Type 0 where
  imported : Imported
  failed : ImportError → Imported
  -- an index out of range
  crashed : Imported

abbrev pub key_name : Text
key_name = codes "Limiz"

abbrev pub software_ksp : Text
software_ksp = codes "Microsoft Software Key Storage Provider"

abbrev pub export_policy : Text
export_policy = codes "Export Policy"

abbrev pub allow_export : ℕ
allow_export = 1

-- the handle of a call that returns a code
unfoldable pub given : (ℕ → Handle) → ℕ × ℕ → List Event
given kind (zero, h) = opened (kind h) ∷ []
given kind (suc r, h) = []

unfoldable pub acquire_coded : {W : Type 0} → (ℕ → Handle) → (W → W × ℕ × ℕ) → Act W (ℕ × ℕ)
unfolding given
acquire_coded kind f w = let (w', r, h) = f w in (w', given kind (r, h), (r, h))

-- the error of the code, or the deferred free of the handle in front of the rest
unfoldable pub under :
    {W : Type 0}
    → (ℕ → Handle)
    → (ℕ → W → W)
    → (ℕ → ImportError)
    → (ℕ → Act W Imported)
    → ℕ × ℕ
    → Act W Imported
unfolding deferred
under kind free error body (zero, h) = deferred kind free h (body h)
under kind free error body (suc r, h) = ret (failed (error (suc r)))

-- a key that has been deleted is closed
unfoldable pub deleted : ℕ → ℕ → List Event
deleted h zero = closed (key h) ∷ []
deleted h (suc r) = []

-- Step 10, whether its call succeeded
unfoldable pub associated : Bool → Imported
associated true = imported
associated false = failed set_context_property

module _ {W : Type 0} (api : Import W) where
  unfoldable pub delete_existing : ℕ → ℕ → Act W (Unit {0})
  unfolding deleted
  delete_existing zero (suc h) w =
      let (w', r) = api.delete_key (suc h) w in
      (w', opened (key (suc h)) ∷ used (key (suc h)) ∷ deleted (suc h) r, tt)
  delete_existing zero zero w = (w, [], tt)
  delete_existing (suc r) h w = (w, [], tt)

  -- Step 2
  unfoldable pub drop_existing : ℕ → Act W (Unit {0})
  unfolding delete_existing
  drop_existing p w = let (w', r, h) = api.open_key key_name p w in delete_existing r h w'

  -- Steps 9 and 10: the context of the certificate that was added
  unfoldable pub with_context : Option ℕ → Act W Imported
  unfolding associated deferred
  with_context none = ret (failed add_certificate)
  with_context (some c) = deferred context api.free_context c (do
    done ← call context (api.set_key_prov_info key_name software_ksp) c
    ret (associated done))

  unfoldable pub add_encoded : Bytes → ℕ → Act W (Option ℕ)
  add_encoded der st w =
      let (w', c) = api.add_encoded_certificate der st w in
      (w', used (store st) ∷ elim c [ none ↦ [] | some h ↦ opened (context h) ∷ [] ], c)

  -- `&certDER[0]` panics where there is no byte
  unfoldable pub add_to_store : Bytes → ℕ → Act W Imported
  unfolding with_context add_encoded
  add_to_store [] st = ret crashed
  add_to_store (b ∷ der) st = do c ← add_encoded (b ∷ der) st; with_context c

  -- Step 8
  unfoldable pub with_store : Bytes → ℕ → Act W Imported
  unfolding add_to_store deferred
  with_store der zero = ret (failed open_store)
  with_store der (suc st) = deferred store api.close_store (suc st) (add_to_store der (suc st))

  unfoldable pub finalized : Bytes → ℕ → Act W Imported
  unfolding with_store
  finalized der zero = do st ← acquire store (api.open_store local_machine); with_store der st
  finalized der (suc r) = ret (failed (finalize_key (suc r)))

  -- Steps 5 to 7: the code of the first two calls is not read, and the first one sets a property with the
  -- name of the key
  unfoldable pub with_key : Bytes → ℕ → Act W Imported
  unfolding finalized
  with_key der k = do
    named ← call key (api.set_property key_name (api.utf16 key_name) ((length key_name + 1) * 2)) k
    exported ← call key (api.set_property export_policy (put_uint32 allow_export) 4) k
    r ← call key api.finalize_key k
    finalized der r

  -- Steps 3 and 4
  unfoldable pub with_blob : Bytes → ℕ → Built → Act W Imported
  unfolding acquire_coded under with_key
  with_blob der p (unsupported err) = ret (failed (build_blob err))
  with_blob der p panicked = ret crashed
  with_blob der p (built blob) = do
    uses (provider p)
    r ← acquire_coded key (api.import_key (codes "ECCPRIVATEBLOB") blob p)
    under key api.free_object import_key (with_key der) r

  unfoldable pub with_provider : Bytes → PrivateKey → ℕ → Act W Imported
  unfolding drop_existing with_blob
  with_provider der priv p = do
    uses (provider p)
    drop_existing p
    with_blob der p (build_ecc_private_blob priv)

  unfoldable pub import_to_store : Bytes → PrivateKey → Act W Imported
  unfolding acquire_coded under with_provider
  import_to_store der priv = do
    r ← acquire_coded provider (api.open_storage_provider software_ksp)
    under provider api.free_object storage_provider (with_provider der priv) r
