-- ===== src/Tls/Windows/Imported.antt =====
-- internal/tlsutil/store_windows.go: the handles of `ImportToStore`.
use limiz.Base.{◌≡◌, refl, ℕ, zero, suc, List, [], ◌∷◌, ◌++◌, true, Option, none, some, arith}
use limiz.Effects.{◌>>=◌}
use limiz.Tls.Blob.{PrivateKey, Built, built, unsupported, panicked, build_ecc_private_blob}
use limiz.Tls.Windows.{
  Handle, store, context, provider, key, Event, opened, used, Act, call, deferred, local_machine,
}
use limiz.Tls.Windows.Import.{
  Bytes, Import, ImportError, storage_provider, build_blob, import_key, finalize_key, open_store,
  add_certificate, Imported, failed, crashed, key_name, software_ksp, given, acquire_coded, under,
  deleted, delete_existing, drop_existing, associated, with_context, add_encoded, add_to_store,
  with_store, finalized, with_key, with_blob, with_provider, import_to_store,
}
use limiz.Tls.Windows.Handles.{
  taken, has, same_refl, settle, settle_event, settled, Turns, ret-Turns, uses-Turns, call-Turns,
  bind-Turns, then-Turns, with_gained, acquire-Turns, deferred-Turns,
}

taken-top : (h : Handle) (hs : List Handle) → taken h (h ∷ hs) ≡ some hs
unfolding taken
taken-top h hs = rw (same_refl h) refl

has-top : (h : Handle) (hs : List Handle) → has (h ∷ hs) h ≡ true
unfolding has
has-top h hs = rw (same_refl h) refl

-- `NCryptDeleteKey` of a key that is there succeeds
abbrev pub IsDeleting : {W : Type 0} → Import W → Type 0
IsDeleting {W} api = (h : ℕ) (w : W) → (api.delete_key h w).1 ≡ 0

settle-deleted :
    (hs : List Handle) (h r : ℕ) (rest : List Event)
    → r ≡ 0
    → settle hs ((opened (key h) ∷ used (key h) ∷ deleted h r) ++ rest) ≡ settle hs rest
unfolding deleted settle settle_event
settle-deleted hs h zero rest e =
    rw (has-top (key h) hs, settle, settle_event, taken-top (key h) hs) refl
settle-deleted hs h (suc r) rest e = absurd (omega (arith, e))

-- the open handles stay as they are
Balanced : {W A : Type 0} → List Handle → Act W A → Type 0
Balanced hs m = Turns hs (λ _. hs) m

module _ (hs : List Handle) where
  -- the handles after a call that returns a code
  with_given : (ℕ → Handle) → ℕ × ℕ → List Handle
  with_given kind (zero, h) = kind h ∷ hs
  with_given kind (suc r, h) = hs

  settle-given :
      (kind : ℕ → Handle) (r h : ℕ) (rest : List Event)
      → settle hs (given kind (r, h) ++ rest) ≡ settle (with_given kind (r, h)) rest
  unfolding given with_given settle settle_event
  settle-given kind zero h rest = refl
  settle-given kind (suc r) h rest = refl

module _ {W : Type 0} (hs : List Handle) where
  -- what keeps a handle open is balanced with a deferred close
  deferred-Balanced :
      {A : Type 0} (kind : ℕ → Handle) (free : ℕ → W → W) (h : ℕ) (m : Act W A)
      → Balanced (kind h ∷ hs) m
      → Turns (kind h ∷ hs) (λ _. hs) (deferred kind free h m)
  unfolding Balanced
  deferred-Balanced kind free h m hm =
      deferred-Turns (kind h ∷ hs) kind free h m (λ _. kind h ∷ hs) (λ _. hs) hm
        (λ r. taken-top (kind h) hs)

  acquire_coded-Turns :
      (kind : ℕ → Handle) (f : W → W × ℕ × ℕ) → Turns hs (with_given hs kind) (acquire_coded kind f)
  unfolding acquire_coded
  acquire_coded-Turns kind f = record {
    turns = λ w rest. settle-given hs kind (f w).1 (f w).2 rest;
  }

  under-Turns :
      (kind : ℕ → Handle) (free : ℕ → W → W) (error : ℕ → ImportError) (body : ℕ → Act W Imported)
      (r h : ℕ)
      → Balanced (kind h ∷ hs) (body h)
      → Turns (with_given hs kind (r, h)) (λ _. hs) (under kind free error body (r, h))
  unfolding under with_given
  under-Turns kind free error body zero h hb = deferred-Balanced kind free h (body h) hb
  under-Turns kind free error body (suc r) h hb = ret-Turns (λ _. hs) (failed (error (suc r)))

module _ {W : Type 0} (api : Import W) where
  -- a call with the last handle, and what follows it
  call-then :
      {A B : Type 0} (kind : ℕ → Handle) (h : ℕ) (hs : List Handle) (f : ℕ → W → W × A)
      (k : A → Act W B)
      → ((a : A) → Balanced (kind h ∷ hs) (k a))
      → Balanced (kind h ∷ hs) (call kind f h >>= k)
  unfolding Balanced
  call-then kind h hs f k hk =
      bind-Turns (kind h ∷ hs) (λ _. kind h ∷ hs) (λ _. kind h ∷ hs) (call kind f h) k
        (call-Turns (kind h ∷ hs) kind f h (has-top (kind h) hs)) hk

  -- the handles after `CertAddEncodedCertificateToStore`
  with_added : List Handle → Option ℕ → List Handle
  with_added hs none = hs
  with_added hs (some c) = context c ∷ hs

  settle-added :
      (st : ℕ) (hs : List Handle) (c : Option ℕ) (rest : List Event)
      → settle
          (store st ∷ hs)
          (used (store st) ∷ (elim c [ none ↦ [] | some h ↦ opened (context h) ∷ [] ] ++ rest))
        ≡ settle (with_added (store st ∷ hs) c) rest
  unfolding with_added settle settle_event
  settle-added st hs none rest = rw (has-top (store st) hs, settle, settle_event) refl
  settle-added st hs (some c) rest = rw (has-top (store st) hs, settle, settle_event) refl

  with_context-Turns :
      (hs : List Handle) (c : Option ℕ) → Turns (with_added hs c) (λ _. hs) (with_context api c)
  unfolding with_context with_added Balanced
  with_context-Turns hs none = ret-Turns (λ _. hs) (failed add_certificate)
  with_context-Turns hs (some c) = deferred-Balanced hs context api.free_context c _ (
      call-then context c hs (api.set_key_prov_info key_name software_ksp) _
        (λ done. ret-Turns (λ _. context c ∷ hs) (associated done)))

  add_to_store-Balanced :
      (der : Bytes) (st : ℕ) (hs : List Handle) → Balanced (store st ∷ hs) (add_to_store api der st)
  unfolding add_to_store add_encoded Balanced
  add_to_store-Balanced [] st hs = ret-Turns (λ _. store st ∷ hs) crashed
  add_to_store-Balanced (b ∷ der) st hs =
      bind-Turns (store st ∷ hs) (with_added (store st ∷ hs)) (λ _. store st ∷ hs) _ _
        (record {
          turns = λ w rest. settle-added st hs (api.add_encoded_certificate (b ∷ der) st w).1 rest;
        })
        (with_context-Turns (store st ∷ hs))

  with_store-Turns :
      (der : Bytes) (hs : List Handle) (st : ℕ)
      → Turns (with_gained hs store st) (λ _. hs) (with_store api der st)
  unfolding with_store with_gained
  with_store-Turns der hs zero = ret-Turns (λ _. hs) (failed open_store)
  with_store-Turns der hs (suc st) =
      deferred-Balanced hs store api.close_store (suc st) (add_to_store api der (suc st))
        (add_to_store-Balanced der (suc st) hs)

  finalized-Balanced : (der : Bytes) (hs : List Handle) (r : ℕ) → Balanced hs (finalized api der r)
  unfolding finalized Balanced
  finalized-Balanced der hs zero =
      bind-Turns hs (with_gained hs store) (λ _. hs) _ _
        (acquire-Turns hs store (api.open_store local_machine)) (with_store-Turns der hs)
  finalized-Balanced der hs (suc r) = ret-Turns (λ _. hs) (failed (finalize_key (suc r)))

  with_key-Balanced :
      (der : Bytes) (k : ℕ) (hs : List Handle) → Balanced (key k ∷ hs) (with_key api der k)
  unfolding with_key
  with_key-Balanced der k hs = call-then key k hs _ _ (λ named.
      call-then key k hs _ _
        (λ exported. call-then key k hs _ _ (λ r. finalized-Balanced der (key k ∷ hs) r)))

  with_blob-Balanced :
      (der : Bytes) (p : ℕ) (hs : List Handle) (b : Built)
      → Balanced (provider p ∷ hs) (with_blob api der p b)
  unfolding with_blob Balanced
  with_blob-Balanced der p hs (unsupported err) =
      ret-Turns (λ _. provider p ∷ hs) (failed (build_blob err))
  with_blob-Balanced der p hs panicked = ret-Turns (λ _. provider p ∷ hs) crashed
  with_blob-Balanced der p hs (built blob) =
      then-Turns (provider p ∷ hs) (provider p ∷ hs) (λ _. provider p ∷ hs) _ _
        (uses-Turns W (provider p ∷ hs) (provider p) (has-top (provider p) hs))
        (bind-Turns (provider p ∷ hs) (with_given (provider p ∷ hs) key) (λ _. provider p ∷ hs) _ _
          (acquire_coded-Turns (provider p ∷ hs) key _)
          (λ r.
            under-Turns (provider p ∷ hs) key api.free_object import_key (with_key api der) r.0 r.1
              (with_key-Balanced der r.1 (provider p ∷ hs))))

  module _ (deleting : IsDeleting api) where
    delete_existing-Balanced : (hs : List Handle) (r h : ℕ) → Balanced hs (delete_existing api r h)
    unfolding delete_existing Balanced
    delete_existing-Balanced hs zero zero = record { turns = λ w rest. refl }
    delete_existing-Balanced hs zero (suc h) = record {
      turns = λ w rest.
          settle-deleted hs (suc h) (api.delete_key (suc h) w).1 rest (deleting (suc h) w);
    }
    delete_existing-Balanced hs (suc r) h = record { turns = λ w rest. refl }

    drop_existing-Balanced : (p : ℕ) (hs : List Handle) → Balanced hs (drop_existing api p)
    unfolding drop_existing Balanced
    drop_existing-Balanced p hs = record {
      turns = λ w rest.
          let (w', r, h) = api.open_key key_name p w in
          (delete_existing-Balanced hs r h).turns w' rest;
    }

    with_provider-Balanced :
        (der : Bytes) (priv : PrivateKey) (p : ℕ)
        → Balanced (provider p ∷ []) (with_provider api der priv p)
    unfolding with_provider Balanced
    with_provider-Balanced der priv p =
        let hs = provider p ∷ [] in
        then-Turns hs hs (λ _. hs) _ _ (uses-Turns W hs (provider p) (has-top (provider p) []))
          (then-Turns hs hs (λ _. hs) _ _ (drop_existing-Balanced p hs)
            (with_blob-Balanced der p [] (build_ecc_private_blob priv)))

    import_to_store-Balanced :
        (der : Bytes) (priv : PrivateKey) → Balanced [] (import_to_store api der priv)
    unfolding import_to_store Balanced
    import_to_store-Balanced der priv =
        bind-Turns [] (with_given [] provider) (λ _. []) _ _ (acquire_coded-Turns [] provider _)
          (λ r.
            under-Turns [] provider api.free_object storage_provider (with_provider api der priv)
              r.0 r.1 (with_provider-Balanced der priv r.1))

-- If a key that is there can be deleted, then whatever the other calls return, and where the code panics too, a
-- handle is used and closed only while it is open, and none is open when `ImportToStore` ends.
pub import_to_store-settled :
    {W : Type 0} (api : Import W)
    → IsDeleting api
    → (der : Bytes) (priv : PrivateKey) (w : W)
    → settle [] (import_to_store api der priv w).1 ≡ some []
unfolding Balanced
import_to_store-settled api deleting der priv w =
    settled (import_to_store api der priv) (λ _. [])
      (import_to_store-Balanced api deleting der priv) w
