-- ===== src/Tls/Windows/Held.antt =====
-- internal/tlsutil/store_windows.go: the handles of `loadFromStore`, `platformSearch` and `LoadCertificate`.
use limiz.Base.{◌≡◌, refl, ℕ, zero, suc, Text, List, [], ◌∷◌, ◌++◌, Option, none, some, ==_refl}
use limiz.Effects.{◌>>◌, ret}
use limiz.Winsvc.{utf16_ptr}
use limiz.Tls.{Loaded, loaded, refused}
use limiz.Tls.Windows.{
  Handle, store, context, key, local_machine, current_user, Event, opened, used, Act, Crypt,
  Certificate, from_files, from_store, Found, found, missing, StoreError, acquire_key, x509_parse,
  certificate_not_found, cert_open_store, close, thumbprint, by_thumbprint, or_by_subject, with_key,
  acquire_private, parsed, with_context, in_store, opened_store, load_from_store_with_flag,
  found_or, store_loop, load_from_store,
}
use limiz.Tls.Windows.Handles.{
  taken, has, settle, settle_event, same, same_refl, Turns, ret-Turns, uses-Turns, call-Turns,
  close-Turns, bind-Turns, then-Turns, with_gained, acquire-Turns, deferred-Turns,
}

-- the handles that a certificate of the store keeps
unfoldable pub held : {X : Type 0} → Found X → List Handle
held (found c src) = key c.handle ∷ context c.cert_ctx ∷ []
held (missing e) = []

-- the same of the result of `LoadCertificate`
unfoldable pub kept : {C X : Type 0} → Loaded (Certificate C X) → List Handle
kept (loaded (from_files c) src) = []
kept (loaded (from_store c) src) = key c.handle ∷ context c.cert_ctx ∷ []
kept (refused err) = []

module _ {W X : Type 0} (api : Crypt W X) (st : ℕ) where
  abbrev open_store : List Handle
  open_store = store st ∷ []

  -- in the store, with the store itself
  in_held : Found X → List Handle
  in_held r = held r ++ open_store

  by_thumbprint-Turns :
      (bs : Option (List ℕ))
      → Turns open_store (with_gained open_store context) (by_thumbprint api bs st)
  unfolding by_thumbprint has same with_gained
  by_thumbprint-Turns none = ret-Turns (with_gained open_store context) 0
  by_thumbprint-Turns (some bs) =
      then-Turns open_store open_store _ _ _
        (uses-Turns W open_store (store st) (rw (same_refl (store st)) refl))
        (acquire-Turns open_store context (api.find_by_hash bs st))

  or_by_subject-Turns :
      (subject : Text) (ctx : ℕ)
      → Turns
          (with_gained open_store context ctx)
          (with_gained open_store context)
          (or_by_subject api subject st ctx)
  unfolding or_by_subject has same with_gained
  or_by_subject-Turns subject zero =
      then-Turns open_store open_store _ _ _
        (uses-Turns W open_store (store st) (rw (same_refl (store st)) refl))
        (acquire-Turns open_store context (api.find_by_subject (utf16_ptr subject) st))
  or_by_subject-Turns subject (suc ctx) = ret-Turns (with_gained open_store context) (suc ctx)

  close-context :
      (ctx : ℕ) (e : StoreError)
      → Turns
          (context ctx ∷ open_store)
          in_held
          (close context api.free_context ctx >> ret (missing e))
  unfolding in_held held taken
  close-context ctx e =
      then-Turns (context ctx ∷ open_store) open_store in_held _ _
        (close-Turns (context ctx ∷ open_store) context api.free_context ctx open_store
          (rw (same_refl (context ctx)) refl))
        (ret-Turns in_held (missing e))

  -- the handles after `CryptAcquireCertificatePrivateKey`
  with_private : ℕ → Option ℕ → List Handle
  with_private ctx none = context ctx ∷ open_store
  with_private ctx (some k) = key k ∷ context ctx ∷ open_store

  settle-private :
      (ctx : ℕ) (k : Option ℕ) (rest : List Event)
      → settle
          (context ctx ∷ open_store)
          (used (context ctx) ∷ (elim k [ none ↦ [] | some h ↦ opened (key h) ∷ [] ] ++ rest))
        ≡ settle (with_private ctx k) rest
  unfolding with_private settle settle_event has
  settle-private ctx none rest = rw (same_refl (context ctx), settle, settle_event) refl
  settle-private ctx (some k) rest = rw (same_refl (context ctx), settle, settle_event) refl

  acquire_private-Turns :
      (ctx : ℕ) → Turns (context ctx ∷ open_store) (with_private ctx) (acquire_private api ctx)
  unfolding acquire_private
  acquire_private-Turns ctx = record {
    turns = λ w rest. settle-private ctx (api.acquire_private_key ctx w).1 rest;
  }

  with_key-Turns :
      (flag : ℕ) (bs : List ℕ) (leaf : X) (ctx : ℕ) (k : Option ℕ)
      → Turns (with_private ctx k) in_held (with_key api flag bs leaf ctx k)
  unfolding with_key with_private in_held held
  with_key-Turns flag bs leaf ctx none = close-context ctx acquire_key
  with_key-Turns flag bs leaf ctx (some k) = ret-Turns in_held _

  parsed-Turns :
      (flag : ℕ) (bs : List ℕ) (ctx : ℕ) (leaf : Option X)
      → Turns (context ctx ∷ open_store) in_held (parsed api flag bs ctx leaf)
  unfolding parsed
  parsed-Turns flag bs ctx none = close-context ctx x509_parse
  parsed-Turns flag bs ctx (some leaf) =
      bind-Turns (context ctx ∷ open_store) (with_private ctx) in_held _ _
        (acquire_private-Turns ctx) (with_key-Turns flag bs leaf ctx)

  with_context-Turns :
      (subject : Text) (flag ctx : ℕ)
      → Turns (with_gained open_store context ctx) in_held (with_context api subject flag ctx)
  unfolding with_context with_gained in_held held has
  with_context-Turns subject flag zero = ret-Turns in_held (missing (certificate_not_found subject))
  with_context-Turns subject flag (suc ctx) =
      bind-Turns (context (suc ctx) ∷ open_store) (λ _. context (suc ctx) ∷ open_store) in_held _ _
        (call-Turns (context (suc ctx) ∷ open_store) context api.encoded (suc ctx)
          (rw (same_refl (context (suc ctx))) refl))
        (λ bs. parsed-Turns flag bs (suc ctx) (api.parse_certificate bs))

  in_store-Turns :
      (subject : Text) (flag : ℕ) → Turns open_store in_held (in_store api subject flag st)
  unfolding in_store
  in_store-Turns subject flag =
      bind-Turns open_store (with_gained open_store context) in_held _ _
        (by_thumbprint-Turns (thumbprint subject))
        (λ ctx.
          bind-Turns (with_gained open_store context ctx) (with_gained open_store context) in_held _
            _ (or_by_subject-Turns subject ctx) (with_context-Turns subject flag))

  -- the store is closed under the handles that stay open
  taken-store : (r : Found X) → taken (store st) (in_held r) ≡ some (held r)
  unfolding taken in_held held same
  taken-store (found c src) = rw (same_refl (store st)) refl
  taken-store (missing e) = rw (==_refl st) refl

module _ {W X : Type 0} (api : Crypt W X) where
  opened_store-Turns :
      (subject : Text) (flag st : ℕ)
      → Turns (with_gained [] store st) held (opened_store api subject flag st)
  unfolding opened_store with_gained held
  opened_store-Turns subject flag zero = ret-Turns held (missing cert_open_store)
  opened_store-Turns subject flag (suc st) =
      deferred-Turns (store (suc st) ∷ []) store api.close_store (suc st)
        (in_store api subject flag (suc st)) (in_held api (suc st)) held
        (in_store-Turns api (suc st) subject flag) (taken-store api (suc st))

  with_flag-Turns :
      (subject : Text) (flag : ℕ) → Turns [] held (load_from_store_with_flag api subject flag)
  unfolding load_from_store_with_flag
  with_flag-Turns subject flag =
      bind-Turns [] (with_gained [] store) held _ _ (acquire-Turns [] store (api.open_store flag))
        (opened_store-Turns subject flag)

  module _ {C : Type 0} where
    found_or-Turns :
        (next : Act W (Loaded (Certificate C X))) (r : Found X)
        → Turns [] kept next
        → Turns (held r) kept (found_or api next r)
    unfolding found_or held kept
    found_or-Turns next (found c src) h = ret-Turns kept (loaded (from_store c) src)
    found_or-Turns next (missing e) h = h

    store_loop-Turns :
        (subject : Text) (flags : List ℕ) → Turns [] (kept {C = C}) (store_loop api subject flags)
    unfolding store_loop kept
    store_loop-Turns subject [] = ret-Turns kept _
    store_loop-Turns subject (flag ∷ flags) =
        bind-Turns [] held kept _ _ (with_flag-Turns subject flag)
          (λ r. found_or-Turns (store_loop api subject flags) r (store_loop-Turns subject flags))

    pub load_from_store-Turns :
        (subject : Text) → Turns [] (kept {C = C}) (load_from_store api subject)
    unfolding load_from_store
    load_from_store-Turns subject = store_loop-Turns subject (local_machine ∷ current_user ∷ [])
