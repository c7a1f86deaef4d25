-- ===== src/Tls/Windows/Handles.antt =====
-- internal/tlsutil/store_windows.go: which handles may be used and closed, and which are open at the end.
use limiz.Base.{
  ◌≡◌, refl, ap, sym, ◌∙◌, ℕ, zero, suc, List, [], ◌∷◌, ◌++◌, append_assoc, append-nil, Bool, true,
  false, Option, none, some, if◌then◌else◌, ◌==◌, ==_refl, ◌||◌,
}
use limiz.Effects.{◌>>=◌, ◌>>◌, ret}
use limiz.Tls.Windows.{
  Handle, store, context, provider, key, Event, opened, used, closed, Act, gained, acquire, uses,
  call, close, deferred,
}

unfoldable pub same : Handle → Handle → Bool
same (store a) (store b) = a == b
same (context a) (context b) = a == b
same (provider a) (provider b) = a == b
same (key a) (key b) = a == b
same a b = false

-- the handles without the first one like a given one, none if there is no such
unfoldable pub taken : Handle → List Handle → Option (List Handle)
unfolding same
taken h [] = none
taken h (k ∷ hs) =
    if same h k then some hs else elim (taken h hs) [ none ↦ none | some r ↦ some (k ∷ r) ]

unfoldable pub has : List Handle → Handle → Bool
unfolding same
has [] h = false
has (k ∷ hs) h = same h k || has hs h

-- a handle is used and closed while it is open
unfoldable pub settle_event : List Handle → Event → Option (List Handle)
unfolding has taken
settle_event hs (opened h) = some (h ∷ hs)
settle_event hs (used h) = if has hs h then some hs else none
settle_event hs (closed h) = taken h hs

-- the open handles after the events, none if one of them uses or closes a handle that is not open
unfoldable pub settle : List Handle → List Event → Option (List Handle)
unfolding settle_event
settle hs [] = some hs
settle hs (e ∷ es) = elim (settle_event hs e) [ none ↦ none | some hs' ↦ settle hs' es ]

pub same_refl : (h : Handle) → same h h ≡ true
unfolding same
same_refl (store a) = ==_refl a
same_refl (context a) = ==_refl a
same_refl (provider a) = ==_refl a
same_refl (key a) = ==_refl a

-- a run takes the open handles to others, which depend on its result, whatever comes after it
pub record Turns {W A : Type 0} (hs : List Handle) (post : A → List Handle) (m : Act W A)
    : Type 0 where
  pub turns : (w : W) (rest : List Event) → settle hs ((m w).1 ++ rest) ≡ settle (post (m w).2) rest

pub settled :
    {W A : Type 0} (m : Act W A) (post : A → List Handle)
    → Turns [] post m
    → (w : W) → settle [] (m w).1 ≡ some (post (m w).2)
unfolding settle
settled m post h w = ap (settle []) (sym (append-nil (m w).1)) ∙ h.turns w []

module _ {W A : Type 0} (post : A → List Handle) where
  pub ret-Turns : (a : A) → Turns {W = W} (post a) post (ret a)
  unfolding ret
  ret-Turns a = record { turns = λ w rest. refl }

pub uses-Turns :
    (W : Type 0) (hs : List Handle) (h : Handle)
    → has hs h ≡ true
    → Turns {W = W} hs (λ _. hs) (uses h)
unfolding uses settle settle_event
uses-Turns W hs h k = record { turns = λ w rest. rw (k, settle, settle_event) refl }

module _ {W : Type 0} (hs : List Handle) (kind : ℕ → Handle) where
  pub call-Turns :
      {A : Type 0} (f : ℕ → W → W × A) (h : ℕ)
      → has hs (kind h) ≡ true
      → Turns hs (λ _. hs) (call kind f h)
  unfolding call settle settle_event
  call-Turns f h k = record { turns = λ w rest. rw (k, settle, settle_event) refl }

  pub close-Turns :
      (free : ℕ → W → W) (h : ℕ) (left : List Handle)
      → taken (kind h) hs ≡ some left
      → Turns hs (λ _. left) (close kind free h)
  unfolding close settle settle_event
  close-Turns free h left k = record { turns = λ w rest. rw (k, settle, settle_event) refl }

module _ {W A B : Type 0} (hs : List Handle) (middle : A → List Handle)
    (post : B → List Handle) where
  pub bind-Turns :
      (m : Act W A) (f : A → Act W B)
      → Turns hs middle m
      → ((a : A) → Turns (middle a) post (f a))
      → Turns hs post (m >>= f)
  unfolding ◌>>=◌
  bind-Turns m f hm hf = record {
    turns = λ w rest.
        rw (append_assoc (m w).1 (f (m w).2 (m w).0).1 rest, hm.turns w, (hf (m w).2).turns (m w).0)
          refl;
  }

pub then-Turns :
    {W B : Type 0} (hs middle : List Handle) (post : B → List Handle) (m : Act W (Unit {0}))
    (k : Act W B)
    → Turns hs (λ _. middle) m
    → Turns middle post k
    → Turns hs post (m >> k)
unfolding ◌>>◌
then-Turns hs middle post m k hm hk = bind-Turns hs (λ _. middle) post m (λ _. k) hm (λ _. hk)

-- the handles after a call that may have opened one
unfoldable pub with_gained : List Handle → (ℕ → Handle) → ℕ → List Handle
with_gained hs kind zero = hs
with_gained hs kind (suc h) = kind (suc h) ∷ hs

settle-gained :
    (hs : List Handle) (kind : ℕ → Handle) (h : ℕ) (rest : List Event)
    → settle hs (gained kind h ++ rest) ≡ settle (with_gained hs kind h) rest
unfolding gained with_gained settle settle_event
settle-gained hs kind zero rest = refl
settle-gained hs kind (suc h) rest = refl

pub acquire-Turns :
    {W : Type 0} (hs : List Handle) (kind : ℕ → Handle) (f : W → W × ℕ)
    → Turns hs (with_gained hs kind) (acquire kind f)
unfolding acquire
acquire-Turns hs kind f = record { turns = λ w rest. settle-gained hs kind (f w).1 rest }

module _ {W A : Type 0} (hs : List Handle) (kind : ℕ → Handle) (free : ℕ → W → W) where
  -- what is done under a deferred close may open others and leave them open
  pub deferred-Turns :
      (h : ℕ) (m : Act W A) (inner post : A → List Handle)
      → Turns hs inner m
      → ((a : A) → taken (kind h) (inner a) ≡ some (post a))
      → Turns hs post (deferred kind free h m)
  unfolding deferred
  deferred-Turns h m inner post hm ht = bind-Turns hs inner post m _ hm (λ r.
      then-Turns (inner r) (post r) post (close kind free h) (ret r)
        (close-Turns (inner r) kind free h (post r) (ht r)) (ret-Turns post r))
