-- ===== src/Winsvc/Handles.antt =====
-- internal/winsvc/service_windows.go: the handles that an operation opens, uses and closes.
mod Operations
pub mod Commands
use limiz.Base.{
  ◌≡◌, refl, ap, sym, ◌∙◌, ℕ, zero, suc, Text, List, [], ◌∷◌, ◌++◌, append_assoc, append-nil, Bool,
  true, false, Option, none, some, if◌then◌else◌, ◌==◌, ==_refl, ◌||◌, arith,
}
use limiz.Winsvc.{
  System, Event, opened, used, closed, Op, ◌>>=◌, ◌>>◌, ret, call, uses, gained, acquire, close,
  deferred, holding,
}

unfoldable pub has : List ℕ → ℕ → Bool
has [] h = false
has (k ∷ hs) h = (h == k) || has hs h

-- one event on the open handles, the last first: a handle is used and closed while it is open, and the
-- last one is closed first
unfoldable pub settle_event : List ℕ → Event → Option (List ℕ)
unfolding has
settle_event hs (opened h) = some (h ∷ hs)
settle_event hs (used h) = if has hs h then some hs else none
settle_event [] (closed h) = none
settle_event (k ∷ hs) (closed h) = if h == k then some hs else none

-- the open handles after the events, none if one of them uses or closes a handle that it may not
unfoldable pub settle : List ℕ → List Event → Option (List ℕ)
unfolding settle_event
settle hs [] = some hs
settle hs (e ∷ es) = elim (settle_event hs e) [ none ↦ none | some hs' ↦ settle hs' es ]

pub has-top : (h : ℕ) (hs : List ℕ) → has (h ∷ hs) h ≡ true
unfolding has
has-top h hs = rw (==_refl h) refl

-- a run takes the open handles to others, whatever comes after it
unfoldable pub Turns : {W A : Type 0} → List ℕ → List ℕ → Op W A → Type 0
Turns {W} hs hs' m = (w : W) (rest : List Event) → settle hs ((m w).1 ++ rest) ≡ settle hs' rest

pub settled : {W A : Type 0} (m : Op W A) → Turns [] [] m → (w : W) → settle [] (m w).1 ≡ some []
unfolding Turns settle
settled m h w = ap (settle []) (sym (append-nil (m w).1)) ∙ h w []

module _ (W : Type 0) (hs : List ℕ) where
  pub ret-Turns : {A : Type 0} (a : A) → Turns {W = W} hs hs (ret a)
  unfolding ret Turns
  ret-Turns a w rest = refl

  pub uses-Turns : (h : ℕ) → has hs h ≡ true → Turns {W = W} hs hs (uses h)
  unfolding uses Turns settle settle_event
  uses-Turns h k w rest = rw (k, settle, settle_event) refl

module _ {W : Type 0} (hs : List ℕ) where
  pub call-Turns :
      {A : Type 0} (f : ℕ → W → W × A) (h : ℕ) → has hs h ≡ true → Turns hs hs (call f h)
  unfolding call Turns settle settle_event
  call-Turns f h k w rest = rw (k, settle, settle_event) refl

  pub close-Turns : (free : ℕ → W → W) (h : ℕ) → Turns (h ∷ hs) hs (close free h)
  unfolding close Turns settle settle_event
  close-Turns free h w rest = rw (==_refl h, settle, settle_event) refl

module _ {W A B : Type 0} (hs hs' hs'' : List ℕ) (m : Op W A) (f : A → Op W B) where
  pub bind-Turns : Turns hs hs' m → ((a : A) → Turns hs' hs'' (f a)) → Turns hs hs'' (m >>= f)
  unfolding ◌>>=◌ Turns
  bind-Turns hm hf w rest =
      rw (append_assoc (m w).1 (f (m w).2 (m w).0).1 rest, hm w, hf (m w).2) refl

pub then-Turns :
    {W B : Type 0} (hs hs' hs'' : List ℕ) (m : Op W (Unit {0})) (k : Op W B)
    → Turns hs hs' m
    → Turns hs' hs'' k
    → Turns hs hs'' (m >> k)
unfolding ◌>>◌
then-Turns hs hs' hs'' m k hm hk = bind-Turns hs hs' hs'' m (λ _. k) hm (λ _. hk)

module _ {W A : Type 0} (hs : List ℕ) (free : ℕ → W → W) where
  -- what is done under a deferred close leaves the handle open
  pub deferred-Turns :
      (h : ℕ) (m : Op W A) → Turns (h ∷ hs) (h ∷ hs) m → Turns (h ∷ hs) hs (deferred free h m)
  unfolding deferred
  deferred-Turns h m hm = bind-Turns (h ∷ hs) (h ∷ hs) hs m _ hm (λ r.
      then-Turns (h ∷ hs) hs hs (close free h) (ret r) (close-Turns hs free h) (ret-Turns W hs r))

  after-gained :
      (k : ℕ → Op W A)
      → Turns hs hs (k zero)
      → ((h : ℕ) → Turns (suc h ∷ hs) hs (k (suc h)))
      → (h : ℕ) (w : W) (rest : List Event)
      → settle hs ((gained h ++ (k h w).1) ++ rest) ≡ settle hs rest
  unfolding gained Turns settle settle_event
  after-gained k h0 h1 zero w rest = h0 w rest
  after-gained k h0 h1 (suc h) w rest = h1 h w rest

  -- a handle that a call has opened, if it has, and what follows
  pub acquire-Turns :
      (f : W → W × ℕ) (k : ℕ → Op W A)
      → Turns hs hs (k zero)
      → ((h : ℕ) → Turns (suc h ∷ hs) hs (k (suc h)))
      → Turns hs hs (acquire f >>= k)
  unfolding acquire ◌>>=◌ Turns
  acquire-Turns f k h0 h1 w rest = after-gained k h0 h1 (f w).1 (f w).0 rest

  pub acquire-holding-Turns :
      (f : W → W × ℕ) (failed : A) (body : ℕ → Op W A)
      → ((h : ℕ) → Turns (suc h ∷ hs) (suc h ∷ hs) (body (suc h)))
      → Turns hs hs (acquire f >>= holding free failed body)
  unfolding holding
  acquire-holding-Turns f failed body hb =
      acquire-Turns f (holding free failed body) (ret-Turns W hs failed)
        (λ h. deferred-Turns (suc h) (body (suc h)) (hb h))
