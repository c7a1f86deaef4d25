-- ===== src/Effects.antt =====
-- Operations on the state of a system that come with what they did to it, in order: the writer and state monad
-- of internal/winsvc and internal/tlsutil.
use limiz.Base.{List, [], ◌++◌}

-- the state, the events, and the result
abbrev pub Op : Type 0 → Type 0 → Type 0 → Type 0
Op E W A = W → W × List E × A

infixl 5 ◌>>=◌ ◌>>◌
unfoldable pub ◌>>=◌ : {E W A B : Type 0} → Op E W A → (A → Op E W B) → Op E W B
◌>>=◌ m f w = let (w', es, a) = m w in let (w'', fs, b) = f a w' in (w'', es ++ fs, b)

unfoldable pub ◌>>◌ : {E W B : Type 0} → Op E W (Unit {0}) → Op E W B → Op E W B
m >> k = m >>= λ _. k

unfoldable pub ret : {E W A : Type 0} → A → Op E W A
ret a w = (w, [], a)
