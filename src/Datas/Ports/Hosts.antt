-- ===== src/Datas/Ports/Hosts.antt =====
-- internal/datas/providers_linux.go: the address and the port of a socket.
use limiz.Base.{ℕ, Text, [], ◌∷◌, ◌++◌, none, some, codes, ◌≡◌, ◌≢◌, refl, sym, arith, ne→==}
use limiz.Strings.Affix.{Lacks, cut_last-append, has_prefix}
use limiz.Datas.Ports.{split_host_port, plain, bracketed, cut_text_last}

-- without a bracket, no pair of bracket and colon is found
cut_text_last-Lacks : (b : Text) → Lacks b']' b → cut_text_last (codes "]:") b ≡ none
unfolding cut_text_last has_prefix
cut_text_last-Lacks [] h = refl
cut_text_last-Lacks (c ∷ b) h =
    rw (cut_text_last, cut_text_last-Lacks b h.1, has_prefix, ne→== b']' c (λ e. h.0 (sym e))) refl

cut_text_last-append :
    (a b : Text) → Lacks b']' b → cut_text_last (codes "]:") (a ++ b']' ∷ b':' ∷ b) ≡ some (a, b)
unfolding cut_text_last has_prefix
cut_text_last-append [] b h = rw (cut_text_last-Lacks (b':' ∷ b) ((λ e. omega (arith, e)), h)) refl
cut_text_last-append (c ∷ a) b h = rw (cut_text_last-append a b h) refl

bracketed-append :
    (a b : Text) → Lacks b']' b → bracketed (a ++ b']' ∷ b':' ∷ b) ≡ (a ++ b']' ∷ [], b)
unfolding bracketed
bracketed-append a b h = rw (bracketed, cut_text_last-append a b h) refl

plain-append : (a b : Text) → Lacks b':' b → plain (a ++ b':' ∷ b) ≡ (a, b)
unfolding plain
plain-append a b h = rw (plain, cut_last-append b':' a b h) refl

-- An address and a port with a colon between are told apart again: an address that does not start with a
-- bracket, with a port that has no colon, and an address in brackets, with a port that has no closing one.
pub split_host_port_lem :
    (c : ℕ) (a port : Text)
    → c ≢ b'['
    → Lacks b':' port
    → Lacks b']' port
    → (split_host_port (c ∷ a ++ b':' ∷ port) ≡ (c ∷ a, port))
      × (split_host_port (b'[' ∷ a ++ b']' ∷ b':' ∷ port) ≡ (b'[' ∷ a ++ b']' ∷ [], port))
unfolding split_host_port has_prefix
split_host_port_lem c a port n colon bracket = (
  rw (split_host_port, has_prefix, ne→== b'[' c (λ e. n (sym e))) (plain-append (c ∷ a) port colon),
  bracketed-append (b'[' ∷ a) port bracket,
)
