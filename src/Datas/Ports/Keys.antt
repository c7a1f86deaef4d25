-- ===== src/Datas/Ports/Keys.antt =====
-- internal/datas/providers_linux.go: two ports have the same key in `collectSS` only if they are the same.
use limiz.Base.{
  ℕ, suc, Text, [], ◌∷◌, ◌++◌, Bool, true, false, ◌&&◌, some, text_eq, text_eq→eq, text_eq→ne,
  text_eq_refl, ◌==◌, ℤ, pos, negsuc, All, ◌≡◌, ◌≢◌, ◌∙◌, refl, sym, ap, arith, Bool-cases, inl,
  inr,
}
use mathlib.Core.Option.{some-injective}
use mathlib.Core.Path.{subst}
use limiz.Strings.Affix.{cut, cut-append, cut_last, cut_last-append, Lacks}
use limiz.Strconv.Decimal.{parse_nat, itoa, parse_nat-itoa, itoa-All, IsDigit}
use limiz.Datas.Ports.{PortInfo, print_ℤ, port_key}

unfoldable pub eq_ℤ : ℤ → ℤ → Bool
eq_ℤ (pos a) (pos b) = a == b
eq_ℤ (negsuc a) (negsuc b) = a == b
eq_ℤ _ _ = false

-- the same protocol, address and number
unfoldable pub same_port : PortInfo → PortInfo → Bool
unfolding text_eq eq_ℤ
same_port q pi =
    text_eq pi.protocol q.protocol && text_eq pi.address q.address && eq_ℤ pi.port q.port

-- as `tcp` and `udp` do
abbrev pub IsPlain : PortInfo → Type 0
IsPlain pi = Lacks b':' pi.protocol

digits-Lacks : (s : Text) → All IsDigit s → Lacks b':' s
digits-Lacks [] h = tt
digits-Lacks (c ∷ s) h = (omega arith, digits-Lacks s h.1)

print_ℤ-Lacks : (z : ℤ) → Lacks b':' (print_ℤ z)
unfolding print_ℤ
print_ℤ-Lacks (pos n) = digits-Lacks (itoa n) (itoa-All n)
print_ℤ-Lacks (negsuc n) = (omega arith, digits-Lacks (itoa (suc n)) (itoa-All (suc n)))

itoa-injective : (n m : ℕ) → itoa n ≡ itoa m → n ≡ m
itoa-injective n m h =
    some-injective n m (sym (parse_nat-itoa n) ∙ (ap parse_nat h ∙ parse_nat-itoa m))

-- a text without its first character
rest : Text → Text
rest [] = []
rest (c ∷ s) = s

no_minus : (n : ℕ) (s : Text) → itoa n ≢ b'-' ∷ s
no_minus n s h = let d = subst (All IsDigit) h (itoa-All n) in absurd (omega (arith, d.0))

eq_ℤ-print_ℤ : (a b : ℤ) → print_ℤ a ≡ print_ℤ b → eq_ℤ a b ≡ true
unfolding print_ℤ eq_ℤ rest
eq_ℤ-print_ℤ (pos a) (pos b) h = ground (arith, itoa-injective a b h)
eq_ℤ-print_ℤ (pos a) (negsuc b) h = absurd (no_minus a (itoa (suc b)) h)
eq_ℤ-print_ℤ (negsuc a) (pos b) h = absurd (no_minus b (itoa (suc a)) (sym h))
eq_ℤ-print_ℤ (negsuc a) (negsuc b) h = ground (arith, itoa-injective (suc a) (suc b) (ap rest h))

eq_ℤ→eq : (a b : ℤ) → eq_ℤ a b ≡ true → a ≡ b
unfolding eq_ℤ
eq_ℤ→eq (pos a) (pos b) h = ground arith
eq_ℤ→eq (pos a) (negsuc b) h = absurd (ground arith)
eq_ℤ→eq (negsuc a) (pos b) h = absurd (ground arith)
eq_ℤ→eq (negsuc a) (negsuc b) h = ground arith

cut_last-port_key :
    (pi : PortInfo)
    → cut_last b':' (port_key pi) ≡ some (pi.protocol ++ (b':' ∷ pi.address), print_ℤ pi.port)
unfolding port_key
cut_last-port_key pi =
    cut_last-append b':' (pi.protocol ++ (b':' ∷ pi.address)) (print_ℤ pi.port)
      (print_ℤ-Lacks pi.port)

-- ports of the same key are the same
same_port-port_key :
    (q pi : PortInfo) → IsPlain q → IsPlain pi → port_key pi ≡ port_key q → same_port q pi ≡ true
unfolding same_port
same_port-port_key q pi hq hp h =
    let both =
      some-injective _ _
        (sym (cut_last-port_key pi) ∙ (ap (cut_last b':') h ∙ cut_last-port_key q)) in
    let front = some-injective _ _ (
      sym (cut-append b':' pi.protocol pi.address hp)
      ∙ (ap (λ r. cut b':' r.0) both ∙ cut-append b':' q.protocol q.address hq)) in
    let protocol = ap (λ r. r.0) front in
    let address = ap (λ r. r.1) front in
    let port = eq_ℤ-print_ℤ pi.port q.port (ap (λ r. r.1) both) in
    rw (protocol, address, text_eq_refl q.protocol, text_eq_refl q.address, port) refl

port_key-same_port : (q pi : PortInfo) → same_port q pi ≡ true → port_key pi ≡ port_key q
unfolding same_port port_key
port_key-same_port q pi h =
    let protocol : pi.protocol ≡ q.protocol = text_eq→eq _ _ (ground arith) in
    let address : pi.address ≡ q.address = text_eq→eq _ _ (ground arith) in
    let port : pi.port ≡ q.port = eq_ℤ→eq _ _ (ground arith) in rw (protocol, address, port) refl

-- the key tells the ports apart
pub text_eq-port_key :
    (q pi : PortInfo) → IsPlain q → IsPlain pi → text_eq (port_key pi) (port_key q) ≡ same_port q pi
text_eq-port_key q pi hq hp = elim (Bool-cases (text_eq (port_key pi) (port_key q))) [
  | inl e ↦ rw e (sym (same_port-port_key q pi hq hp (text_eq→eq _ _ e)))
  | inr e ↦ elim (Bool-cases (same_port q pi)) [
    | inl s ↦ absurd (text_eq→ne _ _ e (port_key-same_port q pi s))
    | inr s ↦ rw (e, s) refl
  ]
]
