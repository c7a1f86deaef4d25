-- ===== src/Datas/Ports/Dedupe.antt =====
-- internal/datas/providers_linux.go: the ports that `collectSS` keeps.
use limiz.Base.{
  ℕ, min, Text, Map, List, [], ◌∷◌, ◌++◌, Bool, true, some, Option, if◌then◌else◌, text_eq,
  text_eq→eq, none, sym, lookup, All, All-append, All-mono, insert, lookup-insert, count_of, ◌≡◌,
  ◌∙◌, refl, ap, arith, Bool-cases, inl, inr, codes,
}
use limiz.Strings.Affix.{Lacks}
use limiz.Datas.Ports.Keys.{same_port, IsPlain, text_eq-port_key}
use limiz.Datas.Ports.Protocols.{HasProtocol, collect_ss_proto-HasProtocol}
use limiz.Datas.Ports.{PortInfo, port_key, is_known, dedupe, collect_ss, collect_ss_proto}

-- the number of ports with a key
abbrev with_key : Text → List PortInfo → ℕ
with_key k pis = count_of (λ pi. text_eq (port_key pi) k) pis

is_known-insert :
    (k j : Text) (seen : Map Bool)
    → is_known k (insert j true seen) ≡ (if text_eq j k then true else is_known k seen)
unfolding is_known
is_known-insert k j seen = elim (Bool-cases (text_eq j k)) [
  | inl e ↦ rw (is_known, lookup-insert j k true seen, e) refl
  | inr e ↦ rw (is_known, lookup-insert j k true seen, e) refl
]

dedupe-count :
    (k : Text) (seen : Map Bool) (pis : List PortInfo)
    → with_key k (dedupe seen pis) ≡ (if is_known k seen then 0 else min 1 (with_key k pis))
unfolding dedupe count_of
dedupe-count k seen [] = ground arith
dedupe-count k seen (pi ∷ pis) = elim (Bool-cases (text_eq (port_key pi) k)) [
  | inl e ↦
      let same : port_key pi ≡ k = text_eq→eq (port_key pi) k e in
      let known : is_known (port_key pi) seen ≡ is_known k seen = ap (λ j. is_known j seen) same in
      ground (
        arith,
        known,
        dedupe-count k seen pis,
        dedupe-count k (insert (port_key pi) true seen) pis,
        is_known-insert k (port_key pi) seen,
      )
  | inr e ↦ ground (
    arith,
    dedupe-count k seen pis,
    dedupe-count k (insert (port_key pi) true seen) pis,
    is_known-insert k (port_key pi) seen,
  )
]

-- the first element that passes a test
unfoldable pub first {ℓ} : {A : Type ℓ} → (A → Bool) → List A → Option A
first p [] = none
first p (x ∷ xs) = if p x then some x else first p xs

dedupe-first :
    (k : Text) (seen : Map Bool) (pis : List PortInfo)
    → first (λ pi. text_eq (port_key pi) k) (dedupe seen pis)
      ≡ (if is_known k seen then none else first (λ pi. text_eq (port_key pi) k) pis)
unfolding dedupe first
dedupe-first k seen [] = ground arith
dedupe-first k seen (pi ∷ pis) = elim (Bool-cases (text_eq (port_key pi) k)) [
  | inl e ↦
      let same : port_key pi ≡ k = text_eq→eq (port_key pi) k e in
      let known : is_known (port_key pi) seen ≡ is_known k seen = ap (λ j. is_known j seen) same in
      ground (arith, known, dedupe-first k seen pis)
  | inr e ↦ ground (
    arith,
    dedupe-first k seen pis,
    dedupe-first k (insert (port_key pi) true seen) pis,
    is_known-insert k (port_key pi) seen,
  )
]

All-dedupe {κ} :
    (P : PortInfo → Type κ) (seen : Map Bool) (pis : List PortInfo)
    → All P pis
    → All P (dedupe seen pis)
unfolding dedupe
All-dedupe P seen [] h = tt
All-dedupe P seen (pi ∷ pis) h = elim (Bool-cases (is_known (port_key pi) seen)) [
  | inl e ↦ rw (dedupe, e) (All-dedupe P seen pis h.1)
  | inr e ↦ rw (dedupe, e) (h.0, All-dedupe P (insert (port_key pi) true seen) pis h.1)
]

module _ (q : PortInfo) (plain : IsPlain q) where
  count-same_port :
      (pis : List PortInfo)
      → All IsPlain pis
      → count_of (same_port q) pis ≡ with_key (port_key q) pis
  unfolding count_of
  count-same_port [] h = refl
  count-same_port (pi ∷ pis) h =
      ground (arith, text_eq-port_key q pi plain h.0, count-same_port pis h.1)

  first-same_port :
      (pis : List PortInfo)
      → All IsPlain pis
      → first (same_port q) pis ≡ first (λ pi. text_eq (port_key pi) (port_key q)) pis
  unfolding first
  first-same_port [] h = refl
  first-same_port (pi ∷ pis) h =
      ground (arith, text_eq-port_key q pi plain h.0, first-same_port pis h.1)

  dedupe-same_port :
      (pis : List PortInfo)
      → All IsPlain pis
      → (count_of (same_port q) (dedupe [] pis) ≡ min 1 (count_of (same_port q) pis))
        × (first (same_port q) (dedupe [] pis) ≡ first (same_port q) pis)
  dedupe-same_port pis h =
      let kept = All-dedupe IsPlain [] pis h in
      (
        count-same_port (dedupe [] pis) kept
            ∙ (dedupe-count (port_key q) [] pis
                ∙ (unfold is_known lookup in ap (min 1) (sym (count-same_port pis h)))),
        first-same_port (dedupe [] pis) kept
            ∙ (dedupe-first (port_key q) [] pis
                ∙ (unfold is_known lookup in sym (first-same_port pis h))),
      )

tcp-IsPlain : (pi : PortInfo) → pi.protocol ≡ codes "tcp" → IsPlain pi
tcp-IsPlain pi h = rw h (omega arith)

udp-IsPlain : (pi : PortInfo) → pi.protocol ≡ codes "udp" → IsPlain pi
udp-IsPlain pi h = rw h (omega arith)

-- Where the reading of both outputs of `ss` ends without a panic, `collectSS` does too. Of the ports listed with a
-- protocol, an address and a number, those of `tcp` before those of `udp`, it then keeps one, which is the first
-- of them as it is, with its process and PID, and none where none is listed. The protocol asked for has no
-- colon, as theirs have none.
pub collect_ss-keeps_first :
    (tcp udp : Option Text) (ts us : List PortInfo) (q : PortInfo)
    → Lacks b':' q.protocol
    → collect_ss_proto (codes "tcp") tcp ≡ some ts
    → collect_ss_proto (codes "udp") udp ≡ some us
    → (pis : List PortInfo) × (collect_ss tcp udp ≡ some pis)
      × (count_of (same_port q) pis ≡ min 1 (count_of (same_port q) (ts ++ us)))
      × (first (same_port q) pis ≡ first (same_port q) (ts ++ us))
unfolding collect_ss
collect_ss-keeps_first tcp udp ts us q plain t u =
    let tcps =
      All-mono (HasProtocol (codes "tcp")) IsPlain ts tcp-IsPlain
        (collect_ss_proto-HasProtocol (codes "tcp") tcp ts t) in
    let udps =
      All-mono (HasProtocol (codes "udp")) IsPlain us udp-IsPlain
        (collect_ss_proto-HasProtocol (codes "udp") udp us u) in
    let kept = dedupe-same_port q plain (ts ++ us) (All-append IsPlain ts us tcps udps) in
    (dedupe [] (ts ++ us), rw (collect_ss, t, u) refl, kept.0, kept.1)
