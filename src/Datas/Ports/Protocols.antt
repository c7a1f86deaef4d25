-- ===== src/Datas/Ports/Protocols.antt =====
-- internal/datas/providers_linux.go: the ports of a call of `ss` have the protocol that it is called for.
use limiz.Base.{
  Text, List, [], ◌∷◌, none, some, Option, codes, All, All-append, ◌≡◌, refl, Bool-cases,
  Option-cases, inl, inr, drop, pos,
}
use mathlib.Core.Path.{subst}
use limiz.Strings.Affix.{has_prefix}
use limiz.Strings.Fields.{fields}
use limiz.Strings.Split.{split}
use limiz.Datas.Ports.{
  PortInfo, with_users, parse_ss_users, line_ports, is_zero, split_host_port, atoi, ss_loop,
  collect_ss_proto,
}

module _ (proto : Text) where
  abbrev pub HasProtocol : PortInfo → Type 0
  HasProtocol pi = pi.protocol ≡ proto

  abbrev IsLine : Option PortInfo → Type 0
  IsLine none = Unit
  IsLine (some pi) = HasProtocol pi

  abbrev pub AreAll : Option (List PortInfo) → Type 0
  AreAll none = Unit
  AreAll (some pis) = All HasProtocol pis

  with_users-IsLine : (pi : PortInfo) (fs : List Text) → HasProtocol pi → IsLine (with_users pi fs)
  unfolding with_users
  with_users-IsLine pi [] h = h
  with_users-IsLine pi (f ∷ fs) h = elim (Bool-cases (has_prefix (codes "users:") f)) [
    | inl e ↦ elim (Option-cases (parse_ss_users f)) [
      | inl o ↦ rw (with_users, e, o) tt
      | inr (user, o) ↦ rw (with_users, e, o) h
    ]
    | inr e ↦ rw (with_users, e) (with_users-IsLine pi fs h)
  ]

  line_ports-AreAll : (fs : List Text) → AreAll (line_ports proto fs)
  unfolding line_ports
  line_ports-AreAll [] = tt
  line_ports-AreAll (a ∷ []) = tt
  line_ports-AreAll (a ∷ b ∷ []) = tt
  line_ports-AreAll (a ∷ b ∷ c ∷ []) = tt
  line_ports-AreAll (a ∷ b ∷ c ∷ d ∷ []) = tt
  line_ports-AreAll (a ∷ b ∷ c ∷ local ∷ e ∷ rest) =
      let (addr, port_text) = split_host_port local in
      let port = atoi port_text in
      let pi : PortInfo = record {
        protocol = proto;
        address = addr;
        port = port;
        pid = pos 0;
        process = [];
      } in
      elim (Bool-cases (is_zero port)) [
        | inl z ↦ rw (line_ports, z) tt
        | inr z ↦
            let known = with_users-IsLine pi (e ∷ rest) refl in
            elim (Option-cases (with_users pi (e ∷ rest))) [
              | inl o ↦ rw (line_ports, z, o) tt
              | inr (found, o) ↦ rw (line_ports, z, o) ((rw o at known), tt)
            ]
      ]

  ss_loop-AreAll : (lines : List Text) → AreAll (ss_loop proto lines)
  unfolding ss_loop
  ss_loop-AreAll [] = tt
  ss_loop-AreAll (line ∷ lines) = elim (Option-cases (line_ports proto (fields line))) [
    | inl e ↦ rw (ss_loop, e) tt
    | inr (pis, e) ↦ elim (Option-cases (ss_loop proto lines)) [
      | inl o ↦ rw (ss_loop, e, o) tt
      | inr (rest, o) ↦
          rw (ss_loop, e, o)
            (All-append HasProtocol pis rest (rw e at (line_ports-AreAll (fields line)))
              (rw o at (ss_loop-AreAll lines)))
    ]
  ]

  collect_ss_proto-AreAll : (out : Option Text) → AreAll (collect_ss_proto proto out)
  unfolding collect_ss_proto
  collect_ss_proto-AreAll none = tt
  collect_ss_proto-AreAll (some out) = ss_loop-AreAll (drop 1 (split b'\n' out))

  pub collect_ss_proto-HasProtocol :
      (out : Option Text) (pis : List PortInfo)
      → collect_ss_proto proto out ≡ some pis
      → All HasProtocol pis
  collect_ss_proto-HasProtocol out pis h = subst AreAll h (collect_ss_proto-AreAll out)
