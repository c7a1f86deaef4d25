-- ===== src/Collectors/Linux/Network/Types.antt =====
-- internal/collectors/network_linux.go: the types of the metrics.
use limiz.Base.{
  refl, Text, List, [], ◌∷◌, Option, none, some, codes, text_eq, ltb, length, drop, All, All-append,
  Bool-cases, inl, inr,
}
use limiz.Strings.Affix.{cut, has_prefix, has_suffix}
use limiz.Strings.Trim.{trim_space}
use limiz.Strings.Fields.{fields}
use limiz.Strings.Lines.{scan_lines}
use limiz.Floats.{Floats}
use limiz.Collectors.Types.{IsTyped, type_of}
use limiz.Collectors.Linux.Network.{
  receive_metrics, transmit_metrics, interface_metrics, network_line, network_loop, collect_network,
}

module _ (fl : Floats) where
  open fl use {F}

  receive_metrics-IsTyped :
      (iface : Text) (fs : List Text) → All IsTyped (receive_metrics fl iface fs)
  unfolding receive_metrics type_of has_suffix has_prefix
  receive_metrics-IsTyped iface fs = (refl, (refl, (refl, (refl, tt))))

  transmit_metrics-IsTyped :
      (iface : Text) (fs : List Text) → All IsTyped (transmit_metrics fl iface fs)
  unfolding transmit_metrics type_of has_suffix has_prefix
  transmit_metrics-IsTyped iface fs = (refl, (refl, (refl, (refl, tt))))

  interface_metrics-IsTyped :
      (iface : Text) (fs : List Text) → All IsTyped (interface_metrics fl iface fs)
  unfolding interface_metrics
  interface_metrics-IsTyped iface fs = elim (Bool-cases (text_eq iface (codes "lo"))) [
    | inl lo ↦ rw (interface_metrics, lo) tt
    | inr other ↦ elim (Bool-cases (ltb (length fs) 16)) [
      | inl short ↦ rw (interface_metrics, other, short) tt
      | inr long ↦
          rw (interface_metrics, other, long)
            (All-append IsTyped (receive_metrics fl iface fs) (transmit_metrics fl iface fs)
              (receive_metrics-IsTyped iface fs) (transmit_metrics-IsTyped iface fs))
    ]
  ]

  cut-IsTyped :
      (c : Option (Text × Text))
      → All IsTyped (elim c [
        | none ↦ []
        | some (name, rest) ↦ interface_metrics fl (trim_space name) (fields rest)
      ])
  cut-IsTyped none = tt
  cut-IsTyped (some (name, rest)) = interface_metrics-IsTyped (trim_space name) (fields rest)

  network_loop-IsTyped : (ls : List Text) → All IsTyped (network_loop fl ls)
  unfolding network_loop network_line
  network_loop-IsTyped [] = tt
  network_loop-IsTyped (line ∷ ls) =
      All-append IsTyped (network_line fl line) (network_loop fl ls) (cut-IsTyped (cut b':' line))
        (network_loop-IsTyped ls)

  pub collect_network-IsTyped : (dev : Option Text) → All IsTyped (collect_network fl dev)
  unfolding collect_network
  collect_network-IsTyped none = tt
  collect_network-IsTyped (some dev) = network_loop-IsTyped (drop 2 (scan_lines dev))
