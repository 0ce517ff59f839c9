-- ===== src/Api/Ports.antt =====
-- `Start` of the API server: the ports that are tried, and the file that the bound one is kept in.
use true_dns.Base.{
  ℕ, ℤ, pos, ◌≡◌, refl, inl, inr, Bool, Option, none, some, List, [], ◌∷◌, ◌++◌, if◌then◌else◌,
  Option-cases, Bool-cases, take, true, false, ◌⊎◌, All, ap, sym, subst,
}
use true_dns.Text.{Bytes, codes, bytes_eq, bytes_eq_iff, trim_space}
use true_dns.Net.{Net}

-- What the program uses of strconv, with the documented facts: a number that is printed has no
-- space around it, and is parsed as itself.
pub record Strconv : Type 0 where
  -- `strconv.Itoa` of a number that is not negative
  pub itoa : ℕ → Bytes
  -- `strconv.Atoi`; `none` stands for an error
  pub atoi : Bytes → Option ℤ

abbrev pub newline_text : Bytes
newline_text = b'\n' ∷ []

pub record IsLawful (conv : Strconv) : Type 0 where
  pub atoi_itoa : (n : ℕ) → conv.atoi (conv.itoa n) ≡ some (pos n)
  pub trim_itoa : (n : ℕ) → trim_space (conv.itoa n ++ newline_text) ≡ conv.itoa n

-- `fallbackPorts`
abbrev pub fallback_ports : List Bytes
fallback_ports = codes "5378" ∷ codes "15378" ∷ codes "25378" ∷ codes "35378" ∷ codes "45378" ∷ []

-- the fallback ports but the configured one
unfoldable pub other_ports : Bytes → List Bytes → List Bytes
other_ports port [] = []
other_ports port (c ∷ cs) =
    let rest = other_ports port cs in if bytes_eq c port then rest else c ∷ rest

-- the ports that are tried, in this order
unfoldable pub candidates : Bytes → List Bytes
unfolding other_ports
candidates port = port ∷ (other_ports port fallback_ports ++ (codes "0" ∷ []))

-- What the system does when the port file is written: it writes all; the directory or the file
-- cannot be made or opened; or the write to the file, which is emptied first, breaks off after some
-- bytes.
pub data Writing : Type 0 where
  written not_opened : Writing
  broken_off : ℕ → Writing

-- the file of `PortFile` after `WritePortFile`
abbrev pub write_port_file : Strconv → Writing → ℕ → Option Bytes → Option Bytes
write_port_file conv written port file = some (conv.itoa port ++ newline_text)
write_port_file conv not_opened port file = file
write_port_file conv (broken_off n) port file = some (take n (conv.itoa port ++ newline_text))

-- the port file after the loop, with the port that it bound
abbrev pub port_file_after : Strconv → Writing → Option Bytes → Option ℕ → Option Bytes
port_file_after conv writing file none = file
port_file_after conv writing file (some n) = write_port_file conv writing n file

-- `ReadPortFile`; `none` stands for an error
abbrev pub read_port_file : Strconv → Option Bytes → Option ℤ
read_port_file conv none = none
read_port_file conv (some text) = conv.atoi (trim_space text)

-- A list of ports without one of them, in the same order.
pub data Without (port : Bytes) : List Bytes → List Bytes → Type 0 where
  without_none : Without port [] []
  keeps :
      {c : Bytes} {cs rest : List Bytes}
      → ¬ (c ≡ port)
      → Without port cs rest
      → Without port (c ∷ cs) (c ∷ rest)
  drops :
      {c : Bytes} {cs rest : List Bytes}
      → c ≡ port
      → Without port cs rest
      → Without port (c ∷ cs) rest

-- The configured port, then the fallback ports without it, and last the port 0.
abbrev pub IsCandidates : Bytes → List Bytes → Type 0
IsCandidates port ps =
    (others : List Bytes) × (ps ≡ port ∷ (others ++ (codes "0" ∷ [])))
    × Without port
        (codes "5378" ∷ codes "15378" ∷ codes "25378" ∷ codes "35378" ∷ codes "45378" ∷ []) others

other_ports-Without : (port : Bytes) (cs : List Bytes) → Without port cs (other_ports port cs)
unfolding other_ports
other_ports-Without port [] = without_none
other_ports-Without port (c ∷ cs) = elim (Bool-cases (bytes_eq c port)) [
  | inl b ↦ rw (b, other_ports) (drops ((bytes_eq_iff c port).0 b) (other_ports-Without port cs))
  | inr b ↦
      rw (b, other_ports)
        (keeps (λ e. absurd (refute b ((bytes_eq_iff c port).1 e))) (other_ports-Without port cs))
]
  where
    refute : {x : Bool} → x ≡ false → x ≡ true → ⊥
    refute e f = cc

candidates-IsCandidates : (port : Bytes) → IsCandidates port (candidates port)
unfolding candidates
candidates-IsCandidates port =
    (other_ports port fallback_ports, refl, other_ports-Without port fallback_ports)

module _ (net : Net) (conv : Strconv) where
  -- the host and the port of the configured address
  abbrev pub split_addr : Bytes → Bytes × Bytes
  split_addr addr = elim (net.split_host_port addr) [ none ↦ (addr, []) | some (h, p) ↦ (h, p) ]

  module _ (listen : Bytes → Option ℕ) where
    -- the port that is bound at the first address where `net.Listen` succeeds
    unfoldable pub first_bound : Bytes → List Bytes → Option ℕ
    first_bound host [] = none
    first_bound host (p ∷ ps) = elim (listen (net.join_host_port host p)) [
      | none ↦ first_bound host ps
      | some n ↦ some n
    ]

    -- `Start`: the port that is bound, and the port file
    unfoldable pub start : Writing → Bytes → Option Bytes → Option ℕ × Option Bytes
    unfolding first_bound candidates
    start writing addr file =
        let (host, port) = split_addr addr in
        let bound = first_bound host (candidates port) in
        (bound, port_file_after conv writing file bound)

    -- The ports of a list that are tried: up to the first that can be bound, or all.
    abbrev pub IsFirst : Bytes → List Bytes → Option ℕ → Type 0
    IsFirst host ps none = All (λ p. listen (net.join_host_port host p) ≡ none) ps
    IsFirst host ps (some n) =
        (pre : List Bytes) × (p : Bytes) × (post : List Bytes) × (ps ≡ pre ++ (p ∷ post))
        × All (λ q. listen (net.join_host_port host q) ≡ none) pre
        × (listen (net.join_host_port host p) ≡ some n)

    IsFirst-cons :
        (host p : Bytes) (ps : List Bytes) (o : Option ℕ)
        → listen (net.join_host_port host p) ≡ none
        → IsFirst host ps o
        → IsFirst host (p ∷ ps) o
    IsFirst-cons host p ps none e h = (e, h)
    IsFirst-cons host p ps (some n) e (pre, q, post, split, unbound, bound) =
        (p ∷ pre, q, post, ap (◌∷◌ p) split, (e, unbound), bound)

    first_bound-IsFirst : (host : Bytes) (ps : List Bytes) → IsFirst host ps (first_bound host ps)
    unfolding first_bound
    first_bound-IsFirst host [] = tt
    first_bound-IsFirst host (p ∷ ps) = elim (Option-cases (listen (net.join_host_port host p))) [
      | inr (n, e) ↦
          let found : first_bound host (p ∷ ps) ≡ some n =
            unfold first_bound in rw (e, first_bound) refl in
          subst (IsFirst host (p ∷ ps)) (sym found) ([], p, ps, refl, tt, e)
      | inl e ↦
          let passed : first_bound host (p ∷ ps) ≡ first_bound host ps =
            unfold first_bound in rw (e, first_bound) refl in
          subst (IsFirst host (p ∷ ps)) (sym passed)
            (IsFirst-cons host p ps (first_bound host ps) e (first_bound-IsFirst host ps))
    ]

    -- A start binds the configured port if that can be bound; else the first of 5378, 15378, 25378,
    -- 35378 and 45378 that can be, the configured one left out; and else a port that the system
    -- chooses. The port that it bound is in the port file if that is written in full. If none can be
    -- bound, it leaves the port file alone.
    pub start-IsFirst :
        (writing : Writing) (addr : Bytes) (file : Option Bytes)
        → IsCandidates (split_addr addr).1 (candidates (split_addr addr).1)
          × IsFirst (split_addr addr).0 (candidates (split_addr addr).1) (start writing addr file).0
          × ((((start writing addr file).0 ≡ none) × ((start writing addr file).1 ≡ file))
              ⊎ ((n : ℕ) × ((start writing addr file).0 ≡ some n)
                  × (((start writing addr file).1 ≡ some (conv.itoa n ++ newline_text))
                      ⊎ (¬ (writing ≡ Writing.written)))))
    unfolding start
    start-IsFirst writing addr file = (
      candidates-IsCandidates (split_addr addr).1,
      first_bound-IsFirst (split_addr addr).0 (candidates (split_addr addr).1),
      elim (Option-cases (first_bound (split_addr addr).0 (candidates (split_addr addr).1))) [
        | inl e ↦ inl (e, ap (port_file_after conv writing file) e)
        | inr (n, e) ↦ inr (n, e, recorded writing file n e)
      ],
    )
      where
        recorded :
            (writing : Writing) (file : Option Bytes) (n : ℕ)
            → first_bound (split_addr addr).0 (candidates (split_addr addr).1) ≡ some n
            → (port_file_after conv writing file
                  (first_bound (split_addr addr).0 (candidates (split_addr addr).1))
                ≡ some (conv.itoa n ++ newline_text))
              ⊎ (¬ (writing ≡ Writing.written))
        recorded written file n e = inl (ap (port_file_after conv written file) e)
        recorded not_opened file n e = inr (λ h. cc)
        recorded (broken_off k) file n e = inr (λ h. cc)
