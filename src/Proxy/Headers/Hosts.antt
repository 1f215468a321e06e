-- ===== src/Proxy/Headers/Hosts.antt =====
-- Host headers, with and without a port.
use trino_goway.Base.{ℕ, ◌≡◌, refl, false, ◌==◌, none, some, [], ◌∷◌, ◌++◌, arith, Text, All}
use trino_goway.Proxy.Headers.{last_cut, first_cut, host_only, forwarded_port, default_port}

abbrev pub Lacks : ℕ → Text → Type 0
Lacks b = All (λ c. (c == b) ≡ false)

last_cut-none : (b : ℕ) (s : Text) → Lacks b s → last_cut b s ≡ none
unfolding last_cut
last_cut-none b [] h = refl
last_cut-none b (c ∷ s) h = ground (arith, last_cut-none b s h.1)

last_cut-append : (b : ℕ) (x y : Text) → Lacks b y → last_cut b (x ++ (b ∷ y)) ≡ some (x, y)
unfolding last_cut
last_cut-append b [] y h = ground (arith, last_cut-none b y h)
last_cut-append b (c ∷ x) y h = ground (arith, last_cut-append b x y h)

first_cut-append : (b : ℕ) (x y : Text) → Lacks b x → first_cut b (x ++ (b ∷ y)) ≡ some (x, y)
unfolding first_cut
first_cut-append b [] y h = ground arith
first_cut-append b (c ∷ x) y h = ground (arith, first_cut-append b x y h.1)

-- A host header `name:port` splits into the name and the port, and `[address]:port` into the address
-- in its brackets and the port. Without a port the name or address is whole and the port is that of
-- the scheme.
pub host_header_split :
    (c : ℕ) (name port address proto : Text)
    → (c == b'[') ≡ false
    → Lacks b':' (c ∷ name)
    → Lacks b':' port
    → Lacks b']' address
    → ((host_only ((c ∷ name) ++ (b':' ∷ port)) ≡ c ∷ name)
        × (forwarded_port ((c ∷ name) ++ (b':' ∷ port)) proto ≡ port))
      × ((host_only (c ∷ name) ≡ c ∷ name) × (forwarded_port (c ∷ name) proto ≡ default_port proto))
      × ((host_only (b'[' ∷ (address ++ (b']' ∷ (b':' ∷ port)))) ≡ b'[' ∷ (address ++ (b']' ∷ [])))
          × (forwarded_port (b'[' ∷ (address ++ (b']' ∷ (b':' ∷ port)))) proto ≡ port))
      × ((host_only (b'[' ∷ (address ++ (b']' ∷ []))) ≡ b'[' ∷ (address ++ (b']' ∷ [])))
          × (forwarded_port (b'[' ∷ (address ++ (b']' ∷ []))) proto ≡ default_port proto))
unfolding host_only forwarded_port
host_header_split c name port address proto h n p a =
    let plain = last_cut-append b':' (c ∷ name) port p in
    let bare = last_cut-none b':' (c ∷ name) n in
    let six = first_cut-append b']' (b'[' ∷ address) (b':' ∷ port) (refl, a) in
    let six_bare = first_cut-append b']' (b'[' ∷ address) [] (refl, a) in
    (
      (ground arith, ground arith),
      (ground arith, ground arith),
      (ground arith, ground arith),
      (ground arith, ground arith),
    )
