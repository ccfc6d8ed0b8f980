-- ===== src/Addr.antt =====
-- The standard library's addresses as the relay uses them: `Ipv4Addr` by its octets, `IpAddr`,
-- `SocketAddr`, and their equality as map keys.
use swifttunnel_relay.Prelude.{
  ℕ, ◌≡◌, ◌↔◌, Bool, true, false, ◌&&◌, List, [], ◌∷◌, arith, be32, Keyed, eqb,
}

pub record Ipv4Addr : Type 0 where
  pub o0 : ℕ
  pub o1 : ℕ
  pub o2 : ℕ
  pub o3 : ℕ

-- `Ipv4Addr::new`
abbrev pub ipv4 : ℕ → ℕ → ℕ → ℕ → Ipv4Addr
ipv4 a b c d = record { o0 = a; o1 = b; o2 = c; o3 = d }

-- `u32::from(ip)`
abbrev pub to_u32 : Ipv4Addr → ℕ
to_u32 ip = be32 ip.o0 ip.o1 ip.o2 ip.o3

abbrev pub octets : Ipv4Addr → List ℕ
octets ip = ip.o0 ∷ ip.o1 ∷ ip.o2 ∷ ip.o3 ∷ []

pub data IpAddr : Type 0 where
  v4 : Ipv4Addr → IpAddr
  v6 : ℕ → IpAddr

pub record SocketAddr : Type 0 where
  pub ip : IpAddr
  pub port : ℕ

unfoldable pub ipv4_beq : Ipv4Addr → Ipv4Addr → Bool
ipv4_beq x y = eqb x.o0 y.o0 && (eqb x.o1 y.o1 && (eqb x.o2 y.o2 && eqb x.o3 y.o3))

unfoldable pub ip_beq : IpAddr → IpAddr → Bool
unfolding ipv4_beq
ip_beq (v4 x) (v4 y) = ipv4_beq x y
ip_beq (v6 x) (v6 y) = eqb x y
ip_beq (v4 x) (v6 y) = false
ip_beq (v6 x) (v4 y) = false

unfoldable pub socket_beq : SocketAddr → SocketAddr → Bool
unfolding ip_beq
socket_beq x y = ip_beq x.ip y.ip && eqb x.port y.port

pub ipv4_beq_iff : (x y : Ipv4Addr) → (ipv4_beq x y ≡ true) ↔ (x ≡ y)
unfolding ipv4_beq
ipv4_beq_iff x y = ground arith

pub ip_beq_iff : (x y : IpAddr) → (ip_beq x y ≡ true) ↔ (x ≡ y)
unfolding ip_beq
ip_beq_iff (v4 x) (v4 y) = ground (arith, ipv4_beq_iff x y)
ip_beq_iff (v6 x) (v6 y) = ground arith
ip_beq_iff (v4 x) (v6 y) = ground arith
ip_beq_iff (v6 x) (v4 y) = ground arith

pub socket_beq_iff : (x y : SocketAddr) → (socket_beq x y ≡ true) ↔ (x ≡ y)
unfolding socket_beq
socket_beq_iff x y = ground (arith, ip_beq_iff x.ip y.ip)

instance abbrev pub ipv4_eq : Keyed Ipv4Addr
ipv4_eq = record { matches = ipv4_beq; matches_iff = ipv4_beq_iff }

instance abbrev pub ip_eq : Keyed IpAddr
ip_eq = record { matches = ip_beq; matches_iff = ip_beq_iff }

instance abbrev pub socket_eq : Keyed SocketAddr
socket_eq = record { matches = socket_beq; matches_iff = socket_beq_iff }
