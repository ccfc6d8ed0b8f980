-- ===== src/Packet/Reader.antt =====
-- Code that reads a packet and may `return None` or panic on an index out of bounds.
use swifttunnel_relay.Prelude.{
  ℕ, ◌+◌, ◌-◌, ◌<◌, ◌≤◌, ◌++◌, [], sym, if◌then◌else◌, ap, take, drop, slice-some, take-drop,
  length-take, length-drop, ◌≡◌, ◌≢◌, refl, Bool, true, false, Option, none, some, arith, Bytes,
  be16, slice, get_elem?, length, get_elem?-of_lt,
}
use std.Path.{transport}
use swifttunnel_relay.Addr.{Ipv4Addr, ipv4}

pub data Parse {ℓ} (A : Type ℓ) : Type ℓ where
  got : A → Parse A
  rejected : Parse A
  panicked : Parse A

infixl 5 ◌>>=◌ ◌>>◌
abbrev pub ◌>>=◌ {ℓ κ} : {A : Type ℓ} {B : Type κ} → Parse A → (A → Parse B) → Parse B
got a >>= f = f a
rejected >>= f = rejected
panicked >>= f = panicked

abbrev pub ◌>>◌ {ℓ} : {B : Type ℓ} → Parse (Unit {0}) → Parse B → Parse B
m >> k = m >>= λ _. k

-- `if condition { return None }`
abbrev pub reject_if : Bool → Parse (Unit {0})
reject_if true = rejected
reject_if false = got tt

abbrev or_panic {ℓ} : {A : Type ℓ} → Option A → Parse A
or_panic none = panicked
or_panic (some b) = got b

-- `packet[i]`
unfoldable pub read : Bytes → ℕ → Parse ℕ
read packet i = or_panic (get_elem? packet i)

-- `&packet[first..last]`
unfoldable pub read_slice : Bytes → ℕ → ℕ → Parse Bytes
read_slice packet first last = or_panic (slice packet first last)

-- `u16::from_be_bytes([packet[i], packet[i + 1]])`
unfoldable pub read_u16 : Bytes → ℕ → Parse ℕ
read_u16 packet i = do hi ← read packet i; lo ← read packet (i + 1); got (be16 hi lo)

-- `Ipv4Addr::new(packet[i], packet[i + 1], packet[i + 2], packet[i + 3])`
unfoldable pub read_ip : Bytes → ℕ → Parse Ipv4Addr
read_ip packet i = do
  a ← read packet i
  b ← read packet (i + 1)
  c ← read packet (i + 2)
  d ← read packet (i + 3)
  got (ipv4 a b c d)

-- A computation that does not panic and whose result has a property.
abbrev pub Gives {ℓ} : {A : Type ℓ} → (A → Type 0) → Parse A → Type 0
Gives P (got a) = P a
Gives P rejected = Unit
Gives P panicked = ⊥

module _ {ℓ} {A : Type ℓ} (P : A → Type 0) where
  pub Gives-bind {κ} :
      {B : Type κ} (Q : B → Type 0) (m : Parse B) (f : B → Parse A)
      → Gives Q m
      → ((b : B) → Q b → Gives P (f b))
      → Gives P (m >>= f)
  Gives-bind Q (got b) f s k = k b s
  Gives-bind Q panicked f s k = absurd s
  Gives-bind Q rejected f s k = tt

  pub Gives-reject_if :
      (b : Bool) (m : Parse A) → (b ≡ false → Gives P m) → Gives P (reject_if b >> m)
  Gives-reject_if true m k = tt
  Gives-reject_if false m k = k refl

  pub Gives-if :
      (b : Bool) (m n : Parse A)
      → (b ≡ true → Gives P m)
      → (b ≡ false → Gives P n)
      → Gives P (if b then m else n)
  Gives-if true m n k l = k refl
  Gives-if false m n k l = l refl

  pub Gives-ne-panicked : (m : Parse A) → Gives P m → m ≢ panicked
  Gives-ne-panicked (got a) s e = cc
  Gives-ne-panicked rejected s e = cc
  Gives-ne-panicked panicked s e = absurd s

  pub Gives-weaken : (Q : A → Type 0) (m : Parse A) → Gives Q m → ((a : A) → Q a → P a) → Gives P m
  Gives-weaken Q (got b) s k = k b s
  Gives-weaken Q rejected s k = tt
  Gives-weaken Q panicked s k = absurd s

  pub Gives-result : (m : Parse A) (a : A) → Gives P m → m ≡ got a → P a
  Gives-result m a s e = transport (ap (Gives P) e) s

pub Gives-read :
    (packet : Bytes) (i : ℕ)
    → i < length packet
    → Gives (λ b. get_elem? packet i ≡ some b) (read packet i)
unfolding read
Gives-read packet i h = let (b, e) = get_elem?-of_lt packet i h in rw e refl

-- The big-endian number that stands at a position.
pub record U16At (packet : Bytes) (i n : ℕ) : Type 0 where
  pub hi : ℕ
  pub lo : ℕ
  pub first : get_elem? packet i ≡ some hi
  pub second : get_elem? packet (i + 1) ≡ some lo
  pub value : n ≡ be16 hi lo

pub Gives-read_u16 :
    (packet : Bytes) (i : ℕ) → i + 1 < length packet → Gives (U16At packet i) (read_u16 packet i)
unfolding read_u16
Gives-read_u16 packet i h =
    Gives-bind P _ (read packet i) _ (Gives-read packet i (omega arith)) λ hi eh.
      Gives-bind P _ (read packet (i + 1)) _ (Gives-read packet (i + 1) h)
        λ lo el. record { hi = hi; lo = lo; first = eh; second = el; value = refl }
  where
    P : ℕ → Type 0
    P = U16At packet i

-- The address that stands at a position.
pub record AddressAt (packet : Bytes) (i : ℕ) (ip : Ipv4Addr) : Type 0 where
  pub first : get_elem? packet i ≡ some ip.o0
  pub second : get_elem? packet (i + 1) ≡ some ip.o1
  pub third : get_elem? packet (i + 2) ≡ some ip.o2
  pub fourth : get_elem? packet (i + 3) ≡ some ip.o3

pub Gives-read_ip :
    (packet : Bytes) (i : ℕ) → i + 3 < length packet → Gives (AddressAt packet i) (read_ip packet i)
unfolding read_ip
Gives-read_ip packet i h =
    Gives-bind P _ (read packet i) _ (Gives-read packet i (omega arith)) λ a ea.
      Gives-bind P _ (read packet (i + 1)) _ (Gives-read packet (i + 1) (omega arith)) λ b eb.
        Gives-bind P _ (read packet (i + 2)) _ (Gives-read packet (i + 2) (omega arith)) λ c ec.
          Gives-bind P _ (read packet (i + 3)) _ (Gives-read packet (i + 3) h)
            λ d ed. record { first = ea; second = eb; third = ec; fourth = ed }
  where
    P : Ipv4Addr → Type 0
    P = AddressAt packet i

-- `part` is the part of `packet` between two positions.
pub record IsPart (packet : Bytes) (first last : ℕ) (part : Bytes) : Type 0 where
  pub split_at :
      (before : Bytes) × (after : Bytes) × (packet ≡ before ++ (part ++ after))
      × (length before ≡ first)
  pub size : length part ≡ last - first
  pub ordered : first ≤ last
  pub inside : last ≤ length packet

pub Gives-read_slice :
    (packet : Bytes) (first last : ℕ)
    → first ≤ last
    → last ≤ length packet
    → Gives (IsPart packet first last) (read_slice packet first last)
unfolding read_slice
Gives-read_slice packet first last h k = rw (slice-some packet first last h k) (record {
  split_at = (
    take first packet,
    drop (last - first) (drop first packet),
    split,
    omega (arith, length-take first packet),
  );
  size = omega (arith, length-take (last - first) (drop first packet), length-drop first packet);
  ordered = h;
  inside = k;
})
  where
    split :
        packet
        ≡ take first packet
          ++ (take (last - first) (drop first packet) ++ drop (last - first) (drop first packet))
    split = rw (take-drop (last - first) (drop first packet), take-drop first packet) refl

pub IsPart-empty : (packet : Bytes) (i : ℕ) → i ≤ length packet → IsPart packet i i []
IsPart-empty packet i h = record {
  split_at =
      (take i packet, drop i packet, sym (take-drop i packet), omega (arith, length-take i packet));
  size = omega arith;
  ordered = omega arith;
  inside = h;
}
