-- ===== src/Datapath/Relay/Step.antt =====
-- Code that runs on the shared state: it goes on with a value, leaves the handler (`continue`), or
-- panics (src/datapath_v2.rs, the receive loop).
use swifttunnel_relay.Packet.Reader.{Parse, got, rejected, panicked, Gives}
use swifttunnel_relay.Datapath.Relay.{Relay}

pub data Step (A : Type 0) : Type 0 where
  going : A → Relay → Step A
  done : Relay → Step A
  crashed : Step A

abbrev pub Run : Type 0 → Type 0
Run A = Relay → Step A

abbrev pub after : {A B : Type 0} → Step A → (A → Run B) → Step B
after (going a r) f = f a r
after (done r) f = done r
after crashed f = crashed

infixl 5 ◌>>=◌ ◌>>◌
abbrev pub ◌>>=◌ : {A B : Type 0} → Run A → (A → Run B) → Run B
◌>>=◌ m f r = after (m r) f

abbrev pub ◌>>◌ : {B : Type 0} → Run (Unit {0}) → Run B → Run B
m >> k = m >>= λ _. k

abbrev pub pure : {A : Type 0} → A → Run A
pure a r = going a r

-- a change of the state
abbrev pub modify : (Relay → Relay) → Run (Unit {0})
modify f r = going tt (f r)

-- `continue`, after a change of the state
abbrev pub finish : {A : Type 0} → (Relay → Relay) → Run A
finish f r = done (f r)

abbrev pub stop : {A : Type 0} → Run A
stop r = done r

-- a read of the receive buffer
abbrev pub reading : {A : Type 0} → Parse A → Run A
reading (got a) r = going a r
reading rejected r = done r
reading panicked r = crashed

-- What holds of the state after code that does not panic: `Q` where it goes on, `R` where it leaves.
abbrev pub Leaves : {A : Type 0} → (A → Relay → Type 0) → (Relay → Type 0) → Step A → Type 0
Leaves Q R (going a r) = Q a r
Leaves Q R (done r) = R r
Leaves Q R crashed = ⊥

pub Leaves-after :
    {A B : Type 0} (Q : A → Relay → Type 0) (S : B → Relay → Type 0) (R : Relay → Type 0)
    (s : Step A) (f : A → Run B)
    → Leaves Q R s
    → ((a : A) (r : Relay) → Q a r → Leaves S R (f a r))
    → Leaves S R (after s f)
Leaves-after Q S R (going a r) f h k = k a r h
Leaves-after Q S R (done r) f h k = h
Leaves-after Q S R crashed f h k = absurd h

pub Leaves-reading :
    {A : Type 0} (Q : A → Type 0) (S : A → Relay → Type 0) (R : Relay → Type 0) (m : Parse A)
    (r : Relay)
    → Gives Q m
    → R r
    → ((a : A) → Q a → S a r)
    → Leaves S R (reading m r)
Leaves-reading Q S R (got a) r g h k = k a g
Leaves-reading Q S R rejected r g h k = h
Leaves-reading Q S R panicked r g h k = absurd g

pub Leaves-both :
    {A : Type 0} (Q S : A → Relay → Type 0) (R T : Relay → Type 0) (s : Step A)
    → Leaves Q R s
    → Leaves S T s
    → Leaves (λ a r. Q a r × S a r) R s
Leaves-both Q S R T (going a r) h k = (h, k)
Leaves-both Q S R T (done r) h k = h
Leaves-both Q S R T crashed h k = h
